-- ===== src/Hub/Formato/Remetente.antt =====
-- src/hub.go, comCampoFrom: the sender's id is the last member of the relayed object.
use mathlib.Core.List.{reverse, reverse-append, reverse-cons, reverse-reverse}
use greenlabs_server.Comum.{
  ℕ, suc, ◌+◌, ◌-◌, ◌≡◌, refl, ap, ◌∙◌, Bool, true, false, List, [], ◌∷◌, ◌++◌, arith, length,
  length-append, take-append_length, append_assoc, All, All-append, ltb, ◌≢◌, sym, if_cases,
}
use greenlabs_server.Comum.Texto.{Texto, trim_left, trim_right, vazio}
use greenlabs_server.Hub.Formato.{
  branco, espaco_ascii, ultimo_byte, sufixo_from, com_corpo, com_campo_from,
}

abbrev Corta : (ℕ → Bool) → List ℕ → Type 0
Corta cut xs = All (λ b. cut b ≡ true) xs

trim_left_para :
    (cut : ℕ → Bool) (ws : List ℕ) (c : ℕ) (ys : List ℕ)
    → Corta cut ws
    → cut c ≡ false
    → trim_left cut (ws ++ (c ∷ ys)) ≡ c ∷ ys
unfolding trim_left
trim_left_para cut [] c ys h k = rw k
trim_left_para cut (w ∷ ws) c ys h k = rw h.0 (trim_left_para cut ws c ys h.1 k)

reverse-Corta : (cut : ℕ → Bool) (ws : List ℕ) → Corta cut ws → Corta cut (reverse ws)
reverse-Corta cut [] h = tt
reverse-Corta cut (w ∷ ws) h =
    rw (reverse-cons w ws)
      (All-append (λ b. cut b ≡ true) (reverse ws) (w ∷ []) (reverse-Corta cut ws h.1) (h.0, tt))

trim_right_para :
    (cut : ℕ → Bool) (xs : List ℕ) (c : ℕ) (ws : List ℕ)
    → Corta cut ws
    → cut c ≡ false
    → trim_right cut (xs ++ (c ∷ ws)) ≡ xs ++ (c ∷ [])
unfolding trim_right
trim_right_para cut xs c ws h k = rw (
  reverse-append xs (c ∷ ws),
  reverse-cons c ws,
  append_assoc (reverse ws) (c ∷ []) (reverse xs),
  trim_left_para cut (reverse ws) c (reverse xs) (reverse-Corta cut ws h) k,
  reverse-cons c (reverse xs),
  reverse-reverse xs,
)

ultimo_byte-append : (xs : List ℕ) (c : ℕ) → ultimo_byte (xs ++ (c ∷ [])) ≡ c
ultimo_byte-append [] c = refl
ultimo_byte-append (x ∷ []) c = refl
ultimo_byte-append (x ∷ y ∷ xs) c = ultimo_byte-append (y ∷ xs) c

abbrev so_brancos : List ℕ → Bool
so_brancos miolo = vazio (trim_right espaco_ascii (trim_left espaco_ascii miolo))

com_corpo_objeto :
    (bruto miolo : List ℕ) (de : Texto)
    → com_corpo bruto (b'{' ∷ (miolo ++ (b'}' ∷ []))) de
      ≡ (b'{' ∷ miolo) ++ sufixo_from (so_brancos miolo) de
unfolding com_corpo
com_corpo_objeto bruto miolo de =
    let corpo : List ℕ = b'{' ∷ (miolo ++ (b'}' ∷ [])) in
    let l : length corpo ≡ length miolo + 2 = omega (arith, length-append miolo (b'}' ∷ [])) in
    let e1 : length corpo - 1 ≡ suc (length miolo) = omega (arith, l) in
    let e2 : length corpo - 2 ≡ length miolo = omega (arith, l) in
    let t : ltb (length corpo) 2 ≡ false = ground (arith, l) in
    rw (t, ultimo_byte-append (b'{' ∷ miolo) b'}', e1, e2, take-append_length miolo (b'}' ∷ []))

-- An object of the client, with blanks behind it or not, keeps all its text up to the closing brace
-- and gains one member at its end: the sender's id under "from".
pub com_campo_from_objeto :
    (miolo ws : List ℕ) (de : Texto)
    → All (λ b. branco b ≡ true) ws
    → com_campo_from (b'{' ∷ (miolo ++ (b'}' ∷ ws))) de
      ≡ (b'{' ∷ miolo)
        ++ sufixo_from (vazio (trim_right espaco_ascii (trim_left espaco_ascii miolo))) de
unfolding com_campo_from
com_campo_from_objeto miolo ws de h =
    ap (λ (c : List ℕ). com_corpo (b'{' ∷ (miolo ++ (b'}' ∷ ws))) c de)
      (trim_right_para branco (b'{' ∷ miolo) b'}' ws h (unfold branco in refl))
    ∙ com_corpo_objeto (b'{' ∷ (miolo ++ (b'}' ∷ ws))) miolo de

trim_left_sufixo : (cut : ℕ → Bool) (t : List ℕ) → (us : List ℕ) × (us ++ trim_left cut t ≡ t)
unfolding trim_left
trim_left_sufixo cut [] = ([], refl)
trim_left_sufixo cut (c ∷ cs) =
    let (us, e) = trim_left_sufixo cut cs in
    if_cases (λ (r : List ℕ). (vs : List ℕ) × (vs ++ r ≡ c ∷ cs)) (cut c)
      (λ _. (c ∷ us, ap (◌∷◌ c) e)) (λ _. ([], refl))

trim_right_prefixo : (cut : ℕ → Bool) (s : List ℕ) → (ws : List ℕ) × (trim_right cut s ++ ws ≡ s)
unfolding trim_right
trim_right_prefixo cut s =
    let (us, e) = trim_left_sufixo cut (reverse s) in
    (
      reverse us,
      sym (reverse-append us (trim_left cut (reverse s)))
          ∙ ap (reverse {A = ℕ}) e
          ∙ reverse-reverse s,
    )

com_corpo_intacto :
    (b : ℕ) (xs corpo ws : List ℕ) (de : Texto)
    → b ≢ b'{'
    → corpo ++ ws ≡ b ∷ xs
    → com_corpo (b ∷ xs) corpo de ≡ b ∷ xs
unfolding com_corpo
com_corpo_intacto b xs [] ws de n e = refl
com_corpo_intacto b xs (c ∷ cs) ws de n e = let k : c ≡ b = cc in ground arith

-- A message whose first byte is not the brace, a blank before an object included, is passed on as it
-- came, without the sender's id.
pub com_campo_from_intacto :
    (b : ℕ) (xs : List ℕ) (de : Texto) → b ≢ b'{' → com_campo_from (b ∷ xs) de ≡ b ∷ xs
unfolding com_campo_from
com_campo_from_intacto b xs de n =
    let (ws, e) = trim_right_prefixo branco (b ∷ xs) in
    com_corpo_intacto b xs (trim_right branco (b ∷ xs)) ws de n e

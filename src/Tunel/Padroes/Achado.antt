-- ===== src/Tunel/Padroes/Achado.antt =====
-- src/tunel.go: the address that is found in the output of cloudflared.
use greenlabs_server.Comum.{
  ℕ, ◌-◌, ◌≡◌, refl, ap, ◌∙◌, Bool, true, false, ◌&&◌, ◌||◌, Option, none, some, [], ◌∷◌, ◌++◌,
  append_assoc, ◌==◌, leb, length, length-append, take, take-append_length, arith,
}
use greenlabs_server.Comum.Texto.{Texto, codes, vazio, has_prefix, trim_prefix}
use greenlabs_server.Tunel.Padroes.{
  dobrar, no_nome, apos_literal, trecho, apos_nome, casar_cloudflare, find_string, em_wss,
}

-- A name as cloudflared gives it: lower-case letters, digits and dashes.
abbrev pub minuscula : ℕ → Bool
minuscula c = (leb b'a' c && leb c b'z') || (leb b'0' c && leb c b'9') || (c == b'-')

abbrev pub todas_minusculas : Texto → Bool
todas_minusculas [] = true
todas_minusculas (c ∷ cs) = minuscula c && todas_minusculas cs

-- The text "://" stands somewhere.
abbrev pub tem_esquema : Texto → Bool
tem_esquema [] = false
tem_esquema (c ∷ cs) = has_prefix (c ∷ cs) (codes "://") || tem_esquema cs

abbrev pub endereco_cloudflare : Texto → Texto
endereco_cloudflare nome = codes "https://" ++ (nome ++ codes ".trycloudflare.com")

no_nome-minuscula : (c : ℕ) → minuscula c ≡ true → no_nome c ≡ true
unfolding no_nome dobrar
no_nome-minuscula c e = ground (arith, e)

trecho-nome :
    (nome resto : Texto)
    → todas_minusculas nome ≡ true
    → trecho no_nome (nome ++ (b'.' ∷ resto)) ≡ (nome, b'.' ∷ resto)
unfolding trecho
trecho-nome [] resto e = unfold no_nome dobrar in refl
trecho-nome (c ∷ cs) resto e =
    rw (trecho-nome cs resto (ground (arith, e)), no_nome-minuscula c (ground (arith, e))) refl

apos_nome-endereco :
    (nome resto : Texto)
    → vazio nome ≡ false
    → todas_minusculas nome ≡ true
    → apos_nome (codes "https://" ++ (nome ++ (b'.' ∷ resto))) ≡ some (nome, b'.' ∷ resto)
unfolding apos_nome apos_literal dobrar
apos_nome-endereco nome resto v e = ground (arith, trecho-nome nome resto e, v)

sem_literal-casar :
    (s : Texto) → apos_literal (codes "https://") s ≡ none → casar_cloudflare s ≡ none
unfolding casar_cloudflare apos_nome
sem_literal-casar s e = ground (arith, e)

dobrar_sinal : (c : ℕ) → ((dobrar c == b':') ≡ (c == b':')) × ((dobrar c == b'/') ≡ (c == b'/'))
unfolding dobrar
dobrar_sinal c = (ground arith, ground arith)

sinais-literal :
    (g h i : ℕ) (s resto : Texto)
    → tem_esquema (g ∷ h ∷ i ∷ s) ≡ false
    → apos_literal (codes "://") (g ∷ h ∷ i ∷ resto) ≡ none
unfolding apos_literal has_prefix
sinais-literal g h i s resto e = ground (arith, dobrar_sinal g, dobrar_sinal h, dobrar_sinal i, e)

apos_literal-none :
    (p : ℕ) (ps : Texto) (c : ℕ) (cs : Texto)
    → apos_literal ps cs ≡ none
    → apos_literal (p ∷ ps) (c ∷ cs) ≡ none
unfolding apos_literal
apos_literal-none p ps c cs e = ground (arith, e)

tem_esquema_cauda : (c : ℕ) (cs : Texto) → tem_esquema (c ∷ cs) ≡ false → tem_esquema cs ≡ false
tem_esquema_cauda c cs e = ground (arith, e)

literal_longo :
    (a b c d f g h i : ℕ) (s resto : Texto)
    → tem_esquema (a ∷ b ∷ c ∷ d ∷ f ∷ g ∷ h ∷ i ∷ s) ≡ false
    → apos_literal (codes "https://") (a ∷ b ∷ c ∷ d ∷ f ∷ g ∷ h ∷ i ∷ resto) ≡ none
literal_longo a b c d f g h i s resto e =
    apos_literal-none b'h' (codes "ttps://") a (b ∷ c ∷ d ∷ f ∷ g ∷ h ∷ i ∷ resto) (
      apos_literal-none b't' (codes "tps://") b (c ∷ d ∷ f ∷ g ∷ h ∷ i ∷ resto) (
        apos_literal-none b't' (codes "ps://") c (d ∷ f ∷ g ∷ h ∷ i ∷ resto) (
          apos_literal-none b'p' (codes "s://") d (f ∷ g ∷ h ∷ i ∷ resto) (
            apos_literal-none b's' (codes "://") f (g ∷ h ∷ i ∷ resto) (
              sinais-literal g h i s resto (
                tem_esquema_cauda f (g ∷ h ∷ i ∷ s) (
                  tem_esquema_cauda d (f ∷ g ∷ h ∷ i ∷ s) (
                    tem_esquema_cauda c (d ∷ f ∷ g ∷ h ∷ i ∷ s) (
                      tem_esquema_cauda b (c ∷ d ∷ f ∷ g ∷ h ∷ i ∷ s)
                        (tem_esquema_cauda a (b ∷ c ∷ d ∷ f ∷ g ∷ h ∷ i ∷ s) e))))))))))

-- No "://" in front, so no address begins there.
sem_esquema-literal :
    (s resto : Texto)
    → tem_esquema s ≡ false
    → vazio s ≡ false
    → apos_literal (codes "https://") (s ++ (codes "https://" ++ resto)) ≡ none
unfolding apos_literal has_prefix dobrar
sem_esquema-literal [] resto e v = ground (arith, v)
sem_esquema-literal (a ∷ []) resto e v = ground arith
sem_esquema-literal (a ∷ b ∷ []) resto e v = ground arith
sem_esquema-literal (a ∷ b ∷ c ∷ []) resto e v = ground arith
sem_esquema-literal (a ∷ b ∷ c ∷ d ∷ []) resto e v = ground arith
sem_esquema-literal (a ∷ b ∷ c ∷ d ∷ f ∷ []) resto e v = ground arith
sem_esquema-literal (a ∷ b ∷ c ∷ d ∷ f ∷ g ∷ []) resto e v = ground arith
sem_esquema-literal (a ∷ b ∷ c ∷ d ∷ f ∷ g ∷ h ∷ []) resto e v = ground arith
sem_esquema-literal (a ∷ b ∷ c ∷ d ∷ f ∷ g ∷ h ∷ i ∷ s) resto e v =
    literal_longo a b c d f g h i s (s ++ (codes "https://" ++ resto)) e

casar-partes :
    (s nome resto fim : Texto)
    → apos_nome s ≡ some (nome, resto)
    → apos_literal (codes ".trycloudflare.com") resto ≡ some fim
    → casar_cloudflare s ≡ some (take (length s - length fim) s)
unfolding casar_cloudflare
casar-partes s nome resto fim e f = rw (e, f) refl

apos_sufixo :
    (fim : Texto)
    → apos_literal (codes ".trycloudflare.com") (codes ".trycloudflare.com" ++ fim) ≡ some fim
unfolding apos_literal dobrar
apos_sufixo fim = refl

take-frente : (xs ys : Texto) → take (length (xs ++ ys) - length ys) (xs ++ ys) ≡ xs
take-frente xs ys =
    let e : length (xs ++ ys) - length ys ≡ length xs = omega (arith, length-append xs ys) in
    rw e (take-append_length xs ys)

endereco-append :
    (nome depois : Texto)
    → endereco_cloudflare nome ++ depois
      ≡ codes "https://" ++ (nome ++ (codes ".trycloudflare.com" ++ depois))
endereco-append nome depois =
    ap (λ t. codes "https://" ++ t) (append_assoc nome (codes ".trycloudflare.com") depois)

casar-endereco :
    (nome depois : Texto)
    → vazio nome ≡ false
    → todas_minusculas nome ≡ true
    → casar_cloudflare (endereco_cloudflare nome ++ depois) ≡ some (endereco_cloudflare nome)
casar-endereco nome depois v e =
    casar-partes (endereco_cloudflare nome ++ depois) nome (codes ".trycloudflare.com" ++ depois)
      depois
      (ap apos_nome (endereco-append nome depois)
        ∙ apos_nome-endereco nome (codes "trycloudflare.com" ++ depois) v e)
      (apos_sufixo depois)
    ∙ ap some (take-frente (endereco_cloudflare nome) depois)

find_string-aqui :
    (casar : Texto → Option Texto) (s achado : Texto)
    → vazio s ≡ false
    → casar s ≡ some achado
    → find_string casar s ≡ achado
unfolding find_string
find_string-aqui casar [] achado v e = ground (arith, v)
find_string-aqui casar (c ∷ cs) achado v e = rw (e, find_string) refl

find_string-adiante :
    (casar : Texto → Option Texto) (c : ℕ) (cs : Texto)
    → casar (c ∷ cs) ≡ none
    → find_string casar (c ∷ cs) ≡ find_string casar cs
unfolding find_string
find_string-adiante casar c cs e = rw (e, find_string) refl

pub find_string-endereco :
    (antes nome depois : Texto)
    → tem_esquema antes ≡ false
    → vazio nome ≡ false
    → todas_minusculas nome ≡ true
    → find_string casar_cloudflare (antes ++ (endereco_cloudflare nome ++ depois))
      ≡ endereco_cloudflare nome
find_string-endereco [] nome depois s v e =
    find_string-aqui casar_cloudflare (endereco_cloudflare nome ++ depois)
      (endereco_cloudflare nome) refl (casar-endereco nome depois v e)
find_string-endereco (c ∷ cs) nome depois s v e =
    find_string-adiante casar_cloudflare c (cs ++ (endereco_cloudflare nome ++ depois)) (
      sem_literal-casar (c ∷ cs ++ (endereco_cloudflare nome ++ depois))
        (sem_esquema-literal (c ∷ cs) ((nome ++ codes ".trycloudflare.com") ++ depois) s refl))
    ∙ find_string-endereco cs nome depois (tem_esquema_cauda c cs s) v e

pub em_wss-endereco :
    (nome : Texto)
    → em_wss (endereco_cloudflare nome) ≡ codes "wss://" ++ (nome ++ codes ".trycloudflare.com")
unfolding em_wss trim_prefix has_prefix
em_wss-endereco nome = refl

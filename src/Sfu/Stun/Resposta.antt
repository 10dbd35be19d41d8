-- ===== src/Sfu/Stun/Resposta.antt =====
-- src/sfu.go, descobrirIPPublico: answers laid out as RFC 5389 has them.
use Prim.Native.Nat.{bit_xor}
use greenlabs_server.Comum.{
  ℕ, zero, suc, ◌+◌, ◌*◌, ◌-◌, ◌/◌, ◌%◌, ◌≤◌, ◌≡◌, ◌≢◌, refl, ap, ◌∙◌, false, Option, none, some,
  List, [], subst, ◌∷◌, ◌++◌, append_assoc, ◌==◌, ltb, if◌then◌else◌, length, take, drop, All,
  length-append, drop-append_length, arith,
}
use greenlabs_server.Comum.Bits.{IsByte, xor_twice}
use greenlabs_server.Sfu.Stun.{
  ip_mapeado, alinhar, procurar, texto_do_ip, ler_resposta, pedido_stun, descobrir_ip_publico,
}

-- Zeros up to the next multiple of four.
abbrev pub zeros : ℕ → List ℕ
zeros zero = []
zeros (suc n) = 0 ∷ zeros n

abbrev pub enchimento : ℕ → ℕ
enchimento n = if n % 4 == 0 then 0 else 4 - n % 4

-- An attribute as RFC 5389 lays it out: type, length, value and padding.
unfoldable pub atributo : ℕ → List ℕ → List ℕ
atributo tipo v =
    (tipo / 256)
    ∷ (tipo % 256)
    ∷ (length v / 256)
    ∷ (length v % 256)
    ∷ (v ++ zeros (enchimento (length v)))

-- XOR-MAPPED-ADDRESS of an IPv4 address; the port is of no interest.
unfoldable pub endereco_mapeado : ℕ → ℕ → ℕ → ℕ → ℕ → ℕ → List ℕ
endereco_mapeado p q a b c d =
    0 ∷ 1 ∷ p ∷ q ∷ bit_xor a 0x21 ∷ bit_xor b 0x12 ∷ bit_xor c 0xA4 ∷ bit_xor d 0x42 ∷ []

length-zeros : (n : ℕ) → length (zeros n) ≡ n
length-zeros zero = refl
length-zeros (suc n) = ap suc (length-zeros n)

junta : (n : ℕ) → n / 256 * 256 + n % 256 ≡ n
junta n = omega arith

alinhar_lem : (n : ℕ) → alinhar (4 + n) ≡ 4 + (n + enchimento n)
unfolding alinhar
alinhar_lem n = ground arith

length-preenchido :
    (v c : List ℕ)
    → length ((v ++ zeros (enchimento (length v))) ++ c)
      ≡ length v + enchimento (length v) + length c
length-preenchido v c = ground (
  arith,
  length-append (v ++ zeros (enchimento (length v))) c,
  length-append v (zeros (enchimento (length v))),
  length-zeros (enchimento (length v)),
)

drop-preenchido :
    (v c : List ℕ)
    → drop (alinhar (4 + length v) - 4) ((v ++ zeros (enchimento (length v))) ++ c) ≡ c
drop-preenchido v c =
    let z = zeros (enchimento (length v)) in
    let e : alinhar (4 + length v) - 4 ≡ length (v ++ z) =
      ground
        (arith, alinhar_lem (length v), length-append v z, length-zeros (enchimento (length v))) in
    rw e (drop-append_length (v ++ z) c)

pula_lem :
    (k tipo : ℕ) (v c : List ℕ)
    → tipo ≢ 0x0020
    → procurar (suc k) (atributo tipo v ++ c) ≡ procurar k c
unfolding procurar atributo
pula_lem k tipo v c n =
    let r = (v ++ zeros (enchimento (length v))) ++ c in
    let p : ltb (4 + length r) (4 + length v) ≡ false = ground (arith, length-preenchido v c) in
    let q : (tipo == 0x0020) ≡ false = ground (arith, n) in
    let s : ltb (4 + length r) (alinhar (4 + length v)) ≡ false =
      ground (arith, length-preenchido v c, alinhar_lem (length v)) in
    rw (junta tipo, junta (length v), p, q, s, drop-preenchido v c) refl

acha_lem :
    (k p q a b c d : ℕ) (cauda : List ℕ)
    → All IsByte (a ∷ b ∷ c ∷ d ∷ [])
    → procurar (suc k) (atributo 0x0020 (endereco_mapeado p q a b c d) ++ cauda)
      ≡ some (a ∷ b ∷ c ∷ d ∷ [])
unfolding procurar atributo alinhar endereco_mapeado ip_mapeado
acha_lem k p q a b c d cauda (ha, (hb, (hc, (hd, _)))) =
    let cabe : ltb (4 + length (endereco_mapeado p q a b c d ++ cauda)) 12 ≡ false = ground arith in
    rw
      (
        cabe,
        xor_twice a 0x21 ha (omega arith),
        xor_twice b 0x12 hb (omega arith),
        xor_twice c 0xA4 hc (omega arith),
        xor_twice d 0x42 hd (omega arith),
      )
      refl

-- The attributes one behind the other, of which none is the one looked for.
abbrev pub atributos : List (ℕ × List ℕ) → List ℕ
atributos [] = []
atributos ((tipo, v) ∷ vs) = atributo tipo v ++ atributos vs

abbrev pub Outros : List (ℕ × List ℕ) → Type 0
Outros [] = Unit {0}
Outros ((tipo, v) ∷ vs) = (tipo ≢ 0x0020) × Outros vs

-- One round for each of them, and `k` more.
abbrev rodadas : List (ℕ × List ℕ) → ℕ → ℕ
rodadas [] k = k
rodadas (v ∷ vs) k = suc (rodadas vs k)

rodadas_lem : (vs : List (ℕ × List ℕ)) (k : ℕ) → rodadas vs k ≡ length vs + k
rodadas_lem [] k = omega arith
rodadas_lem (v ∷ vs) k = ground (arith, rodadas_lem vs k)

procurar-atributos :
    (k : ℕ) (vs : List (ℕ × List ℕ)) (c : List ℕ)
    → Outros vs
    → procurar (rodadas vs k) (atributos vs ++ c) ≡ procurar k c
procurar-atributos k [] c o = refl
procurar-atributos k ((tipo, v) ∷ vs) c (n, o) =
    ap (procurar (suc (rodadas vs k))) (append_assoc (atributo tipo v) (atributos vs) c)
    ∙ pula_lem (rodadas vs k) tipo v (atributos vs ++ c) n
    ∙ procurar-atributos k vs c o

length-atributos : (vs : List (ℕ × List ℕ)) → length vs ≤ length (atributos vs)
unfolding atributo
length-atributos [] = omega arith
length-atributos ((tipo, v) ∷ vs) =
    ground (
      arith,
      length-atributos vs,
      length-append (v ++ zeros (enchimento (length v))) (atributos vs),
    )

-- A binding response: 20 bytes of head, and attributes of which the first XOR-MAPPED-ADDRESS is of an
-- IPv4 address.
abbrev pub resposta_stun : List ℕ → List (ℕ × List ℕ) → List ℕ → List ℕ → List ℕ
resposta_stun cabeca outros mapeado cauda =
    cabeca ++ (atributos outros ++ (atributo 0x0020 mapeado ++ cauda))

take_tudo : (n : ℕ) (xs : List ℕ) → length xs ≤ n → take n xs ≡ xs
take_tudo n [] h = nada n
  where
    nada : (m : ℕ) → ◌≡◌ {A = List ℕ} (take m []) []
    nada zero = refl
    nada (suc m) = refl
take_tudo zero (x ∷ xs) h = absurd (omega (arith, h))
take_tudo (suc n) (x ∷ xs) h = ap (λ (ys : List ℕ). x ∷ ys) (take_tudo n xs (omega (arith, h)))

-- As many rounds as the body has bytes are enough.
procurar-resposta :
    (outros : List (ℕ × List ℕ)) (p q a b c d : ℕ) (cauda : List ℕ)
    → Outros outros
    → All IsByte (a ∷ b ∷ c ∷ d ∷ [])
    → let corpo = atributos outros ++ (atributo 0x0020 (endereco_mapeado p q a b c d) ++ cauda) in
      procurar (length corpo) corpo ≡ some (a ∷ b ∷ c ∷ d ∷ [])
unfolding atributo
procurar-resposta outros p q a b c d cauda o h =
    let fim = atributo 0x0020 (endereco_mapeado p q a b c d) ++ cauda in
    let corpo = atributos outros ++ fim in
    let k = length corpo - length outros - 1 in
    let bastam : length corpo ≡ rodadas outros (suc k) = ground (
      arith,
      length-append (atributos outros) fim,
      length-atributos outros,
      rodadas_lem outros (suc k),
    ) in
    ap (λ (n : ℕ). procurar n corpo) bastam
    ∙ procurar-atributos (suc k) outros fim o
    ∙ acha_lem k p q a b c d cauda h

ler_resposta_lem :
    (cabeca corpo ip : List ℕ)
    → length cabeca ≡ 20
    → length (cabeca ++ corpo) ≤ 512
    → procurar (length corpo) corpo ≡ some ip
    → ler_resposta (cabeca ++ corpo) ≡ texto_do_ip ip
unfolding ler_resposta
ler_resposta_lem cabeca corpo ip vinte cabe achou =
    let resto : drop 20 (cabeca ++ corpo) ≡ corpo =
      subst (λ (n : ℕ). drop n (cabeca ++ corpo) ≡ corpo) vinte (drop-append_length cabeca corpo) in
    let longa : ltb (length (cabeca ++ corpo)) 20 ≡ false =
      ground (arith, length-append cabeca corpo, vinte) in
    ground (arith, take_tudo 512 (cabeca ++ corpo) cabe, longa, resto, achou)

-- descobrirIPPublico, when the STUN server answers with at most 512 bytes that hold the address as
-- RFC 5389 lays it out, whatever other attributes stand before it and whatever bytes behind: the address,
-- dotted.
pub descobrir_ip_publico-endereco_mapeado :
    (rede : List ℕ → Option (List ℕ)) (transacao cabeca cauda : List ℕ) (outros : List (ℕ × List ℕ))
    (p q a b c d : ℕ)
    → rede (pedido_stun transacao)
      ≡ some (resposta_stun cabeca outros (endereco_mapeado p q a b c d) cauda)
    → length cabeca ≡ 20
    → length (resposta_stun cabeca outros (endereco_mapeado p q a b c d) cauda) ≤ 512
    → Outros outros
    → All IsByte (a ∷ b ∷ c ∷ d ∷ [])
    → descobrir_ip_publico rede (some transacao) ≡ texto_do_ip (a ∷ b ∷ c ∷ d ∷ [])
unfolding descobrir_ip_publico
descobrir_ip_publico-endereco_mapeado rede transacao cabeca cauda outros p q a b c d e vinte cabe o
      h =
    ap (λ (r : Option (List ℕ)). elim r [ none ↦ [] | some datagrama ↦ ler_resposta datagrama ]) e
    ∙ ler_resposta_lem cabeca _ (a ∷ b ∷ c ∷ d ∷ []) vinte cabe
        (procurar-resposta outros p q a b c d cauda o h)

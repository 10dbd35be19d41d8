-- ===== src/Ambiente/Console/Numeros.antt =====
-- src/util.go, itoa, and strconv.Atoi: reading a number back.
use greenlabs_server.Comum.{
  ℕ, zero, suc, ◌+◌, ◌-◌, ◌*◌, ◌/◌, ◌%◌, ◌^◌, ◌<◌, ◌≡◌, refl, ap, ◌∙◌, false, ◌&&◌, Option, none,
  some, [], ◌∷◌, ◌++◌, ltb, leb, lt→ltb, ◌==◌, if◌then◌else◌, Bool-cases, inl, inr, arith,
}
use greenlabs_server.Comum.Texto.{Texto, vazio}
use greenlabs_server.Comum.Inteiro.{pos, ler_digitos, natural, atoi}
use greenlabs_server.Hub.Formato.{itoa_laco, itoa}

abbrev mais_digito : ℕ → Option ℕ → Option ℕ
mais_digito c none = none
mais_digito c (some m) = if leb 48 c && leb c 57 then some (m * 10 + (c - 48)) else none

ler_digitos-append :
    (a : ℕ) (s : Texto) (c : ℕ) → ler_digitos a (s ++ (c ∷ [])) ≡ mais_digito c (ler_digitos a s)
unfolding ler_digitos
ler_digitos-append a [] c = refl
ler_digitos-append a (d ∷ s) c = ground (arith, ler_digitos-append (a * 10 + (d - 48)) s c)

um_digito : (n : ℕ) → n < 10 → ler_digitos 0 ((48 + n) ∷ []) ≡ some n
unfolding ler_digitos
um_digito n h = ground arith

mais_um_digito : (n : ℕ) → mais_digito (48 + n % 10) (some (n / 10)) ≡ some n
mais_um_digito n = ground arith

vazio-append : (s : Texto) (c : ℕ) → vazio (s ++ (c ∷ [])) ≡ false
vazio-append [] c = refl
vazio-append (d ∷ s) c = refl

itoa_laco_lem :
    (f n : ℕ) → n < f → (ler_digitos 0 (itoa_laco f n) ≡ some n) × (vazio (itoa_laco f n) ≡ false)
unfolding itoa_laco
itoa_laco_lem zero n h = absurd (omega (arith, h))
itoa_laco_lem (suc f) n h = elim (Bool-cases (ltb n 10)) [
  | inl t ↦ rw t (um_digito n (ground (arith, t)), refl)
  | inr k ↦ rw k (
    ler_digitos-append 0 (itoa_laco f (n / 10)) (48 + n % 10)
        ∙ ap (mais_digito (48 + n % 10)) (itoa_laco_lem f (n / 10) (ground (arith, k, h))).0
        ∙ mais_um_digito n,
    vazio-append (itoa_laco f (n / 10)) (48 + n % 10),
  )
]

primeiro_digito :
    (c : ℕ) (cs : Texto) (n : ℕ)
    → ler_digitos 0 (c ∷ cs) ≡ some n
    → ((c == b'-') ≡ false) × ((c == b'+') ≡ false)
unfolding ler_digitos
primeiro_digito c cs n e = (ground (arith, e), ground (arith, e))

atoi_digitos :
    (s : Texto) (n : ℕ)
    → vazio s ≡ false
    → ler_digitos 0 s ≡ some n
    → n < 2 ^ 63
    → atoi s ≡ some (pos n)
unfolding atoi natural
atoi_digitos [] n v e h = ground (arith, v)
atoi_digitos (c ∷ cs) n v e h =
    let (menos, mais) = primeiro_digito c cs n e in rw (menos, mais, e, lt→ltb n (2 ^ 63) h) refl

-- A number under 2 ^ 63 that is written by itoa is read back by strconv.Atoi.
pub atoi-itoa : (n : ℕ) → n < 2 ^ 63 → atoi (itoa n) ≡ some (pos n)
unfolding itoa
atoi-itoa n h =
    let (e, v) = itoa_laco_lem (suc n) n (omega arith) in atoi_digitos (itoa_laco (suc n) n) n v e h

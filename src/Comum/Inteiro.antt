-- ===== src/Comum/Inteiro.antt =====
-- int and int64, with the order and the steps that the source uses, and strconv.Atoi.
use greenlabs_server.Comum.Testes.{leb, ltb, ◌==◌, if◌then◌else◌}
use greenlabs_server.Comum.Texto.{Texto, vazio}
use Prim.Native.Nat.{ℕ, zero, suc, ◌+◌, ◌-◌, ◌*◌, ◌^◌}
use mathlib.Core.Bool.{Bool, true, false, ◌&&◌}
use mathlib.Core.Option.{Option, none, some}
use mathlib.Core.List.{[], ◌∷◌}

-- `negsuc n` is -(n + 1).
pub data ℤ : Type 0 where
  pos : ℕ → ℤ
  negsuc : ℕ → ℤ

abbrev pub leb_int : ℤ → ℤ → Bool
leb_int (pos a) (pos b) = leb a b
leb_int (pos a) (negsuc b) = false
leb_int (negsuc a) (pos b) = true
leb_int (negsuc a) (negsuc b) = leb b a

-- `x++` and `x--`.
abbrev pub mais_um : ℤ → ℤ
mais_um (pos n) = pos (suc n)
mais_um (negsuc zero) = pos 0
mais_um (negsuc (suc n)) = negsuc n

abbrev pub menos_um : ℤ → ℤ
menos_um (pos zero) = negsuc 0
menos_um (pos (suc n)) = pos n
menos_um (negsuc n) = negsuc (suc n)

-- -n.
abbrev pub oposto : ℕ → ℤ
oposto zero = pos 0
oposto (suc n) = negsuc n

-- A run of decimal digits behind the number read so far.
unfoldable pub ler_digitos : ℕ → Texto → Option ℕ
ler_digitos n [] = some n
ler_digitos n (c ∷ cs) =
    let resto = ler_digitos (n * 10 + (c - 48)) cs in if leb 48 c && leb c 57 then resto else none

unfoldable pub natural : Texto → Option ℕ
unfolding ler_digitos
natural s = if vazio s then none else ler_digitos 0 s

-- strconv.Atoi on a 64-bit machine: a sign, then digits, in the range of int64.
unfoldable pub atoi : Texto → Option ℤ
unfolding natural
atoi [] = none
atoi (c ∷ cs) =
    if c == b'-'
    then elim (natural cs) [
      | none ↦ none
      | some n ↦ if leb n (2 ^ 63) then some (oposto n) else none
    ]
    else elim (natural (if c == b'+' then cs else c ∷ cs)) [
      | none ↦ none
      | some n ↦ if ltb n (2 ^ 63) then some (pos n) else none
    ]

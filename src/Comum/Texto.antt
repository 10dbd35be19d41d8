-- ===== src/Comum/Texto.antt =====
-- Go's strings as lists of numbers: of bytes where the source walks bytes, of code points where the
-- text came out of a JSON string.
use Prim.Native.Nat.{ℕ, zero, suc, ◌+◌}
use Prim.Native.Char.{code}
use Prim.Native.String.{String}
use mathlib.Core.Path.{◌≡◌, refl}
use mathlib.Core.Logic.{◌↔◌}
use mathlib.Core.Bool.{Bool, true, false, not, ◌&&◌, ◌||◌}
use mathlib.Core.Option.{Option, none, some}
use mathlib.Core.List.{List, [], ◌∷◌, reverse}
use native.Mathlib.Omega.{arith}
use greenlabs_server.Comum.Testes.{◌==◌, leb, if◌then◌else◌}
use greenlabs_server.Comum.Listas.{length}

abbrev pub Texto : Type 0
Texto = List ℕ

-- The bytes of an ASCII literal.
abbrev pub codes : String → Texto
codes String.[] = []
codes (String.◌∷◌ c s) = code c ∷ codes s

unfoldable pub eq_texto : Texto → Texto → Bool
eq_texto [] [] = true
eq_texto [] (b ∷ bs) = false
eq_texto (a ∷ as') [] = false
eq_texto (a ∷ as') (b ∷ bs) = a == b && eq_texto as' bs

eq_texto_sound : (s t : Texto) → eq_texto s t ≡ true → s ≡ t
unfolding eq_texto
eq_texto_sound [] [] h = refl
eq_texto_sound [] (b ∷ bs) h = cc
eq_texto_sound (a ∷ as') [] h = cc
eq_texto_sound (a ∷ as') (b ∷ bs) h = ground (arith, eq_texto_sound as' bs)

eq_texto_self : (s : Texto) → eq_texto s s ≡ true
unfolding eq_texto
eq_texto_self [] = refl
eq_texto_self (a ∷ as') = ground (arith, eq_texto_self as')

pub eq_texto_iff : (s t : Texto) → (eq_texto s t ≡ true) ↔ (s ≡ t)
eq_texto_iff s t = (eq_texto_sound s t, λ e. rw e (eq_texto_self t))

pub eq_texto_refl : (s : Texto) → eq_texto s s ≡ true
eq_texto_refl s = eq_texto_self s

abbrev pub vazio {ℓ} : {A : Type ℓ} → List A → Bool
vazio [] = true
vazio (c ∷ cs) = false

-- strings.HasPrefix and strings.TrimPrefix.
unfoldable pub has_prefix : Texto → Texto → Bool
has_prefix s [] = true
has_prefix [] (p ∷ ps) = false
has_prefix (c ∷ cs) (p ∷ ps) = c == p && has_prefix cs ps

abbrev pub drop_texto : ℕ → Texto → Texto
drop_texto zero s = s
drop_texto (suc n) [] = []
drop_texto (suc n) (c ∷ cs) = drop_texto n cs

unfoldable pub trim_prefix : Texto → Texto → Texto
unfolding has_prefix
trim_prefix s p = if has_prefix s p then drop_texto (length p) s else s

-- strings.TrimSuffix, on the reversed text.
unfoldable pub trim_suffix : Texto → Texto → Texto
unfolding trim_prefix
trim_suffix s p = reverse (trim_prefix (reverse s) (reverse p))

-- The bytes and code points that unicode.IsSpace accepts.
unfoldable pub is_space : ℕ → Bool
is_space c =
    (leb 9 c && leb c 13)
    || (c == 32)
    || (c == 0x85)
    || (c == 0xa0)
    || (c == 0x1680)
    || (leb 0x2000 c && leb c 0x200a)
    || (c == 0x2028)
    || (c == 0x2029)
    || (c == 0x202f)
    || (c == 0x205f)
    || (c == 0x3000)

unfoldable pub trim_left : (ℕ → Bool) → Texto → Texto
trim_left cut [] = []
trim_left cut (c ∷ cs) = let rest = trim_left cut cs in if cut c then rest else c ∷ cs

unfoldable pub trim_right : (ℕ → Bool) → Texto → Texto
unfolding trim_left
trim_right cut s = reverse (trim_left cut (reverse s))

-- strings.TrimSpace.
unfoldable pub trim_space : Texto → Texto
unfolding is_space trim_left trim_right
trim_space s = trim_right is_space (trim_left is_space s)

-- strings.ToLower on ASCII letters.
unfoldable pub to_lower : Texto → Texto
to_lower [] = []
to_lower (c ∷ cs) = (if leb 65 c && leb c 90 then c + 32 else c) ∷ to_lower cs

-- The first letter, folded, and what stands behind it: the long s and the sign of the kelvin, two
-- and three bytes of UTF-8, fold to letters of ASCII.
unfoldable pub letra_dobrada : Texto → ℕ × Texto
unfolding has_prefix
letra_dobrada [] = (0, [])
letra_dobrada (c ∷ cs) =
    if c == 0xc5 && has_prefix cs (0xbf ∷ [])
    then (b's', drop_texto 1 cs)
    else if c == 0xe2 && has_prefix cs (0x84 ∷ 0xaa ∷ [])
    then (b'k', drop_texto 2 cs)
    else (if leb 65 c && leb c 90 then c + 32 else c, cs)

-- strings.EqualFold, of a text and one of lower-case letters of ASCII.
unfoldable pub equal_fold : Texto → Texto → Bool
unfolding letra_dobrada
equal_fold s [] = vazio s
equal_fold s (t ∷ ts) =
    let (c, resto) = letra_dobrada s in
    let demais = equal_fold resto ts in not (vazio s) && c == t && demais

-- The text up to the first `c`, and behind it.
unfoldable pub dividir_em : ℕ → Texto → Option (Texto × Texto)
dividir_em c [] = none
dividir_em c (x ∷ xs) =
    let resto = dividir_em c xs in
    if x == c then some ([], xs) else elim resto [ none ↦ none | some (a, b) ↦ some (x ∷ a, b) ]

-- ===== src/Comum/Bits.antt =====
-- Facts on the bits of one byte, each checked at every value by evaluation.
use Prim.Native.Nat.{ℕ, zero, suc, ◌+◌, ◌*◌, ◌/◌, ◌%◌, ◌<◌, bit_and, bit_or, bit_xor}
use mathlib.Core.Path.{◌≡◌, refl}
use mathlib.Core.Bool.{Bool, true, ◌&&◌}
use native.Mathlib.Omega.{arith}
use greenlabs_server.Comum.Testes.{◌==◌, ==_iff, ltb}

abbrev pub IsByte : ℕ → Type 0
IsByte b = b < 256

-- The test holds of every number under the bound.
vale_ate : (ℕ → Bool) → ℕ → Bool
vale_ate t zero = true
vale_ate t (suc k) = let antes = vale_ate t k in antes && t k

vale_ate_lem : (t : ℕ → Bool) (k y : ℕ) → y < k → vale_ate t k ≡ true → t y ≡ true
unfolding vale_ate
vale_ate_lem t (suc k) y menor e = ground (arith, vale_ate_lem t k y)
vale_ate_lem t zero y menor e = absurd (omega (arith, menor))

pub low_bits : (b : ℕ) → b < 256 → bit_and b 0x7f ≡ b % 128
unfolding vale_ate
low_bits b h = (==_iff _ _).0 (vale_ate_lem (λ x. bit_and x 0x7f == x % 128) 256 b h refl)

pub low_nibble : (b : ℕ) → b < 256 → bit_and b 0x0f ≡ b % 16
unfolding vale_ate
low_nibble b h = (==_iff _ _).0 (vale_ate_lem (λ x. bit_and x 0x0f == x % 16) 256 b h refl)

pub top_bit : (b : ℕ) → b < 256 → bit_and b 0x80 ≡ b / 128 * 128
unfolding vale_ate
top_bit b h = (==_iff _ _).0 (vale_ate_lem (λ x. bit_and x 0x80 == x / 128 * 128) 256 b h refl)

pub middle_bits : (b : ℕ) → b < 256 → bit_and b 0x70 ≡ b / 16 % 8 * 16
unfolding vale_ate
middle_bits b h =
    (==_iff _ _).0 (vale_ate_lem (λ x. bit_and x 0x70 == x / 16 % 8 * 16) 256 b h refl)

pub set_top_bit : (b : ℕ) → b < 128 → bit_or 0x80 b ≡ b + 128
unfolding vale_ate
set_top_bit b h = (==_iff _ _).0 (vale_ate_lem (λ x. bit_or 0x80 x == x + 128) 128 b h refl)

-- Two exclusive ors with `m` give `x` back, over one that is a byte.
abbrev desfaz : ℕ → ℕ → Bool
desfaz x m = ltb (bit_xor x m) 256 && (bit_xor (bit_xor x m) m == x)

desfaz_sempre : vale_ate (λ x. vale_ate (desfaz x) 256) 256 ≡ true
unfolding vale_ate
desfaz_sempre = refl

desfaz_lem : (x m : ℕ) → x < 256 → m < 256 → desfaz x m ≡ true
desfaz_lem x m hx hm =
    vale_ate_lem (desfaz x) 256 m hm
      (vale_ate_lem (λ y. vale_ate (desfaz y) 256) 256 x hx desfaz_sempre)

pub xor_twice : (x m : ℕ) → x < 256 → m < 256 → bit_xor (bit_xor x m) m ≡ x
xor_twice x m hx hm = ground (arith, desfaz_lem x m hx hm)

pub xor-IsByte : (x m : ℕ) → x < 256 → m < 256 → bit_xor x m < 256
xor-IsByte x m hx hm = ground (arith, desfaz_lem x m hx hm)

-- The two fixed fields of an identifier.
pub set_high_nibble_4 : (b : ℕ) → b < 256 → bit_or (bit_and b 0x0f) 0x40 ≡ 64 + b % 16
unfolding vale_ate
set_high_nibble_4 b h =
    (==_iff _ _).0 (vale_ate_lem (λ x. bit_or (bit_and x 0x0f) 0x40 == 64 + x % 16) 256 b h refl)

pub set_high_bits_10 : (b : ℕ) → b < 256 → bit_or (bit_and b 0x3f) 0x80 ≡ 128 + b % 64
unfolding vale_ate
set_high_bits_10 b h =
    (==_iff _ _).0 (vale_ate_lem (λ x. bit_or (bit_and x 0x3f) 0x80 == 128 + x % 64) 256 b h refl)

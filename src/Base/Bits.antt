-- ===== src/Base/Bits.antt =====
-- Flag words. `w & (1 << k)` used as a condition is `test_bit w k`.
use Prim.Native.Nat.{
  ℕ, zero, suc, ◌+◌, ◌-◌, ◌*◌, ◌/◌, ◌%◌, ◌^◌, ◌≤◌, compare, Ordering, max, bit_and, digits,
  bit_or-bitwise,
}
pub use Prim.Native.Nat.{bit_or}
use mathlib.Core.Path.{◌≡◌, refl, ap, sym, ◌∙◌}
use mathlib.Core.Bool.{Bool, true, false, ◌||◌}
use mathlib.Core.List.{List, [], ◌∷◌}
use native.Mathlib.Nat.{div-div-eq-div-mul}
use native.Mathlib.Omega.{arith}

abbrev odd : ℕ → Bool
odd q = elim (compare (q % 2) 0) [ Ordering.eq ↦ false | _ ↦ true ]

abbrev pub test_bit : ℕ → ℕ → Bool
test_bit w k = odd (w / 2 ^ k)

-- `w & mask` used as a condition, for the mask of `n` ones from bit `k` on.
abbrev pub test_bits : ℕ → ℕ → ℕ → Bool
test_bits w k n = elim (compare (w / 2 ^ k % 2 ^ n) 0) [ Ordering.eq ↦ false | _ ↦ true ]

-- The word of the flags with the given indices, joined by `|`.
abbrev pub flags : List ℕ → ℕ
flags [] = 0
flags (k ∷ ks) = bit_or (2 ^ k) (flags ks)

-- w & ~flags, in an unsigned int.
abbrev pub clear_flags : ℕ → List ℕ → ℕ
clear_flags w ks = bit_and w (2 ^ 32 - 1 - flags ks)

abbrev or_digits : ℕ → ℕ → ℕ → ℕ
or_digits n a b = digits (λ b. b) max n a b

or_digits_fuel : (n m a b : ℕ) → a ≤ n → a ≤ m → or_digits n a b ≡ or_digits m a b
or_digits_fuel zero zero a b p q = refl
or_digits_fuel zero (suc m) zero b p q = refl
or_digits_fuel zero (suc m) (suc a) b p q = absurd (omega arith)
or_digits_fuel (suc n) zero zero b p q = refl
or_digits_fuel (suc n) zero (suc a) b p q = absurd (omega arith)
or_digits_fuel (suc n) (suc m) zero b p q = refl
or_digits_fuel (suc n) (suc m) (suc a) b p q =
    omega (arith, or_digits_fuel n m (suc a / 2) (b / 2) (omega arith) (omega arith))

pub zero-bit_or : (b : ℕ) → bit_or 0 b ≡ b
zero-bit_or b = bit_or-bitwise 0 b

bit_or_step : (a b : ℕ) → bit_or a b ≡ bit_or (a / 2) (b / 2) * 2 + max (a % 2) (b % 2)
bit_or_step zero b = omega (arith, zero-bit_or b, zero-bit_or (b / 2))
bit_or_step (suc a) b = omega (
  arith,
  bit_or-bitwise (suc a) b,
  bit_or-bitwise (suc a / 2) (b / 2),
  or_digits_fuel a (suc a / 2) (suc a / 2) (b / 2) (omega arith) (omega arith),
)

half-bit_or : (a b : ℕ) → bit_or a b / 2 ≡ bit_or (a / 2) (b / 2)
half-bit_or a b = omega (arith, bit_or_step a b)

pow_step : (k : ℕ) → 2 ^ suc k ≡ 2 * 2 ^ k
pow_step k = omega arith

test_bit_half : (w k : ℕ) → test_bit w (suc k) ≡ test_bit (w / 2) k
test_bit_half w k =
    ap (λ m. odd (w / m)) (pow_step k) ∙ sym (ap odd (div-div-eq-div-mul w 2 (2 ^ k)))

pub test_bit-bit_or : (a b k : ℕ) → test_bit (bit_or a b) k ≡ (test_bit a k || test_bit b k)
test_bit-bit_or a b zero = ground (arith, bit_or_step a b)
test_bit-bit_or a b (suc k) =
    rw (test_bit_half (bit_or a b) k, half-bit_or a b, test_bit_half a k, test_bit_half b k)
      (test_bit-bit_or (a / 2) (b / 2) k)

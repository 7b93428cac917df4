-- ===== src/Base/Int.antt =====
-- The C type int: a signed integer, with the 32-bit wrap-around of a sum written out.
use Prim.Native.Nat.{ℕ, zero, suc, ◌+◌, ◌-◌, ◌*◌, ◌%◌, ◌^◌, ◌≤◌, ◌<◌}
use mathlib.Core.Path.{◌≡◌, sym}
use mathlib.Core.Logic.{◌↔◌, ◌⊎◌, inl, inr}
use mathlib.Core.Bool.{Bool, true, false}
use native.Mathlib.Omega.{arith}
use Prim.Native.Nat.{compare, Ordering}

-- `negsuc n` is -(n + 1).
pub data ℤ : Type 0 where
  pos : ℕ → ℤ
  negsuc : ℕ → ℤ

abbrev pub pos_part : ℤ → ℕ
pos_part (pos n) = n
pos_part (negsuc n) = 0

abbrev pub neg_part : ℤ → ℕ
neg_part (pos n) = 0
neg_part (negsuc n) = suc n

infix 50 ◌≤ℤ◌ ◌<ℤ◌
abbrev pub ◌≤ℤ◌ : ℤ → ℤ → Type 0
a ≤ℤ b = pos_part a + neg_part b ≤ pos_part b + neg_part a

abbrev pub ◌<ℤ◌ : ℤ → ℤ → Type 0
a <ℤ b = pos_part a + neg_part b < pos_part b + neg_part a

-- a < b
abbrev pub ltb_ℤ : ℤ → ℤ → Bool
ltb_ℤ a b = elim (compare (pos_part a + neg_part b) (pos_part b + neg_part a)) [
  | Ordering.lt ↦ true
  | _ ↦ false
]

abbrev pub eqb_ℤ : ℤ → ℤ → Bool
eqb_ℤ a b = elim (compare (pos_part a + neg_part b) (pos_part b + neg_part a)) [
  | Ordering.eq ↦ true
  | _ ↦ false
]

-- The bit pattern of an int, and the int of a bit pattern below 2 ^ 32.
abbrev pub bits : ℤ → ℕ
bits (pos n) = n % 2 ^ 32
bits (negsuc n) = 2 ^ 32 - 1 - n % 2 ^ 32

abbrev pub signed : ℕ → ℤ
signed w = elim (compare w (2 ^ 31)) [ Ordering.lt ↦ pos w | _ ↦ negsuc (2 ^ 32 - 1 - w) ]

-- int a + b and a * b, which wrap.
unfoldable pub add_int : ℤ → ℤ → ℤ
add_int a b = signed ((bits a + bits b) % 2 ^ 32)

unfoldable pub mul_int : ℤ → ℤ → ℤ
mul_int a b = signed (bits a * bits b % 2 ^ 32)

-- The remainder of C, for a divisor that is not 0: it has the sign of the dividend.
unfoldable pub mod_int : ℤ → ℕ → ℤ
mod_int (pos a) m = pos (a % m)
mod_int (negsuc a) m = elim (suc a % m) [ zero ↦ pos 0 | suc r ↦ negsuc r ]

-- `x % m` used as a condition.
unfoldable pub has_rem : ℤ → ℕ → Bool
has_rem a m = elim (compare ((pos_part a + neg_part a) % m) 0) [ Ordering.eq ↦ false | _ ↦ true ]

-- The sum of two numbers of the type that are not negative is exact below 2 ^ 31.
pub add_int-pos : (a b : ℕ) → a + b < 2 ^ 31 → add_int (pos a) (pos b) ≡ pos (a + b)
unfolding add_int
add_int-pos a b h = ground arith

-- From 2 ^ 31 on it is negative.
pub add_int_wraps :
    (a b : ℕ) → a < 2 ^ 31 → b < 2 ^ 31 → 2 ^ 31 ≤ a + b → add_int (pos a) (pos b) <ℤ pos 0
unfolding add_int
add_int_wraps a b p q h = ground arith

signed_rem :
    (w m : ℕ) → w < 2 ^ 32 → (m ≡ 32) ⊎ (m ≡ 128) → (has_rem (signed w) m ≡ false) ↔ (w % m ≡ 0)
unfolding has_rem
signed_rem w m h (inl e) = rw e (ground arith)
signed_rem w m h (inr e) = rw e (ground arith)

bits_exact : (n : ℕ) → n < 2 ^ 31 → bits (pos n) ≡ n
bits_exact n h = omega arith

wrap_rem : (q m : ℕ) → (m ≡ 32) ⊎ (m ≡ 128) → q % 2 ^ 32 % m ≡ q % m
wrap_rem q m (inl e) = rw e (omega arith)
wrap_rem q m (inr e) = rw e (omega arith)

-- A divisor of 2 ^ 32 does not see the wrap-around of a product.
pub mul_int_rem :
    (p n m : ℕ)
    → p < 2 ^ 31
    → n < 2 ^ 31
    → (m ≡ 32) ⊎ (m ≡ 128)
    → (has_rem (mul_int (pos p) (pos n)) m ≡ false) ↔ (p * n % m ≡ 0)
unfolding mul_int
mul_int_rem p n m a b c =
    rw (bits_exact p a, bits_exact n b, sym (wrap_rem (p * n) m c))
      (signed_rem (p * n % 2 ^ 32) m (omega arith) c)

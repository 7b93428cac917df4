-- ===== src/Base/Words.antt =====
-- Unsigned words of C, and what the conversions to them keep.
use Prim.Native.Nat.{ℕ, suc, ◌-◌, ◌/◌, ◌%◌, ◌^◌}
use librga_rockchip.Base.Int.{ℤ, pos, negsuc, bits}

abbrev pub uint8 : ℕ → ℕ
uint8 n = n % 2 ^ 8

abbrev pub uint16 : ℕ → ℕ
uint16 n = n % 2 ^ 16

abbrev pub uint32 : ℕ → ℕ
uint32 n = n % 2 ^ 32

abbrev pub uint64 : ℕ → ℕ
uint64 n = n % 2 ^ 64

-- (uint64_t)i, with the sign extended.
abbrev pub uint64_of : ℤ → ℕ
uint64_of (pos n) = n % 2 ^ 64
uint64_of (negsuc n) = 2 ^ 64 - 1 - n % 2 ^ 64

-- (uint16_t)i
abbrev pub uint16_of : ℤ → ℕ
uint16_of i = bits i % 2 ^ 16

-- The bits from `k` on, `n` of them: (w >> k) & (2 ^ n - 1).
abbrev pub field : ℕ → ℕ → ℕ → ℕ
field w k n = w / 2 ^ k % 2 ^ n

-- Quotients of C round towards 0.
unfoldable pub div_int : ℤ → ℕ → ℤ
div_int (pos a) m = pos (a / m)
div_int (negsuc a) m = elim (suc a / m) [ ℕ.zero ↦ pos 0 | ℕ.suc q ↦ negsuc q ]

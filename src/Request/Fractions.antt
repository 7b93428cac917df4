-- ===== src/Request/Fractions.antt =====
-- Fractions of whole numbers in place of floats: a concrete value of the parameters, for the tests.
use librga_rockchip.Base.{ℕ, ◌*◌, Bool, ltb, ◌==◌}
use librga_rockchip.Base.Int.{ℤ, pos_part}

-- Quotients of numbers that are not negative, as fractions.
abbrev pub ratio : ℤ → ℤ → ℕ × ℕ
ratio a b = (pos_part a, pos_part b)

abbrev pub below : ℕ × ℕ → ℕ → Bool
below (a, b) n = ltb a (n * b)

abbrev pub above : ℕ × ℕ → ℕ → Bool
above (a, b) n = ltb (n * b) a

abbrev pub equal : ℕ × ℕ → ℕ → Bool
equal (a, b) n = a == n * b

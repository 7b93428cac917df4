-- ===== src/Request/Angles.antt =====
-- The tables of the angles agree with each other.
use librga_rockchip.Base.{
  ℕ, zero, suc, ◌+◌, ◌*◌, ◌%◌, ◌^◌, ◌≤◌, ◌<◌, ◌≡◌, refl, Bool, true, false, ◌&&◌, leb, arith,
  ℕ_discrete, leb→le,
}
use librga_rockchip.Base.Int.{ℤ, pos_part, neg_part, eqb_ℤ}
use librga_rockchip.Request.Trig.{sina_table, cosa_table, entry}

unfoldable pub sine : ℕ → ℤ
sine i = entry sina_table i

unfoldable pub cosine : ℕ → ℤ
cosine i = entry cosa_table i

abbrev pub square : ℤ → ℕ
square x = (pos_part x + neg_part x) * (pos_part x + neg_part x)

-- The cosine is the sine of the angle a quarter turn on, and the squares add up to 2 ^ 32, but for the
-- rounding of the entries.
abbrev pub Matches : ℕ → Type 0
Matches i =
    (eqb_ℤ (cosine i) (sine ((i + 90) % 360)) ≡ true)
    × (square (sine i) + square (cosine i) ≤ 2 ^ 32 + 2 ^ 17)
    × (2 ^ 32 ≤ square (sine i) + square (cosine i) + 2 ^ 17)

test : ℕ → Bool
test i =
    eqb_ℤ (cosine i) (sine ((i + 90) % 360))
    && (leb (square (sine i) + square (cosine i)) (2 ^ 32 + 2 ^ 17)
        && leb (2 ^ 32) (square (sine i) + square (cosine i) + 2 ^ 17))

all_below : ℕ → Bool
all_below zero = true
all_below (suc n) = let rest = all_below n in test n && rest

all_angles : all_below 360 ≡ true
unfolding all_below test sine cosine
all_angles = refl

both : (a b : Bool) → (a && b) ≡ true → (a ≡ true) × (b ≡ true)
both true b e = (refl, e)
both false b e = absurd (cc)

decode : (i : ℕ) → test i ≡ true → Matches i
unfolding test
decode i e =
    let (first, rest) =
      both (eqb_ℤ (cosine i) (sine ((i + 90) % 360)))
        (leb (square (sine i) + square (cosine i)) (2 ^ 32 + 2 ^ 17)
          && leb (2 ^ 32) (square (sine i) + square (cosine i) + 2 ^ 17))
        e in
    let (second, third) =
      both (leb (square (sine i) + square (cosine i)) (2 ^ 32 + 2 ^ 17))
        (leb (2 ^ 32) (square (sine i) + square (cosine i) + 2 ^ 17)) rest in
    (first, leb→le _ _ second, leb→le _ _ third)

below : (n i : ℕ) → all_below n ≡ true → i < n → test i ≡ true
unfolding all_below
below zero i e f = absurd (omega arith)
below (suc n) i e f = elim (ℕ_discrete i n) [
  | yes same ↦ rw same (both (test n) (all_below n) e).0
  | no differ ↦ below n i (both (test n) (all_below n) e).1 (omega arith)
]

-- Every angle below 360 matches: its cosine is the sine of the angle a quarter turn on, and the
-- squares of its sine and its cosine, in 16.16 fixed point, add up to 2 ^ 32 within 2 ^ 17.
pub sine-Matches : (i : ℕ) → i < 360 → Matches i
sine-Matches i f = decode i (below 360 i all_angles f)

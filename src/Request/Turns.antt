-- ===== src/Request/Turns.antt =====
-- A rotation from the usage flags of a task to the request.
use librga_rockchip.Base.{ℕ, ◌+◌, ◌*◌, ◌≡◌, refl, Bool, true, false, if◌then◌else◌}
use librga_rockchip.Base.Words.{field}
use librga_rockchip.Task.Modes.{transform, turn_word}
use librga_rockchip.Request.Plan.{orient, add_flip}

-- A rotation and a mirroring, as the API means them.
pub data Turn : Type 0 where
  turn_0 turn_90 turn_180 turn_270 : Turn

pub data Mirror : Type 0 where
  mirror_none mirror_h mirror_v mirror_h_v : Mirror

-- Their flags in the usage word, from bit 0 and from bit 3 on.
abbrev pub turn_flags : Turn → ℕ
turn_flags turn_0 = 0
turn_flags turn_90 = 1
turn_flags turn_180 = 2
turn_flags turn_270 = 4

abbrev pub mirror_flags : Mirror → ℕ
mirror_flags mirror_none = 0
mirror_flags mirror_h = 1
mirror_flags mirror_v = 2
mirror_flags mirror_h_v = 4

abbrev pub angle_of : Turn → ℕ
angle_of turn_0 = 0
angle_of turn_90 = 90
angle_of turn_180 = 180
angle_of turn_270 = 270

-- The code of a mirroring in rotate_mode.
abbrev pub mirror_code : Mirror → ℕ
mirror_code mirror_none = 0
mirror_code mirror_h = 2
mirror_code mirror_v = 3
mirror_code mirror_h_v = 4

abbrev pub is_quarter : Turn → Bool
is_quarter turn_90 = true
is_quarter turn_270 = true
is_quarter _ = false

-- rotate_mode: 1 and the mirroring in the upper half for a rotation; without one the mirroring, or 1
-- for a stretch and 0 for a copy.
abbrev pub rotate_mode_of : Turn → Mirror → Bool → ℕ
rotate_mode_of turn_0 mirror_none stretch = if stretch then 1 else 0
rotate_mode_of turn_0 mirror _ = mirror_code mirror
rotate_mode_of _ mirror _ = 1 + mirror_code mirror * 16

-- What the rotation word becomes in the request.
abbrev pub hardware_turn : ℕ → Bool → ℕ × ℕ × Bool
hardware_turn word stretch =
    let (angle, mode, turned) = orient word stretch in (angle, add_flip word mode, turned)

-- The words of the rotations, with and without a mirroring.
word_fits :
    (turn : Turn) (mirror : Mirror) (stretch : Bool)
    → hardware_turn (turn_word (turn_flags turn) (mirror_flags mirror)) stretch
      ≡ (angle_of turn, rotate_mode_of turn mirror stretch, is_quarter turn)
unfolding orient add_flip
word_fits turn_0 mirror_none true = refl
word_fits turn_0 mirror_none false = refl
word_fits turn_0 mirror_h stretch = refl
word_fits turn_0 mirror_v stretch = refl
word_fits turn_0 mirror_h_v stretch = refl
word_fits turn_90 mirror_none stretch = refl
word_fits turn_90 mirror_h stretch = refl
word_fits turn_90 mirror_v stretch = refl
word_fits turn_90 mirror_h_v stretch = refl
word_fits turn_180 mirror_none stretch = refl
word_fits turn_180 mirror_h stretch = refl
word_fits turn_180 mirror_v stretch = refl
word_fits turn_180 mirror_h_v stretch = refl
word_fits turn_270 mirror_none stretch = refl
word_fits turn_270 mirror_h stretch = refl
word_fits turn_270 mirror_v stretch = refl
word_fits turn_270 mirror_h_v stretch = refl

-- For a usage word with at most one flag of a rotation and at most one of a mirroring, the request
-- gets the angle of the rotation, the widths and heights are exchanged exactly for a quarter turn, and
-- rotate_mode is 1 with the mirroring in its upper half for a rotation, or else the mirroring, or
-- whether the image is stretched.
pub orient-transform :
    (usage : ℕ) (turn : Turn) (mirror : Mirror) (stretch : Bool)
    → field usage 0 3 ≡ turn_flags turn
    → field usage 3 3 ≡ mirror_flags mirror
    → hardware_turn (transform usage) stretch
      ≡ (angle_of turn, rotate_mode_of turn mirror stretch, is_quarter turn)
unfolding transform
orient-transform usage turn mirror stretch e f = rw (e, f) (word_fits turn mirror stretch)

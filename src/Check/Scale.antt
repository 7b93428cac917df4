-- ===== src/Check/Scale.antt =====
-- The limit of the scale of an operation and the layers of a blend.
use librga_rockchip.Base.{
  ℕ, ◌*◌, ◌≤◌, ◌<◌, ◌≢◌, ◌≡◌, ◌↔◌, refl, Bool, true, false, ◌||◌, ltb, arith, if◌then◌else◌,
}
use librga_rockchip.Base.Int.{ℤ, pos, negsuc, ◌≤ℤ◌, pos_part, eqb_ℤ}
use librga_rockchip.Status.{noerror}
use librga_rockchip.Format.{unknown, Format, code, is_rga_format}
use librga_rockchip.Check.{
  Buffer, uses, rga_is_buffer_valid, im_hal_transform_rot_90, im_hal_transform_rot_270,
}
use librga_rockchip.Check.Operation.{rga_check_limit, rga_check_blend}

-- IEEE 754 single precision: numbers to 8192 are exact, and so is the comparison of their quotient
-- with a whole number to 16.
abbrev pub ExactQuotients : (ℤ → ℤ → ℕ → Bool) → Type 0
ExactQuotients exceeds =
    (a b s : ℕ)
    → 0 < a
    → a ≤ 8192
    → 0 < b
    → b ≤ 8192
    → s ≤ 16
    → exceeds (pos a) (pos b) s ≡ ltb (s * b) a

-- A size that the hardware takes.
abbrev pub SideFits : ℤ → Type 0
SideFits a = (pos 2 ≤ℤ a) × (a ≤ℤ pos 8192)

-- Neither side is more than `s` times the other.
abbrev pub Near : ℕ → ℤ → ℤ → Type 0
Near s a b = (pos_part a ≤ s * pos_part b) × (pos_part b ≤ s * pos_part a)

abbrev pub turns : ℕ → Bool
turns mode = uses mode im_hal_transform_rot_270 || uses mode im_hal_transform_rot_90

-- A rotation by 90 or 270 degrees swaps the sides of the target.
abbrev pub ScaleFits : Buffer → Buffer → ℕ → ℕ → Type 0
ScaleFits src dst s mode =
    Near s src.width (if turns mode then dst.height else dst.width)
    × Near s src.height (if turns mode then dst.width else dst.height)

exceeds_iff :
    (exceeds : ℤ → ℤ → ℕ → Bool) (a b : ℤ) (s : ℕ)
    → ExactQuotients exceeds
    → SideFits a
    → SideFits b
    → s ≤ 16
    → (exceeds a b s ≡ false) ↔ (pos_part a ≤ s * pos_part b)
exceeds_iff exceeds (pos a) (pos b) s law p q h =
    ground (arith, law a b s (omega arith) (omega arith) (omega arith) (omega arith) h)
exceeds_iff exceeds (negsuc a) b s law p q h = absurd (omega arith)
exceeds_iff exceeds a (negsuc b) s law p q h = absurd (omega arith)

if-SideFits : (c : Bool) (a b : ℤ) → SideFits a → SideFits b → SideFits (if c then a else b)
if-SideFits true a b p q = p
if-SideFits false a b p q = q

-- For sizes that the hardware takes, the check of the scale passes exactly when each side of the
-- source and the target's side that it becomes are within the limit's factor of one another.
pub rga_check_limit_iff :
    (exceeds : ℤ → ℤ → ℕ → Bool) (src dst : Buffer) (s mode : ℕ)
    → ExactQuotients exceeds
    → SideFits src.width
    → SideFits src.height
    → SideFits dst.width
    → SideFits dst.height
    → s ≤ 16
    → (rga_check_limit exceeds src dst s mode ≡ noerror) ↔ ScaleFits src dst s mode
unfolding rga_check_limit
rga_check_limit_iff exceeds src dst s mode law sw sh dw dh h =
    let w = if turns mode then dst.height else dst.width in
    let v = if turns mode then dst.width else dst.height in
    let w_fits = if-SideFits (turns mode) dst.height dst.width dh dw in
    let v_fits = if-SideFits (turns mode) dst.width dst.height dw dh in
    ground (
      arith,
      exceeds_iff exceeds src.width w s law sw w_fits h,
      exceeds_iff exceeds w src.width s law w_fits sw h,
      exceeds_iff exceeds src.height v s law sh v_fits h,
      exceeds_iff exceeds v src.height s law v_fits sh h,
    )

-- The background is in a format of the library, and a third layer has the size of the target.
abbrev pub BlendFits : Buffer → Buffer → Bool → Type 0
BlendFits pat dst pat_enable =
    ((if rga_is_buffer_valid pat then is_rga_format pat.format else is_rga_format dst.format)
      ≡ true)
    × (pat_enable ≡ true → (pat.width ≡ dst.width) × (pat.height ≡ dst.height))

eqb_ℤ_iff : (a b : ℤ) → (eqb_ℤ a b ≡ true) ↔ (a ≡ b)
eqb_ℤ_iff (pos a) (pos b) = ground arith
eqb_ℤ_iff (negsuc a) (negsuc b) = ground arith
eqb_ℤ_iff (pos a) (negsuc b) = ground arith
eqb_ℤ_iff (negsuc a) (pos b) = ground arith

pub rga_check_blend_iff :
    (src pat dst : Buffer) (pat_enable : Bool)
    → (rga_check_blend src pat dst pat_enable ≡ noerror) ↔ BlendFits pat dst pat_enable
unfolding rga_check_blend
rga_check_blend_iff src pat dst pat_enable =
    ground (arith, eqb_ℤ_iff pat.width dst.width, eqb_ℤ_iff pat.height dst.height)

is_rga_format-code : (f : Format) → f ≢ unknown → is_rga_format (code f) ≡ true
unfolding code is_rga_format
is_rga_format-code unknown n = absurd (n refl)
is_rga_format-code f n = refl

background :
    (c : Bool) (x y : ℕ) (f : Format)
    → f ≢ unknown
    → (if c then x else y) ≡ code f
    → (if c then is_rga_format x else is_rga_format y) ≡ true
background true x y f n e = rw e (is_rga_format-code f n)
background false x y f n e = rw e (is_rga_format-code f n)

-- A code of the library passes for RGB: when the background, the third layer if it is there and
-- else the target, has the code of any format but the unknown one, a YUV format included, and there is no third layer of
-- another size, the check of a blend passes.
pub rga_check_blend_any :
    (src pat dst : Buffer) (pat_enable : Bool) (f : Format)
    → f ≢ unknown
    → (if rga_is_buffer_valid pat then pat.format else dst.format) ≡ code f
    → (pat_enable ≡ true → (pat.width ≡ dst.width) × (pat.height ≡ dst.height))
    → rga_check_blend src pat dst pat_enable ≡ noerror
rga_check_blend_any src pat dst pat_enable f n e sizes =
    (rga_check_blend_iff src pat dst pat_enable).1
      (background (rga_is_buffer_valid pat) pat.format dst.format f n e, sizes)

-- ===== src/Check/Fits.antt =====
-- What it means that the hardware can do an operation, as independent predicates, and the checks of
-- the operation against them.
use librga_rockchip.Base.{
  ℕ, ◌^◌, ◌≡◌, ◌↔◌, ◌⊎◌, refl, Bool, true, false, ◌&&◌, ◌||◌, List, [], ◌∷◌, All, arith,
}
use librga_rockchip.Base.Int.{ℤ, pos, ◌≤ℤ◌, ◌<ℤ◌}
use librga_rockchip.Base.Bits.{test_bit}
use librga_rockchip.Status.{Status, noerror, ◌>>◌, >>-iff, >>-both}
use librga_rockchip.Format.{Format, code}
use librga_rockchip.Hardware.{
  Resolution, FeatureFlag, InfoEntry, feature_index, color_fill, color_palette, rop, quantize,
  src1_r2y_csc, dst_full_csc, mosaic, osd, pre_intr, alpha_bit_map, gauss,
}
use librga_rockchip.Check.{
  Buffer, Rect, uses, im_color_fill, im_color_palette, im_rop, im_nn_quantize, im_mosaic, im_osd,
  im_pre_intr, im_alpha_bit_map, im_gauss, im_hal_transform_flip_h_v,
}
use librga_rockchip.Check.Info.{
  rga_check_info, rga_check_info_iff, InRange, SizeFits, RectFits, ResolutionFits,
}
use librga_rockchip.Check.Formats.{rga_check_format}
use librga_rockchip.Check.Need.{rga_check_format_iff, Meets, need}
use librga_rockchip.Check.Align.{rga_check_align, rga_check_align_iff, ModeFits, StrideFits}
use librga_rockchip.Check.Operation.{
  rga_check_feature, asks, rgb_to_yuv, full_csc, rga_check_rotate, is_rga_1, rotates, mirrors,
}
use librga_rockchip.Check.Whole.{check_image}

-- An image of which the hardware can read, or write, the rectangle.
abbrev pub ImageFits : Bool → Buffer → Rect → Resolution → ℕ → ℕ → ℕ → Bool → Type 0
ImageFits linux b r res formats byte_stride mode is_read =
    (SizeFits b × RectFits b r × ResolutionFits b r res)
    × ((f : Format) × (b.format ≡ code f) × Meets (need f) b r formats mode)
    × (ModeFits b is_read × StrideFits linux b byte_stride)

wstride_nonneg : (b : Buffer) → SizeFits b → pos 0 ≤ℤ b.wstride
wstride_nonneg b s = ground arith

pub check_image_iff :
    (linux : Bool) (exceeds : ℤ → ℤ → ℕ → Bool) (b : Buffer) (r : Rect) (res : Resolution)
    → (formats byte_stride mode : ℕ) (is_read : Bool) → InRange r
    → b.wstride <ℤ pos (2 ^ 31)
    → (byte_stride ≡ 4) ⊎ (byte_stride ≡ 16)
    → (check_image linux exceeds b r res formats byte_stride mode is_read ≡ noerror)
      ↔ ImageFits linux b r res formats byte_stride mode is_read
unfolding check_image
check_image_iff linux exceeds b r res formats byte_stride mode is_read range int s =
    let align = rga_check_align linux b byte_stride is_read in
    let front =
      >>-both (rga_check_info b r res) (rga_check_format b r formats mode)
        (rga_check_info_iff b r res range) (rga_check_format_iff b r formats mode) in
    let align_iff = λ (size : SizeFits b).
      rga_check_align_iff linux b byte_stride is_read s (wstride_nonneg b size) int in
    (
      λ h.
          let (first, last) = (>>-iff _ align).0 h in
          let (fits, format) = front.0 first in (fits, format, (align_iff fits.0).0 last),
      λ (fits, format, stride).
          (>>-iff _ align).1 (front.1 (fits, format), (align_iff fits.0).1 stride),
    )

-- What the operation asks of the hardware's features.
abbrev pub demands : Buffer → Buffer → Buffer → Bool → ℕ → List (Bool × FeatureFlag)
demands src pat dst pat_enable mode =
    (uses mode im_color_fill, color_fill)
    ∷ (uses mode im_color_palette, color_palette)
    ∷ (uses mode im_rop, rop)
    ∷ (uses mode im_nn_quantize, quantize)
    ∷ (pat_enable && rgb_to_yuv pat, src1_r2y_csc)
    ∷ (full_csc src || full_csc dst || (pat_enable && full_csc pat), dst_full_csc)
    ∷ (uses mode im_mosaic, mosaic)
    ∷ (uses mode im_osd, osd)
    ∷ (uses mode im_pre_intr, pre_intr)
    ∷ (uses mode im_alpha_bit_map, alpha_bit_map)
    ∷ (uses mode im_gauss, gauss)
    ∷ []

abbrev pub Granted : ℕ → Bool × FeatureFlag → Type 0
Granted features d = d.0 ≡ true → test_bit features (feature_index d.1) ≡ true

asks_iff :
    (c : Bool) (features : ℕ) (flag : FeatureFlag)
    → (asks c features flag ≡ noerror) ↔ Granted features (c, flag)
asks_iff c features flag = ground arith

-- The checks of the features, one after the other.
check_demands : ℕ → Status → List (Bool × FeatureFlag) → Status
check_demands features s [] = s
check_demands features s (d ∷ ds) = check_demands features (s >> asks d.0 features d.1) ds

check_demands_iff :
    (features : ℕ) (s : Status) (ds : List (Bool × FeatureFlag))
    → (check_demands features s ds ≡ noerror) ↔ ((s ≡ noerror) × All (Granted features) ds)
unfolding check_demands
check_demands_iff features s [] = (λ h. (h, tt), λ (h, u). h)
check_demands_iff features s (d ∷ ds) =
    let rest = check_demands_iff features (s >> asks d.0 features d.1) ds in
    let first = >>-iff s (asks d.0 features d.1) in
    let this = asks_iff d.0 features d.1 in
    (
      λ h. let (p, q) = rest.0 h in let (a, b) = first.0 p in (a, (this.0 b, q)),
      λ (a, (b, q)). rest.1 (first.1 (a, this.1 b), q),
    )

-- The check of the features passes exactly when the hardware has every feature that the operation
-- asks for.
pub rga_check_feature_iff :
    (src pat dst : Buffer) (pat_enable : Bool) (mode features : ℕ)
    → (rga_check_feature src pat dst pat_enable mode features ≡ noerror)
      ↔ All (Granted features) (demands src pat dst pat_enable mode)
unfolding rga_check_feature check_demands
rga_check_feature_iff src pat dst pat_enable mode features =
    let whole = check_demands_iff features noerror (demands src pat dst pat_enable mode) in
    (λ h. (whole.0 h).1, λ a. whole.1 (refl, a))

-- The old hardware does not mirror in both directions, and does not rotate and mirror at once.
abbrev pub RotateFits : ℕ → InfoEntry → Type 0
RotateFits mode t =
    is_rga_1 t ≡ true
    → (uses mode im_hal_transform_flip_h_v ≡ false) × ((rotates mode && mirrors mode) ≡ false)

pub rga_check_rotate_iff :
    (mode : ℕ) (t : InfoEntry) → (rga_check_rotate mode t ≡ noerror) ↔ RotateFits mode t
unfolding rga_check_rotate
rga_check_rotate_iff mode t = ground arith

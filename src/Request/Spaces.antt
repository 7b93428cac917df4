-- ===== src/Request/Spaces.antt =====
-- What a conversion between two colour spaces becomes in the request.
use librga_rockchip.Base.{ℕ, ◌≡◌, refl, Bool, true, false, Option, none, some, if◌then◌else◌}
use librga_rockchip.Base.Int.{ℤ}
use librga_rockchip.Base.Bits.{test_bit}
use librga_rockchip.Hardware.{InfoEntry, feature_index, dst_full_csc}
use librga_rockchip.Csc.{
  full_csc_code, rgb2yuv_709_limit, rga_get_csc_mode, rgb_full, yuv_bt601_limit_range,
  yuv_bt601_full_range, yuv_bt709_limit_range, yuv_bt709_full_range, rgb_to_yuv_bt601_limit,
  rgb_to_yuv_bt601_full, rgb_to_yuv_bt709_limit, yuv_to_rgb_bt601_limit, yuv_to_rgb_bt601_full,
  yuv_to_rgb_bt709_limit,
}
use librga_rockchip.Request.{Req}
use librga_rockchip.Request.Zero.{zero_req}
use librga_rockchip.Request.Plan.{set_csc}
use librga_rockchip.Request.Colours.{Space, rgb, limit_601, full_601, limit_709, full_709, Carries}
use librga_rockchip.Request.Coefficients.{
  r2y_709_limit, r2y_709_full, full_601_to_limit_709, limit_709_to_limit_601, full_709_to_limit_601,
  full_709_to_full_601,
}

abbrev pub space_code : Space → ℕ
space_code rgb = rgb_full
space_code limit_601 = yuv_bt601_limit_range
space_code full_601 = yuv_bt601_full_range
space_code limit_709 = yuv_bt709_limit_range
space_code full_709 = yuv_bt709_full_range

-- The fixed modes of the hardware, the table of coefficients, nothing at all, or a refusal.
pub data Reach : Type 0 where
  by_mode : ℕ → Reach
  by_table : Reach
  by_nothing : Reach
  refused : Reach

-- The conversions of the hardware; `full` is whether its target has a full conversion.
abbrev pub reach_of : Bool → Space → Space → Reach
reach_of full rgb rgb = by_nothing
reach_of full rgb limit_601 = by_mode rgb_to_yuv_bt601_limit
reach_of full rgb full_601 = by_mode rgb_to_yuv_bt601_full
reach_of full rgb limit_709 = if full then by_table else by_mode rgb_to_yuv_bt709_limit
reach_of full rgb full_709 = by_table
reach_of full limit_601 rgb = by_mode yuv_to_rgb_bt601_limit
reach_of full limit_601 limit_601 = by_nothing
reach_of full limit_601 _ = refused
reach_of full full_601 rgb = by_mode yuv_to_rgb_bt601_full
reach_of full full_601 full_601 = by_nothing
reach_of full full_601 limit_709 = by_table
reach_of full full_601 _ = refused
reach_of full limit_709 rgb = by_mode yuv_to_rgb_bt709_limit
reach_of full limit_709 limit_709 = by_nothing
reach_of full limit_709 limit_601 = by_table
reach_of full limit_709 _ = refused
reach_of full full_709 rgb = refused
reach_of full full_709 limit_709 = by_nothing
reach_of full full_709 full_709 = by_nothing
reach_of full full_709 _ = by_table

-- What a request without a default conversion holds.
abbrev pub reached : Option (Req × ℕ) → Reach
reached none = refused
reached (some (req, mode)) =
    if req.feature.full_csc_clip_en
    then by_table
    else elim mode [ ℕ.zero ↦ by_nothing | ℕ.suc n ↦ by_mode (ℕ.suc n) ]

-- A request as the conversion asks for it: by the table only if the table converts.
abbrev pub Does : (ℤ → ℤ) → Space → Space → Reach → Option (Req × ℕ) → Type 0
Does to_fixed a b by_table result = Carries to_fixed a b result
Does to_fixed a b reach result = reached result ≡ reach

to_limit_709 :
    (to_fixed : ℤ → ℤ) (full : Bool)
    → Does to_fixed rgb limit_709 (if full then by_table else by_mode rgb_to_yuv_bt709_limit) (
        set_csc to_fixed zero_req
          (if full then full_csc_code rgb2yuv_709_limit else rgb_to_yuv_bt709_limit)
          (0, 0))
unfolding set_csc
to_limit_709 to_fixed true = (_, _, r2y_709_limit, refl, refl, refl, refl, refl, refl, refl)
to_limit_709 to_fixed false = refl

-- For images whose formats ask for no conversion by themselves, the mode that rga_get_csc_mode picks
-- for two colour spaces ends in the request as `reach_of` says: as a fixed mode of the hardware, as
-- nothing at all, as a refusal, or as a table. A table, before its rounding, carries black, white,
-- red, green and blue of the source to those of the target up to half a level of 256, by the
-- definitions of BT.601 and BT.709, and is set with the target's range of levels. A conversion from
-- the full range of BT.709 to its limited range is neither refused nor done, although the spaces
-- differ.
pub set_csc-rga_get_csc_mode :
    (to_fixed : ℤ → ℤ) (t : InfoEntry) (a b : Space)
    → Does to_fixed a b
        (reach_of (test_bit t.feature (feature_index dst_full_csc)) a b)
        (set_csc to_fixed zero_req (rga_get_csc_mode t (space_code a) (space_code b)) (0, 0))
unfolding set_csc rga_get_csc_mode
set_csc-rga_get_csc_mode to_fixed t rgb rgb = refl
set_csc-rga_get_csc_mode to_fixed t rgb limit_601 = refl
set_csc-rga_get_csc_mode to_fixed t rgb full_601 = refl
set_csc-rga_get_csc_mode to_fixed t rgb limit_709 =
    to_limit_709 to_fixed (test_bit t.feature (feature_index dst_full_csc))
set_csc-rga_get_csc_mode to_fixed t rgb full_709 =
    (_, _, r2y_709_full, refl, refl, refl, refl, refl, refl, refl)
set_csc-rga_get_csc_mode to_fixed t limit_601 rgb = refl
set_csc-rga_get_csc_mode to_fixed t limit_601 limit_601 = refl
set_csc-rga_get_csc_mode to_fixed t limit_601 full_601 = refl
set_csc-rga_get_csc_mode to_fixed t limit_601 limit_709 = refl
set_csc-rga_get_csc_mode to_fixed t limit_601 full_709 = refl
set_csc-rga_get_csc_mode to_fixed t full_601 rgb = refl
set_csc-rga_get_csc_mode to_fixed t full_601 limit_601 = refl
set_csc-rga_get_csc_mode to_fixed t full_601 full_601 = refl
set_csc-rga_get_csc_mode to_fixed t full_601 limit_709 =
    (_, _, full_601_to_limit_709, refl, refl, refl, refl, refl, refl, refl)
set_csc-rga_get_csc_mode to_fixed t full_601 full_709 = refl
set_csc-rga_get_csc_mode to_fixed t limit_709 rgb = refl
set_csc-rga_get_csc_mode to_fixed t limit_709 limit_601 =
    (_, _, limit_709_to_limit_601, refl, refl, refl, refl, refl, refl, refl)
set_csc-rga_get_csc_mode to_fixed t limit_709 full_601 = refl
set_csc-rga_get_csc_mode to_fixed t limit_709 limit_709 = refl
set_csc-rga_get_csc_mode to_fixed t limit_709 full_709 = refl
set_csc-rga_get_csc_mode to_fixed t full_709 rgb = refl
set_csc-rga_get_csc_mode to_fixed t full_709 limit_601 =
    (_, _, full_709_to_limit_601, refl, refl, refl, refl, refl, refl, refl)
set_csc-rga_get_csc_mode to_fixed t full_709 full_601 =
    (_, _, full_709_to_full_601, refl, refl, refl, refl, refl, refl, refl)
set_csc-rga_get_csc_mode to_fixed t full_709 limit_709 = refl
set_csc-rga_get_csc_mode to_fixed t full_709 full_709 = refl

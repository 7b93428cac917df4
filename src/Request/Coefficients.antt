-- ===== src/Request/Coefficients.antt =====
-- NormalRgaFullColorSpaceConvert of core/NormalRgaApi.cpp.
use librga_rockchip.Base.{
  ℕ, zero, suc, ◌==◌, ◌/◌, ◌^◌, true, Option, none, some, [], ◌∷◌, if◌then◌else◌, switch,
}
use librga_rockchip.Base.Int.{ℤ, pos, negsuc}
use librga_rockchip.Csc.{
  full_csc_code, rgb2yuv_601_full, rgb2yuv_709_limit, rgb2yuv_709_full,
  yuv2yuv_709_limit_2_601_limit, yuv2yuv_601_full_2_709_limit, yuv2yuv_709_full_2_601_limit,
  yuv2yuv_709_full_2_601_full,
}
use librga_rockchip.Request.{Req, CscCoe, FullCsc, CscClip}

-- A decimal number of ten-thousandths below 0.
abbrev minus : ℕ → ℤ
minus zero = pos 0
minus (suc n) = negsuc n

abbrev coefs : ℤ → ℤ → ℤ → ℤ → CscCoe
coefs r_v g_y b_u off = record { r_v = r_v; g_y = g_y; b_u = b_u; off = off }

abbrev rows : CscCoe → CscCoe → CscCoe → FullCsc
rows y u v = record { flag = 1; coe_y = y; coe_u = u; coe_v = v }

-- default_csc_float_table, in ten-thousandths.
abbrev pub r2y_601_full : FullCsc
r2y_601_full =
    rows (coefs (pos 2990) (pos 5870) (pos 1140) (pos 0))
      (coefs (minus 1690) (minus 3310) (pos 5000) (pos 1280000))
      (coefs (pos 5000) (minus 4190) (minus 810) (pos 1280000))

abbrev pub r2y_709_limit : FullCsc
r2y_709_limit =
    rows (coefs (pos 1830) (pos 6140) (pos 620) (pos 160000))
      (coefs (minus 1010) (minus 3390) (pos 4390) (pos 1280000))
      (coefs (pos 4390) (minus 3990) (minus 400) (pos 1280000))

abbrev pub r2y_709_full : FullCsc
r2y_709_full =
    rows (coefs (pos 2130) (pos 7150) (pos 720) (pos 0))
      (coefs (minus 1150) (minus 3850) (pos 5000) (pos 1280000))
      (coefs (pos 5000) (minus 4540) (minus 460) (pos 1280000))

abbrev pub full_601_to_limit_709 : FullCsc
full_601_to_limit_709 =
    rows (coefs (minus 1826) (pos 8588) (minus 1014) (pos 523554))
      (coefs (pos 1007) (minus 4) (pos 8948) (pos 5781))
      (coefs (pos 9005) (pos 0) (pos 653) (pos 43855))

abbrev pub limit_709_to_limit_601 : FullCsc
limit_709_to_limit_601 =
    rows (coefs (pos 1916) (pos 10000) (pos 993) (minus 372476))
      (coefs (minus 1106) (pos 0) (pos 9895) (pos 154669))
      (coefs (pos 9827) (pos 2) (minus 723) (pos 114231))

abbrev pub full_709_to_limit_601 : FullCsc
full_709_to_limit_601 =
    rows (coefs (pos 1685) (pos 8588) (pos 872) (minus 167232))
      (coefs (minus 971) (pos 0) (pos 8695) (pos 291335))
      (coefs (pos 8638) (pos 0) (minus 637) (pos 255824))

abbrev pub full_709_to_full_601 : FullCsc
full_709_to_full_601 =
    rows (coefs (pos 1955) (pos 10000) (pos 1019) (minus 380729))
      (coefs (minus 1104) (pos 0) (pos 9899) (pos 154218))
      (coefs (pos 9836) (pos 0) (minus 716) (pos 112587))

-- The first two rows of default_csc_clip_table; the third is never used.
abbrev pub full_range : CscClip
full_range = record { y = (0xff, 0); uv = (0xff, 0) }

abbrev pub limit_range : CscClip
limit_range = record { y = (0xeb, 0x10); uv = (0xf0, 0x10) }

-- The switch statement, on the masked mode.
abbrev pub csc_row : ℕ → Option (FullCsc × CscClip)
csc_row mode =
    switch mode
      ((full_csc_code rgb2yuv_601_full, some (r2y_601_full, full_range))
        ∷ (full_csc_code rgb2yuv_709_limit, some (r2y_709_limit, limit_range))
        ∷ (full_csc_code rgb2yuv_709_full, some (r2y_709_full, full_range))
        ∷ (full_csc_code yuv2yuv_709_limit_2_601_limit, some (limit_709_to_limit_601, limit_range))
        ∷ (full_csc_code yuv2yuv_601_full_2_709_limit, some (full_601_to_limit_709, limit_range))
        ∷ (full_csc_code yuv2yuv_709_full_2_601_limit, some (full_709_to_limit_601, limit_range))
        ∷ (full_csc_code yuv2yuv_709_full_2_601_full, some (full_709_to_full_601, full_range))
        ∷ [])
      none

-- `to_fixed` is (int)(x * 0x3ff + 0.5) of the float x that is nearest to the decimal number.
module _ (to_fixed : ℤ → ℤ) where
  abbrev fixed : CscCoe → CscCoe
  fixed c = coefs (to_fixed c.r_v) (to_fixed c.g_y) (to_fixed c.b_u) (to_fixed c.off)

  -- `none` is the status -1.
  unfoldable pub normal_rga_full_color_space_convert : Req → ℕ → Option Req
  normal_rga_full_color_space_convert msg mode = elim (csc_row mode) [
    | none ↦ none
    | some (table, clip) ↦
        if mode / 2 ^ 8 == 0
        then some msg
        else some (record msg {
          full_csc = rows (fixed table.coe_y) (fixed table.coe_u) (fixed table.coe_v);
          full_csc_clip = clip;
          feature = record msg.feature { full_csc_clip_en = true };
        })
  ]

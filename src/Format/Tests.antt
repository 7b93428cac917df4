-- ===== src/Format/Tests.antt =====
-- The formats at concrete codes.
use librga_rockchip.Base.{◌≡◌, refl, true, false, not, ◌&&◌, ◌==◌, arith}
use librga_rockchip.Format.{
  code, case_in, is_rgb_format, is_yuv_format, is_bpp_format, is_alpha_format, is_rga_format,
  rgba2bpp, rgbx_1010102, ycbcr_420_sp, rgb_888,
}
use librga_rockchip.Format.Convert.{
  convert_to_rga_format, convert_compatible, get_format_from_android_hal,
}
use librga_rockchip.Format.Classes.{classes_apart, convert_skips_table}

-- An X format, whose last bits mean nothing, is counted among those with alpha.
x_counts_as_alpha : is_alpha_format (code rgbx_1010102) ≡ true
unfolding is_alpha_format case_in code
x_counts_as_alpha = refl

-- The Android table has NV12 for 0x200, and the conversion answers RGB888.
rfbc_is_lost :
    (get_format_from_android_hal 0x200 ≡ code ycbcr_420_sp)
    × (convert_to_rga_format false 0x200 ≡ code rgb_888)
unfolding convert_to_rga_format convert_compatible get_format_from_android_hal code
rfbc_is_lost = (refl, refl)

classes_apart_example :
    ¬ ((is_rgb_format 0x500 ≡ true) × (is_yuv_format 0x500 ≡ true))
    × ¬ ((is_rgb_format 0x500 ≡ true) × (is_bpp_format 0x500 ≡ true))
    × ¬ ((is_yuv_format 0x500 ≡ true) × (is_bpp_format 0x500 ≡ true))
    × ((is_alpha_format 0x500 && not (is_rgb_format 0x500) && not (0x500 == code rgba2bpp)) ≡ false)
classes_apart_example = classes_apart 0x500

convert_skips_table_example : convert_to_rga_format false 0x200 ≡ 0x200
unfolding is_rga_format
convert_skips_table_example = convert_skips_table false 0x200 (omega arith) (omega arith) refl

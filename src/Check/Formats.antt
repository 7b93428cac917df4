-- ===== src/Check/Formats.antt =====
-- rga_check_format of im2d_api/src/im2d_impl.cpp: the formats that the hardware takes.
use librga_rockchip.Base.{ℕ, Bool, ◌&&◌, not, [], ◌∷◌}
use librga_rockchip.Base.{if◌then◌else◌}
use librga_rockchip.Base.Bits.{test_bit}
use librga_rockchip.Status.{Status, success, noerror, not_supported, ◌>>◌, reject}
use librga_rockchip.Format.{
  case_in, rgba_8888, bgra_8888, rgbx_8888, bgrx_8888, argb_8888, abgr_8888, xrgb_8888, xbgr_8888,
  rgb_888, bgr_888, rgb_565, bgr_565, argb_4444, abgr_4444, argb_5551, abgr_5551, rgba_4444,
  bgra_4444, rgba_5551, bgra_5551, bpp1, bpp2, bpp4, bpp8, ycrcb_420_sp, ycbcr_420_sp, ycrcb_420_p,
  ycbcr_420_p, ycrcb_422_sp, ycbcr_422_sp, ycrcb_422_p, ycbcr_422_p, ycrcb_420_sp_10b,
  ycbcr_420_sp_10b, ycrcb_422_sp_10b, ycbcr_422_sp_10b, yuyv_420, yvyu_420, uyvy_420, vyuy_420,
  yuyv_422, yvyu_422, uyvy_422, vyuy_422, ycbcr_400, y4, rgba2bpp, a8, ycrcb_444_sp, ycbcr_444_sp,
  y8, rgba_1010102, bgra_1010102, argb_2101010, abgr_2101010, rgbx_1010102, bgrx_1010102,
  xrgb_2101010, xbgr_2101010, yuv_444_10b,
}
use librga_rockchip.Hardware.{
  FormatFlag, format_index, rgb, argb_16bit, rgba_16bit, bpp, yuv_420_semi_planner_8_bit,
  yuv_420_planner_8_bit, yuv_422_semi_planner_8_bit, yuv_422_planner_8_bit,
  yuv_420_semi_planner_10_bit, yuv_422_semi_planner_10_bit, yuyv_420 as flag_yuyv_420,
  yuyv_422 as flag_yuyv_422, yuv_400, y4 as flag_y4, rgba2bpp as flag_rgba2bpp, alpha_8_bit,
  yuv_444_semi_planner_8_bit, y8 as flag_y8, rgba_1010102 as flag_rgba_1010102,
  yuv_444_paced_10_bit,
}
use librga_rockchip.Check.{Buffer, Rect, uses, im_color_palette, rga_yuv_legality_check}

-- usage & flag
abbrev pub offers : ℕ → FormatFlag → Bool
offers usage flag = test_bit usage (format_index flag)

-- if (~usage & flag) return IM_STATUS_NOT_SUPPORTED;
abbrev pub needs : ℕ → FormatFlag → Status
needs usage flag = reject (not (offers usage flag)) not_supported

-- A status other than IM_STATUS_SUCCESS ends the check.
abbrev pub unless_success : Status → Status
unless_success success = noerror
unless_success status = status

abbrev pub legal : Buffer → Rect → Status
legal b r = unless_success (rga_yuv_legality_check b r)

-- The last branches of the chain.
unfoldable pub check_last_formats : ℕ → Buffer → Rect → ℕ → Status
check_last_formats f b r usage =
    if case_in f (rgba2bpp ∷ [])
    then needs usage flag_rgba2bpp
    else if case_in f (a8 ∷ [])
    then needs usage alpha_8_bit
    else if case_in f (ycrcb_444_sp ∷ ycbcr_444_sp ∷ [])
    then needs usage yuv_444_semi_planner_8_bit >> legal b r
    else if case_in f (y8 ∷ [])
    then needs usage flag_y8 >> legal b r
    else if case_in f (
        rgba_1010102 ∷ bgra_1010102 ∷ argb_2101010 ∷ abgr_2101010 ∷ rgbx_1010102 ∷ bgrx_1010102
        ∷ xrgb_2101010 ∷ xbgr_2101010 ∷ [])
    then needs usage flag_rgba_1010102
    else if case_in f (yuv_444_10b ∷ [])
    then needs usage yuv_444_paced_10_bit >> legal b r
    else not_supported

-- The branches in the middle.
unfoldable pub check_more_formats : ℕ → Buffer → Rect → ℕ → Status
check_more_formats f b r usage =
    if case_in f (ycrcb_420_sp_10b ∷ ycbcr_420_sp_10b ∷ [])
    then needs usage yuv_420_semi_planner_10_bit >> legal b r
    else if case_in f (ycrcb_422_sp_10b ∷ ycbcr_422_sp_10b ∷ [])
    then needs usage yuv_422_semi_planner_10_bit >> legal b r
    else if case_in f (yuyv_420 ∷ yvyu_420 ∷ uyvy_420 ∷ vyuy_420 ∷ [])
    then needs usage flag_yuyv_420 >> legal b r
    else if case_in f (yuyv_422 ∷ yvyu_422 ∷ uyvy_422 ∷ vyuy_422 ∷ [])
    then needs usage flag_yuyv_422 >> legal b r
    else if case_in f (ycbcr_400 ∷ [])
    then needs usage yuv_400 >> legal b r
    else if case_in f (y4 ∷ [])
    then needs usage flag_y4 >> legal b r
    else check_last_formats f b r usage

-- `usage` is the word of the formats that the hardware takes, `mode` the usage of the operation.
unfoldable pub rga_check_format : Buffer → Rect → ℕ → ℕ → Status
unfolding check_more_formats check_last_formats
rga_check_format b r usage mode =
    let f = b.format in
    if case_in f (
      rgba_8888 ∷ bgra_8888 ∷ rgbx_8888 ∷ bgrx_8888 ∷ argb_8888 ∷ abgr_8888 ∷ xrgb_8888 ∷ xbgr_8888
      ∷ rgb_888 ∷ bgr_888 ∷ rgb_565 ∷ bgr_565 ∷ [])
    then needs usage rgb
    else if case_in f (argb_4444 ∷ abgr_4444 ∷ argb_5551 ∷ abgr_5551 ∷ [])
    then needs usage argb_16bit
    else if case_in f (rgba_4444 ∷ bgra_4444 ∷ rgba_5551 ∷ bgra_5551 ∷ [])
    then needs usage rgba_16bit
    else if case_in f (bpp1 ∷ bpp2 ∷ bpp4 ∷ bpp8 ∷ [])
    then reject (not (offers usage bpp) && not (uses mode im_color_palette)) not_supported
    else if case_in f (ycrcb_420_sp ∷ ycbcr_420_sp ∷ [])
    then needs usage yuv_420_semi_planner_8_bit >> legal b r
    else if case_in f (ycrcb_420_p ∷ ycbcr_420_p ∷ [])
    then needs usage yuv_420_planner_8_bit >> legal b r
    else if case_in f (ycrcb_422_sp ∷ ycbcr_422_sp ∷ [])
    then needs usage yuv_422_semi_planner_8_bit >> legal b r
    else if case_in f (ycrcb_422_p ∷ ycbcr_422_p ∷ [])
    then needs usage yuv_422_planner_8_bit >> legal b r
    else check_more_formats f b r usage

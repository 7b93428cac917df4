-- ===== src/Format/Stride.antt =====
-- Bytes and bits per pixel: get_bpp_from_format and get_per_pixel_stride_from_format of
-- core/RgaUtils.cpp (there get_perPixel_stride_from_format).
use librga_rockchip.Base.{ℕ, Bool, [], ◌∷◌, if◌then◌else◌}
use librga_rockchip.Format.{
  case_in, rgba_8888, rgbx_8888, rgb_888, bgra_8888, rgb_565, rgba_5551, rgba_4444, bgr_888,
  ycbcr_422_sp, ycbcr_422_p, ycbcr_420_sp, ycbcr_420_p, ycrcb_422_sp, ycrcb_422_p, ycrcb_420_sp,
  ycrcb_420_p, bpp1, bpp2, bpp4, bpp8, y4, ycbcr_400, bgrx_8888, yvyu_422, yvyu_420, vyuy_422,
  vyuy_420, yuyv_422, yuyv_420, uyvy_422, uyvy_420, ycbcr_420_sp_10b, ycrcb_420_sp_10b,
  ycbcr_422_sp_10b, ycrcb_422_sp_10b, bgr_565, bgra_5551, bgra_4444, argb_8888, xrgb_8888,
  argb_4444, abgr_8888, xbgr_8888, abgr_4444, rgba2bpp, a8, ycbcr_444_sp, ycrcb_444_sp, y8,
  rgba_1010102, bgra_1010102, argb_2101010, abgr_2101010, rgbx_1010102, bgrx_1010102, xrgb_2101010,
  xbgr_2101010, yuv_444_10b, abgr_5551, argb_5551,
}
use librga_rockchip.Format.Convert.{convert_to_rga_format}

-- The bytes of a pixel over all planes, a float in the source, counted in quarters: every value of
-- the table is a whole number of them. 0 stands for an unsupported format.
unfoldable pub bpp_quarters : ℕ → ℕ
bpp_quarters f =
    if case_in f (rgba2bpp ∷ [])
    then 1
    else if case_in f (y4 ∷ [])
    then 2
    else if case_in f (bpp1 ∷ bpp2 ∷ bpp4 ∷ bpp8 ∷ ycbcr_400 ∷ a8 ∷ y8 ∷ [])
    then 4
    else if case_in f (ycbcr_420_sp ∷ ycbcr_420_p ∷ ycrcb_420_p ∷ ycrcb_420_sp ∷ [])
    then 6
    else if case_in f (
        rgb_565 ∷ rgba_5551 ∷ rgba_4444 ∷ bgr_565 ∷ bgra_5551 ∷ bgra_4444 ∷ argb_5551 ∷ argb_4444
        ∷ abgr_5551 ∷ abgr_4444 ∷ ycbcr_422_sp ∷ ycbcr_422_p ∷ ycrcb_422_sp ∷ ycrcb_422_p ∷ yvyu_422
        ∷ vyuy_422 ∷ yuyv_422 ∷ uyvy_422 ∷ yvyu_420 ∷ vyuy_420 ∷ yuyv_420 ∷ uyvy_420 ∷ [])
    then 8
    else if case_in f (ycbcr_420_sp_10b ∷ ycrcb_420_sp_10b ∷ [])
    then 8
    else if case_in f (ycbcr_422_sp_10b ∷ ycrcb_422_sp_10b ∷ [])
    then 10
    else if case_in f (bgr_888 ∷ rgb_888 ∷ ycbcr_444_sp ∷ ycrcb_444_sp ∷ [])
    then 12
    else if case_in f (yuv_444_10b ∷ [])
    then 15
    else if case_in f (
        rgba_8888 ∷ rgbx_8888 ∷ bgra_8888 ∷ bgrx_8888 ∷ argb_8888 ∷ xrgb_8888 ∷ abgr_8888
        ∷ xbgr_8888 ∷ rgba_1010102 ∷ bgra_1010102 ∷ argb_2101010 ∷ abgr_2101010 ∷ rgbx_1010102
        ∷ bgrx_1010102 ∷ xrgb_2101010 ∷ xbgr_2101010 ∷ [])
    then 16
    else 0

unfoldable pub get_bpp_from_format : Bool → ℕ → ℕ
get_bpp_from_format linux f = bpp_quarters (convert_to_rga_format linux f)

-- The bits of a pixel in the first plane.
unfoldable pub per_pixel_bits : ℕ → ℕ
per_pixel_bits f =
    if case_in f (rgba2bpp ∷ [])
    then 2
    else if case_in f (y4 ∷ [])
    then 4
    else if case_in f (
        bpp1 ∷ bpp2 ∷ bpp4 ∷ bpp8 ∷ ycbcr_400 ∷ a8 ∷ ycbcr_420_sp ∷ ycbcr_420_p ∷ ycrcb_420_p
        ∷ ycrcb_420_sp ∷ ycbcr_422_sp ∷ ycbcr_422_p ∷ ycrcb_422_sp ∷ ycrcb_422_p ∷ ycbcr_444_sp
        ∷ ycrcb_444_sp ∷ y8 ∷ [])
    then 8
    else if case_in f
        (ycbcr_420_sp_10b ∷ ycrcb_420_sp_10b ∷ ycbcr_422_sp_10b ∷ ycrcb_422_sp_10b ∷ [])
    then 10
    else if case_in f (
        rgb_565 ∷ rgba_5551 ∷ rgba_4444 ∷ bgr_565 ∷ bgra_5551 ∷ bgra_4444 ∷ argb_5551 ∷ argb_4444
        ∷ abgr_5551 ∷ abgr_4444 ∷ yvyu_422 ∷ vyuy_422 ∷ yuyv_422 ∷ uyvy_422 ∷ yvyu_420 ∷ vyuy_420
        ∷ yuyv_420 ∷ uyvy_420 ∷ [])
    then 16
    else if case_in f (bgr_888 ∷ rgb_888 ∷ [])
    then 24
    else if case_in f (yuv_444_10b ∷ [])
    then 30
    else if case_in f (
        rgba_8888 ∷ rgbx_8888 ∷ bgra_8888 ∷ bgrx_8888 ∷ argb_8888 ∷ xrgb_8888 ∷ abgr_8888
        ∷ xbgr_8888 ∷ rgba_1010102 ∷ bgra_1010102 ∷ argb_2101010 ∷ abgr_2101010 ∷ rgbx_1010102
        ∷ bgrx_1010102 ∷ xrgb_2101010 ∷ xbgr_2101010 ∷ [])
    then 32
    else 0

unfoldable pub get_per_pixel_stride_from_format : Bool → ℕ → ℕ
get_per_pixel_stride_from_format linux f = per_pixel_bits (convert_to_rga_format linux f)

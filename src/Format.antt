-- ===== src/Format.antt =====
-- The pixel formats: enum _Rga_SURF_FORMAT of include/rga.h, and the classes of formats of
-- core/utils/utils.cpp and core/utils/utils.h. A format travels as the bit pattern of an int.
pub mod Convert
pub mod Stride
pub mod Classes
pub mod Planes
mod Tests
use librga_rockchip.Base.{ℕ, ◌*◌, Bool, true, false, ◌||◌, List, [], ◌∷◌, ◌==◌}
use librga_rockchip.Base.Bits.{test_bits}

pub data Format : Type 0 where
  rgba_8888 rgbx_8888 rgb_888 bgra_8888 rgb_565 rgba_5551 rgba_4444 bgr_888 ycbcr_422_sp ycbcr_422_p
        ycbcr_420_sp ycbcr_420_p ycrcb_422_sp ycrcb_422_p ycrcb_420_sp ycrcb_420_p bpp1 bpp2 bpp4
        bpp8 y4 ycbcr_400 bgrx_8888 yvyu_422 yvyu_420 vyuy_422 vyuy_420 yuyv_422 yuyv_420 uyvy_422
        uyvy_420 ycbcr_420_sp_10b ycrcb_420_sp_10b ycbcr_422_sp_10b ycrcb_422_sp_10b bgr_565
        bgra_5551 bgra_4444 argb_8888 xrgb_8888 argb_1555 argb_4444 abgr_8888 xbgr_8888 abgr_1555
        abgr_4444 rgba2bpp a8 ycbcr_444_sp ycrcb_444_sp y8 rgba_1010102 bgra_1010102 argb_2101010
        abgr_2101010 rgbx_1010102 bgrx_1010102 xrgb_2101010 xbgr_2101010 yuv_444_10b y210 p010 p210
        unknown :
      Format

-- 0xNN << 8
unfoldable pub code : Format → ℕ
code rgba_8888 = 0x0 * 256
code rgbx_8888 = 0x1 * 256
code rgb_888 = 0x2 * 256
code bgra_8888 = 0x3 * 256
code rgb_565 = 0x4 * 256
code rgba_5551 = 0x5 * 256
code rgba_4444 = 0x6 * 256
code bgr_888 = 0x7 * 256
code ycbcr_422_sp = 0x8 * 256
code ycbcr_422_p = 0x9 * 256
code ycbcr_420_sp = 0xa * 256
code ycbcr_420_p = 0xb * 256
code ycrcb_422_sp = 0xc * 256
code ycrcb_422_p = 0xd * 256
code ycrcb_420_sp = 0xe * 256
code ycrcb_420_p = 0xf * 256
code bpp1 = 0x10 * 256
code bpp2 = 0x11 * 256
code bpp4 = 0x12 * 256
code bpp8 = 0x13 * 256
code y4 = 0x14 * 256
code ycbcr_400 = 0x15 * 256
code bgrx_8888 = 0x16 * 256
code yvyu_422 = 0x18 * 256
code yvyu_420 = 0x19 * 256
code vyuy_422 = 0x1a * 256
code vyuy_420 = 0x1b * 256
code yuyv_422 = 0x1c * 256
code yuyv_420 = 0x1d * 256
code uyvy_422 = 0x1e * 256
code uyvy_420 = 0x1f * 256
code ycbcr_420_sp_10b = 0x20 * 256
code ycrcb_420_sp_10b = 0x21 * 256
code ycbcr_422_sp_10b = 0x22 * 256
code ycrcb_422_sp_10b = 0x23 * 256
code bgr_565 = 0x24 * 256
code bgra_5551 = 0x25 * 256
code bgra_4444 = 0x26 * 256
code argb_8888 = 0x28 * 256
code xrgb_8888 = 0x29 * 256
code argb_1555 = 0x2a * 256
code argb_4444 = 0x2b * 256
code abgr_8888 = 0x2c * 256
code xbgr_8888 = 0x2d * 256
code abgr_1555 = 0x2e * 256
code abgr_4444 = 0x2f * 256
code rgba2bpp = 0x30 * 256
code a8 = 0x31 * 256
code ycbcr_444_sp = 0x32 * 256
code ycrcb_444_sp = 0x33 * 256
code y8 = 0x34 * 256
code rgba_1010102 = 0x36 * 256
code bgra_1010102 = 0x37 * 256
code argb_2101010 = 0x38 * 256
code abgr_2101010 = 0x39 * 256
code rgbx_1010102 = 0x3a * 256
code bgrx_1010102 = 0x3b * 256
code xrgb_2101010 = 0x3c * 256
code xbgr_2101010 = 0x3d * 256
code yuv_444_10b = 0x3e * 256
code y210 = 0x3f * 256
code p010 = 0x40 * 256
code p210 = 0x41 * 256
code unknown = 0x100 * 256

-- The misspellings that the header keeps.
abbrev pub ycbcr_422_10b_sp : Format
ycbcr_422_10b_sp = ycbcr_422_sp_10b

abbrev pub ycrcb_422_10b_sp : Format
ycrcb_422_10b_sp = ycrcb_422_sp_10b

abbrev pub abgr_5551 : Format
abgr_5551 = abgr_1555

abbrev pub argb_5551 : Format
argb_5551 = argb_1555

-- `case x: case y: ...`
unfoldable pub case_in : ℕ → List Format → Bool
unfolding code
case_in f [] = false
case_in f (x ∷ xs) = f == code x || case_in f xs

-- is_rga_format: f & 0xff00 || f == 0
unfoldable pub is_rga_format : ℕ → Bool
is_rga_format f = test_bits f 8 8 || f == 0

unfoldable pub is_bpp_format : ℕ → Bool
is_bpp_format f = case_in f (bpp1 ∷ bpp2 ∷ bpp4 ∷ bpp8 ∷ [])

unfoldable pub is_yuv_format : ℕ → Bool
is_yuv_format f = case_in f (
    ycbcr_422_sp ∷ ycbcr_422_p ∷ ycbcr_420_sp ∷ ycbcr_420_p ∷ ycrcb_422_sp ∷ ycrcb_422_p
    ∷ ycrcb_420_sp ∷ ycrcb_420_p ∷ yvyu_422 ∷ yvyu_420 ∷ vyuy_422 ∷ vyuy_420 ∷ yuyv_422 ∷ yuyv_420
    ∷ uyvy_422 ∷ uyvy_420 ∷ y8 ∷ y4 ∷ ycbcr_400 ∷ ycbcr_420_sp_10b ∷ ycrcb_420_sp_10b
    ∷ ycrcb_422_10b_sp ∷ ycbcr_422_10b_sp ∷ ycbcr_444_sp ∷ ycrcb_444_sp ∷ yuv_444_10b ∷ [])

unfoldable pub is_rgb_format : ℕ → Bool
is_rgb_format f = case_in f (
    rgba_8888 ∷ rgbx_8888 ∷ rgba_5551 ∷ rgba_4444 ∷ rgb_888 ∷ rgb_565 ∷ bgra_8888 ∷ bgrx_8888
    ∷ bgra_5551 ∷ bgra_4444 ∷ bgr_888 ∷ bgr_565 ∷ argb_8888 ∷ xrgb_8888 ∷ argb_5551 ∷ argb_4444
    ∷ abgr_8888 ∷ xbgr_8888 ∷ abgr_5551 ∷ abgr_4444 ∷ rgba_1010102 ∷ bgra_1010102 ∷ argb_2101010
    ∷ abgr_2101010 ∷ rgbx_1010102 ∷ bgrx_1010102 ∷ xrgb_2101010 ∷ xbgr_2101010 ∷ [])

unfoldable pub is_alpha_format : ℕ → Bool
is_alpha_format f = case_in f (
    rgba_8888 ∷ rgba_5551 ∷ rgba_4444 ∷ bgra_8888 ∷ bgra_5551 ∷ bgra_4444 ∷ argb_8888 ∷ argb_5551
    ∷ argb_4444 ∷ abgr_8888 ∷ abgr_5551 ∷ abgr_4444 ∷ rgba2bpp ∷ rgba_1010102 ∷ bgra_1010102
    ∷ argb_2101010 ∷ abgr_2101010 ∷ rgbx_1010102 ∷ bgrx_1010102 ∷ xrgb_2101010 ∷ xbgr_2101010 ∷ [])

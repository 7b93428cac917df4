-- ===== src/Format/Convert.antt =====
-- The conversion of foreign format codes: core/utils/utils.cpp (convert_to_rga_format),
-- core/utils/drm_utils and core/utils/android_utils. The numbers of the DRM and Android formats are
-- those of the headers that the source includes.
use librga_rockchip.Base.{ℕ, ◌+◌, ◌*◌, ◌/◌, ◌^◌, Bool, ◌&&◌, List, [], ◌∷◌, ◌==◌, if◌then◌else◌}
use librga_rockchip.Base.Bits.{test_bits}
use librga_rockchip.Format.{
  Format, code, is_rga_format, abgr_2101010, abgr_4444, abgr_5551, abgr_8888, argb_2101010,
  argb_4444, argb_5551, argb_8888, bgr_565, bgr_888, bgra_1010102, bgra_4444, bgra_5551, bgra_8888,
  bgrx_1010102, bgrx_8888, p010, p210, rgb_565, rgb_888, rgba_1010102, rgba_4444, rgba_5551,
  rgba_8888, rgbx_1010102, rgbx_8888, unknown, uyvy_422, vyuy_422, xbgr_2101010, xbgr_8888,
  xrgb_2101010, xrgb_8888, y210, ycbcr_420_p, ycbcr_420_sp, ycbcr_420_sp_10b, ycbcr_422_p,
  ycbcr_422_sp, ycbcr_422_sp_10b, ycbcr_444_sp, ycrcb_420_p, ycrcb_420_sp, ycrcb_422_p,
  ycrcb_422_sp, ycrcb_444_sp, yuv_444_10b, yuyv_422, yvyu_422,
}

abbrev pub fourcc_code : ℕ → ℕ → ℕ → ℕ → ℕ
fourcc_code a b c d = a + b * 2 ^ 8 + c * 2 ^ 16 + d * 2 ^ 24

-- drm_fourcc_table
abbrev pub drm_fourcc_table : List (ℕ × Format)
drm_fourcc_table =
    (fourcc_code b'R' b'A' b'1' b'5', abgr_5551)
    ∷ (fourcc_code b'B' b'A' b'1' b'5', argb_5551)
    ∷ (fourcc_code b'A' b'R' b'1' b'5', bgra_5551)
    ∷ (fourcc_code b'A' b'B' b'1' b'5', rgba_5551)
    ∷ (fourcc_code b'R' b'A' b'1' b'2', abgr_4444)
    ∷ (fourcc_code b'B' b'A' b'1' b'2', argb_4444)
    ∷ (fourcc_code b'A' b'R' b'1' b'2', bgra_4444)
    ∷ (fourcc_code b'A' b'B' b'1' b'2', rgba_4444)
    ∷ (fourcc_code b'R' b'G' b'1' b'6', bgr_565)
    ∷ (fourcc_code b'B' b'G' b'1' b'6', rgb_565)
    ∷ (fourcc_code b'R' b'G' b'2' b'4', bgr_888)
    ∷ (fourcc_code b'B' b'G' b'2' b'4', rgb_888)
    ∷ (fourcc_code b'R' b'A' b'2' b'4', abgr_8888)
    ∷ (fourcc_code b'B' b'A' b'2' b'4', argb_8888)
    ∷ (fourcc_code b'A' b'R' b'2' b'4', bgra_8888)
    ∷ (fourcc_code b'A' b'B' b'2' b'4', rgba_8888)
    ∷ (fourcc_code b'R' b'X' b'2' b'4', xbgr_8888)
    ∷ (fourcc_code b'B' b'X' b'2' b'4', xrgb_8888)
    ∷ (fourcc_code b'X' b'R' b'2' b'4', bgrx_8888)
    ∷ (fourcc_code b'X' b'B' b'2' b'4', rgbx_8888)
    ∷ (fourcc_code b'A' b'B' b'3' b'0', rgba_1010102)
    ∷ (fourcc_code b'A' b'R' b'3' b'0', bgra_1010102)
    ∷ (fourcc_code b'X' b'B' b'3' b'0', rgbx_1010102)
    ∷ (fourcc_code b'X' b'R' b'3' b'0', bgrx_1010102)
    ∷ (fourcc_code b'R' b'A' b'3' b'0', abgr_2101010)
    ∷ (fourcc_code b'B' b'A' b'3' b'0', argb_2101010)
    ∷ (fourcc_code b'R' b'X' b'3' b'0', xbgr_2101010)
    ∷ (fourcc_code b'B' b'X' b'3' b'0', xrgb_2101010)
    ∷ (fourcc_code b'Y' b'U' b'0' b'8', ycbcr_420_sp)
    ∷ (fourcc_code b'Y' b'U' b'1' b'0', ycbcr_420_sp_10b)
    ∷ (fourcc_code b'N' b'V' b'1' b'2', ycbcr_420_sp)
    ∷ (fourcc_code b'N' b'V' b'2' b'1', ycrcb_420_sp)
    ∷ (fourcc_code b'N' b'V' b'1' b'5', ycbcr_420_sp_10b)
    ∷ (fourcc_code b'P' b'0' b'1' b'0', p010)
    ∷ (fourcc_code b'Y' b'U' b'1' b'2', ycbcr_420_p)
    ∷ (fourcc_code b'Y' b'V' b'1' b'2', ycrcb_420_p)
    ∷ (fourcc_code b'Y' b'U' b'Y' b'V', yuyv_422)
    ∷ (fourcc_code b'Y' b'V' b'Y' b'U', yvyu_422)
    ∷ (fourcc_code b'U' b'Y' b'V' b'Y', uyvy_422)
    ∷ (fourcc_code b'V' b'Y' b'U' b'Y', vyuy_422)
    ∷ (fourcc_code b'Y' b'2' b'1' b'0', y210)
    ∷ (fourcc_code b'N' b'V' b'1' b'6', ycbcr_422_sp)
    ∷ (fourcc_code b'N' b'V' b'6' b'1', ycrcb_422_sp)
    ∷ (fourcc_code b'N' b'V' b'2' b'0', ycbcr_422_sp_10b)
    ∷ (fourcc_code b'P' b'2' b'1' b'0', p210)
    ∷ (fourcc_code b'Y' b'U' b'1' b'6', ycbcr_422_p)
    ∷ (fourcc_code b'Y' b'V' b'1' b'6', ycrcb_422_p)
    ∷ (fourcc_code b'V' b'U' b'3' b'0', yuv_444_10b)
    ∷ (fourcc_code b'N' b'V' b'2' b'4', ycbcr_444_sp)
    ∷ (fourcc_code b'N' b'V' b'4' b'2', ycrcb_444_sp)
    ∷ (0, unknown)
    ∷ []

-- android_hal_table
abbrev pub android_hal_table : List (ℕ × Format)
android_hal_table =
    (5, bgra_8888)
    ∷ (1, rgba_8888)
    ∷ (2, rgbx_8888)
    ∷ (29, bgr_888)
    ∷ (3, rgb_888)
    ∷ (4, rgb_565)
    ∷ (16, ycbcr_422_sp)
    ∷ (0x15, ycbcr_420_sp)
    ∷ (35, ycbcr_420_sp)
    ∷ (17, ycrcb_420_sp)
    ∷ (0x17, ycbcr_420_sp_10b)
    ∷ (0x200, ycbcr_420_sp)
    ∷ (0x202, ycbcr_422_sp)
    ∷ (0x204, ycbcr_444_sp)
    ∷ (0x201, ycbcr_420_sp_10b)
    ∷ (0x203, ycbcr_422_sp_10b)
    ∷ []

-- The tables' `find`, whose keys are distinct.
unfoldable pub table_find : ℕ → List (ℕ × Format) → Format
table_find f [] = unknown
table_find f ((k, x) ∷ t) = if f == k then x else table_find f t

unfoldable pub get_format_from_drm_fourcc : ℕ → ℕ
unfolding table_find code
get_format_from_drm_fourcc f = code (table_find f drm_fourcc_table)

unfoldable pub get_format_from_android_hal : ℕ → ℕ
unfolding table_find code
get_format_from_android_hal f = code (table_find f android_hal_table)

-- All four bytes are there.
unfoldable pub is_drm_fourcc : ℕ → Bool
is_drm_fourcc f = test_bits f 24 8 && test_bits f 16 8 && test_bits f 8 8 && test_bits f 0 8

unfoldable pub is_android_hal_format : ℕ → Bool
is_android_hal_format f = test_bits f 0 8

-- `linux` is the build's macro LINUX.
unfoldable pub get_compatible_format : Bool → ℕ → ℕ
get_compatible_format linux f =
    if linux then (if f == 0 then f else if f / 2 ^ 8 == 0 then f * 2 ^ 8 else f) else f

-- The part after the test for a DRM format.
unfoldable pub convert_compatible : ℕ → ℕ
unfolding is_android_hal_format is_rga_format
convert_compatible f =
    if is_android_hal_format f
    then get_format_from_android_hal f
    else if is_rga_format f
    then f
    else code unknown

unfoldable pub convert_to_rga_format : Bool → ℕ → ℕ
unfolding is_drm_fourcc get_compatible_format
convert_to_rga_format linux f =
    if is_drm_fourcc f
    then get_format_from_drm_fourcc f
    else convert_compatible (get_compatible_format linux f)

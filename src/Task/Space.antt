-- ===== src/Task/Space.antt =====
-- The colour space mode of a task: the part of rga_task_submit of im2d_api/src/im2d_impl.cpp between
-- the interrupts and the dithering. The formats are already converted.
use librga_rockchip.Base.{ℕ, Bool, not, ◌||◌, ◌&&◌, ◌==◌, if◌then◌else◌, Option, none, some}
use librga_rockchip.Base.Bits.{bit_or, test_bit}
use librga_rockchip.Base.Words.{field}
use librga_rockchip.Format.{is_yuv_format, is_rgb_format}
use librga_rockchip.Hardware.{InfoEntry, feature_index, dst_full_csc}
use librga_rockchip.Check.{Buffer, rga_is_buffer_valid}
use librga_rockchip.Csc.{
  rga_get_default_csc_mode, rga_get_csc_mode, full_csc_code, rgb2yuv_709_limit,
}

abbrev pub y2r_mode : Buffer → ℕ
y2r_mode b = field b.color_space_mode 0 2

abbrev pub r2y_mode : Buffer → ℕ
r2y_mode b = field b.color_space_mode 2 2

-- BT.709 with the limited range, on hardware whose target has a full conversion.
abbrev pub prefers_full : InfoEntry → Buffer → Bool
prefers_full t dst = r2y_mode dst == 3 && test_bit t.feature (feature_index dst_full_csc)

-- The colour space of an image, or that of its format.
unfoldable pub space_of : Buffer → ℕ
unfolding rga_get_default_csc_mode
space_of b =
    if b.color_space_mode == 0 then rga_get_default_csc_mode b.format else b.color_space_mode

-- The last case: the colour spaces of the images.
unfoldable pub full_space : InfoEntry → Buffer → Buffer → Buffer → Option ℕ
unfolding space_of rga_get_csc_mode is_rgb_format rga_is_buffer_valid
full_space t src dst pat =
    if rga_is_buffer_valid pat
    then (if is_rgb_format pat.format
        then some (
            bit_or (rga_get_csc_mode t (space_of src) (space_of pat))
              (rga_get_csc_mode t (space_of pat) (space_of dst)))
        else none)
    else some (rga_get_csc_mode t (space_of src) (space_of dst))

-- dstinfo.color_space_mode; `none` is the status IM_STATUS_ILLEGAL_PARAM.
unfoldable pub task_space : InfoEntry → Buffer → Buffer → Buffer → Option ℕ
unfolding full_space is_yuv_format is_rgb_format rga_is_buffer_valid
task_space t src dst pat =
    if not (y2r_mode dst == 0) && not (r2y_mode dst == 0)
    then (if rga_is_buffer_valid pat
          && is_yuv_format src.format
          && is_rgb_format pat.format
          && is_yuv_format dst.format
        then some (
            if prefers_full t dst
            then bit_or (y2r_mode dst) (full_csc_code rgb2yuv_709_limit)
            else dst.color_space_mode)
        else none)
    else if not (y2r_mode dst == 0)
    then (if rga_is_buffer_valid pat
          && is_yuv_format src.format
          && is_rgb_format pat.format
          && is_rgb_format dst.format
        then some dst.color_space_mode
        else if is_yuv_format src.format && is_rgb_format dst.format
        then some dst.color_space_mode
        else none)
    else if not (r2y_mode dst == 0)
    then (if rga_is_buffer_valid pat
          && is_rgb_format src.format
          && is_rgb_format pat.format
          && is_yuv_format dst.format
        then some dst.color_space_mode
        else if is_rgb_format src.format && is_yuv_format dst.format
        then some
            (if prefers_full t dst then full_csc_code rgb2yuv_709_limit else dst.color_space_mode)
        else none)
    else if not (field src.color_space_mode 8 4 == 0)
        || not (field pat.color_space_mode 8 4 == 0)
        || not (field dst.color_space_mode 8 4 == 0)
    then full_space t src dst pat
    else some 0

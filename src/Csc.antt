-- ===== src/Csc.antt =====
-- Colour space modes: im2d_api/im2d_type.h, include/rga.h, and rga_get_default_csc_mode and
-- rga_get_csc_mode of im2d_api/src/im2d_impl.cpp.
use librga_rockchip.Base.{ℕ, ◌*◌, ◌^◌, ◌-◌, [], ◌∷◌, if◌then◌else◌, switch}
use librga_rockchip.Base.Bits.{test_bit}
use librga_rockchip.Format.{is_rgb_format, is_yuv_format}
use librga_rockchip.Hardware.{InfoEntry, feature_index, dst_full_csc}

-- IM_COLOR_SPACE_MODE: the modes of a conversion, in the low four bits.
abbrev pub yuv_to_rgb_bt601_limit : ℕ
yuv_to_rgb_bt601_limit = 1

abbrev pub yuv_to_rgb_bt601_full : ℕ
yuv_to_rgb_bt601_full = 2

abbrev pub yuv_to_rgb_bt709_limit : ℕ
yuv_to_rgb_bt709_limit = 3

abbrev pub rgb_to_yuv_bt601_full : ℕ
rgb_to_yuv_bt601_full = 4

abbrev pub rgb_to_yuv_bt601_limit : ℕ
rgb_to_yuv_bt601_limit = 8

abbrev pub rgb_to_yuv_bt709_limit : ℕ
rgb_to_yuv_bt709_limit = 12

-- The colour spaces of an image.
abbrev pub rgb_full : ℕ
rgb_full = 0x100

abbrev pub rgb_clip : ℕ
rgb_clip = 0x200

abbrev pub yuv_bt601_limit_range : ℕ
yuv_bt601_limit_range = 0x300

abbrev pub yuv_bt601_full_range : ℕ
yuv_bt601_full_range = 0x400

abbrev pub yuv_bt709_limit_range : ℕ
yuv_bt709_limit_range = 0x500

abbrev pub yuv_bt709_full_range : ℕ
yuv_bt709_full_range = 0x600

-- The modes of the driver, with the number n of `n << 8`.
pub data FullCscMode : Type 0 where
  rgb2yuv_601_full rgb2yuv_709_full yuv2yuv_601_limit_2_709_limit yuv2yuv_601_limit_2_709_full
        yuv2yuv_709_limit_2_601_limit yuv2yuv_709_limit_2_601_full yuv2yuv_601_full_2_709_limit
        yuv2yuv_601_full_2_709_full yuv2yuv_709_full_2_601_limit yuv2yuv_709_full_2_601_full
        rgb2yuv_709_limit yuv2rgb_709_full yuv2yuv_601_limit_2_601_full yuv2yuv_601_full_2_601_limit
        yuv2yuv_709_limit_2_709_full yuv2yuv_709_full_2_709_limit :
      FullCscMode

abbrev pub full_csc_index : FullCscMode → ℕ
full_csc_index rgb2yuv_601_full = 1
full_csc_index rgb2yuv_709_full = 2
full_csc_index yuv2yuv_601_limit_2_709_limit = 3
full_csc_index yuv2yuv_601_limit_2_709_full = 4
full_csc_index yuv2yuv_709_limit_2_601_limit = 5
full_csc_index yuv2yuv_709_limit_2_601_full = 6
full_csc_index yuv2yuv_601_full_2_709_limit = 7
full_csc_index yuv2yuv_601_full_2_709_full = 8
full_csc_index yuv2yuv_709_full_2_601_limit = 9
full_csc_index yuv2yuv_709_full_2_601_full = 0xa
full_csc_index rgb2yuv_709_limit = 0xb
full_csc_index yuv2rgb_709_full = 0xc
full_csc_index yuv2yuv_601_limit_2_601_full = 0xd
full_csc_index yuv2yuv_601_full_2_601_limit = 0xe
full_csc_index yuv2yuv_709_limit_2_709_full = 0xf
full_csc_index yuv2yuv_709_full_2_709_limit = 0x10

abbrev pub full_csc_code : FullCscMode → ℕ
full_csc_code mode = full_csc_index mode * 256

unfoldable pub rga_get_default_csc_mode : ℕ → ℕ
unfolding is_rgb_format is_yuv_format
rga_get_default_csc_mode format =
    if is_rgb_format format
    then rgb_full
    else if is_yuv_format format
    then yuv_bt601_limit_range
    else 0

-- (int)IM_STATUS_NOT_SUPPORTED, as a bit pattern.
abbrev pub not_supported_mode : ℕ
not_supported_mode = 2 ^ 32 - 1

-- The inner switch statements of rga_get_csc_mode, by the colour space of the input.
abbrev pub from_rgb : InfoEntry → ℕ → ℕ
from_rgb entry to =
    switch to
      ((yuv_bt601_limit_range, rgb_to_yuv_bt601_limit)
        ∷ (yuv_bt601_full_range, rgb_to_yuv_bt601_full)
        ∷ (
          yuv_bt709_limit_range,
          if test_bit entry.feature (feature_index dst_full_csc)
              then full_csc_code rgb2yuv_709_limit
              else rgb_to_yuv_bt709_limit,
        )
        ∷ (yuv_bt709_full_range, full_csc_code rgb2yuv_709_full)
        ∷ (rgb_full, 0)
        ∷ [])
      not_supported_mode

abbrev pub from_601_limit : ℕ → ℕ
from_601_limit to =
    switch to
      ((rgb_full, yuv_to_rgb_bt601_limit)
        ∷ (yuv_bt601_full_range, full_csc_code yuv2yuv_601_limit_2_601_full)
        ∷ (yuv_bt709_limit_range, full_csc_code yuv2yuv_601_limit_2_709_limit)
        ∷ (yuv_bt709_full_range, full_csc_code yuv2yuv_601_limit_2_709_full)
        ∷ (yuv_bt601_limit_range, 0)
        ∷ [])
      not_supported_mode

abbrev pub from_601_full : ℕ → ℕ
from_601_full to =
    switch to
      ((rgb_full, yuv_to_rgb_bt601_full)
        ∷ (yuv_bt601_limit_range, full_csc_code yuv2yuv_601_full_2_601_limit)
        ∷ (yuv_bt709_limit_range, full_csc_code yuv2yuv_601_full_2_709_limit)
        ∷ (yuv_bt709_full_range, full_csc_code yuv2yuv_601_full_2_709_full)
        ∷ (yuv_bt601_full_range, 0)
        ∷ [])
      not_supported_mode

abbrev pub from_709_limit : ℕ → ℕ
from_709_limit to =
    switch to
      ((rgb_full, yuv_to_rgb_bt709_limit)
        ∷ (yuv_bt601_limit_range, full_csc_code yuv2yuv_709_limit_2_601_limit)
        ∷ (yuv_bt601_full_range, full_csc_code yuv2yuv_709_limit_2_601_full)
        ∷ (yuv_bt709_full_range, full_csc_code yuv2yuv_709_limit_2_709_full)
        ∷ (yuv_bt709_limit_range, 0)
        ∷ [])
      not_supported_mode

abbrev pub from_709_full : ℕ → ℕ
from_709_full to =
    switch to
      ((rgb_full, full_csc_code yuv2rgb_709_full)
        ∷ (yuv_bt601_limit_range, full_csc_code yuv2yuv_709_full_2_601_limit)
        ∷ (yuv_bt601_full_range, full_csc_code yuv2yuv_709_full_2_601_full)
        ∷ (yuv_bt709_limit_range, full_csc_code yuv2yuv_709_full_2_709_limit)
        ∷ (yuv_bt709_full_range, 0)
        ∷ [])
      not_supported_mode

-- The mode as a bit pattern; the status IM_STATUS_NOT_SUPPORTED is returned as a mode too.
unfoldable pub rga_get_csc_mode : InfoEntry → ℕ → ℕ → ℕ
rga_get_csc_mode entry from to =
    switch from
      ((rgb_full, from_rgb entry to)
        ∷ (yuv_bt601_limit_range, from_601_limit to)
        ∷ (yuv_bt601_full_range, from_601_full to)
        ∷ (yuv_bt709_limit_range, from_709_limit to)
        ∷ (yuv_bt709_full_range, from_709_full to)
        ∷ [])
      not_supported_mode

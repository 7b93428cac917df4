-- ===== src/Check.antt =====
-- The images of an operation and the checks of them: im2d_api/im2d_type.h, and the check functions
-- of im2d_api/src/im2d_impl.cpp and im2d_impl.h.
pub mod Info
pub mod Formats
pub mod Need
pub mod Align
pub mod Operation
pub mod Whole
pub mod Fits
pub mod Scale
pub mod Sound
pub mod External
pub mod Operands
mod Tests
use librga_rockchip.Base.{ℕ, ◌%◌, Bool, ◌&&◌, ◌||◌, not, ltb, ◌==◌, if◌then◌else◌}
use librga_rockchip.Base.Int.{ℤ, pos, ltb_ℤ, has_rem}
use librga_rockchip.Base.Bits.{test_bit, test_bits}
use librga_rockchip.Status.{Status, success, invalid_param}

-- im_rect
pub record Rect : Type 0 where
  pub x : ℤ
  pub y : ℤ
  pub width : ℤ
  pub height : ℤ

abbrev pub rect : ℤ → ℤ → ℤ → ℤ → Rect
rect x y width height = record { x = x; y = y; width = width; height = height }

-- rga_buffer_t, the fields that the modelled code reads. A pointer is its address, and 0 is NULL;
-- `format`, `color_space_mode`, `global_alpha` and `rd_mode` are the bit patterns of ints.
pub record Buffer : Type 0 where
  pub vir_addr : ℕ
  pub phy_addr : ℕ
  pub fd : ℤ
  pub width : ℤ
  pub height : ℤ
  pub wstride : ℤ
  pub hstride : ℤ
  pub format : ℕ
  pub color_space_mode : ℕ
  pub global_alpha : ℕ
  pub rd_mode : ℕ
  pub handle : ℕ

-- IM_USAGE, the flags that the modelled code reads.
pub data Usage : Type 0 where
  im_hal_transform_rot_90 im_hal_transform_rot_180 im_hal_transform_rot_270 im_hal_transform_flip_h
        im_hal_transform_flip_v im_hal_transform_flip_h_v im_crop im_color_fill im_color_palette
        im_nn_quantize im_rop im_mosaic im_osd im_pre_intr im_alpha_bit_map im_gauss :
      Usage

abbrev pub usage_index : Usage → ℕ
usage_index im_hal_transform_rot_90 = 0
usage_index im_hal_transform_rot_180 = 1
usage_index im_hal_transform_rot_270 = 2
usage_index im_hal_transform_flip_h = 3
usage_index im_hal_transform_flip_v = 4
usage_index im_hal_transform_flip_h_v = 5
usage_index im_crop = 20
usage_index im_color_fill = 21
usage_index im_color_palette = 22
usage_index im_nn_quantize = 23
usage_index im_rop = 24
usage_index im_mosaic = 27
usage_index im_osd = 28
usage_index im_pre_intr = 29
usage_index im_alpha_bit_map = 30
usage_index im_gauss = 31

-- usage & flag
abbrev pub uses : ℕ → Usage → Bool
uses usage flag = test_bit usage (usage_index flag)

-- usage & IM_ALPHA_BLEND_MASK
abbrev pub blends : ℕ → Bool
blends usage = test_bits usage 6 11

unfoldable pub rga_is_buffer_valid : Buffer → Bool
rga_is_buffer_valid b =
    not (b.phy_addr == 0) || not (b.vir_addr == 0) || ltb_ℤ (pos 0) b.fd || ltb 0 b.handle

unfoldable pub rga_is_rect_valid : Rect → Bool
rga_is_rect_valid r =
    ltb_ℤ (pos 0) r.x || ltb_ℤ (pos 0) r.y || (ltb_ℤ (pos 0) r.width && ltb_ℤ (pos 0) r.height)

-- The size of the rectangle becomes the size of the image.
unfoldable pub rga_apply_rect : Buffer → Rect → Buffer
rga_apply_rect b r =
    if ltb_ℤ (pos 0) r.width && ltb_ℤ (pos 0) r.height
    then record b { width = r.width; height = r.height }
    else b

unfoldable pub rga_yuv_legality_check : Buffer → Rect → Status
rga_yuv_legality_check b r =
    if has_rem b.wstride 2
      || has_rem b.hstride 2
      || has_rem b.width 2
      || has_rem b.height 2
      || has_rem r.x 2
      || has_rem r.y 2
      || has_rem r.width 2
      || has_rem r.height 2
    then invalid_param
    else success

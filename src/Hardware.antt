-- ===== src/Hardware.antt =====
-- The capabilities of the accelerator's cores: im2d_api/src/im2d_hardware.h, and rga_get_info with
-- rga_support_info_merge_table of im2d_api/src/im2d_impl.cpp.
pub mod Table
pub mod Select
pub mod Info
pub mod Union
pub mod Limits
pub mod Compatible
mod Tests
use librga_rockchip.Base.{ℕ, zero, suc, Bool, ◌&&◌, List, [], ◌∷◌, map, max, if◌then◌else◌}
use librga_rockchip.Base.Int.{ℤ, pos, ltb_ℤ}
use librga_rockchip.Base.Bits.{flags, bit_or}

-- IM_RGA_HW_VERSION
pub data HwVersion : Type 0 where
  rga_v_err rga_1 rga_1_plus rga_2 rga_2_lite0 rga_2_lite1 rga_2_enhance rga_2_pro rga_2_lite2
        rga_3 :
      HwVersion

-- IM_RGA_SUPPORT_FORMAT, with the source's spelling.
pub data FormatFlag : Type 0 where
  format_error rgb argb_16bit rgba_16bit bpp yuv_420_semi_planner_8_bit yuv_420_semi_planner_10_bit
        yuv_420_planner_8_bit yuv_420_planner_10_bit yuv_422_semi_planner_8_bit
        yuv_422_semi_planner_10_bit yuv_422_planner_8_bit yuv_422_planner_10_bit yuyv_420 yuyv_422
        yuv_400 y4 rgba2bpp alpha_8_bit yuv_444_semi_planner_8_bit y8 rgba_1010102
        yuv_444_paced_10_bit :
      FormatFlag

-- IM_RGA_SUPPORT_FEATURE
pub data FeatureFlag : Type 0 where
  feature_error color_fill color_palette rop quantize src1_r2y_csc dst_full_csc fbc blend_yuv bt2020
        mosaic osd pre_intr alpha_bit_map gauss secure :
      FeatureFlag

-- The indices of the flags.
abbrev pub hw_version_index : HwVersion → ℕ
hw_version_index rga_v_err = 0
hw_version_index rga_1 = 1
hw_version_index rga_1_plus = 2
hw_version_index rga_2 = 3
hw_version_index rga_2_lite0 = 4
hw_version_index rga_2_lite1 = 5
hw_version_index rga_2_enhance = 6
hw_version_index rga_2_pro = 7
hw_version_index rga_2_lite2 = 8
hw_version_index rga_3 = 9

abbrev pub format_index : FormatFlag → ℕ
format_index format_error = 0
format_index rgb = 1
format_index argb_16bit = 2
format_index rgba_16bit = 3
format_index bpp = 4
format_index yuv_420_semi_planner_8_bit = 5
format_index yuv_420_semi_planner_10_bit = 6
format_index yuv_420_planner_8_bit = 7
format_index yuv_420_planner_10_bit = 8
format_index yuv_422_semi_planner_8_bit = 9
format_index yuv_422_semi_planner_10_bit = 10
format_index yuv_422_planner_8_bit = 11
format_index yuv_422_planner_10_bit = 12
format_index yuyv_420 = 13
format_index yuyv_422 = 14
format_index yuv_400 = 15
format_index y4 = 16
format_index rgba2bpp = 17
format_index alpha_8_bit = 18
format_index yuv_444_semi_planner_8_bit = 19
format_index y8 = 20
format_index rgba_1010102 = 21
format_index yuv_444_paced_10_bit = 22

abbrev pub feature_index : FeatureFlag → ℕ
feature_index feature_error = 0
feature_index color_fill = 1
feature_index color_palette = 2
feature_index rop = 3
feature_index quantize = 4
feature_index src1_r2y_csc = 5
feature_index dst_full_csc = 6
feature_index fbc = 7
feature_index blend_yuv = 8
feature_index bt2020 = 9
feature_index mosaic = 10
feature_index osd = 11
feature_index pre_intr = 12
feature_index alpha_bit_map = 13
feature_index gauss = 14
feature_index secure = 15

abbrev pub versions_word : List HwVersion → ℕ
versions_word xs = flags (map hw_version_index xs)

abbrev pub formats_word : List FormatFlag → ℕ
formats_word xs = flags (map format_index xs)

abbrev pub features_word : List FeatureFlag → ℕ
features_word xs = flags (map feature_index xs)

-- rga_info_resolution_t
pub record Resolution : Type 0 where
  pub width : ℤ
  pub height : ℤ

abbrev pub resolution : ℤ → ℤ → Resolution
resolution w h = record { width = w; height = h }

-- rga_info_table_entry, without its reserved bytes.
pub record InfoEntry : Type 0 where
  pub version : ℕ
  pub input_resolution : Resolution
  pub output_resolution : Resolution
  pub byte_stride : ℕ
  pub scale_limit : ℕ
  pub performance : ℕ
  pub input_format : ℕ
  pub output_format : ℕ
  pub feature : ℕ
  pub scale_ver_bicubic_limit : ℕ

-- The table only takes a resolution that is larger in both directions.
unfoldable pub merge_resolution : Resolution → Resolution → Resolution
merge_resolution d m = if ltb_ℤ d.width m.width && ltb_ℤ d.height m.height then m else d

-- rga_support_info_merge_table(d, m), for pointers that are not NULL.
unfoldable pub merge_table : InfoEntry → InfoEntry → InfoEntry
merge_table d m = record {
  version = bit_or d.version m.version;
  input_resolution = merge_resolution d.input_resolution m.input_resolution;
  output_resolution = merge_resolution d.output_resolution m.output_resolution;
  byte_stride = max d.byte_stride m.byte_stride;
  scale_limit = max d.scale_limit m.scale_limit;
  performance = max d.performance m.performance;
  input_format = bit_or d.input_format m.input_format;
  output_format = bit_or d.output_format m.output_format;
  feature = bit_or d.feature m.feature;
  scale_ver_bicubic_limit = max d.scale_ver_bicubic_limit m.scale_ver_bicubic_limit;
}

-- ===== src/Hardware/Table.antt =====
-- hw_info_table of im2d_api/src/im2d_hardware.h, one definition for each row.
use librga_rockchip.Base.{[], ◌∷◌}
use librga_rockchip.Base.Int.{pos}
use librga_rockchip.Hardware.{
  InfoEntry, resolution, versions_word, formats_word, features_word, rga_v_err, rga_1, rga_1_plus,
  rga_2, rga_2_lite0, rga_2_lite1, rga_2_enhance, rga_2_pro, rga_2_lite2, rga_3, rgb, argb_16bit,
  rgba_16bit, bpp, yuv_420_semi_planner_8_bit, yuv_420_semi_planner_10_bit, yuv_420_planner_8_bit,
  yuv_420_planner_10_bit, yuv_422_semi_planner_8_bit, yuv_422_semi_planner_10_bit,
  yuv_422_planner_8_bit, yuv_422_planner_10_bit, yuyv_420, yuyv_422, yuv_400, y4, rgba2bpp,
  alpha_8_bit, yuv_444_semi_planner_8_bit, y8, color_fill, color_palette, rop, quantize,
  src1_r2y_csc, dst_full_csc, fbc, blend_yuv, bt2020, mosaic, osd, pre_intr, alpha_bit_map,
}

abbrev pub rga_v_err_entry : InfoEntry
rga_v_err_entry = record {
  version = versions_word (rga_v_err ∷ []);
  input_resolution = resolution (pos 0) (pos 0);
  output_resolution = resolution (pos 0) (pos 0);
  byte_stride = 0;
  scale_limit = 0;
  performance = 0;
  input_format = 0;
  output_format = 0;
  feature = 0;
  scale_ver_bicubic_limit = 0;
}

abbrev pub rga_1_entry : InfoEntry
rga_1_entry = record {
  version = versions_word (rga_1 ∷ []);
  input_resolution = resolution (pos 8192) (pos 8192);
  output_resolution = resolution (pos 2048) (pos 2048);
  byte_stride = 4;
  scale_limit = 8;
  performance = 1;
  input_format = formats_word (
      rgb ∷ argb_16bit ∷ bpp ∷ yuv_420_semi_planner_8_bit ∷ yuv_420_planner_8_bit
      ∷ yuv_422_semi_planner_8_bit ∷ yuv_422_planner_8_bit ∷ []);
  output_format = formats_word (
      rgb ∷ argb_16bit ∷ rgba_16bit ∷ yuv_420_semi_planner_8_bit ∷ yuv_420_planner_8_bit
      ∷ yuv_422_semi_planner_8_bit ∷ yuv_422_planner_8_bit ∷ []);
  feature = features_word (color_fill ∷ color_palette ∷ rop ∷ []);
  scale_ver_bicubic_limit = 0;
}

abbrev pub rga_1_plus_entry : InfoEntry
rga_1_plus_entry = record {
  version = versions_word (rga_1_plus ∷ []);
  input_resolution = resolution (pos 8192) (pos 8192);
  output_resolution = resolution (pos 4096) (pos 4096);
  byte_stride = 4;
  scale_limit = 8;
  performance = 1;
  input_format = formats_word (
      rgb ∷ argb_16bit ∷ bpp ∷ yuv_420_semi_planner_8_bit ∷ yuv_420_planner_8_bit
      ∷ yuv_422_semi_planner_8_bit ∷ yuv_422_planner_8_bit ∷ []);
  output_format = formats_word (
      rgb ∷ argb_16bit ∷ rgba_16bit ∷ yuv_420_semi_planner_8_bit ∷ yuv_420_planner_8_bit
      ∷ yuv_422_semi_planner_8_bit ∷ yuv_422_planner_8_bit ∷ []);
  feature = features_word (color_fill ∷ color_palette ∷ []);
  scale_ver_bicubic_limit = 0;
}

abbrev pub rga_2_entry : InfoEntry
rga_2_entry = record {
  version = versions_word (rga_2 ∷ []);
  input_resolution = resolution (pos 8192) (pos 8192);
  output_resolution = resolution (pos 4096) (pos 4096);
  byte_stride = 4;
  scale_limit = 16;
  performance = 2;
  input_format = formats_word (
      rgb ∷ argb_16bit ∷ yuv_420_semi_planner_8_bit ∷ yuv_420_planner_8_bit
      ∷ yuv_422_semi_planner_8_bit ∷ yuv_422_planner_8_bit ∷ []);
  output_format = formats_word (
      rgb ∷ argb_16bit ∷ rgba_16bit ∷ yuv_420_semi_planner_8_bit ∷ yuv_420_planner_8_bit
      ∷ yuv_422_semi_planner_8_bit ∷ yuv_422_planner_8_bit ∷ []);
  feature = features_word (color_fill ∷ color_palette ∷ rop ∷ []);
  scale_ver_bicubic_limit = 1928;
}

abbrev pub rga_2_lite0_entry : InfoEntry
rga_2_lite0_entry = record {
  version = versions_word (rga_2_lite0 ∷ []);
  input_resolution = resolution (pos 8192) (pos 8192);
  output_resolution = resolution (pos 4096) (pos 4096);
  byte_stride = 4;
  scale_limit = 8;
  performance = 2;
  input_format = formats_word (
      rgb ∷ argb_16bit ∷ yuv_420_semi_planner_8_bit ∷ yuv_420_planner_8_bit
      ∷ yuv_422_semi_planner_8_bit ∷ yuv_422_planner_8_bit ∷ []);
  output_format = formats_word (
      rgb ∷ argb_16bit ∷ rgba_16bit ∷ yuv_420_semi_planner_8_bit ∷ yuv_420_planner_8_bit
      ∷ yuv_422_semi_planner_8_bit ∷ yuv_422_planner_8_bit ∷ []);
  feature = features_word (color_fill ∷ color_palette ∷ rop ∷ []);
  scale_ver_bicubic_limit = 1928;
}

abbrev pub rga_2_lite1_entry : InfoEntry
rga_2_lite1_entry = record {
  version = versions_word (rga_2_lite1 ∷ []);
  input_resolution = resolution (pos 8192) (pos 8192);
  output_resolution = resolution (pos 4096) (pos 4096);
  byte_stride = 4;
  scale_limit = 8;
  performance = 2;
  input_format = formats_word (
      rgb ∷ argb_16bit ∷ yuv_420_semi_planner_8_bit ∷ yuv_420_planner_8_bit
      ∷ yuv_422_semi_planner_8_bit ∷ yuv_422_planner_8_bit ∷ yuv_420_semi_planner_10_bit
      ∷ yuv_420_planner_10_bit ∷ yuv_422_semi_planner_10_bit ∷ yuv_422_planner_10_bit ∷ []);
  output_format = formats_word (
      rgb ∷ argb_16bit ∷ rgba_16bit ∷ yuv_420_semi_planner_8_bit ∷ yuv_420_planner_8_bit
      ∷ yuv_422_semi_planner_8_bit ∷ yuv_422_planner_8_bit ∷ []);
  feature = features_word (color_fill ∷ color_palette ∷ []);
  scale_ver_bicubic_limit = 1928;
}

abbrev pub rga_2_enhance_entry : InfoEntry
rga_2_enhance_entry = record {
  version = versions_word (rga_2_enhance ∷ []);
  input_resolution = resolution (pos 8192) (pos 8192);
  output_resolution = resolution (pos 4096) (pos 4096);
  byte_stride = 4;
  scale_limit = 16;
  performance = 2;
  input_format = formats_word (
      rgb ∷ argb_16bit ∷ yuv_420_semi_planner_8_bit ∷ yuv_420_planner_8_bit
      ∷ yuv_422_semi_planner_8_bit ∷ yuv_422_planner_8_bit ∷ yuv_420_semi_planner_10_bit
      ∷ yuv_420_planner_10_bit ∷ yuv_422_semi_planner_10_bit ∷ yuv_422_planner_10_bit ∷ []);
  output_format = formats_word (
      rgb ∷ argb_16bit ∷ rgba_16bit ∷ yuv_420_semi_planner_8_bit ∷ yuv_420_planner_8_bit
      ∷ yuv_422_semi_planner_8_bit ∷ yuv_422_planner_8_bit ∷ yuyv_420 ∷ yuyv_422 ∷ []);
  feature = features_word (color_fill ∷ color_palette ∷ rop ∷ []);
  scale_ver_bicubic_limit = 1928;
}

abbrev pub rga_2_pro_entry : InfoEntry
rga_2_pro_entry = record {
  version = versions_word (rga_2_pro ∷ []);
  input_resolution = resolution (pos 8192) (pos 8192);
  output_resolution = resolution (pos 8192) (pos 8192);
  byte_stride = 4;
  scale_limit = 16;
  performance = 2;
  input_format = formats_word (
      rgb ∷ argb_16bit ∷ yuv_400 ∷ yuv_420_semi_planner_8_bit ∷ yuv_420_planner_8_bit
      ∷ yuv_422_semi_planner_8_bit ∷ yuv_422_planner_8_bit ∷ yuv_444_semi_planner_8_bit
      ∷ yuv_420_semi_planner_10_bit ∷ yuv_420_planner_10_bit ∷ yuv_422_semi_planner_10_bit
      ∷ yuv_422_planner_10_bit ∷ yuyv_422 ∷ rgba2bpp ∷ alpha_8_bit ∷ []);
  output_format = formats_word (
      rgb ∷ argb_16bit ∷ rgba_16bit ∷ y4 ∷ yuv_400 ∷ yuv_420_semi_planner_8_bit
      ∷ yuv_420_planner_8_bit ∷ yuv_422_semi_planner_8_bit ∷ yuv_422_planner_8_bit
      ∷ yuv_444_semi_planner_8_bit ∷ yuyv_420 ∷ yuyv_422 ∷ y8 ∷ []);
  feature = features_word (
      color_fill ∷ color_palette ∷ rop ∷ quantize ∷ src1_r2y_csc ∷ dst_full_csc ∷ mosaic ∷ osd
      ∷ pre_intr ∷ alpha_bit_map ∷ []);
  scale_ver_bicubic_limit = 1928;
}

abbrev pub rga_2_lite2_entry : InfoEntry
rga_2_lite2_entry = record {
  version = versions_word (rga_2_lite2 ∷ []);
  input_resolution = resolution (pos 2880) (pos 8192);
  output_resolution = resolution (pos 2880) (pos 8192);
  byte_stride = 4;
  scale_limit = 16;
  performance = 2;
  input_format = formats_word (
      rgb ∷ argb_16bit ∷ yuv_400 ∷ yuv_420_semi_planner_8_bit ∷ yuv_420_planner_8_bit
      ∷ yuv_422_semi_planner_8_bit ∷ yuv_422_planner_8_bit ∷ yuv_420_semi_planner_10_bit
      ∷ yuv_420_planner_10_bit ∷ yuv_422_semi_planner_10_bit ∷ yuv_422_planner_10_bit ∷ yuyv_422
      ∷ []);
  output_format = formats_word (
      rgb ∷ argb_16bit ∷ rgba_16bit ∷ yuv_400 ∷ yuv_420_semi_planner_8_bit ∷ yuv_420_planner_8_bit
      ∷ yuv_422_semi_planner_8_bit ∷ yuv_422_planner_8_bit ∷ yuyv_422 ∷ []);
  feature = features_word (color_fill ∷ color_palette ∷ []);
  scale_ver_bicubic_limit = 0;
}

abbrev pub rga_3_entry : InfoEntry
rga_3_entry = record {
  version = versions_word (rga_3 ∷ []);
  input_resolution = resolution (pos 8176) (pos 8176);
  output_resolution = resolution (pos 8128) (pos 8128);
  byte_stride = 16;
  scale_limit = 8;
  performance = 4;
  input_format = formats_word (
      rgb ∷ yuv_420_semi_planner_8_bit ∷ yuv_422_semi_planner_8_bit ∷ yuv_420_semi_planner_10_bit
      ∷ yuv_422_semi_planner_10_bit ∷ yuyv_422 ∷ []);
  output_format = formats_word (
      rgb ∷ yuv_420_semi_planner_8_bit ∷ yuv_422_semi_planner_8_bit ∷ yuv_420_semi_planner_10_bit
      ∷ yuv_422_semi_planner_10_bit ∷ yuyv_422 ∷ []);
  feature = features_word (fbc ∷ blend_yuv ∷ bt2020 ∷ []);
  scale_ver_bicubic_limit = 8128;
}

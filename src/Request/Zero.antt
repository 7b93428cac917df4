-- ===== src/Request/Zero.antt =====
-- What memset leaves: every field is 0.
use librga_rockchip.Base.{false}
use librga_rockchip.Base.Int.{pos}
use librga_rockchip.Request.{
  ImgInfo, Clip, Mmu, ColorFill, Fading, LineDraw, CscCoe, FullCsc, CscClip, MosaicInfo,
  GaussConfig, PreIntr, OsdFactor, OsdBpp2, OsdModeCtrl, OsdInfo, Feature, Rgba5551Alpha, Req,
}

abbrev pub zero_img_info : ImgInfo
zero_img_info = record {
  yrgb_addr = 0;
  uv_addr = 0;
  v_addr = 0;
  format = 0;
  act_w = 0;
  act_h = 0;
  x_offset = 0;
  y_offset = 0;
  vir_w = 0;
  vir_h = 0;
  endian_mode = 0;
  alpha_swap = 0;
  rd_mode = 0;
}

abbrev pub zero_clip : Clip
zero_clip = record { xmin = 0; xmax = 0; ymin = 0; ymax = 0 }

abbrev pub zero_mmu : Mmu
zero_mmu = record { mmu_en = 0; base_addr = 0; mmu_flag = 0 }

abbrev pub zero_color_fill : ColorFill
zero_color_fill = record {
  gr_x_a = 0;
  gr_y_a = 0;
  gr_x_b = 0;
  gr_y_b = 0;
  gr_x_g = 0;
  gr_y_g = 0;
  gr_x_r = 0;
  gr_y_r = 0;
}

abbrev pub zero_fading : Fading
zero_fading = record { b = 0; g = 0; r = 0; res = 0 }

abbrev pub zero_line_draw : LineDraw
zero_line_draw = record {
  start_x = 0;
  start_y = 0;
  end_x = 0;
  end_y = 0;
  color = 0;
  flag = 0;
  line_width = 0;
}

abbrev pub zero_csc_coe : CscCoe
zero_csc_coe = record { r_v = pos 0; g_y = pos 0; b_u = pos 0; off = pos 0 }

abbrev pub zero_full_csc : FullCsc
zero_full_csc = record {
  flag = 0;
  coe_y = zero_csc_coe;
  coe_u = zero_csc_coe;
  coe_v = zero_csc_coe;
}

abbrev pub zero_csc_clip : CscClip
zero_csc_clip = record { y = (0, 0); uv = (0, 0) }

abbrev pub zero_mosaic_info : MosaicInfo
zero_mosaic_info = record { enable = 0; mode = 0 }

abbrev pub zero_gauss_config : GaussConfig
zero_gauss_config = record { size = 0; coe_ptr = 0 }

abbrev pub zero_pre_intr : PreIntr
zero_pre_intr = record {
  enable = 0;
  read_intr_en = 0;
  write_intr_en = 0;
  read_hold_en = 0;
  read_threshold = 0;
  write_start = 0;
  write_step = 0;
}

abbrev pub zero_osd_factor : OsdFactor
zero_osd_factor = record {
  alpha_max = 0;
  alpha_min = 0;
  yg_max = 0;
  yg_min = 0;
  crb_max = 0;
  crb_min = 0;
}

abbrev pub zero_osd_bpp2 : OsdBpp2
zero_osd_bpp2 = record { ac_swap = 0; endian_swap = 0; color0 = 0; color1 = 0 }

abbrev pub zero_osd_mode_ctrl : OsdModeCtrl
zero_osd_mode_ctrl = record {
  mode = 0;
  direction_mode = 0;
  width_mode = 0;
  block_fix_width = 0;
  block_num = 0;
  flags_index = 0;
  color_mode = 0;
  invert_flags_mode = 0;
  default_color_sel = 0;
  invert_enable = 0;
  invert_mode = 0;
  invert_thresh = 0;
  unfix_index = 0;
}

abbrev pub zero_osd_info : OsdInfo
zero_osd_info = record {
  enable = 0;
  mode_ctrl = zero_osd_mode_ctrl;
  cal_factor = zero_osd_factor;
  bpp2_info = zero_osd_bpp2;
  last_flags = 0;
  cur_flags = 0;
}

abbrev pub zero_feature : Feature
zero_feature = record {
  global_alpha_en = false;
  full_csc_clip_en = false;
  user_close_fence = false;
}

abbrev pub zero_rgba5551_alpha : Rgba5551Alpha
zero_rgba5551_alpha = record { flags = 0; alpha0 = 0; alpha1 = 0 }

abbrev pub zero_req : Req
zero_req = record {
  render_mode = 0;
  src = zero_img_info;
  dst = zero_img_info;
  pat = zero_img_info;
  rop_mask_addr = 0;
  lut_addr = 0;
  clip = zero_clip;
  sina = pos 0;
  cosa = pos 0;
  alpha_rop_flag = 0;
  scale_mode = 0;
  color_key_max = 0;
  color_key_min = 0;
  fg_color = 0;
  bg_color = 0;
  gr_color = zero_color_fill;
  line_draw_info = zero_line_draw;
  fading = zero_fading;
  pd_mode = 0;
  alpha_global_value = 0;
  rop_code = 0;
  bsfilter_flag = 0;
  palette_mode = 0;
  yuv2rgb_mode = 0;
  endian_mode = 0;
  rotate_mode = 0;
  color_fill_mode = 0;
  mmu_info = zero_mmu;
  alpha_rop_mode = 0;
  src_trans_mode = 0;
  dither_mode = 0;
  full_csc = zero_full_csc;
  in_fence_fd = pos 0;
  core = 0;
  priority = 0;
  out_fence_fd = pos 0;
  handle_flag = 0;
  mosaic_info = zero_mosaic_info;
  osd_info = zero_osd_info;
  pre_intr_info = zero_pre_intr;
  fg_global_alpha = 0;
  bg_global_alpha = 0;
  feature = zero_feature;
  full_csc_clip = zero_csc_clip;
  rgba5551_alpha = zero_rgba5551_alpha;
  gauss_config = zero_gauss_config;
}

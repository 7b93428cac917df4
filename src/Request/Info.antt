-- ===== src/Request/Info.antt =====
-- rga_info_t of include/drmrga.h.
use librga_rockchip.Base.{ℕ}
use librga_rockchip.Base.Int.{ℤ, pos}
use librga_rockchip.Task.{Address, zero_address}
use librga_rockchip.Request.{MosaicInfo, GaussConfig, PreIntr, OsdInfo}
use librga_rockchip.Request.Zero.{zero_mosaic_info, zero_gauss_config, zero_pre_intr, zero_osd_info}

-- rga_rect_t, without the size that nothing reads. `format` is a bit pattern.
pub record InfoRect : Type 0 where
  pub xoffset : ℤ
  pub yoffset : ℤ
  pub width : ℤ
  pub height : ℤ
  pub wstride : ℤ
  pub hstride : ℤ
  pub format : ℕ

abbrev pub zero_info_rect : InfoRect
zero_info_rect = record {
  xoffset = pos 0;
  yoffset = pos 0;
  width = pos 0;
  height = pos 0;
  wstride = pos 0;
  hstride = pos 0;
  format = 0;
}

-- rga_nn_t and rga_dither_t
pub record Nn : Type 0 where
  pub nn_flag : ℕ
  pub scale_r : ℕ
  pub scale_g : ℕ
  pub scale_b : ℕ
  pub offset_r : ℕ
  pub offset_g : ℕ
  pub offset_b : ℕ

abbrev pub zero_nn : Nn
zero_nn = record {
  nn_flag = 0;
  scale_r = 0;
  scale_g = 0;
  scale_b = 0;
  offset_r = 0;
  offset_g = 0;
  offset_b = 0;
}

pub record Dither : Type 0 where
  pub enable : ℕ
  pub mode : ℕ
  pub lut0_l : ℕ
  pub lut0_h : ℕ
  pub lut1_l : ℕ
  pub lut1_h : ℕ

abbrev pub zero_dither : Dither
zero_dither = record { enable = 0; mode = 0; lut0_l = 0; lut0_h = 0; lut1_l = 0; lut1_h = 0 }

-- rga_info_t, without the fields that the modelled code does not use. The ints that are flag words,
-- modes or copied values are bit patterns.
pub record Info : Type 0 where
  pub address : Address
  pub hnd : ℕ
  pub rect : InfoRect
  pub blend : ℕ
  pub rotation : ℕ
  pub color : ℕ
  pub colorkey_en : ℕ
  pub colorkey_mode : ℕ
  pub colorkey_max : ℕ
  pub colorkey_min : ℕ
  pub scale_mode : ℕ
  pub color_space_mode : ℕ
  pub sync_mode : ℕ
  pub nn : Nn
  pub dither : Dither
  pub rop_code : ℕ
  pub rd_mode : ℕ
  pub in_fence_fd : ℤ
  pub core : ℕ
  pub priority : ℕ
  pub mosaic_info : MosaicInfo
  pub osd_info : OsdInfo
  pub pre_intr : PreIntr
  pub job_handle : ℕ
  pub rgba5551_flags : ℕ
  pub rgba5551_alpha0 : ℕ
  pub rgba5551_alpha1 : ℕ
  pub gauss_config : GaussConfig

-- memset(&info, 0, sizeof(rga_info_t))
abbrev pub zero_info : Info
zero_info = record {
  address = zero_address;
  hnd = 0;
  rect = zero_info_rect;
  blend = 0;
  rotation = 0;
  color = 0;
  colorkey_en = 0;
  colorkey_mode = 0;
  colorkey_max = 0;
  colorkey_min = 0;
  scale_mode = 0;
  color_space_mode = 0;
  sync_mode = 0;
  nn = zero_nn;
  dither = zero_dither;
  rop_code = 0;
  rd_mode = 0;
  in_fence_fd = pos 0;
  core = 0;
  priority = 0;
  mosaic_info = zero_mosaic_info;
  osd_info = zero_osd_info;
  pre_intr = zero_pre_intr;
  job_handle = 0;
  rgba5551_flags = 0;
  rgba5551_alpha0 = 0;
  rgba5551_alpha1 = 0;
  gauss_config = zero_gauss_config;
}

-- ===== src/Task/Options.antt =====
-- The options of a task: im_opt_t of im2d_api/im2d_type.h, and rga_get_opt of
-- im2d_api/src/im2d_impl.cpp.
use librga_rockchip.Base.{ℕ, if◌then◌else◌, Option, none, some, []}
use librga_rockchip.Base.Int.{ℤ, pos, ltb_ℤ}
use librga_rockchip.Status.{Status, success, failed}
use librga_rockchip.Version.{version, rga_version_compare, get_api_version}
use librga_rockchip.Request.{OsdFactor, OsdBpp2}
use librga_rockchip.Request.Zero.{zero_osd_factor, zero_osd_bpp2}

-- im_nn_t
pub record ImNn : Type 0 where
  pub scale_r : ℕ
  pub scale_g : ℕ
  pub scale_b : ℕ
  pub offset_r : ℕ
  pub offset_g : ℕ
  pub offset_b : ℕ

-- im_osd_block_t; `width` and `width_index` share their place. A color is its 32-bit value.
pub record OsdBlock : Type 0 where
  pub width_mode : ℕ
  pub width : ℕ
  pub block_count : ℕ
  pub background_config : ℕ
  pub direction : ℕ
  pub color_mode : ℕ
  pub normal_color : ℕ
  pub invert_color : ℕ

-- im_osd_invert_t, with its factor.
pub record OsdInvert : Type 0 where
  pub invert_channel : ℕ
  pub flags_mode : ℕ
  pub flags_index : ℕ
  pub invert_flags : ℕ
  pub current_flags : ℕ
  pub invert_mode : ℕ
  pub factor : OsdFactor
  pub threash : ℕ

-- im_osd_t
pub record ImOsd : Type 0 where
  pub osd_mode : ℕ
  pub block_parm : OsdBlock
  pub invert_config : OsdInvert
  pub bpp2_info : OsdBpp2

-- im_intr_config_t
pub record IntrConfig : Type 0 where
  pub flags : ℕ
  pub read_threshold : ℕ
  pub write_start : ℕ
  pub write_step : ℕ

-- im_opt_t; of the Gauss configuration only the size of the kernel, since its numbers are floats.
-- The ints are bit patterns, except for the size.
pub record Opt : Type 0 where
  pub version : ℕ
  pub color : ℕ
  pub colorkey_max : ℕ
  pub colorkey_min : ℕ
  pub nn : ImNn
  pub rop_code : ℕ
  pub priority : ℕ
  pub core : ℕ
  pub mosaic_mode : ℕ
  pub osd_config : ImOsd
  pub intr_config : IntrConfig
  pub interp : ℕ
  pub ksize_width : ℤ
  pub ksize_height : ℤ

-- memset(&opt, 0, sizeof(opt))
abbrev pub zero_opt : Opt
zero_opt = record {
  version = 0;
  color = 0;
  colorkey_max = 0;
  colorkey_min = 0;
  nn = record { scale_r = 0; scale_g = 0; scale_b = 0; offset_r = 0; offset_g = 0; offset_b = 0 };
  rop_code = 0;
  priority = 0;
  core = 0;
  mosaic_mode = 0;
  osd_config = record {
    osd_mode = 0;
    block_parm = record {
      width_mode = 0;
      width = 0;
      block_count = 0;
      background_config = 0;
      direction = 0;
      color_mode = 0;
      normal_color = 0;
      invert_color = 0;
    };
    invert_config = record {
      invert_channel = 0;
      flags_mode = 0;
      flags_index = 0;
      invert_flags = 0;
      current_flags = 0;
      invert_mode = 0;
      factor = zero_osd_factor;
      threash = 0;
    };
    bpp2_info = zero_osd_bpp2;
  };
  intr_config = record { flags = 0; read_threshold = 0; write_start = 0; write_step = 0 };
  interp = 0;
  ksize_width = pos 0;
  ksize_height = pos 0;
}

-- What an older header knows of the options.
abbrev pub old_part : Opt → Opt → Opt
old_part opt p = record opt {
  color = p.color;
  colorkey_max = p.colorkey_max;
  colorkey_min = p.colorkey_min;
  nn = p.nn;
  rop_code = p.rop_code;
  priority = p.priority;
  core = p.core;
}

-- rga_get_opt(opt, ptr), for an `opt` that is not NULL.
unfoldable pub rga_get_opt : Opt → Option Opt → Opt × Status
unfolding rga_version_compare get_api_version
rga_get_opt opt none = (opt, failed)
rga_get_opt opt (some p) =
    let v = get_api_version p.version in
    if ltb_ℤ (pos 0) (rga_version_compare v (version 2 0 0 []))
    then (opt, failed)
    else if ltb_ℤ (pos 0) (rga_version_compare v (version 1 7 2 []))
    then (p, success)
    else (old_part opt p, success)

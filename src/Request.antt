-- ===== src/Request.antt =====
-- The request of the driver, struct rga_req of core/hardware/rga_ioctl.h, and the description of an
-- image and its modes, rga_info_t of include/drmrga.h.
pub mod Zero
pub mod Info
pub mod Setters
pub mod SetModes
pub mod Trig
pub mod Rects
pub mod Coefficients
pub mod Image
pub mod Fill
pub mod Plan
pub mod Channels
pub mod Blit
pub mod Palette
pub mod Compat
pub mod Turns
pub mod Bounds
pub mod Angles
pub mod Colours
pub mod Spaces
pub mod Faults
pub mod Interp
pub mod Fractions
mod Tests
use librga_rockchip.Base.{ℕ, Bool, false}
use librga_rockchip.Base.Int.{ℤ, pos, negsuc}

-- The fields of unsigned types are numbers, and so are the bit patterns of the signed fields that
-- are only copied.

-- rga_img_info_t, without the fields that this library never sets.
pub record ImgInfo : Type 0 where
  pub yrgb_addr : ℕ
  pub uv_addr : ℕ
  pub v_addr : ℕ
  pub format : ℕ
  pub act_w : ℕ
  pub act_h : ℕ
  pub x_offset : ℕ
  pub y_offset : ℕ
  pub vir_w : ℕ
  pub vir_h : ℕ
  pub endian_mode : ℕ
  pub alpha_swap : ℕ
  pub rd_mode : ℕ

-- RECT
pub record Clip : Type 0 where
  pub xmin : ℕ
  pub xmax : ℕ
  pub ymin : ℕ
  pub ymax : ℕ

-- MMU
pub record Mmu : Type 0 where
  pub mmu_en : ℕ
  pub base_addr : ℕ
  pub mmu_flag : ℕ

-- COLOR_FILL
pub record ColorFill : Type 0 where
  pub gr_x_a : ℕ
  pub gr_y_a : ℕ
  pub gr_x_b : ℕ
  pub gr_y_b : ℕ
  pub gr_x_g : ℕ
  pub gr_y_g : ℕ
  pub gr_x_r : ℕ
  pub gr_y_r : ℕ

-- FADING
pub record Fading : Type 0 where
  pub b : ℕ
  pub g : ℕ
  pub r : ℕ
  pub res : ℕ

-- line_draw_t
pub record LineDraw : Type 0 where
  pub start_x : ℕ
  pub start_y : ℕ
  pub end_x : ℕ
  pub end_y : ℕ
  pub color : ℕ
  pub flag : ℕ
  pub line_width : ℕ

-- csc_coe_t
pub record CscCoe : Type 0 where
  pub r_v : ℤ
  pub g_y : ℤ
  pub b_u : ℤ
  pub off : ℤ

-- full_csc_t, and struct rga_csc_clip as the pairs (max, min) of y and uv.
pub record FullCsc : Type 0 where
  pub flag : ℕ
  pub coe_y : CscCoe
  pub coe_u : CscCoe
  pub coe_v : CscCoe

pub record CscClip : Type 0 where
  pub y : ℕ × ℕ
  pub uv : ℕ × ℕ

-- struct rga_mosaic_info, rga_gauss_config and rga_pre_intr_info
pub record MosaicInfo : Type 0 where
  pub enable : ℕ
  pub mode : ℕ

pub record GaussConfig : Type 0 where
  pub size : ℕ
  pub coe_ptr : ℕ

pub record PreIntr : Type 0 where
  pub enable : ℕ
  pub read_intr_en : ℕ
  pub write_intr_en : ℕ
  pub read_hold_en : ℕ
  pub read_threshold : ℕ
  pub write_start : ℕ
  pub write_step : ℕ

-- struct rga_osd_invert_factor, rga_osd_bpp2, rga_osd_mode_ctrl and rga_osd_info
pub record OsdFactor : Type 0 where
  pub alpha_max : ℕ
  pub alpha_min : ℕ
  pub yg_max : ℕ
  pub yg_min : ℕ
  pub crb_max : ℕ
  pub crb_min : ℕ

pub record OsdBpp2 : Type 0 where
  pub ac_swap : ℕ
  pub endian_swap : ℕ
  pub color0 : ℕ
  pub color1 : ℕ

pub record OsdModeCtrl : Type 0 where
  pub mode : ℕ
  pub direction_mode : ℕ
  pub width_mode : ℕ
  pub block_fix_width : ℕ
  pub block_num : ℕ
  pub flags_index : ℕ
  pub color_mode : ℕ
  pub invert_flags_mode : ℕ
  pub default_color_sel : ℕ
  pub invert_enable : ℕ
  pub invert_mode : ℕ
  pub invert_thresh : ℕ
  pub unfix_index : ℕ

pub record OsdInfo : Type 0 where
  pub enable : ℕ
  pub mode_ctrl : OsdModeCtrl
  pub cal_factor : OsdFactor
  pub bpp2_info : OsdBpp2
  pub last_flags : ℕ
  pub cur_flags : ℕ

-- struct rga_feature and struct rga_rgba5551_alpha
pub record Feature : Type 0 where
  pub global_alpha_en : Bool
  pub full_csc_clip_en : Bool
  pub user_close_fence : Bool

pub record Rgba5551Alpha : Type 0 where
  pub flags : ℕ
  pub alpha0 : ℕ
  pub alpha1 : ℕ

-- struct rga_req, without its reserved bytes. `scale_mode` and `interp` share a byte.
pub record Req : Type 0 where
  pub render_mode : ℕ
  pub src : ImgInfo
  pub dst : ImgInfo
  pub pat : ImgInfo
  pub rop_mask_addr : ℕ
  pub lut_addr : ℕ
  pub clip : Clip
  pub sina : ℤ
  pub cosa : ℤ
  pub alpha_rop_flag : ℕ
  pub scale_mode : ℕ
  pub color_key_max : ℕ
  pub color_key_min : ℕ
  pub fg_color : ℕ
  pub bg_color : ℕ
  pub gr_color : ColorFill
  pub line_draw_info : LineDraw
  pub fading : Fading
  pub pd_mode : ℕ
  pub alpha_global_value : ℕ
  pub rop_code : ℕ
  pub bsfilter_flag : ℕ
  pub palette_mode : ℕ
  pub yuv2rgb_mode : ℕ
  pub endian_mode : ℕ
  pub rotate_mode : ℕ
  pub color_fill_mode : ℕ
  pub mmu_info : Mmu
  pub alpha_rop_mode : ℕ
  pub src_trans_mode : ℕ
  pub dither_mode : ℕ
  pub full_csc : FullCsc
  pub in_fence_fd : ℤ
  pub core : ℕ
  pub priority : ℕ
  pub out_fence_fd : ℤ
  pub handle_flag : ℕ
  pub mosaic_info : MosaicInfo
  pub osd_info : OsdInfo
  pub pre_intr_info : PreIntr
  pub fg_global_alpha : ℕ
  pub bg_global_alpha : ℕ
  pub feature : Feature
  pub full_csc_clip : CscClip
  pub rgba5551_alpha : Rgba5551Alpha
  pub gauss_config : GaussConfig

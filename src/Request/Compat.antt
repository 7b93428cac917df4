-- ===== src/Request/Compat.antt =====
-- The request for the drivers before the multi-core one: struct rga2_req of
-- core/hardware/rga2_driver.h and NormalRgaCompatModeConvertRga2 of core/NormalRgaApi.cpp, in a 64-bit
-- ARM build.
use librga_rockchip.Base.{ℕ, ◌+◌, ◌-◌, ◌^◌, ◌&&◌, if◌then◌else◌}
use librga_rockchip.Base.Int.{ℤ, pos, negsuc, eqb_ℤ}
use librga_rockchip.Base.Words.{uint16, uint64}
use librga_rockchip.Request.{ImgInfo, Clip, Mmu, ColorFill, Fading, LineDraw, FullCsc, Req}

-- rga2_img_info_t
pub record Rga2ImgInfo : Type 0 where
  pub yrgb_addr : ℕ
  pub uv_addr : ℕ
  pub v_addr : ℕ
  pub format : ℕ
  pub act_w : ℕ
  pub act_h : ℕ
  pub x_offset : ℕ
  pub y_offset : ℕ
  pub vir_w : ℕ
  pub vir_h : ℕ
  pub endian_mode : ℕ
  pub alpha_swap : ℕ

-- struct rga2_req. Its parts other than the images have the fields and the types of the parts of
-- struct rga_req, so they are the same records.
pub record Rga2Req : Type 0 where
  pub render_mode : ℕ
  pub src : Rga2ImgInfo
  pub dst : Rga2ImgInfo
  pub pat : Rga2ImgInfo
  pub rop_mask_addr : ℕ
  pub lut_addr : ℕ
  pub clip : Clip
  pub sina : ℤ
  pub cosa : ℤ
  pub alpha_rop_flag : ℕ
  pub scale_mode : ℕ
  pub color_key_max : ℕ
  pub color_key_min : ℕ
  pub fg_color : ℕ
  pub bg_color : ℕ
  pub gr_color : ColorFill
  pub line_draw_info : LineDraw
  pub fading : Fading
  pub pd_mode : ℕ
  pub alpha_global_value : ℕ
  pub rop_code : ℕ
  pub bsfilter_flag : ℕ
  pub palette_mode : ℕ
  pub yuv2rgb_mode : ℕ
  pub endian_mode : ℕ
  pub rotate_mode : ℕ
  pub color_fill_mode : ℕ
  pub mmu_info : Mmu
  pub alpha_rop_mode : ℕ
  pub src_trans_mode : ℕ
  pub dither_mode : ℕ
  pub full_csc : FullCsc

unfoldable pub convert_image : ImgInfo → Rga2ImgInfo
convert_image i = record {
  yrgb_addr = i.yrgb_addr;
  uv_addr = i.uv_addr;
  v_addr = i.v_addr;
  format = i.format;
  act_w = i.act_w;
  act_h = i.act_h;
  x_offset = i.x_offset;
  y_offset = i.y_offset;
  vir_w = i.vir_w;
  vir_h = i.vir_h;
  endian_mode = i.endian_mode;
  alpha_swap = i.alpha_swap;
}

-- The fields that are copied.
unfoldable pub copy_req : Req → Rga2Req
unfolding convert_image
copy_req r = record {
  render_mode = r.render_mode;
  src = convert_image r.src;
  dst = convert_image r.dst;
  pat = convert_image r.pat;
  rop_mask_addr = uint64 r.rop_mask_addr;
  lut_addr = uint64 r.lut_addr;
  clip = r.clip;
  sina = r.sina;
  cosa = r.cosa;
  alpha_rop_flag = r.alpha_rop_flag;
  scale_mode = r.scale_mode;
  color_key_max = r.color_key_max;
  color_key_min = r.color_key_min;
  fg_color = r.fg_color;
  bg_color = r.bg_color;
  gr_color = r.gr_color;
  line_draw_info = r.line_draw_info;
  fading = r.fading;
  pd_mode = r.pd_mode;
  alpha_global_value = r.alpha_global_value;
  rop_code = r.rop_code;
  bsfilter_flag = r.bsfilter_flag;
  palette_mode = r.palette_mode;
  yuv2rgb_mode = r.yuv2rgb_mode;
  endian_mode = r.endian_mode;
  rotate_mode = r.rotate_mode;
  color_fill_mode = r.color_fill_mode;
  mmu_info = r.mmu_info;
  alpha_rop_mode = r.alpha_rop_mode;
  src_trans_mode = r.src_trans_mode;
  dither_mode = r.dither_mode;
  full_csc = r.full_csc;
}

-- x + n - 1 in an unsigned short.
abbrev pub last_of : ℕ → ℕ → ℕ
last_of x n = uint16 (x + n + (2 ^ 16 - 1))

-- The target's offsets are those of the pixel where a rotation starts.
unfoldable pub rotate_offsets : ℤ → ℤ → Rga2ImgInfo → Rga2ImgInfo
rotate_offsets sina cosa dst =
    if eqb_ℤ sina (pos 65536) && eqb_ℤ cosa (pos 0)
    then record dst { x_offset = last_of dst.x_offset dst.act_h }
    else if eqb_ℤ sina (pos 0) && eqb_ℤ cosa (negsuc 65535)
    then record dst {
      x_offset = last_of dst.x_offset dst.act_w;
      y_offset = last_of dst.y_offset dst.act_h;
    }
    else if eqb_ℤ sina (negsuc 65535) && eqb_ℤ cosa (pos 0)
    then record dst { y_offset = last_of dst.y_offset dst.act_w }
    else dst

unfoldable pub normal_rga_compat_mode_convert_rga2 : Req → Rga2Req
unfolding copy_req rotate_offsets
normal_rga_compat_mode_convert_rga2 r =
    let copied = copy_req r in
    record copied { dst = rotate_offsets copied.sina copied.cosa copied.dst }

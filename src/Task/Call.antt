-- ===== src/Task/Call.antt =====
-- The arguments of rga_task_submit of im2d_api/src/im2d_impl.cpp and the descriptions of the images,
-- srcinfo, dstinfo and patinfo, that it makes of them.
use librga_rockchip.Base.{
  ℕ, ◌*◌, ◌^◌, Bool, not, ◌||◌, ◌&&◌, ◌==◌, if◌then◌else◌, Option, none, some,
}
use librga_rockchip.Base.Int.{ℤ, pos, eqb_ℤ}
use librga_rockchip.Base.Bits.{bit_or, test_bit}
use librga_rockchip.Base.Words.{field}
use librga_rockchip.Status.{Status, not_supported, invalid_param}
use librga_rockchip.Check.{Buffer, Rect, uses, im_color_fill, im_gauss, rga_is_buffer_valid}
use librga_rockchip.Check.Whole.{normal}
use librga_rockchip.Job.State.{rga_blit_sync, rga_blit_async}
use librga_rockchip.Request.{GaussConfig}
use librga_rockchip.Request.Info.{Info, InfoRect, zero_info}
use librga_rockchip.Task.{zero_address, rga_set_buffer_info, set_addresses, has_layer}
use librga_rockchip.Task.Options.{Opt, zero_opt, rga_get_opt}
use librga_rockchip.Task.Modes.{source_modes, set_nn, set_dither}

-- The arguments of a call. The pointer `release_fence_fd` is not NULL if `wants_fence`.
pub record TaskCall : Type 0 where
  pub job_handle : ℕ
  pub src : Buffer
  pub dst : Buffer
  pub pat : Buffer
  pub src_rect : Rect
  pub dst_rect : Rect
  pub pat_rect : Rect
  pub acquire_fence_fd : ℤ
  pub wants_fence : Bool
  pub opt : Option Opt
  pub usage : ℕ

-- g_im2d_context
pub record Context : Type 0 where
  pub core : ℕ
  pub priority : ℕ

-- rga_set_rect, for an image with its rectangle.
unfoldable pub rga_set_rect : Buffer → Rect → InfoRect
rga_set_rect b r = record {
  xoffset = r.x;
  yoffset = r.y;
  width = b.width;
  height = b.height;
  wstride = b.wstride;
  hstride = b.hstride;
  format = b.format;
}

-- rga_generate_gauss_coe, with the address of the coefficients. Their values are floats.
unfoldable rga_generate_gauss_coe : Opt → ℕ → Option GaussConfig
rga_generate_gauss_coe opt coe_ptr =
    if eqb_ℤ opt.ksize_width (pos 3) && eqb_ℤ opt.ksize_height (pos 3)
    then some (record { size = 3; coe_ptr = coe_ptr })
    else none

-- The configuration of a Gaussian blur, or the status that refuses it.
pub data Gauss : Type 0 where
  no_gauss : Gauss
  gauss : GaussConfig → Gauss
  gauss_refused : Status → Gauss

unfoldable pub gauss_of : Buffer → Buffer → Opt → ℕ → ℕ → Gauss
unfolding rga_generate_gauss_coe
gauss_of src dst opt coe_ptr usage =
    if not (uses usage im_gauss)
    then no_gauss
    else if not (field usage 0 6 == 0)
    then gauss_refused not_supported
    else if not (eqb_ℤ src.width dst.width) || not (eqb_ℤ src.height dst.height)
    then gauss_refused invalid_param
    else elim (rga_generate_gauss_coe opt coe_ptr) [
      | none ↦ gauss_refused not_supported
      | some config ↦ gauss config
    ]

abbrev set_gauss : Info → Buffer → Gauss → Info
set_gauss info src (gauss config) = record info {
  gauss_config = config;
  blend = bit_or info.blend (field src.global_alpha 0 8 * 2 ^ 16);
}
set_gauss info src no_gauss = info
set_gauss info src (gauss_refused status) = info

-- The settings of the target that follow the blur.
unfoldable pub target_modes : Info → Buffer → TaskCall → Context → Opt → Info
target_modes info dst c context opt = record info {
  rd_mode = dst.rd_mode;
  sync_mode = if test_bit c.usage 26 then rga_blit_async else rga_blit_sync;
  in_fence_fd = c.acquire_fence_fd;
  core = if opt.core == 0 then context.core else opt.core;
  priority = if opt.priority == 0 then context.priority else opt.priority;
  job_handle = c.job_handle;
  color = if uses c.usage im_color_fill then opt.color else info.color;
}

abbrev pub options_of : TaskCall → Opt
options_of c = (rga_get_opt zero_opt c.opt).0

module _ (linux : Bool) (exceeds : ℤ → ℤ → ℕ → Bool) where
  -- The third layer, with its rectangle and its format if the task has one.
  abbrev pub layer_image : TaskCall → Buffer
  layer_image c =
      if has_layer linux exceeds c.pat c.usage then normal linux exceeds c.pat c.pat_rect else c.pat

  abbrev pub layer_info : TaskCall → Info
  layer_info c =
      let pat = layer_image c in
      let info =
        if has_layer linux exceeds c.pat c.usage
        then record zero_info {
          address = (rga_set_buffer_info c.pat zero_address).0;
          rect = rga_set_rect pat c.pat_rect;
        }
        else zero_info in
      if rga_is_buffer_valid pat then record info { rd_mode = pat.rd_mode } else info

  abbrev pub source_of : TaskCall → Buffer
  source_of c = normal linux exceeds c.src c.src_rect

  abbrev pub target_of : TaskCall → Buffer
  target_of c = normal linux exceeds c.dst c.dst_rect

  -- srcinfo and dstinfo with their addresses and rectangles.
  unfoldable pub source_start : TaskCall → Info
  unfolding set_addresses rga_set_buffer_info rga_set_rect
  source_start c = record zero_info {
    address = (set_addresses c.src c.dst c.usage).0;
    rect = rga_set_rect (source_of c) c.src_rect;
  }

  unfoldable pub target_start : TaskCall → Info
  unfolding set_addresses rga_set_buffer_info rga_set_rect
  target_start c = record zero_info {
    address = (set_addresses c.src c.dst c.usage).1;
    rect = rga_set_rect (target_of c) c.dst_rect;
  }

  -- srcinfo, and dstinfo with its colour space mode.
  unfoldable pub source_info : TaskCall → Gauss → Info
  unfolding rga_get_opt source_start source_modes
  source_info c blur =
      let src = source_of c in
      let moded =
        source_modes (source_start c) src (target_of c) (layer_image c) (options_of c) c.usage in
      record (set_gauss moded src blur) { rd_mode = src.rd_mode }

  unfoldable pub target_info : TaskCall → Context → ℕ → Info
  unfolding rga_get_opt target_start set_nn set_dither target_modes
  target_info c context space =
      let dst = target_of c in
      let quantized = set_nn (target_start c) (options_of c) c.usage in
      target_modes (set_dither (record quantized { color_space_mode = space }) dst) dst c context
        (options_of c)

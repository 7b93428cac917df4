-- ===== src/Request/Blit.antt =====
-- generate_blit_req of im2d_api/src/im2d_impl.cpp.
use librga_rockchip.Base.{
  ℕ, ◌^◌, Bool, true, false, not, ◌||◌, ◌==◌, if◌then◌else◌, Option, none, some,
}
use librga_rockchip.Base.Int.{ℤ, pos, ltb_ℤ, signed}
use librga_rockchip.Base.Bits.{bit_or, test_bit}
use librga_rockchip.Base.Words.{uint8, uint16, field}
use librga_rockchip.Format.{code, y4, y8}
use librga_rockchip.Session.{Session}
use librga_rockchip.Request.{Req}
use librga_rockchip.Request.Zero.{zero_req}
use librga_rockchip.Request.Info.{Info, InfoRect}
use librga_rockchip.Request.Rects.{rk_rga_get_rga_format, check_rect_for_rga}
use librga_rockchip.Request.Setters.{normal_rga_set_src_trans_mode_info}
use librga_rockchip.Request.SetModes.{
  normal_rga_set_bitblt_mode, normal_rga_nn_quantize_mode, normal_rga_dither_mode,
}
use librga_rockchip.Request.Image.{Generated, filled, rejected, Channel, get_addr, driver_of}
use librga_rockchip.Request.Fill.{rd_mode_of}
use librga_rockchip.Request.Plan.{
  set_blend, scales, scale_rejected, is_stretched, select_interp, interp_rejected, orient, add_flip,
  dither_en, default_csc, set_csc,
}
use librga_rockchip.Request.Channels.{
  all_handles, channel_of, layer_format, mixed_handles, ready, ready_layer, return_if, set_areas,
  set_images, set_mmu, with_addr,
}

-- ROP and the color key.
unfoldable set_rop : Req → Info → Req
set_rop req src =
    if ltb_ℤ (pos 0) (signed src.rop_code)
    then record req { rop_code = uint16 src.rop_code; alpha_rop_flag = 3; alpha_rop_mode = 1 }
    else req

unfoldable set_color_key : Req → Info → Req
unfolding normal_rga_set_src_trans_mode_info
set_color_key req src =
    let real = record req { alpha_rop_flag = bit_or req.alpha_rop_flag (2 ^ 9) } in
    if src.colorkey_en == 1
    then (if src.colorkey_mode == 0 || src.colorkey_mode == 1
        then normal_rga_set_src_trans_mode_info real src.colorkey_mode 1 1 1 1 src.colorkey_min
            src.colorkey_max 1
        else real)
    else req

-- Mosaic, Gauss, OSD, the interrupts and the alpha bits. `blend` is the blend word that is left.
unfoldable set_extras : Req → Info → ℕ → Req
set_extras req src blend =
    let copied = record req {
      mosaic_info = src.mosaic_info;
      gauss_config = src.gauss_config;
      osd_info = src.osd_info;
      pre_intr_info = src.pre_intr;
    } in
    let blurred = if src.gauss_config.size == 0 then copied else record copied {
      feature = record copied.feature { global_alpha_en = true };
      fg_global_alpha = field blend 16 8;
    } in
    if src.rgba5551_flags == 1
    then record blurred {
      rgba5551_alpha = record {
        flags = src.rgba5551_flags;
        alpha0 = src.rgba5551_alpha0;
        alpha1 = src.rgba5551_alpha1;
      };
    }
    else blurred

-- The read modes, the fence and the scheduling.
unfoldable pub set_target : Req → Info → Option Info → Info → Req
set_target req src src1 dst =
    let moded = record req {
      src = record req.src { rd_mode = rd_mode_of src.rd_mode };
      dst = record req.dst { rd_mode = rd_mode_of dst.rd_mode };
      in_fence_fd = dst.in_fence_fd;
      core = uint8 dst.core;
      priority = uint8 dst.priority;
    } in
    elim src1 [
      | none ↦ moded
      | some i ↦ record moded { pat = record moded.pat { rd_mode = rd_mode_of i.rd_mode } }
    ]

module _ (linux : Bool) (to_fixed : ℤ → ℤ) {F : Type 0} (quotient : ℤ → ℤ → F)
    (below above equal : F → ℕ → Bool) where
  -- What the request is when the image, the scale and the mode are accepted.
  unfoldable pub blit_req :
      Session
      → Info
      → Info
      → Option Info
      → Channel
      → Channel
      → Option Channel
      → F × F
      → ℕ × ℕ
      → Generated
  unfolding orient add_flip set_blend set_images set_areas set_mmu set_rop set_color_key set_extras
      set_target dither_en default_csc set_csc normal_rga_set_bitblt_mode
      normal_rga_nn_quantize_mode normal_rga_dither_mode rk_rga_get_rga_format code
  blit_req session src dst src1 src_c dst_c layer scale interp =
      let driver = driver_of session in
      let src_format = rk_rga_get_rga_format linux src_c.rect.format in
      let dst_format = rk_rga_get_rga_format linux dst_c.rect.format in
      let start = record zero_req {
        feature = record zero_req.feature { user_close_fence = test_bit session.driver_feature 0 };
        handle_flag = if all_handles src dst src1 then 1 else 0;
      } in
      let (blended, blend) = set_blend start src.blend in
      let (angle, mode, turned) =
        orient src.rotation (is_stretched quotient below above equal scale) in
      let placed = set_images linux driver blended src_c layer dst_c in
      let active = set_areas turned placed src_c.rect layer dst_c.rect in
      let csc = default_csc src_format (layer_format linux layer) dst_format in
      elim (set_csc to_fixed active dst.color_space_mode csc) [
        | none ↦ rejected
        | some (converted, yuv2rgb) ↦
            let moded =
              normal_rga_set_bitblt_mode converted interp (add_flip src.rotation mode) angle
                (dither_en src_format dst_format) 0 yuv2rgb in
            let dithered =
              normal_rga_dither_mode (normal_rga_nn_quantize_mode moded dst.nn) dst.dither
                (dst_c.rect.format == code y4 || dst_c.rect.format == code y8) in
            let mapped = set_mmu driver dithered src_c layer dst_c in
            filled (
              set_target (set_extras (set_color_key (set_rop mapped src) src) src blend) src src1
                dst)
      ]

  -- The tests between the addresses and the request.
  unfoldable pub check_blit :
      Session → Info → Info → Option Info → Channel → Channel → Option Channel → Generated
  unfolding blit_req check_rect_for_rga scales scale_rejected select_interp interp_rejected
  check_blit session src dst src1 src_c dst_c layer =
      let layer_bad : Bool = elim layer [
        | none ↦ false
        | some c ↦ not (check_rect_for_rga linux c.rect)
      ] in
      let other : InfoRect = elim layer [ none ↦ dst_c.rect | some c ↦ c.rect ] in
      let scale = scales quotient below above equal src.rotation src_c.rect other in
      let limit = signed session.hardware_info.scale_ver_bicubic_limit in
      let interp =
        select_interp quotient below above equal limit src_c.rect.width dst_c.rect.width scale
          (field src.scale_mode 0 4, field src.scale_mode 4 4) in
      return_if
        (not (check_rect_for_rga linux src_c.rect)
          || layer_bad
          || not (check_rect_for_rga linux dst_c.rect)
          || scale_rejected quotient below above equal session scale
          || interp_rejected quotient below above equal limit src_c.rect.width dst_c.rect.width
              scale interp)
        rejected (blit_req session src dst src1 src_c dst_c layer scale interp)

  -- After get_rga_session gave the session; the source and the target are not NULL.
  unfoldable pub generate_blit_req : Session → Info → Info → Option Info → Generated
  unfolding check_blit get_addr
  generate_blit_req session src dst none =
      let src_c = channel_of src in
      let dst_c = channel_of dst in
      return_if (mixed_handles src dst none) rejected (
        with_addr src_c (
          with_addr dst_c
            (check_blit session src dst none (ready linux src_c) (ready linux dst_c) none)))
  generate_blit_req session src dst (some src1) =
      let src_c = channel_of src in
      let dst_c = channel_of dst in
      let layer = channel_of src1 in
      return_if (mixed_handles src dst (some src1)) rejected (
        with_addr src_c (
          with_addr layer (
            with_addr dst_c (
              check_blit session src dst (some src1) (ready linux src_c) (ready linux dst_c)
                (some (ready_layer linux layer))))))

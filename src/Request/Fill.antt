-- ===== src/Request/Fill.antt =====
-- generate_fill_req of im2d_api/src/im2d_impl.cpp.
use librga_rockchip.Base.{ℕ, Bool, true, false, ◌==◌, if◌then◌else◌}
use librga_rockchip.Base.Int.{ℤ, pos, negsuc, ltb_ℤ, signed, bits, add_int}
use librga_rockchip.Base.Bits.{bit_or}
use librga_rockchip.Base.Words.{uint8, uint16, uint16_of}
use librga_rockchip.Format.{is_yuv_format}
use librga_rockchip.Session.{Session}
use librga_rockchip.Request.{Req, Clip}
use librga_rockchip.Request.Zero.{zero_req, zero_color_fill}
use librga_rockchip.Request.Info.{Info}
use librga_rockchip.Request.Rects.{compatible_rect, default_hstride, rk_rga_get_rga_format}
use librga_rockchip.Request.Setters.{normal_rga_set_dst_active_info, raster_mode}
use librga_rockchip.Request.SetModes.{
  normal_rga_set_color_fill_mode, normal_rga_mmu_info, normal_rga_mmu_flag,
}
use librga_rockchip.Request.Image.{
  Generated, filled, untouched, rejected, Channel, no_addr, zero_fd, without_zero_fd, mmu_of,
  rga1_mmu_of, dst_side, Driver, old_rga1_driver, rga1_driver, rga2_driver, driver_of, set_image,
}

-- The target's handle or file, and its physical or virtual address.
unfoldable pub fill_channel : Info → Channel
fill_channel dst = record {
  fd =
      if ltb_ℤ (pos 0) (signed dst.address.handle)
      then signed dst.address.handle
      else dst.address.fd;
  buf = if dst.address.phy_addr == 0 then dst.address.vir_addr else dst.address.phy_addr;
  address = dst.address;
  rect = default_hstride dst.rect;
}

-- RECT from (0, 0) to the corner (w - 1, h - 1), whose coordinates are 16 bits wide.
abbrev pub clip_to : ℤ → ℤ → Clip
clip_to w h = record {
  xmin = 0;
  xmax = uint16_of (add_int w (negsuc 0));
  ymin = 0;
  ymax = uint16_of (add_int h (negsuc 0));
}

abbrev pub fill_mmu : Driver → Channel → Bool
fill_mmu old_rga1_driver c = false
fill_mmu rga1_driver c = rga1_mmu_of c
fill_mmu rga2_driver c = mmu_of c

abbrev pub rd_mode_of : ℕ → ℕ
rd_mode_of rd_mode = uint16 (if rd_mode == 0 then raster_mode else rd_mode)

module _ (linux : Bool) where
  -- The request for a target that has an address.
  unfoldable pub fill_req : Session → Info → Channel → Req
  unfolding fill_channel set_image normal_rga_set_dst_active_info normal_rga_set_color_fill_mode
      normal_rga_mmu_info normal_rga_mmu_flag rk_rga_get_rga_format is_yuv_format
  fill_req session dst c =
      let driver = driver_of session in
      let start = record zero_req {
        feature = record zero_req.feature { user_close_fence = true };
        handle_flag = if ltb_ℤ (pos 0) (signed dst.address.handle) then 1 else 0;
      } in
      let placed = set_image linux driver dst_side start c (clip_to c.rect.width c.rect.height) in
      let coloured = record placed {
        yuv2rgb_mode =
            if ltb_ℤ (pos 0) (signed dst.color_space_mode)
            then uint8 dst.color_space_mode
            else if is_yuv_format (rk_rga_get_rga_format linux c.rect.format)
            then bit_or placed.yuv2rgb_mode 8
            else placed.yuv2rgb_mode;
      } in
      let active =
        normal_rga_set_dst_active_info coloured (bits c.rect.width) (bits c.rect.height)
          (bits c.rect.xoffset) (bits c.rect.yoffset) in
      let moded = normal_rga_set_color_fill_mode active zero_color_fill 0 0 dst.color 0 0 0 0 0 in
      let mapped =
        if fill_mmu driver c
        then normal_rga_mmu_flag (normal_rga_mmu_info moded 1 0 0 0 0 2) true true
        else moded in
      record mapped {
        dst = record mapped.dst { rd_mode = rd_mode_of dst.rd_mode };
        in_fence_fd = dst.in_fence_fd;
        core = uint8 dst.core;
        priority = uint8 dst.priority;
      }

  -- After get_rga_session gave the session; the target is not NULL.
  unfoldable pub generate_fill_req : Session → Info → Generated
  unfolding fill_channel fill_req
  generate_fill_req session dst =
      let c = fill_channel dst in
      if no_addr c
      then untouched
      else if zero_fd c
      then rejected
      else filled (
          fill_req session dst
            (record (without_zero_fd c) { rect = compatible_rect linux (default_hstride c.rect) }))

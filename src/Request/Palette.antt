-- ===== src/Request/Palette.antt =====
-- generate_color_palette_req of im2d_api/src/im2d_impl.cpp.
use librga_rockchip.Base.{
  ℕ, ◌^◌, Bool, true, false, not, ◌||◌, if◌then◌else◌, Option, none, some, [], ◌∷◌, switch,
}
use librga_rockchip.Format.{code, bpp1, bpp2, bpp4, bpp8, ycbcr_400}
use librga_rockchip.Session.{Session}
use librga_rockchip.Request.{Req}
use librga_rockchip.Request.Zero.{zero_req}
use librga_rockchip.Request.Info.{Info}
use librga_rockchip.Request.Rects.{compatible_rect, rk_rga_get_rga_format, check_rect_for_rga}
use librga_rockchip.Request.Setters.{color_palette_mode, update_palette_table_mode}
use librga_rockchip.Request.SetModes.{normal_rga_mmu_info, normal_rga_mmu_flag, or_mmu_flag}
use librga_rockchip.Request.Image.{
  Generated, filled, untouched, rejected, Channel, get_addr, no_addr, zero_fd, without_zero_fd,
  src_side, dst_side, pat_side, Driver, driver_of, set_image,
}
use librga_rockchip.Request.Fill.{clip_to}
use librga_rockchip.Request.Blit.{set_target}
use librga_rockchip.Request.Channels.{has_handle, channel_of, ready, blit_mmu, set_areas}

-- The mode of the lookup, from the format of the source.
unfoldable pub palette_mode_of : ℕ → ℕ
unfolding code
palette_mode_of format =
    switch format
      ((code bpp1, 0) ∷ (code bpp2, 1) ∷ (code bpp4, 2) ∷ (code bpp8, 3) ∷ (code ycbcr_400, 3) ∷ [])
      0

-- The flags of the memory management unit.
unfoldable pub set_palette_mmu : Driver → Req → Channel → Channel → Channel → Req
unfolding normal_rga_mmu_info normal_rga_mmu_flag
set_palette_mmu driver req src dst lut =
    let src_mmu = blit_mmu driver src in
    let dst_mmu = blit_mmu driver dst in
    let lut_mmu = blit_mmu driver lut in
    let mapped = normal_rga_mmu_flag (normal_rga_mmu_info req 1 0 0 0 0 2) src_mmu dst_mmu in
    if src_mmu || dst_mmu || lut_mmu
    then or_mmu_flag (or_mmu_flag mapped lut_mmu (2 ^ 11)) lut_mmu (2 ^ 9)
    else req

-- `loads` is whether the ioctl that loads the table succeeds.
module _ (linux : Bool) (loads : Req → Bool) where
  -- The request before the table is loaded.
  unfoldable pub palette_req : Session → Info → Info → Info → Channel → Channel → Channel → Req
  unfolding palette_mode_of set_palette_mmu set_image set_areas set_target rk_rga_get_rga_format
  palette_req session src dst lut src_c dst_c lut_c =
      let driver = driver_of session in
      let clip = clip_to dst_c.rect.wstride dst_c.rect.hstride in
      let start = record zero_req {
        feature = record zero_req.feature { user_close_fence = true };
        handle_flag = 1;
      } in
      let with_src = set_image linux driver src_side start src_c clip in
      let with_dst = set_image linux driver dst_side with_src dst_c clip in
      let placed = set_image linux driver pat_side with_dst lut_c clip in
      let active = set_areas false placed src_c.rect (some lut_c) dst_c.rect in
      let mapped = set_palette_mmu driver active src_c dst_c lut_c in
      let mode = palette_mode_of (rk_rga_get_rga_format linux src_c.rect.format) in
      set_target (record mapped { palette_mode = mode }) src (some lut) dst

  -- The request that loads the table, for a table that has an address.
  abbrev pub load_req : Req → Req
  load_req req = record req {
    fading = record req.fading { g = 0xff };
    render_mode = update_palette_table_mode;
  }

  abbrev pub lookup_req : Req → Req
  lookup_req req = record req { render_mode = color_palette_mode; endian_mode = 1 }

  -- The result, and the request that the driver was handed on the way, if it was.
  unfoldable pub load_table : Channel → Req → Generated × Option Req
  load_table lut_c req = if no_addr lut_c then (filled (lookup_req req), none) else (
    if loads (load_req req) then filled (lookup_req (load_req req)) else rejected,
    some (load_req req),
  )

  abbrev pub return_pair : Bool → Generated → Generated × Option Req → Generated × Option Req
  return_pair true result rest = (result, none)
  return_pair false result rest = rest

  -- After get_rga_session gave the session; the pointers are not NULL.
  unfoldable pub generate_color_palette_req : Session → Info → Info → Info → Generated × Option Req
  unfolding load_table palette_req get_addr check_rect_for_rga
  generate_color_palette_req session src dst lut =
      let src_c = channel_of src in
      let dst_c = channel_of dst in
      let src_r = ready linux src_c in
      let dst_r = ready linux dst_c in
      let lut_r = without_zero_fd (channel_of lut) in
      let lut_c = record lut_r { rect = compatible_rect linux lut_r.rect } in
      return_pair (not (has_handle src) || not (has_handle dst) || not (has_handle lut)) rejected (
        return_pair (no_addr src_c) untouched (
          return_pair (zero_fd src_c) rejected (
            return_pair (no_addr dst_c) untouched (
              return_pair (zero_fd dst_c) rejected (
                return_pair
                  (not (check_rect_for_rga linux src_r.rect)
                    || not (check_rect_for_rga linux dst_r.rect))
                  rejected
                  (load_table lut_c (palette_req session src dst lut src_r dst_r lut_c)))))))

-- ===== src/Request/Channels.antt =====
-- The images of generate_blit_req of im2d_api/src/im2d_impl.cpp: their handles and addresses, areas
-- and address translation.
use librga_rockchip.Base.{
  ℕ, ◌^◌, Bool, true, false, not, ◌||◌, ◌&&◌, if◌then◌else◌, Option, none, some,
}
use librga_rockchip.Base.Int.{pos, ltb_ℤ, signed, bits}
use librga_rockchip.Request.{Req}
use librga_rockchip.Request.Info.{Info, InfoRect}
use librga_rockchip.Request.Rects.{
  compatible_rect, default_hstride, rk_rga_get_rga_format, is_rect_valid,
}
use librga_rockchip.Request.Setters.{
  normal_rga_set_src_active_info, normal_rga_set_dst_active_info, normal_rga_set_pat_active_info,
}
use librga_rockchip.Request.SetModes.{normal_rga_mmu_info, normal_rga_mmu_flag, or_mmu_flag}
use librga_rockchip.Request.Image.{
  Generated, untouched, rejected, Channel, get_addr, no_addr, zero_fd, without_zero_fd, mmu_of,
  rga1_mmu_of, src_side, dst_side, pat_side, Driver, old_rga1_driver, rga1_driver, rga2_driver,
  set_image,
}
use librga_rockchip.Request.Fill.{clip_to}

abbrev pub has_handle : Info → Bool
has_handle i = ltb_ℤ (pos 0) (signed i.address.handle)

-- All images have handles; and some have handles and some have not.
abbrev pub all_handles : Info → Info → Option Info → Bool
all_handles src dst none = has_handle src && has_handle dst
all_handles src dst (some src1) = has_handle src && has_handle dst && has_handle src1

abbrev any_handle : Info → Info → Option Info → Bool
any_handle src dst none = has_handle src || has_handle dst
any_handle src dst (some src1) = has_handle src || has_handle dst || has_handle src1

abbrev pub mixed_handles : Info → Info → Option Info → Bool
mixed_handles src dst src1 = any_handle src dst src1 && not (all_handles src dst src1)

-- if (condition) return result;
abbrev pub return_if : Bool → Generated → Generated → Generated
return_if true result rest = result
return_if false result rest = rest

-- The tests of an address.
abbrev pub with_addr : Channel → Generated → Generated
with_addr c rest = return_if (no_addr c) untouched (return_if (zero_fd c) rejected rest)

abbrev pub channel_of : Info → Channel
channel_of i = get_addr i.address i.rect

abbrev layer_of : Option Info → Option Channel
layer_of none = none
layer_of (some i) = some (channel_of i)

abbrev pub blit_mmu : Driver → Channel → Bool
blit_mmu old_rga1_driver c = true
blit_mmu rga1_driver c = rga1_mmu_of c
blit_mmu rga2_driver c = mmu_of c

-- The rectangle as it is after the formats and the strides are completed. That of the third layer
-- is only completed when it is not empty.
module _ (linux : Bool) where
  abbrev pub ready : Channel → Channel
  ready c = record (without_zero_fd c) { rect = default_hstride (compatible_rect linux c.rect) }

  abbrev pub ready_layer : Channel → Channel
  ready_layer c = if is_rect_valid c.rect then ready c else without_zero_fd c

  abbrev pub layer_format : Option Channel → Option ℕ
  layer_format none = none
  layer_format (some c) = some (rk_rga_get_rga_format linux c.rect.format)

  -- The images of the request, in the order of the calls.
  unfoldable pub set_images : Driver → Req → Channel → Option Channel → Channel → Req
  unfolding set_image
  set_images driver req src none dst =
      let clip = clip_to dst.rect.wstride dst.rect.hstride in
      set_image linux driver dst_side (set_image linux driver src_side req src clip) dst clip
  set_images driver req src (some src1) dst =
      let clip = clip_to dst.rect.wstride dst.rect.hstride in
      let with_src = set_image linux driver src_side req src clip in
      set_image linux driver dst_side (set_image linux driver pat_side with_src src1 clip) dst clip

-- The effective areas; with `turned`, the widths and the heights of the target and the third layer
-- are exchanged.
abbrev area_w : Bool → InfoRect → ℕ
area_w turned r = if turned then bits r.height else bits r.width

abbrev area_h : Bool → InfoRect → ℕ
area_h turned r = if turned then bits r.width else bits r.height

unfoldable pub set_areas : Bool → Req → InfoRect → Option Channel → InfoRect → Req
unfolding normal_rga_set_src_active_info normal_rga_set_dst_active_info
    normal_rga_set_pat_active_info
set_areas turned req src src1 dst =
    let with_src =
      normal_rga_set_src_active_info req (bits src.width) (bits src.height) (bits src.xoffset)
        (bits src.yoffset) in
    let with_dst =
      normal_rga_set_dst_active_info with_src (area_w turned dst) (area_h turned dst)
        (bits dst.xoffset) (bits dst.yoffset) in
    elim src1 [
      | none ↦ with_dst
      | some c ↦
          normal_rga_set_pat_active_info with_dst (area_w turned c.rect) (area_h turned c.rect)
            (bits c.rect.xoffset) (bits c.rect.yoffset)
    ]

-- The flags of the memory management unit.
unfoldable pub set_mmu : Driver → Req → Channel → Option Channel → Channel → Req
unfolding normal_rga_mmu_info normal_rga_mmu_flag mmu_of rga1_mmu_of
set_mmu driver req src src1 dst =
    let src_mmu = blit_mmu driver src in
    let dst_mmu = blit_mmu driver dst in
    let mapped =
      if src_mmu || dst_mmu
      then normal_rga_mmu_flag (normal_rga_mmu_info req 1 0 0 0 0 2) src_mmu dst_mmu
      else req in
    elim src1 [
      | none ↦ mapped
      | some c ↦
          record (or_mmu_flag (or_mmu_flag mapped (blit_mmu driver c) (2 ^ 11)) (blit_mmu driver c)
            (2 ^ 9)) { bsfilter_flag = 1 }
    ]

-- ===== src/Request/Faults.antt =====
-- Requests that lose or refuse a part of the task.
use librga_rockchip.Status.{failed}
use librga_rockchip.Base.{
  ap, ℕ, ◌*◌, ◌^◌, ◌≡◌, refl, Bool, true, false, not, ◌||◌, arith, Option, none,
}
use librga_rockchip.Base.Int.{pos, negsuc, eqb_ℤ}
use librga_rockchip.Base.Words.{uint16, uint16_of, uint32}
use librga_rockchip.Base.Bits.{zero-bit_or}
use librga_rockchip.Session.{Session}
use librga_rockchip.Request.{Req, Clip}
use librga_rockchip.Request.Info.{Info}
use librga_rockchip.Request.Image.{
  Generated, filled, rejected, Channel, dst_side, rga1_driver, set_image, rga1_image,
}
use librga_rockchip.Request.Setters.{normal_rga_set_fds_offsets, normal_rga_set_dst_virtual_info}
use librga_rockchip.Request.Channels.{set_images, has_handle}
use librga_rockchip.Task.Submit.{prepared_of, stopped}
use librga_rockchip.Request.Palette.{generate_color_palette_req, return_pair}

apart : (m : ℕ) → eqb_ℤ (pos m) (negsuc 0) ≡ false
apart m = ground arith

dst_fd_color :
    (linux : Bool) (req : Req) (c : Channel) (clip : Clip) (m : ℕ)
    → c.fd ≡ pos m
    → (set_image linux rga1_driver dst_side req c clip).line_draw_info.color
      ≡ uint32 (uint16 (uint16_of (pos m)) * 2 ^ 16)
unfolding set_image rga1_image normal_rga_set_fds_offsets normal_rga_set_dst_virtual_info
dst_fd_color linux req c clip m f =
    rw (f, set_image, rga1_image, apart m)
      (zero-bit_or (uint32 (uint16 (uint16_of (pos m)) * 2 ^ 16)))

-- With a driver of RGA1 from version 1.6 on, when the source and the target are both given by a file,
-- the request names the target's file only: the call for the target overwrites the number of the
-- source's file with 0.
pub set_images_rga1 :
    (linux : Bool) (req : Req) (src dst : Channel) (n m : ℕ)
    → src.fd ≡ pos n
    → dst.fd ≡ pos m
    → (set_images linux rga1_driver req src none dst).line_draw_info.color
      ≡ uint32 (uint16 (uint16_of (pos m)) * 2 ^ 16)
unfolding set_images
set_images_rga1 linux req src dst n m e f = dst_fd_color linux _ dst _ m f

guard-passed :
    (linux : Bool) (loads : Req → Bool) (guard : Bool) (rest : Generated × Option Req) (req : Req)
    → (return_pair linux loads guard rejected rest).0 ≡ filled req
    → guard ≡ false
guard-passed linux loads true rest req e = absurd (cc)
guard-passed linux loads false rest req e = refl

guard_stops :
    (linux : Bool) (loads : Req → Bool) (guard : Bool) (rest : Generated × Option Req)
    → guard ≡ true
    → (return_pair linux loads guard rejected rest).0 ≡ rejected
guard_stops linux loads true rest e = refl
guard_stops linux loads false rest e = absurd (cc)

-- A task for a color palette whose source, target or table is given by an address or a file, and not
-- by a handle, is refused with an error, whatever the rest of it asks for; and so a request is only
-- made when all three have handles.
pub generate_color_palette_req_handles :
    (linux : Bool) (loads : Req → Bool) (session : Session) (src dst lut : Info)
    → let answer = (generate_color_palette_req linux loads session src dst lut).0 in
      (¬ ((has_handle src ≡ true) × (has_handle dst ≡ true) × (has_handle lut ≡ true))
        → prepared_of answer ≡ stopped failed)
      × ((req : Req)
          → answer ≡ filled req
          → (has_handle src ≡ true) × (has_handle dst ≡ true) × (has_handle lut ≡ true))
unfolding generate_color_palette_req
generate_color_palette_req_handles linux loads session src dst lut =
    let guard = not (has_handle src) || not (has_handle dst) || not (has_handle lut) in
    (
      λ missing.
          let closed : guard ≡ true = ground arith in
          ap prepared_of (guard_stops linux loads guard _ closed),
      λ req e. let passed = guard-passed linux loads guard _ req e in ground (arith, passed),
    )

-- ===== src/Request/Tests.antt =====
-- Requests at concrete inputs.
use librga_rockchip.Base.{ℕ, ◌+◌, ◌*◌, ◌^◌, ◌≤◌, ◌<◌, ◌≡◌, ◌↔◌, refl, true, false, arith, none}
use librga_rockchip.Base.Int.{add_int, pos}
use librga_rockchip.Base.Words.{uint16, uint16_of, uint32}
use librga_rockchip.Format.{code, case_in, rgba_8888, bpp8, is_yuv_format, ycbcr_420_sp}
use librga_rockchip.Session.{Session, ioc_multi_rga}
use librga_rockchip.Session.Device.{librga_init}
use librga_rockchip.Request.{Req}
use librga_rockchip.Request.Zero.{zero_req}
use librga_rockchip.Request.Info.{Info, InfoRect, zero_info}
use librga_rockchip.Request.Rects.{
  check_rect_for_rga, rk_rga_get_rga_format, bad_area, bad_yuv, rk_rga_compatible_format,
}
use librga_rockchip.Request.Colours.{full_601, limit_709}
use librga_rockchip.Request.Spaces.{Does, space_code, by_table, set_csc-rga_get_csc_mode}
use librga_rockchip.Csc.{rga_get_csc_mode}
use librga_rockchip.Request.Image.{
  Generated, filled, untouched, rejected, Channel, rga1_driver, get_addr,
}
use librga_rockchip.Request.Compat.{Rga2ImgInfo, rotate_offsets}
use librga_rockchip.Request.Plan.{interp_rejected, select_interp, interp_default, set_csc}
use librga_rockchip.Request.Channels.{set_images, has_handle}
use librga_rockchip.Task.Submit.{prepared_of, stopped}
use librga_rockchip.Status.{failed}
use librga_rockchip.Request.Palette.{generate_color_palette_req, load_table}
use librga_rockchip.Task.Modes.{transform}
use librga_rockchip.Request.Turns.{turn_90, mirror_h, hardware_turn, orient-transform}
use librga_rockchip.Request.Interp.{interp_rejected-select_interp}
use librga_rockchip.Request.Faults.{set_images_rga1, generate_color_palette_req_handles}
use librga_rockchip.Request.Angles.{Matches, sine-Matches}
use librga_rockchip.Request.Bounds.{
  area, Inside, YuvAligned, check_rect_for_rga_iff, angle_90, rotate_offsets_inside,
}
use librga_rockchip.Hardware.Select.{rk3568_entry}
use librga_rockchip.Request.Fractions.{ratio, below, above, equal}

-- A quarter turn with a horizontal mirroring.
orient-transform_example : hardware_turn (transform 9) false ≡ (90, 33, true)
orient-transform_example = orient-transform 9 turn_90 mirror_h false refl refl

exclusive : (x : ℕ × ℕ) → above x 1 ≡ true → below x 1 ≡ false
exclusive (a, b) e = ground arith

-- A wide image that is made narrower and taller.
interp_rejected-select_interp_example :
    interp_rejected ratio below above equal
      (pos 1996)
      (pos 4000)
      (pos 2000)
      ((4000, 2000), (1000, 2000))
      (select_interp ratio below above equal
        (pos 1996)
        (pos 4000)
        (pos 2000)
        ((4000, 2000), (1000, 2000))
        (interp_default, interp_default))
    ≡ false
interp_rejected-select_interp_example =
    interp_rejected-select_interp ratio below above equal (pos 1996) (pos 4000) (pos 2000)
      (4000, 2000) (1000, 2000) (exclusive (4000, 2000)) (exclusive (1000, 2000))

abbrev hd : InfoRect
hd = area (pos 0) (pos 0) (pos 1280) (pos 720) (pos 1280) (pos 720) (code rgba_8888)

abbrev file : ℕ → Channel
file n = record { fd = pos n; buf = 0; address = zero_info.address; rect = hd }

set_images_rga1_example :
    (set_images true rga1_driver zero_req (file 7) none (file 8)).line_draw_info.color
    ≡ uint32 (uint16 (uint16_of (pos 8)) * 2 ^ 16)
set_images_rga1_example = set_images_rga1 true zero_req (file 7) (file 8) 7 8 refl refl

sine-Matches_example : Matches 45
sine-Matches_example = sine-Matches 45 (omega arith)

abbrev yuv_area : InfoRect
yuv_area = area (pos 10) (pos 20) (pos 100) (pos 50) (pos 640) (pos 360) (code ycbcr_420_sp)

check_rect_for_rga_iff_example : (check_rect_for_rga true yuv_area ≡ true) ↔ (
    Inside yuv_area
    × (is_yuv_format (rk_rga_get_rga_format true (code ycbcr_420_sp)) ≡ true → YuvAligned yuv_area))
check_rect_for_rga_iff_example = check_rect_for_rga_iff true yuv_area (omega arith, omega arith)

-- 100 * 50 pixels, turned.
abbrev turned_target : Rga2ImgInfo
turned_target = record {
  yrgb_addr = 0;
  uv_addr = 0;
  v_addr = 0;
  format = 0;
  act_w = 50;
  act_h = 100;
  x_offset = 10;
  y_offset = 20;
  vir_w = 640;
  vir_h = 360;
  endian_mode = 0;
  alpha_swap = 0;
}

rotate_offsets_inside_example :
    let start = rotate_offsets (pos 65536) (pos 0) turned_target in
    (10 ≤ start.x_offset)
    × (start.x_offset < 10 + 100)
    × (20 ≤ start.y_offset)
    × (start.y_offset < 20 + 50)
rotate_offsets_inside_example =
    rotate_offsets_inside turned_target (pos 65536) (pos 0) true 10 20 100 50 angle_90 refl refl
      refl refl (omega arith) (omega arith) (omega arith) (omega arith)

-- A conversion by a table.
set_csc-rga_get_csc_mode_example :
    Does
      (λ x. x)
      full_601
      limit_709
      by_table
      (set_csc
        (λ x. x)
        zero_req
        (rga_get_csc_mode rk3568_entry (space_code full_601) (space_code limit_709))
        (0, 0))
set_csc-rga_get_csc_mode_example = set_csc-rga_get_csc_mode (λ x. x) rk3568_entry full_601 limit_709

-- An indexed image, its target and its table.
abbrev by_handle : ℕ → ℕ → Info
by_handle n f = record zero_info {
  address = record zero_info.address { handle = n };
  rect = area (pos 0) (pos 0) (pos 1280) (pos 720) (pos 1280) (pos 720) f;
}

abbrev multi : Session
multi = record librga_init { driver_type = ioc_multi_rga }

abbrev made : Generated → Req
made (filled req) = req
made untouched = zero_req
made rejected = zero_req

abbrev palette : Generated
palette =
    (generate_color_palette_req true (λ r. true) multi (by_handle 1 (code bpp8))
      (by_handle 2 (code rgba_8888)) (by_handle 3 (code rgba_8888))).0

palette_request_ok : palette ≡ filled (made palette)
unfolding generate_color_palette_req load_table check_rect_for_rga get_addr add_int bad_area bad_yuv
    rk_rga_get_rga_format rk_rga_compatible_format is_yuv_format case_in
palette_request_ok = refl

-- The same task with a table that is given by an address.
abbrev by_address : Info
by_address = record zero_info { rect = hd }

generate_color_palette_req_handles_example :
    prepared_of
      (generate_color_palette_req true
        (λ r. true)
        multi
        (by_handle 1 (code bpp8))
        (by_handle 2 (code rgba_8888))
        by_address).0
    ≡ stopped failed
generate_color_palette_req_handles_example =
    (generate_color_palette_req_handles true (λ r. true) multi (by_handle 1 (code bpp8))
        (by_handle 2 (code rgba_8888)) by_address).0
      (ground arith)

palette_handles :
    (has_handle (by_handle 1 (code bpp8)) ≡ true)
    × (has_handle (by_handle 2 (code rgba_8888)) ≡ true)
    × (has_handle (by_handle 3 (code rgba_8888)) ≡ true)
palette_handles =
    (generate_color_palette_req_handles true (λ r. true) multi (by_handle 1 (code bpp8))
        (by_handle 2 (code rgba_8888)) (by_handle 3 (code rgba_8888))).1
      (made palette) palette_request_ok

-- ===== src/Task.antt =====
-- The start of a task: rga_set_buffer_info, and rga_task_submit of im2d_api/src/im2d_impl.cpp up to
-- the call of rga_check. Its other steps are in the modules below.
pub mod Addresses
pub mod Accepts
pub mod Options
pub mod Modes
pub mod Space
pub mod Call
pub mod Send
pub mod Submit
pub mod Driver
pub mod Outcome
pub mod NoSource
mod Tests
use librga_rockchip.Base.{ℕ, ◌⊎◌, inr, Bool, not, ◌&&◌, ◌||◌, ltb, ◌==◌, if◌then◌else◌}
use librga_rockchip.Base.Int.{ℤ, pos, ltb_ℤ}
use librga_rockchip.Status.{Status, noerror, success, invalid_param, ◌>>◌}
use librga_rockchip.Hardware.{InfoEntry}
use librga_rockchip.Check.{
  Buffer, Rect, uses, blends, im_color_fill, im_color_palette, rga_is_buffer_valid,
}
use librga_rockchip.Check.Formats.{unless_success}
use librga_rockchip.Check.Whole.{rga_check, normal, check_known}

-- The address in an rga_info_t, which starts as zeros.
pub record Address : Type 0 where
  pub handle : ℕ
  pub phy_addr : ℕ
  pub fd : ℤ
  pub vir_addr : ℕ
  pub mmu_flag : ℕ

abbrev pub zero_address : Address
zero_address = record { handle = 0; phy_addr = 0; fd = pos 0; vir_addr = 0; mmu_flag = 0 }

-- rga_set_buffer_info(name, image, info), for an `info` that is not NULL.
unfoldable pub rga_set_buffer_info : Buffer → Address → Address × Status
rga_set_buffer_info b info =
    if ltb 0 b.handle
    then (record info { handle = b.handle }, success)
    else if not (b.phy_addr == 0)
    then (record info { phy_addr = b.phy_addr }, success)
    else if ltb_ℤ (pos 0) b.fd
    then (record info { fd = b.fd; mmu_flag = 1 }, success)
    else if not (b.vir_addr == 0)
    then (record info { vir_addr = b.vir_addr; mmu_flag = 1 }, success)
    else (info, invalid_param)

-- The addresses of the source and the target, and `ret`. The status of the source is overwritten by
-- that of the target.
unfoldable pub set_addresses : Buffer → Buffer → ℕ → Address × Address × Status
unfolding rga_set_buffer_info
set_addresses src dst mode =
    let (dst_info, ret) = rga_set_buffer_info dst zero_address in
    if uses mode im_color_fill
    then (zero_address, dst_info, ret)
    else ((rga_set_buffer_info src zero_address).0, dst_info, ret)

module _ (linux : Bool) (exceeds : ℤ → ℤ → ℕ → Bool) where
  -- The third layer is there: a palette, or an image to blend with.
  abbrev pub has_layer : Buffer → ℕ → Bool
  has_layer pat mode = (uses mode im_color_palette || blends mode) && rga_is_buffer_valid pat

  -- rga_task_submit up to rga_check, with what get_rga_session gave before.
  unfoldable pub task_checks :
      InfoEntry → Buffer → Buffer → Buffer → Rect → Rect → Rect → ℕ → Status
  unfolding set_addresses
  task_checks t src dst pat src_rect dst_rect pat_rect mode =
      unless_success (set_addresses src dst mode).2
      >> check_known linux exceeds src
      >> check_known linux exceeds dst
      >> (if has_layer pat mode
          then unless_success (rga_set_buffer_info pat zero_address).1
            >> check_known linux exceeds pat
          else noerror)
      >> rga_check linux exceeds (inr t) (normal linux exceeds src src_rect)
          (normal linux exceeds dst dst_rect)
          (if has_layer pat mode then normal linux exceeds pat pat_rect else pat) src_rect dst_rect
          pat_rect mode

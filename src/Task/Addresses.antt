-- ===== src/Task/Addresses.antt =====
-- The address that a buffer gives to the driver.
use librga_rockchip.Base.{ℕ, ◌+◌, ◌≡◌, ◌↔◌, Bool, true, false, not, ltb, ◌==◌, arith}
use librga_rockchip.Base.Int.{pos, ltb_ℤ}
use librga_rockchip.Status.{success}
use librga_rockchip.Check.{Buffer, rga_is_buffer_valid}
use librga_rockchip.Task.{Address, zero_address, rga_set_buffer_info}

-- How many of the four addresses are given.
abbrev pub one_if : Bool → ℕ
one_if true = 1
one_if false = 0

abbrev pub addresses_given : Address → ℕ
addresses_given a =
    one_if (ltb 0 a.handle)
    + one_if (not (a.phy_addr == 0))
    + one_if (ltb_ℤ (pos 0) a.fd)
    + one_if (not (a.vir_addr == 0))

-- A buffer is taken exactly when it is valid. Then the driver gets exactly one of its addresses,
-- and the flag for the MMU exactly when this is neither a handle nor a physical address. A buffer
-- that is not taken gives no address.
pub rga_set_buffer_info_iff :
    (b : Buffer)
    → let (info, status) = rga_set_buffer_info b zero_address in
      ((status ≡ success) ↔ (rga_is_buffer_valid b ≡ true))
      × (addresses_given info ≡ one_if (rga_is_buffer_valid b))
      × ((info.mmu_flag ≡ 1) ↔ ((status ≡ success) × (info.handle ≡ 0) × (info.phy_addr ≡ 0)))
unfolding rga_set_buffer_info rga_is_buffer_valid
rga_set_buffer_info_iff b = ground arith

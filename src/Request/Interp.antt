-- ===== src/Request/Interp.antt =====
-- The choice of the interpolation.
use librga_rockchip.Base.{ℕ, ◌≡◌, Bool, true, false, arith}
use librga_rockchip.Base.Int.{ℤ}
use librga_rockchip.Request.Plan.{select_interp, interp_rejected, interp_default}

-- A request that leaves the interpolation to the library is never refused for it, whatever the
-- scales are and whatever the width limit of the line buffer is; no scale is both above and below 1.
pub interp_rejected-select_interp :
    {F : Type 0} (quotient : ℤ → ℤ → F) (below above equal : F → ℕ → Bool)
    (limit src_width dst_width : ℤ) (h v : F)
    → (above h 1 ≡ true → below h 1 ≡ false)
    → (above v 1 ≡ true → below v 1 ≡ false)
    → interp_rejected quotient below above equal limit src_width dst_width
        (h, v)
        (select_interp quotient below above equal limit src_width dst_width
          (h, v)
          (interp_default, interp_default))
      ≡ false
unfolding interp_rejected select_interp
interp_rejected-select_interp quotient below above equal limit sw dw h v p q = ground arith

-- ===== src/Check/External.antt =====
-- rga_check_external of im2d_api/src/im2d_impl.cpp, the check that the calls of the API make.
use librga_rockchip.Base.{ℕ, ◌≡◌, ◌≢◌, ◌↔◌, inr, Bool, true, ==_iff, arith, if◌then◌else◌}
use librga_rockchip.Base.Int.{ℤ}
use librga_rockchip.Status.{noerror, >>-both, when_iff}
use librga_rockchip.Format.{code, unknown}
use librga_rockchip.Format.Convert.{convert_to_rga_format}
use librga_rockchip.Hardware.{InfoEntry}
use librga_rockchip.Hardware.Limits.{Sane}
use librga_rockchip.Check.{Buffer, Rect, rga_is_buffer_valid}
use librga_rockchip.Check.Whole.{rga_check, rga_check_external, normal, crop_rect, check_known}
use librga_rockchip.Check.Scale.{ExactQuotients}
use librga_rockchip.Check.Sound.{OperationFits, Ints, check_all_iff}

module _ (linux : Bool) (exceeds : ℤ → ℤ → ℕ → Bool) where
  -- The conversion knows the format of the image.
  abbrev pub Known : Buffer → Type 0
  Known b = convert_to_rga_format linux b.format ≢ code unknown

  pub check_known_iff : (b : Buffer) → (check_known linux exceeds b ≡ noerror) ↔ Known b
  check_known_iff b = ground (arith, ==_iff (convert_to_rga_format linux b.format) (code unknown))

  -- The third layer as rga_check sees it.
  abbrev pub layer : Buffer → Rect → Buffer
  layer pat r = if rga_is_buffer_valid pat then normal linux exceeds pat r else pat

  -- With a session whose hardware table is in its limits, coordinates of the images in the range of
  -- int and exact quotients, the check passes exactly when the formats of the source, the target and
  -- the third layer, if it is there, are known, and the hardware can do the operation on the images
  -- that have the sizes of their rectangles and the library's codes of their formats.
  pub rga_check_external_iff :
      (t : InfoEntry) (src dst pat : Buffer) (src_rect dst_rect pat_rect : Rect) (mode : ℕ)
      → ExactQuotients exceeds
      → Sane t
      → Ints linux exceeds
          (normal linux exceeds src src_rect)
          (normal linux exceeds dst (crop_rect linux exceeds src_rect dst_rect mode))
          (layer pat pat_rect)
          src_rect
          (crop_rect linux exceeds src_rect dst_rect mode)
          pat_rect
      → (rga_check_external linux exceeds (inr t) src dst pat src_rect dst_rect pat_rect mode
          ≡ noerror)
        ↔ (((Known src × Known dst) × (rga_is_buffer_valid pat ≡ true → Known pat))
            × OperationFits linux exceeds t
                (normal linux exceeds src src_rect)
                (normal linux exceeds dst (crop_rect linux exceeds src_rect dst_rect mode))
                (layer pat pat_rect)
                src_rect
                (crop_rect linux exceeds src_rect dst_rect mode)
                pat_rect
                mode)
  unfolding rga_check_external rga_check
  rga_check_external_iff t src dst pat src_rect dst_rect pat_rect mode law sane ints =
      >>-both _ _
        (>>-both _ _ (>>-both _ _ (check_known_iff src) (check_known_iff dst))
          (when_iff (rga_is_buffer_valid pat) _ (λ e. check_known_iff pat)))
        (check_all_iff linux exceeds t _ _ _ src_rect _ pat_rect mode law sane ints)

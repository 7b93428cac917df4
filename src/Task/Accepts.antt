-- ===== src/Task/Accepts.antt =====
-- Which tasks rga_task_submit goes on with.
use librga_rockchip.Base.{ℕ, ◌≡◌, ◌↔◌, inl, inr, refl, Bool, true, arith, Bool-cases, if◌then◌else◌}
use librga_rockchip.Base.Int.{ℤ}
use librga_rockchip.Status.{noerror, >>-both, when_iff}
use librga_rockchip.Hardware.{InfoEntry}
use librga_rockchip.Hardware.Limits.{Sane}
use librga_rockchip.Check.{Buffer, Rect, uses, im_color_fill, rga_is_buffer_valid}
use librga_rockchip.Check.Formats.{unless_success}
use librga_rockchip.Check.Whole.{rga_check, normal, check_known}
use librga_rockchip.Check.Scale.{ExactQuotients}
use librga_rockchip.Check.Sound.{OperationFits, Ints, check_all_iff}
use librga_rockchip.Check.External.{Known, check_known_iff}
use librga_rockchip.Task.{task_checks, set_addresses, rga_set_buffer_info, zero_address, has_layer}

valid_iff :
    (b : Buffer)
    → (unless_success (rga_set_buffer_info b zero_address).1 ≡ noerror)
      ↔ (rga_is_buffer_valid b ≡ true)
unfolding rga_set_buffer_info rga_is_buffer_valid
valid_iff b = ground arith

target_decides :
    (src dst : Buffer) (mode : ℕ)
    → (set_addresses src dst mode).2 ≡ (rga_set_buffer_info dst zero_address).1
unfolding set_addresses
target_decides src dst mode = elim (Bool-cases (uses mode im_color_fill)) [
  | inl e ↦ rw (e, set_addresses) refl
  | inr e ↦ rw (e, set_addresses) refl
]

addresses_iff :
    (src dst : Buffer) (mode : ℕ)
    → (unless_success (set_addresses src dst mode).2 ≡ noerror) ↔ (rga_is_buffer_valid dst ≡ true)
addresses_iff src dst mode = rw (target_decides src dst mode) (valid_iff dst)

module _ (linux : Bool) (exceeds : ℤ → ℤ → ℕ → Bool) where
  -- The third layer as rga_check sees it.
  abbrev pub task_layer : Buffer → Rect → ℕ → Buffer
  task_layer pat r mode =
      if has_layer linux exceeds pat mode then normal linux exceeds pat r else pat

  -- With a hardware table in its limits, coordinates of the images in the range of int and exact
  -- quotients, the checks of a task pass exactly when the target has an address, the formats of the
  -- source, the target and the third layer, if there is one, are known, and the hardware can do the
  -- operation. Nothing is asked of the source's address.
  pub task_checks_iff :
      (t : InfoEntry) (src dst pat : Buffer) (src_rect dst_rect pat_rect : Rect) (mode : ℕ)
      → ExactQuotients exceeds
      → Sane t
      → Ints linux exceeds
          (normal linux exceeds src src_rect)
          (normal linux exceeds dst dst_rect)
          (task_layer pat pat_rect mode)
          src_rect
          dst_rect
          pat_rect
      → (task_checks linux exceeds t src dst pat src_rect dst_rect pat_rect mode ≡ noerror) ↔ (
          ((((rga_is_buffer_valid dst ≡ true) × Known linux exceeds src) × Known linux exceeds dst)
            × (has_layer linux exceeds pat mode ≡ true
                → (rga_is_buffer_valid pat ≡ true) × Known linux exceeds pat))
          × OperationFits linux exceeds t
              (normal linux exceeds src src_rect)
              (normal linux exceeds dst dst_rect)
              (task_layer pat pat_rect mode)
              src_rect
              dst_rect
              pat_rect
              mode)
  unfolding task_checks rga_check
  task_checks_iff t src dst pat src_rect dst_rect pat_rect mode law sane ints =
      let known = check_known_iff linux exceeds in
      >>-both _ _
        (>>-both _ _
          (>>-both _ _ (>>-both _ _ (addresses_iff src dst mode) (known src)) (known dst))
          (when_iff (has_layer linux exceeds pat mode) _ (λ e.
            >>-both (unless_success (rga_set_buffer_info pat zero_address).1)
              (check_known linux exceeds pat) (valid_iff pat) (known pat))))
        (check_all_iff linux exceeds t _ _ _ src_rect dst_rect pat_rect mode law sane ints)

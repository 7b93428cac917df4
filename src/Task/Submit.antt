-- ===== src/Task/Submit.antt =====
-- rga_task_submit of im2d_api/src/im2d_impl.cpp: the checks, the request, and the job or the call of
-- the driver.
use librga_rockchip.Base.{ℕ, Bool, not, ◌&&◌, ◌==◌, if◌then◌else◌, Option, none, some, List}
use librga_rockchip.Base.Int.{ℤ}
use librga_rockchip.Base.Bits.{test_bit}
use librga_rockchip.Status.{Status, noerror, failed, illegal_param}
use librga_rockchip.Session.{Session}
use librga_rockchip.Check.{
  Buffer, uses, blends, im_color_fill, im_color_palette, rga_is_buffer_valid,
}
use librga_rockchip.Job.State.{JobMap, Manager}
use librga_rockchip.Job.Defs.{add_task}
use librga_rockchip.Request.{Req}
use librga_rockchip.Request.Zero.{zero_req}
use librga_rockchip.Request.Info.{Info}
use librga_rockchip.Request.Image.{Generated, filled, untouched, rejected}
use librga_rockchip.Request.Fill.{generate_fill_req}
use librga_rockchip.Request.Blit.{generate_blit_req}
use librga_rockchip.Request.Palette.{generate_color_palette_req}
use librga_rockchip.Task.{task_checks}
use librga_rockchip.Task.Options.{rga_get_opt}
use librga_rockchip.Task.Space.{task_space}
use librga_rockchip.Task.Call.{
  TaskCall, Context, Gauss, gauss_refused, gauss_of, options_of, layer_image, layer_info, source_of,
  target_of, source_info, target_info,
}
use librga_rockchip.Task.Send.{IoctlReply, TaskOutcome, ends, freed_of, call_driver}

-- The request, or the status that ends the call. `coe` is the address of the coefficients of a blur,
-- or 0; it is freed at the end.
pub data Prepared : Type 0 where
  prepared : Req → Prepared
  stopped : Status → Prepared

-- A generator that returns 0 without a request leaves the zeros of memset.
abbrev pub prepared_of : Generated → Prepared
prepared_of (filled req) = prepared req
prepared_of untouched = prepared zero_req
prepared_of rejected = stopped failed

module _ (linux : Bool) (exceeds : ℤ → ℤ → ℕ → Bool) (to_fixed : ℤ → ℤ) {F : Type 0}
    (quotient : ℤ → ℤ → F) (below above equal : F → ℕ → Bool) (loads : Req → Bool) where
  -- The generator that the usage selects.
  unfoldable pub generate : Session → ℕ → Buffer → Info → Info → Info → Generated
  unfolding generate_fill_req generate_blit_req generate_color_palette_req rga_is_buffer_valid
  generate session usage pat src_info dst_info pat_info =
      if uses usage im_color_fill
      then generate_fill_req linux session dst_info
      else if uses usage im_color_palette
      then (generate_color_palette_req linux loads session src_info dst_info pat_info).0
      else generate_blit_req linux to_fixed quotient below above equal session src_info dst_info
          (if blends usage && rga_is_buffer_valid pat then some pat_info else none)

  -- With IM_ASYNC and no place for the release fence the call ends before a request is made.
  unfoldable pub make_request : Session → Context → TaskCall → ℕ → Gauss → Prepared
  unfolding generate source_info target_info
  make_request session context c space (gauss_refused status) = stopped status
  make_request session context c space blur =
      if test_bit c.usage 26 && not c.wants_fence
      then stopped illegal_param
      else prepared_of (
          generate session c.usage (layer_image linux exceeds c) (source_info linux exceeds c blur)
            (target_info linux exceeds c context space) (layer_info linux exceeds c))

  -- From the options to the request. The checks have passed.
  unfoldable pub prepare : Session → Context → TaskCall → ℕ → Prepared
  unfolding rga_get_opt task_space gauss_of make_request
  prepare session context c coe_ptr =
      let src = source_of linux exceeds c in
      let dst = target_of linux exceeds c in
      elim (task_space session.hardware_info src dst (layer_image linux exceeds c)) [
        | none ↦ stopped illegal_param
        | some space ↦
            make_request session context c space (gauss_of src dst (options_of c) coe_ptr c.usage)
      ]

  module _ {M : Type 0} (ops : JobMap M) where
    -- The request goes to the job of the handle, or to the driver when there is no handle.
    unfoldable pub submit_prepared :
        Session
        → TaskCall
        → List IoctlReply
        → Manager Req M
        → Prepared
        → Manager Req M × Option TaskOutcome
    unfolding call_driver add_task
    submit_prepared session c replies s (stopped status) = (s, some (ends status))
    submit_prepared session c replies s (prepared req) =
        if c.job_handle == 0
        then (s, call_driver session c req replies)
        else let (s', status) = add_task zero_req ops s c.job_handle req in
          (s', some (record (ends status) { freed = freed_of c.usage req }))

    -- The whole call, with the session that get_rga_session gave.
    unfoldable pub rga_task_submit :
        Session
        → Context
        → TaskCall
        → ℕ
        → List IoctlReply
        → Manager Req M
        → Manager Req M × Option TaskOutcome
    unfolding task_checks prepare submit_prepared
    rga_task_submit session context c coe_ptr replies s =
        elim (task_checks linux exceeds session.hardware_info c.src c.dst c.pat c.src_rect
          c.dst_rect c.pat_rect c.usage) [
            | noerror ↦ submit_prepared session c replies s (prepare session context c coe_ptr)
            | status ↦ (s, some (ends status))
          ]

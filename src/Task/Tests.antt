-- ===== src/Task/Tests.antt =====
-- Tasks at concrete inputs, among them one whose source has no address.
use librga_rockchip.Base.{ℕ, ◌^◌, ◌≡◌, ◌≢◌, refl, true, false, arith, none, some, [], ◌∷◌, ◌↔◌, All}
use librga_rockchip.Base.Int.{pos, negsuc, add_int, mul_int, has_rem}
use librga_rockchip.Status.{noerror, success}
use librga_rockchip.Format.{case_in}
use librga_rockchip.Format.Convert.{convert_to_rga_format, convert_compatible}
use librga_rockchip.Format.Stride.{get_per_pixel_stride_from_format, per_pixel_bits}
use librga_rockchip.Hardware.Select.{rk3568_entry, rk3506_entry}
use librga_rockchip.Hardware.Limits.{Sane}
use librga_rockchip.Check.{Buffer, rga_is_buffer_valid, rga_apply_rect, rga_yuv_legality_check}
use librga_rockchip.Check.Info.{rga_check_info}
use librga_rockchip.Check.Formats.{rga_check_format, check_more_formats, check_last_formats}
use librga_rockchip.Check.Align.{rga_check_align}
use librga_rockchip.Check.Operation.{
  rga_check_feature, rga_check_limit, rga_check_blend, rga_check_rotate,
}
use librga_rockchip.Check.Whole.{rga_check, check_all, check_image, normal}
use librga_rockchip.Check.Sound.{OperationFits, Ints}
use librga_rockchip.Check.Operands.{exact, exact-ExactQuotients, source, target, no_image, whole}
use librga_rockchip.Task.{rga_set_buffer_info, set_addresses, task_checks}
use librga_rockchip.Version.{pack_api_version}
use librga_rockchip.Session.{Session, ioc_multi_rga}
use librga_rockchip.Session.Device.{librga_init}
use librga_rockchip.Job.State.{Manager}
use librga_rockchip.Job.Defs.{create, init, tasks_of}
use librga_rockchip.Job.Invariant.{Inv, init-Inv, create-Inv}
use librga_rockchip.Job.Tasks.{create-tasks_of}
use librga_rockchip.Job.AssocMap.{Assoc, assoc_map}
use librga_rockchip.Request.{Req}
use librga_rockchip.Request.Zero.{zero_req}
use librga_rockchip.Request.Fractions.{ratio, below, above, equal}
use librga_rockchip.Task.Options.{Opt, zero_opt, rga_get_opt}
use librga_rockchip.Task.Space.{task_space}
use librga_rockchip.Task.Call.{
  TaskCall, Context, layer_image, gauss_of, source_info, target_info, source_start, target_start,
  rga_set_rect, target_modes,
}
use librga_rockchip.Task.Send.{IoctlReply, ends, sent_multi, ioctl_loop}
use librga_rockchip.Task.Submit.{
  Prepared, prepared, stopped, prepare, rga_task_submit, make_request, generate,
}
use librga_rockchip.Request.Blit.{generate_blit_req, check_blit, blit_req}
use librga_rockchip.Request.Image.{get_addr}
use librga_rockchip.Request.Rects.{
  check_rect_for_rga, bad_area, bad_yuv, rk_rga_get_rga_format, rk_rga_compatible_format,
}
use librga_rockchip.Request.Plan.{
  scales, scale_rejected, select_interp, interp_rejected, set_csc, override_csc,
}
use librga_rockchip.Task.Driver.{Interrupted, EndsWith, ioctl_loop_lem}
use librga_rockchip.Task.Outcome.{rga_task_submit_gauss}
use librga_rockchip.Task.NoSource.{rga_task_submit_no_source}
use librga_rockchip.Task.Accepts.{task_checks_iff, task_layer}

abbrev lost_source : Buffer
lost_source = record source { vir_addr = 0 }

lost_source_invalid : rga_is_buffer_valid lost_source ≡ false
unfolding rga_is_buffer_valid
lost_source_invalid = refl

rk3568-Sane : Sane rk3568_entry
rk3568-Sane = ground arith

lost_source-Ints :
    Ints true exact
      (normal true exact lost_source whole)
      (normal true exact target whole)
      (task_layer true exact no_image whole 0)
      whole
      whole
      whole
unfolding rga_apply_rect
lost_source-Ints = ground arith

-- The checks of the task let it pass all the same.
lost_source_passes :
    task_checks true exact rk3568_entry lost_source target no_image whole whole whole 0 ≡ noerror
unfolding task_checks set_addresses rga_set_buffer_info rga_check check_all rga_check_feature
    check_image rga_check_info rga_check_format check_more_formats check_last_formats
    rga_check_align rga_check_limit rga_check_blend rga_check_rotate rga_yuv_legality_check
    rga_is_buffer_valid rga_apply_rect case_in add_int has_rem mul_int
    get_per_pixel_stride_from_format per_pixel_bits convert_to_rga_format convert_compatible
lost_source_passes = refl

task_checks_iff_example :
    OperationFits true exact rk3568_entry
      (normal true exact lost_source whole)
      (normal true exact target whole)
      (task_layer true exact no_image whole 0)
      whole
      whole
      whole
      0
task_checks_iff_example =
    ((task_checks_iff true exact rk3568_entry lost_source target no_image whole whole whole 0
        exact-ExactQuotients rk3568-Sane lost_source-Ints).0
      lost_source_passes).1

abbrev multi : Session
multi = record librga_init { driver_type = ioc_multi_rga; hardware_info = rk3568_entry }

abbrev default_context : Context
default_context = record { core = 0; priority = 0 }

abbrev plain_call : TaskCall
plain_call = record {
  job_handle = 0;
  src = lost_source;
  dst = target;
  pat = no_image;
  src_rect = whole;
  dst_rect = whole;
  pat_rect = whole;
  acquire_fence_fd = pos 0;
  wants_fence = false;
  opt = none;
  usage = 0;
}

abbrev no_jobs : Manager Req Assoc
no_jobs = record { job_map = []; job_count = pos 0; heap = λ p. none }

lost_source_space :
    task_space rk3568_entry
      (normal true exact lost_source whole)
      (normal true exact target whole)
      (layer_image true exact plain_call)
    ≡ some 0
unfolding task_space rga_apply_rect
lost_source_space = refl

abbrev took_it : IoctlReply
took_it = record { ret = pos 0; errno = 0; fence = pos 9 }

rga_task_submit_no_source_example :
    rga_task_submit true exact
      (λ x. x)
      ratio
      below
      above
      equal
      (λ r. true)
      assoc_map
      multi
      default_context
      plain_call
      0
      (took_it ∷ [])
      no_jobs
    ≡ (no_jobs, some (record (ends success) { sent = some (sent_multi zero_req) }))
rga_task_submit_no_source_example =
    rga_task_submit_no_source true exact (λ x. x) ratio below above equal (λ r. true) assoc_map
      multi default_context plain_call 0 0 took_it [] no_jobs refl refl
      (record { fills = refl; looks_up = refl; mixes = refl; blurs = refl; waits = refl }) refl
      lost_source_invalid refl lost_source_passes lost_source_space

-- Two interrupted calls, and the answer.
abbrev first_try : IoctlReply
first_try = record { ret = negsuc 0; errno = 4; fence = pos 0 }

abbrev second_try : IoctlReply
second_try = record { ret = negsuc 0; errno = 512; fence = pos 0 }

ioctl_loop_lem_example :
    ((reply : IoctlReply)
      → (ioctl_loop (first_try ∷ second_try ∷ took_it ∷ []) ≡ some reply)
        ↔ EndsWith (first_try ∷ second_try ∷ took_it ∷ []) reply)
    × ((ioctl_loop (first_try ∷ second_try ∷ took_it ∷ []) ≡ none)
        ↔ All Interrupted (first_try ∷ second_try ∷ took_it ∷ []))
ioctl_loop_lem_example = ioctl_loop_lem (first_try ∷ second_try ∷ took_it ∷ [])

-- A blur of 3 * 3 pixels, as a task of the job 5.
abbrev blur_opt : Opt
blur_opt = record zero_opt {
  version = pack_api_version 1 10 5 0;
  ksize_width = pos 3;
  ksize_height = pos 3;
}

abbrev blur_call : TaskCall
blur_call = record plain_call {
  job_handle = 5;
  src = source;
  dst = source;
  opt = some blur_opt;
  usage = 2 ^ 31;
}

abbrev blur_session : Session
blur_session = record multi { hardware_info = rk3506_entry }

abbrev made : Prepared → Req
made (prepared req) = req
made (stopped status) = zero_req

abbrev blur : Prepared
blur =
    prepare true exact (λ x. x) ratio below above equal (λ r. true) blur_session default_context
      blur_call 0x5000

blur_passes :
    task_checks true exact rk3506_entry source source no_image whole whole whole (2 ^ 31) ≡ noerror
unfolding task_checks set_addresses rga_set_buffer_info rga_check check_all rga_check_feature
    check_image rga_check_info rga_check_format check_more_formats check_last_formats
    rga_check_align rga_check_limit rga_check_blend rga_check_rotate rga_yuv_legality_check
    rga_is_buffer_valid rga_apply_rect case_in add_int has_rem mul_int
    get_per_pixel_stride_from_format per_pixel_bits convert_to_rga_format convert_compatible
blur_passes = refl

blur_request_ok : blur ≡ prepared (made blur)
unfolding prepare make_request generate generate_blit_req check_blit blit_req rga_get_opt gauss_of
    source_info target_info source_start target_start rga_set_rect target_modes get_addr task_space
    check_rect_for_rga bad_area bad_yuv rk_rga_get_rga_format rk_rga_compatible_format scales
    scale_rejected select_interp interp_rejected set_csc override_csc rga_apply_rect set_addresses
    rga_set_buffer_info rga_is_buffer_valid case_in add_int pack_api_version convert_to_rga_format
    convert_compatible
blur_request_ok = refl

blur_address : (made blur).gauss_config.coe_ptr ≢ 0
unfolding prepare make_request generate generate_blit_req check_blit blit_req rga_get_opt gauss_of
    source_info target_info source_start target_start rga_set_rect target_modes get_addr task_space
    check_rect_for_rga bad_area bad_yuv rk_rga_get_rga_format rk_rga_compatible_format scales
    scale_rejected select_interp interp_rejected set_csc override_csc rga_apply_rect set_addresses
    rga_set_buffer_info rga_is_buffer_valid case_in add_int pack_api_version convert_to_rga_format
    convert_compatible
blur_address = ground arith

-- The manager with the job 5.
abbrev one_job : Manager Req Assoc
one_job = (create zero_req assoc_map no_jobs true (some 5) (some 1) true).0

no_jobs-Inv : Inv zero_req assoc_map no_jobs
unfolding init
no_jobs-Inv = init-Inv zero_req assoc_map

rga_task_submit_gauss_example :
    let (t, out) =
      rga_task_submit true exact
        (λ x. x)
        ratio
        below
        above
        equal
        (λ r. true)
        assoc_map
        blur_session
        default_context
        blur_call
        0x5000
        []
        one_job in
    (out ≡ some (record (ends success) { freed = some (made blur).gauss_config.coe_ptr }))
    × (tasks_of zero_req assoc_map t 5 ≡ some (made blur ∷ []))
    × ((k : ℕ) → k ≢ 5 → tasks_of zero_req assoc_map t k ≡ tasks_of zero_req assoc_map one_job k)
rga_task_submit_gauss_example =
    rga_task_submit_gauss true exact (λ x. x) ratio below above equal (λ r. true) assoc_map
      blur_session default_context blur_call 0x5000 [] one_job (made blur) [] blur_passes
      blur_request_ok (ground arith) refl blur_address
      (create-Inv zero_req assoc_map no_jobs true 5 1 true refl refl no_jobs-Inv)
      (create-tasks_of zero_req assoc_map no_jobs 5 1 true refl refl) (omega arith)

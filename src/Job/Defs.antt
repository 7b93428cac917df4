-- ===== src/Job/Defs.antt =====
-- The operations of the job manager.
use librga_rockchip.Base.{
  ◌⊎◌, inl, inr, ℕ, suc, List, Option, none, some, Bool, true, ltb, ◌==◌, if◌then◌else◌,
}
use librga_rockchip.Base.Int.{ℤ, pos}
use librga_rockchip.Status.{Status, success, failed, illegal_param, no_session}
pub use librga_rockchip.Job.State.{
  JobMap, Job, Manager, Request, Pending, Reply, accepted, refused, Outcome, rga_task_num_max,
  rga_blit_async, no_session_handle, inc, dec, update, prefix, rga_blit_sync,
}
unfoldable pub use librga_rockchip.Job.State.{sync_mode_of}

module _ {Req M : Type 0} (zero_req : Req) (ops : JobMap M) where
  open ops use {empty, find_job, insert_job, delete_job, size}

  -- rga_job_manager_init
  unfoldable pub init : Manager Req M
  init = record { job_map = empty; job_count = pos 0; heap = λ p. none }

  drop_job : Manager Req M → ℕ → Option ℕ → Manager Req M
  drop_job s handle none = s
  drop_job s handle (some p) = record s {
    job_map = delete_job s.job_map handle;
    heap = update s.heap p none;
  }

  -- rga_job_cancel. `session` says whether get_rga_session gives one, `cancelled` whether the ioctl
  -- succeeds.
  unfoldable pub cancel : Manager Req M → Bool → ℕ → Bool → Manager Req M × Status
  unfolding drop_job
  cancel s session handle cancelled =
      let t = drop_job s handle (find_job s.job_map handle) in
      let t' = record t { job_count = dec t.job_count } in
      if session then (t', if cancelled then success else failed) else (s, no_session)

  abbrev pub new_job : ℕ → Job Req
  new_job handle = record { req = λ i. zero_req; task_count = 0; id = handle }

  unfoldable pub add_job : Manager Req M → ℕ → ℕ → Manager Req M
  add_job s handle p = record s {
    job_map = insert_job s.job_map handle p;
    job_count = inc s.job_count;
    heap = update s.heap p (some (new_job handle));
  }

  create_locked : Manager Req M → ℕ → Option ℕ → Option ℕ → Bool → Manager Req M × ℕ
  unfolding add_job
  create_locked s handle (some old) malloc cancelled = ((cancel s true handle cancelled).0, 0)
  create_locked s handle none none cancelled = ((cancel s true handle cancelled).0, 0)
  create_locked s handle none (some p) cancelled = (add_job s handle p, handle)

  create_reply : Manager Req M → Option ℕ → Option ℕ → Bool → Manager Req M × ℕ
  unfolding create_locked
  create_reply s none malloc cancelled = (s, 0)
  create_reply s (some handle) malloc cancelled =
      create_locked s handle (find_job s.job_map handle) malloc cancelled

  -- rga_job_create: `reply` is the handle that the ioctl writes, `malloc` the new memory.
  unfoldable pub create : Manager Req M → Bool → Option ℕ → Option ℕ → Bool → Manager Req M × ℕ
  unfolding create_reply
  create s session reply malloc cancelled =
      if session then create_reply s reply malloc cancelled else (s, no_session_handle)

  unfoldable pub request_of : Job Req → ℕ → ℤ → Request Req
  request_of j mode fence = record {
    tasks = prefix j.req j.task_count;
    task_num = j.task_count;
    id = j.id;
    sync_mode = mode;
    acquire_fence_fd = fence;
  }

  abbrev pub refusal : Status → Outcome Req
  refusal status = record { status = status; release_fence_fd = none; sent = none }

  -- The call of ioctl and what follows it. `wants_fence` says that the caller's pointer is not
  -- NULL.
  unfoldable pub outcome : ℕ → Bool → Request Req → Reply → Outcome Req
  outcome mode wants_fence r refused = record (refusal failed) { sent = some r }
  outcome mode wants_fence r (accepted fd) = record {
    status = success;
    release_fence_fd =
        if mode == rga_blit_async then (if wants_fence then some fd else none) else none;
    sent = some r;
  }

  -- The job behind the handle, with its address. A pointer of the map to memory that is not in use
  -- is a fault of the program, which the model answers like a missing handle.
  unfoldable pub lock_config : Manager Req M → ℕ → Option (ℕ × Job Req)
  lock_config s handle = elim (find_job s.job_map handle) [
    | none ↦ none
    | some p ↦ elim (s.heap p) [ none ↦ none | some j ↦ some (p, j) ]
  ]

  submit_found :
      Manager Req M
      → ℕ
      → ℕ
      → ℤ
      → Bool
      → (Request Req → Reply)
      → Option (ℕ × Job Req)
      → Manager Req M × Outcome Req
  submit_found s handle mode fence wants_fence ioctl none = (s, refusal illegal_param)
  submit_found s handle mode fence wants_fence ioctl (some (p, j)) =
      let r = request_of j mode fence in
      (
        record s {
          job_map = delete_job s.job_map handle;
          job_count = dec s.job_count;
          heap = update s.heap p none;
        },
        outcome mode wants_fence r (ioctl r),
      )

  submit_mode :
      Manager Req M → ℕ → Option ℕ → ℤ → Bool → (Request Req → Reply) → Manager Req M × Outcome Req
  unfolding submit_found
  submit_mode s handle none fence wants_fence ioctl = (s, refusal illegal_param)
  submit_mode s handle (some mode) fence wants_fence ioctl =
      submit_found s handle mode fence wants_fence ioctl (lock_config s handle)

  -- rga_job_submit
  unfoldable pub submit :
      Manager Req M → Bool → ℕ → ℕ → ℤ → Bool → (Request Req → Reply) → Manager Req M × Outcome Req
  unfolding submit_mode sync_mode_of
  submit s session handle sync_mode fence wants_fence ioctl =
      if session
      then submit_mode s handle (sync_mode_of sync_mode) fence wants_fence ioctl
      else (s, refusal no_session)

  pending_of : ℕ → ℤ → Option (ℕ × Job Req) → Status ⊎ Pending
  pending_of mode fence none = inl illegal_param
  pending_of mode fence (some (p, j)) = inr (record {
    address = p;
    task_num = j.task_count;
    id = j.id;
    sync_mode = mode;
    acquire_fence_fd = fence;
  })

  pending_mode : Manager Req M → ℕ → Option ℕ → ℤ → Status ⊎ Pending
  unfolding pending_of
  pending_mode s handle none fence = inl illegal_param
  pending_mode s handle (some mode) fence = pending_of mode fence (lock_config s handle)

  -- rga_job_config up to the end of its locked section.
  unfoldable pub config_locked : Manager Req M → Bool → ℕ → ℕ → ℤ → Status ⊎ Pending
  unfolding pending_mode sync_mode_of
  config_locked s session handle sync_mode fence =
      if session then pending_mode s handle (sync_mode_of sync_mode) fence else inl no_session

  -- The ioctl of rga_job_config, which reads the tasks through the pointer, and what follows it.
  -- `none` is a read of memory that is not in use.
  unfoldable pub config_ioctl :
      Manager Req M → Pending → Bool → (Request Req → Reply) → Option (Outcome Req)
  config_ioctl s r wants_fence ioctl = elim (s.heap r.address) [
    | none ↦ none
    | some j ↦
        let request : Request Req = record {
          tasks = prefix j.req r.task_num;
          task_num = r.task_num;
          id = r.id;
          sync_mode = r.sync_mode;
          acquire_fence_fd = r.acquire_fence_fd;
        } in
        some (outcome r.sync_mode wants_fence request (ioctl request))
  ]

  -- rga_job_config, which leaves the manager as it is. `between` is what other threads do to it
  -- between the locked section and the ioctl.
  unfoldable pub config :
      (Manager Req M → Manager Req M)
      → Manager Req M
      → Bool
      → ℕ
      → ℕ
      → ℤ
      → Bool
      → (Request Req → Reply)
      → Option (Outcome Req)
  unfolding config_locked config_ioctl
  config between s session handle sync_mode fence wants_fence ioctl =
      elim (config_locked s session handle sync_mode fence) [
        | inl status ↦ some (refusal status)
        | inr r ↦ config_ioctl (between s) r wants_fence ioctl
      ]

  unfoldable pub store_task : Manager Req M → Req → Option (ℕ × Job Req) → Manager Req M × Status
  store_task s r none = (s, illegal_param)
  store_task s r (some (p, j)) =
      let j' = record j { req = update j.req j.task_count r; task_count = suc j.task_count } in
      if ltb j.task_count rga_task_num_max
      then (record s { heap = update s.heap p (some j') }, success)
      else (s, illegal_param)

  -- The locked section of rga_task_submit for a handle above 0.
  unfoldable pub add_task : Manager Req M → ℕ → Req → Manager Req M × Status
  unfolding store_task
  add_task s handle r = store_task s r (lock_config s handle)

  -- The tasks of a handle's job.
  unfoldable pub tasks_of : Manager Req M → ℕ → Option (List Req)
  tasks_of s handle = elim (lock_config s handle) [
    | none ↦ none
    | some (p, j) ↦ some (prefix j.req j.task_count)
  ]

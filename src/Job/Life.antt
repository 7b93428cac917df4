-- ===== src/Job/Life.antt =====
-- The life of a job: it is created, it is given tasks, and it is submitted once.
use librga_rockchip.Base.{
  ℕ, ◌≤◌, ◌≡◌, List, [], none, some, Bool, true, arith, inl, inr, length, Option-cases,
}
use librga_rockchip.Base.Int.{ℤ}
use librga_rockchip.Status.{illegal_param}
use librga_rockchip.Job.Defs.{
  JobMap, Manager, Request, Reply, create, submit, lock_config, tasks_of, rga_task_num_max,
  sync_mode_of, outcome, request_of, refusal,
}
use librga_rockchip.Job.Invariant.{Inv, submit-Inv, create-Inv}
use librga_rockchip.Job.Tasks.{
  job_of_tasks, tasks_of_missing, add_tasks, tasks_of-add_tasks, create-tasks_of,
}

module _ {Req M : Type 0} (zero_req : Req) (ops : JobMap M) where
  open ops use {find_job}

  out_sent :
      (mode : ℕ) (wants_fence : Bool) (r : Request Req) (reply : Reply)
      → (outcome zero_req ops mode wants_fence r reply).sent ≡ some r
  unfolding outcome
  out_sent mode wants_fence r reply = ground arith

  -- What submit hands to the driver, and that it takes the job out.
  submit-sends :
      (s : Manager Req M) (h mode fence_mode : ℕ) (fence : ℤ) (wants_fence : Bool)
      (ioctl : Request Req → Reply) (ts : List Req)
      → Inv zero_req ops s
      → tasks_of zero_req ops s h ≡ some ts
      → sync_mode_of mode ≡ some fence_mode
      → let (t, out) = submit zero_req ops s true h mode fence wants_fence ioctl in
        (out.sent
          ≡ some (record {
            tasks = ts;
            task_num = length ts;
            id = h;
            sync_mode = fence_mode;
            acquire_fence_fd = fence;
          }))
        × (tasks_of zero_req ops t h ≡ none)
  unfolding submit request_of
  submit-sends s h mode fence_mode fence wants_fence ioctl ts v e known =
      let (p, j, found, at_p, id, same, count, l) = job_of_tasks zero_req ops s h ts v e in
      rw (known, submit)
        (rw (l, submit)
          (
            ground (
              arith,
              out_sent fence_mode wants_fence (request_of zero_req ops j fence_mode fence)
                  (ioctl (request_of zero_req ops j fence_mode fence)),
            ),
            tasks_of_missing zero_req ops _ h (ground (arith, ops.find-delete s.job_map h h)),
          ))

  -- A submit for a handle with no job hands nothing to the driver and changes nothing.
  submit_missing :
      (s : Manager Req M) (h mode : ℕ) (fence : ℤ) (wants_fence : Bool)
      (ioctl : Request Req → Reply)
      → Inv zero_req ops s
      → tasks_of zero_req ops s h ≡ none
      → submit zero_req ops s true h mode fence wants_fence ioctl
        ≡ (s, refusal zero_req ops illegal_param)
  unfolding submit tasks_of
  submit_missing s h mode fence wants_fence ioctl v e = elim (Option-cases (sync_mode_of mode)) [
    | inl unknown ↦ rw (unknown, submit)
    | inr (m, known) ↦
        rw (known, submit)
          (let gone : lock_config zero_req ops s h ≡ none = ground arith in rw (gone, submit))
  ]

  -- On a manager in order, a new handle and new memory: the job that is created, given up to 256
  -- tasks and submitted hands the driver exactly these tasks, in order, with their number, the
  -- handle, the mode's code and the fence; and a second submit of the handle is refused, hands the
  -- driver nothing and changes nothing.
  pub submit-add_tasks-create :
      (s : Manager Req M) (h p mode mode_code : ℕ) (fence : ℤ) (wants_fence : Bool)
      (ioctl : Request Req → Reply) (rs : List Req)
      → Inv zero_req ops s
      → find_job s.job_map h ≡ none
      → s.heap p ≡ none
      → length rs ≤ rga_task_num_max
      → sync_mode_of mode ≡ some mode_code
      → let created = (create zero_req ops s true (some h) (some p) true).0 in
        let filled = add_tasks zero_req ops created h rs in
        let (t, out) = submit zero_req ops filled true h mode fence wants_fence ioctl in
        (out.sent
          ≡ some (record {
            tasks = rs;
            task_num = length rs;
            id = h;
            sync_mode = mode_code;
            acquire_fence_fd = fence;
          }))
        × (submit zero_req ops t true h mode fence wants_fence ioctl
            ≡ (t, refusal zero_req ops illegal_param))
  submit-add_tasks-create s h p mode mode_code fence wants_fence ioctl rs v missing fresh room
        known =
      let v1 = create-Inv zero_req ops s true h p true missing fresh v in
      let t1 = create-tasks_of zero_req ops s h p true missing fresh in
      let (e, v2) = tasks_of-add_tasks zero_req ops _ h rs [] v1 t1 (omega arith) in
      let (sent, gone) = submit-sends _ h mode mode_code fence wants_fence ioctl rs v2 e known in
      (
        sent,
        submit_missing _ h mode fence wants_fence ioctl
            (submit-Inv zero_req ops _ true h mode fence wants_fence ioctl v2) gone,
      )

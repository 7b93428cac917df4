-- ===== src/Task/Outcome.antt =====
-- What a whole call of rga_task_submit does.
use librga_rockchip.Base.{
  ℕ, ◌≡◌, ◌≢◌, refl, Bool, true, false, List, some, arith, ◌==◌, ◌<◌, ap, length, ◌++◌, ◌∷◌, [],
}
use librga_rockchip.Base.Int.{ℤ}
use librga_rockchip.Status.{Status, noerror, success}
use librga_rockchip.Session.{Session}
use librga_rockchip.Check.{uses, im_gauss}
use librga_rockchip.Job.State.{JobMap, Manager, rga_task_num_max}
use librga_rockchip.Job.Defs.{add_task, tasks_of}
use librga_rockchip.Job.Invariant.{Inv}
use librga_rockchip.Job.Tasks.{tasks_of-add_task}
use librga_rockchip.Request.{Req}
use librga_rockchip.Request.Zero.{zero_req}
use librga_rockchip.Task.{task_checks}
use librga_rockchip.Task.Call.{TaskCall, Context}
use librga_rockchip.Task.Send.{IoctlReply, ends}
use librga_rockchip.Task.Submit.{Prepared, prepared, prepare, submit_prepared, rga_task_submit}

module _ (linux : Bool) (exceeds : ℤ → ℤ → ℕ → Bool) (to_fixed : ℤ → ℤ) {F : Type 0}
    (quotient : ℤ → ℤ → F) (below above equal : F → ℕ → Bool) (loads : Req → Bool) {M : Type 0}
    (ops : JobMap M) where
  -- The checks of a call.
  abbrev pub checks : Session → TaskCall → Status
  checks session c =
      task_checks linux exceeds session.hardware_info c.src c.dst c.pat c.src_rect c.dst_rect
        c.pat_rect c.usage

  -- A call whose checks pass.
  pub submit_checked :
      (session : Session) (context : Context) (c : TaskCall) (coe_ptr : ℕ)
      (replies : List IoctlReply) (s : Manager Req M) (p : Prepared)
      → checks session c ≡ noerror
      → prepare linux exceeds to_fixed quotient below above equal loads session context c coe_ptr
        ≡ p
      → rga_task_submit linux exceeds to_fixed quotient below above equal loads ops session context
          c coe_ptr replies s
        ≡ submit_prepared linux exceeds to_fixed quotient below above equal loads ops session c
            replies s p
  unfolding rga_task_submit
  submit_checked session context c coe_ptr replies s p e f = rw (e, f, rga_task_submit) refl

  to_job :
      (session : Session) (c : TaskCall) (replies : List IoctlReply) (s : Manager Req M) (req : Req)
      (handle : (c.job_handle == 0) ≡ false)
      → uses c.usage im_gauss ≡ true
      → (req.gauss_config.coe_ptr == 0) ≡ false
      → submit_prepared linux exceeds to_fixed quotient below above equal loads ops session c
          replies s
          (prepared req)
        ≡ (
          (add_task zero_req ops s c.job_handle req).0,
          some (record (ends (add_task zero_req ops s c.job_handle req).1) {
            freed = some req.gauss_config.coe_ptr;
          }),
        )
  unfolding submit_prepared
  to_job session c replies s req e f g = rw (e, f, g, submit_prepared) refl

  -- A task with a blur for a job that has room: when the checks pass and a request is made, the call
  -- succeeds, the request is now the last task of the job, so that a later rga_job_submit hands it
  -- to the driver, and the coefficients whose address it holds have been freed by this call. The
  -- other jobs keep their tasks.
  pub rga_task_submit_gauss :
      (session : Session) (context : Context) (c : TaskCall) (coe_ptr : ℕ)
      (replies : List IoctlReply) (s : Manager Req M) (req : Req) (ts : List Req)
      → checks session c ≡ noerror
      → prepare linux exceeds to_fixed quotient below above equal loads session context c coe_ptr
        ≡ prepared req
      → c.job_handle ≢ 0
      → uses c.usage im_gauss ≡ true
      → req.gauss_config.coe_ptr ≢ 0
      → Inv zero_req ops s
      → tasks_of zero_req ops s c.job_handle ≡ some ts
      → length ts < rga_task_num_max
      → let (t, out) =
          rga_task_submit linux exceeds to_fixed quotient below above equal loads ops session
            context c coe_ptr replies s in
        (out ≡ some (record (ends success) { freed = some req.gauss_config.coe_ptr }))
        × (tasks_of zero_req ops t c.job_handle ≡ some (ts ++ req ∷ []))
        × ((k : ℕ) → k ≢ c.job_handle → tasks_of zero_req ops t k ≡ tasks_of zero_req ops s k)
  rga_task_submit_gauss session context c coe_ptr replies s req ts e f g h k v tasks room =
      let (done, added, others) =
        tasks_of-add_task zero_req ops s c.job_handle req ts v tasks room in
      rw
        (
          submit_checked session context c coe_ptr replies s (prepared req) e f,
          to_job session c replies s req (ground (arith, g)) h (ground (arith, k)),
        )
        (
          ap (λ status. some (record (ends status) { freed = some req.gauss_config.coe_ptr })) done,
          added,
          others,
        )

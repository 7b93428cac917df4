-- ===== src/Job/Cancel.antt =====
-- The calls that break the job manager's books: rga_job_cancel counts a job down whether the handle
-- has one or not, and rga_job_create answers a handle that it already has by cancelling the job.
use librga_rockchip.Base.{ℕ, ◌≡◌, refl, Option, none, some, Bool, true, arith}
use librga_rockchip.Base.Int.{pos}
use librga_rockchip.Job.Defs.{JobMap, Manager, cancel, create, inc, tasks_of}
use librga_rockchip.Job.Invariant.{Inv}
use librga_rockchip.Job.Tasks.{tasks_of_missing}

module _ {Req M : Type 0} (zero_req : Req) (ops : JobMap M) where
  open ops use {find_job, size}

  -- On a manager in order, cancelling a handle that has no job leaves the map as it is and the
  -- counter one below the number of jobs, so the manager is in order no longer.
  pub cancel_unknown :
      (s : Manager Req M) (handle : ℕ) (cancelled : Bool)
      → find_job s.job_map handle ≡ none
      → Inv zero_req ops s
      → let t = (cancel zero_req ops s true handle cancelled).0 in
        (t.job_map ≡ s.job_map) × (inc t.job_count ≡ pos (size t.job_map)) × ¬ Inv zero_req ops t
  unfolding cancel
  cancel_unknown s handle cancelled missing v =
      rw (missing, cancel)
        (refl, ground (arith, v.counted), λ w. ground (arith, v.counted, w.counted))

  -- A driver that hands out a handle which has a job makes create destroy that job: the call
  -- returns 0, and the handle's tasks are gone.
  pub create_existing :
      (s : Manager Req M) (handle p : ℕ) (malloc : Option ℕ) (cancelled : Bool)
      → find_job s.job_map handle ≡ some p
      → let (t, result) = create zero_req ops s true (some handle) malloc cancelled in
        (result ≡ 0) × (t.heap p ≡ none) × (tasks_of zero_req ops t handle ≡ none)
  unfolding create cancel
  create_existing s handle p malloc cancelled found =
      rw (found, create)
        (rw (found, cancel)
          (
            refl,
            ground arith,
            tasks_of_missing zero_req ops _ handle
                (ground (arith, ops.find-delete s.job_map handle handle)),
          ))

-- ===== src/Job/Race.antt =====
-- rga_job_config gives the lock back before its ioctl, which reads the job's array through the
-- pointer: what another thread's call in between does to that memory.
use librga_rockchip.Base.{
  ℕ, ◌≡◌, ◌≢◌, none, some, Bool, true, arith, ◌==◌, if◌then◌else◌, inl, inr, suc, refl, List,
  length, ltb, Bool-cases, sym, ◌∙◌,
}
use librga_rockchip.Job.Tasks.{job_of_tasks, prefix-update_ge}
use librga_rockchip.Base.Int.{ℤ}
use librga_rockchip.Job.Defs.{
  JobMap, Job, Manager, Request, Reply, cancel, submit, lock_config, sync_mode_of, add_task, prefix,
  update, store_task, config, config_locked, config_ioctl, outcome, tasks_of, rga_task_num_max,
}
use librga_rockchip.Job.Invariant.{Inv, lock_config-cases}

module _ {Req M : Type 0} (zero_req : Req) (ops : JobMap M) where
  open ops use {find_job}

  heap-cancel :
      (s : Manager Req M) (k p q : ℕ) (cancelled : Bool)
      → find_job s.job_map k ≡ some q
      → (cancel zero_req ops s true k cancelled).0.heap p ≡ (if q == p then none else s.heap p)
  unfolding cancel
  heap-cancel s k p q cancelled found = rw (found, cancel)

  heap-cancel_missing :
      (s : Manager Req M) (k p : ℕ) (cancelled : Bool)
      → find_job s.job_map k ≡ none
      → (cancel zero_req ops s true k cancelled).0.heap p ≡ s.heap p
  unfolding cancel
  heap-cancel_missing s k p cancelled missing = rw (missing, cancel)

  heap-cancel_other :
      (s : Manager Req M) (h k p : ℕ) (j : Job Req) (cancelled : Bool)
      → Inv zero_req ops s
      → s.heap p ≡ some j
      → j.id ≡ h
      → k ≢ h
      → (cancel zero_req ops s true k cancelled).0.heap p ≡ some j
  heap-cancel_other s h k p j cancelled v at_p id other =
      elim (lock_config-cases zero_req ops s k v) [
        | inl (missing, l) ↦ ground (arith, heap-cancel_missing s k p cancelled missing)
        | inr (q, j', found', at_q, bound, id', l) ↦
            ground (arith, heap-cancel s k p q cancelled found')
      ]

  heap-submit :
      (s : Manager Req M) (k p q m code : ℕ) (j : Job Req) (fence : ℤ) (wants_fence : Bool)
      (ioctl : Request Req → Reply)
      → sync_mode_of m ≡ some code
      → lock_config zero_req ops s k ≡ some (q, j)
      → (submit zero_req ops s true k m fence wants_fence ioctl).0.heap p
        ≡ (if q == p then none else s.heap p)
  unfolding submit
  heap-submit s k p q m code j fence wants_fence ioctl known l = rw (known, submit) (rw (l, submit))

  -- The manager after a task is added to the job at p has that job, with the same first tasks.
  heap-add_task :
      (s : Manager Req M) (h p : ℕ) (r : Req) (j : Job Req)
      → s.heap p ≡ some j
      → lock_config zero_req ops s h ≡ some (p, j)
      → (j' : Job Req) × ((add_task zero_req ops s h r).0.heap p ≡ some j')
        × (prefix j'.req j.task_count ≡ prefix j.req j.task_count)
  unfolding add_task store_task
  heap-add_task s h p r j at_p l = elim (Bool-cases (ltb j.task_count rga_task_num_max)) [
    | inr full ↦ (j, rw (l, add_task) (rw (full, store_task) at_p), refl)
    | inl room ↦
        let own : (p == p) ≡ true = ground arith in
        (
          record j { req = update j.req j.task_count r; task_count = suc j.task_count },
          rw (l, add_task) (rw (room, store_task) (rw own refl)),
          prefix-update_ge j.req j.task_count j.task_count r (omega arith),
        )
  ]

  module _ (s : Manager Req M) (h p m code : ℕ) (j : Job Req) (fence : ℤ) (wants_fence : Bool)
      (ioctl : Request Req → Reply) (known : sync_mode_of m ≡ some code)
      (l : lock_config zero_req ops s h ≡ some (p, j)) where
    config_faults :
        (between : Manager Req M → Manager Req M)
        → (between s).heap p ≡ none
        → config zero_req ops between s true h m fence wants_fence ioctl ≡ none
    unfolding config config_locked config_ioctl
    config_faults between gone = rw (known, config) (rw l (rw (gone, config_ioctl) refl))

    config_reads :
        (between : Manager Req M → Manager Req M) (j' : Job Req) (ts : List Req)
        → (between s).heap p ≡ some j'
        → prefix j'.req j.task_count ≡ ts
        → j.task_count ≡ length ts
        → j.id ≡ h
        → config zero_req ops between s true h m fence wants_fence ioctl ≡ (
            let r : Request Req = record {
              tasks = ts;
              task_num = length ts;
              id = h;
              sync_mode = code;
              acquire_fence_fd = fence;
            } in
            some (outcome zero_req ops code wants_fence r (ioctl r)))
    unfolding config config_locked config_ioctl
    config_reads between j' ts there same count id =
        rw (known, config) (rw l (rw (there, config_ioctl) (rw (same, count, id) refl)))

  -- rga_job_config gives the lock back before its ioctl reads the tasks of the job. When another
  -- thread cancels or submits the same handle in between, the ioctl reads freed memory. When it
  -- cancels another handle, or adds a task to this job, the driver is handed the tasks that the job
  -- had when it was locked.
  pub config_race :
      (s : Manager Req M) (h m code : ℕ) (ts : List Req) (fence : ℤ) (wants_fence cancelled : Bool)
      (ioctl answer : Request Req → Reply)
      → Inv zero_req ops s
      → tasks_of zero_req ops s h ≡ some ts
      → sync_mode_of m ≡ some code
      → let run = λ (between : Manager Req M → Manager Req M).
        config zero_req ops between s true h m fence wants_fence ioctl in
        let r : Request Req = record {
          tasks = ts;
          task_num = length ts;
          id = h;
          sync_mode = code;
          acquire_fence_fd = fence;
        } in
        let sent = some (outcome zero_req ops code wants_fence r (ioctl r)) in
        (run (λ t. (cancel zero_req ops t true h cancelled).0) ≡ none)
        × (run (λ t. (submit zero_req ops t true h m fence wants_fence answer).0) ≡ none)
        × ((k : ℕ) → k ≢ h → run (λ t. (cancel zero_req ops t true k cancelled).0) ≡ sent)
        × ((q : Req) → run (λ t. (add_task zero_req ops t h q).0) ≡ sent)
  config_race s h m code ts fence wants_fence cancelled ioctl answer v e known =
      let (p, j, found, at_p, id, same, count, l) = job_of_tasks zero_req ops s h ts v e in
      let reads = config_reads s h p m code j fence wants_fence ioctl known l in
      let faults = config_faults s h p m code j fence wants_fence ioctl known l in
      (
        faults _ (ground (arith, heap-cancel s h p p cancelled found)),
        faults _ (ground (arith, heap-submit s h p p m code j fence wants_fence answer known l)),
        λ k other.
            reads _ j ts (heap-cancel_other s h k p j cancelled v at_p id other) (sym same) count
              id,
        λ q.
            let (j', there, kept) = heap-add_task s h p q j at_p l in
            reads _ j' ts there (kept ∙ sym same) count id,
      )

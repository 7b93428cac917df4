-- ===== src/Job/Tasks.antt =====
-- What becomes of the tasks of a job, from its creation to the request that the driver is handed.
use librga_rockchip.Base.{
  ℕ, zero, suc, ◌+◌, ◌≤◌, ◌<◌, ◌≡◌, ◌≢◌, refl, sym, ◌∙◌, ap, List, [], ◌∷◌, ◌++◌, none, some, Bool,
  true, false, arith, inl, inr, length, length-append, ◌==◌, ltb,
}
use mathlib.Core.List.{append-nil, append_assoc}
use librga_rockchip.Status.{success, illegal_param}
use librga_rockchip.Job.Defs.{
  JobMap, Job, Manager, create, add_task, store_task, lock_config, prefix, update, tasks_of,
  rga_task_num_max, add_job,
}
use librga_rockchip.Job.Invariant.{Inv, lock_config-cases, add_task-Inv}

module _ {ℓ} {A : Type ℓ} where
  pub prefix-update_ge :
      (f : ℕ → A) (n m : ℕ) (v : A) → n ≤ m → prefix (update f m v) n ≡ prefix f n
  prefix-update_ge f zero m v h = refl
  prefix-update_ge f (suc n) m v h =
      let e : (m == n) ≡ false = ground arith in rw (prefix-update_ge f n m v (omega arith), e)

  prefix-update : (f : ℕ → A) (n : ℕ) (v : A) → prefix (update f n v) (suc n) ≡ prefix f n ++ v ∷ []
  prefix-update f n v =
      let e : (n == n) ≡ true = ground arith in rw (prefix-update_ge f n n v (omega arith), e)

  length-prefix : (f : ℕ → A) (n : ℕ) → length (prefix f n) ≡ n
  length-prefix f zero = refl
  length-prefix f (suc n) = omega (arith, length-append (prefix f n) (f n ∷ []), length-prefix f n)

module _ {Req M : Type 0} (zero_req : Req) (ops : JobMap M) where
  open ops use {find_job}

  -- The job of a handle that has tasks.
  pub job_of_tasks :
      (s : Manager Req M) (h : ℕ) (ts : List Req)
      → Inv zero_req ops s
      → tasks_of zero_req ops s h ≡ some ts
      → (p : ℕ) × (j : Job Req) × (find_job s.job_map h ≡ some p)
        × (s.heap p ≡ some j)
        × (j.id ≡ h)
        × (ts ≡ prefix j.req j.task_count)
        × (j.task_count ≡ length ts)
        × (lock_config zero_req ops s h ≡ some (p, j))
  unfolding tasks_of
  job_of_tasks s h ts v e = elim (lock_config-cases zero_req ops s h v) [
    | inl (miss, l) ↦ absurd (cc (rw (l, tasks_of) at e))
    | inr (p, j, found, at_p, bound, id, l) ↦
        let same : ts ≡ prefix j.req j.task_count = ground (arith, l, e) in
        (
          p,
          j,
          found,
          at_p,
          id,
          same,
          omega (arith, ap length same, length-prefix j.req j.task_count),
          l,
        )
  ]

  -- A job that is just created has no task.
  pub create-tasks_of :
      (s : Manager Req M) (h p : ℕ) (cancelled : Bool)
      → find_job s.job_map h ≡ none
      → s.heap p ≡ none
      → tasks_of zero_req ops (create zero_req ops s true (some h) (some p) cancelled).0 h ≡ some []
  unfolding create add_job tasks_of lock_config
  create-tasks_of s h p cancelled missing fresh =
      rw (missing, create) (ground (arith, ops.find-insert s.job_map h p h missing))

  tasks_of_found :
      (s : Manager Req M) (k q : ℕ) (j : Job Req)
      → find_job s.job_map k ≡ some q
      → s.heap q ≡ some j
      → tasks_of zero_req ops s k ≡ some (prefix j.req j.task_count)
  unfolding tasks_of lock_config
  tasks_of_found s k q j found at_q = rw (found, tasks_of, lock_config) (rw (at_q, lock_config))

  pub tasks_of_missing :
      (s : Manager Req M) (k : ℕ) → find_job s.job_map k ≡ none → tasks_of zero_req ops s k ≡ none
  unfolding tasks_of lock_config
  tasks_of_missing s k missing = rw (missing, tasks_of, lock_config)

  -- The manager with one more task in the job at an address.
  abbrev stored : Manager Req M → Req → ℕ → Job Req → Manager Req M
  stored s r p j = record s {
    heap =
        update s.heap p
          (some (record j { req = update j.req j.task_count r; task_count = suc j.task_count }));
  }

  -- Jobs of other handles stand at other addresses.
  apart :
      (s : Manager Req M) (h k p q : ℕ)
      → Inv zero_req ops s
      → find_job s.job_map h ≡ some p
      → find_job s.job_map k ≡ some q
      → k ≢ h
      → (p == q) ≡ false
  apart s h k p q v found found' other =
      let (j, at_p, id, bound) = v.owned h p found in
      let (j', at_q, id', bound') = v.owned k q found' in ground arith

  tasks_of-stored_ne :
      (s : Manager Req M) (r : Req) (h p : ℕ) (j : Job Req)
      → Inv zero_req ops s
      → find_job s.job_map h ≡ some p
      → (k : ℕ) → k ≢ h
      → tasks_of zero_req ops (stored s r p j) k ≡ tasks_of zero_req ops s k
  tasks_of-stored_ne s r h p j v found k other = elim (lock_config-cases zero_req ops s k v) [
    | inl (missing, l) ↦
        tasks_of_missing (stored s r p j) k missing ∙ sym (tasks_of_missing s k missing)
    | inr (q, j', found', at_q, bound, id, l) ↦
        tasks_of_found (stored s r p j) k q j' found'
          (rw (apart s h k p q v found found' other) at_q)
        ∙ sym (tasks_of_found s k q j' found' at_q)
  ]

  -- While there is room a task goes to the end of its job, and no other job changes.
  pub tasks_of-add_task :
      (s : Manager Req M) (h : ℕ) (r : Req) (ts : List Req)
      → Inv zero_req ops s
      → tasks_of zero_req ops s h ≡ some ts
      → length ts < rga_task_num_max
      → let (t, status) = add_task zero_req ops s h r in
        (status ≡ success)
        × (tasks_of zero_req ops t h ≡ some (ts ++ r ∷ []))
        × ((k : ℕ) → k ≢ h → tasks_of zero_req ops t k ≡ tasks_of zero_req ops s k)
  unfolding add_task store_task
  tasks_of-add_task s h r ts v e room =
      let (p, j, found, at_p, id, same, count, l) = job_of_tasks s h ts v e in
      let free : ltb j.task_count rga_task_num_max ≡ true = ground arith in
      let own : (p == p) ≡ true = ground arith in
      rw (l, add_task)
        (rw (free, store_task)
          (
            refl,
            tasks_of_found (stored s r p j) h p
                  (record j { req = update j.req j.task_count r; task_count = suc j.task_count })
                  found (rw own)
                ∙ ap some (prefix-update j.req j.task_count r ∙ ap (λ us. us ++ r ∷ []) (sym same)),
            tasks_of-stored_ne s r h p j v found,
          ))

  -- A full job refuses a further task, and nothing changes.
  pub add_task_full :
      (s : Manager Req M) (h : ℕ) (r : Req) (ts : List Req)
      → Inv zero_req ops s
      → tasks_of zero_req ops s h ≡ some ts
      → rga_task_num_max ≤ length ts
      → add_task zero_req ops s h r ≡ (s, illegal_param)
  unfolding add_task store_task
  add_task_full s h r ts v e full =
      let (p, j, found, at_p, id, same, count, l) = job_of_tasks s h ts v e in
      let none_free : ltb j.task_count rga_task_num_max ≡ false = ground arith in
      rw (l, add_task) (rw (none_free, store_task))

  -- The tasks added one after the other.
  pub add_tasks : Manager Req M → ℕ → List Req → Manager Req M
  add_tasks s h [] = s
  add_tasks s h (r ∷ rs) = add_tasks (add_task zero_req ops s h r).0 h rs

  pub tasks_of-add_tasks :
      (s : Manager Req M) (h : ℕ) (rs ts : List Req)
      → Inv zero_req ops s
      → tasks_of zero_req ops s h ≡ some ts
      → length ts + length rs ≤ rga_task_num_max
      → (tasks_of zero_req ops (add_tasks s h rs) h ≡ some (ts ++ rs))
        × Inv zero_req ops (add_tasks s h rs)
  unfolding add_tasks
  tasks_of-add_tasks s h [] ts v e room = (e ∙ ap some (sym (append-nil ts)), v)
  tasks_of-add_tasks s h (r ∷ rs) ts v e room =
      let (status, e', others) = tasks_of-add_task s h r ts v e (omega arith) in
      let (e'', v'') =
        tasks_of-add_tasks (add_task zero_req ops s h r).0 h rs (ts ++ r ∷ [])
          (add_task-Inv zero_req ops s h r v) e' (omega (arith, length-append ts (r ∷ []))) in
      (e'' ∙ ap some (append_assoc ts (r ∷ []) rs), v'')

-- ===== src/Job/Invariant.antt =====
-- What holds of the job manager between two calls.
use librga_rockchip.Base.{
  ℕ, suc, ◌≤◌, ◌≡◌, refl, none, some, Bool, true, false, arith, ◌⊎◌, inl, inr, Option-cases,
  Bool-cases, ltb, ap, sym, ◌≢◌, ℕ_discrete,
}
use librga_rockchip.Base.Int.{ℤ, pos}
use librga_rockchip.Job.Defs.{
  JobMap, Job, Manager, Request, Reply, init, cancel, create, submit, add_task, dec, update,
  add_job, store_task, rga_task_num_max, lock_config, sync_mode_of,
}

module _ {Req M : Type 0} (zero_req : Req) (ops : JobMap M) where
  open ops use {find_job, size}

  -- The counter is the number of handles; each handle's pointer leads to its own live job, within
  -- the bound on tasks; and every live job is reached by its handle, so none leaks.
  pub record Inv (s : Manager Req M) : Type 0 where
    pub counted : s.job_count ≡ pos (size s.job_map)
    pub owned :
        (h p : ℕ)
        → find_job s.job_map h ≡ some p
        → (j : Job Req) × (s.heap p ≡ some j) × (j.id ≡ h) × (j.task_count ≤ rga_task_num_max)
    pub reached : (p : ℕ) (j : Job Req) → s.heap p ≡ some j → find_job s.job_map j.id ≡ some p

  pub init-Inv : Inv (init zero_req ops)
  unfolding init
  init-Inv = record {
    counted = ap pos (sym ops.size-empty);
    owned = λ h p e. cc (ops.find-empty h);
    reached = λ p j e. cc;
  }

  -- A handle leaves: the map and the heap lose its job, and the counter falls.
  module _ (s : Manager Req M) (handle p : ℕ) (found : find_job s.job_map handle ≡ some p)
      (v : Inv s) where
    abbrev without : Manager Req M
    without = record s {
      job_map = ops.delete_job s.job_map handle;
      job_count = dec s.job_count;
      heap = update s.heap p none;
    }

    kept :
        (h q : ℕ)
        → find_job without.job_map h ≡ some q
        → (find_job s.job_map h ≡ some q) × (h ≢ handle)
    kept h q e = ground (arith, ops.find-delete s.job_map handle h)

    without-Inv : Inv without
    without-Inv = record {
      counted = ground (arith, v.counted, ops.size-delete s.job_map handle p found);
      owned = λ h q e.
          let (e', ne) = kept h q e in
          let (j, at_q, same, bound) = v.owned h q e' in
          let (j', at_p, same', bound') = v.owned handle p found in (j, ground arith, same, bound);
      reached = λ q j e. ground (arith, ops.find-delete s.job_map handle j.id, v.reached q j);
    }

  -- A new handle arrives, with memory that was not in use.
  module _ (s : Manager Req M) (handle p : ℕ) (missing : find_job s.job_map handle ≡ none)
      (fresh : s.heap p ≡ none) (v : Inv s) where
    abbrev added : Manager Req M
    unfolding add_job
    added = add_job zero_req ops s handle p

    added-Inv : Inv added
    unfolding add_job
    added-Inv = record {
      counted = ground (arith, v.counted, ops.size-insert s.job_map handle p missing);
      owned = λ h q e. elim (ℕ_discrete handle h) [
        | yes same ↦ (
          record { req = λ i. zero_req; task_count = 0; id = handle },
          ground (arith, ops.find-insert s.job_map handle p h missing),
          same,
          omega arith,
        )
        | no other ↦
            let e' : find_job s.job_map h ≡ some q =
              ground (arith, ops.find-insert s.job_map handle p h missing) in
            let (j, at_q, id, bound) = v.owned h q e' in (j, ground arith, id, bound)
      ];
      reached =
          λ q j e. ground (arith, ops.find-insert s.job_map handle p j.id missing, v.reached q j);
    }

  pub lock_config-cases :
      (s : Manager Req M) (handle : ℕ)
      → Inv s
      → ((find_job s.job_map handle ≡ none) × (lock_config zero_req ops s handle ≡ none))
        ⊎ ((p : ℕ) × (j : Job Req) × (find_job s.job_map handle ≡ some p)
            × (s.heap p ≡ some j)
            × (j.task_count ≤ rga_task_num_max)
            × (j.id ≡ handle)
            × (lock_config zero_req ops s handle ≡ some (p, j)))
  unfolding lock_config
  lock_config-cases s handle v = elim (Option-cases (find_job s.job_map handle)) [
    | inl e ↦ inl (e, rw (e, lock_config))
    | inr (p, e) ↦
        let (j, at_p, id, bound) = v.owned handle p e in
        inr (p, j, e, at_p, bound, id, rw (e, lock_config) (rw (at_p, lock_config)))
  ]

  -- A task that is written into a job of the map.
  pub add_task-Inv :
      (s : Manager Req M) (handle : ℕ) (r : Req) → Inv s → Inv (add_task zero_req ops s handle r).0
  unfolding add_task
  add_task-Inv s handle r v = elim (lock_config-cases s handle v) [
    | inl (e, l) ↦ rw (l, add_task) v
    | inr (p, j, e, at_p, bound, id, l) ↦ rw (l, add_task) (stored p j at_p bound)
  ]
    where
      stored :
          (p : ℕ) (j : Job Req)
          → s.heap p ≡ some j
          → j.task_count ≤ rga_task_num_max
          → Inv (store_task zero_req ops s r (some (p, j))).0
      stored p j at_p bound = elim (Bool-cases (ltb j.task_count rga_task_num_max)) [
        | inr full ↦ rw (full, store_task) v
        | inl room ↦
            rw (room, store_task)
              (record {
                counted = v.counted;
                owned = λ h q e.
                    let (j', at_q, same, bound') = v.owned h q e in
                    elim (ℕ_discrete p q) [
                      | yes here ↦ (
                        record j {
                          req = update j.req j.task_count r;
                          task_count = suc j.task_count;
                        },
                        ground arith,
                        ground arith,
                        ground arith,
                      )
                      | no apart ↦ (j', ground arith, same, bound')
                    ];
                reached = λ q j' e. ground (arith, v.reached p j, v.reached q j');
              })
      ]

  -- A call of submit either leaves the manager alone or takes the handle's job out.
  submit_effect :
      (s : Manager Req M) (session : Bool) (handle sync_mode : ℕ) (fence : ℤ) (wants_fence : Bool)
      (ioctl : Request Req → Reply)
      → Inv s
      → let t = (submit zero_req ops s session handle sync_mode fence wants_fence ioctl).0 in
        (t ≡ s)
        ⊎ ((p : ℕ) × (find_job s.job_map handle ≡ some p)
            × (t ≡ record s {
              job_map = ops.delete_job s.job_map handle;
              job_count = dec s.job_count;
              heap = update s.heap p none;
            }))
  unfolding submit
  submit_effect s false handle sync_mode fence wants_fence ioctl v = inl refl
  submit_effect s true handle sync_mode fence wants_fence ioctl v =
      elim (Option-cases (sync_mode_of sync_mode)) [
        | inl e ↦ inl (rw (e, submit))
        | inr (mode, e) ↦ elim (lock_config-cases s handle v) [
          | inl (e', l) ↦ inl (rw (e, l, submit))
          | inr (p, j, e', at_p, bound, id, l) ↦ inr (p, e', rw (e, l, submit))
        ]
      ]

  pub submit-Inv :
      (s : Manager Req M) (session : Bool) (handle sync_mode : ℕ) (fence : ℤ) (wants_fence : Bool)
      (ioctl : Request Req → Reply)
      → Inv s
      → Inv (submit zero_req ops s session handle sync_mode fence wants_fence ioctl).0
  submit-Inv s session handle sync_mode fence wants_fence ioctl v =
      elim (submit_effect s session handle sync_mode fence wants_fence ioctl v) [
        | inl same ↦ rw same v
        | inr (p, e, out) ↦ rw out (without-Inv s handle p e v)
      ]

  -- A call of cancel for a handle of the map.
  pub cancel-Inv :
      (s : Manager Req M) (session : Bool) (handle p : ℕ) (cancelled : Bool)
      → find_job s.job_map handle ≡ some p
      → Inv s
      → Inv (cancel zero_req ops s session handle cancelled).0
  unfolding cancel
  cancel-Inv s false handle p cancelled found v = v
  cancel-Inv s true handle p cancelled found v = rw (found, cancel) (without-Inv s handle p found v)

  -- The driver hands out a handle that is not in use and malloc gives memory that is not in use.
  pub create-Inv :
      (s : Manager Req M) (session : Bool) (handle p : ℕ) (cancelled : Bool)
      → find_job s.job_map handle ≡ none
      → s.heap p ≡ none
      → Inv s
      → Inv (create zero_req ops s session (some handle) (some p) cancelled).0
  unfolding create add_job
  create-Inv s false handle p cancelled missing fresh v = v
  create-Inv s true handle p cancelled missing fresh v =
      rw (missing, create) (added-Inv s handle p missing fresh v)

-- ===== src/Job/Counter.antt =====
-- The counter of the job manager, which rga_job_cancel also lowers for a handle without a job: the
-- calls do the same to a manager whose counter is another one.
use librga_rockchip.Base.{
  ℕ, zero, suc, ◌≡◌, refl, sym, ap, ◌∙◌, none, some, Bool, true, false, inl, inr, Option-cases,
  Bool-cases, ltb,
}
use librga_rockchip.Base.Int.{ℤ, pos, negsuc}
use librga_rockchip.Job.Defs.{
  JobMap, Manager, Request, Reply, cancel, create, submit, add_task, store_task, add_job, inc, dec,
  lock_config, sync_mode_of, rga_task_num_max,
}

-- A counter with the calls that lowered it for no job added back.
abbrev pub made_up : ℕ → ℤ → ℤ
made_up zero c = c
made_up (suc m) c = inc (made_up m c)

inc-dec : (c : ℤ) → inc (dec c) ≡ c
inc-dec (pos zero) = refl
inc-dec (pos (suc n)) = refl
inc-dec (negsuc n) = refl

dec-inc : (c : ℤ) → dec (inc c) ≡ c
dec-inc (pos n) = refl
dec-inc (negsuc zero) = refl
dec-inc (negsuc (suc n)) = refl

pub made_up-dec : (m : ℕ) (c : ℤ) → made_up m (dec c) ≡ dec (made_up m c)
made_up-dec zero c = refl
made_up-dec (suc m) c =
    ap inc (made_up-dec m c) ∙ inc-dec (made_up m c) ∙ sym (dec-inc (made_up m c))

pub made_up-inc : (m : ℕ) (c : ℤ) → made_up m (inc c) ≡ inc (made_up m c)
made_up-inc zero c = refl
made_up-inc (suc m) c = ap inc (made_up-inc m c)

module _ {Req M : Type 0} (zero_req : Req) (ops : JobMap M) where
  open ops use {find_job}

  -- The manager with its counter made up for `m` calls.
  abbrev pub corrected : ℕ → Manager Req M → Manager Req M
  corrected m s = record s { job_count = made_up m s.job_count }

  pub cancel-corrected :
      (m : ℕ) (s : Manager Req M) (session : Bool) (handle p : ℕ) (cancelled : Bool)
      → find_job s.job_map handle ≡ some p
      → (cancel zero_req ops (corrected m s) session handle cancelled).0
        ≡ corrected m (cancel zero_req ops s session handle cancelled).0
  unfolding cancel
  cancel-corrected m s false handle p cancelled found = refl
  cancel-corrected m s true handle p cancelled found =
      rw (found, cancel, made_up-dec m s.job_count) refl

  -- A cancel for no job lowers the counter, and nothing else.
  pub cancel-corrected_missing :
      (m : ℕ) (s : Manager Req M) (handle : ℕ) (cancelled : Bool)
      → find_job s.job_map handle ≡ none
      → corrected (suc m) (cancel zero_req ops s true handle cancelled).0 ≡ corrected m s
  unfolding cancel
  cancel-corrected_missing m s handle cancelled missing =
      rw (missing, cancel, made_up-dec m s.job_count, inc-dec (made_up m s.job_count)) refl

  pub create-corrected :
      (m : ℕ) (s : Manager Req M) (handle p : ℕ) (cancelled : Bool)
      → find_job s.job_map handle ≡ none
      → (create zero_req ops (corrected m s) true (some handle) (some p) cancelled).0
        ≡ corrected m (create zero_req ops s true (some handle) (some p) cancelled).0
  unfolding create add_job
  create-corrected m s handle p cancelled missing =
      rw (missing, create, add_job, made_up-inc m s.job_count) refl

  pub submit-corrected :
      (m : ℕ) (s : Manager Req M) (session : Bool) (handle sync_mode : ℕ) (fence : ℤ)
      (wants_fence : Bool) (ioctl : Request Req → Reply)
      → (submit zero_req ops (corrected m s) session handle sync_mode fence wants_fence ioctl).0
        ≡ corrected m (submit zero_req ops s session handle sync_mode fence wants_fence ioctl).0
  unfolding submit lock_config
  submit-corrected m s false handle sync_mode fence wants_fence ioctl = refl
  submit-corrected m s true handle sync_mode fence wants_fence ioctl =
      elim (Option-cases (sync_mode_of sync_mode)) [
        | inl e ↦ rw (e, submit) refl
        | inr (mode, e) ↦ elim (Option-cases (lock_config zero_req ops s handle)) [
          | inl l ↦ rw (e, submit) (rw l refl)
          | inr (pj, l) ↦ rw (e, submit) (rw (l, made_up-dec m s.job_count) refl)
        ]
      ]

  pub add_task-corrected :
      (m : ℕ) (s : Manager Req M) (handle : ℕ) (r : Req)
      → (add_task zero_req ops (corrected m s) handle r).0
        ≡ corrected m (add_task zero_req ops s handle r).0
  unfolding add_task store_task lock_config
  add_task-corrected m s handle r = elim (Option-cases (lock_config zero_req ops s handle)) [
    | inl l ↦ rw l refl
    | inr ((p, j), l) ↦ elim (Bool-cases (ltb j.task_count rga_task_num_max)) [
      | inl room ↦ rw l (rw (room, store_task) refl)
      | inr full ↦ rw l (rw (full, store_task) refl)
    ]
  ]

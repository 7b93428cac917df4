-- ===== src/Job/Reach.antt =====
-- The managers that calls of the library reach.
use librga_rockchip.Base.{
  ℕ, suc, ◌≡◌, refl, sym, Option, none, some, Bool, true, false, inl, inr, Option-cases,
  if◌then◌else◌,
}
use librga_rockchip.Base.Int.{ℤ}
use librga_rockchip.Job.Defs.{
  JobMap, Manager, Request, Reply, init, cancel, create, submit, add_task,
}
use librga_rockchip.Job.Invariant.{Inv, init-Inv, cancel-Inv, create-Inv, submit-Inv, add_task-Inv}
use librga_rockchip.Job.Counter.{
  corrected, cancel-corrected, cancel-corrected_missing, create-corrected, submit-corrected,
  add_task-corrected,
}

module _ {Req M : Type 0} (zero_req : Req) (ops : JobMap M) where
  open ops use {find_job}

  -- A cancel, with a session, of a handle that has no job.
  abbrev pub cancel_misses : Manager Req M → Bool → ℕ → Bool
  cancel_misses s session handle =
      if session then elim (find_job s.job_map handle) [ none ↦ true | some p ↦ false ] else false

  -- A create whose new handle has no job and gets no memory, so that it cancels the handle.
  abbrev pub create_misses : Manager Req M → Bool → Option ℕ → Option ℕ → Bool
  create_misses s session none malloc = false
  create_misses s session (some handle) none = cancel_misses s session handle
  create_misses s session (some handle) (some p) = false

  -- One call, which misses or not, and takes `s` to the manager. What malloc gives is not in use.
  -- rga_job_config leaves the manager alone.
  pub data Call (s : Manager Req M) : Bool → Manager Req M → Type 0 where
    creates :
        (session : Bool) (reply malloc : Option ℕ) (cancelled : Bool) {b : Bool} {t : Manager Req M}
        → ((p : ℕ) → malloc ≡ some p → s.heap p ≡ none)
        → b ≡ create_misses s session reply malloc
        → t ≡ (create zero_req ops s session reply malloc cancelled).0
        → Call s b t
    cancels :
        (session : Bool) (handle : ℕ) (cancelled : Bool) {b : Bool} {t : Manager Req M}
        → b ≡ cancel_misses s session handle
        → t ≡ (cancel zero_req ops s session handle cancelled).0
        → Call s b t
    submits :
        (session : Bool) (handle sync_mode : ℕ) (fence : ℤ) (wants_fence : Bool)
        (ioctl : Request Req → Reply) {t : Manager Req M}
        → t ≡ (submit zero_req ops s session handle sync_mode fence wants_fence ioctl).0
        → Call s false t
    adds :
        (handle : ℕ) (r : Req) {t : Manager Req M}
        → t ≡ (add_task zero_req ops s handle r).0
        → Call s false t

  abbrev pub misses_after : Bool → ℕ → ℕ
  misses_after true m = suc m
  misses_after false m = m

  -- Reached by calls of which that many missed.
  pub data Reach : ℕ → Manager Req M → Type 0 where
    start : {s : Manager Req M} → s ≡ init zero_req ops → Reach 0 s
    call :
        {m : ℕ} {b : Bool} {s t : Manager Req M}
        → Reach m s
        → Call s b t
        → Reach (misses_after b m) t

  -- The invariant, but for a counter that is too low by the number.
  abbrev pub Short : ℕ → Manager Req M → Type 0
  Short m s = Inv zero_req ops (corrected zero_req ops m s)

  cancel_idle :
      (s : Manager Req M) (handle : ℕ) (cancelled : Bool)
      → (cancel zero_req ops s false handle cancelled).0 ≡ s
  unfolding cancel
  cancel_idle s handle cancelled = refl

  cancel_step :
      (m : ℕ) (s : Manager Req M) (session : Bool) (handle : ℕ) (cancelled : Bool)
      → Short m s
      → Short
          (misses_after (cancel_misses s session handle) m)
          (cancel zero_req ops s session handle cancelled).0
  cancel_step m s false handle cancelled v = rw (cancel_idle s handle cancelled) v
  cancel_step m s true handle cancelled v = elim (Option-cases (find_job s.job_map handle)) [
    | inl missing ↦
        rw (missing, cancel-corrected_missing zero_req ops m s handle cancelled missing) v
    | inr (p, found) ↦
        let same = cancel-corrected zero_req ops m s true handle p cancelled found in
        rw (found, sym same)
          (cancel-Inv zero_req ops (corrected zero_req ops m s) true handle p cancelled found v)
  ]

  create_step :
      (m : ℕ) (s : Manager Req M) (session : Bool) (reply malloc : Option ℕ) (cancelled : Bool)
      → ((p : ℕ) → malloc ≡ some p → s.heap p ≡ none)
      → Short m s
      → Short
          (misses_after (create_misses s session reply malloc) m)
          (create zero_req ops s session reply malloc cancelled).0
  unfolding create
  create_step m s false none malloc cancelled fresh v = v
  create_step m s false (some h) none cancelled fresh v = v
  create_step m s false (some h) (some p) cancelled fresh v = v
  create_step m s true none malloc cancelled fresh v = v
  create_step m s true (some h) none cancelled fresh v =
      elim (Option-cases (find_job s.job_map h)) [
        | inl missing ↦ rw missing (rw missing at (cancel_step m s true h cancelled v))
        | inr (q, found) ↦ rw found (rw found at (cancel_step m s true h cancelled v))
      ]
  create_step m s true (some h) (some p) cancelled fresh v =
      elim (Option-cases (find_job s.job_map h)) [
        | inl missing ↦
            let same = create-corrected zero_req ops m s h p cancelled missing in
            let kept =
              create-Inv zero_req ops (corrected zero_req ops m s) true h p cancelled missing
                (fresh p refl) v in
            rw missing (rw missing at (rw same at kept))
        | inr (q, found) ↦ rw found (rw found at (cancel_step m s true h cancelled v))
      ]

  Call-Short :
      {s t : Manager Req M} {b : Bool} (m : ℕ) → Call s b t → Short m s → Short (misses_after b m) t
  Call-Short {s} m (creates session reply malloc cancelled fresh d e) v =
      rw (d, e) (create_step m s session reply malloc cancelled fresh v)
  Call-Short {s} m (cancels session handle cancelled d e) v =
      rw (d, e) (cancel_step m s session handle cancelled v)
  Call-Short {s} m (submits session handle sync_mode fence wants_fence ioctl e) v =
      let same =
        submit-corrected zero_req ops m s session handle sync_mode fence wants_fence ioctl in
      rw (e, sym same)
        (submit-Inv zero_req ops (corrected zero_req ops m s) session handle sync_mode fence
          wants_fence ioctl v)
  Call-Short {s} m (adds handle r e) v =
      rw (e, sym (add_task-corrected zero_req ops m s handle r))
        (add_task-Inv zero_req ops (corrected zero_req ops m s) handle r v)

  -- After any calls of create, cancel, submit and the adding of tasks, in any order, for any handles
  -- and with any answers of the driver, malloc giving memory that is not in use or none: every
  -- handle leads to its own live job of at most 256 tasks, every live job has its handle, and the
  -- counter is the number of jobs less one for each cancel of a handle without a job, whether the
  -- program asked for it or a create that got no memory.
  pub Reach-Inv :
      {m : ℕ} {s : Manager Req M} → Reach m s → Inv zero_req ops (corrected zero_req ops m s)
  Reach-Inv (start e) = rw e (init-Inv zero_req ops)
  Reach-Inv (call {m} r c) = Call-Short m c (Reach-Inv r)

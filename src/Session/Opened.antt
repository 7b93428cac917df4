-- ===== src/Session/Opened.antt =====
-- What a session that is newly set up knows of the hardware.
use librga_rockchip.Base.{
  ℕ, ◌≡◌, ◌≢◌, refl, ◌∙◌, subst, inl, inr, ◌↔◌, List, [], ◌∷◌, some, Bool, arith,
}
use librga_rockchip.Base.Int.{ℤ, pos, ◌≤ℤ◌}
use librga_rockchip.Status.{Status, success, failed, noerror, no_session, status_code}
use librga_rockchip.Version.{Version}
use librga_rockchip.Hardware.{InfoEntry}
use librga_rockchip.Hardware.Info.{rga_get_info}
use librga_rockchip.Hardware.Limits.{Sane, zero_table, rga_get_info-Sane}
use librga_rockchip.Check.{Buffer, Rect}
use librga_rockchip.Check.Whole.{rga_check}
use librga_rockchip.Check.Scale.{ExactQuotients}
use librga_rockchip.Check.Sound.{OperationFits, Ints, check_all_iff}
use librga_rockchip.Session.{Session, Answers}
use librga_rockchip.Session.Hold.{rga_device_init-Outcome, set_up}
use librga_rockchip.Session.Device.{
  rga_device_init, load_info, rga_session_init, session_reply, get_rga_session,
}

pub load_info_success :
    (r : Session × Status)
    → r.1 ≡ success
    → load_info r ≡ (
      record r.0 { hardware_info = (rga_get_info r.0.core_version r.0.hardware_info).1 },
      (rga_get_info r.0.core_version r.0.hardware_info).0,
    )
unfolding load_info status_code
load_info_success (s, success) e = refl
load_info_success (s, status) e = absurd (ground arith)

load_info_failed : (r : Session × Status) → r.1 ≡ failed → load_info r ≡ (r.0, failed)
unfolding load_info status_code
load_info_failed (s, failed) e = refl
load_info_failed (s, status) e = absurd (ground arith)

session_reply_table :
    (s : Session) (status : Status) (t : InfoEntry)
    → (session_reply (s, status)).1 ≡ inr t
    → (status ≡ success) × (s.hardware_info ≡ t)
unfolding session_reply status_code
session_reply_table s success t h = (refl, ground arith)
session_reply_table s status t h = absurd (ground arith)

pub session_reply_error :
    (s : Session) (status : Status)
    → status ≢ success
    → session_reply (s, status) ≡ (s, inl no_session)
unfolding session_reply status_code
session_reply_error s success n = absurd (n refl)
session_reply_error s _ n = refl

info_Sane :
    (cores : List Version) (table : InfoEntry)
    → cores ≢ []
    → table ≡ zero_table
    → (rga_get_info cores table).0 ≡ success
    → Sane (rga_get_info cores table).1
info_Sane [] table n z h = absurd (n refl)
info_Sane (v ∷ vs) table n z h = rw z (rga_get_info-Sane v vs (rw z at h))

module _ (scan : List ℕ → Version → Version) where
  loaded-Sane :
      (r : Session × Status) (t : InfoEntry)
      → r.1 ≡ success
      → r.0.core_version ≢ []
      → r.0.hardware_info ≡ zero_table
      → (session_reply (load_info r)).1 ≡ inr t
      → Sane t
  loaded-Sane r t e n z h =
      let (answer, table) = session_reply_table _ _ t (rw (load_info_success r e) at h) in
      subst Sane table (info_Sane r.0.core_version r.0.hardware_info n z answer)

  -- A device that is not set up gives no session.
  pub failed-no_session :
      (r : Session × Status) → r.1 ≡ failed → session_reply (load_info r) ≡ (r.0, inl no_session)
  failed-no_session r e =
      rw (load_info_failed r e) (session_reply_error r.0 failed (λ f. ground arith))

  -- The table of a session that is newly set up, from a table of zeros and for at least one core, is
  -- within the limits.
  pub get_rga_session-Sane :
      (s : Session) (a : Answers) (t : InfoEntry)
      → s.hardware_info ≡ zero_table
      → s.rga_dev_fd ≤ℤ pos 0
      → a.get_hw_version ≢ some []
      → (get_rga_session scan s a).1 ≡ inr t
      → Sane t
  unfolding rga_session_init
  get_rga_session-Sane s a t z low n h =
      let r = rga_device_init scan s a in
      let h' : (session_reply (load_info r)).1 ≡ inr t =
        (rw (set_up scan s a (ground arith)) at h) in
      let (keeps, outcome) = rga_device_init-Outcome scan s a n in
      elim outcome [
        | inl (e, fd, cores) ↦ loaded-Sane r t e cores (keeps ∙ z) h'
        | inr (e, fd) ↦ absurd (ground (arith, rw (failed-no_session r e) at h'))
      ]

  -- When a new session is there, its table of the hardware decides the checks: rga_check passes
  -- exactly when that hardware can do the operation, for a session from a table of zeros and at
  -- least one core, coordinates in the range of int and exact quotients.
  pub rga_check-get_rga_session :
      (linux : Bool) (exceeds : ℤ → ℤ → ℕ → Bool) (s : Session) (a : Answers) (t : InfoEntry)
      → (src dst pat : Buffer) (src_rect dst_rect pat_rect : Rect) (mode : ℕ)
      → s.hardware_info ≡ zero_table
      → s.rga_dev_fd ≤ℤ pos 0
      → a.get_hw_version ≢ some []
      → (get_rga_session scan s a).1 ≡ inr t
      → ExactQuotients exceeds
      → Ints linux exceeds src dst pat src_rect dst_rect pat_rect
      → (rga_check linux exceeds
            (get_rga_session scan s a).1
            src
            dst
            pat
            src_rect
            dst_rect
            pat_rect
            mode
          ≡ noerror)
        ↔ OperationFits linux exceeds t src dst pat src_rect dst_rect pat_rect mode
  unfolding rga_check
  rga_check-get_rga_session linux exceeds s a t src dst pat src_rect dst_rect pat_rect mode z low n
        h law ints =
      rw h (
        check_all_iff linux exceeds t src dst pat src_rect dst_rect pat_rect mode law
          (get_rga_session-Sane s a t z low n h) ints)

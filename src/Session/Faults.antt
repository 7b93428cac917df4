-- ===== src/Session/Faults.antt =====
-- Two faults of get_rga_session: a session whose hardware is not known, and a file with the number 0.
use librga_rockchip.Base.{
  ℕ, ◌≡◌, ◌≢◌, refl, sym, ap, ◌∙◌, inl, inr, List, [], some, true, false, arith,
}
use librga_rockchip.Base.Int.{pos, ltb_ℤ, ◌<ℤ◌, ◌≤ℤ◌}
use librga_rockchip.Status.{Status, success, failed, no_session, status_code}
use librga_rockchip.Version.{Version}
use librga_rockchip.Hardware.Table.{rga_v_err_entry}
use librga_rockchip.Hardware.Info.{rga_get_info}
use librga_rockchip.Hardware.Compatible.{rga_get_info_failed}
use librga_rockchip.Session.{Session, Answers}
use librga_rockchip.Session.Hold.{rga_device_init-Outcome, held, set_up}
use librga_rockchip.Session.Opened.{load_info_success, session_reply_error, failed-no_session}
use librga_rockchip.Session.Device.{
  rga_device_init, load_info, rga_session_init, session_reply, get_rga_session,
}

load_keeps_file : (r : Session × Status) → (load_info r).0.rga_dev_fd ≡ r.0.rga_dev_fd
unfolding load_info status_code
load_keeps_file (s, success) = refl
load_keeps_file (s, status) = refl

reply_keeps_file : (r : Session × Status) → (session_reply r).0.rga_dev_fd ≡ r.0.rga_dev_fd
unfolding session_reply status_code
reply_keeps_file (s, success) = refl
reply_keeps_file (s, status) = refl

-- A device whose cores are not known is in the session all the same.
unknown_reply :
    (r : Session × Status)
    → r.1 ≡ success
    → (rga_get_info r.0.core_version r.0.hardware_info).0 ≢ success
    → session_reply (load_info r) ≡ (record r.0 { hardware_info = rga_v_err_entry }, inl no_session)
unknown_reply r e n =
    rw (load_info_success r e, rga_get_info_failed r.0.core_version r.0.hardware_info n)
      (session_reply_error (record r.0 { hardware_info = rga_v_err_entry }) failed
        (λ f. ground arith))

module _ (scan : List ℕ → Version → Version) where
  cannot_open :
      (s : Session) (a : Answers)
      → ltb_ℤ a.open_device (pos 0) ≡ true
      → rga_device_init scan s a ≡ (s, failed)
  unfolding rga_device_init
  cannot_open s a e = rw (e, rga_device_init) refl

  opened_file :
      (s : Session) (a : Answers)
      → a.get_hw_version ≢ some []
      → (rga_device_init scan s a).1 ≡ success
      → (rga_device_init scan s a).0.rga_dev_fd ≡ a.open_device
  opened_file s a n e = elim (rga_device_init-Outcome scan s a n).1 [
    | inl (f, fd, cores) ↦ fd
    | inr (f, fd) ↦ absurd (ground (arith, sym e ∙ f))
  ]

  still_low :
      (s : Session) (a : Answers)
      → s.rga_dev_fd ≤ℤ pos 0
      → a.open_device ≡ pos 0
      → a.get_hw_version ≢ some []
      → ltb_ℤ (pos 0) (get_rga_session scan s a).0.rga_dev_fd ≡ false
  unfolding rga_session_init
  still_low s a low zero n =
      let r = rga_device_init scan s a in
      let file = reply_keeps_file (load_info r) ∙ load_keeps_file r in
      rw (set_up scan s a (ground arith), file)
        (elim (rga_device_init-Outcome scan s a n).1 [
          | inl (f, fd, cores) ↦ ground arith
          | inr (f, fd) ↦ ground arith
        ])

  -- When the device is there but its cores are not known, the call gives no session, yet it leaves
  -- the file in the session: the next call gives a session all the same, with the empty row.
  pub get_rga_session_unknown :
      (s : Session) (a a' : Answers)
      → s.rga_dev_fd ≤ℤ pos 0
      → pos 0 <ℤ a.open_device
      → a.get_hw_version ≢ some []
      → (rga_device_init scan s a).1 ≡ success
      → (rga_get_info (rga_device_init scan s a).0.core_version s.hardware_info).0 ≢ success
      → ((get_rga_session scan s a).1 ≡ inl no_session)
        × ((get_rga_session scan (get_rga_session scan s a).0 a').1 ≡ inr rga_v_err_entry)
  unfolding rga_session_init
  get_rga_session_unknown s a a' low up n e unknown =
      let r = rga_device_init scan s a in
      let (keeps, outcome) = rga_device_init-Outcome scan s a n in
      let first : get_rga_session scan s a
          ≡ (record r.0 { hardware_info = rga_v_err_entry }, inl no_session) =
        set_up scan s a (ground arith)
        ∙ unknown_reply r e
            (λ f. unknown (sym (ap (λ t. (rga_get_info r.0.core_version t).0) keeps) ∙ f)) in
      let file : r.0.rga_dev_fd ≡ a.open_device = opened_file s a n e in
      (
        ap (λ x. x.1) first,
        rw first (
            ap (λ x. x.1)
              (held scan (record r.0 { hardware_info = rga_v_err_entry }) a' (ground arith))),
      )

  -- A file with the number 0 is not taken for a session: after a call that opens it, a call that
  -- cannot open the device again gives no session.
  pub get_rga_session_zero :
      (s : Session) (a a' : Answers)
      → s.rga_dev_fd ≤ℤ pos 0
      → a.open_device ≡ pos 0
      → a.get_hw_version ≢ some []
      → a'.open_device <ℤ pos 0
      → (get_rga_session scan (get_rga_session scan s a).0 a').1 ≡ inl no_session
  unfolding rga_session_init
  get_rga_session_zero s a a' low zero n fails =
      let t = (get_rga_session scan s a).0 in
      let closed : rga_device_init scan t a' ≡ (t, failed) = cannot_open t a' (ground arith) in
      rw (set_up scan t a' (still_low s a low zero n), closed)
        (ap (λ x. x.1) (failed-no_session scan (t, failed) refl))

-- ===== src/Session/Hold.antt =====
-- What setting up a session does to it.
use librga_rockchip.Base.{
  ℕ, ◌≡◌, ◌≢◌, refl, sym, ap, ◌∙◌, ◌⊎◌, inl, inr, List, [], ◌∷◌, Option, none, some, true, false,
  arith, Bool-cases,
}
use librga_rockchip.Base.Int.{ℤ, pos, ltb_ℤ}
use librga_rockchip.Status.{Status, success, failed, status_code}
use librga_rockchip.Version.{Version}
use librga_rockchip.Version.Shipped.{rga_check_driver_any}
use librga_rockchip.Hardware.{InfoEntry}
use librga_rockchip.Session.{Session, Answers, set_driver_feature}
use librga_rockchip.Session.Device.{
  rga_device_init, finish_device, old_device, multi_device, open_session, compatibility_mode,
  rga_session_init, session_reply, get_rga_session,
}

pub finish_device_lem :
    (s : Session) (fd : ℤ)
    → finish_device s fd ≡ (record (set_driver_feature s) { rga_dev_fd = fd }, success)
unfolding finish_device status_code
finish_device_lem s fd = rw (rga_check_driver_any s.driver_version) refl

feature_keeps : (s : Session) → (set_driver_feature s).hardware_info ≡ s.hardware_info
unfolding set_driver_feature
feature_keeps s = ground arith

feature_keeps_cores : (s : Session) → (set_driver_feature s).core_version ≡ s.core_version
unfolding set_driver_feature
feature_keeps_cores s = ground arith

-- A device that is set up has the file and its cores, one that is not leaves the session's file alone. Neither
-- touches the table of the hardware.
abbrev pub Outcome : InfoEntry → ℤ → ℤ → Session × Status → Type 0
Outcome info opened before (t, status) =
    (t.hardware_info ≡ info)
    × (((status ≡ success) × (t.rga_dev_fd ≡ opened) × (t.core_version ≢ []))
        ⊎ ((status ≡ failed) × (t.rga_dev_fd ≡ before)))

finish_device-Outcome :
    (s : Session) (opened before : ℤ)
    → s.core_version ≢ []
    → Outcome s.hardware_info opened before (finish_device s opened)
finish_device-Outcome s opened before n =
    rw (finish_device_lem s opened)
      (feature_keeps s, inl (refl, refl, λ e. n (sym (feature_keeps_cores s) ∙ e)))

multi_device-Outcome :
    (s : Session) (opened : ℤ) (cores : Option (List Version))
    → cores ≢ some []
    → Outcome s.hardware_info opened s.rga_dev_fd (multi_device s opened cores)
unfolding multi_device
multi_device-Outcome s opened none n = (refl, inr (refl, refl))
multi_device-Outcome s opened (some cores) n =
    finish_device-Outcome _ opened s.rga_dev_fd (λ e. n (ap some e))

cons_not_nil : (v : Version) (vs : List Version) → (v ∷ vs) ≢ []
cons_not_nil v vs e = ground arith

module _ (scan : List ℕ → Version → Version) where
  old_device-Outcome :
      (s : Session) (opened : ℤ) (rga2 rga1 : Option (List ℕ))
      → Outcome s.hardware_info opened s.rga_dev_fd (old_device scan s opened rga2 rga1)
  unfolding old_device compatibility_mode
  old_device-Outcome s opened (some str) rga1 =
      finish_device-Outcome _ opened s.rga_dev_fd (cons_not_nil _ _)
  old_device-Outcome s opened none (some str) =
      finish_device-Outcome _ opened s.rga_dev_fd (cons_not_nil _ _)
  old_device-Outcome s opened none none = (refl, inr (refl, refl))

  open_session-Outcome :
      (s : Session) (a : Answers) (driver : Option Version)
      → a.get_hw_version ≢ some []
      → Outcome s.hardware_info a.open_device s.rga_dev_fd (open_session scan s a driver)
  unfolding open_session
  open_session-Outcome s a (some driver) n =
      multi_device-Outcome (record s { driver_version = driver }) a.open_device a.get_hw_version n
  open_session-Outcome s a none n =
      old_device-Outcome s a.open_device a.rga2_get_version a.rga_get_version

  pub rga_device_init-Outcome :
      (s : Session) (a : Answers)
      → a.get_hw_version ≢ some []
      → Outcome s.hardware_info a.open_device s.rga_dev_fd (rga_device_init scan s a)
  unfolding rga_device_init
  rga_device_init-Outcome s a n = elim (Bool-cases (ltb_ℤ a.open_device (pos 0))) [
    | inl e ↦ rw (e, rga_device_init) (refl, inr (refl, refl))
    | inr e ↦ rw (e, rga_device_init) (open_session-Outcome s a a.get_driver_version n)
  ]

  pub held :
      (s : Session) (a : Answers)
      → ltb_ℤ (pos 0) s.rga_dev_fd ≡ true
      → get_rga_session scan s a ≡ (s, inr s.hardware_info)
  unfolding get_rga_session
  held s a e = rw (e, get_rga_session) refl

  pub set_up :
      (s : Session) (a : Answers)
      → ltb_ℤ (pos 0) s.rga_dev_fd ≡ false
      → get_rga_session scan s a ≡ session_reply (rga_session_init scan s a)
  unfolding get_rga_session
  set_up s a e = rw (e, get_rga_session) refl

  session_reply-table :
      (r : Session × Status) (t : InfoEntry)
      → (session_reply r).1 ≡ inr t
      → (session_reply r).0.hardware_info ≡ t
  unfolding session_reply status_code
  session_reply-table (s, success) t h = ground arith
  session_reply-table (s, status) t h = absurd (ground arith)

  -- A session that is given has the table that the callers see.
  pub reply_table :
      (s : Session) (a : Answers) (t : InfoEntry)
      → (get_rga_session scan s a).1 ≡ inr t
      → (get_rga_session scan s a).0.hardware_info ≡ t
  reply_table s a t h = elim (Bool-cases (ltb_ℤ (pos 0) s.rga_dev_fd)) [
    | inl e ↦ rw (held s a e) (ground (arith, rw (held s a e) at h))
    | inr e ↦
        rw (set_up s a e)
          (session_reply-table (rga_session_init scan s a) t (rw (set_up s a e) at h))
  ]

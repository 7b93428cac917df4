-- ===== src/Session/Stays.antt =====
-- A session that was set up, over the calls of get_rga_session that follow.
use librga_rockchip.Base.{ℕ, ◌≡◌, ◌≢◌, refl, inl, inr, ◌⊎◌, List, [], ◌∷◌, some, true, arith}
use librga_rockchip.Base.Int.{pos, ltb_ℤ, ◌≤ℤ◌, ◌<ℤ◌}
use librga_rockchip.Status.{Status}
use librga_rockchip.Version.{Version}
use librga_rockchip.Hardware.{InfoEntry}
use librga_rockchip.Session.{Session, Answers}
use librga_rockchip.Session.Device.{
  rga_device_init, load_info, rga_session_init, session_reply, get_rga_session,
}
use librga_rockchip.Session.Hold.{rga_device_init-Outcome, set_up, held, reply_table}
use librga_rockchip.Session.Opened.{load_info_success, failed-no_session}

reply_keeps : (s : Session) (status : Status) → (session_reply (s, status)).0 ≡ s
unfolding session_reply
reply_keeps s status = ground arith

-- Every call is given the table.
abbrev pub all_given : InfoEntry → List Answers → List (Status ⊎ InfoEntry)
all_given t [] = []
all_given t (a ∷ later) = inr t ∷ all_given t later

module _ (scan : List ℕ → Version → Version) where
  -- Calls one after the other, each with what the driver would answer, and their replies.
  abbrev pub calls : Session → List Answers → Session × List (Status ⊎ InfoEntry)
  calls s [] = (s, [])
  calls s (a ∷ later) =
      let (t, reply) = get_rga_session scan s a in
      let (u, replies) = calls t later in (u, reply ∷ replies)

  calls_held :
      (s : Session) (later : List Answers)
      → ltb_ℤ (pos 0) s.rga_dev_fd ≡ true
      → calls s later ≡ (s, all_given s.hardware_info later)
  calls_held s [] up = refl
  calls_held s (a ∷ later) up = rw (held scan s a up) (rw (calls_held s later up) refl)

  opened_file :
      (s : Session) (a : Answers) (t : InfoEntry)
      → s.rga_dev_fd ≤ℤ pos 0
      → a.get_hw_version ≢ some []
      → (get_rga_session scan s a).1 ≡ inr t
      → (get_rga_session scan s a).0.rga_dev_fd ≡ a.open_device
  unfolding rga_session_init
  opened_file s a t low n h =
      let r = rga_device_init scan s a in
      let new = set_up scan s a (ground arith) in
      let h' : (session_reply (load_info r)).1 ≡ inr t = (rw new at h) in
      let (keeps, outcome) = rga_device_init-Outcome scan s a n in
      elim outcome [
        | inl (e, fd, cores) ↦ rw new (rw (load_info_success r e, reply_keeps _ _) fd)
        | inr (e, fd) ↦ absurd (ground (arith, rw (failed-no_session scan r e) at h'))
      ]

  -- When the first call opens a file above 0 for a session without one and gives a table, for at
  -- least one core, the session holds that file, and every later call, whatever the driver would
  -- answer by then, gives the same table and leaves the session as it is.
  pub get_rga_session_stays :
      (s : Session) (a : Answers) (t : InfoEntry) (later : List Answers)
      → s.rga_dev_fd ≤ℤ pos 0
      → pos 0 <ℤ a.open_device
      → a.get_hw_version ≢ some []
      → (get_rga_session scan s a).1 ≡ inr t
      → ((get_rga_session scan s a).0.rga_dev_fd ≡ a.open_device)
        × (calls s (a ∷ later) ≡ ((get_rga_session scan s a).0, all_given t (a ∷ later)))
  get_rga_session_stays s a t later low up n h =
      let file = opened_file s a t low n h in
      let u = (get_rga_session scan s a).0 in
      let table = reply_table scan s a t h in
      let still : ltb_ℤ (pos 0) u.rga_dev_fd ≡ true = rw file (ground arith) in
      (file, rw (calls_held u later still, table, h) refl)

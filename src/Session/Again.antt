-- ===== src/Session/Again.antt =====
-- The features of the driver, and a session that is ended and set up again.
use librga_rockchip.Base.{
  ℕ, ◌≡◌, ◌≢◌, refl, inl, inr, ◌↔◌, List, [], some, Bool, true, false, arith, Bool-cases,
  if◌then◌else◌,
}
use librga_rockchip.Base.Int.{pos, ltb_ℤ, ◌≤ℤ◌}
use librga_rockchip.Base.Bits.{bit_or}
use librga_rockchip.Status.{success}
use librga_rockchip.Version.{Version, version, rga_version_compare}
use librga_rockchip.Version.Order.{◌≼◌, compare-ge}
use librga_rockchip.Hardware.{InfoEntry}
use librga_rockchip.Hardware.Limits.{Sane, zero_table}
use librga_rockchip.Session.{
  Session, Answers, set_driver_feature, user_close_fence, ioc_multi_rga, clear_driver_feature,
}
use librga_rockchip.Session.Device.{
  rga_device_init, open_session, multi_device, get_rga_session, rga_session_deinit, rga_device_exit,
}
use librga_rockchip.Session.Opened.{get_rga_session-Sane}
use librga_rockchip.Session.Hold.{finish_device_lem}

extended_iff :
    (s : Session) (c : Bool)
    → s.driver_feature ≡ 0
    → ((if c then s else record s {
      driver_feature = bit_or s.driver_feature user_close_fence;
    }).driver_feature
        ≡ user_close_fence)
      ↔ (c ≡ false)
extended_iff s true z = ground arith
extended_iff s false z = (λ h. refl, λ h. rw z refl)

set_driver_feature_iff :
    (s : Session)
    → s.driver_feature ≡ 0
    → ((set_driver_feature s).driver_feature ≡ user_close_fence)
      ↔ (version 1 3 0 [] ≼ s.driver_version)
unfolding set_driver_feature
set_driver_feature_iff s z = ground (
  arith,
  extended_iff s (ltb_ℤ (rga_version_compare s.driver_version (version 1 3 0 [])) (pos 0)) z,
  compare-ge s.driver_version (version 1 3 0 []),
)

-- The end of a session clears the table, and leaves a file that is not taken for a session.
ended :
    (s : Session)
    → ((rga_session_deinit s).hardware_info ≡ zero_table)
      × ((rga_session_deinit s).rga_dev_fd ≤ℤ pos 0)
unfolding rga_session_deinit rga_device_exit clear_driver_feature
ended s = elim (Bool-cases (ltb_ℤ s.rga_dev_fd (pos 0))) [
  | inl e ↦ rw (e, rga_session_deinit, rga_device_exit) (refl, ground arith)
  | inr e ↦ rw (e, rga_session_deinit, rga_device_exit) (refl, omega arith)
]

module _ (scan : List ℕ → Version → Version) where
  -- A driver that knows the versions of its cores is set up.
  pub rga_device_init_multi :
      (s : Session) (a : Answers) (driver : Version) (cores : List Version)
      → pos 0 ≤ℤ a.open_device
      → a.get_driver_version ≡ some driver
      → a.get_hw_version ≡ some cores
      → rga_device_init scan s a ≡ (
        record (set_driver_feature (record s {
          driver_version = driver;
          core_version = cores;
          driver_type = ioc_multi_rga;
        })) { rga_dev_fd = a.open_device },
        success,
      )
  unfolding rga_device_init open_session multi_device
  rga_device_init_multi s a driver cores up d c =
      let opened : ltb_ℤ a.open_device (pos 0) ≡ false = ground arith in
      rw (opened, rga_device_init, d, open_session, c, multi_device)
        (finish_device_lem _ a.open_device)

  -- A driver that knows the versions of its cores lets the user close fences exactly from version
  -- 1.3.0 on.
  pub rga_device_init_feature :
      (s : Session) (a : Answers) (driver : Version) (cores : List Version)
      → s.driver_feature ≡ 0
      → pos 0 ≤ℤ a.open_device
      → a.get_driver_version ≡ some driver
      → a.get_hw_version ≡ some cores
      → ((rga_device_init scan s a).0.driver_feature ≡ user_close_fence)
        ↔ (version 1 3 0 [] ≼ driver)
  rga_device_init_feature s a driver cores z up d c =
      rw (rga_device_init_multi s a driver cores up d c) (set_driver_feature_iff _ z)

  -- A session that is ended and set up again, for at least one core, has a table within the limits.
  pub get_rga_session-rga_session_deinit :
      (s : Session) (a : Answers) (t : InfoEntry)
      → a.get_hw_version ≢ some []
      → (get_rga_session scan (rga_session_deinit s) a).1 ≡ inr t
      → Sane t
  get_rga_session-rga_session_deinit s a t n h =
      get_rga_session-Sane scan (rga_session_deinit s) a t (ended s).0 (ended s).1 n h

-- ===== src/Session/Device.antt =====
-- Setting up and ending a session. `scan` is sscanf with the pattern "%x.%x.%x" on a text, which
-- writes the numbers that it finds into a version.
use librga_rockchip.Base.{
  ℕ, List, [], ◌∷◌, Option, none, some, Bool, ltb, ◌⊎◌, inl, inr, if◌then◌else◌,
}
use librga_rockchip.Base.Int.{ℤ, pos, negsuc, ltb_ℤ, eqb_ℤ}
use librga_rockchip.Status.{Status, success, failed, error_version, no_session, status_code}
use librga_rockchip.Version.{Version, version, rga_check_driver}
use librga_rockchip.Hardware.{InfoEntry}
use librga_rockchip.Hardware.Info.{rga_get_info}
use librga_rockchip.Hardware.Limits.{zero_table}
use librga_rockchip.Session.{
  Session, Answers, ioc_unknown, ioc_rga1, ioc_rga2, ioc_multi_rga, set_driver_feature,
  clear_driver_feature,
}

-- core_version.version[0]
abbrev pub first_core : List Version → Version
first_core [] = version 0 0 0 []
first_core (v ∷ vs) = v

abbrev pub is_status : Status → Status → Bool
is_status s t = eqb_ℤ (status_code s) (status_code t)

-- From the check of the driver on.
unfoldable pub finish_device : Session → ℤ → Session × Status
unfolding set_driver_feature
finish_device s fd =
    if is_status (rga_check_driver s.driver_version) error_version
    then (s, error_version)
    else (record (set_driver_feature s) { rga_dev_fd = fd }, success)

-- The numbers of the text, and the type of the driver by the first of them.
unfoldable pub compatibility_mode : (List ℕ → Version → Version) → Session → List ℕ → Session
compatibility_mode scan s str =
    let read = scan str (record (first_core s.core_version) { str = str }) in
    record s {
      core_version = record read { str = str } ∷ [];
      driver_type = if ltb read.major 2 then ioc_rga1 else ioc_rga2;
    }

-- The older drivers: RGA2_GET_VERSION, else RGA_GET_VERSION.
unfoldable pub old_device :
    (List ℕ → Version → Version)
    → Session
    → ℤ
    → Option (List ℕ)
    → Option (List ℕ)
    → Session × Status
unfolding compatibility_mode finish_device
old_device scan s fd (some str) rga1 = finish_device (compatibility_mode scan s str) fd
old_device scan s fd none (some str) = finish_device (compatibility_mode scan s str) fd
old_device scan s fd none none =
    (record s { core_version = first_core s.core_version ∷ [] }, failed)

-- The driver for several cores, whose version is known.
unfoldable pub multi_device : Session → ℤ → Option (List Version) → Session × Status
unfolding finish_device
multi_device s fd none = (s, failed)
multi_device s fd (some cores) =
    finish_device (record s { core_version = cores; driver_type = ioc_multi_rga }) fd

unfoldable pub open_session :
    (List ℕ → Version → Version) → Session → Answers → Option Version → Session × Status
unfolding old_device multi_device
open_session scan s a (some driver) =
    multi_device (record s { driver_version = driver }) a.open_device a.get_hw_version
open_session scan s a none = old_device scan s a.open_device a.rga2_get_version a.rga_get_version

unfoldable pub rga_device_init : (List ℕ → Version → Version) → Session → Answers → Session × Status
unfolding open_session
rga_device_init scan s a =
    if ltb_ℤ a.open_device (pos 0) then (s, failed) else open_session scan s a a.get_driver_version

-- The capabilities of the cores, once the device is there.
unfoldable pub load_info : Session × Status → Session × Status
load_info (s, status) =
    if is_status status success
    then (let (answer, info) = rga_get_info s.core_version s.hardware_info in
        (record s { hardware_info = info }, answer))
    else (s, status)

unfoldable pub rga_session_init :
    (List ℕ → Version → Version) → Session → Answers → Session × Status
unfolding rga_device_init load_info
rga_session_init scan s a = load_info (rga_device_init scan s a)

unfoldable pub session_reply : Session × Status → Session × (Status ⊎ InfoEntry)
session_reply (s, status) =
    if is_status status success then (s, inr s.hardware_info) else (s, inl no_session)

-- get_rga_session, which holds the write lock while it sets the session up. What its callers read of
-- a session is the table of the hardware.
unfoldable pub get_rga_session :
    (List ℕ → Version → Version) → Session → Answers → Session × (Status ⊎ InfoEntry)
unfolding rga_session_init session_reply
get_rga_session scan s a =
    if ltb_ℤ (pos 0) s.rga_dev_fd
    then (s, inr s.hardware_info)
    else session_reply (rga_session_init scan s a)

unfoldable pub rga_device_exit : Session → Session
unfolding clear_driver_feature
rga_device_exit s =
    if ltb_ℤ s.rga_dev_fd (pos 0)
    then s
    else clear_driver_feature (record s { rga_dev_fd = negsuc 0; driver_type = ioc_unknown })

unfoldable pub rga_session_deinit : Session → Session
unfolding rga_device_exit
rga_session_deinit s = rga_device_exit (record s { hardware_info = zero_table })

-- The session when the library is loaded: zeros, and librga_init.
abbrev pub librga_init : Session
librga_init = record {
  rga_dev_fd = negsuc 0;
  core_version = [];
  driver_version = version 0 0 0 [];
  driver_type = ioc_unknown;
  driver_feature = 0;
  hardware_info = zero_table;
}

-- ===== src/Session/Tests.antt =====
-- Sessions with the driver of an RK3588, and with one whose cores are not known.
use librga_rockchip.Base.{ℕ, ◌≡◌, ◌≢◌, ◌↔◌, inl, inr, refl, List, [], ◌∷◌, none, some, true, arith}
use librga_rockchip.Base.Int.{ℤ, pos, negsuc}
use librga_rockchip.Status.{noerror, success, no_session, status_code}
use librga_rockchip.Version.{Version, version, rga_version_compare}
use librga_rockchip.Hardware.{InfoEntry, merge_table}
use librga_rockchip.Hardware.Table.{rga_v_err_entry}
use librga_rockchip.Hardware.Select.{rk3568_entry, select_entry, find_branch, find_revision}
use librga_rockchip.Hardware.Info.{
  rga_get_info, get_info_loop, try_to_compatible, compatible_version, starts_with,
}
use librga_rockchip.Hardware.Limits.{Sane, zero_table}
use librga_rockchip.Check.Operands.{
  exact, exact-ExactQuotients, source, target, no_image, whole, source-Ints,
}
use librga_rockchip.Check.Whole.{rga_check}
use librga_rockchip.Check.Sound.{OperationFits}
use librga_rockchip.Session.{ioc_multi_rga, Answers, set_driver_feature}
use librga_rockchip.Session.Device.{
  rga_device_init, load_info, rga_session_init, session_reply, get_rga_session, rga_session_deinit,
  rga_device_exit, librga_init,
}
use librga_rockchip.Session.Stays.{calls, all_given, get_rga_session_stays}
use librga_rockchip.Session.Opened.{get_rga_session-Sane, rga_check-get_rga_session}
use librga_rockchip.Session.Faults.{get_rga_session_unknown, get_rga_session_zero}
use librga_rockchip.Session.Again.{rga_device_init_multi}

-- A scan that finds no numbers.
abbrev no_numbers : List ℕ → Version → Version
no_numbers str v = v

abbrev answers : ℤ → List Version → Answers
answers fd cores = record {
  open_device = fd;
  get_driver_version = some (version 1 3 1 []);
  get_hw_version = some cores;
  rga2_get_version = none;
  rga_get_version = none;
}

abbrev rk3568 : Answers
rk3568 = answers (pos 3) (version 3 2 0x63318 [] ∷ [])

abbrev unknown_core : Answers
unknown_core = answers (pos 3) (version 9 9 9 [] ∷ [])

abbrev no_device : Answers
no_device = answers (negsuc 0) []

module _ (cores : List Version) where
  -- The device with these cores, opened with the file 3.
  opened : rga_device_init no_numbers librga_init (answers (pos 3) cores) ≡ (
    record librga_init {
      rga_dev_fd = pos 3;
      core_version = cores;
      driver_version = version 1 3 1 [];
      driver_type = ioc_multi_rga;
      driver_feature = 1;
    },
    success,
  )
  unfolding set_driver_feature rga_version_compare
  opened =
      rga_device_init_multi no_numbers librga_init (answers (pos 3) cores) (version 1 3 1 []) cores
        (omega arith) refl refl

rk3568_session : get_rga_session no_numbers librga_init rk3568 ≡ (
  record librga_init {
    rga_dev_fd = pos 3;
    core_version = version 3 2 0x63318 [] ∷ [];
    driver_version = version 1 3 1 [];
    driver_type = ioc_multi_rga;
    driver_feature = 1;
    hardware_info = merge_table zero_table rk3568_entry;
  },
  inr (merge_table zero_table rk3568_entry),
)
unfolding get_rga_session rga_session_init load_info session_reply rga_get_info get_info_loop
    select_entry find_branch find_revision status_code
rk3568_session = rw (opened (version 3 2 0x63318 [] ∷ [])) refl

abbrev rk3568_table : InfoEntry
rk3568_table = merge_table zero_table rk3568_entry

some_cores : (v : Version) (vs : List Version) → some (v ∷ vs) ≢ some []
some_cores v vs e = ground arith

rk3568_reply : (get_rga_session no_numbers librga_init rk3568).1 ≡ inr rk3568_table
rk3568_reply = rw rk3568_session refl

-- The device is gone, and the session is still there.
get_rga_session_stays_example :
    ((get_rga_session no_numbers librga_init rk3568).0.rga_dev_fd ≡ rk3568.open_device)
    × (calls no_numbers librga_init (rk3568 ∷ no_device ∷ no_device ∷ []) ≡ (
      (get_rga_session no_numbers librga_init rk3568).0,
      all_given rk3568_table (rk3568 ∷ no_device ∷ no_device ∷ []),
    ))
get_rga_session_stays_example =
    get_rga_session_stays no_numbers librga_init rk3568 rk3568_table (no_device ∷ no_device ∷ [])
      (omega arith) (omega arith) (some_cores _ _) rk3568_reply

get_rga_session-Sane_example : Sane rk3568_table
get_rga_session-Sane_example =
    get_rga_session-Sane no_numbers librga_init rk3568 rk3568_table refl (omega arith)
      (some_cores _ _) rk3568_reply

rga_check-get_rga_session_example :
    (rga_check true exact
        (get_rga_session no_numbers librga_init rk3568).1
        source
        target
        no_image
        whole
        whole
        whole
        0
      ≡ noerror)
    ↔ OperationFits true exact rk3568_table source target no_image whole whole whole 0
rga_check-get_rga_session_example =
    rga_check-get_rga_session no_numbers true exact librga_init rk3568 rk3568_table source target
      no_image whole whole whole 0 refl (omega arith) (some_cores _ _) rk3568_reply
      exact-ExactQuotients source-Ints

unknown_opened : (rga_device_init no_numbers librga_init unknown_core).1 ≡ success
unknown_opened = rw (opened (version 9 9 9 [] ∷ [])) refl

unknown_failed :
    (rga_get_info (rga_device_init no_numbers librga_init unknown_core).0.core_version zero_table).0
    ≢ success
unfolding rga_get_info get_info_loop select_entry find_branch find_revision try_to_compatible
    compatible_version starts_with
unknown_failed = rw (opened (version 9 9 9 [] ∷ [])) (λ e. ground arith)

get_rga_session_unknown_example :
    ((get_rga_session no_numbers librga_init unknown_core).1 ≡ inl no_session)
    × ((get_rga_session no_numbers
          (get_rga_session no_numbers librga_init unknown_core).0
          no_device).1
        ≡ inr rga_v_err_entry)
get_rga_session_unknown_example =
    get_rga_session_unknown no_numbers librga_init unknown_core no_device (omega arith)
      (omega arith) (some_cores _ _) unknown_opened unknown_failed

get_rga_session_zero_example :
    (get_rga_session no_numbers
      (get_rga_session no_numbers librga_init (answers (pos 0) (version 3 2 0x63318 [] ∷ []))).0
      no_device).1
    ≡ inl no_session
get_rga_session_zero_example =
    get_rga_session_zero no_numbers librga_init (answers (pos 0) (version 3 2 0x63318 [] ∷ []))
      no_device (omega arith) refl (some_cores _ _) (omega arith)

-- The session of the library's start, ended before its first use.
start_ended : rga_session_deinit librga_init ≡ librga_init
unfolding rga_session_deinit rga_device_exit
start_ended = refl

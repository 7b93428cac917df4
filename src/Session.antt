-- ===== src/Session.antt =====
-- The session with the driver: im2d_api/src/im2d_context.cpp and im2d_context.h, the build for Linux
-- and Android.
pub mod Device
pub mod Hold
pub mod Opened
pub mod Stays
pub mod Faults
pub mod Again
mod Tests
use librga_rockchip.Base.{
  ℕ, suc, List, [], ◌∷◌, Option, none, some, Bool, true, false, ltb, if◌then◌else◌,
}
use librga_rockchip.Base.Int.{ℤ, pos, negsuc, ltb_ℤ}
use librga_rockchip.Base.Bits.{bit_or}
use librga_rockchip.Version.{Version, version, rga_version_compare}
use librga_rockchip.Hardware.{InfoEntry}

-- RGA_DRIVER_IOC_TYPE
pub data DriverType : Type 0 where
  ioc_unknown ioc_rga1 ioc_rga2 ioc_multi_rga : DriverType

-- rga_session_t, without its lock and the switch of the logs. The list holds the `size` versions of
-- the cores.
pub record Session : Type 0 where
  pub rga_dev_fd : ℤ
  pub core_version : List Version
  pub driver_version : Version
  pub driver_type : DriverType
  pub driver_feature : ℕ
  pub hardware_info : InfoEntry

-- What the system answers while a session is set up: open, and each ioctl, `none` for a failure.
pub record Answers : Type 0 where
  pub open_device : ℤ
  pub get_driver_version : Option Version
  pub get_hw_version : Option (List Version)
  pub rga2_get_version : Option (List ℕ)
  pub rga_get_version : Option (List ℕ)

-- RGA_DRIVER_FEATURE_USER_CLOSE_FENCE
abbrev pub user_close_fence : ℕ
user_close_fence = 1

unfoldable pub set_driver_feature : Session → Session
set_driver_feature s =
    if ltb_ℤ (rga_version_compare s.driver_version (version 1 3 0 [])) (pos 0)
    then s
    else record s { driver_feature = bit_or s.driver_feature user_close_fence }

unfoldable pub clear_driver_feature : Session → Session
clear_driver_feature s = record s { driver_feature = 0 }

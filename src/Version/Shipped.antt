-- ===== src/Version/Shipped.antt =====
-- The checks of the header's and the driver's version against the tables that this release ships.
use librga_rockchip.Base.{ℕ, ◌<◌, ◌≡◌, ◌↔◌, [], arith}
use librga_rockchip.Status.{success}
use librga_rockchip.Version.{
  Version, rga_check_header, rga_check_driver, pack_api_version, get_api_version, version,
  rga_version_check, rga_version_compare, check_range, rga_version_table_check_minimum_range,
  rga_version_table_get_current_index, range_result, index_from,
}
use librga_rockchip.Version.Order.{◌≼◌}

-- This release refuses exactly the headers before 1.4.0.
pub rga_check_header_iff :
    (header : Version) → (rga_check_header header ≡ success) ↔ (version 1 4 0 [] ≼ header)
unfolding rga_check_header rga_version_check check_range rga_version_table_check_minimum_range
    range_result rga_version_compare rga_version_table_get_current_index index_from
rga_check_header_iff header = ground arith

-- This release takes every driver, the oldest one included, since its own version selects the last
-- row of the table and a driver below that row's minimum is let through with a warning.
pub rga_check_driver_any : (driver : Version) → rga_check_driver driver ≡ success
unfolding rga_check_driver rga_version_check check_range rga_version_table_check_minimum_range
    range_result rga_version_compare rga_version_table_get_current_index index_from
rga_check_driver_any driver = ground arith

-- A packed version word gives its numbers back, those of a byte.
pub get_api_version-pack :
    (major minor revision build : ℕ)
    → major < 256
    → minor < 256
    → revision < 256
    → get_api_version (pack_api_version major minor revision build)
      ≡ version major minor revision []
unfolding get_api_version pack_api_version
get_api_version-pack major minor revision build ha hb hc = ground arith

-- ===== src/Version/Tests.antt =====
-- The version binding at concrete versions.
use librga_rockchip.Base.{zero, suc, ◌≡◌, ◌↔◌, refl, [], arith}
use librga_rockchip.Base.Int.{pos}
use librga_rockchip.Status.{error_version}
use librga_rockchip.Version.{
  Version, version, rga_version_compare, rga_version_table_get_current_index, index_from,
  user_driver_bind_table, rga_check_header, rga_version_check, check_range, range_result,
  rga_version_table_check_minimum_range,
}
use librga_rockchip.Version.Lookup.{Binds, Ascending, table_lookup_lem}

abbrev v1_6_5 : Version
v1_6_5 = version 1 6 5 []

lookup_1_6_5 : rga_version_table_get_current_index v1_6_5 user_driver_bind_table ≡ pos 2
unfolding rga_version_table_get_current_index index_from rga_version_compare
lookup_1_6_5 = refl

header_too_old : rga_check_header (version 1 3 9 []) ≡ error_version
unfolding rga_check_header rga_version_check check_range rga_version_table_check_minimum_range
    range_result rga_version_compare rga_version_table_get_current_index index_from
header_too_old = refl

current-Ascending : Ascending (λ e. e.current) user_driver_bind_table
current-Ascending zero h = ground arith
current-Ascending (suc zero) h = ground arith
current-Ascending (suc (suc zero)) h = ground arith
current-Ascending (suc (suc (suc zero))) h = ground arith
current-Ascending (suc (suc (suc (suc i)))) h = absurd (omega arith)

minimum-Ascending : Ascending (λ e. e.minimum) user_driver_bind_table
minimum-Ascending zero h = ground arith
minimum-Ascending (suc zero) h = ground arith
minimum-Ascending (suc (suc zero)) h = ground arith
minimum-Ascending (suc (suc (suc zero))) h = ground arith
minimum-Ascending (suc (suc (suc (suc i)))) h = absurd (omega arith)

table_lookup_lem_example :
    (rga_version_table_get_current_index v1_6_5 user_driver_bind_table ≡ pos 2)
    ↔ Binds (λ e. e.current) v1_6_5 user_driver_bind_table 2
table_lookup_lem_example =
    (table_lookup_lem v1_6_5 user_driver_bind_table (omega arith) current-Ascending
        minimum-Ascending).0
      2

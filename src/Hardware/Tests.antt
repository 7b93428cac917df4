-- ===== src/Hardware/Tests.antt =====
-- The cores of an RK3588, and a core that the library does not know.
use librga_rockchip.Base.{◌≡◌, ◌≢◌, ◌⊎◌, refl, none, [], ◌∷◌, true}
use librga_rockchip.Base.Bits.{test_bit}
use librga_rockchip.Status.{success, failed}
use librga_rockchip.Version.{Version, version}
use librga_rockchip.Hardware.{rga_2_lite1, feature_index, rop, merge_table, merge_resolution}
use librga_rockchip.Hardware.Table.{rga_3_entry, rga_v_err_entry}
use librga_rockchip.Hardware.Select.{rk3568_entry, select_entry, find_branch, find_revision}
use librga_rockchip.Hardware.Info.{rga_get_info, get_info_loop, compatible_version, starts_with}
use librga_rockchip.Hardware.Union.{rga_get_info_union, Recognised, some_has}
use librga_rockchip.Hardware.Limits.{rga_get_info-Sane, Sane, zero_table}
use librga_rockchip.Hardware.Compatible.{rga_get_info_unknown}

abbrev rga_3_core : Version
rga_3_core = version 3 0 0x76831 []

abbrev rga_2_core : Version
rga_2_core = version 3 2 0x63318 []

abbrev unknown_core : Version
unknown_core = version 4 0 1 (b'4' ∷ b'.' ∷ b'0' ∷ b'0' ∷ b'1' ∷ [])

rk3588-Recognised : Recognised (rga_3_core ∷ rga_2_core ∷ []) (rga_3_entry ∷ rk3568_entry ∷ [])
unfolding select_entry find_branch find_revision
rk3588-Recognised = (refl, (refl, tt))

unknown_core_lem : select_entry unknown_core ≡ none
unfolding select_entry find_branch find_revision
unknown_core_lem = refl

-- Only the RGA2 has the raster operations.
rk3588_rop :
    test_bit (rga_get_info (rga_3_core ∷ rga_2_core ∷ []) zero_table).1.feature (feature_index rop)
    ≡ true
unfolding rga_get_info get_info_loop select_entry find_branch find_revision merge_table
    merge_resolution
rk3588_rop = refl

rga_get_info_union_example :
    let r = rga_get_info (rga_3_core ∷ rga_2_core ∷ []) zero_table in
    (r.0 ≡ success)
    × (test_bit r.1.version 3 ≡ some_has (λ e. e.version) 3 (rga_3_entry ∷ rk3568_entry ∷ []))
    × (test_bit r.1.input_format 3
        ≡ some_has (λ e. e.input_format) 3 (rga_3_entry ∷ rk3568_entry ∷ []))
    × (test_bit r.1.output_format 3
        ≡ some_has (λ e. e.output_format) 3 (rga_3_entry ∷ rk3568_entry ∷ []))
    × (test_bit r.1.feature 3 ≡ some_has (λ e. e.feature) 3 (rga_3_entry ∷ rk3568_entry ∷ []))
rga_get_info_union_example =
    rga_get_info_union (rga_3_core ∷ rga_2_core ∷ []) (rga_3_entry ∷ rk3568_entry ∷ []) zero_table 3
      rk3588-Recognised

rk3588_success : (rga_get_info (rga_3_core ∷ rga_2_core ∷ []) zero_table).0 ≡ success
unfolding rga_get_info get_info_loop select_entry find_branch find_revision
rk3588_success = refl

rga_get_info-Sane_example : Sane (rga_get_info (rga_3_core ∷ rga_2_core ∷ []) zero_table).1
rga_get_info-Sane_example = rga_get_info-Sane rga_3_core (rga_2_core ∷ []) rk3588_success

rga_get_info_unknown_example :
    let r = rga_get_info (rga_3_core ∷ unknown_core ∷ []) zero_table in
    (r ≡ (failed, rga_v_err_entry))
    × ((r.0 ≡ success) ⊎ (r ≡ (failed, rga_v_err_entry)))
    × (compatible_version [] ≢ rga_2_lite1)
unfolding compatible_version starts_with
rga_get_info_unknown_example =
    rga_get_info_unknown rga_3_core unknown_core [] [] zero_table unknown_core_lem

-- ===== src/Hardware/Info.antt =====
-- rga_get_info of im2d_api/src/im2d_impl.cpp: the loop over the cores, and TRY_TO_COMPATIBLE.
use librga_rockchip.Base.{
  ℕ, Bool, true, false, ◌&&◌, List, [], ◌∷◌, none, some, ◌==◌, if◌then◌else◌,
}
use librga_rockchip.Status.{Status, success, failed}
use librga_rockchip.Version.{Version}
use librga_rockchip.Hardware.{
  HwVersion, InfoEntry, merge_table, rga_v_err, rga_1, rga_1_plus, rga_2, rga_2_lite0, rga_2_lite1,
  rga_2_enhance, rga_2_pro, rga_2_lite2, rga_3,
}
use librga_rockchip.Hardware.Table.{
  rga_v_err_entry, rga_1_entry, rga_1_plus_entry, rga_2_entry, rga_2_lite0_entry, rga_2_lite1_entry,
  rga_2_enhance_entry, rga_2_pro_entry, rga_2_lite2_entry, rga_3_entry,
}
use librga_rockchip.Hardware.Select.{select_entry}

-- hw_info_table[rga_version]
abbrev pub hw_info_table : HwVersion → InfoEntry
hw_info_table rga_v_err = rga_v_err_entry
hw_info_table rga_1 = rga_1_entry
hw_info_table rga_1_plus = rga_1_plus_entry
hw_info_table rga_2 = rga_2_entry
hw_info_table rga_2_lite0 = rga_2_lite0_entry
hw_info_table rga_2_lite1 = rga_2_lite1_entry
hw_info_table rga_2_enhance = rga_2_enhance_entry
hw_info_table rga_2_pro = rga_2_pro_entry
hw_info_table rga_2_lite2 = rga_2_lite2_entry
hw_info_table rga_3 = rga_3_entry

-- strncmp(str, prefix, strlen(prefix)) == 0
unfoldable pub starts_with : List ℕ → List ℕ → Bool
starts_with [] str = true
starts_with (c ∷ cs) [] = false
starts_with (c ∷ cs) (d ∷ ds) = c == d && starts_with cs ds

-- The version that the text of the first core's version stands for.
unfoldable pub compatible_version : List ℕ → HwVersion
unfolding starts_with
compatible_version str =
    if starts_with (b'1' ∷ b'.' ∷ b'3' ∷ []) str
    then rga_1
    else if starts_with (b'1' ∷ b'.' ∷ b'6' ∷ []) str
    then rga_1_plus
    else if starts_with (b'2' ∷ b'.' ∷ b'0' ∷ b'0' ∷ []) str
    then rga_2
    else if starts_with (b'3' ∷ b'.' ∷ b'0' ∷ b'0' ∷ []) str
    then rga_2
    else if starts_with (b'3' ∷ b'.' ∷ b'0' ∷ b'2' ∷ []) str
    then rga_2_enhance
    else if starts_with (b'4' ∷ b'.' ∷ b'0' ∷ b'0' ∷ []) str
    then rga_2_lite0
    else if starts_with (b'4' ∷ b'.' ∷ b'0' ∷ b'0' ∷ []) str
    then rga_2_lite1
    else rga_v_err

abbrev pub compatible_status : HwVersion → Status
compatible_status rga_v_err = failed
compatible_status _ = success

-- TRY_TO_COMPATIBLE, which overwrites the table whatever it holds.
unfoldable pub try_to_compatible : Version → Status × InfoEntry
unfolding compatible_version
try_to_compatible first =
    let version = compatible_version first.str in (compatible_status version, hw_info_table version)

unfoldable pub get_info_loop : Version → List Version → InfoEntry → Status × InfoEntry
unfolding select_entry merge_table try_to_compatible
get_info_loop first [] table = (success, table)
get_info_loop first (v ∷ vs) table = elim (select_entry v) [
  | none ↦ try_to_compatible first
  | some e ↦ get_info_loop first vs (merge_table table e)
]

-- rga_get_info. The list holds the `size` versions that the driver reports.
unfoldable pub rga_get_info : List Version → InfoEntry → Status × InfoEntry
unfolding get_info_loop
rga_get_info [] table = (success, table)
rga_get_info (v ∷ vs) table = get_info_loop v (v ∷ vs) table

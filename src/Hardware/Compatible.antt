-- ===== src/Hardware/Compatible.antt =====
-- A core that rga_get_info does not know: the text of the first core's version decides.
use librga_rockchip.Base.{
  Option-cases, ℕ, ◌≡◌, ◌≢◌, refl, ◌⊎◌, inl, inr, List, [], ◌∷◌, ◌++◌, none, arith,
}
use librga_rockchip.Status.{Status, success, failed}
use librga_rockchip.Version.{Version}
use librga_rockchip.Hardware.{InfoEntry, HwVersion, merge_table, rga_v_err, rga_2_lite1}
use librga_rockchip.Hardware.Table.{rga_v_err_entry}
use librga_rockchip.Hardware.Select.{select_entry}
use librga_rockchip.Hardware.Info.{
  rga_get_info, get_info_loop, try_to_compatible, compatible_version, compatible_status,
  hw_info_table,
}

loop_unknown :
    (first : Version) (vs ws : List Version) (v : Version) (t : InfoEntry)
    → select_entry v ≡ none
    → get_info_loop first (vs ++ (v ∷ ws)) t ≡ try_to_compatible first
unfolding get_info_loop
loop_unknown first [] ws v t h = rw (h, get_info_loop) refl
loop_unknown first (u ∷ vs) ws v t h = elim (Option-cases (select_entry u)) [
  | inl e ↦ rw (e, get_info_loop) refl
  | inr (r, e) ↦ rw (e, get_info_loop) (loop_unknown first vs ws v (merge_table t r) h)
]

compatible-not-lite1 : (str : List ℕ) → compatible_version str ≢ rga_2_lite1
unfolding compatible_version
compatible-not-lite1 str = ground arith

-- Only the empty row is a failure.
answer_cases :
    (version : HwVersion)
    → (compatible_status version ≡ success)
      ⊎ (◌≡◌ {A = Status × InfoEntry}
          (compatible_status version, hw_info_table version)
          (failed, rga_v_err_entry))
answer_cases rga_v_err = inr refl
answer_cases _ = inl refl

-- When any core is unknown, the rows of the known cores are dropped, and so is what the table held:
-- the answer is that of the first core's text alone. It is the row that the text selects with
-- success, or the empty row with a failure, and the row of RGA2-Lite1 is never selected.
pub rga_get_info_unknown :
    (first v : Version) (vs ws : List Version) (t : InfoEntry)
    → select_entry v ≡ none
    → let r = rga_get_info (first ∷ (vs ++ (v ∷ ws))) t in
      (r ≡ (
        compatible_status (compatible_version first.str),
        hw_info_table (compatible_version first.str),
      ))
      × ((r.0 ≡ success) ⊎ (r ≡ (failed, rga_v_err_entry)))
      × (compatible_version first.str ≢ rga_2_lite1)
unfolding rga_get_info try_to_compatible
rga_get_info_unknown first v vs ws t h =
    rw (loop_unknown first (first ∷ vs) ws v t h)
      (refl, answer_cases (compatible_version first.str), compatible-not-lite1 first.str)

compatible_failed :
    (version : HwVersion)
    → compatible_status version ≢ success
    → ◌≡◌ {A = Status × InfoEntry}
        (compatible_status version, hw_info_table version)
        (failed, rga_v_err_entry)
compatible_failed rga_v_err n = refl
compatible_failed _ n = absurd (n refl)

loop_failed :
    (first : Version) (vs : List Version) (t : InfoEntry)
    → (get_info_loop first vs t).0 ≢ success
    → get_info_loop first vs t ≡ (failed, rga_v_err_entry)
unfolding get_info_loop try_to_compatible
loop_failed first [] t n = absurd (n refl)
loop_failed first (v ∷ vs) t n = elim (Option-cases (select_entry v)) [
  | inl e ↦
      rw (e, get_info_loop)
        (compatible_failed (compatible_version first.str) (rw (e, get_info_loop) at n))
  | inr (r, e) ↦
      rw (e, get_info_loop) (loop_failed first vs (merge_table t r) (rw (e, get_info_loop) at n))
]

-- A failure leaves the empty row in the table.
pub rga_get_info_failed :
    (vs : List Version) (t : InfoEntry)
    → (rga_get_info vs t).0 ≢ success
    → rga_get_info vs t ≡ (failed, rga_v_err_entry)
unfolding rga_get_info
rga_get_info_failed [] t n = absurd (n refl)
rga_get_info_failed (v ∷ vs) t n = loop_failed v (v ∷ vs) t n

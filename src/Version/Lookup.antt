-- ===== src/Version/Lookup.antt =====
-- What the table lookups of the version binding find.
use librga_rockchip.Base.{
  ℕ, zero, suc, ◌∙◌, ◌+◌, ◌-◌, ◌≤◌, ◌<◌, ◌≡◌, ◌⊎◌, inl, inr, List, ◌↔◌, arith, length, refl,
}
use librga_rockchip.Base.Int.{pos, negsuc}
use librga_rockchip.Version.{
  Version, BindEntry, index_from, entry_at, rga_version_table_get_current_index,
  rga_version_table_get_minimum_index,
}
use native.Mathlib.Numerals.{add-one}
use native.Mathlib.Nat.{add-zero, add-suc, zero-add}
use librga_rockchip.Version.Order.{◌≺◌, ◌≼◌, compare-ge, compare-gt, ≺-≼-trans, ≺-not-≼, ≼-total}

-- Entry `i` binds the versions from its own up to that of the next entry.
abbrev pub Binds : (BindEntry → Version) → Version → List BindEntry → ℕ → Type 0
Binds key v table i =
    (i < length table)
    × (key (entry_at table i) ≼ v)
    × ((suc i ≡ length table) ⊎ (v ≺ key (entry_at table (suc i))))

-- Each entry is later than the one before it.
abbrev pub Ascending : (BindEntry → Version) → List BindEntry → Type 0
Ascending key table =
    (i : ℕ) → suc i < length table → key (entry_at table i) ≼ key (entry_at table (suc i))

module _ (key : BindEntry → Version) (v : Version) (table : List BindEntry) where
  -- One round of the loop.
  round_hit : (i : ℕ) → Binds key v table i → index_from key v table (suc i) ≡ pos i
  unfolding index_from
  round_hit i b =
      ground
        (arith, compare-ge v (key (entry_at table i)), compare-gt (key (entry_at table (i + 1))) v)

  round_miss :
      (i : ℕ)
      → v ≺ key (entry_at table i)
      → index_from key v table (suc i) ≡ index_from key v table i
  unfolding index_from
  round_miss i b =
      ground (arith, compare-ge v (key (entry_at table i)), ≺-not-≼ v (key (entry_at table i)))

  -- What a search from below `k` returns binds the version.
  index_from-Binds :
      (k i : ℕ) → k ≤ length table → index_from key v table k ≡ pos i → Binds key v table i
  unfolding index_from
  index_from-Binds zero i h e = absurd (cc)
  index_from-Binds (suc k) i h e = ground (
    arith,
    compare-ge v (key (entry_at table k)),
    compare-gt (key (entry_at table (k + 1))) v,
    index_from-Binds k i (omega arith),
    add-one k,
  )

  -- Rounds above the entry that binds the version miss.
  index_from-eq :
      (d i : ℕ)
      → Binds key v table i
      → ((j : ℕ) → i < j → j < suc i + d → v ≺ key (entry_at table j))
      → index_from key v table (suc i + d) ≡ pos i
  index_from-eq zero i b above = rw add-zero (round_hit i b)
  index_from-eq (suc d) i b above = rw (add-suc (suc i) d) (
      round_miss (suc i + d) (above (suc i + d) (omega arith) (omega arith))
      ∙ index_from-eq d i b (λ j p q. above j p (omega arith)))

  -- From the first entry on there is an entry that binds the version.
  index_from_total :
      (k : ℕ)
      → suc k ≤ length table
      → (suc k ≡ length table) ⊎ (v ≺ key (entry_at table (suc k)))
      → key (entry_at table 0) ≼ v
      → (i : ℕ) × (index_from key v table (suc k) ≡ pos i)
  index_from_total zero h next first = (0, round_hit 0 (h, first, next))
  index_from_total (suc k) h next first = elim (≼-total (key (entry_at table (suc k))) v) [
    | inl le ↦ (suc k, round_hit (suc k) (h, le, next))
    | inr lt ↦
        let (i, e) = index_from_total k (omega arith) (inr lt) first in
        (i, round_miss (suc k) lt ∙ e)
  ]

  -- In a table that ascends, a version before an entry is before all later entries.
  above :
      Ascending key table
      → (d i : ℕ) → i + d < length table
      → v ≺ key (entry_at table i)
      → v ≺ key (entry_at table (i + d))
  above up zero i h lt = rw add-zero lt
  above up (suc d) i h lt = rw (add-suc i d) (
      ≺-≼-trans v (key (entry_at table (i + d))) (key (entry_at table (suc (i + d))))
        (above up d i (omega arith) lt) (up (i + d) (omega arith)))

  index_from_below :
      Ascending key table
      → v ≺ key (entry_at table 0)
      → (k : ℕ) → k ≤ length table
      → index_from key v table k ≡ negsuc 0
  unfolding index_from
  index_from_below up lt zero h = refl
  index_from_below up lt (suc k) h =
      round_miss k (rw (zero-add k) at (above up k 0 (omega arith) lt))
      ∙ index_from_below up lt k (omega arith)

  index_from-Binds_iff :
      Ascending key table
      → (i : ℕ) → (index_from key v table (length table) ≡ pos i) ↔ Binds key v table i
  index_from-Binds_iff up i = (index_from-Binds (length table) i (omega arith), found)
    where
      later : Binds key v table i → (j : ℕ) → i < j → j < length table → v ≺ key (entry_at table j)
      later b j p q = elim (b.2) [
        | inl last ↦ absurd (omega arith)
        | inr next ↦
            rw (let e : suc i + (j - suc i) ≡ j = omega arith in e) at
              (above up (j - suc i) (suc i) (omega arith) next)
      ]

      found : Binds key v table i → index_from key v table (length table) ≡ pos i
      found b =
          let e : suc i + (length table - suc i) ≡ length table = omega (arith, b.0) in
          rw e at
            (index_from-eq (length table - suc i) i b (λ j p q. later b j p (omega (arith, e))))

  index_from-none_iff :
      Ascending key table
      → 0 < length table
      → (index_from key v table (length table) ≡ negsuc 0) ↔ (v ≺ key (entry_at table 0))
  index_from-none_iff up h = (none_below, λ lt. index_from_below up lt (length table) (omega arith))
    where
      none_below : index_from key v table (length table) ≡ negsuc 0 → v ≺ key (entry_at table 0)
      none_below e = elim (≼-total (key (entry_at table 0)) v) [
        | inr lt ↦ lt
        | inl le ↦
            let n : suc (length table - 1) ≡ length table = omega arith in
            let (i, found) = index_from_total (length table - 1) (omega arith) (inl n) le in
            absurd (cc (rw n at found))
      ]

-- In tables that ascend, both lookups return the one entry that binds the version, `i` exactly
-- when entry `i` is the last one that is not later than the version, and -1 exactly for a version
-- before the first entry.
pub table_lookup_lem :
    (v : Version) (table : List BindEntry)
    → 0 < length table
    → Ascending (λ e. e.current) table
    → Ascending (λ e. e.minimum) table
    → ((i : ℕ)
        → (rga_version_table_get_current_index v table ≡ pos i) ↔ Binds (λ e. e.current) v table i)
      × ((rga_version_table_get_current_index v table ≡ negsuc 0)
          ↔ (v ≺ (entry_at table 0).current))
      × ((i : ℕ)
          → (rga_version_table_get_minimum_index v table ≡ pos i)
            ↔ Binds (λ e. e.minimum) v table i)
      × ((rga_version_table_get_minimum_index v table ≡ negsuc 0)
          ↔ (v ≺ (entry_at table 0).minimum))
unfolding rga_version_table_get_current_index rga_version_table_get_minimum_index
table_lookup_lem v table h up_current up_minimum = (
  index_from-Binds_iff (λ e. e.current) v table up_current,
  index_from-none_iff (λ e. e.current) v table up_current h,
  index_from-Binds_iff (λ e. e.minimum) v table up_minimum,
  index_from-none_iff (λ e. e.minimum) v table up_minimum h,
)

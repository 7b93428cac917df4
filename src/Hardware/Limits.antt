-- ===== src/Hardware/Limits.antt =====
-- The limits of the table that rga_get_info gives.
use librga_rockchip.Base.{
  ℕ, max, ◌≡◌, refl, ◌⊎◌, inl, inr, Bool, true, false, ◌&&◌, ◌||◌, List, [], ◌∷◌, some, ◌==◌, leb,
  all, arith, Option-cases, if◌then◌else◌,
}
use librga_rockchip.Base.Int.{ℤ, pos, negsuc, ◌≤ℤ◌, ltb_ℤ, pos_part, neg_part}
use librga_rockchip.Status.{success}
use librga_rockchip.Version.{Version}
use librga_rockchip.Hardware.{
  InfoEntry, Resolution, resolution, HwVersion, merge_table, merge_resolution, rga_v_err,
}
use librga_rockchip.Hardware.Select.{select_entry, find_branch, find_revision, branches}
use librga_rockchip.Hardware.Info.{
  rga_get_info, get_info_loop, try_to_compatible, compatible_version, compatible_status,
  hw_info_table,
}

-- memset(table, 0, sizeof(*table))
abbrev pub zero_table : InfoEntry
zero_table = record {
  version = 0;
  input_resolution = resolution (pos 0) (pos 0);
  output_resolution = resolution (pos 0) (pos 0);
  byte_stride = 0;
  scale_limit = 0;
  performance = 0;
  input_format = 0;
  output_format = 0;
  feature = 0;
  scale_ver_bicubic_limit = 0;
}

abbrev pub StrideSane : ℕ → Type 0
StrideSane n = (n ≡ 4) ⊎ (n ≡ 16)

abbrev pub ScaleSane : ℕ → Type 0
ScaleSane n = (n ≡ 8) ⊎ (n ≡ 16)

abbrev pub ResolutionSane : Resolution → Type 0
ResolutionSane r =
    (pos 1280 ≤ℤ r.width) × (r.width ≤ℤ pos 8192) × (pos 2048 ≤ℤ r.height) × (r.height ≤ℤ pos 8192)

-- The limits that the checks of an operation rely on.
abbrev pub Sane : InfoEntry → Type 0
Sane e =
    StrideSane e.byte_stride
    × ScaleSane e.scale_limit
    × ResolutionSane e.input_resolution
    × ResolutionSane e.output_resolution

sane_resolution : Resolution → Bool
sane_resolution r =
    leb 1280 (pos_part r.width)
    && leb (pos_part r.width) 8192
    && leb 2048 (pos_part r.height)
    && leb (pos_part r.height) 8192
    && (neg_part r.width == 0)
    && (neg_part r.height == 0)

sane : InfoEntry → Bool
unfolding sane_resolution
sane e =
    (e.byte_stride == 4 || e.byte_stride == 16)
    && (e.scale_limit == 8 || e.scale_limit == 16)
    && sane_resolution e.input_resolution
    && sane_resolution e.output_resolution

sane_resolution-Sane : (r : Resolution) → sane_resolution r ≡ true → ResolutionSane r
unfolding sane_resolution
sane_resolution-Sane r h = ground arith

sane-Sane : (e : InfoEntry) → sane e ≡ true → Sane e
unfolding sane
sane-Sane e h = (
  ground arith,
  ground arith,
  sane_resolution-Sane e.input_resolution (ground arith),
  sane_resolution-Sane e.output_resolution (ground arith),
)

-- A test that all rows of a switch pass is passed by the row found.
find_revision-all :
    (p : InfoEntry → Bool) (r : ℕ) (rows : List (ℕ × InfoEntry)) (e : InfoEntry)
    → all (λ row. p row.1) rows ≡ true
    → find_revision r rows ≡ some e
    → p e ≡ true
unfolding find_revision
find_revision-all p r [] e a h = ground arith
find_revision-all p r ((k, x) ∷ rows) e a h = ground (arith, find_revision-all p r rows e)

find_branch-all :
    (p : InfoEntry → Bool) (v : Version) (bs : List (ℕ × ℕ × List (ℕ × InfoEntry))) (e : InfoEntry)
    → all (λ b. all (λ row. p row.1) b.2) bs ≡ true
    → find_branch v bs ≡ some e
    → p e ≡ true
unfolding find_branch
find_branch-all p v [] e a h = ground arith
find_branch-all p v ((major, minor, rows) ∷ bs) e a h =
    ground (arith, find_revision-all p v.revision rows e, find_branch-all p v bs e)

branches-sane : all (λ b. all (λ row. sane row.1) b.2) branches ≡ true
unfolding sane
branches-sane = refl

select_entry-Sane : (v : Version) (e : InfoEntry) → select_entry v ≡ some e → Sane e
unfolding select_entry
select_entry-Sane v e h = sane-Sane e (find_branch-all sane v branches e branches-sane h)

stride_max : (a b : ℕ) → StrideSane a → StrideSane b → StrideSane (max a b)
stride_max a b p q = ground arith

scale_max : (a b : ℕ) → ScaleSane a → ScaleSane b → ScaleSane (max a b)
scale_max a b p q = ground arith

if-Sane :
    (c : Bool) (d m : Resolution)
    → ResolutionSane d
    → ResolutionSane m
    → ResolutionSane (if c then m else d)
if-Sane true d m p q = q
if-Sane false d m p q = p

merge_table-Sane : (d m : InfoEntry) → Sane d → Sane m → Sane (merge_table d m)
unfolding merge_table merge_resolution
merge_table-Sane d m (ds, dl, di, do_) (ms, ml, mi, mo) = (
  stride_max d.byte_stride m.byte_stride ds ms,
  scale_max d.scale_limit m.scale_limit dl ml,
  if-Sane _ d.input_resolution m.input_resolution di mi,
  if-Sane _ d.output_resolution m.output_resolution do_ mo,
)

zero_smaller :
    (w h : ℤ) → pos 1280 ≤ℤ w → pos 2048 ≤ℤ h → (ltb_ℤ (pos 0) w && ltb_ℤ (pos 0) h) ≡ true
zero_smaller (pos w) (pos h) p q = ground arith
zero_smaller (negsuc w) h p q = absurd (omega arith)
zero_smaller w (negsuc h) p q = absurd (omega arith)

-- The first row replaces the zeros.
merge_zero-Sane : (m : InfoEntry) → Sane m → Sane (merge_table zero_table m)
unfolding merge_table merge_resolution
merge_zero-Sane m (s, l, i, o) = (
  ground arith,
  ground arith,
  rw (zero_smaller m.input_resolution.width m.input_resolution.height i.0 i.2) i,
  rw (zero_smaller m.output_resolution.width m.output_resolution.height o.0 o.2) o,
)

compatible-Sane :
    (version : HwVersion) → compatible_status version ≡ success → Sane (hw_info_table version)
unfolding sane
compatible-Sane rga_v_err h = absurd (ground arith)
compatible-Sane version h = sane-Sane (hw_info_table version) refl

try_to_compatible-Sane :
    (first : Version) → (try_to_compatible first).0 ≡ success → Sane (try_to_compatible first).1
unfolding try_to_compatible
try_to_compatible-Sane first h = compatible-Sane (compatible_version first.str) h

loop-Sane :
    (first : Version) (vs : List Version) (t : InfoEntry)
    → Sane t
    → (get_info_loop first vs t).0 ≡ success
    → Sane (get_info_loop first vs t).1
unfolding get_info_loop
loop-Sane first [] t s h = s
loop-Sane first (v ∷ vs) t s h = elim (Option-cases (select_entry v)) [
  | inl e ↦ rw (e, get_info_loop) (try_to_compatible-Sane first (rw (e, get_info_loop) at h))
  | inr (r, e) ↦
      rw (e, get_info_loop)
        (loop-Sane first vs (merge_table t r) (merge_table-Sane t r s (select_entry-Sane v r e))
          (rw (e, get_info_loop) at h))
]

first_row-Sane :
    (v : Version) (vs : List Version)
    → (get_info_loop v (v ∷ vs) zero_table).0 ≡ success
    → Sane (get_info_loop v (v ∷ vs) zero_table).1
unfolding get_info_loop
first_row-Sane v vs h = elim (Option-cases (select_entry v)) [
  | inl e ↦ rw (e, get_info_loop) (try_to_compatible-Sane v (rw (e, get_info_loop) at h))
  | inr (r, e) ↦
      rw (e, get_info_loop)
        (loop-Sane v vs (merge_table zero_table r) (merge_zero-Sane r (select_entry-Sane v r e))
          (rw (e, get_info_loop) at h))
]

-- When rga_get_info succeeds for at least one core, from a table of zeros, the stride alignment is
-- 4 or 16 bytes, the scale limit 8 or 16, and the resolutions for input and output are between
-- 1280x2048 and 8192x8192, whichever cores the driver reports.
pub rga_get_info-Sane :
    (v : Version) (vs : List Version)
    → (rga_get_info (v ∷ vs) zero_table).0 ≡ success
    → Sane (rga_get_info (v ∷ vs) zero_table).1
unfolding rga_get_info
rga_get_info-Sane v vs h = first_row-Sane v vs h

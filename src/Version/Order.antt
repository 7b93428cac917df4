-- ===== src/Version/Order.antt =====
-- The order of versions by (major, minor, revision), against which rga_version_compare is read.
use librga_rockchip.Base.{◌<◌, ◌≡◌, ◌↔◌, ◌⊎◌, arith}
use librga_rockchip.Base.Int.{pos, negsuc, ◌≤ℤ◌, ◌<ℤ◌}
use librga_rockchip.Version.{Version, rga_version_compare}

infix 50 ◌≺◌ ◌≼◌
abbrev pub ◌≺◌ : Version → Version → Type 0
v ≺ w =
    (v.major < w.major)
    ⊎ ((v.major ≡ w.major)
        × ((v.minor < w.minor) ⊎ ((v.minor ≡ w.minor) × (v.revision < w.revision))))

abbrev pub SameNumbers : Version → Version → Type 0
SameNumbers v w = (v.major ≡ w.major) × (v.minor ≡ w.minor) × (v.revision ≡ w.revision)

abbrev pub ◌≼◌ : Version → Version → Type 0
v ≼ w = (v ≺ w) ⊎ SameNumbers v w

-- The three results of the comparison are the three cases of the lexicographic order: 1 exactly
-- for a greater version, 0 exactly for equal numbers and -1 exactly for a smaller version.
pub compare_decides :
    (v w : Version)
    → ((rga_version_compare v w ≡ pos 1) ↔ (w ≺ v))
      × ((rga_version_compare v w ≡ pos 0) ↔ SameNumbers v w)
      × ((rga_version_compare v w ≡ negsuc 0) ↔ (v ≺ w))
unfolding rga_version_compare
compare_decides v w = ground arith

pub compare-ge : (v w : Version) → (pos 0 ≤ℤ rga_version_compare v w) ↔ (w ≼ v)
unfolding rga_version_compare
compare-ge v w = ground arith

pub compare-gt : (v w : Version) → (pos 0 <ℤ rga_version_compare v w) ↔ (w ≺ v)
unfolding rga_version_compare
compare-gt v w = ground arith

pub ≼-trans : (u v w : Version) → u ≼ v → v ≼ w → u ≼ w
≼-trans u v w h k = ground arith

pub ≺-≼-trans : (u v w : Version) → u ≺ v → v ≼ w → u ≺ w
≺-≼-trans u v w h k = ground arith

pub ≼-total : (v w : Version) → (v ≼ w) ⊎ (w ≺ v)
≼-total v w = ground arith

pub ≺-not-≼ : (v w : Version) → v ≺ w → ¬ (w ≼ v)
≺-not-≼ v w h k = ground arith

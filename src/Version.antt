-- ===== src/Version.antt =====
-- struct rga_version_t of core/hardware/rga_ioctl.h, its comparison and the version binding tables:
-- im2d_api/src/im2d_impl.cpp (rga_version_*, rga_check_header, rga_check_driver) and the tables of
-- im2d_api/src/im2d_hardware.h.
pub mod Order
pub mod Lookup
pub mod Shipped
mod Tests
use librga_rockchip.Base.{
  ℕ, zero, suc, ◌+◌, ◌-◌, ◌*◌, ◌/◌, ◌%◌, ◌^◌, Bool, ◌&&◌, List, [], ◌∷◌, Option, none, some, length,
  ltb, ◌==◌, if◌then◌else◌,
}
use librga_rockchip.Base.Int.{ℤ, pos, negsuc, ltb_ℤ, eqb_ℤ, pos_part}
use librga_rockchip.Status.{Status, success, failed, error_version, status_code}

-- `str` holds the bytes of the text up to its NUL.
pub record Version : Type 0 where
  pub major : ℕ
  pub minor : ℕ
  pub revision : ℕ
  pub str : List ℕ

pub record BindEntry : Type 0 where
  pub current : Version
  pub minimum : Version

unfoldable pub rga_version_compare : Version → Version → ℤ
rga_version_compare v w =
    if ltb w.major v.major
    then pos 1
    else if v.major == w.major && ltb w.minor v.minor
    then pos 1
    else if v.major == w.major && v.minor == w.minor && ltb w.revision v.revision
    then pos 1
    else if v.major == w.major && v.minor == w.minor && v.revision == w.revision
    then pos 0
    else negsuc 0

abbrev zero_entry : BindEntry
zero_entry = record {
  current = record { major = 0; minor = 0; revision = 0; str = [] };
  minimum = record { major = 0; minor = 0; revision = 0; str = [] };
}

-- table[i]. The loops read in range only; out of range the model reads zeros.
abbrev pub entry_at : List BindEntry → ℕ → BindEntry
entry_at [] i = zero_entry
entry_at (e ∷ es) zero = e
entry_at (e ∷ es) (suc i) = entry_at es i

-- The loop `for (i = table_size - 1; i >= 0; i--)`, with the rounds left.
pub index_from : (BindEntry → Version) → Version → List BindEntry → ℕ → ℤ
index_from key v table zero = negsuc 0
index_from key v table (suc i) =
    let rest = index_from key v table i in
    if ltb_ℤ (rga_version_compare v (key (entry_at table i))) (pos 0)
    then rest
    else if i == length table - 1
    then pos i
    else if ltb_ℤ (pos 0) (rga_version_compare (key (entry_at table (i + 1))) v)
    then pos i
    else rest

pub rga_version_table_get_current_index : Version → List BindEntry → ℤ
rga_version_table_get_current_index v table = index_from (λ e. e.current) v table (length table)

pub rga_version_table_get_minimum_index : Version → List BindEntry → ℤ
rga_version_table_get_minimum_index v table = index_from (λ e. e.minimum) v table (length table)

pub rga_version_table_check_minimum_range : Version → List BindEntry → ℕ → ℤ
rga_version_table_check_minimum_range v table index =
    if ltb_ℤ (rga_version_compare v (entry_at table index).minimum) (pos 0)
    then negsuc 0
    else if index == length table - 1
    then pos 0
    else if ltb_ℤ (rga_version_compare v (entry_at table (index + 1)).minimum) (pos 0)
    then pos 0
    else pos 1

-- The callbacks of rga_version_check_ops_t. What the other four return is dropped by the caller,
-- and all that they do is to log, so only the first one is kept.
pub record CheckOps : Type 0 where
  pub get_current_index_failed : Option (Version → Version → Status)

pub get_current_index_failed_default : Version → Version → Status
get_current_index_failed_default v w = error_version

pub get_current_index_failed_user_header : Version → Version → Status
get_current_index_failed_user_header v w = error_version

pub get_current_index_failed_user_driver : Version → Version → Status
get_current_index_failed_user_driver v w = error_version

abbrev check_user_header_ops : CheckOps
check_user_header_ops = record {
  get_current_index_failed = some get_current_index_failed_user_header;
}

abbrev check_user_driver_ops : CheckOps
check_user_driver_ops = record {
  get_current_index_failed = some get_current_index_failed_user_driver;
}

current_index_failed : CheckOps → Version → Version → Status
unfolding get_current_index_failed_default
current_index_failed ops v w = elim ops.get_current_index_failed [
  | none ↦ get_current_index_failed_default v w
  | some f ↦ f v w
]

-- The switch on the range. Its cases call the callbacks, which log, and return a number each; the
-- case 1 looks for the entry to name in the log and returns 1 whether there is one or not.
range_result : ℤ → ℤ
range_result range =
    if eqb_ℤ range (pos 0)
    then pos 0
    else if eqb_ℤ range (negsuc 0)
    then negsuc 0
    else if eqb_ℤ range (pos 1)
    then pos 1
    else status_code failed

-- An index below 0 does not reach the switch.
check_range : Version → List BindEntry → ℤ → ℤ
unfolding range_result
check_range w table index =
    range_result (rga_version_table_check_minimum_range w table (pos_part index))

pub rga_version_check : Version → Version → List BindEntry → CheckOps → ℤ
unfolding current_index_failed check_range
rga_version_check v w table ops =
    let index = rga_version_table_get_current_index v table in
    if ltb_ℤ index (pos 0)
    then status_code (current_index_failed ops v w)
    else check_range w table index

abbrev pub version : ℕ → ℕ → ℕ → List ℕ → Version
version major minor revision str = record {
  major = major;
  minor = minor;
  revision = revision;
  str = str;
}

-- Digits and points of the texts.
abbrev dotted : ℕ → ℕ → ℕ → List ℕ
dotted a b c = (b'0' + a) ∷ b'.' ∷ (b'0' + b) ∷ b'.' ∷ (b'0' + c) ∷ []

abbrev bind : Version → Version → BindEntry
bind v w = record { current = v; minimum = w }

abbrev pub user_driver_bind_table : List BindEntry
user_driver_bind_table =
    bind (version 0 0 0 (dotted 0 0 0)) (version 0 0 0 (dotted 0 0 0))
    ∷ bind (version 1 0 3 (dotted 1 0 3)) (version 0 0 0 (dotted 0 0 0))
    ∷ bind (version 1 6 0 (dotted 1 6 0)) (version 1 1 5 (dotted 1 1 5))
    ∷ bind (version 1 7 2 (dotted 1 7 2)) (version 1 2 0 (dotted 1 2 0))
    ∷ bind (version 1 7 3 (dotted 1 7 3)) (version 1 2 4 (dotted 1 2 4))
    ∷ []

abbrev pub user_header_bind_table : List BindEntry
user_header_bind_table =
    bind (version 0 0 0 (dotted 0 0 0)) (version 0 0 0 (dotted 0 0 0))
    ∷ bind (version 1 0 3 (dotted 1 0 3)) (version 1 0 3 (dotted 1 0 3))
    ∷ bind (version 1 4 0 (dotted 1 4 0)) (version 1 4 0 (dotted 1 4 0))
    ∷ []

-- RGA_SET_CURRENT_API_VERSION
abbrev pub current_api_version : Version
current_api_version = version 1 10 5 (b'1' ∷ b'.' ∷ b'1' ∷ b'0' ∷ b'.' ∷ b'5' ∷ [])

-- RGA_CURRENT_API_VERSION: major, minor, revision and build in a byte each.
unfoldable pub pack_api_version : ℕ → ℕ → ℕ → ℕ → ℕ
pack_api_version major minor revision build =
    major % 256 * 2 ^ 24 + minor % 256 * 2 ^ 16 + revision % 256 * 2 ^ 8 + build % 256

-- RGA_GET_API_VERSION
unfoldable pub get_api_version : ℕ → Version
get_api_version v = version (v / 2 ^ 24 % 256) (v / 2 ^ 16 % 256) (v / 2 ^ 8 % 256) []

unfoldable pub rga_check_header : Version → Status
rga_check_header header =
    if eqb_ℤ
      (rga_version_check current_api_version header user_header_bind_table check_user_header_ops)
      (pos 0)
    then success
    else error_version

unfoldable pub rga_check_driver : Version → Status
rga_check_driver driver =
    let ret =
      rga_version_check current_api_version driver user_driver_bind_table check_user_driver_ops in
    if eqb_ℤ ret (pos 0) then success else if eqb_ℤ ret (negsuc 0) then success else error_version

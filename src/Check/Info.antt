-- ===== src/Check/Info.antt =====
-- rga_check_info of im2d_api/src/im2d_impl.cpp: the sizes of an image and its rectangle.
use librga_rockchip.Base.{
  not, ℕ, ◌+◌, ◌^◌, ◌<◌, ◌≤◌, ◌≡◌, ◌↔◌, false, ◌&&◌, ◌||◌, arith, if◌then◌else◌,
}
use librga_rockchip.Base.Int.{
  ℤ, pos, negsuc, ◌≤ℤ◌, ltb_ℤ, eqb_ℤ, pos_part, add_int, add_int-pos, add_int_wraps,
}
use librga_rockchip.Base.Bits.{test_bit}
use librga_rockchip.Status.{
  Status, noerror, illegal_param, invalid_param, not_supported, ◌>>◌, reject, >>-iff,
}
use librga_rockchip.Hardware.{Resolution}
use librga_rockchip.Check.{Buffer, Rect, rect}

abbrev pub check_size : Buffer → Status
check_size b =
    reject (not (ltb_ℤ (pos 0) b.width) || not (ltb_ℤ (pos 0) b.height) || test_bit b.format 31)
      illegal_param
    >> reject (ltb_ℤ b.width (pos 2) || ltb_ℤ b.height (pos 2)) illegal_param
    >> reject (ltb_ℤ b.wstride b.width || ltb_ℤ b.hstride b.height) invalid_param

abbrev pub check_rect : Buffer → Rect → Status
check_rect b r =
    reject
      ((eqb_ℤ r.width (pos 0) && ltb_ℤ (pos 0) r.height)
        || (ltb_ℤ (pos 0) r.width && eqb_ℤ r.height (pos 0)))
      illegal_param
    >> reject
        (ltb_ℤ r.width (pos 0) || ltb_ℤ r.height (pos 0) || ltb_ℤ r.x (pos 0) || ltb_ℤ r.y (pos 0))
        illegal_param
    >> reject (ltb_ℤ b.wstride (add_int r.width r.x) || ltb_ℤ b.hstride (add_int r.height r.y))
        invalid_param

abbrev pub check_resolution : Buffer → Rect → Resolution → Status
check_resolution b r res =
    if ltb_ℤ res.width b.width || ltb_ℤ res.height b.height
    then not_supported
    else reject
        ((ltb_ℤ (pos 0) r.width && ltb_ℤ res.width r.width)
          || (ltb_ℤ (pos 0) r.height && ltb_ℤ res.height r.height))
        not_supported

unfoldable pub rga_check_info : Buffer → Rect → Resolution → Status
rga_check_info b r res = check_size b >> check_rect b r >> check_resolution b r res

abbrev pub SizeFits : Buffer → Type 0
SizeFits b =
    (pos 2 ≤ℤ b.width)
    × (pos 2 ≤ℤ b.height)
    × (test_bit b.format 31 ≡ false)
    × (b.width ≤ℤ b.wstride)
    × (b.height ≤ℤ b.hstride)

-- The rectangle is empty or has both sizes, and it lies within the strides.
abbrev pub RectFits : Buffer → Rect → Type 0
RectFits b r =
    (pos 0 ≤ℤ r.x)
    × (pos 0 ≤ℤ r.y)
    × (pos 0 ≤ℤ r.width)
    × (pos 0 ≤ℤ r.height)
    × ((r.width ≡ pos 0) ↔ (r.height ≡ pos 0))
    × (pos (pos_part r.x + pos_part r.width) ≤ℤ b.wstride)
    × (pos (pos_part r.y + pos_part r.height) ≤ℤ b.hstride)

abbrev pub ResolutionFits : Buffer → Rect → Resolution → Type 0
ResolutionFits b r res =
    (b.width ≤ℤ res.width)
    × (b.height ≤ℤ res.height)
    × (r.width ≤ℤ res.width)
    × (r.height ≤ℤ res.height)

-- The sums of the rectangle's coordinates are in the range of int.
abbrev pub InRange : Rect → Type 0
InRange r = (pos_part r.x + pos_part r.width < 2 ^ 31) × (pos_part r.y + pos_part r.height < 2 ^ 31)

check_size_iff : (b : Buffer) → (check_size b ≡ noerror) ↔ SizeFits b
check_size_iff b = ground arith

check_resolution_iff :
    (b : Buffer) (r : Rect) (res : Resolution)
    → pos 2 ≤ℤ b.width
    → pos 2 ≤ℤ b.height
    → (check_resolution b r res ≡ noerror) ↔ ResolutionFits b r res
check_resolution_iff b r res w h = ground arith

pub sum_exact :
    (a b : ℤ)
    → pos 0 ≤ℤ a
    → pos 0 ≤ℤ b
    → pos_part b + pos_part a < 2 ^ 31
    → add_int a b ≡ pos (pos_part b + pos_part a)
sum_exact (pos a) (pos b) p q h = ground (arith, add_int-pos a b (omega arith))
sum_exact (negsuc a) b p q h = absurd (omega arith)
sum_exact a (negsuc b) p q h = absurd (omega arith)

check_rect_iff : (b : Buffer) (r : Rect) → InRange r → (check_rect b r ≡ noerror) ↔ RectFits b r
check_rect_iff b r h = ground (arith, sum_exact r.width r.x, sum_exact r.height r.y)

-- When the sums of the rectangle's coordinates are in the range of int, the check passes exactly
-- when the image has at least two pixels in each direction, its strides are not smaller than its
-- sizes, the rectangle is empty or has both sizes, is not negative and lies within the strides, and
-- neither the image nor the rectangle is larger than the hardware takes.
pub rga_check_info_iff :
    (b : Buffer) (r : Rect) (res : Resolution)
    → InRange r
    → (rga_check_info b r res ≡ noerror) ↔ (SizeFits b × RectFits b r × ResolutionFits b r res)
unfolding rga_check_info
rga_check_info_iff b r res h = (
  λ e.
      let (front, last) =
        (>>-iff (check_size b >> check_rect b r) (check_resolution b r res)).0 e in
      let (p, q) = (>>-iff (check_size b) (check_rect b r)).0 front in
      let size = (check_size_iff b).0 p in
      (size, (check_rect_iff b r h).0 q, (check_resolution_iff b r res size.0 size.1).0 last),
  λ (size, rect, resolution).
      (>>-iff (check_size b >> check_rect b r) (check_resolution b r res)).1 (
        (>>-iff (check_size b) (check_rect b r)).1
            ((check_size_iff b).1 size, (check_rect_iff b r h).1 rect),
        (check_resolution_iff b r res size.0 size.1).1 resolution,
      ),
)

check_rect_wraps :
    (b : Buffer) (w h x y : ℕ)
    → SizeFits b
    → 0 < w
    → 0 < h
    → w < 2 ^ 31
    → x < 2 ^ 31
    → 2 ^ 31 ≤ w + x
    → h + y < 2 ^ 31
    → pos (h + y) ≤ℤ b.hstride
    → check_rect b (rect (pos x) (pos y) (pos w) (pos h)) ≡ noerror
check_rect_wraps b w h x y s pw ph w31 x31 over hy fits =
    ground (arith, add_int_wraps w x w31 x31 over, add_int-pos h y hy)

-- A rectangle whose right edge is beyond the range of int passes the check, however small the
-- image is, when the sum of its x and width wraps around and the rest of it fits.
pub rga_check_info_wraps :
    (b : Buffer) (w h x y : ℕ) (res : Resolution)
    → SizeFits b
    → 0 < w
    → 0 < h
    → w < 2 ^ 31
    → x < 2 ^ 31
    → 2 ^ 31 ≤ w + x
    → h + y < 2 ^ 31
    → pos (h + y) ≤ℤ b.hstride
    → ResolutionFits b (rect (pos x) (pos y) (pos w) (pos h)) res
    → rga_check_info b (rect (pos x) (pos y) (pos w) (pos h)) res ≡ noerror
unfolding rga_check_info
rga_check_info_wraps b w h x y res s pw ph w31 x31 over hy fits r =
    let size = (check_size_iff b).1 s in
    let sides = check_rect_wraps b w h x y s pw ph w31 x31 over hy fits in
    let whole = (check_resolution_iff b (rect (pos x) (pos y) (pos w) (pos h)) res s.0 s.1).1 r in
    let q = rect (pos x) (pos y) (pos w) (pos h) in
    (>>-iff (check_size b >> check_rect b q) (check_resolution b q res)).1
      ((>>-iff (check_size b) (check_rect b q)).1 (size, sides), whole)

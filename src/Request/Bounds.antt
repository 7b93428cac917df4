-- ===== src/Request/Bounds.antt =====
-- Rectangles within their images, and where a rotation starts.
use librga_rockchip.Base.{
  ℕ, ◌+◌, ◌%◌, ◌^◌, ◌≤◌, ◌<◌, ◌≡◌, ◌↔◌, refl, sym, Bool, true, false, not, ◌||◌, ◌&&◌, arith,
  if◌then◌else◌,
}
use librga_rockchip.Base.Int.{ℤ, pos, negsuc, pos_part, neg_part, ◌≤ℤ◌, has_rem}
use librga_rockchip.Check.Info.{sum_exact}
use librga_rockchip.Format.{is_yuv_format}
use librga_rockchip.Request.Info.{InfoRect}
use librga_rockchip.Request.Rects.{check_rect_for_rga, bad_area, bad_yuv, rk_rga_get_rga_format}
use librga_rockchip.Request.Compat.{Rga2ImgInfo, rotate_offsets}

-- A rectangle at (x, y) of w * h pixels in an image of ws * hs pixels.
abbrev pub area : ℤ → ℤ → ℤ → ℤ → ℤ → ℤ → ℕ → InfoRect
area x y w h ws hs format = record {
  xoffset = x;
  yoffset = y;
  width = w;
  height = h;
  wstride = ws;
  hstride = hs;
  format = format;
}

-- The number is a multiple of m.
abbrev pub Multiple : ℕ → ℤ → Type 0
Multiple m a = (pos_part a + neg_part a) % m ≡ 0

abbrev pub Even : ℤ → Type 0
Even = Multiple 2

-- At least 2 * 2 pixels, no negative start, and within the image.
abbrev pub Inside : InfoRect → Type 0
Inside r =
    (pos 0 ≤ℤ r.xoffset)
    × (pos 0 ≤ℤ r.yoffset)
    × (pos 2 ≤ℤ r.width)
    × (pos 2 ≤ℤ r.height)
    × (pos (pos_part r.xoffset + pos_part r.width) ≤ℤ r.wstride)
    × (pos (pos_part r.yoffset + pos_part r.height) ≤ℤ r.hstride)

-- The numbers that the planes of a YUV format ask for.
abbrev pub YuvAligned : InfoRect → Type 0
YuvAligned r =
    Multiple 4 r.wstride
    × Even r.xoffset
    × Even r.width
    × Even r.yoffset
    × Even r.height
    × Even r.hstride

-- The sums of the rectangle's numbers are in the range of int.
abbrev pub SumsFit : InfoRect → Type 0
SumsFit r =
    (pos_part r.xoffset + pos_part r.width < 2 ^ 31)
    × (pos_part r.yoffset + pos_part r.height < 2 ^ 31)

bad_area_iff : (r : InfoRect) → SumsFit r → (bad_area r ≡ false) ↔ Inside r
unfolding bad_area
bad_area_iff r (p, q) = ground (arith, sum_exact r.xoffset r.width, sum_exact r.yoffset r.height)

bad_yuv_iff : (r : InfoRect) → (bad_yuv r ≡ false) ↔ YuvAligned r
unfolding bad_yuv has_rem
bad_yuv_iff r = ground arith

passes_iff :
    {A B : Type 0} (a y b : Bool)
    → (a ≡ false) ↔ A
    → (b ≡ false) ↔ B
    → (not (a || (y && b)) ≡ true) ↔ (A × (y ≡ true → B))
passes_iff true y b (f, g) (h, k) = ((λ e. absurd (cc)), (λ pq. sym (g pq.0)))
passes_iff false true true (f, g) (h, k) = ((λ e. absurd (cc)), (λ pq. sym (k (pq.1 refl))))
passes_iff false true false (f, g) (h, k) = ((λ e. (f refl, λ _. h refl)), (λ p. refl))
passes_iff false false b (f, g) (h, k) = ((λ e. (f refl, λ e'. absurd (cc))), (λ p. refl))

-- For a rectangle of ints, negative ones included, whose sums are in the range of int, the check of a
-- request's rectangle passes exactly when the rectangle starts at no negative number, has at least
-- 2 * 2 pixels, lies within the image and, for a YUV format, has even numbers, with a stride that is
-- a multiple of 4.
pub check_rect_for_rga_iff :
    (linux : Bool) (r : InfoRect)
    → SumsFit r
    → (check_rect_for_rga linux r ≡ true)
      ↔ (Inside r × (is_yuv_format (rk_rga_get_rga_format linux r.format) ≡ true → YuvAligned r))
unfolding check_rect_for_rga
check_rect_for_rga_iff linux r fit =
    passes_iff (bad_area r) (is_yuv_format (rk_rga_get_rga_format linux r.format)) (bad_yuv r)
      (bad_area_iff r fit) (bad_yuv_iff r)

-- The four angles of a rotation, by their sine and cosine, and whether they are a quarter turn.
pub data Angle : ℤ → ℤ → Bool → Type 0 where
  angle_0 : Angle (pos 0) (pos 65536) false
  angle_90 : Angle (pos 65536) (pos 0) true
  angle_180 : Angle (pos 0) (negsuc 65535) false
  angle_270 : Angle (negsuc 65535) (pos 0) true

-- For a target rectangle at (x, y) of w * h pixels within an image of less than 2 ^ 16 pixels a side,
-- whose width and height are exchanged for a quarter turn, the pixel where an older driver starts
-- the rotation is a pixel of the rectangle.
pub rotate_offsets_inside :
    (dst : Rga2ImgInfo) (sina cosa : ℤ) (turned : Bool) (x y w h : ℕ)
    → Angle sina cosa turned
    → dst.x_offset ≡ x
    → dst.y_offset ≡ y
    → dst.act_w ≡ (if turned then h else w)
    → dst.act_h ≡ (if turned then w else h)
    → 0 < w
    → 0 < h
    → x + w < 2 ^ 16
    → y + h < 2 ^ 16
    → (let start = rotate_offsets sina cosa dst in
        (x ≤ start.x_offset)
        × (start.x_offset < x + w)
        × (y ≤ start.y_offset)
        × (start.y_offset < y + h))
unfolding rotate_offsets
rotate_offsets_inside dst _ _ _ x y w h angle_0 a b c d e f g k = ground arith
rotate_offsets_inside dst _ _ _ x y w h angle_90 a b c d e f g k = ground arith
rotate_offsets_inside dst _ _ _ x y w h angle_180 a b c d e f g k = ground arith
rotate_offsets_inside dst _ _ _ x y w h angle_270 a b c d e f g k = ground arith

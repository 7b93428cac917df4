-- ===== src/Request/Rects.antt =====
-- Formats and rectangles as core/NormalRgaApi.cpp sees them, in a build that is not for Android.
use librga_rockchip.Base.{
  ℕ, ◌-◌, ◌*◌, ◌/◌, ◌^◌, Bool, not, ◌||◌, ◌&&◌, ◌==◌, if◌then◌else◌, [], ◌∷◌,
}
use librga_rockchip.Base.Int.{pos, ltb_ℤ, add_int, has_rem, eqb_ℤ}
use librga_rockchip.Base.Words.{field}
use librga_rockchip.Format.{
  case_in, is_yuv_format, rgba_8888, rgbx_8888, bgra_8888, bgrx_8888, argb_8888, xrgb_8888,
  abgr_8888, xbgr_8888, rgb_888, bgr_888, rgb_565, rgba_5551, rgba_4444, bgr_565, bgra_5551,
  bgra_4444, argb_5551, argb_4444, abgr_5551, abgr_4444, bpp1, bpp2, bpp4, bpp8,
}
use librga_rockchip.Request.Info.{InfoRect}

-- RkRgaCompatibleFormat; `linux` is the macro LINUX.
unfoldable pub rk_rga_compatible_format : Bool → ℕ → ℕ
rk_rga_compatible_format linux f =
    if linux then (if f == 0 then f else if not (f / 2 ^ 8 == 0) then f else f * 2 ^ 8) else f

-- format & 0xFF00 || format == 0
abbrev is_new : ℕ → Bool
is_new f = not (field f 8 8 == 0) || f == 0

-- RkRgaGetRgaFormat, with -1 as a bit pattern.
unfoldable pub rk_rga_get_rga_format : Bool → ℕ → ℕ
unfolding rk_rga_compatible_format
rk_rga_get_rga_format linux f =
    if is_new f
    then f
    else let g = rk_rga_compatible_format linux f in if is_new g then g else 2 ^ 32 - 1

unfoldable pub bytes_per_pixel : Bool → ℕ → ℕ
unfolding rk_rga_compatible_format
bytes_per_pixel linux format =
    let f = if is_new format then format else rk_rga_compatible_format linux format in
    if case_in f (
      rgba_8888 ∷ rgbx_8888 ∷ bgra_8888 ∷ bgrx_8888 ∷ argb_8888 ∷ xrgb_8888 ∷ abgr_8888 ∷ xbgr_8888
      ∷ [])
    then 4
    else if case_in f (rgb_888 ∷ bgr_888 ∷ [])
    then 3
    else if case_in f (
        rgb_565 ∷ rgba_5551 ∷ rgba_4444 ∷ bgr_565 ∷ bgra_5551 ∷ bgra_4444 ∷ argb_5551 ∷ argb_4444
        ∷ abgr_5551 ∷ abgr_4444 ∷ [])
    then 2
    else if case_in f (bpp1 ∷ bpp2 ∷ bpp4 ∷ bpp8 ∷ [])
    then 1
    else 0

unfoldable pub is_rect_valid : InfoRect → Bool
is_rect_valid r = ltb_ℤ (pos 0) r.width && ltb_ℤ (pos 0) r.height

-- The tests of checkRectForRga for all formats, and those for YUV formats.
unfoldable pub bad_area : InfoRect → Bool
bad_area r =
    ltb_ℤ r.xoffset (pos 0)
    || ltb_ℤ r.yoffset (pos 0)
    || (ltb_ℤ r.width (pos 2) || ltb_ℤ r.height (pos 2))
    || ltb_ℤ r.wstride (add_int r.xoffset r.width)
    || ltb_ℤ r.hstride (add_int r.yoffset r.height)

unfoldable pub bad_yuv : InfoRect → Bool
bad_yuv r =
    has_rem r.wstride 4
    || has_rem r.xoffset 2
    || has_rem r.width 2
    || has_rem r.yoffset 2
    || has_rem r.height 2
    || has_rem r.hstride 2

-- checkRectForRga(rect) == 0
unfoldable pub check_rect_for_rga : Bool → InfoRect → Bool
unfolding bad_area bad_yuv rk_rga_get_rga_format is_yuv_format
check_rect_for_rga linux r =
    not (bad_area r || (is_yuv_format (rk_rga_get_rga_format linux r.format) && bad_yuv r))

-- if (rect.hstride == 0) rect.hstride = rect.height;
abbrev pub default_hstride : InfoRect → InfoRect
default_hstride r = if eqb_ℤ r.hstride (pos 0) then record r { hstride = r.height } else r

-- rect.format = RkRgaCompatibleFormat(rect.format);
abbrev pub compatible_rect : Bool → InfoRect → InfoRect
compatible_rect linux r = record r { format = rk_rga_compatible_format linux r.format }

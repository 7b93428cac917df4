-- ===== src/Check/Need.antt =====
-- What each format asks of the hardware and of the image, and that rga_check_format asks just this.
use librga_rockchip.Base.{
  ℕ, ◌≡◌, ◌≢◌, refl, subst, sym, ap, ◌↔◌, ◌⊎◌, inl, inr, true, false, not, ◌&&◌, List, [], ◌∷◌,
  ◌==◌, ==_iff, arith, Bool-cases,
}
use librga_rockchip.Base.Int.{has_rem}
use librga_rockchip.Status.{Status, noerror, not_supported, ◌>>◌, reject, >>-iff}
use librga_rockchip.Format.{
  Format, code, case_in, rgba_8888, rgbx_8888, rgb_888, bgra_8888, rgb_565, rgba_5551, rgba_4444,
  bgr_888, ycbcr_422_sp, ycbcr_422_p, ycbcr_420_sp, ycbcr_420_p, ycrcb_422_sp, ycrcb_422_p,
  ycrcb_420_sp, ycrcb_420_p, bpp1, bpp2, bpp4, bpp8, y4, ycbcr_400, bgrx_8888, yvyu_422, yvyu_420,
  vyuy_422, vyuy_420, yuyv_422, yuyv_420, uyvy_422, uyvy_420, ycbcr_420_sp_10b, ycrcb_420_sp_10b,
  ycbcr_422_sp_10b, ycrcb_422_sp_10b, bgr_565, bgra_5551, bgra_4444, argb_8888, xrgb_8888,
  argb_1555, argb_4444, abgr_8888, xbgr_8888, abgr_1555, abgr_4444, rgba2bpp, a8, ycbcr_444_sp,
  ycrcb_444_sp, y8, rgba_1010102, bgra_1010102, argb_2101010, abgr_2101010, rgbx_1010102,
  bgrx_1010102, xrgb_2101010, xbgr_2101010, yuv_444_10b, y210, p010, p210, unknown,
}
use librga_rockchip.Hardware.{
  FormatFlag, rgb, argb_16bit, rgba_16bit, bpp, yuv_420_semi_planner_8_bit, yuv_420_planner_8_bit,
  yuv_422_semi_planner_8_bit, yuv_422_planner_8_bit, yuv_420_semi_planner_10_bit,
  yuv_422_semi_planner_10_bit, yuyv_420 as flag_yuyv_420, yuyv_422 as flag_yuyv_422, yuv_400,
  y4 as flag_y4, rgba2bpp as flag_rgba2bpp, alpha_8_bit, yuv_444_semi_planner_8_bit, y8 as flag_y8,
  rgba_1010102 as flag_rgba_1010102, yuv_444_paced_10_bit,
}
use librga_rockchip.Check.{Buffer, Rect, uses, im_color_palette, rga_yuv_legality_check}
use librga_rockchip.Check.Formats.{
  rga_check_format, check_more_formats, check_last_formats, needs, legal, offers,
}

-- A flag of the hardware, alone, or unless the operation uses a palette, or with even sizes.
pub data Need : Type 0 where
  plain : FormatFlag → Need
  palette : FormatFlag → Need
  even : FormatFlag → Need
  never : Need

abbrev pub need : Format → Need
need rgba_8888 = plain rgb
need rgbx_8888 = plain rgb
need rgb_888 = plain rgb
need bgra_8888 = plain rgb
need rgb_565 = plain rgb
need rgba_5551 = plain rgba_16bit
need rgba_4444 = plain rgba_16bit
need bgr_888 = plain rgb
need ycbcr_422_sp = even yuv_422_semi_planner_8_bit
need ycbcr_422_p = even yuv_422_planner_8_bit
need ycbcr_420_sp = even yuv_420_semi_planner_8_bit
need ycbcr_420_p = even yuv_420_planner_8_bit
need ycrcb_422_sp = even yuv_422_semi_planner_8_bit
need ycrcb_422_p = even yuv_422_planner_8_bit
need ycrcb_420_sp = even yuv_420_semi_planner_8_bit
need ycrcb_420_p = even yuv_420_planner_8_bit
need bpp1 = palette bpp
need bpp2 = palette bpp
need bpp4 = palette bpp
need bpp8 = palette bpp
need y4 = even flag_y4
need ycbcr_400 = even yuv_400
need bgrx_8888 = plain rgb
need yvyu_422 = even flag_yuyv_422
need yvyu_420 = even flag_yuyv_420
need vyuy_422 = even flag_yuyv_422
need vyuy_420 = even flag_yuyv_420
need yuyv_422 = even flag_yuyv_422
need yuyv_420 = even flag_yuyv_420
need uyvy_422 = even flag_yuyv_422
need uyvy_420 = even flag_yuyv_420
need ycbcr_420_sp_10b = even yuv_420_semi_planner_10_bit
need ycrcb_420_sp_10b = even yuv_420_semi_planner_10_bit
need ycbcr_422_sp_10b = even yuv_422_semi_planner_10_bit
need ycrcb_422_sp_10b = even yuv_422_semi_planner_10_bit
need bgr_565 = plain rgb
need bgra_5551 = plain rgba_16bit
need bgra_4444 = plain rgba_16bit
need argb_8888 = plain rgb
need xrgb_8888 = plain rgb
need argb_1555 = plain argb_16bit
need argb_4444 = plain argb_16bit
need abgr_8888 = plain rgb
need xbgr_8888 = plain rgb
need abgr_1555 = plain argb_16bit
need abgr_4444 = plain argb_16bit
need rgba2bpp = plain flag_rgba2bpp
need a8 = plain alpha_8_bit
need ycbcr_444_sp = even yuv_444_semi_planner_8_bit
need ycrcb_444_sp = even yuv_444_semi_planner_8_bit
need y8 = even flag_y8
need rgba_1010102 = plain flag_rgba_1010102
need bgra_1010102 = plain flag_rgba_1010102
need argb_2101010 = plain flag_rgba_1010102
need abgr_2101010 = plain flag_rgba_1010102
need rgbx_1010102 = plain flag_rgba_1010102
need bgrx_1010102 = plain flag_rgba_1010102
need xrgb_2101010 = plain flag_rgba_1010102
need xbgr_2101010 = plain flag_rgba_1010102
need yuv_444_10b = even yuv_444_paced_10_bit
need _ = never

abbrev all_formats : List Format
all_formats =
    rgba_8888 ∷ rgbx_8888 ∷ rgb_888 ∷ bgra_8888 ∷ rgb_565 ∷ rgba_5551 ∷ rgba_4444 ∷ bgr_888
    ∷ ycbcr_422_sp ∷ ycbcr_422_p ∷ ycbcr_420_sp ∷ ycbcr_420_p ∷ ycrcb_422_sp ∷ ycrcb_422_p
    ∷ ycrcb_420_sp ∷ ycrcb_420_p ∷ bpp1 ∷ bpp2 ∷ bpp4 ∷ bpp8 ∷ y4 ∷ ycbcr_400 ∷ bgrx_8888 ∷ yvyu_422
    ∷ yvyu_420 ∷ vyuy_422 ∷ vyuy_420 ∷ yuyv_422 ∷ yuyv_420 ∷ uyvy_422 ∷ uyvy_420 ∷ ycbcr_420_sp_10b
    ∷ ycrcb_420_sp_10b ∷ ycbcr_422_sp_10b ∷ ycrcb_422_sp_10b ∷ bgr_565 ∷ bgra_5551 ∷ bgra_4444
    ∷ argb_8888 ∷ xrgb_8888 ∷ argb_1555 ∷ argb_4444 ∷ abgr_8888 ∷ xbgr_8888 ∷ abgr_1555 ∷ abgr_4444
    ∷ rgba2bpp ∷ a8 ∷ ycbcr_444_sp ∷ ycrcb_444_sp ∷ y8 ∷ rgba_1010102 ∷ bgra_1010102 ∷ argb_2101010
    ∷ abgr_2101010 ∷ rgbx_1010102 ∷ bgrx_1010102 ∷ xrgb_2101010 ∷ xbgr_2101010 ∷ yuv_444_10b ∷ y210
    ∷ p010 ∷ p210 ∷ unknown ∷ []

-- Every size and position is even.
abbrev pub Even : Buffer → Rect → Type 0
Even b r =
    (has_rem b.wstride 2 ≡ false)
    × (has_rem b.hstride 2 ≡ false)
    × (has_rem b.width 2 ≡ false)
    × (has_rem b.height 2 ≡ false)
    × (has_rem r.x 2 ≡ false)
    × (has_rem r.y 2 ≡ false)
    × (has_rem r.width 2 ≡ false)
    × (has_rem r.height 2 ≡ false)

abbrev pub Meets : Need → Buffer → Rect → ℕ → ℕ → Type 0
Meets (plain flag) b r usage mode = offers usage flag ≡ true
Meets (palette flag) b r usage mode =
    (offers usage flag ≡ true) ⊎ (uses mode im_color_palette ≡ true)
Meets (even flag) b r usage mode = (offers usage flag ≡ true) × Even b r
Meets never b r usage mode = ⊥

-- What the check answers for a need.
answer : Need → Buffer → Rect → ℕ → ℕ → Status
answer (plain flag) b r usage mode = needs usage flag
answer (palette flag) b r usage mode =
    reject (not (offers usage flag) && not (uses mode im_color_palette)) not_supported
answer (even flag) b r usage mode = needs usage flag >> legal b r
answer never b r usage mode = not_supported

legal_iff : (b : Buffer) (r : Rect) → (legal b r ≡ noerror) ↔ Even b r
unfolding rga_yuv_legality_check
legal_iff b r = ground arith

answer_iff :
    (n : Need) (b : Buffer) (r : Rect) (usage mode : ℕ)
    → (answer n b r usage mode ≡ noerror) ↔ Meets n b r usage mode
unfolding answer
answer_iff (plain flag) b r usage mode = ground arith
answer_iff (palette flag) b r usage mode = ground arith
answer_iff (even flag) b r usage mode =
    ground (arith, >>-iff (needs usage flag) (legal b r), legal_iff b r)
answer_iff never b r usage mode = ground arith

-- The chain on the code of a format.
chain_code :
    (f : Format) (b : Buffer) (r : Rect) (usage mode : ℕ)
    → rga_check_format (record b { format = code f }) r usage mode
      ≡ answer (need f) (record b { format = code f }) r usage mode
unfolding rga_check_format check_more_formats check_last_formats case_in code answer
chain_code rgba_8888 b r usage mode = refl
chain_code f b r usage mode = refl

all_formats_complete : (f : Format) → case_in (code f) all_formats ≡ true
unfolding case_in code
all_formats_complete rgba_8888 = refl
all_formats_complete f = refl

case_in-code : (f : ℕ) (xs : List Format) → case_in f xs ≡ true → (x : Format) × (f ≡ code x)
unfolding case_in
case_in-code f [] h = absurd (ground arith)
case_in-code f (x ∷ xs) h = elim (Bool-cases (f == code x)) [
  | inl e ↦ (x, (==_iff f (code x)).0 e)
  | inr n ↦ case_in-code f xs (ground arith)
]

case_in-none : (f : ℕ) → ((x : Format) → f ≢ code x) → (xs : List Format) → case_in f xs ≡ false
unfolding case_in
case_in-none f unlike [] = refl
case_in-none f unlike (x ∷ xs) =
    ground (arith, unlike x, ==_iff f (code x), case_in-none f unlike xs)

-- A number is the code of a format or it is none.
pub code_cases : (f : ℕ) → ((x : Format) × (f ≡ code x)) ⊎ ((x : Format) → f ≢ code x)
code_cases f = elim (Bool-cases (case_in f all_formats)) [
  | inl h ↦ inl (case_in-code f all_formats h)
  | inr n ↦ inr (λ x e. ground (arith, all_formats_complete x, ap (λ g. case_in g all_formats) e))
]

chain_format :
    (f : Format) (b : Buffer) (r : Rect) (usage mode : ℕ)
    → b.format ≡ code f
    → rga_check_format b r usage mode ≡ answer (need f) b r usage mode
chain_format f b r usage mode e =
    subst
      (λ n.
        rga_check_format (record b { format = n }) r usage mode
        ≡ answer (need f) (record b { format = n }) r usage mode)
      (sym e) (chain_code f b r usage mode)

chain_unlike :
    (b : Buffer) (r : Rect) (usage mode : ℕ)
    → ((x : Format) → b.format ≢ code x)
    → rga_check_format b r usage mode ≡ not_supported
unfolding rga_check_format check_more_formats check_last_formats
chain_unlike b r usage mode unlike = simp (case_in-none b.format unlike)

-- The check of a format passes exactly for the formats that need something and have it: the flag of
-- the hardware for the format's kind, or a palette operation for the BPP formats, and even sizes,
-- strides and positions for the YUV formats.
pub rga_check_format_iff :
    (b : Buffer) (r : Rect) (usage mode : ℕ)
    → (rga_check_format b r usage mode ≡ noerror)
      ↔ ((f : Format) × (b.format ≡ code f) × Meets (need f) b r usage mode)
rga_check_format_iff b r usage mode = (
  λ h. elim (code_cases b.format) [
    | inl (f, e) ↦
        (f, e, (answer_iff (need f) b r usage mode).0 (rw (chain_format f b r usage mode e) at h))
    | inr unlike ↦ absurd (ground (arith, chain_unlike b r usage mode unlike))
  ],
  λ (f, e, m). rw (chain_format f b r usage mode e) ((answer_iff (need f) b r usage mode).1 m),
)

-- ===== src/Format/Classes.antt =====
-- The classes of formats, and the conversion on the library's own codes.
use librga_rockchip.Base.{
  ℕ, ◌/◌, ◌%◌, ◌^◌, ◌<◌, ◌≡◌, ◌≢◌, ◌⊎◌, inl, inr, refl, Bool, true, false, not, ◌&&◌, ◌||◌, List,
  [], ◌∷◌, arith, ◌==◌, Bool-cases, ==_iff, All,
}
use librga_rockchip.Format.{
  Format, code, case_in, is_rga_format, is_rgb_format, is_yuv_format, is_bpp_format,
  is_alpha_format, rgba_8888, rgba2bpp, unknown,
}
use librga_rockchip.Format.Convert.{
  convert_to_rga_format, convert_compatible, get_format_from_drm_fourcc, drm_fourcc_table,
}

-- A code that a switch takes is the code of one of its formats.
pub case_in-format : (f : ℕ) (xs : List Format) → case_in f xs ≡ true → (x : Format) × (f ≡ code x)
unfolding case_in
case_in-format f [] h = absurd (cc)
case_in-format f (x ∷ xs) h = elim (Bool-cases (f == code x)) [
  | inl hit ↦ (x, (==_iff f (code x)).0 hit)
  | inr miss ↦ case_in-format f xs (rw miss at h)
]

-- What is checked of each format's code.
class_test : ℕ → Bool
class_test f =
    not (is_rgb_format f && is_yuv_format f)
    && not (is_rgb_format f && is_bpp_format f)
    && not (is_yuv_format f && is_bpp_format f)
    && (not (is_alpha_format f) || is_rgb_format f || f == code rgba2bpp)

class_table : (x : Format) → class_test (code x) ≡ true
unfolding class_test code case_in is_rgb_format is_yuv_format is_bpp_format is_alpha_format
class_table rgba_8888 = refl
class_table _ = refl

class_test_of : (f : ℕ) (xs : List Format) → case_in f xs ≡ true → class_test f ≡ true
class_test_of f xs h = let (x, e) = case_in-format f xs h in rw e (class_table x)

pub rgb-code : (f : ℕ) → is_rgb_format f ≡ true → (x : Format) × (f ≡ code x)
unfolding is_rgb_format
rgb-code f h = case_in-format f _ h

rgb-class_test : (f : ℕ) → is_rgb_format f ≡ true → class_test f ≡ true
unfolding is_rgb_format
rgb-class_test f h = class_test_of f _ h

yuv-class_test : (f : ℕ) → is_yuv_format f ≡ true → class_test f ≡ true
unfolding is_yuv_format
yuv-class_test f h = class_test_of f _ h

alpha-class_test : (f : ℕ) → is_alpha_format f ≡ true → class_test f ≡ true
unfolding is_alpha_format
alpha-class_test f h = class_test_of f _ h

-- No code is of two of the classes RGB, YUV and BPP, and a code with alpha is of the class RGB or
-- is RGBA2BPP.
pub classes_apart :
    (f : ℕ)
    → ¬ ((is_rgb_format f ≡ true) × (is_yuv_format f ≡ true))
      × ¬ ((is_rgb_format f ≡ true) × (is_bpp_format f ≡ true))
      × ¬ ((is_yuv_format f ≡ true) × (is_bpp_format f ≡ true))
      × ((is_alpha_format f && not (is_rgb_format f) && not (f == code rgba2bpp)) ≡ false)
unfolding class_test
classes_apart f = (
  λ h. ground (arith, rgb-class_test f h.0),
  λ h. ground (arith, rgb-class_test f h.0),
  λ h. ground (arith, yuv-class_test f h.0),
  elim (Bool-cases (is_alpha_format f)) [
    | inl h ↦ ground (arith, alpha-class_test f h)
    | inr h ↦ rw h
  ],
)

-- The conversion of the library's own codes gives them back, on both builds.
pub convert-code : (linux : Bool) (x : Format) → convert_to_rga_format linux (code x) ≡ code x
unfolding convert_to_rga_format convert_compatible code
convert-code true rgba_8888 = refl
convert-code true _ = refl
convert-code false rgba_8888 = refl
convert-code false _ = refl

-- On Linux a code may be given in its old form, without the shift by 8 bits.
pub convert_legacy :
    (x : Format) → x ≢ unknown → convert_to_rga_format true (code x / 2 ^ 8) ≡ code x
unfolding convert_to_rga_format convert_compatible code
convert_legacy unknown h = absurd (h refl)
convert_legacy _ h = refl

-- Every DRM code of the table but the invalid 0 converts to the format beside it.
pub convert_drm :
    (linux : Bool)
    → All (λ r. r.0 ≢ 0 → convert_to_rga_format linux r.0 ≡ code r.1) drm_fourcc_table
unfolding convert_to_rga_format get_format_from_drm_fourcc
convert_drm linux = omega arith

-- What comes out of the conversion: a multiple of 256 that is UNKNOWN or that is_rga_format accepts.
abbrev pub IsConverted : ℕ → Type 0
IsConverted r = (r % 2 ^ 8 ≡ 0) × ((r ≡ code unknown) ⊎ (is_rga_format r ≡ true)) × (r < 2 ^ 32)

convert_of_IsConverted : (linux : Bool) (r : ℕ) → IsConverted r → convert_to_rga_format linux r ≡ r
unfolding convert_to_rga_format convert_compatible code
convert_of_IsConverted linux r h = ground arith

-- A code of the library's range is taken as it is, so a row of the Android table whose key is of
-- that form, such as 0x200 for an 8-bit 4:2:0 image, is never used.
pub convert_skips_table :
    (linux : Bool) (f : ℕ)
    → f < 2 ^ 32
    → f % 2 ^ 8 ≡ 0
    → is_rga_format f ≡ true
    → convert_to_rga_format linux f ≡ f
convert_skips_table linux f h low rga = convert_of_IsConverted linux f (low, inr rga, h)

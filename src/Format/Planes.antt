-- ===== src/Format/Planes.antt =====
-- The two tables of pixel sizes, side by side.
use librga_rockchip.Base.{
  ℕ, ◌*◌, ◌≤◌, ◌≡◌, ◌↔◌, ◌⊎◌, inl, inr, refl, Bool, false, not, ◌&&◌, List, arith, ◌==◌,
  if◌then◌else◌, Bool-cases,
}
use librga_rockchip.Format.{Format, code, case_in, is_rgb_format, rgba_8888}
use librga_rockchip.Format.Stride.{
  bpp_quarters, per_pixel_bits, get_bpp_from_format, get_per_pixel_stride_from_format,
}
use librga_rockchip.Format.Convert.{convert_to_rga_format}
use librga_rockchip.Format.Classes.{case_in-format, rgb-code, convert-code}

abbrev IsCode : ℕ → Type 0
IsCode f = (x : Format) × (f ≡ code x)

-- A branch of a switch is taken for the code of a format only.
case_or :
    (f : ℕ) (xs : List Format) (v rest : ℕ)
    → (rest ≡ 0) ⊎ IsCode f
    → ((if case_in f xs then v else rest) ≡ 0) ⊎ IsCode f
case_or f xs v rest h = elim (Bool-cases (case_in f xs)) [
  | inl hit ↦ inr (case_in-format f xs hit)
  | inr miss ↦ rw miss h
]

per_pixel_bits-IsCode : (f : ℕ) → (per_pixel_bits f ≡ 0) ⊎ IsCode f
unfolding per_pixel_bits
per_pixel_bits-IsCode f = case_or f _ _ _ (
    case_or f _ _ _ (
      case_or f _ _ _ (
        case_or f _ _ _
          (case_or f _ _ _ (case_or f _ _ _ (case_or f _ _ _ (case_or f _ _ _ (inl refl))))))))

bpp_quarters-IsCode : (f : ℕ) → (bpp_quarters f ≡ 0) ⊎ IsCode f
unfolding bpp_quarters
bpp_quarters-IsCode f = case_or f _ _ _ (
    case_or f _ _ _ (
      case_or f _ _ _ (
        case_or f _ _ _ (
          case_or f _ _ _ (
            case_or f _ _ _ (
              case_or f _ _ _ (case_or f _ _ _ (case_or f _ _ _ (case_or f _ _ _ (inl refl))))))))))

abbrev Agrees : ℕ → Type 0
Agrees f = (per_pixel_bits f ≤ 2 * bpp_quarters f) × ((per_pixel_bits f ≡ 0) ↔ (bpp_quarters f ≡ 0))

code-Agrees : (x : Format) → Agrees (code x)
unfolding code case_in per_pixel_bits bpp_quarters
code-Agrees rgba_8888 = omega arith
code-Agrees _ = omega arith

any-Agrees : (f : ℕ) → Agrees f
any-Agrees f = elim (per_pixel_bits-IsCode f) [
  | inr (x, e) ↦ rw e (code-Agrees x)
  | inl none_in_plane ↦ elim (bpp_quarters-IsCode f) [
    | inr (x, e) ↦ rw e (code-Agrees x)
    | inl none_at_all ↦ omega arith
  ]
]

rgb_size_table :
    (x : Format)
    → (is_rgb_format (code x) && not (per_pixel_bits (code x) == 2 * bpp_quarters (code x))) ≡ false
unfolding code case_in is_rgb_format per_pixel_bits bpp_quarters
rgb_size_table rgba_8888 = refl
rgb_size_table _ = refl

-- For every code and both builds: the first plane's bits are at most the bits of the whole pixel,
-- eight for each byte; either table answers 0 exactly where the other does; and for an RGB code,
-- which has one plane, the two are the same.
pub stride_fits_bpp :
    (linux : Bool) (f : ℕ)
    → let bits = get_per_pixel_stride_from_format linux f in
      let quarters = get_bpp_from_format linux f in
      (bits ≤ 2 * quarters)
      × ((bits ≡ 0) ↔ (quarters ≡ 0))
      × ((is_rgb_format f && not (bits == 2 * quarters)) ≡ false)
unfolding get_per_pixel_stride_from_format get_bpp_from_format
stride_fits_bpp linux f = let a = any-Agrees (convert_to_rga_format linux f) in (a.0, a.1, same)
  where
    same :
        (is_rgb_format f
          && not (
              per_pixel_bits (convert_to_rga_format linux f)
              == 2 * bpp_quarters (convert_to_rga_format linux f)))
        ≡ false
    same = elim (Bool-cases (is_rgb_format f)) [
      | inr other ↦ rw other
      | inl rgb ↦ let (x, e) = rgb-code f rgb in rw (e, convert-code linux x) (rgb_size_table x)
    ]

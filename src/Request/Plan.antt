-- ===== src/Request/Plan.antt =====
-- What generate_blit_req of im2d_api/src/im2d_impl.cpp decides before it writes: the blend, the scale,
-- the rotation and the colour spaces.
use librga_rockchip.Base.{
  ℕ, ◌*◌, ◌^◌, Bool, true, false, not, ◌||◌, ◌&&◌, ◌==◌, if◌then◌else◌, [], ◌∷◌, Option, none, some,
  switch, leb,
}
use librga_rockchip.Base.Int.{ℤ, pos, ltb_ℤ}
use librga_rockchip.Base.Bits.{bit_or, test_bit}
use librga_rockchip.Base.Words.{field}
use librga_rockchip.Format.{is_yuv_format, is_rgb_format, code, rgb_565, bgr_565}
use librga_rockchip.Csc.{
  yuv_to_rgb_bt601_limit, rgb_to_yuv_bt601_limit, rgb_to_yuv_bt709_limit, full_csc_code,
  rgb2yuv_709_limit,
}
use librga_rockchip.Session.{Session, ioc_rga1}
use librga_rockchip.Request.{Req}
use librga_rockchip.Request.Info.{InfoRect}
use librga_rockchip.Request.Setters.{normal_rga_set_alpha_en_info}
use librga_rockchip.Request.Coefficients.{normal_rga_full_color_space_convert}
use librga_rockchip.Request.Image.{core_0}

-- enum rga_alpha_blend_mode
abbrev pub alpha_blend_src : ℕ
alpha_blend_src = 1

abbrev pub alpha_blend_src_over : ℕ
alpha_blend_src_over = 3

abbrev pub alpha_blend_dst_over : ℕ
alpha_blend_dst_over = 4

-- The global alphas of the foreground and the background, and the blend word, after the modes of the
-- older interface are translated.
unfoldable pub translate_blend : ℕ → ℕ × ℕ × ℕ
translate_blend blend =
    switch (field blend 0 12)
      ((0x405, (field blend 16 8, 0xff, bit_or alpha_blend_src_over (2 ^ 12)))
        ∷ (0x504, (0xff, 0xff, bit_or alpha_blend_dst_over (2 ^ 12)))
        ∷ (0x105, (field blend 16 8, 0xff, alpha_blend_src_over))
        ∷ (0x501, (0xff, 0xff, alpha_blend_dst_over))
        ∷ (0x100, (0xff, 0xff, alpha_blend_src))
        ∷ [])
      (field blend 16 8, field blend 24 8, blend)

-- The blend of the request, and the blend word that is left.
unfoldable pub set_blend : Req → ℕ → Req × ℕ
unfolding translate_blend normal_rga_set_alpha_en_info
set_blend req blend =
    let (fg, bg, word) = translate_blend blend in
    let enabled = record req { feature = record req.feature { global_alpha_en = true } } in
    let set = normal_rga_set_alpha_en_info enabled 1 1 fg bg 1 (field word 0 12) 0 in
    if field blend 0 12 == 0 then (req, blend) else (
      if test_bit word 12
          then record set { alpha_rop_flag = bit_or set.alpha_rop_flag (2 ^ 9) }
          else set,
      word,
    )

-- HAL_TRANSFORM_*
abbrev pub flip_h : ℕ
flip_h = 1

abbrev pub flip_v : ℕ
flip_v = 2

abbrev pub rot_180 : ℕ
rot_180 = 3

abbrev pub rot_90 : ℕ
rot_90 = 4

abbrev pub rot_270 : ℕ
rot_270 = 7

abbrev pub flip_h_v : ℕ
flip_h_v = 8

-- enum rga_scale_interp
abbrev pub interp_default : ℕ
interp_default = 0

abbrev pub interp_linear : ℕ
interp_linear = 1

abbrev pub interp_bicubic : ℕ
interp_bicubic = 2

abbrev pub interp_average : ℕ
interp_average = 3

-- The type float: the quotient of two ints, and its comparisons with a whole number.
module _ {F : Type 0} (quotient : ℤ → ℤ → F) (below above equal : F → ℕ → Bool) where
  -- hScale and vScale, against the third layer or else the target.
  unfoldable pub scales : ℕ → InfoRect → InfoRect → F × F
  scales rotation src other =
      if rotation == rot_90 || rotation == rot_270
      then (quotient src.width other.height, quotient src.height other.width)
      else (quotient src.width other.width, quotient src.height other.height)

  -- The limits; 1/2, 1/8 and 1/16 are quotients of ints, which are 0.
  unfoldable pub scale_rejected : Session → F × F → Bool
  scale_rejected s (h, v) =
      elim s.driver_type [
        | ioc_rga1 ↦
            ((core_0 s).1 == 0 && (below h 0 || below v 0))
            || (leb (core_0 s).0 2 && (below h 0 || above h 8 || below v 0 || above v 8))
        | _ ↦ false
      ]
      || (below h 0 || above h 16 || below v 0 || above v 16)

  abbrev pub is_stretched : F × F → Bool
  is_stretched (h, v) = not (equal h 1) || not (equal v 1)

  -- A vertical bicubic scale is beyond the limit of the line buffer.
  abbrev pub beyond_bicubic : ℤ → ℤ → ℤ → F → Bool
  beyond_bicubic limit src_width dst_width h =
      ltb_ℤ limit src_width || (ltb_ℤ limit dst_width && above h 1)

  unfoldable pub select_interp : ℤ → ℤ → ℤ → F × F → ℕ × ℕ → ℕ × ℕ
  select_interp limit src_width dst_width (h, v) (horiz, verti) = (
    if horiz == interp_default
        then (if above h 1 then interp_average else if below h 1 then interp_bicubic else horiz)
        else horiz,
    if verti == interp_default
        then (if above v 1
            then interp_average
            else if below v 1
            then (if beyond_bicubic limit src_width dst_width h
                then interp_linear
                else interp_bicubic)
            else verti)
        else verti,
  )

  unfoldable pub interp_rejected : ℤ → ℤ → ℤ → F × F → ℕ × ℕ → Bool
  interp_rejected limit src_width dst_width (h, v) (horiz, verti) =
      (verti == interp_bicubic && below v 1 && beyond_bicubic limit src_width dst_width h)
      || (((above v 1 && verti == interp_linear) || (above h 1 && horiz == interp_linear))
          && (below h 1 || below v 1))
      || (above v 1 && verti == interp_linear && ltb_ℤ (pos 4096) dst_width)

-- The switch on the rotation: the angle, rotateMode, and whether the width and the height of the
-- third layer and the target are exchanged.
unfoldable pub orient : ℕ → Bool → ℕ × ℕ × Bool
orient rotation stretch =
    switch (field rotation 0 4)
      ((flip_h, (0, 2, false))
        ∷ (flip_v, (0, 3, false))
        ∷ (flip_h_v, (0, 4, false))
        ∷ (rot_90, (90, 1, true))
        ∷ (rot_180, (180, 1, false))
        ∷ (rot_270, (270, 1, true))
        ∷ [])
      (0, if stretch then 1 else 0, false)

unfoldable pub add_flip : ℕ → ℕ → ℕ
add_flip rotation rotate_mode =
    switch (field rotation 4 4)
      ((flip_h, bit_or rotate_mode 0x20)
        ∷ (flip_v, bit_or rotate_mode 0x30)
        ∷ (flip_h_v, bit_or rotate_mode 0x40)
        ∷ [])
      rotate_mode

-- ditherEn, from the formats of the source and the target.
unfoldable pub dither_en : ℕ → ℕ → ℕ
unfolding is_rgb_format code
dither_en src dst =
    if is_rgb_format src
      && (not (src == code rgb_565) || not (src == code bgr_565))
      && (dst == code rgb_565 || dst == code bgr_565)
    then 1
    else 0

-- y2r_mode and r2y_mode, from the formats.
unfoldable pub default_csc : ℕ → Option ℕ → ℕ → ℕ × ℕ
unfolding is_yuv_format is_rgb_format
default_csc src none dst = (
  if is_yuv_format src && is_rgb_format dst then yuv_to_rgb_bt601_limit else 0,
  if is_rgb_format src && is_yuv_format dst then rgb_to_yuv_bt601_limit else 0,
)
default_csc src (some src1) dst = (
  if is_yuv_format src && is_rgb_format src1 && (is_rgb_format dst || is_yuv_format dst)
      then yuv_to_rgb_bt601_limit
      else 0,
  if (is_yuv_format src || is_rgb_format src) && is_rgb_format src1 && is_yuv_format dst
      then rgb_to_yuv_bt601_limit
      else 0,
)

-- The modes that the colour space word asks for.
unfoldable pub override_csc : ℕ → ℕ × ℕ → ℕ × ℕ
override_csc mode (y2r, r2y) = (
  if field mode 0 2 == 0 then y2r else field mode 0 2,
  if field mode 2 2 == 0 then r2y else field mode 2 2 * 4,
)

-- color_space_mode & full_csc_mask
abbrev pub full_csc_of : ℕ → ℕ
full_csc_of mode = field mode 8 4 * 2 ^ 8

module _ (to_fixed : ℤ → ℤ) where
  -- yuvToRgbMode, with the coefficients in the request.
  unfoldable pub set_csc : Req → ℕ → ℕ × ℕ → Option (Req × ℕ)
  unfolding normal_rga_full_color_space_convert override_csc
  set_csc req mode default =
      let (y2r, r2y) = override_csc mode default in
      if full_csc_of mode == 0
      then some (req, bit_or r2y y2r)
      else elim (normal_rga_full_color_space_convert to_fixed req (full_csc_of mode)) [
        | none ↦ none
        | some req' ↦ some (
          req',
          bit_or
              (if full_csc_of mode == full_csc_code rgb2yuv_709_limit
                then rgb_to_yuv_bt709_limit
                else r2y)
              y2r,
        )
      ]

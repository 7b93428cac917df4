-- ===== src/Request/Colours.antt =====
-- The colours of the spaces, as ITU-R BT.601 and BT.709 define them, and the tables of
-- core/NormalRgaApi.cpp that carry the colours of one space to another.
use librga_rockchip.Base.{
  ℕ, ◌+◌, ◌-◌, ◌*◌, ◌/◌, ◌^◌, ◌≡◌, Bool, true, false, not, ◌&&◌, ltb, Option, some, if◌then◌else◌,
}
use librga_rockchip.Base.Int.{ℤ, pos_part, neg_part}
use librga_rockchip.Request.{Req, CscCoe, FullCsc, CscClip}

pub data Space : Type 0 where
  rgb limit_601 full_601 limit_709 full_709 : Space

-- Kr and Kb, the shares of red and blue in the luma, in ten-thousandths.
abbrev weights : Space → ℕ × ℕ
weights rgb = (0, 0)
weights limit_601 = (2990, 1140)
weights full_601 = (2990, 1140)
weights limit_709 = (2126, 722)
weights full_709 = (2126, 722)

-- The level of black, the levels from black to white, and the levels of the chroma.
abbrev levels : Space → ℕ × ℕ × ℕ
levels rgb = (0, 255, 255)
levels full_601 = (0, 255, 255)
levels full_709 = (0, 255, 255)
levels limit_601 = (16, 219, 224)
levels limit_709 = (16, 219, 224)

-- A corner of the colour cube: whether it has red, green and blue.
abbrev Colour : Type 0
Colour = Bool × Bool × Bool

abbrev unit : Bool → ℕ
unit on = if on then 10 ^ 4 else 0

abbrev luma : Space → Colour → ℕ
luma space (r, g, b) =
    let (kr, kb) = weights space in
    (kr * unit r + (10 ^ 4 - kr - kb) * unit g + kb * unit b) / 10 ^ 4

-- 128 + range * (c - luma) / (2 (1 - k)), in ten-thousandths.
abbrev chroma : ℕ → ℕ → ℕ → Bool → ℕ
chroma range k y true = 128 * 10 ^ 4 + range * (10 ^ 4 - y) * 10 ^ 4 / (2 * (10 ^ 4 - k))
chroma range k y false = 128 * 10 ^ 4 - range * y * 10 ^ 4 / (2 * (10 ^ 4 - k))

-- A colour in ten-thousandths of a level, in the order of a row's coefficients: R, G, B or V, Y, U.
abbrev encode : Space → Colour → ℕ × ℕ × ℕ
encode rgb (r, g, b) = (255 * unit r, 255 * unit g, 255 * unit b)
encode space (r, g, b) =
    let y = luma space (r, g, b) in
    let (kr, kb) = weights space in
    let (black, range, chroma_range) = levels space in
    (chroma chroma_range kr y r, black * 10 ^ 4 + range * y, chroma chroma_range kb y b)

-- A row takes a colour to a level, up to half a level.
abbrev near : CscCoe → ℕ × ℕ × ℕ → ℕ → Bool
near row (a, b, c) target =
    let up =
      pos_part row.r_v * a
      + pos_part row.g_y * b
      + pos_part row.b_u * c
      + pos_part row.off * 10 ^ 4 in
    let down =
      neg_part row.r_v * a
      + neg_part row.g_y * b
      + neg_part row.b_u * c
      + neg_part row.off * 10 ^ 4
      + target * 10 ^ 4 in
    not (ltb (down + 10 ^ 8 / 2) up) && not (ltb (up + 10 ^ 8 / 2) down)

abbrev carries : Space → Space → FullCsc → Colour → Bool
carries source target table colour =
    let (v, y, u) = encode target colour in
    let from = encode source colour in
    near table.coe_y from y && near table.coe_u from u && near table.coe_v from v

-- Black, white, red, green and blue, which fix a linear map.
abbrev pub converts : Space → Space → FullCsc → Bool
converts source target table =
    carries source target table (false, false, false)
    && carries source target table (true, true, true)
    && carries source target table (true, false, false)
    && carries source target table (false, true, false)
    && carries source target table (false, false, true)

-- The levels that a space has: (largest, smallest) of Y, and of U and V.
abbrev pub range_of : Space → CscClip
range_of space =
    let (black, range, chroma_range) = levels space in
    record { y = (black + range, black); uv = (black + chroma_range, black) }

module _ (to_fixed : ℤ → ℤ) where
  abbrev rounded : CscCoe → CscCoe
  rounded c = record {
    r_v = to_fixed c.r_v;
    g_y = to_fixed c.g_y;
    b_u = to_fixed c.b_u;
    off = to_fixed c.off;
  }

  -- A request whose table of coefficients, before its rounding, carries the colours of the source to
  -- those of the target, and that clips to the levels of the target.
  abbrev pub Carries : Space → Space → Option (Req × ℕ) → Type 0
  Carries source target result =
      (req : Req) × (mode : ℕ) × (table : FullCsc) × (result ≡ some (req, mode))
      × (req.feature.full_csc_clip_en ≡ true)
      × (req.full_csc.coe_y ≡ rounded table.coe_y)
      × (req.full_csc.coe_u ≡ rounded table.coe_u)
      × (req.full_csc.coe_v ≡ rounded table.coe_v)
      × (converts source target table ≡ true)
      × (req.full_csc_clip ≡ range_of target)

-- ===== src/Hardware/Select.antt =====
-- The row that a core's version selects: the branches of rga_get_info in
-- im2d_api/src/im2d_impl.cpp, one function for each major and minor version. `none` stands for the
-- jump to TRY_TO_COMPATIBLE.
use librga_rockchip.Base.{ℕ, ◌&&◌, List, [], ◌∷◌, Option, none, some, ◌==◌, if◌then◌else◌}
use librga_rockchip.Base.Int.{pos}
use librga_rockchip.Base.Bits.{bit_or, clear_flags}
use librga_rockchip.Version.{Version}
use librga_rockchip.Hardware.{
  FormatFlag, FeatureFlag, InfoEntry, resolution, formats_word, features_word, feature_index,
  format_index, rop, quantize, src1_r2y_csc, dst_full_csc, mosaic, osd, pre_intr, gauss, secure,
  yuyv_422, yuv_400, y4, y8, rgba2bpp, alpha_8_bit, rgba_16bit, yuv_420_semi_planner_10_bit,
  yuv_422_semi_planner_10_bit, rgba_1010102, yuv_444_paced_10_bit,
}
use librga_rockchip.Base.{map}
use librga_rockchip.Hardware.Table.{
  rga_2_entry, rga_2_lite0_entry, rga_2_lite1_entry, rga_2_enhance_entry, rga_2_pro_entry,
  rga_2_lite2_entry, rga_3_entry,
}

-- merge_table.input_format |= inputs; and so on.
abbrev pub extend : InfoEntry → List FormatFlag → List FormatFlag → List FeatureFlag → InfoEntry
extend e inputs outputs feats = record e {
  input_format = bit_or e.input_format (formats_word inputs);
  output_format = bit_or e.output_format (formats_word outputs);
  feature = bit_or e.feature (features_word feats);
}

-- merge_table.output_format &= ~outputs; merge_table.feature &= ~feats
abbrev pub restrict : InfoEntry → List FormatFlag → List FeatureFlag → InfoEntry
restrict e outputs feats = record e {
  output_format = clear_flags e.output_format (map format_index outputs);
  feature = clear_flags e.feature (map feature_index feats);
}

abbrev pub rk3399_entry : InfoEntry
rk3399_entry = extend rga_2_enhance_entry [] [] (rop ∷ [])

abbrev pub rk3568_entry : InfoEntry
rk3568_entry =
    extend rga_2_enhance_entry (yuyv_422 ∷ yuv_400 ∷ []) (yuv_400 ∷ y4 ∷ [])
      (quantize ∷ src1_r2y_csc ∷ dst_full_csc ∷ [])

abbrev pub rv1106_entry : InfoEntry
rv1106_entry =
    extend rga_2_enhance_entry (yuyv_422 ∷ yuv_400 ∷ rgba2bpp ∷ []) (yuv_400 ∷ y4 ∷ [])
      (quantize ∷ src1_r2y_csc ∷ dst_full_csc ∷ mosaic ∷ osd ∷ pre_intr ∷ [])

abbrev pub rk3562_entry : InfoEntry
rk3562_entry =
    extend rga_2_enhance_entry (yuyv_422 ∷ yuv_400 ∷ rgba2bpp ∷ []) (yuv_400 ∷ y4 ∷ [])
      (quantize ∷ src1_r2y_csc ∷ dst_full_csc ∷ mosaic ∷ osd ∷ pre_intr ∷ [])

abbrev pub rk3528_entry : InfoEntry
rk3528_entry =
    extend rga_2_enhance_entry (yuyv_422 ∷ yuv_400 ∷ rgba2bpp ∷ []) (yuv_400 ∷ y4 ∷ [])
      (quantize ∷ src1_r2y_csc ∷ dst_full_csc ∷ mosaic ∷ osd ∷ pre_intr ∷ [])

abbrev pub rk3506_entry : InfoEntry
rk3506_entry =
    record (restrict
      (extend rga_2_enhance_entry (yuyv_422 ∷ yuv_400 ∷ alpha_8_bit ∷ []) (yuv_400 ∷ [])
        (src1_r2y_csc ∷ dst_full_csc ∷ gauss ∷ []))
      [] (rop ∷ [])) {
        input_resolution = resolution (pos 1280) (pos 8192);
        output_resolution = resolution (pos 1280) (pos 4096);
        scale_ver_bicubic_limit = 600;
      }

abbrev pub rv1126b_entry : InfoEntry
rv1126b_entry = restrict rga_2_pro_entry (y4 ∷ y8 ∷ []) (mosaic ∷ rop ∷ quantize ∷ mosaic ∷ [])

abbrev pub rk1820_entry : InfoEntry
rk1820_entry = restrict rga_2_pro_entry (y4 ∷ y8 ∷ []) (mosaic ∷ [])

abbrev pub rk1808_entry : InfoEntry
rk1808_entry = extend rga_2_lite1_entry [] [] (src1_r2y_csc ∷ [])

abbrev pub rk3538_entry : InfoEntry
rk3538_entry =
    restrict
      (extend rga_2_pro_entry (rgba_16bit ∷ [])
        (yuv_420_semi_planner_10_bit ∷ yuv_422_semi_planner_10_bit ∷ rgba_1010102
          ∷ yuv_444_paced_10_bit ∷ [])
        (secure ∷ []))
      [] (quantize ∷ rop ∷ [])

-- `switch (revision)`
unfoldable pub find_revision : ℕ → List (ℕ × InfoEntry) → Option InfoEntry
find_revision r [] = none
find_revision r ((k, e) ∷ rows) = if r == k then some e else find_revision r rows

abbrev pub revisions_2_0 : List (ℕ × InfoEntry)
revisions_2_0 = (0, rga_2_entry) ∷ []

abbrev pub revisions_3_0 : List (ℕ × InfoEntry)
revisions_3_0 =
    (0x16445, rga_2_entry) ∷ (0x22245, rga_2_enhance_entry) ∷ (0x76831, rga_3_entry) ∷ []

abbrev pub revisions_3_2 : List (ℕ × InfoEntry)
revisions_3_2 = (0x18218, rk3399_entry) ∷ (0x56726, rk3568_entry) ∷ (0x63318, rk3568_entry) ∷ []

abbrev pub revisions_3_3 : List (ℕ × InfoEntry)
revisions_3_3 = (0x87975, rv1106_entry) ∷ []

abbrev pub revisions_3_6 : List (ℕ × InfoEntry)
revisions_3_6 = (0x92812, rk3562_entry) ∷ []

abbrev pub revisions_3_7 : List (ℕ × InfoEntry)
revisions_3_7 = (0x93215, rk3528_entry) ∷ []

abbrev pub revisions_3_10 : List (ℕ × InfoEntry)
revisions_3_10 = (0x07135, rk3506_entry) ∷ []

abbrev pub revisions_3_14 : List (ℕ × InfoEntry)
revisions_3_14 = (0x19357, rga_2_pro_entry) ∷ []

abbrev pub revisions_4_1 : List (ℕ × InfoEntry)
revisions_4_1 = (0x34669, rv1126b_entry) ∷ (0x33689, rk1820_entry) ∷ []

abbrev pub revisions_3_15 : List (ℕ × InfoEntry)
revisions_3_15 = (0x23690, rga_2_lite2_entry) ∷ []

abbrev pub revisions_4_0 : List (ℕ × InfoEntry)
revisions_4_0 =
    (0x18632, rga_2_lite0_entry)
    ∷ (0x23998, rk1808_entry)
    ∷ (0x27615, rk1808_entry)
    ∷ (0x28610, rk1808_entry)
    ∷ []

abbrev pub revisions_5_2 : List (ℕ × InfoEntry)
revisions_5_2 = (0x48482, rk3538_entry) ∷ []

abbrev pub revisions_42_0 : List (ℕ × InfoEntry)
revisions_42_0 = (0x17760, rga_2_lite1_entry) ∷ []

-- The chain of tests of major and minor.
abbrev pub branches : List (ℕ × ℕ × List (ℕ × InfoEntry))
branches =
    (2, 0, revisions_2_0)
    ∷ (3, 0, revisions_3_0)
    ∷ (3, 2, revisions_3_2)
    ∷ (3, 3, revisions_3_3)
    ∷ (3, 6, revisions_3_6)
    ∷ (3, 7, revisions_3_7)
    ∷ (3, 10, revisions_3_10)
    ∷ (3, 14, revisions_3_14)
    ∷ (4, 1, revisions_4_1)
    ∷ (3, 15, revisions_3_15)
    ∷ (4, 0, revisions_4_0)
    ∷ (5, 2, revisions_5_2)
    ∷ (42, 0, revisions_42_0)
    ∷ []

unfoldable pub find_branch : Version → List (ℕ × ℕ × List (ℕ × InfoEntry)) → Option InfoEntry
unfolding find_revision
find_branch v [] = none
find_branch v ((major, minor, rows) ∷ rest) =
    if v.major == major && v.minor == minor
    then find_revision v.revision rows
    else find_branch v rest

unfoldable pub select_entry : Version → Option InfoEntry
unfolding find_branch
select_entry v = find_branch v branches

-- ===== src/Check/Operation.antt =====
-- The checks of an operation, in im2d_api/src/im2d_impl.cpp: rga_check_feature, rga_check_blend,
-- rga_check_rotate and rga_check_limit.
use librga_rockchip.Base.{ℕ, Bool, ◌&&◌, ◌||◌, not, if◌then◌else◌}
use librga_rockchip.Base.Int.{ℤ, eqb_ℤ}
use librga_rockchip.Base.Bits.{test_bit, test_bits}
use librga_rockchip.Status.{Status, noerror, not_supported, ◌>>◌, reject}
use librga_rockchip.Format.{is_rga_format}
use librga_rockchip.Hardware.{
  FeatureFlag, InfoEntry, feature_index, hw_version_index, color_fill, color_palette, rop, quantize,
  src1_r2y_csc, dst_full_csc, mosaic, osd, pre_intr, alpha_bit_map, gauss, rga_1, rga_1_plus,
}
use librga_rockchip.Check.{
  Buffer, uses, rga_is_buffer_valid, im_color_fill, im_color_palette, im_rop, im_nn_quantize,
  im_mosaic, im_osd, im_pre_intr, im_alpha_bit_map, im_gauss, im_hal_transform_rot_90,
  im_hal_transform_rot_180, im_hal_transform_rot_270, im_hal_transform_flip_h,
  im_hal_transform_flip_v, im_hal_transform_flip_h_v,
}

-- if (asked && (~usage & flag)) return IM_STATUS_NOT_SUPPORTED;
abbrev pub asks : Bool → ℕ → FeatureFlag → Status
asks asked usage flag = reject (asked && not (test_bit usage (feature_index flag))) not_supported

-- color_space_mode & IM_RGB_TO_YUV_MASK, and & IM_FULL_CSC_MASK.
abbrev pub rgb_to_yuv : Buffer → Bool
rgb_to_yuv b = test_bits b.color_space_mode 2 2

abbrev pub full_csc : Buffer → Bool
full_csc b = test_bits b.color_space_mode 8 4

unfoldable pub rga_check_feature : Buffer → Buffer → Buffer → Bool → ℕ → ℕ → Status
rga_check_feature src pat dst pat_enable mode usage =
    asks (uses mode im_color_fill) usage color_fill
    >> asks (uses mode im_color_palette) usage color_palette
    >> asks (uses mode im_rop) usage rop
    >> asks (uses mode im_nn_quantize) usage quantize
    >> asks (pat_enable && rgb_to_yuv pat) usage src1_r2y_csc
    >> asks (full_csc src || full_csc dst || (pat_enable && full_csc pat)) usage dst_full_csc
    >> asks (uses mode im_mosaic) usage mosaic
    >> asks (uses mode im_osd) usage osd
    >> asks (uses mode im_pre_intr) usage pre_intr
    >> asks (uses mode im_alpha_bit_map) usage alpha_bit_map
    >> asks (uses mode im_gauss) usage gauss

unfoldable pub rga_check_blend : Buffer → Buffer → Buffer → Bool → Status
rga_check_blend src pat dst pat_enable =
    (if rga_is_buffer_valid pat
      then reject (not (is_rga_format pat.format)) not_supported
      else reject (not (is_rga_format dst.format)) not_supported)
    >> reject (pat_enable && (not (eqb_ℤ pat.width dst.width) || not (eqb_ℤ pat.height dst.height)))
        not_supported

-- table->version & (IM_RGA_HW_VERSION_RGA_1 | IM_RGA_HW_VERSION_RGA_1_PLUS)
abbrev pub is_rga_1 : InfoEntry → Bool
is_rga_1 t =
    test_bit t.version (hw_version_index rga_1) || test_bit t.version (hw_version_index rga_1_plus)

abbrev pub rotates : ℕ → Bool
rotates mode =
    uses mode im_hal_transform_rot_90
    || uses mode im_hal_transform_rot_180
    || uses mode im_hal_transform_rot_270

abbrev pub mirrors : ℕ → Bool
mirrors mode =
    uses mode im_hal_transform_flip_h
    || uses mode im_hal_transform_flip_v
    || uses mode im_hal_transform_flip_h_v

unfoldable pub rga_check_rotate : ℕ → InfoEntry → Status
rga_check_rotate mode t =
    if is_rga_1 t
    then reject (uses mode im_hal_transform_flip_h_v) not_supported
      >> reject (rotates mode && mirrors mode) not_supported
    else noerror

-- `exceeds a b s` is the test (float)a / (float)b > (float)s of the compiler's floats.
unfoldable pub rga_check_limit : (ℤ → ℤ → ℕ → Bool) → Buffer → Buffer → ℕ → ℕ → Status
rga_check_limit exceeds src dst scale mode =
    let turned = uses mode im_hal_transform_rot_270 || uses mode im_hal_transform_rot_90 in
    let dst_width = if turned then dst.height else dst.width in
    let dst_height = if turned then dst.width else dst.height in
    reject
      (exceeds src.width dst_width scale
        || exceeds src.height dst_height scale
        || exceeds dst_width src.width scale
        || exceeds dst_height src.height scale)
      not_supported

-- ===== src/Check/Whole.antt =====
-- rga_check and rga_check_external of im2d_api/src/im2d_impl.cpp: the checks of a whole operation.
use librga_rockchip.Base.{ℕ, ◌⊎◌, inl, inr, Bool, true, false, not, ◌&&◌, ◌==◌, if◌then◌else◌}
use librga_rockchip.Base.Int.{ℤ}
use librga_rockchip.Status.{Status, noerror, not_supported, ◌>>◌, reject}
use librga_rockchip.Format.{code, unknown}
use librga_rockchip.Format.Convert.{convert_to_rga_format}
use librga_rockchip.Hardware.{InfoEntry, Resolution}
use librga_rockchip.Check.{
  Buffer, Rect, uses, blends, im_color_fill, im_crop, rga_is_buffer_valid, rga_apply_rect,
}
use librga_rockchip.Check.Info.{rga_check_info}
use librga_rockchip.Check.Formats.{rga_check_format}
use librga_rockchip.Check.Align.{rga_check_align}
use librga_rockchip.Check.Operation.{
  rga_check_feature, rga_check_blend, rga_check_rotate, rga_check_limit, is_rga_1,
}

module _ (linux : Bool) (exceeds : ℤ → ℤ → ℕ → Bool) where
  -- The three checks of one image.
  unfoldable pub check_image : Buffer → Rect → Resolution → ℕ → ℕ → ℕ → Bool → Status
  check_image b r res formats byte_stride mode is_read =
      rga_check_info b r res
      >> rga_check_format b r formats mode
      >> rga_check_align linux b byte_stride is_read

  abbrev pub is_pat_enabled : Buffer → ℕ → Bool
  is_pat_enabled pat mode = blends mode && rga_is_buffer_valid pat

  abbrev pub check_src : Buffer → Rect → InfoEntry → ℕ → Status
  check_src src r t mode =
      if not (uses mode im_color_fill)
      then check_image src r t.input_resolution t.input_format t.byte_stride mode true
      else noerror

  abbrev pub check_pat : Buffer → Rect → InfoEntry → ℕ → Status
  check_pat pat r t mode =
      if is_pat_enabled pat mode
      then reject (is_rga_1 t) not_supported
        >> check_image pat r t.input_resolution t.input_format t.byte_stride mode true
      else noerror

  abbrev pub check_scale : Buffer → Buffer → InfoEntry → ℕ → Status
  check_scale src dst t mode =
      if not (uses mode im_color_fill)
      then rga_check_limit exceeds src dst t.scale_limit mode
      else noerror

  abbrev pub check_blend_of : Buffer → Buffer → Buffer → ℕ → Status
  check_blend_of src pat dst mode =
      if blends mode then rga_check_blend src pat dst (is_pat_enabled pat mode) else noerror

  -- The part of rga_check after the session is there.
  unfoldable pub check_all : InfoEntry → Buffer → Buffer → Buffer → Rect → Rect → Rect → ℕ → Status
  check_all t src dst pat src_rect dst_rect pat_rect mode =
      rga_check_feature src pat dst (is_pat_enabled pat mode) mode t.feature
      >> check_src src src_rect t mode
      >> check_pat pat pat_rect t mode
      >> check_image dst dst_rect t.output_resolution t.output_format t.byte_stride mode false
      >> check_scale src dst t mode
      >> check_blend_of src pat dst mode
      >> rga_check_rotate mode t

  -- rga_check. get_rga_session gives a status or the hardware's table.
  unfoldable pub rga_check :
      Status ⊎ InfoEntry → Buffer → Buffer → Buffer → Rect → Rect → Rect → ℕ → Status
  unfolding check_all
  rga_check (inl error) src dst pat src_rect dst_rect pat_rect mode = error
  rga_check (inr t) src dst pat src_rect dst_rect pat_rect mode =
      check_all t src dst pat src_rect dst_rect pat_rect mode

  -- An image with the size of its rectangle and the library's code of its format.
  abbrev pub normal : Buffer → Rect → Buffer
  normal b r = record (rga_apply_rect b r) { format = convert_to_rga_format linux b.format }

  -- if (format == RK_FORMAT_UNKNOWN) return IM_STATUS_NOT_SUPPORTED;
  abbrev pub check_known : Buffer → Status
  check_known b = reject (convert_to_rga_format linux b.format == code unknown) not_supported

  -- The rectangle of the target: IM_CROP gives it the size of the source's.
  abbrev pub crop_rect : Rect → Rect → ℕ → Rect
  crop_rect src_rect dst_rect mode =
      if uses mode im_crop
      then record dst_rect { width = src_rect.width; height = src_rect.height }
      else dst_rect

  unfoldable pub rga_check_external :
      Status ⊎ InfoEntry → Buffer → Buffer → Buffer → Rect → Rect → Rect → ℕ → Status
  unfolding rga_check
  rga_check_external session src dst pat src_rect dst_rect pat_rect mode =
      let dst_rect' = crop_rect src_rect dst_rect mode in
      check_known src
      >> check_known dst
      >> (if rga_is_buffer_valid pat then check_known pat else noerror)
      >> rga_check session (normal src src_rect) (normal dst dst_rect')
          (if rga_is_buffer_valid pat then normal pat pat_rect else pat) src_rect dst_rect' pat_rect
          mode

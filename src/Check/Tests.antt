-- ===== src/Check/Tests.antt =====
-- The checks of a concrete operation: an RGBA image scaled down to NV12 on an RK3568.
use librga_rockchip.Base.{◌≡◌, ◌↔◌, inr, refl, true, false, arith}
use librga_rockchip.Base.Int.{pos, add_int, mul_int, has_rem}
use librga_rockchip.Format.Stride.{get_per_pixel_stride_from_format, per_pixel_bits}
use librga_rockchip.Status.{noerror}
use librga_rockchip.Format.{Format, code, ycbcr_420_sp, case_in}
use librga_rockchip.Format.Convert.{convert_to_rga_format, convert_compatible}
use librga_rockchip.Hardware.{resolution}
use librga_rockchip.Hardware.Select.{rk3568_entry}
use librga_rockchip.Hardware.Limits.{Sane}
use librga_rockchip.Check.{Rect, rect, rga_yuv_legality_check, rga_is_buffer_valid, rga_apply_rect}
use librga_rockchip.Check.Info.{
  rga_check_info, SizeFits, RectFits, ResolutionFits, rga_check_info_iff, rga_check_info_wraps,
}
use librga_rockchip.Check.Formats.{rga_check_format, check_more_formats, check_last_formats}
use librga_rockchip.Check.Need.{rga_check_format_iff, Meets, need}
use librga_rockchip.Check.Align.{rga_check_align, rga_check_align_iff, ModeFits, StrideFits}
use librga_rockchip.Check.Operation.{
  rga_check_feature, rga_check_limit, rga_check_blend, rga_check_rotate,
}
use librga_rockchip.Check.Whole.{check_all, rga_check_external, normal, check_image}
use librga_rockchip.Check.Scale.{rga_check_blend_any}
use librga_rockchip.Check.Sound.{OperationFits, Ints, check_all_iff}
use librga_rockchip.Check.Operands.{
  exact, exact-ExactQuotients, source, target, no_image, whole, source-Ints,
}
use librga_rockchip.Check.External.{rga_check_external_iff, Known}

abbrev half : Rect
half = rect (pos 640) (pos 0) (pos 640) (pos 720)

rk3568-Sane : Sane rk3568_entry
rk3568-Sane = ground arith

normal-Ints :
    Ints true exact
      (normal true exact source whole)
      (normal true exact target whole)
      no_image
      whole
      whole
      whole
unfolding rga_apply_rect
normal-Ints = ground arith

scaled_down : check_all true exact rk3568_entry source target no_image whole whole whole 0 ≡ noerror
unfolding check_all rga_check_feature check_image rga_check_info rga_check_format check_more_formats
    check_last_formats rga_check_align rga_check_limit rga_check_blend rga_check_rotate
    rga_yuv_legality_check rga_is_buffer_valid case_in add_int has_rem mul_int
    get_per_pixel_stride_from_format per_pixel_bits convert_to_rga_format convert_compatible
scaled_down = refl

rga_check_external_iff_example :
    (rga_check_external true exact (inr rk3568_entry) source target no_image whole whole whole 0
      ≡ noerror)
    ↔ (((Known true exact source × Known true exact target)
          × (rga_is_buffer_valid no_image ≡ true → Known true exact no_image))
        × OperationFits true exact rk3568_entry
            (normal true exact source whole)
            (normal true exact target whole)
            no_image
            whole
            whole
            whole
            0)
unfolding rga_is_buffer_valid
rga_check_external_iff_example =
    rga_check_external_iff true exact rk3568_entry source target no_image whole whole whole 0
      exact-ExactQuotients rk3568-Sane normal-Ints

check_all_iff_example :
    OperationFits true exact rk3568_entry source target no_image whole whole whole 0
check_all_iff_example =
    (check_all_iff true exact rk3568_entry source target no_image whole whole whole 0
        exact-ExactQuotients rk3568-Sane source-Ints).0
      scaled_down

half_info : rga_check_info source half (resolution (pos 8192) (pos 8192)) ≡ noerror
unfolding rga_check_info add_int code
half_info = refl

rga_check_info_iff_example :
    SizeFits source
    × RectFits source half
    × ResolutionFits source half (resolution (pos 8192) (pos 8192))
rga_check_info_iff_example =
    (rga_check_info_iff source half (resolution (pos 8192) (pos 8192)) (ground arith)).0 half_info

rga_check_info_wraps_example :
    rga_check_info source
      (rect (pos 2147483647) (pos 0) (pos 2) (pos 2))
      (resolution (pos 8192) (pos 8192))
    ≡ noerror
unfolding code
rga_check_info_wraps_example =
    rga_check_info_wraps source 2 2 2147483647 0 (resolution (pos 8192) (pos 8192)) (ground arith)
      (omega arith) (omega arith) (omega arith) (omega arith) (omega arith) (omega arith)
      (omega arith) (ground arith)

rga_check_format_iff_example :
    (rga_check_format target whole 32 0 ≡ noerror)
    ↔ ((f : Format) × (code ycbcr_420_sp ≡ code f) × Meets (need f) target whole 32 0)
rga_check_format_iff_example = rga_check_format_iff target whole 32 0

rga_check_align_iff_example :
    (rga_check_align true source 16 true ≡ noerror)
    ↔ (ModeFits source true × StrideFits true source 16)
rga_check_align_iff_example =
    rga_check_align_iff true source 16 true (inr refl) (omega arith) (omega arith)

no_third_layer : false ≡ true → (no_image.width ≡ target.width) × (no_image.height ≡ target.height)
no_third_layer e = absurd (ground arith)

rga_check_blend_any_example : rga_check_blend source no_image target false ≡ noerror
unfolding rga_is_buffer_valid
rga_check_blend_any_example =
    rga_check_blend_any source no_image target false ycbcr_420_sp (ground arith) refl no_third_layer

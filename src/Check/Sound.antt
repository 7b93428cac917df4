-- ===== src/Check/Sound.antt =====
-- rga_check and rga_check_external decide whether the hardware can do an operation.
use librga_rockchip.Base.{ℕ, ◌≤◌, ◌≡◌, ◌↔◌, Bool, true, false, not, All, arith}
use librga_rockchip.Base.Int.{ℤ, pos, ◌≤ℤ◌, ◌<ℤ◌}
use librga_rockchip.Base.{◌^◌}
use librga_rockchip.Status.{noerror, not_supported, ◌>>◌, reject, >>-iff, >>-both, when_iff}
use librga_rockchip.Hardware.{InfoEntry, Resolution}
use librga_rockchip.Hardware.Limits.{Sane, ResolutionSane}
use librga_rockchip.Check.{Buffer, Rect, uses, blends, im_color_fill}
use librga_rockchip.Check.Info.{InRange, SizeFits, ResolutionFits}
use librga_rockchip.Check.Operation.{is_rga_1, rga_check_rotate}
use librga_rockchip.Check.Fits.{
  ImageFits, check_image_iff, demands, Granted, rga_check_feature_iff, RotateFits,
  rga_check_rotate_iff,
}
use librga_rockchip.Check.Scale.{
  ExactQuotients, SideFits, ScaleFits, rga_check_limit_iff, BlendFits, rga_check_blend_iff,
}
use librga_rockchip.Check.Whole.{
  check_all, check_image, check_src, check_pat, check_scale, check_blend_of, is_pat_enabled,
}

module _ (linux : Bool) (exceeds : ℤ → ℤ → ℕ → Bool) where
  -- The hardware with the table `t` can do the operation. A fill has no source.
  abbrev pub OperationFits : InfoEntry → Buffer → Buffer → Buffer → Rect → Rect → Rect → ℕ → Type 0
  OperationFits t src dst pat src_rect dst_rect pat_rect mode =
      let filling = uses mode im_color_fill in
      let pat_enable = is_pat_enabled linux exceeds pat mode in
      All (Granted t.feature) (demands src pat dst pat_enable mode)
      × (not filling ≡ true
          → ImageFits linux src src_rect t.input_resolution t.input_format t.byte_stride mode true)
      × (pat_enable ≡ true
          → (is_rga_1 t ≡ false)
            × ImageFits linux pat pat_rect t.input_resolution t.input_format t.byte_stride mode
                true)
      × ImageFits linux dst dst_rect t.output_resolution t.output_format t.byte_stride mode false
      × (not filling ≡ true → ScaleFits src dst t.scale_limit mode)
      × (blends mode ≡ true → BlendFits pat dst pat_enable)
      × RotateFits mode t

  -- The rectangles' sums and the strides are in the range of int.
  abbrev pub Ints : Buffer → Buffer → Buffer → Rect → Rect → Rect → Type 0
  Ints src dst pat src_rect dst_rect pat_rect =
      (InRange src_rect × (src.wstride <ℤ pos (2 ^ 31)))
      × (InRange dst_rect × (dst.wstride <ℤ pos (2 ^ 31)))
      × (InRange pat_rect × (pat.wstride <ℤ pos (2 ^ 31)))

  side_fits : (a m : ℤ) → pos 2 ≤ℤ a → a ≤ℤ m → m ≤ℤ pos 8192 → SideFits a
  side_fits a m p q r = ground arith

  scale_bound : (t : InfoEntry) → Sane t → t.scale_limit ≤ 16
  scale_bound t s = ground arith

  -- An image that fits has sides that the hardware takes.
  sides :
      (b : Buffer) (r : Rect) (res : Resolution)
      → SizeFits b
      → ResolutionFits b r res
      → ResolutionSane res
      → SideFits b.width × SideFits b.height
  sides b r res size fits sane = (
    side_fits b.width res.width size.0 fits.0 sane.1,
    side_fits b.height res.height size.1 fits.1 sane.3,
  )

  check_pat_iff :
      (pat : Buffer) (r : Rect) (t : InfoEntry) (mode : ℕ)
      → Sane t
      → InRange r
      → pat.wstride <ℤ pos (2 ^ 31)
      → (check_pat linux exceeds pat r t mode ≡ noerror) ↔ (
          is_pat_enabled linux exceeds pat mode ≡ true
          → (is_rga_1 t ≡ false)
            × ImageFits linux pat r t.input_resolution t.input_format t.byte_stride mode true)
  check_pat_iff pat r t mode sane range int =
      let image =
        check_image linux exceeds pat r t.input_resolution t.input_format t.byte_stride mode true in
      when_iff (is_pat_enabled linux exceeds pat mode) (reject (is_rga_1 t) not_supported >> image)
        (λ e. >>-both (reject (is_rga_1 t) not_supported) image (ground arith) (
          check_image_iff linux exceeds pat r t.input_resolution t.input_format t.byte_stride mode
            true range int sane.0))

  check_src_iff :
      (src : Buffer) (r : Rect) (t : InfoEntry) (mode : ℕ)
      → Sane t
      → InRange r
      → src.wstride <ℤ pos (2 ^ 31)
      → (check_src linux exceeds src r t mode ≡ noerror) ↔ (
          not (uses mode im_color_fill) ≡ true
          → ImageFits linux src r t.input_resolution t.input_format t.byte_stride mode true)
  check_src_iff src r t mode sane range int =
      when_iff (not (uses mode im_color_fill))
        (check_image linux exceeds src r t.input_resolution t.input_format t.byte_stride mode true)
        (λ e.
          check_image_iff linux exceeds src r t.input_resolution t.input_format t.byte_stride mode
            true range int sane.0)

  check_scale_iff :
      (src dst : Buffer) (src_rect dst_rect : Rect) (t : InfoEntry) (mode : ℕ)
      → ExactQuotients exceeds
      → Sane t
      → (not (uses mode im_color_fill) ≡ true
          → ImageFits linux src src_rect t.input_resolution t.input_format t.byte_stride mode true)
      → ImageFits linux dst dst_rect t.output_resolution t.output_format t.byte_stride mode false
      → (check_scale linux exceeds src dst t mode ≡ noerror)
        ↔ (not (uses mode im_color_fill) ≡ true → ScaleFits src dst t.scale_limit mode)
  check_scale_iff src dst src_rect dst_rect t mode law sane src_fits dst_fits =
      let out = sides dst dst_rect t.output_resolution dst_fits.0.0 dst_fits.0.2 sane.3 in
      when_iff (not (uses mode im_color_fill)) _ (λ e.
        let fits = (src_fits e).0 in
        let in_ = sides src src_rect t.input_resolution fits.0 fits.2 sane.2 in
        rga_check_limit_iff exceeds src dst t.scale_limit mode law in_.0 in_.1 out.0 out.1
          (scale_bound t sane))

  -- With a hardware table in its limits, coordinates in the range of int and exact quotients, the
  -- checks of rga_check pass exactly when the hardware can do the operation: it has the features,
  -- can read the source (unless the operation is a fill) and the third layer (if there is one),
  -- can write the target, and the scale, the layers and the rotation are in its limits.
  pub check_all_iff :
      (t : InfoEntry) (src dst pat : Buffer) (src_rect dst_rect pat_rect : Rect) (mode : ℕ)
      → ExactQuotients exceeds
      → Sane t
      → Ints src dst pat src_rect dst_rect pat_rect
      → (check_all linux exceeds t src dst pat src_rect dst_rect pat_rect mode ≡ noerror)
        ↔ OperationFits t src dst pat src_rect dst_rect pat_rect mode
  unfolding check_all
  check_all_iff t src dst pat src_rect dst_rect pat_rect mode law sane (s, d, p) =
      let features =
        rga_check_feature_iff src pat dst (is_pat_enabled linux exceeds pat mode) mode t.feature in
      let image =
        check_image linux exceeds dst dst_rect t.output_resolution t.output_format t.byte_stride
          mode false in
      let images =
        >>-both _ image
          (>>-both _ (check_pat linux exceeds pat pat_rect t mode)
            (>>-both _ (check_src linux exceeds src src_rect t mode) features
              (check_src_iff src src_rect t mode sane s.0 s.1))
            (check_pat_iff pat pat_rect t mode sane p.0 p.1))
          (check_image_iff linux exceeds dst dst_rect t.output_resolution t.output_format
            t.byte_stride mode false d.0 d.1 sane.0) in
      let scale = check_scale linux exceeds src dst t mode in
      let blend =
        when_iff (blends mode) _
          (λ e. rga_check_blend_iff src pat dst (is_pat_enabled linux exceeds pat mode)) in
      let rotate = rga_check_rotate_iff mode t in
      (
        λ h.
            let (front, r) = (>>-iff _ (rga_check_rotate mode t)).0 h in
            let (front', b) = (>>-iff _ (check_blend_of linux exceeds src pat dst mode)).0 front in
            let (front'', l) = (>>-iff _ scale).0 front' in
            let (((fs, ss), ps), ds) = images.0 front'' in
            (
              fs,
              ss,
              ps,
              ds,
              (check_scale_iff src dst src_rect dst_rect t mode law sane ss ds).0 l,
              blend.0 b,
              rotate.0 r,
            ),
        λ (fs, ss, ps, ds, ls, bs, rs). (>>-iff _ (rga_check_rotate mode t)).1 (
          (>>-iff _ (check_blend_of linux exceeds src pat dst mode)).1 (
            (>>-iff _ scale).1 (
              images.1 (((fs, ss), ps), ds),
              (check_scale_iff src dst src_rect dst_rect t mode law sane ss ds).1 ls,
            ),
            blend.1 bs,
          ),
          rotate.1 rs,
        ),
      )

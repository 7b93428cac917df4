-- ===== src/Check/Align.antt =====
-- rga_check_align of im2d_api/src/im2d_impl.cpp: strides that the hardware can read. GET_GCD and
-- GET_LCM of that file give the suggested alignment, which the source only logs.
use librga_rockchip.Base.{
  ℕ, ◌*◌, ◌%◌, ◌≡◌, ◌↔◌, ◌⊎◌, Bool, true, false, ◌≤◌, ◌^◌, ◌==◌, arith, if◌then◌else◌,
}
use librga_rockchip.Base.Int.{ℤ, pos, negsuc, has_rem, mul_int, mul_int_rem, ◌≤ℤ◌, ◌<ℤ◌, pos_part}
use librga_rockchip.Status.{Status, noerror, not_supported, ◌>>◌, reject, >>-iff}
use librga_rockchip.Format.Stride.{per_pixel_bits, get_per_pixel_stride_from_format}
use librga_rockchip.Check.{Buffer}

-- IM_RD_MODE: IM_FBC_MODE and IM_TILE_MODE.
abbrev pub im_fbc_mode : ℕ
im_fbc_mode = 2

abbrev pub im_tile_mode : ℕ
im_tile_mode = 4

-- The switch on rd_mode.
unfoldable pub check_mode : Buffer → Bool → Status
check_mode b is_read =
    if b.rd_mode == im_fbc_mode
    then reject (has_rem b.wstride 16) not_supported >> reject (has_rem b.hstride 16) not_supported
    else if b.rd_mode == im_tile_mode
    then reject (has_rem b.width 8) not_supported
      >> reject (has_rem b.height 8) not_supported
      >> (if is_read
          then reject (has_rem b.wstride 16) not_supported
            >> reject (has_rem b.hstride 16) not_supported
          else noerror)
    else noerror

-- `linux` is the build's macro LINUX.
unfoldable pub rga_check_align : Bool → Buffer → ℕ → Bool → Status
unfolding check_mode
rga_check_align linux b byte_stride is_read =
    let pixel_stride = get_per_pixel_stride_from_format linux b.format in
    let bit_stride = mul_int (pos pixel_stride) b.wstride in
    check_mode b is_read >> reject (has_rem bit_stride (byte_stride * 8)) not_supported

-- The strides and sizes that the storage mode asks for.
abbrev pub ModeFits : Buffer → Bool → Type 0
ModeFits b is_read =
    (b.rd_mode ≡ im_fbc_mode → (has_rem b.wstride 16 ≡ false) × (has_rem b.hstride 16 ≡ false))
    × (b.rd_mode ≡ im_tile_mode
        → (has_rem b.width 8 ≡ false)
          × (has_rem b.height 8 ≡ false)
          × (is_read ≡ true → (has_rem b.wstride 16 ≡ false) × (has_rem b.hstride 16 ≡ false)))

check_mode_iff :
    (b : Buffer) (is_read : Bool) → (check_mode b is_read ≡ noerror) ↔ ModeFits b is_read
unfolding check_mode
check_mode_iff b is_read = ground arith

-- A row of the first plane is a whole number of units of `byte_stride` bytes.
abbrev pub StrideFits : Bool → Buffer → ℕ → Type 0
StrideFits linux b byte_stride =
    get_per_pixel_stride_from_format linux b.format * pos_part b.wstride % (byte_stride * 8) ≡ 0

pixel_stride_bound : (linux : Bool) (f : ℕ) → get_per_pixel_stride_from_format linux f ≤ 32
unfolding get_per_pixel_stride_from_format per_pixel_bits
pixel_stride_bound linux f = ground arith

stride_rem :
    (p : ℕ) (w : ℤ) (byte_stride : ℕ)
    → p ≤ 32
    → pos 0 ≤ℤ w
    → w <ℤ pos (2 ^ 31)
    → (byte_stride ≡ 4) ⊎ (byte_stride ≡ 16)
    → (has_rem (mul_int (pos p) w) (byte_stride * 8) ≡ false)
      ↔ (p * pos_part w % (byte_stride * 8) ≡ 0)
stride_rem p (pos n) byte_stride a low high s =
    mul_int_rem p n (byte_stride * 8) (omega arith) (omega arith) (ground arith)
stride_rem p (negsuc n) byte_stride a low high s = absurd (omega arith)

-- For a stride alignment of 4 or 16 bytes, the check of the alignment passes exactly when the
-- storage mode has its strides and sizes and a row is a whole number of units. The product of the
-- source may wrap around and the answer is still right.
pub rga_check_align_iff :
    (linux : Bool) (b : Buffer) (byte_stride : ℕ) (is_read : Bool)
    → (byte_stride ≡ 4) ⊎ (byte_stride ≡ 16)
    → pos 0 ≤ℤ b.wstride
    → b.wstride <ℤ pos (2 ^ 31)
    → (rga_check_align linux b byte_stride is_read ≡ noerror)
      ↔ (ModeFits b is_read × StrideFits linux b byte_stride)
unfolding rga_check_align
rga_check_align_iff linux b byte_stride is_read s low high = ground (
  arith,
  >>-iff (check_mode b is_read) (reject _ not_supported),
  check_mode_iff b is_read,
  stride_rem (get_per_pixel_stride_from_format linux b.format) b.wstride byte_stride
      (pixel_stride_bound linux b.format) low high s,
)

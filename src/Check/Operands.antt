-- ===== src/Check/Operands.antt =====
-- A concrete operation, for the tests: an RGBA image scaled down to NV12.
use librga_rockchip.Base.{ℕ, ◌*◌, refl, Bool, true, false, ltb, arith}
use librga_rockchip.Base.Int.{ℤ, pos}
use librga_rockchip.Format.{code, rgba_8888, ycbcr_420_sp}
use librga_rockchip.Check.{Buffer, Rect, rect}
use librga_rockchip.Check.Scale.{ExactQuotients}
use librga_rockchip.Check.Sound.{Ints}

abbrev pub exact : ℤ → ℤ → ℕ → Bool
exact (pos a) (pos b) s = ltb (s * b) a
exact _ _ s = false

pub exact-ExactQuotients : ExactQuotients exact
exact-ExactQuotients a b s p q r t u = refl

abbrev pub image : ℕ → ℕ → ℕ → Buffer
image w h f = record {
  vir_addr = 0x1000;
  phy_addr = 0;
  fd = pos 0;
  width = pos w;
  height = pos h;
  wstride = pos w;
  hstride = pos h;
  format = f;
  color_space_mode = 0;
  global_alpha = 0xff;
  rd_mode = 1;
  handle = 0;
}

abbrev pub source : Buffer
source = image 1280 720 (code rgba_8888)

abbrev pub target : Buffer
target = image 640 360 (code ycbcr_420_sp)

abbrev pub no_image : Buffer
no_image = record (image 0 0 0) { vir_addr = 0 }

abbrev pub whole : Rect
whole = rect (pos 0) (pos 0) (pos 0) (pos 0)

pub source-Ints : Ints true exact source target no_image whole whole whole
source-Ints = ground arith

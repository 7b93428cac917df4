-- ===== src/Request/Image.antt =====
-- An image of a request: its address, its planes and its part of the request. This is the code that
-- generate_blit_req, generate_fill_req and generate_color_palette_req of
-- im2d_api/src/im2d_impl.cpp share, in a 64-bit ARM build that is not for Android.
use librga_rockchip.Base.{ℕ, ◌+◌, Bool, false, not, ◌&&◌, ◌==◌, if◌then◌else◌, ltb, [], ◌∷◌}
use librga_rockchip.Base.Int.{ℤ, pos, negsuc, ltb_ℤ, eqb_ℤ, signed, bits, mul_int}
use librga_rockchip.Base.Words.{uint16_of, uint64, uint64_of, div_int}
use librga_rockchip.Session.{Session, ioc_rga1}
use librga_rockchip.Task.{Address}
use librga_rockchip.Request.{Req, Clip}
use librga_rockchip.Request.Info.{InfoRect}
use librga_rockchip.Request.Rects.{rk_rga_get_rga_format}
use librga_rockchip.Request.Setters.{
  normal_rga_set_src_virtual_info, normal_rga_set_dst_virtual_info, normal_rga_set_pat_virtual_info,
  normal_rga_set_fds_offsets,
}

-- What a generator returns: the request, 0 without a request, or a negative number.
pub data Generated : Type 0 where
  filled : Req → Generated
  untouched : Generated
  rejected : Generated

-- srcFd and srcBuf, with the address whose mmuFlag may have been set.
pub record Channel : Type 0 where
  pub fd : ℤ
  pub buf : ℕ
  pub address : Address
  pub rect : InfoRect

abbrev channel : ℤ → ℕ → Address → InfoRect → Channel
channel fd buf a r = record { fd = fd; buf = buf; address = a; rect = r }

-- The handle, the physical address, the file or the virtual address, whichever comes first. The
-- handle is an int.
unfoldable pub get_addr : Address → InfoRect → Channel
get_addr a r =
    if not (a.handle == 0)
    then channel (signed a.handle) 0 a r
    else if not (a.phy_addr == 0)
    then channel (negsuc 0) a.phy_addr a r
    else if ltb_ℤ (pos 0) a.fd
    then channel a.fd 0 (record a { mmu_flag = 1 }) r
    else if not (a.vir_addr == 0)
    then channel (negsuc 0) a.vir_addr (record a { mmu_flag = 1 }) r
    else channel (negsuc 0) 0 a r

-- The tests after it: no address at all gives 0, and a file 0 without an address an error.
abbrev pub no_addr : Channel → Bool
no_addr c = eqb_ℤ c.fd (negsuc 0) && c.buf == 0

abbrev pub zero_fd : Channel → Bool
zero_fd c = eqb_ℤ c.fd (pos 0) && c.buf == 0

-- if (fd == 0) fd = -1;
abbrev pub without_zero_fd : Channel → Channel
without_zero_fd c = if eqb_ℤ c.fd (pos 0) then record c { fd = negsuc 0 } else c

-- The address of the plane after `w * h` bytes, and after 5/4 of that.
abbrev pub plane : ℕ → ℤ → ℤ → ℕ
plane buf w h = uint64 (buf + uint64_of (mul_int w h))

abbrev pub last_plane : ℕ → ℤ → ℤ → ℕ
last_plane buf w h = uint64 (buf + uint64_of (div_int (mul_int (mul_int w h) (pos 5)) 4))

-- The flag of the memory management unit, for the drivers of RGA2 and later. The image has no
-- Android buffer.
unfoldable pub mmu_of : Channel → Bool
mmu_of c =
    if eqb_ℤ c.fd c.address.fd
    then not (c.address.mmu_flag == 0)
    else if not (eqb_ℤ c.fd (negsuc 0))
    then false
    else if c.buf == c.address.phy_addr
    then false
    else c.buf == c.address.vir_addr

-- The same for later drivers of RGA1.
unfoldable pub rga1_mmu_of : Channel → Bool
rga1_mmu_of c =
    if not (eqb_ℤ c.fd (negsuc 0))
    then (if eqb_ℤ c.fd c.address.fd then not (c.address.mmu_flag == 0) else false)
    else if c.buf == c.address.phy_addr
    then false
    else c.buf == c.address.vir_addr

pub data Side : Type 0 where
  src_side dst_side pat_side : Side

-- The setter of the virtual image of a side.
abbrev pub set_virtual : Side → Req → ℕ → ℕ → ℕ → ℕ → ℕ → Clip → ℕ → Req
set_virtual src_side req y uv v w h clip f = normal_rga_set_src_virtual_info req y uv v w h f 0
set_virtual dst_side req y uv v w h clip f = normal_rga_set_dst_virtual_info req y uv v w h clip f 0
set_virtual pat_side req y uv v w h clip f = normal_rga_set_pat_virtual_info req y uv v w h clip f 0

-- The call for a file with an RGA1 driver: every call writes the numbers of both files.
abbrev pub set_fd : Side → Req → ℤ → Req
set_fd src_side req fd = normal_rga_set_fds_offsets req (uint16_of fd) 0 0 0
set_fd dst_side req fd = normal_rga_set_fds_offsets req 0 (uint16_of fd) 0 0
set_fd pat_side req fd = normal_rga_set_fds_offsets req 0 (uint16_of fd) 0 0

-- session->core_version.version[0], which is all zeros when there is none.
abbrev pub core_0 : Session → ℕ × ℕ
core_0 s = elim s.core_version [ [] ↦ (0, 0) | v ∷ vs ↦ (v.major, v.minor) ]

pub data Driver : Type 0 where
  old_rga1_driver rga1_driver rga2_driver : Driver

-- The switch on the driver's type.
abbrev pub driver_of : Session → Driver
driver_of s = elim s.driver_type [
  | ioc_rga1 ↦ if ltb (core_0 s).1 6 then old_rga1_driver else rga1_driver
  | _ ↦ rga2_driver
]

module _ (linux : Bool) where
  abbrev at : Side → Req → Channel → Clip → ℕ → ℕ → ℕ → Req
  at side req c clip y uv v =
      set_virtual side req y uv v (bits c.rect.wstride) (bits c.rect.hstride) clip
        (rk_rga_get_rga_format linux c.rect.format)

  abbrev at_buf : Side → Req → Channel → Clip → Req
  at_buf side req c clip =
      at side req c clip c.buf (plane c.buf c.rect.wstride c.rect.hstride)
        (last_plane c.buf c.rect.wstride c.rect.hstride)

  -- The image of a side for a driver of RGA1 before 1.6, a later one, and any other driver.
  unfoldable pub old_rga1_image : Side → Req → Channel → Clip → Req
  old_rga1_image side req c clip = at_buf side req c clip

  unfoldable pub rga1_image : Side → Req → Channel → Clip → Req
  rga1_image side req c clip =
      if eqb_ℤ c.fd (negsuc 0)
      then at_buf side req c clip
      else set_fd side (at side req c clip 0 0 0) c.fd

  unfoldable pub rga2_image : Side → Req → Channel → Clip → Req
  rga2_image side req c clip =
      at side req c clip (if eqb_ℤ c.fd (negsuc 0) then 0 else uint64_of c.fd) c.buf
        (plane c.buf c.rect.wstride c.rect.hstride)

  unfoldable pub set_image : Driver → Side → Req → Channel → Clip → Req
  unfolding old_rga1_image rga1_image rga2_image
  set_image old_rga1_driver side req c clip = old_rga1_image side req c clip
  set_image rga1_driver side req c clip = rga1_image side req c clip
  set_image rga2_driver side req c clip = rga2_image side req c clip

-- ===== src/Task/NoSource.antt =====
-- A task whose source has no address.
use librga_rockchip.Base.{ℕ, ◌≡◌, refl, Bool, false, List, ◌∷◌, none, some, arith, ◌∙◌, ap}
use librga_rockchip.Base.Int.{ℤ, pos}
use librga_rockchip.Base.Bits.{test_bit}
use librga_rockchip.Status.{noerror, success}
use librga_rockchip.Session.{Session, ioc_multi_rga}
use librga_rockchip.Check.{
  Buffer, uses, blends, im_gauss, im_color_fill, im_color_palette, rga_is_buffer_valid,
}
use librga_rockchip.Job.State.{JobMap, Manager}
use librga_rockchip.Request.{Req}
use librga_rockchip.Request.Zero.{zero_req}
use librga_rockchip.Request.Info.{Info}
use librga_rockchip.Request.Image.{untouched, get_addr}
use librga_rockchip.Request.Blit.{generate_blit_req}
use librga_rockchip.Task.{Address, zero_address, rga_set_buffer_info, set_addresses}
use librga_rockchip.Task.Options.{Opt}
use librga_rockchip.Task.Modes.{
  source_modes, set_nn, set_dither, set_alpha_bit, set_colorkey, set_osd, set_rop_mosaic,
  set_pre_intr,
}
use librga_rockchip.Task.Space.{task_space}
use librga_rockchip.Task.Call.{
  TaskCall, Context, gauss_of, no_gauss, target_modes, layer_image, layer_info, options_of,
  source_info, target_info, source_start, target_start, source_of, target_of,
}
use librga_rockchip.Task.Send.{
  IoctlReply, call_outcome, sent_multi, ends, call_driver, sent_of, ioctl_loop,
}
use librga_rockchip.Task.Submit.{
  prepared, prepared_of, prepare, rga_task_submit, generate, make_request, submit_prepared,
}
use librga_rockchip.Task.Outcome.{checks, submit_checked}

set_alpha_bit-address :
    (i : Info) (pat : Buffer) (usage : ℕ) → (set_alpha_bit i pat usage).address ≡ i.address
unfolding set_alpha_bit
set_alpha_bit-address i pat usage = ground arith

set_colorkey-address :
    (i : Info) (opt : Opt) (usage : ℕ) → (set_colorkey i opt usage).address ≡ i.address
unfolding set_colorkey
set_colorkey-address i opt usage = ground arith

set_osd-address :
    (i : Info) (opt : Opt) (pat : Buffer) (usage : ℕ)
    → (set_osd i opt pat usage).address ≡ i.address
unfolding set_osd
set_osd-address i opt pat usage = ground arith

set_rop_mosaic-address :
    (i : Info) (opt : Opt) (usage : ℕ) → (set_rop_mosaic i opt usage).address ≡ i.address
unfolding set_rop_mosaic
set_rop_mosaic-address i opt usage = ground arith

set_pre_intr-address :
    (i : Info) (opt : Opt) (usage : ℕ) → (set_pre_intr i opt usage).address ≡ i.address
unfolding set_pre_intr
set_pre_intr-address i opt usage = ground arith

-- The modes leave the addresses alone.
source_modes-address :
    (i : Info) (src dst pat : Buffer) (opt : Opt) (usage : ℕ)
    → (source_modes i src dst pat opt usage).address ≡ i.address
unfolding source_modes
source_modes-address i src dst pat opt usage =
    set_pre_intr-address _ opt usage
    ∙ set_rop_mosaic-address _ opt usage
    ∙ set_osd-address _ opt pat usage
    ∙ set_colorkey-address _ opt usage
    ∙ set_alpha_bit-address _ pat usage

set_nn-address : (i : Info) (opt : Opt) (usage : ℕ) → (set_nn i opt usage).address ≡ i.address
unfolding set_nn
set_nn-address i opt usage = ground arith

set_dither-address : (i : Info) (dst : Buffer) → (set_dither i dst).address ≡ i.address
unfolding set_dither
set_dither-address i dst = ground arith

no_source_address :
    (src dst : Buffer) (usage : ℕ)
    → rga_is_buffer_valid src ≡ false
    → (set_addresses src dst usage).0 ≡ zero_address
unfolding set_addresses rga_set_buffer_info rga_is_buffer_valid
no_source_address src dst usage e = ground arith

no_target_handle :
    (src dst : Buffer) (usage : ℕ) → dst.handle ≡ 0 → (set_addresses src dst usage).1.handle ≡ 0
unfolding set_addresses rga_set_buffer_info
no_target_handle src dst usage e = ground arith

module _ (linux : Bool) (to_fixed : ℤ → ℤ) {F : Type 0} (quotient : ℤ → ℤ → F)
    (below above equal : F → ℕ → Bool) where
  -- Without an address for the source, and a handle for neither image, no request is made, and that
  -- is no error.
  blit_untouched :
      (session : Session) (src dst : Info)
      → src.address ≡ zero_address
      → dst.address.handle ≡ 0
      → generate_blit_req linux to_fixed quotient below above equal session src dst none ≡ untouched
  unfolding generate_blit_req get_addr
  blit_untouched session src dst e f = rw (e, f, generate_blit_req, get_addr) refl

no_blur :
    (src dst : Buffer) (opt : Opt) (coe_ptr usage : ℕ)
    → uses usage im_gauss ≡ false
    → gauss_of src dst opt coe_ptr usage ≡ no_gauss
unfolding gauss_of
no_blur src dst opt coe_ptr usage e = rw (e, gauss_of) refl

-- A plain copy or conversion: no fill, no palette, no blend and no blur, and not asynchronous.
pub record Plain (usage : ℕ) : Type 0 where
  pub fills : uses usage im_color_fill ≡ false
  pub looks_up : uses usage im_color_palette ≡ false
  pub mixes : blends usage ≡ false
  pub blurs : uses usage im_gauss ≡ false
  pub waits : test_bit usage 26 ≡ false

module _ (linux : Bool) (exceeds : ℤ → ℤ → ℕ → Bool) where
  source_start-address :
      (c : TaskCall)
      → rga_is_buffer_valid c.src ≡ false
      → (source_start linux exceeds c).address ≡ zero_address
  unfolding source_start
  source_start-address c e = no_source_address c.src c.dst c.usage e

  target_start-handle :
      (c : TaskCall) → c.dst.handle ≡ 0 → (target_start linux exceeds c).address.handle ≡ 0
  unfolding target_start
  target_start-handle c e = no_target_handle c.src c.dst c.usage e

  source_info-address :
      (c : TaskCall)
      → rga_is_buffer_valid c.src ≡ false
      → (source_info linux exceeds c no_gauss).address ≡ zero_address
  unfolding source_info
  source_info-address c e =
      source_modes-address (source_start linux exceeds c) (source_of linux exceeds c)
        (target_of linux exceeds c) (layer_image linux exceeds c) (options_of c) c.usage
      ∙ source_start-address c e

  target_info-handle :
      (c : TaskCall) (context : Context) (space : ℕ)
      → c.dst.handle ≡ 0
      → (target_info linux exceeds c context space).address.handle ≡ 0
  unfolding target_info target_modes
  target_info-handle c context space f =
      let start = target_start linux exceeds c in
      let quantized = set_nn start (options_of c) c.usage in
      ap Address.handle (
        set_dither-address (record quantized { color_space_mode = space })
          (target_of linux exceeds c)
        ∙ set_nn-address start (options_of c) c.usage)
      ∙ target_start-handle c f

module _ (linux : Bool) (exceeds : ℤ → ℤ → ℕ → Bool) (to_fixed : ℤ → ℤ) {F : Type 0}
    (quotient : ℤ → ℤ → F) (below above equal : F → ℕ → Bool) (loads : Req → Bool) where
  copies :
      (session : Session) (usage : ℕ) (pat : Buffer) (src dst layer : Info)
      → uses usage im_color_fill ≡ false
      → uses usage im_color_palette ≡ false
      → blends usage ≡ false
      → generate linux exceeds to_fixed quotient below above equal loads session usage pat src dst
          layer
        ≡ generate_blit_req linux to_fixed quotient below above equal session src dst none
  unfolding generate
  copies session usage pat src dst layer e f g = rw (e, f, g, generate) refl

  nothing_made :
      (session : Session) (context : Context) (c : TaskCall) (space : ℕ)
      → Plain c.usage
      → rga_is_buffer_valid c.src ≡ false
      → c.dst.handle ≡ 0
      → make_request linux exceeds to_fixed quotient below above equal loads session context c space
          no_gauss
        ≡ prepared zero_req
  unfolding make_request
  nothing_made session context c space p e f =
      let src = source_info linux exceeds c no_gauss in
      let dst = target_info linux exceeds c context space in
      rw (p.waits, make_request)
        (ap prepared_of (
          copies session c.usage (layer_image linux exceeds c) src dst (layer_info linux exceeds c)
            p.fills p.looks_up p.mixes
          ∙ blit_untouched linux to_fixed quotient below above equal session src dst
              (source_info-address linux exceeds c e)
              (target_info-handle linux exceeds c context space f)))

  prepare_nothing :
      (session : Session) (context : Context) (c : TaskCall) (coe_ptr space : ℕ)
      → Plain c.usage
      → rga_is_buffer_valid c.src ≡ false
      → c.dst.handle ≡ 0
      → task_space session.hardware_info
          (source_of linux exceeds c)
          (target_of linux exceeds c)
          (layer_image linux exceeds c)
        ≡ some space
      → prepare linux exceeds to_fixed quotient below above equal loads session context c coe_ptr
        ≡ prepared zero_req
  unfolding prepare
  prepare_nothing session context c coe_ptr space p e f g =
      rw
        (
          g,
          no_blur (source_of linux exceeds c) (target_of linux exceeds c) (options_of c) coe_ptr
              c.usage p.blurs,
          prepare,
        )
        (nothing_made session context c space p e f)

  taken :
      (reply : IoctlReply) (later : List IoctlReply)
      → reply.ret ≡ pos 0
      → ioctl_loop (reply ∷ later) ≡ some reply
  unfolding ioctl_loop
  taken reply later z = ground (arith, z)

  -- The call of the multi-core driver.
  zero_sent :
      (session : Session) (c : TaskCall) (reply : IoctlReply) (later : List IoctlReply)
      → session.driver_type ≡ ioc_multi_rga
      → reply.ret ≡ pos 0
      → test_bit c.usage 26 ≡ false
      → uses c.usage im_gauss ≡ false
      → call_driver session c zero_req (reply ∷ later)
        ≡ some (record (ends success) { sent = some (sent_multi zero_req) })
  unfolding call_driver sent_of ioctl_loop
  zero_sent session c reply later e z f g =
      rw (e, call_driver, sent_of) (rw (taken reply later z, call_outcome) (rw (f, g, z) refl))

  -- A plain synchronous task outside a job, for the multi-core driver, whose source has no address
  -- and whose target has no handle: when the checks and the colour space mode are accepted and the
  -- driver takes the call, it was handed a request that is all zeros, and the call is a success.
  pub rga_task_submit_no_source :
      {M : Type 0} (ops : JobMap M) (session : Session) (context : Context) (c : TaskCall)
      (coe_ptr space : ℕ) (reply : IoctlReply) (later : List IoctlReply) (s : Manager Req M)
      → session.driver_type ≡ ioc_multi_rga
      → reply.ret ≡ pos 0
      → Plain c.usage
      → c.job_handle ≡ 0
      → rga_is_buffer_valid c.src ≡ false
      → c.dst.handle ≡ 0
      → checks linux exceeds to_fixed quotient below above equal loads ops session c ≡ noerror
      → task_space session.hardware_info
          (source_of linux exceeds c)
          (target_of linux exceeds c)
          (layer_image linux exceeds c)
        ≡ some space
      → rga_task_submit linux exceeds to_fixed quotient below above equal loads ops session context
          c coe_ptr
          (reply ∷ later)
          s
        ≡ (s, some (record (ends success) { sent = some (sent_multi zero_req) }))
  unfolding submit_prepared
  rga_task_submit_no_source ops session context c coe_ptr space reply later s d z p j e f g h =
      submit_checked linux exceeds to_fixed quotient below above equal loads ops session context c
        coe_ptr (reply ∷ later) s (prepared zero_req) g
        (prepare_nothing session context c coe_ptr space p e f h)
      ∙ rw (j, submit_prepared)
          (ap (λ o. (s, o)) (zero_sent session c reply later d z p.waits p.blurs))

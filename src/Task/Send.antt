-- ===== src/Task/Send.antt =====
-- The call of the driver at the end of rga_task_submit (im2d_api/src/im2d_impl.cpp).
use librga_rockchip.Base.{
  ℕ, Bool, true, false, not, ◌&&◌, ◌||◌, ◌==◌, if◌then◌else◌, Option, none, some, List, [], ◌∷◌,
}
use librga_rockchip.Base.Int.{negsuc, eqb_ℤ, ℤ, pos, ltb_ℤ}
use librga_rockchip.Base.Bits.{test_bit}
use librga_rockchip.Status.{Status, success, failed}
use librga_rockchip.Session.{Session, ioc_unknown, ioc_rga1, ioc_rga2, ioc_multi_rga}
use librga_rockchip.Check.{uses, im_gauss}
use librga_rockchip.Request.{Req}
use librga_rockchip.Request.Compat.{Rga2Req, normal_rga_compat_mode_convert_rga2}
use librga_rockchip.Task.Call.{TaskCall}

-- What a call of ioctl leaves: the number that it returns, errno, and the release fence that the
-- driver writes.
pub record IoctlReply : Type 0 where
  pub ret : ℤ
  pub errno : ℕ
  pub fence : ℤ

-- EINTR of Linux, and ERESTARTSYS, which the source writes as 512.
abbrev pub eintr : ℕ
eintr = 4

abbrev pub erestartsys : ℕ
erestartsys = 512

-- The condition of the loop around ioctl.
abbrev pub goes_on : IoctlReply → Bool
goes_on reply = eqb_ℤ reply.ret (negsuc 0) && (reply.errno == eintr || reply.errno == erestartsys)

-- The loop, over what its calls leave; `none` is a loop that goes on.
unfoldable pub ioctl_loop : List IoctlReply → Option IoctlReply
ioctl_loop [] = none
ioctl_loop (reply ∷ replies) = elim (goes_on reply) [
  | true ↦ ioctl_loop replies
  | false ↦ some reply
]

-- What the driver is handed.
pub data Sent : Type 0 where
  sent_rga2 : Rga2Req → Sent
  sent_multi : Req → Sent

-- The status, the release fence that is stored, what was sent, the file and the coefficients that
-- are given back.
pub record TaskOutcome : Type 0 where
  pub status : Status
  pub release_fence_fd : Option ℤ
  pub sent : Option Sent
  pub closed : Option ℤ
  pub freed : Option ℕ

abbrev pub ends : Status → TaskOutcome
ends status = record {
  status = status;
  release_fence_fd = none;
  sent = none;
  closed = none;
  freed = none;
}

-- release_resource, for a request.
abbrev pub freed_of : ℕ → Req → Option ℕ
freed_of usage req =
    if uses usage im_gauss && not (req.gauss_config.coe_ptr == 0)
    then some req.gauss_config.coe_ptr
    else none

unfoldable pub sent_of : Session → Req → Option Sent
unfolding normal_rga_compat_mode_convert_rga2
sent_of session req = elim session.driver_type [
  | ioc_rga1 ↦ some (sent_rga2 (normal_rga_compat_mode_convert_rga2 req))
  | ioc_rga2 ↦ some (sent_rga2 (normal_rga_compat_mode_convert_rga2 req))
  | ioc_multi_rga ↦ some (sent_multi req)
  | ioc_unknown ↦ none
]

-- The fence in `req`: the driver writes it there only when it was handed `req` itself.
abbrev fence_of : Sent → Req → ℤ → ℤ
fence_of (sent_rga2 r) req fence = req.out_fence_fd
fence_of (sent_multi r) req fence = fence

abbrev pub call_outcome : Session → TaskCall → Req → Sent → IoctlReply → TaskOutcome
call_outcome session c req sent reply =
    let async = test_bit c.usage 26 in
    if eqb_ℤ reply.ret (pos 0)
    then record {
      status = success;
      release_fence_fd = if async then some (fence_of sent req reply.fence) else none;
      sent = some sent;
      closed =
          if async && test_bit session.driver_feature 0 && ltb_ℤ (pos 0) c.acquire_fence_fd
          then some c.acquire_fence_fd
          else none;
      freed = freed_of c.usage req;
    }
    else record {
      status = failed;
      release_fence_fd = none;
      sent = some sent;
      closed = none;
      freed = freed_of c.usage req;
    }

-- The call of the driver; `none` while ioctl is interrupted again and again.
unfoldable pub call_driver : Session → TaskCall → Req → List IoctlReply → Option TaskOutcome
unfolding sent_of ioctl_loop
call_driver session c req replies = elim (sent_of session req) [
  | none ↦ some (record (ends failed) { freed = freed_of c.usage req })
  | some sent ↦ elim (ioctl_loop replies) [
    | none ↦ none
    | some reply ↦ some (call_outcome session c req sent reply)
  ]
]

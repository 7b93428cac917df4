-- ===== src/Task/Driver.antt =====
-- The loop around ioctl.
use librga_rockchip.Base.{
  ◌≡◌, refl, ◌⊎◌, ◌↔◌, List, [], ◌∷◌, ◌++◌, none, some, true, false, arith, All, inl, inr,
  Bool-cases, ap, ◌∙◌, sym,
}
use librga_rockchip.Base.Int.{negsuc}
use librga_rockchip.Task.Send.{IoctlReply, goes_on, ioctl_loop}

-- The call was interrupted: it returned -1 with EINTR, which is 4, or with 512.
abbrev pub Interrupted : IoctlReply → Type 0
Interrupted r = (r.ret ≡ negsuc 0) × ((r.errno ≡ 4) ⊎ (r.errno ≡ 512))

goes_on_iff : (r : IoctlReply) → (goes_on r ≡ true) ↔ Interrupted r
goes_on_iff r = ground arith

-- The calls end with `reply`, after calls that are interrupted.
abbrev pub EndsWith : List IoctlReply → IoctlReply → Type 0
EndsWith replies reply =
    (before : List IoctlReply) × (later : List IoctlReply) × (replies ≡ before ++ reply ∷ later)
    × All Interrupted before
    × ¬ Interrupted reply

loop_again :
    (r : IoctlReply) (rs : List IoctlReply) → goes_on r ≡ true → ioctl_loop (r ∷ rs) ≡ ioctl_loop rs
unfolding ioctl_loop
loop_again r rs e = rw (e, ioctl_loop)

loop_ends :
    (r : IoctlReply) (rs : List IoctlReply) → goes_on r ≡ false → ioctl_loop (r ∷ rs) ≡ some r
unfolding ioctl_loop
loop_ends r rs e = rw (e, ioctl_loop)

stopped : (r : IoctlReply) → goes_on r ≡ false → ¬ Interrupted r
stopped r off i = ground (arith, (goes_on_iff r).1 i)

loop-EndsWith :
    (rs : List IoctlReply) (reply : IoctlReply) → ioctl_loop rs ≡ some reply → EndsWith rs reply
unfolding ioctl_loop
loop-EndsWith [] reply e = absurd (cc)
loop-EndsWith (r ∷ rs) reply e = elim (Bool-cases (goes_on r)) [
  | inl on ↦
      let (before, later, split, all, last) =
        loop-EndsWith rs reply (sym (loop_again r rs on) ∙ e) in
      (r ∷ before, later, ap (λ ts. r ∷ ts) split, ((goes_on_iff r).0 on, all), last)
  | inr off ↦
      let same : r ≡ reply = ground (arith, sym (loop_ends r rs off) ∙ e) in
      ([], rs, ap (λ t. t ∷ rs) same, tt, rw same at (stopped r off))
]

EndsWith-loop :
    (before later : List IoctlReply) (reply : IoctlReply)
    → All Interrupted before
    → goes_on reply ≡ false
    → ioctl_loop (before ++ reply ∷ later) ≡ some reply
EndsWith-loop [] later reply all last = loop_ends reply later last
EndsWith-loop (r ∷ rs) later reply (i, all) last =
    loop_again r _ ((goes_on_iff r).1 i) ∙ EndsWith-loop rs later reply all last

none_iff : (rs : List IoctlReply) → (ioctl_loop rs ≡ none) ↔ All Interrupted rs
unfolding ioctl_loop
none_iff [] = ((λ e. tt), (λ u. refl))
none_iff (r ∷ rs) = elim (Bool-cases (goes_on r)) [
  | inl on ↦ (
    λ e. ((goes_on_iff r).0 on, (none_iff rs).0 (sym (loop_again r rs on) ∙ e)),
    λ all. loop_again r rs on ∙ (none_iff rs).1 all.1,
  )
  | inr off ↦ (
    λ e. absurd (ground (arith, loop_ends r rs off)),
    λ all. absurd (ground (arith, (goes_on_iff r).1 all.0)),
  )
]

-- The loop around ioctl makes calls as long as they are interrupted, and ends with the first call
-- that is not: it gives `reply` exactly when `reply` follows on interrupted calls only and is not
-- interrupted itself, whatever would come after it. It goes on exactly as long as every call is
-- interrupted.
pub ioctl_loop_lem :
    (replies : List IoctlReply)
    → ((reply : IoctlReply) → (ioctl_loop replies ≡ some reply) ↔ EndsWith replies reply)
      × ((ioctl_loop replies ≡ none) ↔ All Interrupted replies)
ioctl_loop_lem replies = (
  λ reply. (
    loop-EndsWith replies reply,
    λ (before, later, split, all, last).
        ap ioctl_loop split
        ∙ EndsWith-loop before later reply all (ground (arith, (goes_on_iff reply).0)),
  ),
  none_iff replies,
)

-- ===== src/Job/Linked/Delete.antt =====
-- rga_map_delete takes the node out of the list, and rga_map_list_deatroy takes all of them.
use librga_rockchip.Base.{
  ℕ, zero, suc, ◌<◌, ◌≡◌, ◌≢◌, [], ◌∷◌, ◌++◌, none, some, arith, length, sym, ap, ◌∙◌,
}
use librga_rockchip.Job.State.{update}
use librga_rockchip.Job.Linked.{
  MapList, unlink_prev, unlink_next, rga_map_delete, release, rga_map_list_destroy,
}
use librga_rockchip.Job.Linked.Shape.{Items, first, last, Represents, Chain-update, Chain-append}
use librga_rockchip.Job.Linked.Insert.{Leaves}
use librga_rockchip.Job.Linked.Unlink.{
  Distinct-Apart, unlink_prev-Yields, unlink_next-Yields, first-join, last-join,
}

delete_steps :
    (m m' m'' : MapList) (p : ℕ)
    → p ≢ 0
    → unlink_prev m p ≡ some m'
    → unlink_next m' p ≡ some m''
    → rga_map_delete m p ≡ some (release m'' p)
unfolding rga_map_delete
delete_steps m m' m'' p f e g = ground (arith, f, e, g)

pub rga_map_delete-Leaves :
    (m : MapList) (ys : Items) (p k v : ℕ) (zs : Items)
    → Represents m (ys ++ (p, k, v) ∷ zs)
    → Leaves (rga_map_delete m p) (ys ++ zs)
rga_map_delete-Leaves m ys p k v zs r =
    let d = Distinct-Apart ys p k v zs r.distinct in
    let one = unlink_prev-Yields m ys p k v zs r in
    let two = unlink_next-Yields one.result ys p k v zs r.distinct one.holds in
    let b = two.holds in
    let node = two.result.node in
    record {
      after = release two.result p;
      done = delete_steps m one.result two.result p d.not_null one.done two.done;
      held = record {
        starts = b.starts ∙ sym (first-join ys zs);
        ends = b.ends ∙ sym (last-join 0 ys zs);
        chain =
            Chain-append (update node p none) 0 ys zs 0
              (Chain-update node p none 0 ys (first zs 0) d.before b.before)
              (Chain-update node p none (last 0 ys) zs 0 d.after b.after);
        distinct = d.both;
      };
    }

destroy_step :
    (fuel : ℕ) (m m' : MapList)
    → m.head ≢ 0
    → rga_map_delete m m.head ≡ some m'
    → rga_map_list_destroy (suc fuel) m ≡ rga_map_list_destroy fuel m'
unfolding rga_map_list_destroy
destroy_step fuel m m' f e = ground (arith, f, e)

-- On a list that is well formed, with more rounds than nodes, the loop of rga_map_list_deatroy ends
-- without a fault, and what it leaves is a well-formed list with no node.
pub rga_map_list_destroy-Leaves :
    (fuel : ℕ) (m : MapList) (xs : Items)
    → Represents m xs
    → length xs < fuel
    → Leaves (rga_map_list_destroy fuel m) []
unfolding rga_map_list_destroy
rga_map_list_destroy-Leaves zero m xs r f = absurd (omega arith)
rga_map_list_destroy-Leaves (suc fuel) m [] r f = record {
  after = m;
  done = ground (arith, r.starts);
  held = r;
}
rga_map_list_destroy-Leaves (suc fuel) m ((a, k, v) ∷ xs) r f =
    let one = rga_map_delete-Leaves m [] a k v xs r in
    let rest = rga_map_list_destroy-Leaves fuel one.after xs one.held (omega (arith, f)) in
    record {
      after = rest.after;
      done =
          destroy_step fuel m one.after (ground (arith, r.starts, r.distinct.0))
            (ap (rga_map_delete m) r.starts ∙ one.done)
          ∙ rest.done;
      held = rest.held;
    }

-- ===== src/Job/Linked/Unlink.antt =====
-- The two halves of rga_map_delete: the neighbours of the node are joined.
use librga_rockchip.Base.{ℕ, ◌≡◌, ◌≢◌, refl, [], ◌∷◌, ◌++◌, Option, some, arith, sym, subst, ◌∙◌}
use librga_rockchip.Job.Linked.{
  Node, make_node, MapList, set_next, set_prev, unlink_prev, unlink_next,
}
use librga_rockchip.Job.Linked.Shape.{
  Items, first, last, Chain, Absent, Distinct, Represents, Chain-update, Chain-front, Chain-back,
  Absent-append, append-Absent, Distinct-append,
}
use librga_rockchip.Job.Linked.Insert.{
  set_next-Last, set_prev-First, Absent-last, kept, last-Distinct,
}

-- What a node in the list is apart from, on either side.
pub record Apart (ys : Items) (p : ℕ) (zs : Items) : Type 0 where
  pub not_null : p ≢ 0
  pub before : Absent p ys
  pub after : Absent p zs
  pub both : Distinct (ys ++ zs)

pub Distinct-Apart :
    (ys : Items) (p k v : ℕ) (zs : Items) → Distinct (ys ++ (p, k, v) ∷ zs) → Apart ys p zs
Distinct-Apart [] p k v zs d = record { not_null = d.0; before = tt; after = d.1; both = d.2 }
Distinct-Apart ((a, i, w) ∷ ys) p k v zs d =
    let r = Distinct-Apart ys p k v zs d.2 in
    let (f, g) = Absent-append a ys ((p, k, v) ∷ zs) d.1 in
    record {
      not_null = r.not_null;
      before = ((λ e. g.0 (sym e)), r.before);
      after = r.after;
      both = (d.0, append-Absent a ys zs f g.1, r.both);
    }

-- A list with the node `p` between two chains, at each stage of the deletion.
pub record Between (m : MapList) (head tail : ℕ) (ys : Items) (right p : ℕ) (n : Node) (left : ℕ)
    (zs : Items) : Type 0 where
  pub starts : m.head ≡ head
  pub ends : m.tail ≡ tail
  pub before : Chain m.node 0 ys right
  pub here : m.node p ≡ some n
  pub after : Chain m.node left zs 0

pub record Yields (r : Option MapList) (P : MapList → Type 0) : Type 0 where
  pub result : MapList
  pub done : r ≡ some result
  pub holds : P result

first-append : (ys : Items) (p k v : ℕ) (zs : Items) → first (ys ++ (p, k, v) ∷ zs) 0 ≡ first ys p
first-append [] p k v zs = refl
first-append ((a, i, w) ∷ ys) p k v zs = refl

pub first-join : (ys zs : Items) → first (ys ++ zs) 0 ≡ first ys (first zs 0)
first-join [] zs = refl
first-join ((a, i, w) ∷ ys) zs = refl

pub last-join : (q : ℕ) (ys zs : Items) → last q (ys ++ zs) ≡ last (last q ys) zs
last-join q [] zs = refl
last-join q ((a, i, w) ∷ ys) zs = last-join a ys zs

Represents-Between :
    (m : MapList) (ys : Items) (p k v : ℕ) (zs : Items)
    → Represents m (ys ++ (p, k, v) ∷ zs)
    → Between m (first ys p) (last p zs) ys p p (make_node (last 0 ys) (first zs 0) k v) p zs
Represents-Between m ys p k v zs r =
    let back = Chain-back m.node 0 ys ((p, k, v) ∷ zs) 0 r.chain in
    record {
      starts = r.starts ∙ first-append ys p k v zs;
      ends = r.ends ∙ last-join 0 ys ((p, k, v) ∷ zs);
      before = Chain-front m.node 0 ys ((p, k, v) ∷ zs) 0 r.chain;
      here = back.0;
      after = back.1;
    }

-- The last node of the first chain is apart from the second chain.
last-Absent :
    (q a i w : ℕ) (ys zs : Items)
    → Distinct ((a, i, w) ∷ ys ++ zs)
    → Absent (last q ((a, i, w) ∷ ys)) zs
last-Absent q a i w [] zs d = d.1
last-Absent q a i w ((b, j, x) ∷ ys) zs d = last-Absent a b j x ys zs d.2

-- The first node of the second chain is apart from the first chain.
first-Absent : (ys : Items) (a i w : ℕ) (zs : Items) → Distinct (ys ++ (a, i, w) ∷ zs) → Absent a ys
first-Absent ys a i w zs d = (Distinct-Apart ys a i w zs d).before

unlink_prev_head :
    (m : MapList) (p next k v : ℕ)
    → m.node p ≡ some (make_node 0 next k v)
    → unlink_prev m p ≡ some (record m { head = next })
unfolding unlink_prev
unlink_prev_head m p next k v e = ground (arith, e)

unlink_prev_inner :
    (m : MapList) (p prev next k v : ℕ) (node' : ℕ → Option Node)
    → m.node p ≡ some (make_node prev next k v)
    → prev ≢ 0
    → set_next m.node prev next ≡ some node'
    → unlink_prev m p ≡ some (record m { node = node' })
unfolding unlink_prev
unlink_prev_inner m p prev next k v node' e f g = ground (arith, e, f, g)

unlink_next_tail :
    (m : MapList) (p prev k v : ℕ)
    → m.node p ≡ some (make_node prev 0 k v)
    → unlink_next m p ≡ some (record m { tail = prev })
unfolding unlink_next
unlink_next_tail m p prev k v e = ground (arith, e)

unlink_next_inner :
    (m : MapList) (p prev next k v : ℕ) (node' : ℕ → Option Node)
    → m.node p ≡ some (make_node prev next k v)
    → next ≢ 0
    → set_prev m.node next prev ≡ some node'
    → unlink_next m p ≡ some (record m { node = node' })
unfolding unlink_next
unlink_next_inner m p prev next k v node' e f g = ground (arith, e, f, g)

pub unlink_prev-Yields :
    (m : MapList) (ys : Items) (p k v : ℕ) (zs : Items)
    → Represents m (ys ++ (p, k, v) ∷ zs)
    → Yields (unlink_prev m p) (λ m'.
      Between m'
        (first ys (first zs 0))
        (last p zs)
        ys
        (first zs 0)
        p
        (make_node (last 0 ys) (first zs 0) k v)
        p
        zs)
unlink_prev-Yields m [] p k v zs r =
    let b = Represents-Between m [] p k v zs r in
    record {
      result = record m { head = first zs 0 };
      done = unlink_prev_head m p (first zs 0) k v b.here;
      holds = record { starts = refl; ends = b.ends; before = tt; here = b.here; after = b.after };
    }
unlink_prev-Yields m ((a, i, w) ∷ ys) p k v zs r =
    let b = Represents-Between m ((a, i, w) ∷ ys) p k v zs r in
    let d = Distinct-Apart ((a, i, w) ∷ ys) p k v zs r.distinct in
    let own = (Distinct-append ((a, i, w) ∷ ys) zs d.both).0 in
    let q = last a ys in
    let s = set_next-Last m.node 0 a i w ys p (first zs 0) own b.before in
    record {
      result = record m { node = s.node' };
      done =
          unlink_prev_inner m p q (first zs 0) k v s.node' b.here (last-Distinct 0 a i w ys own)
            s.done;
      holds = record {
        starts = b.starts;
        ends = b.ends;
        before = s.chain;
        here =
            kept m.node s.node' q p (some (make_node q (first zs 0) k v)) (some s.stored) s.same
              (Absent-last p 0 a i w ys d.before) b.here;
        after =
            subst (λ node. Chain node p zs 0) (sym s.same)
              (Chain-update m.node q (some s.stored) p zs 0 (last-Absent 0 a i w ys zs d.both)
                b.after);
      };
    }

pub unlink_next-Yields :
    (m : MapList) (ys : Items) (p k v : ℕ) (zs : Items)
    → Distinct (ys ++ (p, k, v) ∷ zs)
    → Between m
        (first ys (first zs 0))
        (last p zs)
        ys
        (first zs 0)
        p
        (make_node (last 0 ys) (first zs 0) k v)
        p
        zs
    → Yields (unlink_next m p) (λ m'.
      Between m'
        (first ys (first zs 0))
        (last (last 0 ys) zs)
        ys
        (first zs 0)
        p
        (make_node (last 0 ys) (first zs 0) k v)
        (last 0 ys)
        zs)
unlink_next-Yields m ys p k v [] dis b = record {
  result = record m { tail = last 0 ys };
  done = unlink_next_tail m p (last 0 ys) k v b.here;
  holds = record { starts = b.starts; ends = refl; before = b.before; here = b.here; after = tt };
}
unlink_next-Yields m ys p k v ((a, i, w) ∷ zs) dis b =
    let d = Distinct-Apart ys p k v ((a, i, w) ∷ zs) dis in
    let own = (Distinct-append ys ((a, i, w) ∷ zs) d.both).1 in
    let q = last 0 ys in
    let s = set_prev-First m.node q p a i w zs 0 own b.after in
    record {
      result = record m { node = s.node' };
      done = unlink_next_inner m p q a k v s.node' b.here own.0 s.done;
      holds = record {
        starts = b.starts;
        ends = b.ends;
        before =
            subst (λ node. Chain node 0 ys a) (sym s.same)
              (Chain-update m.node a (some s.stored) 0 ys a (first-Absent ys a i w zs d.both)
                b.before);
        here =
            kept m.node s.node' a p (some (make_node q a k v)) (some s.stored) s.same d.after.0
              b.here;
        after = s.chain;
      };
    }

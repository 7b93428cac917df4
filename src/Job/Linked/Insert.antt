-- ===== src/Job/Linked/Insert.antt =====
-- The two insertions put the item at an end of the list.
use librga_rockchip.Base.{ℕ, ◌≡◌, ◌≢◌, refl, [], ◌∷◌, ◌++◌, Option, none, some, arith, sym}
use librga_rockchip.Job.State.{update}
use librga_rockchip.Job.Linked.{
  Node, make_node, MapList, set_next, set_prev, rga_map_insert_head, rga_map_insert_tail,
}
use librga_rockchip.Job.Linked.Shape.{
  Items, first, last, Chain, Absent, Distinct, Represents, Chain-update, Chain-append,
  append-Absent,
}

-- An address that holds no node is not in the list.
pub Chain-Absent :
    (node : ℕ → Option Node) (prev : ℕ) (xs : Items) (next p : ℕ)
    → node p ≡ none
    → Chain node prev xs next
    → Absent p xs
Chain-Absent node prev [] next p e c = tt
Chain-Absent node prev ((a, k, v) ∷ xs) next p e c =
    (λ same. ground (arith, e, c.0, same), Chain-Absent node a xs next p e c.1)

pub Absent-last :
    (p q a k v : ℕ) (xs : Items) → Absent p ((a, k, v) ∷ xs) → p ≢ last q ((a, k, v) ∷ xs)
Absent-last p q a k v [] f = f.0
Absent-last p q a k v ((b, i, w) ∷ xs) f = Absent-last p a b i w xs f.1

-- The node behind the last address, and the chain when its `next` is set.
pub record Last (node : ℕ → Option Node) (prev : ℕ) (xs : Items) (next : ℕ) : Type 0 where
  pub node' : ℕ → Option Node
  pub stored : Node
  pub done : set_next node (last prev xs) next ≡ some node'
  pub same : node' ≡ update node (last prev xs) (some stored)
  pub chain : Chain node' prev xs next

pub set_next-Last :
    (node : ℕ → Option Node) (prev a k v : ℕ) (xs : Items) (old next : ℕ)
    → Distinct ((a, k, v) ∷ xs)
    → Chain node prev ((a, k, v) ∷ xs) old
    → Last node prev ((a, k, v) ∷ xs) next
unfolding set_next
set_next-Last node prev a k v [] old next d c = record {
  node' = update node a (some (make_node prev next k v));
  stored = make_node prev next k v;
  done = ground (arith, c.0);
  same = refl;
  chain = (ground arith, tt);
}
set_next-Last node prev a k v ((b, i, w) ∷ xs) old next d c =
    let r = set_next-Last node a b i w xs old next d.2 c.1 in
    record {
      node' = r.node';
      stored = r.stored;
      done = r.done;
      same = r.same;
      chain = (ground (arith, r.same, c.0, Absent-last a a b i w xs d.1), r.chain);
    }

-- The chain when the `prev` of its first node is set.
pub record First (node : ℕ → Option Node) (prev a k v : ℕ) (xs : Items) (next : ℕ) : Type 0 where
  pub node' : ℕ → Option Node
  pub stored : Node
  pub done : set_prev node a prev ≡ some node'
  pub same : node' ≡ update node a (some stored)
  pub chain : Chain node' prev ((a, k, v) ∷ xs) next

pub set_prev-First :
    (node : ℕ → Option Node) (prev old a k v : ℕ) (xs : Items) (next : ℕ)
    → Distinct ((a, k, v) ∷ xs)
    → Chain node old ((a, k, v) ∷ xs) next
    → First node prev a k v xs next
unfolding set_prev
set_prev-First node prev old a k v xs next d c = record {
  node' = update node a (some (make_node prev (first xs next) k v));
  stored = make_node prev (first xs next) k v;
  done = ground (arith, c.0);
  same = refl;
  chain = (
    ground arith,
    Chain-update node a (some (make_node prev (first xs next) k v)) a xs next d.1 c.1,
  );
}

last-append : (p : ℕ) (xs : Items) (a k v : ℕ) → last p (xs ++ (a, k, v) ∷ []) ≡ a
last-append p [] a k v = refl
last-append p ((b, i, w) ∷ xs) a k v = last-append b xs a k v

Distinct-insert :
    (xs : Items) (a k v : ℕ) → a ≢ 0 → Distinct xs → Absent a xs → Distinct (xs ++ (a, k, v) ∷ [])
Distinct-insert [] a k v f d g = (f, tt, tt)
Distinct-insert ((b, i, w) ∷ xs) a k v f d g = (
  d.0,
  append-Absent b xs ((a, k, v) ∷ []) d.1 ((λ e. g.0 (sym e)), tt),
  Distinct-insert xs a k v f d.2 g.1,
)

-- The result of a call on the list: it does not fault, and what the list then holds.
pub record Leaves (r : Option MapList) (xs : Items) : Type 0 where
  pub after : MapList
  pub done : r ≡ some after
  pub held : Represents after xs

pub rga_map_insert_head-Leaves :
    (m : MapList) (xs : Items) (a k v : ℕ)
    → Represents m xs
    → a ≢ 0
    → m.node a ≡ none
    → Leaves (rga_map_insert_head m a k v) ((a, k, v) ∷ xs)
unfolding rga_map_insert_head
rga_map_insert_head-Leaves m [] a k v r f e = record {
  after = record { head = a; tail = a; node = update m.node a (some (make_node 0 m.head k v)) };
  done = ground (arith, r.starts);
  held = record {
    starts = refl;
    ends = refl;
    chain = (ground (arith, r.starts), tt);
    distinct = (f, tt, tt);
  };
}
rga_map_insert_head-Leaves m ((b, i, w) ∷ xs) a k v r f e =
    let g = Chain-Absent m.node 0 ((b, i, w) ∷ xs) 0 a e r.chain in
    let n = some (make_node 0 b k v) in
    let s =
      set_prev-First (update m.node a n) a 0 b i w xs 0 r.distinct
        (Chain-update m.node a n 0 ((b, i, w) ∷ xs) 0 g r.chain) in
    record {
      after = record { head = a; tail = m.tail; node = s.node' };
      done = ground (arith, r.starts, s.done, r.distinct.0);
      held = record {
        starts = refl;
        ends = r.ends;
        chain = (ground (arith, s.same, g.0), s.chain);
        distinct = (f, g, r.distinct);
      };
    }

-- A write to another node keeps a node.
pub kept :
    (node node' : ℕ → Option Node) (p q : ℕ) (n n' : Option Node)
    → node' ≡ update node p n'
    → q ≢ p
    → node q ≡ n
    → node' q ≡ n
kept node node' p q n n' e f g = ground (arith, e, f, g)

insert_tail_linked :
    (m : MapList) (a k v p : ℕ) (node' : ℕ → Option Node)
    → m.tail ≡ p
    → p ≢ 0
    → set_next (update m.node a (some (make_node p 0 k v))) p a ≡ some node'
    → rga_map_insert_tail m a k v ≡ some (record { head = m.head; tail = a; node = node' })
unfolding rga_map_insert_tail
insert_tail_linked m a k v p node' e f g = ground (arith, e, f, g)

pub last-Distinct :
    (q a k v : ℕ) (xs : Items) → Distinct ((a, k, v) ∷ xs) → last q ((a, k, v) ∷ xs) ≢ 0
last-Distinct q a k v [] d = d.0
last-Distinct q a k v ((b, i, w) ∷ xs) d = last-Distinct a b i w xs d.2

pub rga_map_insert_tail-Leaves :
    (m : MapList) (xs : Items) (a k v : ℕ)
    → Represents m xs
    → a ≢ 0
    → m.node a ≡ none
    → Leaves (rga_map_insert_tail m a k v) (xs ++ (a, k, v) ∷ [])
unfolding rga_map_insert_tail
rga_map_insert_tail-Leaves m [] a k v r f e = record {
  after = record { head = a; tail = a; node = update m.node a (some (make_node m.tail 0 k v)) };
  done = ground (arith, r.ends);
  held = record {
    starts = refl;
    ends = refl;
    chain = (ground (arith, r.ends), tt);
    distinct = (f, tt, tt);
  };
}
rga_map_insert_tail-Leaves m ((b, i, w) ∷ xs) a k v r f e =
    let g = Chain-Absent m.node 0 ((b, i, w) ∷ xs) 0 a e r.chain in
    let p = last b xs in
    let n = some (make_node p 0 k v) in
    let old = Chain-update m.node a n 0 ((b, i, w) ∷ xs) 0 g r.chain in
    let s = set_next-Last (update m.node a n) 0 b i w xs 0 a r.distinct old in
    let stays =
      kept (update m.node a n) s.node' p a n (some s.stored) s.same (Absent-last a 0 b i w xs g)
        (ground arith) in
    record {
      after = record { head = m.head; tail = a; node = s.node' };
      done =
          insert_tail_linked m a k v p s.node' r.ends (last-Distinct 0 b i w xs r.distinct) s.done;
      held = record {
        starts = r.starts;
        ends = sym (last-append b xs a k v);
        chain = Chain-append s.node' 0 ((b, i, w) ∷ xs) ((a, k, v) ∷ []) 0 s.chain (stays, tt);
        distinct = Distinct-insert ((b, i, w) ∷ xs) a k v f r.distinct g;
      };
    }

-- ===== src/Job/Linked/Shape.antt =====
-- The shape of the list: the nodes in order, each with its address, key and value.
use librga_rockchip.Base.{ℕ, ◌≡◌, ◌≢◌, List, [], ◌∷◌, ◌++◌, Option, some, arith}
use librga_rockchip.Job.State.{update}
use librga_rockchip.Job.Linked.{Node, make_node, MapList}

-- (address, key, value)
abbrev pub Items : Type 0
Items = List (ℕ × ℕ × ℕ)

-- The first address, or `next` for an empty list.
abbrev pub first : Items → ℕ → ℕ
first [] next = next
first ((a, k, v) ∷ xs) next = a

-- The last address, or `prev` for an empty list.
abbrev pub last : ℕ → Items → ℕ
last prev [] = prev
last prev ((a, k, v) ∷ xs) = last a xs

-- The chain of nodes between the addresses `prev` and `next`.
abbrev pub Chain : (ℕ → Option Node) → ℕ → Items → ℕ → Type 0
Chain node prev [] next = Unit {0}
Chain node prev ((a, k, v) ∷ xs) next =
    (node a ≡ some (make_node prev (first xs next) k v)) × Chain node a xs next

abbrev pub Absent : ℕ → Items → Type 0
Absent p [] = Unit {0}
Absent p ((a, k, v) ∷ xs) = (p ≢ a) × Absent p xs

-- The addresses are not NULL and differ.
abbrev pub Distinct : Items → Type 0
Distinct [] = Unit {0}
Distinct ((a, k, v) ∷ xs) = (a ≢ 0) × Absent a xs × Distinct xs

pub record Represents (m : MapList) (xs : Items) : Type 0 where
  pub starts : m.head ≡ first xs 0
  pub ends : m.tail ≡ last 0 xs
  pub chain : Chain m.node 0 xs 0
  pub distinct : Distinct xs

-- A node outside the chain may change.
pub Chain-update :
    (node : ℕ → Option Node) (p : ℕ) (n : Option Node) (prev : ℕ) (xs : Items) (next : ℕ)
    → Absent p xs
    → Chain node prev xs next
    → Chain (update node p n) prev xs next
Chain-update node p n prev [] next f c = tt
Chain-update node p n prev ((a, k, v) ∷ xs) next f c =
    (ground arith, Chain-update node p n a xs next f.1 c.1)

pub Chain-append :
    (node : ℕ → Option Node) (prev : ℕ) (xs ys : Items) (next : ℕ)
    → Chain node prev xs (first ys next)
    → Chain node (last prev xs) ys next
    → Chain node prev (xs ++ ys) next
Chain-append node prev [] ys next c d = d
Chain-append node prev ((a, k, v) ∷ []) ys next c d = (c.0, d)
Chain-append node prev ((a, k, v) ∷ (b, i, w) ∷ xs) ys next c d =
    (c.0, Chain-append node a ((b, i, w) ∷ xs) ys next c.1 d)

pub Chain-front :
    (node : ℕ → Option Node) (prev : ℕ) (xs ys : Items) (next : ℕ)
    → Chain node prev (xs ++ ys) next
    → Chain node prev xs (first ys next)
Chain-front node prev [] ys next c = tt
Chain-front node prev ((a, k, v) ∷ []) ys next c = (c.0, tt)
Chain-front node prev ((a, k, v) ∷ (b, i, w) ∷ xs) ys next c =
    (c.0, Chain-front node a ((b, i, w) ∷ xs) ys next c.1)

pub Chain-back :
    (node : ℕ → Option Node) (prev : ℕ) (xs ys : Items) (next : ℕ)
    → Chain node prev (xs ++ ys) next
    → Chain node (last prev xs) ys next
Chain-back node prev [] ys next c = c
Chain-back node prev ((a, k, v) ∷ xs) ys next c = Chain-back node a xs ys next c.1

pub Absent-append : (p : ℕ) (xs ys : Items) → Absent p (xs ++ ys) → Absent p xs × Absent p ys
Absent-append p [] ys f = (tt, f)
Absent-append p ((a, k, v) ∷ xs) ys f = let (g, h) = Absent-append p xs ys f.1 in ((f.0, g), h)

pub append-Absent : (p : ℕ) (xs ys : Items) → Absent p xs → Absent p ys → Absent p (xs ++ ys)
append-Absent p [] ys f g = g
append-Absent p ((a, k, v) ∷ xs) ys f g = (f.0, append-Absent p xs ys f.1 g)

pub Distinct-append : (xs ys : Items) → Distinct (xs ++ ys) → Distinct xs × Distinct ys
Distinct-append [] ys d = (tt, d)
Distinct-append ((a, k, v) ∷ xs) ys d =
    let (e, f) = Distinct-append xs ys d.2 in ((d.0, (Absent-append a xs ys d.1).0, e), f)

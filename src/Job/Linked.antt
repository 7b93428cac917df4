-- ===== src/Job/Linked.antt =====
-- The map of handles of a C build: the doubly linked list of im2d_api/src/im2d_job.cpp and im2d_job.h.
-- 0 is NULL. A read or write through a pointer that is not a node is a fault, `none`.
pub mod Shape
pub mod Find
pub mod Insert
pub mod Calls
pub mod Unlink
pub mod Delete
pub mod Keyed
pub mod Steps
pub mod Refines
mod Tests
use librga_rockchip.Base.{ℕ, zero, suc, Option, none, some, Bool, true, false, ◌==◌, if◌then◌else◌}
use librga_rockchip.Job.State.{update}

-- rga_map_node_t, with the key and the value of its data.
pub record Node : Type 0 where
  pub prev : ℕ
  pub next : ℕ
  pub key : ℕ
  pub value : ℕ

abbrev pub make_node : ℕ → ℕ → ℕ → ℕ → Node
make_node p n k v = record { prev = p; next = n; key = k; value = v }

-- rga_map_list_t, with the part of the heap that holds nodes.
pub record MapList : Type 0 where
  pub head : ℕ
  pub tail : ℕ
  pub node : ℕ → Option Node

-- rga_map_list_init
unfoldable pub rga_map_list_init : (ℕ → Option Node) → MapList
rga_map_list_init node = record { head = 0; tail = 0; node = node }

-- p->next = next; and p->prev = prev;
unfoldable pub set_next : (ℕ → Option Node) → ℕ → ℕ → Option (ℕ → Option Node)
set_next node p next = elim (node p) [
  | none ↦ none
  | some n ↦ some (update node p (some (record n { next = next })))
]

unfoldable pub set_prev : (ℕ → Option Node) → ℕ → ℕ → Option (ℕ → Option Node)
set_prev node p prev = elim (node p) [
  | none ↦ none
  | some n ↦ some (update node p (some (record n { prev = prev })))
]

-- `a` is the address that malloc gives.
unfoldable pub rga_map_insert_head : MapList → ℕ → ℕ → ℕ → Option MapList
unfolding set_prev
rga_map_insert_head m a k v =
    let node = update m.node a (some (make_node 0 m.head k v)) in
    if m.head == 0
    then some (record { head = a; tail = a; node = node })
    else elim (set_prev node m.head a) [
      | none ↦ none
      | some node' ↦ some (record { head = a; tail = m.tail; node = node' })
    ]

unfoldable pub rga_map_insert_tail : MapList → ℕ → ℕ → ℕ → Option MapList
unfolding set_next
rga_map_insert_tail m a k v =
    let node = update m.node a (some (make_node m.tail 0 k v)) in
    if m.tail == 0
    then some (record { head = a; tail = a; node = node })
    else elim (set_next node m.tail a) [
      | none ↦ none
      | some node' ↦ some (record { head = m.head; tail = a; node = node' })
    ]

-- The two halves of rga_map_delete, each reading the node again.
unfoldable pub unlink_prev : MapList → ℕ → Option MapList
unfolding set_next
unlink_prev m p = elim (m.node p) [
  | none ↦ none
  | some n ↦
      if n.prev == 0
      then some (record m { head = n.next })
      else elim (set_next m.node n.prev n.next) [
        | none ↦ none
        | some node ↦ some (record m { node = node })
      ]
]

unfoldable pub unlink_next : MapList → ℕ → Option MapList
unfolding set_prev
unlink_next m p = elim (m.node p) [
  | none ↦ none
  | some n ↦
      if n.next == 0
      then some (record m { tail = n.prev })
      else elim (set_prev m.node n.next n.prev) [
        | none ↦ none
        | some node ↦ some (record m { node = node })
      ]
]

abbrev pub release : MapList → ℕ → MapList
release m p = record m { node = update m.node p none }

unfoldable pub rga_map_delete : MapList → ℕ → Option MapList
unfolding unlink_prev unlink_next
rga_map_delete m p = if p == 0 then some m else elim (unlink_prev m p) [
  | none ↦ none
  | some m' ↦ elim (unlink_next m' p) [ none ↦ none | some m'' ↦ some (release m'' p) ]
]

-- The loop of rga_map_find, from the node `curr`. `none` is a fault or the end of the fuel, and
-- `some 0` the answer NULL.
unfoldable pub find_from : ℕ → (ℕ → Option Node) → ℕ → ℕ → Option ℕ
find_from zero node curr key = none
find_from (suc fuel) node curr key = if curr == 0 then some 0 else elim (node curr) [
  | none ↦ none
  | some n ↦ elim (n.key == key) [ true ↦ some curr | false ↦ find_from fuel node n.next key ]
]

unfoldable pub rga_map_find : ℕ → MapList → ℕ → Option ℕ
unfolding find_from
rga_map_find fuel m key = find_from fuel m.node m.head key

-- rga_map_list_deatroy, with the rounds as fuel.
unfoldable pub rga_map_list_destroy : ℕ → MapList → Option MapList
rga_map_list_destroy zero m = none
rga_map_list_destroy (suc fuel) m = elim (m.head == 0) [
  | true ↦ some m
  | false ↦ elim (rga_map_delete m m.head) [ none ↦ none | some m' ↦ rga_map_list_destroy fuel m' ]
]

unfoldable pub rga_map_insert_job : ℕ → MapList → ℕ → ℕ → ℕ → Option MapList
unfolding rga_map_find rga_map_insert_tail
rga_map_insert_job fuel m a handle job = elim (rga_map_find fuel m handle) [
  | none ↦ none
  | some p ↦ if p == 0 then rga_map_insert_tail m a handle job else some m
]

unfoldable pub rga_map_delete_job : ℕ → MapList → ℕ → Option MapList
unfolding rga_map_find rga_map_delete
rga_map_delete_job fuel m handle = elim (rga_map_find fuel m handle) [
  | none ↦ none
  | some p ↦ if p == 0 then some m else rga_map_delete m p
]

-- The job, or 0 for NULL.
unfoldable pub rga_map_find_job : ℕ → MapList → ℕ → Option ℕ
unfolding rga_map_find
rga_map_find_job fuel m handle = elim (rga_map_find fuel m handle) [
  | none ↦ none
  | some p ↦ if p == 0 then some 0 else elim (m.node p) [ none ↦ none | some n ↦ some n.value ]
]

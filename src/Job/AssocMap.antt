-- ===== src/Job/AssocMap.antt =====
-- An association list as a map of handles: a concrete value of the interface, for the tests.
use librga_rockchip.Base.{
  ℕ, suc, ◌+◌, ◌≡◌, refl, List, [], ◌∷◌, Option, none, some, arith, ◌==◌, if◌then◌else◌,
  Option-cases, inl, inr,
}
use librga_rockchip.Job.Defs.{JobMap}

abbrev pub Assoc : Type 0
Assoc = List (ℕ × ℕ)

abbrev pub find : Assoc → ℕ → Option ℕ
find [] k = none
find ((j, v) ∷ m) k = if j == k then some v else find m k

abbrev pub insert : Assoc → ℕ → ℕ → Assoc
insert m k v = elim (find m k) [ none ↦ (k, v) ∷ m | some w ↦ m ]

abbrev pub delete : Assoc → ℕ → Assoc
delete [] k = []
delete ((j, v) ∷ m) k = let rest = delete m k in if j == k then rest else (j, v) ∷ rest

-- The number of keys.
abbrev pub size : Assoc → ℕ
size [] = 0
size ((j, v) ∷ m) = let rest = size m in elim (find m j) [ none ↦ suc rest | some w ↦ rest ]

pub insert_old : (m : Assoc) (k v w : ℕ) → find m k ≡ some w → insert m k v ≡ m
insert_old m k v w e = ground arith

pub find-insert :
    (m : Assoc) (k v j : ℕ)
    → find m k ≡ none
    → find (insert m k v) j ≡ (if k == j then some v else find m j)
find-insert m k v j e = ground arith

pub find-delete : (m : Assoc) (k j : ℕ) → find (delete m k) j ≡ (if k == j then none else find m j)
find-delete [] k j = ground arith
find-delete ((i, v) ∷ m) k j = ground (arith, find-delete m k j)

delete_missing : (m : Assoc) (k : ℕ) → find m k ≡ none → delete m k ≡ m
delete_missing [] k e = refl
delete_missing ((i, v) ∷ m) k e = ground (arith, delete_missing m k)

pub size-insert : (m : Assoc) (k v : ℕ) → find m k ≡ none → size (insert m k v) ≡ size m + 1
size-insert m k v e = ground arith

pub size-delete : (m : Assoc) (k v : ℕ) → find m k ≡ some v → size m ≡ size (delete m k) + 1
size-delete [] k v e = absurd (cc)
size-delete ((i, w) ∷ m) k v e = elim (Option-cases (find m k)) [
  | inl missing ↦ ground (arith, delete_missing m k missing, find-delete m k i)
  | inr (u, found) ↦ ground (arith, size-delete m k u found, find-delete m k i)
]

abbrev pub assoc_map : JobMap Assoc
assoc_map = record {
  empty = [];
  find_job = find;
  insert_job = insert;
  delete_job = delete;
  size = size;
  size-empty = refl;
  find-empty = λ k. refl;
  insert_old = insert_old;
  find-insert = find-insert;
  find-delete = find-delete;
  size-insert = size-insert;
  size-delete = size-delete;
}

-- ===== src/Job/Linked/Find.antt =====
-- rga_map_find walks the list: it gives the first item with the key.
use librga_rockchip.Base.{
  ℕ, zero, suc, ◌+◌, ◌<◌, ◌≡◌, ◌≢◌, refl, [], ◌∷◌, ◌++◌, Option, some, ◌==◌, arith, if◌then◌else◌,
  length, Bool-cases, inl, inr, ℕ_discrete, sym, ap, ◌∙◌, subst,
}
use librga_rockchip.Job.Linked.{Node, make_node, MapList, find_from, rga_map_find, rga_map_find_job}
use librga_rockchip.Job.Linked.Shape.{Items, first, last, Chain, Chain-back, Distinct, Represents}

-- The address of the first item with the key, or NULL.
abbrev pub address_of : Items → ℕ → ℕ
address_of [] key = 0
address_of ((a, k, v) ∷ xs) key = if k == key then a else address_of xs key

-- Its value, or NULL.
abbrev pub value_of : Items → ℕ → ℕ
value_of [] key = 0
value_of ((a, k, v) ∷ xs) key = if k == key then v else value_of xs key

pub find_from-Chain :
    (fuel : ℕ) (node : ℕ → Option Node) (prev : ℕ) (xs : Items) (key : ℕ)
    → Chain node prev xs 0
    → Distinct xs
    → length xs < fuel
    → find_from fuel node (first xs 0) key ≡ some (address_of xs key)
unfolding find_from
find_from-Chain zero node prev xs key c d f = absurd (omega arith)
find_from-Chain (suc fuel) node prev [] key c d f = refl
find_from-Chain (suc fuel) node prev ((a, k, v) ∷ xs) key c d f =
    ground (arith, find_from-Chain fuel node a xs key c.1 d.2 (omega arith))

pub rga_map_find-Represents :
    (fuel : ℕ) (m : MapList) (xs : Items) (key : ℕ)
    → Represents m xs
    → length xs < fuel
    → rga_map_find fuel m key ≡ some (address_of xs key)
unfolding rga_map_find
rga_map_find-Represents fuel m xs key r f =
    rw (r.starts, find_from-Chain fuel m.node 0 xs key r.chain r.distinct f)

-- The items left when the first item with the key is taken out.
abbrev pub without : Items → ℕ → Items
without [] key = []
without ((a, k, v) ∷ xs) key =
    let rest = without xs key in if k == key then xs else (a, k, v) ∷ rest

pub length-without : (xs : Items) (key : ℕ) → length (without xs key) < length xs + 2
length-without [] key = omega arith
length-without ((a, k, v) ∷ xs) key = ground (arith, length-without xs key)

-- Where the first item with the key stands.
pub record Split (xs : Items) (key : ℕ) : Type 0 where
  pub before : Items
  pub value : ℕ
  pub after : Items
  pub whole : xs ≡ before ++ (address_of xs key, key, value) ∷ after
  pub rest : without xs key ≡ before ++ after
  pub looked : value_of xs key ≡ value

pub address_of-Split : (xs : Items) (key : ℕ) → address_of xs key ≢ 0 → Split xs key
address_of-Split [] key f = absurd (f refl)
address_of-Split ((a, k, v) ∷ xs) key f = elim (Bool-cases (k == key)) [
  | inl e ↦ record {
    before = [];
    value = v;
    after = xs;
    whole = ground arith;
    rest = ground arith;
    looked = ground arith;
  }
  | inr e ↦
      let s = address_of-Split xs key (ground arith) in
      record {
        before = (a, k, v) ∷ s.before;
        value = s.value;
        after = s.after;
        whole = ground (arith, s.whole);
        rest = ground (arith, s.rest);
        looked = ground (arith, s.looked);
      }
]

find_job_missing :
    (fuel : ℕ) (m : MapList) (key : ℕ)
    → rga_map_find fuel m key ≡ some 0
    → rga_map_find_job fuel m key ≡ some 0
unfolding rga_map_find_job
find_job_missing fuel m key e = ground (arith, e)

find_job_present :
    (fuel : ℕ) (m : MapList) (key p a b k v : ℕ)
    → rga_map_find fuel m key ≡ some p
    → p ≢ 0
    → m.node p ≡ some (make_node a b k v)
    → rga_map_find_job fuel m key ≡ some v
unfolding rga_map_find_job
find_job_present fuel m key p a b k v e f g = ground (arith, e, f, g)

value_of_missing :
    (xs : Items) (key : ℕ) → Distinct xs → address_of xs key ≡ 0 → value_of xs key ≡ 0
value_of_missing [] key d e = refl
value_of_missing ((a, k, v) ∷ xs) key d e = ground (arith, value_of_missing xs key d.2)

pub rga_map_find_job-Represents :
    (fuel : ℕ) (m : MapList) (xs : Items) (key : ℕ)
    → Represents m xs
    → length xs < fuel
    → rga_map_find_job fuel m key ≡ some (value_of xs key)
rga_map_find_job-Represents fuel m xs key r f =
    let found = rga_map_find-Represents fuel m xs key r f in
    elim (ℕ_discrete (address_of xs key) 0) [
      | yes e ↦
          find_job_missing fuel m key (found ∙ ap some e)
          ∙ ap some (sym (value_of_missing xs key r.distinct e))
      | no e ↦
          let t = address_of-Split xs key e in
          let r' = subst (Represents m) t.whole r in
          let back =
            Chain-back m.node 0 t.before ((address_of xs key, key, t.value) ∷ t.after) 0 r'.chain in
          find_job_present fuel m key (address_of xs key) (last 0 t.before) (first t.after 0) key
            t.value found e back.0
          ∙ ap some (sym t.looked)
    ]

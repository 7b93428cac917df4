-- ===== src/Job/Linked/Steps.antt =====
-- Each call on the list next to the same call on a map of handles.
use librga_rockchip.Base.{
  ℕ, ◌+◌, ◌<◌, ◌≡◌, ◌≢◌, [], ◌∷◌, ◌++◌, none, some, arith, length, length-append, sym, ap, ◌∙◌,
  subst, Option-cases, ℕ_discrete, inl, inr,
}
use librga_rockchip.Job.State.{JobMap}
use librga_rockchip.Job.Linked.{
  MapList, rga_map_find, rga_map_find_job, rga_map_insert_tail, rga_map_delete,
}
use librga_rockchip.Job.Linked.Shape.{Items, Represents}
use librga_rockchip.Job.Linked.Find.{
  address_of, value_of, without, address_of-Split, rga_map_find-Represents, length-without,
  rga_map_find_job-Represents,
}
use librga_rockchip.Job.Linked.Keyed.{
  Keyed, value-address, address-value, value_of-append, Keyed-append, value_of-without,
  without-Keyed,
}
use librga_rockchip.Job.Linked.Insert.{rga_map_insert_tail-Leaves}
use librga_rockchip.Job.Linked.Delete.{rga_map_delete-Leaves}
use librga_rockchip.Job.Linked.Calls.{
  Call, insert, delete, find, call, or_null, abstract_call, Allocates,
}

module _ {M : Type 0} (map : JobMap M) where
  pub record Related (m : MapList) (s : M) (xs : Items) : Type 0 where
    pub shape : Represents m xs
    pub keyed : Keyed xs
    pub agrees : (handle : ℕ) → value_of xs handle ≡ or_null (map.find_job s handle)
    pub stored : (handle job : ℕ) → map.find_job s handle ≡ some job → job ≢ 0

  -- What a call leaves, next to what the map of handles does.
  pub record Follows (fuel : ℕ) (m : MapList) (s : M) (xs : Items) (c : Call) : Type 0 where
    pub after : MapList
    pub items : Items
    pub done : call fuel m c ≡ some (after, (abstract_call map s c).1)
    pub related : Related after (abstract_call map s c).0 items
    pub bounded : length items < length xs + 2

  -- The branches of the three calls.
  insert_new :
      (fuel : ℕ) (m m' : MapList) (a handle job : ℕ)
      → rga_map_find fuel m handle ≡ some 0
      → rga_map_insert_tail m a handle job ≡ some m'
      → call fuel m (insert a handle job) ≡ some (m', [])
  unfolding call
  insert_new fuel m m' a handle job e f = ground (arith, e, f)

  insert_present :
      (fuel : ℕ) (m : MapList) (a handle job p : ℕ)
      → rga_map_find fuel m handle ≡ some p
      → p ≢ 0
      → call fuel m (insert a handle job) ≡ some (m, [])
  unfolding call
  insert_present fuel m a handle job p e f = ground (arith, e, f)

  delete_missing :
      (fuel : ℕ) (m : MapList) (handle : ℕ)
      → rga_map_find fuel m handle ≡ some 0
      → call fuel m (delete handle) ≡ some (m, [])
  unfolding call
  delete_missing fuel m handle e = ground (arith, e)

  delete_present :
      (fuel : ℕ) (m m' : MapList) (handle p : ℕ)
      → rga_map_find fuel m handle ≡ some p
      → p ≢ 0
      → rga_map_delete m p ≡ some m'
      → call fuel m (delete handle) ≡ some (m', [])
  unfolding call
  delete_present fuel m m' handle p e f g = ground (arith, e, f, g)

  missing :
      (m : MapList) (s : M) (xs : Items) (handle : ℕ)
      → Related m s xs
      → address_of xs handle ≡ 0
      → map.find_job s handle ≡ none
  missing m s xs handle r e = elim (Option-cases (map.find_job s handle)) [
    | inl n ↦ n
    | inr (job, f) ↦ absurd (
        r.stored handle job f
          (ground (arith, f, r.agrees handle, value-address xs handle r.shape.distinct r.keyed e)))
  ]

  present :
      (m : MapList) (s : M) (xs : Items) (handle : ℕ)
      → Related m s xs
      → address_of xs handle ≢ 0
      → (job : ℕ) × (map.find_job s handle ≡ some job)
  present m s xs handle r e = elim (Option-cases (map.find_job s handle)) [
    | inl n ↦ absurd (address-value xs handle r.keyed e (r.agrees handle ∙ ap or_null n))
    | inr found ↦ found
  ]

  insert-Follows :
      (fuel : ℕ) (m : MapList) (s : M) (xs : Items) (a handle job : ℕ)
      → Related m s xs
      → length xs < fuel
      → Allocates m (insert a handle job)
      → Follows fuel m s xs (insert a handle job)
  insert-Follows fuel m s xs a handle job r f g =
      let found = rga_map_find-Represents fuel m xs handle r.shape f in
      elim (ℕ_discrete (address_of xs handle) 0) [
        | yes e ↦
            let l = rga_map_insert_tail-Leaves m xs a handle job r.shape g.0 g.1 in
            let out = missing m s xs handle r e in
            let free = value-address xs handle r.shape.distinct r.keyed e in
            record {
              after = l.after;
              items = xs ++ (a, handle, job) ∷ [];
              done = insert_new fuel m l.after a handle job (found ∙ ap some e) l.done;
              related = record {
                shape = l.held;
                keyed = Keyed-append xs a handle job g.2 free r.keyed;
                agrees = λ j. ground (
                  arith,
                  value_of-append xs a handle job j free r.keyed,
                  map.find-insert s handle job j out,
                  r.agrees j,
                );
                stored = λ j w e'.
                    ground (arith, map.find-insert s handle job j out, e', g.2, r.stored j w);
              };
              bounded = omega (arith, length-append xs ((a, handle, job) ∷ []));
            }
        | no e ↦
            let (w, held) = present m s xs handle r e in
            record {
              after = m;
              items = xs;
              done = insert_present fuel m a handle job (address_of xs handle) found e;
              related = subst (λ t. Related m t xs) (sym (map.insert_old s handle job w held)) r;
              bounded = omega arith;
            }
      ]

  delete-Follows :
      (fuel : ℕ) (m : MapList) (s : M) (xs : Items) (handle : ℕ)
      → Related m s xs
      → length xs < fuel
      → Follows fuel m s xs (delete handle)
  delete-Follows fuel m s xs handle r f =
      let found = rga_map_find-Represents fuel m xs handle r.shape f in
      elim (ℕ_discrete (address_of xs handle) 0) [
        | yes e ↦
            let out = missing m s xs handle r e in
            record {
              after = m;
              items = xs;
              done = delete_missing fuel m handle (found ∙ ap some e);
              related = record {
                shape = r.shape;
                keyed = r.keyed;
                agrees = λ j. ground (arith, map.find-delete s handle j, r.agrees j, out);
                stored = λ j w e'. ground (arith, map.find-delete s handle j, e', r.stored j w);
              };
              bounded = omega arith;
            }
        | no e ↦
            let t = address_of-Split xs handle e in
            let l =
              rga_map_delete-Leaves m t.before (address_of xs handle) handle t.value t.after
                (subst (Represents m) t.whole r.shape) in
            record {
              after = l.after;
              items = without xs handle;
              done = delete_present fuel m l.after handle (address_of xs handle) found e l.done;
              related = record {
                shape = subst (Represents l.after) (sym t.rest) l.held;
                keyed = without-Keyed xs handle r.keyed;
                agrees = λ j. ground (
                  arith,
                  value_of-without xs handle j r.keyed,
                  map.find-delete s handle j,
                  r.agrees j,
                );
                stored = λ j w e'. ground (arith, map.find-delete s handle j, e', r.stored j w);
              };
              bounded = length-without xs handle;
            }
      ]

  find_answer :
      (fuel : ℕ) (m : MapList) (handle job : ℕ)
      → rga_map_find_job fuel m handle ≡ some job
      → call fuel m (find handle) ≡ some (m, job ∷ [])
  unfolding call
  find_answer fuel m handle job e = ground (arith, e)

  pub call-Follows :
      (fuel : ℕ) (m : MapList) (s : M) (xs : Items) (c : Call)
      → Related m s xs
      → length xs < fuel
      → Allocates m c
      → Follows fuel m s xs c
  call-Follows fuel m s xs (insert a handle job) r f g =
      insert-Follows fuel m s xs a handle job r f g
  call-Follows fuel m s xs (delete handle) r f g = delete-Follows fuel m s xs handle r f
  call-Follows fuel m s xs (find handle) r f g = record {
    after = m;
    items = xs;
    done =
        find_answer fuel m handle (or_null (map.find_job s handle))
          (rga_map_find_job-Represents fuel m xs handle r.shape f ∙ ap some (r.agrees handle));
    related = r;
    bounded = omega arith;
  }

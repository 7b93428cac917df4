-- ===== src/Job/Linked/Refines.antt =====
-- A run of calls on the list against the same run on a map of handles.
use librga_rockchip.Base.{
  ℕ, ◌+◌, ◌<◌, ◌≡◌, refl, List, [], ◌∷◌, ◌++◌, Option, none, some, arith, length, subst,
}
use librga_rockchip.Job.State.{JobMap}
use librga_rockchip.Job.Linked.{Node, MapList, rga_map_list_init}
use librga_rockchip.Job.Linked.Shape.{Items}
use librga_rockchip.Job.Linked.Calls.{Call, call, run, abstract_call, abstract_run, AllocatesRun}
use librga_rockchip.Job.Linked.Steps.{Related, call-Follows}

module _ {M : Type 0} (map : JobMap M) where
  run_step :
      (fuel : ℕ) (m m' : MapList) (c : Call) (cs : List Call) (answers rest : List ℕ)
      → call fuel m c ≡ some (m', answers)
      → run fuel m' cs ≡ some rest
      → run fuel m (c ∷ cs) ≡ some (answers ++ rest)
  unfolding run
  run_step fuel m m' c cs answers rest e f = ground (arith, e, f)

  allocates_rest :
      (fuel : ℕ) (m m' : MapList) (c : Call) (cs : List Call) (answers : List ℕ)
      → call fuel m c ≡ some (m', answers)
      → AllocatesRun fuel m (c ∷ cs)
      → AllocatesRun fuel m' cs
  allocates_rest fuel m m' c cs answers e g =
      subst (λ r. elim r [ none ↦ Unit {0} | some (m', answers) ↦ AllocatesRun fuel m' cs ]) e g.1

  pub run-abstract_run :
      (fuel : ℕ) (m : MapList) (s : M) (xs : Items) (cs : List Call)
      → Related map m s xs
      → length xs + length cs < fuel
      → AllocatesRun fuel m cs
      → run fuel m cs ≡ some (abstract_run map s cs)
  unfolding run
  run-abstract_run fuel m s xs [] r f g = refl
  run-abstract_run fuel m s xs (c ∷ cs) r f g =
      let t = call-Follows map fuel m s xs c r (omega arith) g.0 in
      run_step fuel m t.after c cs (abstract_call map s c).1
        (abstract_run map (abstract_call map s c).0 cs) t.done
        (run-abstract_run fuel t.after (abstract_call map s c).0 t.items cs t.related
          (omega (arith, t.bounded))
          (allocates_rest fuel m t.after c cs (abstract_call map s c).1 t.done g))

-- A run from the list of rga_map_list_init, on any map of handles, with more rounds than calls:
-- when malloc gives fresh addresses and the jobs are not NULL, no call faults, every loop ends, and
-- rga_map_find_job answers as the map does, NULL standing for a missing job.
pub run-rga_map_list_init :
    {M : Type 0} (map : JobMap M) (fuel : ℕ) (node : ℕ → Option Node) (cs : List Call)
    → length cs < fuel
    → AllocatesRun fuel (rga_map_list_init node) cs
    → run fuel (rga_map_list_init node) cs ≡ some (abstract_run map map.empty cs)
unfolding rga_map_list_init
run-rga_map_list_init map fuel node cs f g =
    run-abstract_run map fuel (rga_map_list_init node) map.empty [] cs
      (record {
        shape = record { starts = refl; ends = refl; chain = tt; distinct = tt };
        keyed = tt;
        agrees = λ handle. ground (arith, map.find-empty handle);
        stored = λ handle job e. ground (arith, map.find-empty handle, e);
      })
      (omega (arith, f)) g

-- ===== src/Job/Linked/Tests.antt =====
-- Runs on a concrete heap.
use librga_rockchip.Base.{ℕ, ◌≡◌, refl, List, [], ◌∷◌, Option, none, some, arith}
use librga_rockchip.Job.AssocMap.{assoc_map}
use librga_rockchip.Job.State.{update}
use librga_rockchip.Job.Linked.{Node, make_node, MapList, rga_map_list_init, rga_map_list_destroy}
use librga_rockchip.Job.Linked.Shape.{Represents}
use librga_rockchip.Job.Linked.Insert.{Leaves}
use librga_rockchip.Job.Linked.Delete.{rga_map_list_destroy-Leaves}
use librga_rockchip.Job.Linked.Calls.{Call, insert, delete, find, run, AllocatesRun, abstract_run}
use librga_rockchip.Job.Linked.Refines.{run-rga_map_list_init}

abbrev no_nodes : ℕ → Option Node
no_nodes p = none

-- The middle job is deleted, its node is used again, and handle 8 is refused a second job.
abbrev calls : List Call
calls =
    insert 100 7 500
    ∷ insert 200 8 600
    ∷ insert 300 9 700
    ∷ delete 8
    ∷ find 8
    ∷ insert 200 8 800
    ∷ insert 400 8 900
    ∷ find 8
    ∷ find 9
    ∷ delete 7
    ∷ find 7
    ∷ []

answers : run 20 (rga_map_list_init no_nodes) calls ≡ some (0 ∷ 800 ∷ 700 ∷ 0 ∷ [])
unfolding run rga_map_list_init
answers = refl

calls-AllocatesRun : AllocatesRun 20 (rga_map_list_init no_nodes) calls
unfolding run rga_map_list_init
calls-AllocatesRun = (
  (ground arith, refl, ground arith),
  (
    (ground arith, refl, ground arith),
    (
      (ground arith, refl, ground arith),
      (
        tt,
        (
          tt,
          (
            (ground arith, refl, ground arith),
            ((ground arith, refl, ground arith), (tt, (tt, (tt, (tt, tt))))),
          ),
        ),
      ),
    ),
  ),
)

run-rga_map_list_init_example :
    run 20 (rga_map_list_init no_nodes) calls ≡ some (abstract_run assoc_map [] calls)
run-rga_map_list_init_example =
    run-rga_map_list_init assoc_map 20 no_nodes calls (omega arith) calls-AllocatesRun

abbrev two_nodes : ℕ → Option Node
two_nodes = update (update no_nodes 1 (some (make_node 0 2 7 500))) 2 (some (make_node 1 0 8 600))

abbrev two_jobs : MapList
two_jobs = record { head = 1; tail = 2; node = two_nodes }

two_jobs-Represents : Represents two_jobs ((1, 7, 500) ∷ (2, 8, 600) ∷ [])
two_jobs-Represents = record {
  starts = refl;
  ends = refl;
  chain = (refl, (refl, tt));
  distinct = (ground arith, (ground arith, tt), (ground arith, tt, tt));
}

rga_map_list_destroy-Leaves_example : Leaves (rga_map_list_destroy 3 two_jobs) []
rga_map_list_destroy-Leaves_example =
    rga_map_list_destroy-Leaves 3 two_jobs ((1, 7, 500) ∷ (2, 8, 600) ∷ []) two_jobs-Represents
      (omega arith)

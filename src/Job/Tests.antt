-- ===== src/Job/Tests.antt =====
-- The job manager at concrete states, with numbers for tasks and an association list for the map.
use librga_rockchip.Base.{ℕ, ◌^◌, ◌≡◌, ◌≢◌, refl, [], ◌∷◌, none, some, true, false, arith}
use librga_rockchip.Base.Int.{pos, negsuc}
use librga_rockchip.Status.{success, illegal_param}
use librga_rockchip.Job.Defs.{
  config, Manager, Request, Reply, accepted, init, cancel, create, submit, add_task, tasks_of,
  refusal, inc, lock_config, sync_mode_of, store_task, add_job, rga_blit_async, rga_blit_sync,
  outcome, request_of,
}
use librga_rockchip.Job.AssocMap.{Assoc, assoc_map, size}
use librga_rockchip.Job.Invariant.{Inv, init-Inv, create-Inv, add_task-Inv}
use librga_rockchip.Job.Counter.{corrected}
use librga_rockchip.Job.Tasks.{tasks_of-add_task, add_tasks, create-tasks_of}
use librga_rockchip.Job.Life.{submit-add_tasks-create}
use librga_rockchip.Job.Cancel.{cancel_unknown, create_existing}
use librga_rockchip.Job.Reach.{Reach-Inv, start, call, creates, cancels, adds}
use librga_rockchip.Job.Race.{config_race}

abbrev s0 : Manager ℕ Assoc
s0 = init 0 assoc_map

-- Handle 7 has its job at address 1.
abbrev s1 : Manager ℕ Assoc
s1 = (create 0 assoc_map s0 true (some 7) (some 1) true).0

abbrev s2 : Manager ℕ Assoc
s2 = (add_task 0 assoc_map s1 7 42).0

abbrev answer : Request ℕ → Reply
answer r = accepted (pos 33)

s1-Inv : Inv 0 assoc_map s1
unfolding init
s1-Inv = create-Inv 0 assoc_map s0 true 7 1 true refl refl (init-Inv 0 assoc_map)

s1_empty : tasks_of 0 assoc_map s1 7 ≡ some []
unfolding init
s1_empty = create-tasks_of 0 assoc_map s0 7 1 true refl refl

s2-Inv : Inv 0 assoc_map s2
s2-Inv = add_task-Inv 0 assoc_map s1 7 42 s1-Inv

s2_tasks : tasks_of 0 assoc_map s2 7 ≡ some (42 ∷ [])
s2_tasks = (tasks_of-add_task 0 assoc_map s1 7 42 [] s1-Inv s1_empty (omega arith)).1

-- An asynchronous submit stores the driver's fence.
submit_async :
    (submit 0 assoc_map s2 true 7 (2 ^ 26) (negsuc 0) true answer).1.release_fence_fd
    ≡ some (pos 33)
unfolding submit create add_task init add_job store_task lock_config outcome request_of
submit_async = refl

-- A job with a task, and a cancel of a handle that has no job.
Reach-Inv_example : Inv 0 assoc_map (corrected 0 assoc_map 1 (cancel 0 assoc_map s2 true 5 true).0)
unfolding init create add_job add_task store_task lock_config
Reach-Inv_example = Reach-Inv 0 assoc_map (
    call
      (call (call (start refl) (creates true (some 7) (some 1) true (λ p e. refl) refl refl))
        (adds 7 42 refl))
      (cancels true 5 true refl refl))

tasks_of-add_task_example :
    let (t, status) = add_task 0 assoc_map s1 7 42 in
    (status ≡ success)
    × (tasks_of 0 assoc_map t 7 ≡ some (42 ∷ []))
    × ((k : ℕ) → k ≢ 7 → tasks_of 0 assoc_map t k ≡ tasks_of 0 assoc_map s1 k)
tasks_of-add_task_example = tasks_of-add_task 0 assoc_map s1 7 42 [] s1-Inv s1_empty (omega arith)

submit-add_tasks-create_example :
    let filled = add_tasks 0 assoc_map s1 7 (42 ∷ 43 ∷ []) in
    let (t, out) = submit 0 assoc_map filled true 7 (2 ^ 26) (negsuc 0) true answer in
    (out.sent
      ≡ some (record {
        tasks = 42 ∷ 43 ∷ [];
        task_num = 2;
        id = 7;
        sync_mode = rga_blit_async;
        acquire_fence_fd = negsuc 0;
      }))
    × (submit 0 assoc_map t true 7 (2 ^ 26) (negsuc 0) true answer
        ≡ (t, refusal 0 assoc_map illegal_param))
unfolding init sync_mode_of
submit-add_tasks-create_example =
    submit-add_tasks-create 0 assoc_map s0 7 1 (2 ^ 26) rga_blit_async (negsuc 0) true answer
      (42 ∷ 43 ∷ []) (init-Inv 0 assoc_map) refl refl (omega arith) refl

cancel_unknown_example :
    let t = (cancel 0 assoc_map s0 true 5 true).0 in
    (t.job_map ≡ s0.job_map) × (inc t.job_count ≡ pos (size t.job_map)) × ¬ Inv 0 assoc_map t
unfolding init
cancel_unknown_example = cancel_unknown 0 assoc_map s0 5 true refl (init-Inv 0 assoc_map)

create_existing_example :
    let (t, result) = create 0 assoc_map s1 true (some 7) (some 2) true in
    (result ≡ 0) × (t.heap 1 ≡ none) × (tasks_of 0 assoc_map t 7 ≡ none)
unfolding init create add_job
create_existing_example = create_existing 0 assoc_map s1 7 1 (some 2) true refl

config_race_example :
    let run = λ (between : Manager ℕ Assoc → Manager ℕ Assoc).
      config 0 assoc_map between s2 true 7 (2 ^ 19) (negsuc 0) false answer in
    let r : Request ℕ = record {
      tasks = 42 ∷ [];
      task_num = 1;
      id = 7;
      sync_mode = rga_blit_sync;
      acquire_fence_fd = negsuc 0;
    } in
    let sent = some (outcome 0 assoc_map rga_blit_sync false r (accepted (pos 33))) in
    (run (λ t. (cancel 0 assoc_map t true 7 true).0) ≡ none)
    × (run (λ t. (submit 0 assoc_map t true 7 (2 ^ 19) (negsuc 0) false answer).0) ≡ none)
    × ((k : ℕ) → k ≢ 7 → run (λ t. (cancel 0 assoc_map t true k true).0) ≡ sent)
    × ((q : ℕ) → run (λ t. (add_task 0 assoc_map t 7 q).0) ≡ sent)
unfolding sync_mode_of
config_race_example =
    config_race 0 assoc_map s2 7 (2 ^ 19) rga_blit_sync (42 ∷ []) (negsuc 0) false true answer
      answer s2-Inv s2_tasks refl

-- ===== src/Job/Linked/Calls.antt =====
-- Runs of calls on the list, and the same runs on a map of handles.
use librga_rockchip.Base.{ℕ, ◌≡◌, ◌≢◌, List, [], ◌∷◌, ◌++◌, Option, none, some}
use librga_rockchip.Job.State.{JobMap}
use librga_rockchip.Job.Linked.{MapList, rga_map_insert_job, rga_map_delete_job, rga_map_find_job}

-- The three calls. An insertion carries the address that malloc would give.
pub data Call : Type 0 where
  insert : ℕ → ℕ → ℕ → Call
  delete : ℕ → Call
  find : ℕ → Call

-- The state after a call, and the job that rga_map_find_job returns.
unfoldable pub call : ℕ → MapList → Call → Option (MapList × List ℕ)
unfolding rga_map_insert_job rga_map_delete_job rga_map_find_job
call fuel m (insert a handle job) = elim (rga_map_insert_job fuel m a handle job) [
  | none ↦ none
  | some m' ↦ some (m', [])
]
call fuel m (delete handle) = elim (rga_map_delete_job fuel m handle) [
  | none ↦ none
  | some m' ↦ some (m', [])
]
call fuel m (find handle) = elim (rga_map_find_job fuel m handle) [
  | none ↦ none
  | some job ↦ some (m, job ∷ [])
]

-- The answers of a run.
unfoldable pub run : ℕ → MapList → List Call → Option (List ℕ)
unfolding call
run fuel m [] = some []
run fuel m (c ∷ cs) = elim (call fuel m c) [
  | none ↦ none
  | some (m', answers) ↦ elim (run fuel m' cs) [ none ↦ none | some rest ↦ some (answers ++ rest) ]
]

-- The same on any map of handles, with NULL for a missing job.
abbrev pub or_null : Option ℕ → ℕ
or_null none = 0
or_null (some job) = job

module _ {M : Type 0} (map : JobMap M) where
  abbrev pub abstract_call : M → Call → M × List ℕ
  abstract_call s (insert a handle job) = (map.insert_job s handle job, [])
  abstract_call s (delete handle) = (map.delete_job s handle, [])
  abstract_call s (find handle) = (s, or_null (map.find_job s handle) ∷ [])

  abbrev pub abstract_run : M → List Call → List ℕ
  abstract_run s [] = []
  abstract_run s (c ∷ cs) = let (s', answers) = abstract_call s c in answers ++ abstract_run s' cs

-- What the environment promises: malloc gives an address that is not NULL and not in use, and a job
-- that is inserted is not NULL.
abbrev pub Allocates : MapList → Call → Type 0
Allocates m (insert a handle job) = (a ≢ 0) × (m.node a ≡ none) × (job ≢ 0)
Allocates m (delete handle) = Unit {0}
Allocates m (find handle) = Unit {0}

abbrev pub AllocatesRun : ℕ → MapList → List Call → Type 0
AllocatesRun fuel m [] = Unit {0}
AllocatesRun fuel m (c ∷ cs) =
    Allocates m c
    × (elim (call fuel m c) [ none ↦ Unit {0} | some (m', answers) ↦ AllocatesRun fuel m' cs ])

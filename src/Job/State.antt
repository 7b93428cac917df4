-- ===== src/Job/State.antt =====
-- The state of the job manager, and what it asks of its environment.
use librga_rockchip.Base.{
  ℕ, zero, suc, ◌+◌, ◌-◌, ◌^◌, ◌≡◌, List, [], ◌∷◌, ◌++◌, Option, none, some, ◌==◌, if◌then◌else◌,
}
use librga_rockchip.Base.Int.{ℤ, pos, negsuc}
use librga_rockchip.Status.{Status}

-- What the manager asks of rga_job_map_t, a map from handles to job pointers. std::map is not part
-- of the repository: its documented behaviour is stated by the laws.
pub record JobMap (M : Type 0) : Type 0 where
  pub empty : M
  pub find_job : M → ℕ → Option ℕ
  pub insert_job : M → ℕ → ℕ → M
  pub delete_job : M → ℕ → M
  pub size : M → ℕ
  pub size-empty : size empty ≡ 0
  pub find-empty : (k : ℕ) → find_job empty k ≡ none
  pub insert_old : (m : M) (k v w : ℕ) → find_job m k ≡ some w → insert_job m k v ≡ m
  pub find-insert :
      (m : M) (k v j : ℕ)
      → find_job m k ≡ none
      → find_job (insert_job m k v) j ≡ (if k == j then some v else find_job m j)
  pub find-delete :
      (m : M) (k j : ℕ) → find_job (delete_job m k) j ≡ (if k == j then none else find_job m j)
  pub size-insert : (m : M) (k v : ℕ) → find_job m k ≡ none → size (insert_job m k v) ≡ size m + 1
  pub size-delete : (m : M) (k v : ℕ) → find_job m k ≡ some v → size m ≡ size (delete_job m k) + 1

abbrev pub rga_task_num_max : ℕ
rga_task_num_max = 256

abbrev pub rga_blit_sync : ℕ
rga_blit_sync = 0x5017

abbrev pub rga_blit_async : ℕ
rga_blit_async = 0x5018

-- IM_SYNC is 1 << 19 and IM_ASYNC is 1 << 26; any other mode is refused.
unfoldable pub sync_mode_of : ℕ → Option ℕ
sync_mode_of sync_mode =
    if sync_mode == 2 ^ 19
    then some rga_blit_sync
    else if sync_mode == 2 ^ 26
    then some rga_blit_async
    else none

-- (uint32_t)IM_STATUS_NO_SESSION
abbrev pub no_session_handle : ℕ
no_session_handle = 2 ^ 32 - 6

module _ (Req : Type 0) where
  -- im_rga_job_t. `req` is the array of tasks; its first `task_count` entries are in use.
  pub record Job : Type 0 where
    pub req : ℕ → Req
    pub task_count : ℕ
    pub id : ℕ

  -- struct rga_user_request as handed to the driver, with the array behind `task_ptr`.
  pub record Request : Type 0 where
    pub tasks : List Req
    pub task_num : ℕ
    pub id : ℕ
    pub sync_mode : ℕ
    pub acquire_fence_fd : ℤ

  -- g_im2d_job_manager, and the part of the heap that holds jobs: `none` is memory not in use.
  pub record Manager (M : Type 0) : Type 0 where
    pub job_map : M
    pub job_count : ℤ
    pub heap : ℕ → Option Job

-- struct rga_user_request of rga_job_config when the lock is given back: the array of tasks is still
-- a pointer into the job at `address`.
pub record Pending : Type 0 where
  pub address : ℕ
  pub task_num : ℕ
  pub id : ℕ
  pub sync_mode : ℕ
  pub acquire_fence_fd : ℤ

-- What ioctl answers: the release fence of the request, or an error.
pub data Reply : Type 0 where
  accepted : ℤ → Reply
  refused : Reply

-- The result of a call: its status, the release fence stored through the pointer, if one is, and
-- the request that the driver was handed, if it was.
pub record Outcome (Req : Type 0) : Type 0 where
  pub status : Status
  pub release_fence_fd : Option ℤ
  pub sent : Option (Request Req)

-- n++ and n-- on an int that stays far from the ends of its range.
abbrev pub inc : ℤ → ℤ
inc (pos n) = pos (suc n)
inc (negsuc zero) = pos 0
inc (negsuc (suc n)) = negsuc n

abbrev pub dec : ℤ → ℤ
dec (pos zero) = negsuc 0
dec (pos (suc n)) = pos n
dec (negsuc n) = negsuc (suc n)

abbrev pub update {ℓ} : {A : Type ℓ} → (ℕ → A) → ℕ → A → ℕ → A
update f p v q = if p == q then v else f q

-- The first n entries of an array.
abbrev pub prefix {ℓ} : {A : Type ℓ} → (ℕ → A) → ℕ → List A
prefix f zero = []
prefix f (suc n) = prefix f n ++ f n ∷ []

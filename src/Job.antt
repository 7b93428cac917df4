-- ===== src/Job.antt =====
-- The job manager: im2d_api/src/im2d_job.h and im2d_job.cpp (the job map), and rga_job_create,
-- rga_job_cancel, rga_job_submit, rga_job_config and the adding of a task at the end of
-- rga_task_submit in im2d_api/src/im2d_impl.cpp. A call runs its locked section as one step.
pub mod State
pub mod Defs
pub mod Invariant
pub mod Tasks
pub mod Life
pub mod Counter
pub mod Reach
pub mod Cancel
pub mod Race
pub mod AssocMap
pub mod Linked
mod Tests

-- ===== src/Chain.antt =====
-- Chains of two tasks, a picture and then a video: internal/service/task_chain_service.go with
-- internal/dao/task_chain.go, FailTask of internal/service/picture_task.go, which calls it, and
-- RetryFailedTask of the same file.
pub mod World
pub mod Activate
pub mod Partial
pub mod Failed
pub mod FailTask
pub mod RetryTask
pub mod Frame
pub mod Calm
pub mod Refunds
pub mod Twice
pub mod Uncommitted
mod Tests
pub mod Settled

-- ===== src/Quota.antt =====
-- Slots for picture tasks: internal/service/quota, internal/quota, internal/task/reconciler.
pub mod Slot
pub mod World
pub mod Config
pub mod Checker
pub mod Transition
pub mod Reconciler
pub mod Submit
mod Tests

-- ===== src/Credit.antt =====
-- The credit ledger: internal/service/credit, internal/dao/credit.go, internal/model.
pub mod Model
pub mod Store
pub mod Dao
pub mod Table
pub mod Deduct
pub mod Selection
pub mod Grouping
pub mod Invariant
pub mod Grants
pub mod Refund
pub mod Expiry
pub mod Balance
pub mod Calm
pub mod Daily
pub mod Membership
mod Tests

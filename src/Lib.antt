-- ===== src/Lib.antt =====
-- The credit ledger and the task slots of the genioai mini program server.
--
-- The server sells credits that picture tasks consume. A user's credits are rows of one table, each of a
-- type and with an expiry; every change of a row adds a row to a ledger. A task takes a queue slot when
-- it is submitted and a concurrent slot while it runs; the slots are counters and sets in Redis, which
-- a reconciler compares with the task table. The parts and their modules:
--
--   Credit.Model, Credit.Store, Credit.Dao: internal/model/amount.go, internal/model/credit.go and
--     internal/dao/credit.go. The two tables and a list of faults that says which statements fail; an
--     error aborts the transaction and restores both tables. ORDER BY is a parameter, since MySQL does
--     not fix the order of equal rows.
--   Credit.Deduct: DeductCredits of internal/service/credit/service.go and the functions that it calls,
--     named alike (deductCreditsForMember is deduct_credits_for_member). Charges, Loop, Effect, Pool and
--     Draw say what a run does to the tables, in terms of a list of charges; Affordable which amounts can
--     be deducted; Conservation, Settled, Decision and
--     Priority have the theorems.
--   Credit.Grants, Credit.Refund, Credit.Expiry, Credit.Balance: AddCredits, HandleMembershipUpgrade,
--     RefundCredits, ClearExpiredCredits and GetUserCreditBalance of the same file.
--   Credit.Daily: internal/service/daily_free_credits_service.go, a client of AddCredits.
--   Credit.Membership: internal/service/credit/membership.go, a client of AddCredits and
--     ClearExpiredCredits.
--   Invite: UseInviteCode of internal/service/invite/service.go and the queries of
--     internal/dao/invite.go that it makes; it grants credits in its own transaction. Code is
--     GetOrCreateInviteCode and Info is GetInviteInfo.
--   Quota.Slot, Quota.Checker: the Lua scripts and the TaskQuotaChecker of internal/service/quota, with its
--     degrade mode, in which the task table is counted instead.
--   Quota.Config, Quota.Transition: TaskConfigManager and TaskStateManager of the same directory.
--   Quota.Submit: checkActiveTasks and SubmitTaskWithTx of internal/service/picture_task.go, on the queue slot.
--   Quota.Reconciler: processOne of internal/task/reconciler, and in Scan the loops over the keys of Redis
--     that find the tasks for it.
--   Retry: handleSingleTask of internal/task/picture_workflow/submission_retry_processor.go.
--   Chain: internal/service/task_chain_service.go with internal/dao/task_chain.go, and FailTask and
--     RetryFailedTask of internal/service/picture_task.go. Chain.World has the tables, the locks and the faults of both the
--     database and Redis; the credits in it are the Db of Credit.Store. Activate is OnTaskCompleted,
--     Partial and Failed are OnTaskFailed, FailTask calls Failed after its commit, and RetryTask is a
--     client of Credit.Deduct whose charge FailTask refunds. The operations on
--     float64 are a parameter, with laws of IEEE 754 on numbers from 0 to 2^53 where a theorem needs
--     them.
--   Lock: internal/common/distributed_lock.go. A key has a value and a time of expiry, and the state has the
--     clock; Exclusion has a step relation of what other clients and time can do to the holder of a lock.
--   Sync: internal/task/picture_workflow/provider_status_sync_processor.go, a client of Lock, of FailTask
--     and of OnTaskCompleted. How long the handling of a task takes is a field of the task as it was
--     polled, and the clock of the locks goes on by it before the deferred function runs.
--   Base: the integers with their wrap-around, Boolean tests and list lemmas. Each component has a Tests
--     module with runs at concrete inputs.
--
-- A number of Go's int64 is an integer whose sums and differences are reduced modulo 2^64. A loop that
-- ranges over a list is structural recursion. The two loops over cursors in Quota.Reconciler.Scan run on
-- fuel, one unit for a page; more units than pages are enough, which is proved. A time is a
-- number; time formatting, uuid values, JSON decoding and the executors of picture tasks are parameters.
-- A reading of the clock is an argument, one for each reading in the source where they can differ.
--
-- Not modelled: logging, metrics, panics, the generated protocol code, the HTTP and gRPC layer, the
-- clients of external services, and the expiry of Redis keys outside of Lock. A failed COMMIT is taken to leave the
-- tables as they were. The rows of a task have only the columns that the modelled code reads or
-- writes.

pub mod Base
pub mod Credit
pub mod Quota
pub mod Retry
pub mod Invite
pub mod Chain
pub mod Lock
pub mod Sync

-- ===== src/Approvals.antt =====
-- `ApprovalManager` of services/orchestrator/src/approvals/ApprovalManager.ts: the data, and the
-- operations in the child modules. A batch keeps the ids of its requests, whose objects are those
-- of the `requests` map; JSON details are kept as their text. A promise that `requestApproval`
-- returned is an entry of `promises` once it is settled; `listeners` and `timers` hold the ids
-- whose listeners are registered and whose timeout is armed. Ids and times are arguments.
mod Defs
pub mod Requests
pub mod Batches
pub mod Final
mod Tests
unfoldable pub use Defs.*

-- ===== src/Plans.antt =====
-- Plans of the orchestrator: the state of their steps, and the release of one step after another.
pub mod Data
pub mod Store
pub mod Calls
pub mod Synced
pub mod Durable
pub mod Service
pub mod Queue
pub mod Decisions
pub mod Completion
pub mod Steps
pub mod Order
pub mod Sequence
pub mod Releases
pub mod Methods
pub mod Rehydrated
pub mod Completed
pub mod Executed
pub mod Runs
pub mod Approvals
pub mod Permits
pub mod Senders
pub mod Gone
pub mod Fuel
pub mod Attempts
mod Tests

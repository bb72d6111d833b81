-- ===== src/Graph.antt =====
-- `ExecutionGraph` of services/orchestrator/src/agents/ExecutionGraph.ts: a graph of nodes with
-- dependencies, validated, and then run with retries and a limit on concurrent nodes.
pub mod Definition
pub mod Cycles
pub mod Search
pub mod Decision
pub mod Run
pub mod Execution
pub mod Outcome
pub mod Slots
pub mod Stuck
pub mod Result
mod Runs
mod Tests

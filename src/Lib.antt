-- ===== src/Lib.antt =====
-- A verification of the coordination core of the orchestrator (services/orchestrator): the parts
-- that decide what may run, how often and when, apart from their input and output.
--
-- The program. The orchestrator turns a request into a plan, queues its steps, asks people for
-- approval of dangerous ones, calls model providers and tools, and streams events to browsers.
-- Around these calls stand the parts modelled here. A graph of agent nodes is validated before it
-- runs; the approval manager keeps the requests that wait for a person; the circuit breaker and
-- the rate limiters stand before the providers and the HTTP routes; the quota manager bounds open
-- event streams; the deduplication service lets one consumer claim a job; the secrets manager
-- rotates versioned secrets over a store that may fail; the case service and the workflow engine
-- keep the cases and the workflows that plans belong to. The plan queue manager releases a plan's
-- next step, asks for approvals, and takes in completions; what it must remember is
-- in the plan state service and, across restarts, in the plan state store. Agents of a graph talk
-- over the message bus and share values in the shared context.
--
-- The files, and what they model:
--   Graph         services/orchestrator/src/agents/ExecutionGraph.ts. Definition has the data and
--                 `validateGraph` with `detectCycles` (validate_graph, detect_cycles); Search and
--                 Decision prove the search right, over the paths and orders of Cycles.
--                 Run has the state of a run with `canExecute` and `scheduleNode`, Execution how
--                 a node's execution ends (completion, retry, failure, blocking) and the steps of
--                 a run, Outcome the result. Slots is about the concurrency limit, Stuck about
--                 retries, Result about the counts.
--   Approvals     services/orchestrator/src/approvals/ApprovalManager.ts. Defs has the data and
--                 the events of the emitter, Requests the operations on single requests, Batches
--                 those on batches and the runs; Final is about what becomes of a request.
--   Breaker       `CircuitBreaker` of services/orchestrator/src/providers/resilience.ts, as two
--                 steps round the awaited action, over a heap of state objects. Invariant is about
--                 calls that overlap, Sequence about calls one after another, Slow about actions
--                 that take long.
--   RateLimit     Store: `MemoryRateLimitStore` of services/orchestrator/src/rateLimit/store.ts.
--                 Session: services/orchestrator/src/services/RateLimiter.ts. Window and Retry are
--                 about the limit and the wait, Exact about the history of a session.
--   Secrets       services/orchestrator/src/auth/VersionedSecretsManager.ts. Store has the store of
--                 texts, whose calls fail as a list of faults says, and the metadata with its raw JSON value; Manager has the checks of the parsed fields,
--                 `rotate` and what all operations share, Versions `promote`, the queries and
--                 `clear`. Keys, Commit, Rotation, Atomic and Current are about rotations. Codec is
--                 a way to print metadata, for the tests. Calls that the code makes at once
--                 (`Promise.all`) are made in order.
--   Sse           services/orchestrator/src/server/SseQuotaManager.ts; Live is about its counters.
--   Dedupe        services/orchestrator/src/queue/MemoryDedupeService.ts; Exclusive is about
--                 claims.
--   Cases         services/orchestrator/src/cases/CaseService.ts; Tenants is about the tenant checks,
--                 Sessions about `getOrCreateCaseForSession`.
--   Workflow      services/orchestrator/src/workflow/WorkflowEngine.ts; Chain is about the order of a
--                 workflow's nodes.
--   Plans         Data has the data of plans (services/orchestrator/src/plan/validation.ts), Store the
--                 file store of services/orchestrator/src/queue/PlanStateStore.ts, Service
--                 services/orchestrator/src/services/PlanStateService.ts, Queue the release of steps
--                 in services/orchestrator/src/queue/PlanQueueManager.ts and Decisions its other
--                 methods, Completion the messages that
--                 services/orchestrator/src/queue/CompletionConsumer.ts takes in, Steps the execution
--                 of a step by services/orchestrator/src/queue/StepConsumer.ts. The lock (which a
--                 method and then the release may take), the policy and the queue are an argument
--                 (Env) of each call. Calls, Synced and Durable are about restarts of the store.
--                 Order, Sequence, Releases, Methods, Rehydrated, Completed, Executed and Runs are
--                 about the counters of a plan (nextStepIndex and lastCompletedIndex), Approvals and
--                 Permits about what is enqueued, Senders about whose completions are taken in, Gone
--                 about steps that are over, Attempts about calls of tools, Fuel about the loop.
--   Context       `SharedContextManager` of services/orchestrator/src/agents/AgentCommunication.ts;
--                 Query has `query`, Calls the runs. Sizes is about the number of entries, Justified
--                 and Readers about where a value that is read comes from.
--   Bus           `MessageBus` of services/orchestrator/src/agents/AgentCommunication.ts; Delivery has
--                 the delivery of an envelope, whose handler's answer is an argument, and requests.
--                 Queues, Kept and Runs are about lengths and priorities, Fifo about the order of
--                 arrival, Lost about requests of agents that are not registered.
--   Common        tests, lists, JavaScript's `Map` with text keys, facts on its keys, and `trim`.
-- A module named Tests holds runs at concrete inputs, and each theorem at one input.
--
-- Conventions. A method takes the object's state and returns the new one, with its result. Clocks,
-- random ids and answers of awaited actions are arguments, in the order in which the code reads
-- them. Numbers are whole and not negative; where the code subtracts, the model compares sums. An
-- exception is a value of the result. A `Map` is the list of its entries and a `Set` of texts a
-- list. What happens between two steps of one call is a sequence of events or of steps.
--
-- Fuel. The depth-first search of `detectCycles` takes fuel: one level of recursion for each node,
-- and one more; each level visits a node for the first time, so this is enough. The loop of
-- `markBlockedDependents` takes one more than there are executions: a node enters the queue when
-- it leaves the status pending, so this is enough as well. The loop of `releaseNextPlanSteps` takes
-- one more than there are steps: each round goes one step on.
--
-- Not modelled: Redis, brokers, databases and providers, which are external; JSON, which is a
-- parameter for the secrets' metadata, while the plan store's file is modelled as the document that is
-- parsed from it; logging and metrics; and the free-form data that the code passes on.
pub mod Common
pub mod Approvals
pub mod Breaker
pub mod Bus
pub mod Cases
pub mod Context
pub mod Dedupe
pub mod Graph
pub mod Plans
pub mod RateLimit
pub mod Secrets
pub mod Sse
pub mod Workflow

-- ===== src/Graph/Execution.antt =====
-- How a node's execution ends in services/orchestrator/src/agents/ExecutionGraph.ts: completion,
-- retry, failure, and the steps of a run.
use ai_agent_tool.Common.{
  ℕ, zero, suc, ◌+◌, ◌-◌, ◌*◌, ◌^◌, ◌≡◌, Bool, true, false, ◌&&◌, Option, none, some, List, [], ◌∷◌,
  ◌++◌, String, leb, ltb, if◌then◌else◌, contains, length,
}
use ai_agent_tool.Common.Map
use ai_agent_tool.Common.Map.{Map}
use ai_agent_tool.Graph.Definition.{
  pending, completed, failed, blocked, RetryPolicy, NodeDefinition, find_node,
}
use ai_agent_tool.Graph.Run.{
  ExecutionError, NodeExecution, Flight, GraphRun, dependents_of, is_pending, continues, launch,
  schedule_nodes, leave, waiting, executing, backing_off,
}

-- The loop of `markBlockedDependents` over the dependents of one node: the executions, and the
-- dependents that were marked.
unfoldable pub block_each : List String → Map NodeExecution → Map NodeExecution × List String
block_each [] m = (m, [])
block_each (id ∷ ids) m =
    let e = Map.get id m in
    let (m', marked) = block_each ids (
      if is_pending e
      then (elim e [ none ↦ m | some x ↦ Map.set id (record x { status = blocked }) m ])
      else m) in
    (m', if is_pending e then id ∷ marked else marked)

-- Its outer loop. Fuel: every node that is queued has just left the status `pending`.
unfoldable pub block_queue :
    (fuel : ℕ)
    → Map (List String)
    → (queue visited : List String) → Map NodeExecution
    → Map NodeExecution
unfolding block_each
block_queue zero deps queue visited m = m
block_queue (suc fuel) deps [] visited m = m
block_queue (suc fuel) deps (id ∷ queue) visited m =
    let (m', marked) = block_each (dependents_of id deps) m in
    let skip = block_queue fuel deps queue visited m in
    let go = block_queue fuel deps (queue ++ marked) (id ∷ visited) m' in
    if contains id visited then skip else go

unfoldable pub mark_blocked_dependents : GraphRun → String → GraphRun
unfolding block_queue
mark_blocked_dependents g id = record g {
  executions = block_queue (suc (length g.executions)) g.dependency_map (id ∷ []) [] g.executions;
}

-- The handler returned: the flight of `id` is taken off before, and its slot is free at the end.
abbrev pub mark_completed : GraphRun → String → NodeExecution → GraphRun
mark_completed g id e = record g {
  executions = Map.set id (record e { status = completed }) g.executions;
  outputs = id ∷ g.outputs;
}

abbrev pub complete_found : GraphRun → String → Option NodeExecution → GraphRun
complete_found g id none = leave g
complete_found g id (some e) =
    leave (schedule_nodes (mark_completed g id e) (dependents_of id g.dependency_map))

unfoldable pub complete : GraphRun → String → GraphRun
complete g id = complete_found g id (Map.get id g.executions)

-- `node.retryPolicy && execution.attempts < maxRetries + 1 && this.running`.
abbrev pub retry_policy_of : Option NodeDefinition → Option RetryPolicy
retry_policy_of none = none
retry_policy_of (some n) = n.retry_policy

abbrev pub should_retry : GraphRun → NodeExecution → RetryPolicy → Bool
should_retry g e p = ltb e.attempts (p.max_retries + 1) && g.is_running

abbrev pub counted_error : Option ExecutionError → String → ExecutionError
counted_error none message = record { message = message; retry_count = 1 }
counted_error (some x) message = record x { retry_count = x.retry_count + 1 }

-- `backoffMs * Math.pow(2, retryCount - 1)`, or `backoffMs`.
abbrev pub backoff_delay : RetryPolicy → ExecutionError → ℕ
backoff_delay p x = if p.exponential then p.backoff * 2 ^ (x.retry_count - 1) else p.backoff

abbrev pub retry_later : GraphRun → String → NodeExecution → RetryPolicy → String → GraphRun
retry_later g id e p message =
    let x = counted_error e.error message in
    record g {
      executions = Map.set id (record e { status = pending; error = some x }) g.executions;
      flights = backing_off id (backoff_delay p x) ∷ g.flights;
    }

abbrev pub mark_failed : GraphRun → String → NodeExecution → String → GraphRun
mark_failed g id e message = record g {
  executions =
      Map.set id
        (record e {
          status = failed;
          error = some (record { message = message; retry_count = e.attempts - 1 });
        })
        g.executions;
}

unfoldable pub give_up : GraphRun → String → NodeExecution → String → GraphRun
unfolding mark_blocked_dependents schedule_nodes
give_up g id e message = leave (
    if continues (find_node id g.nodes)
    then schedule_nodes (mark_failed g id e message) (dependents_of id g.dependency_map)
    else mark_blocked_dependents (mark_failed g id e message) id)

-- The handler failed or timed out.
abbrev pub fail_found :
    GraphRun → String → String → Option NodeExecution → Option RetryPolicy → GraphRun
fail_found g id message none policy = leave g
fail_found g id message (some e) none = give_up g id e message
fail_found g id message (some e) (some p) =
    if should_retry g e p then retry_later g id e p message else give_up g id e message

unfoldable pub fail : GraphRun → String → (message : String) → GraphRun
unfolding give_up
fail g id message =
    fail_found g id message (Map.get id g.executions) (retry_policy_of (find_node id g.nodes))

-- The retry got its slot, and the `executeNode` that called it ends.
unfoldable pub relaunch : GraphRun → String → GraphRun
relaunch g id = leave (launch g id)

-- After the sleep: `scheduleNode` is called again.
unfoldable pub wake : GraphRun → String → GraphRun
unfolding relaunch
wake g id =
    if leb g.concurrency_limit g.active_executions
    then record g { flights = waiting id true ∷ g.flights }
    else relaunch g id

-- `execute` up to its first await, and `stop`.
unfoldable pub start_execution : GraphRun → List String → GraphRun
start_execution g entry_nodes = schedule_nodes (record g { is_running = true }) entry_nodes

unfoldable pub stop : GraphRun → GraphRun
stop g = record g { is_running = false }

abbrev pub take_off : GraphRun → (before after : List Flight) → GraphRun
take_off g before after = record g { flights = before ++ after }

-- What may happen next. A flight that waits looks for a slot from time to time; it goes on only if
-- there is one.
pub data Step (g : GraphRun) : GraphRun → Type 0 where
  take_slot :
      (before : List Flight) (id : String) (after : List Flight)
      → g.flights ≡ before ++ waiting id false ∷ after
      → leb g.concurrency_limit g.active_executions ≡ false
      → Step g (launch (take_off g before after) id)
  take_slot_again :
      (before : List Flight) (id : String) (after : List Flight)
      → g.flights ≡ before ++ waiting id true ∷ after
      → leb g.concurrency_limit g.active_executions ≡ false
      → Step g (relaunch (take_off g before after) id)
  succeed :
      (before : List Flight) (id : String) (after : List Flight)
      → g.flights ≡ before ++ executing id ∷ after
      → Step g (complete (take_off g before after) id)
  go_wrong :
      (before : List Flight) (id : String) (after : List Flight) (message : String)
      → g.flights ≡ before ++ executing id ∷ after
      → Step g (fail (take_off g before after) id message)
  wake_up :
      (before : List Flight) (id : String) (delay : ℕ) (after : List Flight)
      → g.flights ≡ before ++ backing_off id delay ∷ after
      → Step g (wake (take_off g before after) id)
  stop_run : Step g (stop g)

pub data Reach (g : GraphRun) : GraphRun → Type 0 where
  start : Reach g g
  next : {h k : GraphRun} → Reach g h → Step h k → Reach g k

-- ===== src/Graph/Runs.antt =====
-- Runs of a graph at concrete inputs.
use ai_agent_tool.Common.{
  ◌+◌, ◌≤◌, ◌≡◌, ◌↔◌, refl, true, false, none, some, List, [], ◌∷◌, String, count_if,
}
use ai_agent_tool.Common.Map
use ai_agent_tool.Graph.Definition.{
  NodeDefinition, GraphDefinition, RetryPolicy, task, running, failed, blocked,
}
use ai_agent_tool.Graph.Run.{
  executing, GraphRun, NodeExecution, new_run, is_pending, launch, schedule_nodes,
}
use ai_agent_tool.Graph.Execution.{
  start_execution, complete, fail, Reach, start, next, succeed, take_off, stop, stop_run,
}
use ai_agent_tool.Graph.Outcome.{all_done, build_execution_result}
use ai_agent_tool.Graph.Slots.{holds_slot, is_executing, Reach-le-limit}
use ai_agent_tool.Graph.Stuck.{retried, Unmoved, retry_never_runs}
use ai_agent_tool.Graph.Result.{build_execution_result_lem}

program : Unit {0}
unfolding start_execution new_run complete fail launch all_done build_execution_result
    schedule_nodes Map.get Map.set
program = tt

abbrev policy : RetryPolicy
policy = record { max_retries = 2; backoff = 100; exponential = true }

abbrev node : String → List String → NodeDefinition
node id deps = record {
  id = id;
  type = task;
  name = id;
  dependencies = deps;
  retry_policy = some policy;
  timeout = none;
  continue_on_error = false;
}

abbrev graph : GraphDefinition
graph = record { id = "g"; nodes = node "a" [] ∷ node "b" ("a" ∷ []) ∷ []; entry_nodes = "a" ∷ [] }

abbrev begun : GraphRun
begun = start_execution (new_run graph 1) ("a" ∷ [])

abbrev a_runs : NodeExecution
a_runs = record { status = running; attempts = 1; error = none }

only_a : begun.flights ≡ executing "a" ∷ []
unfolding program
only_a = refl

Reach-le-limit_example :
    let g = complete (take_off begun [] []) "a" in
    (g.active_executions ≡ count_if holds_slot g.flights)
    × (g.active_executions ≤ 1)
    × (count_if is_executing g.flights ≤ 1)
Reach-le-limit_example =
    Reach-le-limit graph 1 ("a" ∷ []) (complete (take_off begun [] []) "a")
      (next start (succeed [] "a" [] only_a))

retry_never_runs_example :
    Reach begun (retried begun [] [] "a" "boom")
    × (is_pending (Map.get "a" (retried begun [] [] "a" "boom").executions) ≡ true)
    × Unmoved (retried begun [] [] "a" "boom") (stop (retried begun [] [] "a" "boom"))
unfolding program
retry_never_runs_example =
    retry_never_runs graph ("a" ∷ []) begun [] [] "a" "boom" a_runs policy
      (stop (retried begun [] [] "a" "boom")) start only_a refl refl refl (next start stop_run)

abbrev ended : GraphRun
ended = record {
  nodes = graph.nodes;
  dependency_map = [];
  concurrency_limit = 1;
  executions =
      ("a", record { status = failed; attempts = 3; error = none })
      ∷ ("b", record { status = blocked; attempts = 0; error = none })
      ∷ [];
  outputs = [];
  active_executions = 0;
  is_running = true;
  flights = [];
}

build_execution_result_lem_example :
    let r = build_execution_result ended true in
    (r.completed_count + r.failed_count + r.blocked_count + r.skipped_count ≡ 2)
    × ((r.success ≡ true) ↔ ((true ≡ false) × (r.completed_count ≡ 2)))
unfolding program
build_execution_result_lem_example = build_execution_result_lem ended true refl

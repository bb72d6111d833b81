-- ===== src/Graph/Outcome.antt =====
-- `waitForCompletion` and `buildExecutionResult` of
-- services/orchestrator/src/agents/ExecutionGraph.ts.
use ai_agent_tool.Common.{ℕ, Bool, true, false, not, ◌&&◌, all, length, count_if}
use ai_agent_tool.Common.Map
use ai_agent_tool.Common.Map.{Map}
use ai_agent_tool.Graph.Definition.{pending, running, completed, failed, skipped, blocked}
use ai_agent_tool.Graph.Run.{NodeExecution, GraphRun}

-- `waitForCompletion` ends when this holds, or after `stop`.
abbrev pub is_done : NodeExecution → Bool
is_done e = elim e.status [ pending ↦ false | running ↦ false | _ ↦ true ]

unfoldable pub all_done : GraphRun → Bool
all_done g = all is_done (Map.values g.executions)

pub record ExecutionResult : Type 0 where
  pub total_nodes : ℕ
  pub completed_count : ℕ
  pub failed_count : ℕ
  pub blocked_count : ℕ
  pub skipped_count : ℕ
  pub success : Bool

abbrev pub is_completed : NodeExecution → Bool
is_completed e = elim e.status [ completed ↦ true | _ ↦ false ]

abbrev pub is_failed : NodeExecution → Bool
is_failed e = elim e.status [ failed ↦ true | _ ↦ false ]

abbrev pub is_blocked : NodeExecution → Bool
is_blocked e = elim e.status [ blocked ↦ true | _ ↦ false ]

abbrev pub is_skipped : NodeExecution → Bool
is_skipped e = elim e.status [ skipped ↦ true | _ ↦ false ]

-- `buildExecutionResult`; `has_error` is whether an error is passed.
unfoldable pub build_execution_result : GraphRun → (has_error : Bool) → ExecutionResult
build_execution_result g has_error =
    let executions = Map.values g.executions in
    record {
      total_nodes = length g.nodes;
      completed_count = count_if is_completed executions;
      failed_count = count_if is_failed executions;
      blocked_count = count_if is_blocked executions;
      skipped_count = count_if is_skipped executions;
      success = not has_error && all is_completed executions;
    }

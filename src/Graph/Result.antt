-- ===== src/Graph/Result.antt =====
-- The result of a run: the counts of `buildExecutionResult`.
use ai_agent_tool.Common.{
  ◌+◌, ◌≡◌, ◌↔◌, refl, Bool, true, false, List, [], ◌∷◌, arith, all, length, count_if,
  count_if-le-length,
}
use ai_agent_tool.Common.Map
use ai_agent_tool.Graph.Run.{NodeExecution, GraphRun}
use ai_agent_tool.Graph.Outcome.{
  is_done, is_completed, is_failed, is_blocked, is_skipped, all_done, build_execution_result,
}

counts_of_done :
    (l : List NodeExecution)
    → all is_done l ≡ true
    → count_if is_completed l + count_if is_failed l + count_if is_blocked l + count_if is_skipped l
      ≡ length l
counts_of_done [] h = refl
counts_of_done (e ∷ l) h = ground (arith, counts_of_done l)

all-iff-count :
    (l : List NodeExecution) → (all is_completed l ≡ true) ↔ (count_if is_completed l ≡ length l)
all-iff-count [] = (λ h. refl, λ h. refl)
all-iff-count (e ∷ l) =
    let (there, back) = all-iff-count l in
    (λ h. ground (arith, there), λ h. ground (arith, back, count_if-le-length is_completed l))

-- Once all nodes are done, each is counted exactly once: the completed, failed, blocked and skipped
-- nodes add up to the number of executions. The run is a success exactly if there is no error and
-- the completed nodes are that many.
pub build_execution_result_lem :
    (g : GraphRun) (has_error : Bool)
    → all_done g ≡ true
    → let r = build_execution_result g has_error in
      let total = length (Map.values g.executions) in
      (r.completed_count + r.failed_count + r.blocked_count + r.skipped_count ≡ total)
      × ((r.success ≡ true) ↔ ((has_error ≡ false) × (r.completed_count ≡ total)))
unfolding all_done build_execution_result
build_execution_result_lem g has_error h =
    let (there, back) = all-iff-count (Map.values g.executions) in
    (
      counts_of_done (Map.values g.executions) h,
      (λ s. (ground arith, ground (arith, there)), λ s. ground (arith, back)),
    )

-- ===== src/Plans/Calls.antt =====
-- Runs of calls of the store of services/orchestrator/src/queue/PlanStateStore.ts.
use ai_agent_tool.Common.{ℕ, Bool, Option, List, [], ◌∷◌, String, ◌≡◌}
use ai_agent_tool.Plans.Data.{PlanStep, PlanStepState, PlanMetadata}
use ai_agent_tool.Plans.Store.{
  PlanStateStore, StepOptions, remember_step, set_state, record_approval, forget_step, after_purge,
  remember_plan_metadata, forget_plan_metadata, clear,
}

pub data Call : Type 0 where
  remember_call :
      (now : ℕ) (uuid plan_id : String) (step : PlanStep) (trace_id : String)
      (options : StepOptions)
      → Call
  state_call :
      (now : ℕ) (plan_id step_id : String) (state : PlanStepState) (summary : Option String)
      (attempt : Option ℕ)
      → Call
  approval_call : (now : ℕ) (plan_id step_id capability : String) (granted : Bool) → Call
  forget_call : (now : ℕ) (plan_id step_id : String) → Call
  -- Any of the queries.
  query_call : (now : ℕ) → Call
  plan_call : (now : ℕ) (plan_id : String) (metadata : PlanMetadata) → Call
  forget_plan_call : (now : ℕ) (plan_id : String) → Call
  clear_call : Call

unfoldable pub handle : PlanStateStore → Call → PlanStateStore
handle s (remember_call now uuid plan_id step trace_id options) =
    remember_step s now uuid plan_id step trace_id options
handle s (state_call now plan_id step_id state summary attempt) =
    set_state s now plan_id step_id state summary attempt
handle s (approval_call now plan_id step_id capability granted) =
    record_approval s now plan_id step_id capability granted
handle s (forget_call now plan_id step_id) = forget_step s now plan_id step_id
handle s (query_call now) = after_purge s now
handle s (plan_call now plan_id metadata) = remember_plan_metadata s now plan_id metadata
handle s (forget_plan_call now plan_id) = forget_plan_metadata s now plan_id
handle s clear_call = clear s

unfoldable pub run : PlanStateStore → List Call → PlanStateStore
run s [] = s
run s (c ∷ calls) = run (handle s c) calls

-- A plan's metadata is stored under its own id.
abbrev pub IsProper : Call → Type 0
IsProper (remember_call now uuid plan_id step trace_id options) = Unit
IsProper (state_call now plan_id step_id state summary attempt) = Unit
IsProper (approval_call now plan_id step_id capability granted) = Unit
IsProper (forget_call now plan_id step_id) = Unit
IsProper (query_call now) = Unit
IsProper (plan_call now plan_id metadata) = metadata.plan_id ≡ plan_id
IsProper (forget_plan_call now plan_id) = Unit
IsProper clear_call = Unit

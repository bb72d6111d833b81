-- ===== src/Plans/Data.antt =====
-- The data of services/orchestrator/src/plan/validation.ts and of
-- services/orchestrator/src/queue/PlanStateStore.ts. Times are milliseconds, and none where a text is
-- no date. Inputs, outputs and metadata of tools are free-form data and left out.
use ai_agent_tool.Common.{ℕ, Bool, true, false, Option, List, String}
use ai_agent_tool.Common.Map.{Map}

pub record PlanStep : Type 0 where
  pub id : String
  pub action : String
  pub capability : String
  pub capability_label : String
  pub labels : List String
  pub tool : String
  pub timeout_seconds : ℕ
  pub approval_required : Bool
  pub summary : Option String

pub data PlanStepState : Type 0 where
  queued running retrying waiting_approval approved rejected completed failed dead_lettered :
      PlanStepState

-- `TERMINAL_STATES`.
abbrev pub is_terminal : PlanStepState → Bool
is_terminal state = elim state [
  | completed ↦ true
  | failed ↦ true
  | rejected ↦ true
  | dead_lettered ↦ true
  | _ ↦ false
]

pub record PlanSubject : Type 0 where
  pub session_id : Option String
  pub tenant_id : Option String
  pub user_id : Option String
  pub email : Option String
  pub name : Option String
  pub roles : List String
  pub scopes : List String

pub record PersistedStep : Type 0 where
  pub id : String
  pub plan_id : String
  pub step_id : String
  pub trace_id : String
  pub request_id : Option String
  pub step : PlanStep
  pub state : PlanStepState
  pub summary : Option String
  pub updated_at : Option ℕ
  pub attempt : ℕ
  pub idempotency_key : String
  pub created_at : Option ℕ
  pub approvals : Option (Map Bool)
  pub subject : Option PlanSubject

pub record PlanStepMetadata : Type 0 where
  pub step : PlanStep
  pub created_at : Option ℕ
  pub attempt : ℕ
  pub request_id : Option String
  pub subject : Option PlanSubject

-- `completed_up_to` is the source's `lastCompletedIndex`, which starts at -1, plus one: the largest
-- index of a completed step, plus one. Steps before it need not be completed.
pub record PlanMetadata : Type 0 where
  pub plan_id : String
  pub trace_id : String
  pub request_id : Option String
  pub steps : List PlanStepMetadata
  pub next_step_index : ℕ
  pub completed_up_to : ℕ

-- A plan's metadata as the store keeps it.
pub record PlanRecord : Type 0 where
  pub metadata : PlanMetadata
  pub updated_at : Option ℕ

-- The content of the file, as its JSON is parsed: `steps` and `plans` are none where they are no
-- arrays, and an entry is none where it lacks an id that `load` looks for.
pub record PersistedDocument : Type 0 where
  pub steps : Option (List (Option PersistedStep))
  pub plans : Option (List (Option PlanMetadata))

-- ===== src/Workflow.antt =====
-- `WorkflowEngine` of services/orchestrator/src/workflow/WorkflowEngine.ts: workflows made from
-- plans. Times are milliseconds; the clock's reading and the random part of an id are arguments.
-- The subject of a request is left out.
pub mod Chain
mod Tests
use Prim.Native.String.{◌++◌ as append_str}
use ai_agent_tool.Common.{
  ℕ, Bool, true, false, not, ◌&&◌, Option, none, some, List, [], ◌∷◌, String, if◌then◌else◌, filter,
}
use ai_agent_tool.Common.Map
use ai_agent_tool.Common.Map.{Map}
use ai_agent_tool.Common.Text.{is_given, same}
use ai_agent_tool.Plans.Data.{PlanStep}

pub data WorkflowNodeType : Type 0 where
  agent_step code_step approval_step trigger_step : WorkflowNodeType

pub data WorkflowStatus : Type 0 where
  pending running completed failed : WorkflowStatus

-- What the engine reads of a plan.
pub record Plan : Type 0 where
  pub id : String
  pub steps : List PlanStep

pub record NodeInputs : Type 0 where
  pub tool : String
  pub capability : String
  pub labels : List String
  pub timeout_seconds : ℕ

pub record WorkflowNode : Type 0 where
  pub id : String
  pub type : WorkflowNodeType
  pub name : String
  pub next : Option (List String)
  pub approval_required : Bool
  pub inputs : NodeInputs

pub record WorkflowOptions : Type 0 where
  pub tenant_id : Option String
  pub project_id : Option String
  pub case_id : Option String
  pub trace_id : Option String
  pub request_id : Option String

pub record Workflow : Type 0 where
  pub id : String
  pub plan_id : String
  pub options : WorkflowOptions
  pub nodes : List WorkflowNode
  pub status : WorkflowStatus
  pub created_at : ℕ
  pub updated_at : ℕ

pub record WorkflowQuery : Type 0 where
  pub tenant_id : Option String
  pub project_id : Option String

abbrev pub WorkflowEngine : Type 0
WorkflowEngine = Map Workflow

-- The step after this one, if this is not the last.
abbrev pub next_of : List PlanStep → Option (List String)
next_of [] = none
next_of (step ∷ steps) = some (step.id ∷ [])

abbrev pub node_of : PlanStep → (later : List PlanStep) → WorkflowNode
node_of step later = record {
  id = step.id;
  type = if step.approval_required then approval_step else code_step;
  name = step.action;
  next = next_of later;
  approval_required = step.approval_required;
  inputs = record {
    tool = step.tool;
    capability = step.capability;
    labels = step.labels;
    timeout_seconds = step.timeout_seconds;
  };
}

unfoldable pub nodes_of : List PlanStep → List WorkflowNode
nodes_of [] = []
nodes_of (step ∷ steps) = node_of step steps ∷ nodes_of steps

unfoldable pub create_workflow_from_plan :
    WorkflowEngine → (now : ℕ) (uuid : String) → Plan → WorkflowOptions → WorkflowEngine × Workflow
create_workflow_from_plan e now uuid plan options =
    let w : Workflow = record {
      id = append_str "wf-" uuid;
      plan_id = plan.id;
      options = options;
      nodes = nodes_of plan.steps;
      status = pending;
      created_at = now;
      updated_at = now;
    } in
    (Map.set w.id w e, w)

abbrev pub set_found :
    WorkflowEngine → ℕ → String → WorkflowStatus → Option Workflow → WorkflowEngine
set_found e now id status none = e
set_found e now id status (some w) = Map.set id (record w { status = status; updated_at = now }) e

unfoldable pub set_status :
    WorkflowEngine → (now : ℕ) (id : String) → WorkflowStatus → WorkflowEngine
set_status e now id status = set_found e now id status (Map.get id e)

abbrev pub get_workflow : WorkflowEngine → String → Option Workflow
get_workflow e id = Map.get id e

abbrev pub is_wanted : WorkflowQuery → Workflow → Bool
is_wanted query w =
    (if is_given query.tenant_id then same w.options.tenant_id query.tenant_id else true)
    && (if is_given query.project_id then same w.options.project_id query.project_id else true)

unfoldable pub list_workflows : WorkflowEngine → WorkflowQuery → List Workflow
list_workflows e query = filter (is_wanted query) (Map.values e)

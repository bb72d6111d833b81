-- ===== src/Workflow/Tests.antt =====
-- The theorem about workflows at a concrete input.
use ai_agent_tool.Common.{suc, ◌≡◌, refl, false, none, some, List, [], ◌∷◌, String, length, map}
use ai_agent_tool.Plans.Data.{PlanStep}
use ai_agent_tool.Workflow.{
  Plan, Workflow, WorkflowOptions, running, completed, create_workflow_from_plan, get_workflow,
}
use ai_agent_tool.Workflow.Chain.{Change, change_all, follow, create-follow}

abbrev step : String → PlanStep
step id = record {
  id = id;
  action = id;
  tool = "git";
  capability = "repo.read";
  capability_label = "Read";
  summary = none;
  labels = [];
  timeout_seconds = 60;
  approval_required = false;
}

abbrev options : WorkflowOptions
options = record {
  tenant_id = some "acme";
  project_id = none;
  case_id = none;
  trace_id = none;
  request_id = none;
}

abbrev changes : List Change
changes = (7, ("wf-1", running)) ∷ (9, ("wf-1", completed)) ∷ []

create-follow_example :
    let plan : Plan = record { id = "p"; steps = step "a" ∷ step "b" ∷ [] } in
    let (e', w) = create_workflow_from_plan [] 5 "1" plan options in
    (w' : Workflow) × (get_workflow (change_all e' changes) w.id ≡ some w')
    × (follow (suc (length (step "a" ∷ step "b" ∷ []))) w'.nodes "a"
        ≡ map (λ t. t.id) (step "a" ∷ step "b" ∷ []))
create-follow_example =
    create-follow [] 5 "1" "p" (step "a") (step "b" ∷ []) options changes ((refl, tt), (tt, tt))

-- ===== src/Plans/Tests.antt =====
-- A plan of two steps, of which the second requires an approval, and the theorems about plans at
-- concrete inputs.
use Prim.Native.String.{◌++◌ as append_str}
use ai_agent_tool.Common.{
  if◌then◌else◌, ℕ, ◌≡◌, refl, Bool, true, false, none, some, List, [], ◌∷◌, String, arith, map,
  Option,
}
use ai_agent_tool.Common.Map
use ai_agent_tool.Common.Map.{Map}
use ai_agent_tool.Plans.Data.{
  PlanStep, PlanStepState, completed, running, PlanSubject, PlanMetadata, PlanStepMetadata,
}
use ai_agent_tool.Plans.Store.{
  new_store, absent, StepOptions, ensure_loaded, load_steps, load_plans, persist, purge_expired,
  remember_step, set_state, record_approval, forget_step, after_purge, get_entry, list_active_steps,
  remember_plan_metadata, get_plan_metadata, forget_plan_metadata, persist_if, set_found,
  approve_found, load_file,
}
use ai_agent_tool.Plans.Calls
use ai_agent_tool.Plans.Calls.{Call, remember_call, plan_call, state_call, query_call}
use ai_agent_tool.Plans.Durable.{IsRestored, restart-IsRestored}
use ai_agent_tool.Plans.Service.{PlanJob, ensure_approvals, starts_with, prune_plan_subject}
use ai_agent_tool.Plans.Queue.{
  Env, PolicyDecision, PlanQueue, release_step, release_loop, end_release, release_plan,
  release_next_plan_steps, cleanup_plan_session,
}
use ai_agent_tool.Plans.Decisions.{
  Plan, approve, reject, submit_plan_steps, resolve_plan_step_approval,
}
use ai_agent_tool.Plans.Completion.{Message, complete_step, process_message}
use ai_agent_tool.Plans.Order.{IsInStep}
use ai_agent_tool.Plans.Runs
use ai_agent_tool.Plans.Runs.{Event, submission, decision, completion, new_queue, run-IsInStep}
use ai_agent_tool.Plans.Permits.{IsReleased, release-IsPermitted}
use ai_agent_tool.Plans.Senders.{IsAuthentic, process-IsAuthentic}
use ai_agent_tool.Plans.Gone.{IsGone, process-IsGone, reject-IsGone}
use ai_agent_tool.Plans.Fuel.{fuel-IsEnough}
use ai_agent_tool.Plans.Steps.{decides, tool_error, Work, process_job}
use ai_agent_tool.Plans.Attempts.{IsAllowed, process_job-IsAllowed}

abbrev step : String → Bool → PlanStep
step id approval_required = record {
  id = id;
  action = id;
  tool = "git";
  capability = "repo.write";
  capability_label = "Write";
  summary = none;
  labels = [];
  timeout_seconds = 60;
  approval_required = approval_required;
}

-- A policy that permits every step, for want of an approval at most.
abbrev permits : PlanStep → Map Bool → Option PlanSubject → Option PolicyDecision
permits t approvals subject = elim (Map.get t.capability approvals) [
  | none ↦ some (
      if t.approval_required
      then record { allow = false; deny = "approval_required" ∷ [] }
      else record { allow = true; deny = [] })
  | some granted ↦ some (record { allow = true; deny = [] })
]

abbrev world : ℕ → Env
world now = record {
  now = now;
  uuid = "u";
  has_lock = true;
  has_release_lock = true;
  policy = permits;
  can_enqueue = true;
  number = (λ n. "1");
}

abbrev plan : Plan
plan = record { id = "p"; steps = step "a" false ∷ step "b" true ∷ [] }

abbrev message : String → PlanStepState → (trace_id : String) → Message
message step_id state trace_id = record {
  id = "m";
  payload = record {
    plan_id = "p";
    step_id = step_id;
    state = state;
    summary = none;
    attempt = none;
    request_id = none;
    trace_id = some trace_id;
    approvals = none;
  };
  headers = ("x-idempotency-key", append_str "p:" step_id) ∷ [];
}

abbrev submitted_only : List Event
submitted_only = submission (world 1) plan "t" none none ∷ []

-- The first step is completed: the second waits for its approval.
abbrev waiting : List Event
waiting =
    submission (world 1) plan "t" none none ∷ completion (world 2) (message "a" completed "t") ∷ []

abbrev begin : PlanQueue
begin = new_queue (some 1000) []

program : Unit {0}
unfolding persist_if set_found approve_found load_file new_store ensure_loaded load_steps load_plans
    persist purge_expired remember_step set_state record_approval forget_step after_purge get_entry
    list_active_steps remember_plan_metadata get_plan_metadata forget_plan_metadata Calls.run
    Calls.handle ensure_approvals prune_plan_subject starts_with release_step release_loop
    end_release release_plan release_next_plan_steps cleanup_plan_session submit_plan_steps
    resolve_plan_step_approval complete_step process_message new_queue Runs.run Runs.handle Map.get
    Map.set Map.delete
program = tt

process-IsGone_example :
    IsGone
      (process_message (Runs.run begin submitted_only) (world 2) (message "a" completed "t")).0
      "p"
      "a"
unfolding program
process-IsGone_example =
    process-IsGone (Runs.run begin submitted_only) (world 2) (message "a" completed "t") refl refl

reject-IsGone_example :
    let q = Runs.run begin waiting in
    let q' = (resolve_plan_step_approval q (world 3) "p" "b" reject none).0 in
    IsGone q' "p" "b" × (q'.enqueued ≡ q.enqueued)
unfolding program
reject-IsGone_example = reject-IsGone (Runs.run begin waiting) (world 3) "p" "b" none refl

process-IsAuthentic_example :
    let q = Runs.run begin waiting in
    let m = message "b" completed "forged" in
    IsAuthentic q (world 3) m (process_message q (world 3) m)
process-IsAuthentic_example =
    process-IsAuthentic (Runs.run begin waiting) (world 3) (message "b" completed "forged")

-- The second step is approved, so a release may enqueue it.
abbrev approvals_given : List Event
approvals_given =
    submission (world 1) plan "t" none none
    ∷ completion (world 2) (message "a" completed "t")
    ∷ decision (world 3) "p" "b" approve none
    ∷ []

release-IsPermitted_example :
    let q = Runs.run (new_queue (some 1000) []) approvals_given in
    IsReleased q (world 4) "p" (release_next_plan_steps q (world 4) "p").0.enqueued
release-IsPermitted_example = release-IsPermitted (some 1000) [] approvals_given (world 4) "p"

enqueued_steps : map (λ job. job.step.id) (Runs.run begin approvals_given).enqueued ≡ "b" ∷ "a" ∷ []
unfolding program
enqueued_steps = refl

abbrev of_step : PlanStep → PlanStepMetadata
of_step t = record {
  step = t;
  created_at = some 1;
  attempt = 0;
  request_id = some "u";
  subject = none;
}

-- The plan when its second step waits.
abbrev metadata : PlanMetadata
metadata = record {
  plan_id = "p";
  trace_id = "t";
  request_id = some "u";
  steps = of_step (step "a" false) ∷ of_step (step "b" true) ∷ [];
  next_step_index = 1;
  completed_up_to = 1;
}

run-IsInStep_example : IsInStep metadata
unfolding program
run-IsInStep_example = run-IsInStep (some 1000) [] waiting 3 "p" metadata refl

fuel-IsEnough_example :
    release_loop 7 (Runs.run begin submitted_only) (world 2) "p" metadata
    ≡ release_loop 3 (Runs.run begin submitted_only) (world 2) "p" metadata
fuel-IsEnough_example =
    fuel-IsEnough 7 (Runs.run begin submitted_only) (world 2) "p" metadata (omega arith)

abbrev options : StepOptions
options = record {
  initial_state = none;
  idempotency_key = "p:a";
  attempt = 0;
  created_at = some 1;
  request_id = none;
  approvals = none;
  subject = none;
}

abbrev calls : List Call
calls =
    remember_call 1 "u" "p" (step "a" false) "t" options
    ∷ plan_call 2 "p" metadata
    ∷ state_call 3 "p" "a" running none (some 1)
    ∷ query_call 4
    ∷ []

restart-IsRestored_example :
    let s = Calls.run (new_store (some 1000) absent []) calls in
    IsRestored s "p" "a" (ensure_loaded (new_store none s.file []) 5)
restart-IsRestored_example =
    restart-IsRestored (some 1000) none 5 calls "p" "a" (tt, (refl, (tt, (tt, tt))))

abbrev job : PlanJob
job = record {
  plan_id = "p";
  step = step "a" false;
  attempt = 1;
  created_at = some 1;
  trace_id = "t";
  request_id = none;
  subject = none;
}

-- The tool fails for now.
abbrev work : Work
work = record {
  max_retries = 2;
  enforce = λ t approvals subject. decides (record { allow = true; deny = [] });
  tool = tool_error true "busy";
  can_settle = true;
  settle_message = "no queue";
  lock_message = "no lock";
}

process_job-IsAllowed_example :
    IsAllowed
      (Runs.run begin submitted_only)
      work
      job
      (process_job (Runs.run begin submitted_only) (world 2) work job none "m").1
process_job-IsAllowed_example =
    process_job-IsAllowed (Runs.run begin submitted_only) (world 2) work job none "m"

-- ===== src/Plans/Steps.antt =====
-- `processJob` of services/orchestrator/src/queue/StepConsumer.ts: a step is executed. What the policy
-- and the tool agent answer is an argument. What happens to the queue's message is the result, with
-- whether the tool agent was called. The method runs as one, the awaited call of the tool agent
-- included: no other method runs while the tool does.
use Prim.Native.String.{◌++◌ as append_str}
use ai_agent_tool.Common.{
  ℕ, ◌+◌, Bool, true, false, ◌&&◌, Option, none, some, List, [], ◌∷◌, String, if◌then◌else◌, ltb,
  leb,
}
use ai_agent_tool.Common.Map
use ai_agent_tool.Common.Map.{Map}
use ai_agent_tool.Common.Text.{is_given}
use ai_agent_tool.Plans.Data.{
  PlanStep, PlanStepState, queued, running, retrying, rejected, completed, failed, dead_lettered,
  is_terminal, PlanSubject, PersistedStep, PlanMetadata,
}
use ai_agent_tool.Plans.Store.{
  to_key, get_entry, get_plan_metadata, set_state, remember_step, or_else,
}
use ai_agent_tool.Plans.Service.{
  PlanJob, RegistryEntry, get_registry_entry, set_registry_entry, ensure_approvals,
  set_plan_subject, clear_retained_plan_subject,
}
use ai_agent_tool.Plans.Queue.{
  PolicyDecision, Env, PlanQueue, with_service, with_store, emit_plan_event, drop_step,
  release_next_plan_steps, is_empty_list,
}
use ai_agent_tool.Plans.Decisions.{join}
use ai_agent_tool.Plans.Completion.{
  Handled, acked, retried, dead_letter, first_given, find_index, complete_step,
}

pub data PolicyAnswer : Type 0 where
  decides : PolicyDecision → PolicyAnswer
  violates : (message : String) → PolicyAnswer
  fails : PolicyAnswer

-- The events of the tool, with their summaries, or an error.
pub data ToolAnswer : Type 0 where
  tool_events : List (PlanStepState × Option String) → ToolAnswer
  tool_error : (retryable : Bool) (message : String) → ToolAnswer

pub record Work : Type 0 where
  pub max_retries : ℕ
  pub enforce : PlanStep → Map Bool → Option PlanSubject → PolicyAnswer
  pub tool : ToolAnswer
  -- Whether the queue takes the acknowledgements and dead letters; where not, they throw.
  pub can_settle : Bool
  -- The text of the error where the acknowledgement throws after the tool's events.
  pub settle_message : String
  -- The text of the error where the plan's lock is not had.
  pub lock_message : String

pub record Outcome : Type 0 where
  pub handled : Handled
  pub is_called : Bool

abbrev pub quiet : Handled → Outcome
quiet h = record { handled = h; is_called = false }

abbrev pub called : Handled → Outcome
called h = record { handled = h; is_called = true }

-- A message that is settled, or that the catch of `processJob` retries because settling it throws.
abbrev pub settled : Work → Handled → Handled
settled w h = if w.can_settle then h else retried

abbrev pub emit_job : PlanQueue → Env → PlanJob → PlanStepState → Option String → PlanQueue
emit_job q env job state summary =
    emit_plan_event q env job.plan_id job.step state summary job.attempt

abbrev pub drop_job : PlanQueue → Env → PlanJob → PlanQueue
drop_job q env job = drop_step q env job.plan_id job.step.id

abbrev pub handle_rejection : PlanQueue → Env → Work → PlanJob → String → PlanQueue × Outcome
handle_rejection q env w job summary =
    (drop_job (emit_job q env job rejected (some summary)) env job, quiet (settled w acked))

abbrev pub retry_entry : PlanJob → String → Option RegistryEntry → RegistryEntry
retry_entry job trace_id none = record {
  step = job.step;
  trace_id = trace_id;
  request_id = job.request_id;
  job = job;
  in_flight = false;
}
retry_entry job trace_id (some e) = record e { in_flight = false; job = job; trace_id = trace_id }

abbrev pub retry_text : Env → Work → String → ℕ → String → String
retry_text env w start n end_ =
    append_str start
      (append_str (env.number n) (append_str "/" (append_str (env.number w.max_retries) end_)))

abbrev pub retry_job : PlanQueue → Env → Work → PlanJob → String → String → PlanQueue
retry_job q env w job trace_id message =
    let next = record job { attempt = job.attempt + 1 } in
    let q₁ = emit_job q env job retrying (
      some (
        retry_text env w "Retry scheduled (attempt " (job.attempt + 1)
          (append_str "): " message))) in
    let e = retry_entry next trace_id (get_registry_entry q₁.service job.plan_id job.step.id) in
    let q₂ = with_service q₁ (set_registry_entry q₁.service job.plan_id job.step.id e) in
    let q₃ = with_store q₂ (
      set_state q₂.service.store env.now job.plan_id job.step.id queued none (some next.attempt)) in
    emit_job q₃ env next queued
      (some (retry_text env w "Retry enqueued (attempt " next.attempt ")"))

abbrev pub exhausted_text : Env → PlanJob → String → String
exhausted_text env job message =
    append_str "Retries exhausted after "
      (append_str (env.number job.attempt) (append_str " attempts: " message))

unfoldable pub handle_tool_error :
    PlanQueue
    → Env
    → Work
    → PlanJob
    → (trace_id : String) (retryable : Bool) (message : String) → PlanQueue × Outcome
handle_tool_error q env w job trace_id retryable message =
    if retryable && ltb job.attempt w.max_retries
    then (retry_job q env w job trace_id message, called retried)
    else if retryable
    then (
      drop_job (emit_job q env job dead_lettered (some (exhausted_text env job message))) env job,
      called (settled w (dead_letter (exhausted_text env job message))),
    )
    else (drop_job (emit_job q env job failed (some message)) env job, called (settled w acked))

unfoldable pub emit_all :
    PlanQueue → Env → PlanJob → List (PlanStepState × Option String) → PlanQueue
emit_all q env job [] = q
emit_all q env job ((state, summary) ∷ es) = emit_all (emit_job q env job state summary) env job es

unfoldable pub emit_events :
    PlanQueue → Env → PlanJob → List (PlanStepState × Option String) → PlanQueue
unfolding emit_all
emit_events q env job es =
    if is_empty_list es
    then emit_job q env job completed (some "Tool completed")
    else emit_all q env job es

-- The state of the last event that is terminal.
unfoldable pub terminal_state : PlanStepState → List (PlanStepState × Option String) → PlanStepState
terminal_state found [] = found
terminal_state found ((state, summary) ∷ es) =
    terminal_state (if is_terminal state then state else found) es

abbrev pub is_completed_state : PlanStepState → Bool
is_completed_state state = elim state [ completed ↦ true | _ ↦ false ]

-- The plan's lock is taken after the message is acknowledged; without it, this is a tool's error.
unfoldable pub finish_job :
    PlanQueue → Env → Work → PlanJob → (trace_id : String) → PlanStepState → PlanQueue × Outcome
unfolding handle_tool_error
finish_job q env w job trace_id state =
    if is_completed_state state
    then (if env.has_lock
        then (
          (release_next_plan_steps (complete_step q env job.plan_id job.step.id) env job.plan_id).0,
          called acked,
        )
        else handle_tool_error q env w job trace_id false w.lock_message)
    else (q, called acked)

unfoldable pub call_tool :
    PlanQueue → Env → Work → PlanJob → (trace_id : String) → ToolAnswer → PlanQueue × Outcome
unfolding handle_tool_error finish_job emit_events terminal_state
call_tool q env w job trace_id (tool_error retryable message) =
    handle_tool_error q env w job trace_id retryable message
call_tool q env w job trace_id (tool_events es) =
    let q' = drop_job (emit_events q env job es) env job in
    if w.can_settle
    then finish_job q' env w job trace_id (terminal_state completed es)
    else handle_tool_error q' env w job trace_id false w.settle_message

abbrev pub denial : List String → String
denial [] = "Capability policy denied execution"
denial (r ∷ rs) = join (r ∷ rs)

unfoldable pub run_permitted :
    PlanQueue → Env → Work → PlanJob → (trace_id : String) → PolicyAnswer → PlanQueue × Outcome
unfolding call_tool
run_permitted q env w job trace_id fails = (q, quiet retried)
run_permitted q env w job trace_id (violates message) = handle_rejection q env w job message
run_permitted q env w job trace_id (decides d) =
    if d.allow
    then call_tool q env w job trace_id w.tool
    else handle_rejection q env w job (denial d.deny)

abbrev pub keep_job_subject : PlanQueue → PlanJob → Option PlanSubject → PlanQueue
keep_job_subject q job none = q
keep_job_subject q job (some subject) =
    with_service q
      (clear_retained_plan_subject (set_plan_subject q.service job.plan_id subject) job.plan_id)

abbrev pub begin_state : PlanQueue → Env → PlanJob → Option PersistedStep → PlanQueue
begin_state q env job none = q
begin_state q env job (some e) =
    with_store q
      (set_state q.service.store env.now job.plan_id job.step.id running none (some job.attempt))

abbrev pub begin_entry :
    PlanQueue → Env → PlanJob → String → Option PlanSubject → Option PersistedStep → PlanQueue
begin_entry q env job trace_id subject (some e) = q
begin_entry q env job trace_id subject none = with_store q (
    remember_step q.service.store env.now env.uuid job.plan_id job.step trace_id (record {
      initial_state = some running;
      idempotency_key = to_key job.plan_id job.step.id;
      attempt = job.attempt;
      created_at = job.created_at;
      request_id = job.request_id;
      approvals = none;
      subject = subject;
    }))

unfoldable pub begin_step :
    PlanQueue → Env → Work → PlanJob → String → Option PersistedStep → PlanQueue × Outcome
unfolding run_permitted
begin_step q env w job trace_id persisted =
    let q₁ = begin_state q env job persisted in
    let subject = or_else job.subject (Map.get job.plan_id q₁.service.plan_subjects) in
    let q₂ = begin_entry (keep_job_subject q₁ job job.subject) env job trace_id subject persisted in
    let p = ensure_approvals q₂.service env.now job.plan_id job.step.id in
    run_permitted (emit_job (with_service q₂ p.0) env job running (some "Dispatching tool agent"))
      env w job trace_id (w.enforce job.step p.1 subject)

abbrev pub is_in_flight : Option RegistryEntry → Bool
is_in_flight none = false
is_in_flight (some e) = e.in_flight

abbrev pub is_running : PlanStepState → Bool
is_running state = elim state [ running ↦ true | _ ↦ false ]

-- A duplicate of what runs.
abbrev pub is_duplicate : Option RegistryEntry → PlanJob → Option PersistedStep → Bool
is_duplicate entry job none = false
is_duplicate entry job (some e) =
    is_in_flight entry && is_running e.state && leb job.attempt e.attempt

abbrev pub is_index_done : PlanMetadata → Option ℕ → Bool
is_index_done m none = false
is_index_done m (some i) = ltb i m.completed_up_to

abbrev pub is_step_done : String → Option PlanMetadata → Bool
is_step_done step_id none = false
is_step_done step_id (some m) = is_index_done m (find_index m.steps step_id)

unfoldable pub execute_step :
    PlanQueue → Env → Work → PlanJob → (trace_id : String) → PlanQueue × Outcome
unfolding begin_step
execute_step q env w job trace_id =
    let (store, m) = get_plan_metadata q.service.store env.now job.plan_id in
    let q₁ = with_store q store in
    if is_step_done job.step.id m
    then (q₁, quiet (settled w acked))
    else (let (store', persisted) = get_entry q₁.service.store env.now job.plan_id job.step.id in
        let q₂ = with_store q₁ store' in
        if is_duplicate (get_registry_entry q₂.service job.plan_id job.step.id) job persisted
        then (q₂, quiet (settled w acked))
        else begin_step q₂ env w job trace_id persisted)

abbrev pub claimed : PlanJob → String → Option RegistryEntry → RegistryEntry
claimed job trace_id none = record {
  step = job.step;
  trace_id = trace_id;
  request_id = job.request_id;
  job = job;
  in_flight = true;
}
claimed job trace_id (some e) = record e {
  trace_id = trace_id;
  job = job;
  request_id = if is_given job.request_id then job.request_id else e.request_id;
  in_flight = true;
}

abbrev pub is_taken : PlanJob → Option RegistryEntry → Bool
is_taken job none = false
is_taken job (some e) = e.in_flight && leb job.attempt e.job.attempt

-- `trace` is the header trace-id of the message, and `id` its id.
unfoldable pub process_job :
    PlanQueue → Env → Work → PlanJob → (trace : Option String) (id : String) → PlanQueue × Outcome
unfolding execute_step
process_job q env w job trace id =
    let trace_id = first_given (some job.trace_id ∷ trace ∷ some id ∷ []) in
    let entry = get_registry_entry q.service job.plan_id job.step.id in
    let q' =
      with_service q
        (set_registry_entry q.service job.plan_id job.step.id (claimed job trace_id entry)) in
    if is_taken job entry then (q, quiet acked) else execute_step q' env w job trace_id

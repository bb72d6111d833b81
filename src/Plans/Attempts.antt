-- ===== src/Plans/Attempts.antt =====
-- When services/orchestrator/src/queue/StepConsumer.ts calls the tool agent.
use ai_agent_tool.Common.{
  ◌≡◌, ◌⊎◌, inl, inr, refl, sym, ap, ◌∙◌, Bool, true, false, Option, none, some, [], ◌∷◌, String,
  if◌then◌else◌, ltb, if-cases,
}
use ai_agent_tool.Common.Map
use ai_agent_tool.Common.Map.{Map}
use ai_agent_tool.Plans.Data.{PlanStepState, running, completed, dead_lettered, PersistedStep}
use ai_agent_tool.Plans.Store.{get_entry, get_plan_metadata, or_else}
use ai_agent_tool.Plans.Service.{PlanJob, get_registry_entry, set_registry_entry, ensure_approvals}
use ai_agent_tool.Plans.Queue.{
  PolicyDecision, Env, PlanQueue, with_service, with_store, release_next_plan_steps,
}
use ai_agent_tool.Plans.Completion.{retried, acked, dead_letter, first_given, complete_step}
use ai_agent_tool.Plans.Steps.{
  PolicyAnswer, decides, violates, fails, ToolAnswer, tool_events, tool_error, Work, Outcome, quiet,
  called, settled, emit_job, drop_job, handle_rejection, retry_job, exhausted_text,
  handle_tool_error, emit_events, terminal_state, is_completed_state, finish_job, call_tool, denial,
  run_permitted, keep_job_subject, begin_state, begin_entry, begin_step, is_duplicate, is_step_done,
  execute_step, claimed, is_taken, process_job,
}

-- The tool agent is called only with a decision of the policy, for the step and the job's subject or
-- else the plan's, that allows the step.
abbrev pub IsAllowed : PlanQueue → Work → PlanJob → Outcome → Type 0
IsAllowed q w job o =
    (o.is_called ≡ false)
    ⊎ ((approvals : Map Bool) × (d : PolicyDecision) × (w.enforce job.step approvals
            (or_else job.subject (Map.get job.plan_id q.service.plan_subjects))
          ≡ decides d)
        × (d.allow ≡ true))

abbrev IsAllowedAfter : PlanQueue → Work → PlanJob → PlanQueue × Outcome → Type 0
IsAllowedAfter q w job p = IsAllowed q w job p.1

module _ (q₀ : PlanQueue) (env : Env) (w : Work) (job : PlanJob) (trace_id : String) where
  error-IsAllowed :
      (q : PlanQueue) (retryable : Bool) (message : String)
      → IsAllowed q₀ w job (called acked)
      → IsAllowedAfter q₀ w job (handle_tool_error q env w job trace_id retryable message)
  unfolding handle_tool_error
  error-IsAllowed q true message a =
      let text = exhausted_text env job message in
      let dead : PlanQueue × Outcome = (
        drop_job (emit_job q env job dead_lettered (some text)) env job,
        called (settled w (dead_letter text)),
      ) in
      if-cases (IsAllowedAfter q₀ w job) (ltb job.attempt w.max_retries)
        (retry_job q env w job trace_id message, called retried) dead (λ b. a) (λ b. a)
  error-IsAllowed q false message a = a

  finish-IsAllowed :
      (q : PlanQueue) (state : PlanStepState)
      → IsAllowed q₀ w job (called acked)
      → IsAllowedAfter q₀ w job (finish_job q env w job trace_id state)
  unfolding finish_job
  finish-IsAllowed q state a =
      let q₁ = complete_step q env job.plan_id job.step.id in
      let done : PlanQueue × Outcome =
        ((release_next_plan_steps q₁ env job.plan_id).0, called acked) in
      let without : PlanQueue × Outcome =
        handle_tool_error q env w job trace_id false w.lock_message in
      if-cases (IsAllowedAfter q₀ w job) (is_completed_state state)
        (if env.has_lock then done else without) (q, called acked)
        (λ b.
          if-cases (IsAllowedAfter q₀ w job) env.has_lock done without (λ c. a)
            (λ c. error-IsAllowed q false w.lock_message a))
        (λ b. a)

  tool-IsAllowed :
      (q : PlanQueue) (answer : ToolAnswer)
      → IsAllowed q₀ w job (called acked)
      → IsAllowedAfter q₀ w job (call_tool q env w job trace_id answer)
  unfolding call_tool
  tool-IsAllowed q (tool_error retryable message) a = error-IsAllowed q retryable message a
  tool-IsAllowed q (tool_events es) a =
      let q' = drop_job (emit_events q env job es) env job in
      if-cases (IsAllowedAfter q₀ w job) w.can_settle
        (finish_job q' env w job trace_id (terminal_state completed es))
        (handle_tool_error q' env w job trace_id false w.settle_message)
        (λ b. finish-IsAllowed q' (terminal_state completed es) a)
        (λ b. error-IsAllowed q' false w.settle_message a)

  permitted-IsAllowed :
      (q : PlanQueue) (approvals : Map Bool) (answer : PolicyAnswer)
      → w.enforce job.step approvals
          (or_else job.subject (Map.get job.plan_id q₀.service.plan_subjects))
        ≡ answer
      → IsAllowedAfter q₀ w job (run_permitted q env w job trace_id answer)
  unfolding run_permitted
  permitted-IsAllowed q approvals fails e = inl refl
  permitted-IsAllowed q approvals (violates message) e = inl refl
  permitted-IsAllowed q approvals (decides d) e =
      if-cases (IsAllowedAfter q₀ w job) d.allow (call_tool q env w job trace_id w.tool)
        (handle_rejection q env w job (denial d.deny))
        (λ b. tool-IsAllowed q w.tool (inr (approvals, d, e, b))) (λ b. inl refl)

  state_subjects :
      (q : PlanQueue) (o : Option PersistedStep)
      → (begin_state q env job o).service.plan_subjects ≡ q.service.plan_subjects
  state_subjects q none = refl
  state_subjects q (some e) = refl

  begin-IsAllowed :
      (q : PlanQueue) (o : Option PersistedStep)
      → q.service.plan_subjects ≡ q₀.service.plan_subjects
      → IsAllowedAfter q₀ w job (begin_step q env w job trace_id o)
  unfolding begin_step
  begin-IsAllowed q o same =
      let q₁ = begin_state q env job o in
      let subject = or_else job.subject (Map.get job.plan_id q₁.service.plan_subjects) in
      let q₂ = begin_entry (keep_job_subject q₁ job job.subject) env job trace_id subject o in
      let p = ensure_approvals q₂.service env.now job.plan_id job.step.id in
      let kept = state_subjects q o ∙ same in
      permitted-IsAllowed
        (emit_job (with_service q₂ p.0) env job running (some "Dispatching tool agent")) p.1
        (w.enforce job.step p.1 subject)
        (ap (λ m. w.enforce job.step p.1 (or_else job.subject (Map.get job.plan_id m))) (sym kept))

  execute-IsAllowed :
      (q : PlanQueue)
      → q.service.plan_subjects ≡ q₀.service.plan_subjects
      → IsAllowedAfter q₀ w job (execute_step q env w job trace_id)
  unfolding execute_step
  execute-IsAllowed q same =
      let p = get_plan_metadata q.service.store env.now job.plan_id in
      let q₁ = with_store q p.0 in
      let p' = get_entry q₁.service.store env.now job.plan_id job.step.id in
      let q₂ = with_store q₁ p'.0 in
      let twice = is_duplicate (get_registry_entry q₂.service job.plan_id job.step.id) job p'.1 in
      if-cases (IsAllowedAfter q₀ w job) (is_step_done job.step.id p.1)
        (q₁, quiet (settled w acked))
        (if twice then (q₂, quiet (settled w acked)) else begin_step q₂ env w job trace_id p'.1)
        (λ b. inl refl)
        (λ b.
          if-cases (IsAllowedAfter q₀ w job) twice (q₂, quiet (settled w acked))
            (begin_step q₂ env w job trace_id p'.1) (λ c. inl refl)
            (λ c. begin-IsAllowed q₂ p'.1 same))

process-IsAllowed :
    (q : PlanQueue) (env : Env) (w : Work) (job : PlanJob) (trace : Option String) (id : String)
    → IsAllowedAfter q w job (process_job q env w job trace id)
unfolding process_job
process-IsAllowed q env w job trace id =
    let trace_id = first_given (some job.trace_id ∷ trace ∷ some id ∷ []) in
    let entry = get_registry_entry q.service job.plan_id job.step.id in
    let q' =
      with_service q
        (set_registry_entry q.service job.plan_id job.step.id (claimed job trace_id entry)) in
    if-cases (IsAllowedAfter q w job) (is_taken job entry) (q, quiet acked)
      (execute_step q' env w job trace_id) (λ b. inl refl)
      (λ b. execute-IsAllowed q env w job trace_id q' refl)

-- A step is executed only where the policy allows it. From any state, the processing of a job calls
-- the tool agent only if the policy, asked about the job's step with some approvals and with the
-- job's subject or else the plan's, decides and allows the step.
pub process_job-IsAllowed :
    (q : PlanQueue) (env : Env) (w : Work) (job : PlanJob) (trace : Option String) (id : String)
    → IsAllowed q w job (process_job q env w job trace id).1
process_job-IsAllowed q env w job trace id = process-IsAllowed q env w job trace id

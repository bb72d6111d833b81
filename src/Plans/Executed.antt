-- ===== src/Plans/Executed.antt =====
-- The execution of a step by services/orchestrator/src/queue/StepConsumer.ts keeps the plans in step.
use Prim.Native.String.{◌++◌ as append_str}
use ai_agent_tool.Common.{
  ◌+◌, Bool, false, ◌&&◌, Option, none, some, List, [], ◌∷◌, String, if◌then◌else◌, ltb, if-cases,
}
use ai_agent_tool.Common.Map
use ai_agent_tool.Common.Map.{Map}
use ai_agent_tool.Plans.Data.{
  PlanStepState, queued, running, retrying, rejected, completed, failed, dead_lettered, PlanSubject,
  PersistedStep,
}
use ai_agent_tool.Plans.Store.{get_entry, get_plan_metadata, set_state, or_else}
use ai_agent_tool.Plans.Service.{PlanJob, get_registry_entry, set_registry_entry, ensure_approvals}
use ai_agent_tool.Plans.Queue.{
  Env, PlanQueue, with_service, with_store, release_next_plan_steps, is_empty_list,
}
use ai_agent_tool.Plans.Completion.{retried, acked, dead_letter, first_given, complete_step}
use ai_agent_tool.Plans.Steps.{
  PolicyAnswer, decides, violates, fails, ToolAnswer, tool_events, tool_error, Work, Outcome, quiet,
  called, settled, emit_job, drop_job, handle_rejection, retry_entry, retry_text, retry_job,
  exhausted_text, handle_tool_error, emit_all, emit_events, terminal_state, is_completed_state,
  finish_job, call_tool, denial, run_permitted, keep_job_subject, begin_state, begin_entry,
  begin_step, is_duplicate, is_step_done, execute_step, claimed, is_taken, process_job,
}
use ai_agent_tool.Plans.Order.{after_purge-IsOrderly, set_state-IsOrderly, remember_step-IsOrderly}
use ai_agent_tool.Plans.Sequence.{
  IsSequential, emit-IsSequential, drop-IsSequential, get_entry-IsOrderly, ensure-IsOrderly,
}
use ai_agent_tool.Plans.Releases.{release-IsSequential}
use ai_agent_tool.Plans.Completed.{complete_step-IsSequential}

abbrev IsSequentialAfter {ℓ} : {A : Type ℓ} → PlanQueue × A → Type 0
IsSequentialAfter p = IsSequential p.0

module _ (env : Env) (w : Work) where
  job-IsSequential :
      (q : PlanQueue) (job : PlanJob) (state : PlanStepState) (summary : Option String)
      → IsSequential q
      → IsSequential (emit_job q env job state summary)
  job-IsSequential q job state summary h =
      emit-IsSequential q env h job.plan_id job.step state summary job.attempt

  dropped-IsSequential :
      (q : PlanQueue) (job : PlanJob) (state : PlanStepState) (summary : Option String)
      → IsSequential q
      → IsSequential (drop_job (emit_job q env job state summary) env job)
  dropped-IsSequential q job state summary h =
      drop-IsSequential (emit_job q env job state summary) env
        (job-IsSequential q job state summary h) job.plan_id job.step.id

  retry-IsSequential :
      (q : PlanQueue) (job : PlanJob) (trace_id message : String)
      → IsSequential q
      → IsSequential (retry_job q env w job trace_id message)
  retry-IsSequential q job trace_id message h =
      let next = record job { attempt = job.attempt + 1 } in
      let q₁ = emit_job q env job retrying (
        some (
          retry_text env w "Retry scheduled (attempt " (job.attempt + 1)
            (append_str "): " message))) in
      let e = retry_entry next trace_id (get_registry_entry q₁.service job.plan_id job.step.id) in
      let q₂ = with_service q₁ (set_registry_entry q₁.service job.plan_id job.step.id e) in
      let q₃ = with_store q₂ (
        set_state q₂.service.store env.now job.plan_id job.step.id queued none
          (some next.attempt)) in
      job-IsSequential q₃ next queued
        (some (retry_text env w "Retry enqueued (attempt " next.attempt ")"))
        (set_state-IsOrderly q₂.service.store env.now
          (job-IsSequential q job retrying
            (some (
              retry_text env w "Retry scheduled (attempt " (job.attempt + 1)
                (append_str "): " message)))
            h)
          job.plan_id job.step.id queued none (some next.attempt))

  error-IsSequential :
      (q : PlanQueue) (job : PlanJob) (trace_id : String) (retryable : Bool) (message : String)
      → IsSequential q
      → IsSequentialAfter (handle_tool_error q env w job trace_id retryable message)
  unfolding handle_tool_error
  error-IsSequential q job trace_id retryable message h =
      let text = exhausted_text env job message in
      let dead : PlanQueue × Outcome = (
        drop_job (emit_job q env job dead_lettered (some text)) env job,
        called (settled w (dead_letter text)),
      ) in
      let over : PlanQueue × Outcome =
        (drop_job (emit_job q env job failed (some message)) env job, called (settled w acked)) in
      if-cases IsSequentialAfter (retryable && ltb job.attempt w.max_retries)
        (retry_job q env w job trace_id message, called retried) (if retryable then dead else over)
        (λ b. retry-IsSequential q job trace_id message h)
        (λ b.
          if-cases IsSequentialAfter retryable dead over
            (λ c. dropped-IsSequential q job dead_lettered (some text) h)
            (λ c. dropped-IsSequential q job failed (some message) h))

  all-IsSequential :
      (q : PlanQueue) (job : PlanJob) (es : List (PlanStepState × Option String))
      → IsSequential q
      → IsSequential (emit_all q env job es)
  unfolding emit_all
  all-IsSequential q job [] h = h
  all-IsSequential q job ((state, summary) ∷ es) h =
      all-IsSequential (emit_job q env job state summary) job es
        (job-IsSequential q job state summary h)

  events-IsSequential :
      (q : PlanQueue) (job : PlanJob) (es : List (PlanStepState × Option String))
      → IsSequential q
      → IsSequential (emit_events q env job es)
  unfolding emit_events
  events-IsSequential q job es h =
      if-cases IsSequential (is_empty_list es)
        (emit_job q env job completed (some "Tool completed")) (emit_all q env job es)
        (λ b. job-IsSequential q job completed (some "Tool completed") h)
        (λ b. all-IsSequential q job es h)

  finish-IsSequential :
      (q : PlanQueue) (job : PlanJob) (trace_id : String) (state : PlanStepState)
      → IsSequential q
      → IsSequentialAfter (finish_job q env w job trace_id state)
  unfolding finish_job
  finish-IsSequential q job trace_id state h =
      let q₁ = complete_step q env job.plan_id job.step.id in
      let done : PlanQueue × Outcome =
        ((release_next_plan_steps q₁ env job.plan_id).0, called acked) in
      let without : PlanQueue × Outcome =
        handle_tool_error q env w job trace_id false w.lock_message in
      if-cases IsSequentialAfter (is_completed_state state) (if env.has_lock then done else without)
        (q, called acked)
        (λ b.
          if-cases IsSequentialAfter env.has_lock done without
            (λ c.
              release-IsSequential env q₁ job.plan_id
                (complete_step-IsSequential env q job.plan_id job.step.id h))
            (λ c. error-IsSequential q job trace_id false w.lock_message h))
        (λ b. h)

  tool-IsSequential :
      (q : PlanQueue) (job : PlanJob) (trace_id : String) (a : ToolAnswer)
      → IsSequential q
      → IsSequentialAfter (call_tool q env w job trace_id a)
  unfolding call_tool
  tool-IsSequential q job trace_id (tool_error retryable message) h =
      error-IsSequential q job trace_id retryable message h
  tool-IsSequential q job trace_id (tool_events es) h =
      let q₁ = emit_events q env job es in
      let q₂ = drop_job q₁ env job in
      let h₂ : IsSequential q₂ =
        drop-IsSequential q₁ env (events-IsSequential q job es h) job.plan_id job.step.id in
      if-cases IsSequentialAfter w.can_settle
        (finish_job q₂ env w job trace_id (terminal_state completed es))
        (handle_tool_error q₂ env w job trace_id false w.settle_message)
        (λ b. finish-IsSequential q₂ job trace_id (terminal_state completed es) h₂)
        (λ b. error-IsSequential q₂ job trace_id false w.settle_message h₂)

  rejection-IsSequential :
      (q : PlanQueue) (job : PlanJob) (summary : String)
      → IsSequential q
      → IsSequentialAfter (handle_rejection q env w job summary)
  rejection-IsSequential q job summary h = dropped-IsSequential q job rejected (some summary) h

  permitted-IsSequential :
      (q : PlanQueue) (job : PlanJob) (trace_id : String) (a : PolicyAnswer)
      → IsSequential q
      → IsSequentialAfter (run_permitted q env w job trace_id a)
  unfolding run_permitted
  permitted-IsSequential q job trace_id fails h = h
  permitted-IsSequential q job trace_id (violates message) h =
      rejection-IsSequential q job message h
  permitted-IsSequential q job trace_id (decides d) h =
      if-cases IsSequentialAfter d.allow (call_tool q env w job trace_id w.tool)
        (handle_rejection q env w job (denial d.deny))
        (λ b. tool-IsSequential q job trace_id w.tool h)
        (λ b. rejection-IsSequential q job (denial d.deny) h)

  state-IsSequential :
      (q : PlanQueue) (job : PlanJob) (o : Option PersistedStep)
      → IsSequential q
      → IsSequential (begin_state q env job o)
  state-IsSequential q job none h = h
  state-IsSequential q job (some e) h =
      set_state-IsOrderly q.service.store env.now h job.plan_id job.step.id running none
        (some job.attempt)

  subject-IsSequential :
      (q : PlanQueue) (job : PlanJob) (o : Option PlanSubject)
      → IsSequential q
      → IsSequential (keep_job_subject q job o)
  subject-IsSequential q job none h = h
  subject-IsSequential q job (some s) h = h

  begin_entry-IsSequential :
      (q : PlanQueue) (job : PlanJob) (trace_id : String) (subject : Option PlanSubject)
      (o : Option PersistedStep)
      → IsSequential q
      → IsSequential (begin_entry q env job trace_id subject o)
  begin_entry-IsSequential q job trace_id subject (some e) h = h
  begin_entry-IsSequential q job trace_id subject none h =
      remember_step-IsOrderly q.service.store env.now h env.uuid job.plan_id job.step trace_id _

  begin-IsSequential :
      (q : PlanQueue) (job : PlanJob) (trace_id : String) (o : Option PersistedStep)
      → IsSequential q
      → IsSequentialAfter (begin_step q env w job trace_id o)
  unfolding begin_step
  begin-IsSequential q job trace_id o h =
      let q₁ = begin_state q env job o in
      let subject = or_else job.subject (Map.get job.plan_id q₁.service.plan_subjects) in
      let q₂ = begin_entry (keep_job_subject q₁ job job.subject) env job trace_id subject o in
      let p = ensure_approvals q₂.service env.now job.plan_id job.step.id in
      let h₂ =
        begin_entry-IsSequential (keep_job_subject q₁ job job.subject) job trace_id subject o
          (subject-IsSequential q₁ job job.subject (state-IsSequential q job o h)) in
      permitted-IsSequential
        (emit_job (with_service q₂ p.0) env job running (some "Dispatching tool agent")) job
        trace_id (w.enforce job.step p.1 subject)
        (job-IsSequential (with_service q₂ p.0) job running (some "Dispatching tool agent")
          (ensure-IsOrderly q₂ env h₂ job.plan_id job.step.id))

  execute-IsSequential :
      (q : PlanQueue) (job : PlanJob) (trace_id : String)
      → IsSequential q
      → IsSequentialAfter (execute_step q env w job trace_id)
  unfolding execute_step get_plan_metadata
  execute-IsSequential q job trace_id h =
      let p = get_plan_metadata q.service.store env.now job.plan_id in
      let q₁ = with_store q p.0 in
      let h₁ : IsSequential q₁ = after_purge-IsOrderly q.service.store env.now h in
      let p' = get_entry q₁.service.store env.now job.plan_id job.step.id in
      let q₂ = with_store q₁ p'.0 in
      let h₂ : IsSequential q₂ = get_entry-IsOrderly q₁ env h₁ job.plan_id job.step.id in
      let twice = is_duplicate (get_registry_entry q₂.service job.plan_id job.step.id) job p'.1 in
      if-cases IsSequentialAfter (is_step_done job.step.id p.1) (q₁, quiet (settled w acked))
        (if twice then (q₂, quiet (settled w acked)) else begin_step q₂ env w job trace_id p'.1)
        (λ b. h₁)
        (λ b.
          if-cases IsSequentialAfter twice (q₂, quiet (settled w acked))
            (begin_step q₂ env w job trace_id p'.1) (λ c. h₂)
            (λ c. begin-IsSequential q₂ job trace_id p'.1 h₂))

  pub process_job-IsSequential :
      (q : PlanQueue) (job : PlanJob) (trace : Option String) (id : String)
      → IsSequential q
      → IsSequentialAfter (process_job q env w job trace id)
  unfolding process_job
  process_job-IsSequential q job trace id h =
      let trace_id = first_given (some job.trace_id ∷ trace ∷ some id ∷ []) in
      let entry = get_registry_entry q.service job.plan_id job.step.id in
      let q' =
        with_service q
          (set_registry_entry q.service job.plan_id job.step.id (claimed job trace_id entry)) in
      if-cases IsSequentialAfter (is_taken job entry) (q, quiet acked)
        (execute_step q' env w job trace_id) (λ b. h) (λ b. execute-IsSequential q' job trace_id h)

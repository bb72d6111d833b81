-- ===== src/Plans/Methods.antt =====
-- Every method of services/orchestrator/src/queue/PlanQueueManager.ts, and every completion that
-- services/orchestrator/src/queue/CompletionConsumer.ts takes in, keeps the plans in step.
use ai_agent_tool.Common.{
  suc, ◌≡◌, refl, sym, ap, ◌∙◌, subst, Bool, true, false, Option, none, some, List, [], ◌∷◌, String,
  arith, if◌then◌else◌, length, map,
}
use ai_agent_tool.Common.Map
use ai_agent_tool.Common.Map.{Map}
use ai_agent_tool.Plans.Data.{PersistedStep, PlanStep, PlanSubject, approved, rejected}
use ai_agent_tool.Plans.Store.{get_entry, remember_plan_metadata, or_else, record_approval}
use ai_agent_tool.Plans.Service.{
  RegistryEntry, PlanStateService, ensure_approvals, get_registry_entry, cache_approvals,
  set_registry_entry,
}
use ai_agent_tool.Plans.Queue.{
  Env, PlanQueue, QueueError, lock_failed, with_service, with_store, emit_plan_event, violation,
  release_next_plan_steps,
}
use ai_agent_tool.Plans.Decisions.{
  Plan, session_of, track_session, keep_subject, submitted_step, submitted, untrack_session,
  submit_plan_steps, ApprovalDecision, approve, reject, find_persisted, find_registered,
  reject_step, reason_of, is_violation, approve_step, decide, resolve_plan_step_approval,
}
use ai_agent_tool.Plans.Order.{
  IsInStep, IsOrderly, record_approval-IsOrderly, remember_plan-IsOrderly,
}
use ai_agent_tool.Plans.Sequence.{
  IsSequential, emit-IsSequential, drop-IsSequential, cleanup-IsSequential, get_entry-IsOrderly,
  ensure-IsOrderly,
}
use ai_agent_tool.Plans.Releases.{release-IsSequential}

length-submitted :
    (env : Env) (r : Option String) (subject : Option PlanSubject) (steps : List PlanStep)
    → length (map (submitted_step env r subject) steps) ≡ length steps
length-submitted env r subject [] = refl
length-submitted env r subject (x ∷ xs) = ap suc (length-submitted env r subject xs)

submitted-IsInStep :
    (env : Env) (plan : Plan) (trace_id : String) (r : Option String) (subject : Option PlanSubject)
    → IsInStep (submitted env plan trace_id r subject)
submitted-IsInStep env plan trace_id r subject = (omega arith, omega arith, omega arith)

pub track_service :
    (q : PlanQueue) (plan_id : String) (o : Option String)
    → (track_session q plan_id o).service ≡ q.service
track_service q plan_id none = refl
track_service q plan_id (some id) = ground arith

keep_store :
    (s : PlanStateService) (plan_id : String) (o : Option PlanSubject)
    → (keep_subject s plan_id o).store ≡ s.store
keep_store s plan_id none = refl
keep_store s plan_id (some subject) = refl

untrack_service :
    (plan_id : String) (o : Option String) (p : PlanQueue × Option QueueError)
    → (untrack_session plan_id o p).0.service ≡ p.0.service
untrack_service plan_id o (q, none) = refl
untrack_service plan_id none (q, some e) = refl
untrack_service plan_id (some id) (q, some e) = ground arith

module _ (env : Env) where
  pub submit-IsSequential :
      (q : PlanQueue) (plan : Plan) (trace_id : String) (r : Option String)
      (subject : Option PlanSubject)
      → IsSequential q
      → IsSequential (submit_plan_steps q env plan trace_id r subject).0
  unfolding submit_plan_steps
  submit-IsSequential q plan trace_id r subject h =
      let session = session_of subject in
      let q₁ = track_session q plan.id session in
      let q₂ = with_service q₁ (keep_subject q₁.service plan.id subject) in
      let m = submitted env plan trace_id r subject in
      let q₃ = with_store q₂ (remember_plan_metadata q₂.service.store env.now plan.id m) in
      let h₂ : IsSequential q₂ =
        subst IsOrderly
          (sym (
            keep_store q₁.service plan.id subject
            ∙ ap (λ s. s.store) (track_service q plan.id session)))
          h in
      let h₃ : IsSequential q₃ =
        remember_plan-IsOrderly q₂.service.store env.now h₂ plan.id m
          (submitted-IsInStep env plan trace_id r subject) in
      let inner : IsSequential
          (if env.has_lock
            then release_next_plan_steps q₃ env plan.id
            else (q₂, some lock_failed)).0 =
        elim env.has_lock
          as (λ b.
            IsSequential
              (if b then release_next_plan_steps q₃ env plan.id else (q₂, some lock_failed)).0) [
                | true ↦ release-IsSequential env q₃ plan.id h₃
                | false ↦ h₂
              ] in
      subst (λ s. IsOrderly s.store) (sym (untrack_service plan.id session _)) inner

  reject-IsSequential :
      (q : PlanQueue) (plan_id step_id : String) (e : RegistryEntry) (summary : Option String)
      → IsSequential q
      → IsSequential (reject_step q env plan_id step_id e summary)
  reject-IsSequential q plan_id step_id e summary h =
      drop-IsSequential (emit_plan_event q env plan_id e.step rejected summary e.job.attempt) env
        (emit-IsSequential q env h plan_id e.step rejected summary e.job.attempt) plan_id step_id

  approve-IsSequential :
      (q : PlanQueue) (plan_id step_id : String) (e : RegistryEntry) (summary : Option String)
      (approvals : Map Bool) (o : Option QueueError)
      → IsSequential q
      → IsSequential (approve_step q env plan_id step_id e summary approvals o).0
  approve-IsSequential q plan_id step_id e summary approvals none h =
      let q₁ = with_service q (record (cache_approvals q.service plan_id step_id approvals) {
        store = record_approval q.service.store env.now plan_id step_id e.step.capability true;
      }) in
      let q₂ = emit_plan_event q₁ env plan_id e.step approved summary e.job.attempt in
      let entry = record e {
        request_id = or_else e.request_id e.job.request_id;
        job = record e.job { created_at = some env.now };
        in_flight = false;
      } in
      release-IsSequential env
        (with_service q₂ (set_registry_entry q₂.service plan_id step_id entry)) plan_id
        (emit-IsSequential q₁ env
          (record_approval-IsOrderly q.service.store env.now h plan_id step_id e.step.capability
            true)
          plan_id e.step approved summary e.job.attempt)
  approve-IsSequential q plan_id step_id e summary approvals (some error) h =
      elim (is_violation error)
        as (λ b.
          IsSequential (if b then reject_step q env plan_id step_id e (reason_of error) else q)) [
            | true ↦ reject-IsSequential q plan_id step_id e (reason_of error) h
            | false ↦ h
          ]

  decide-IsSequential :
      (q : PlanQueue) (plan_id step_id : String) (decision : ApprovalDecision)
      (summary : Option String) (o : Option RegistryEntry)
      → IsSequential q
      → IsSequential (decide q env plan_id step_id decision summary o).0
  decide-IsSequential q plan_id step_id decision summary none h = h
  decide-IsSequential q plan_id step_id reject summary (some e) h =
      let summary' = or_else summary (some "Step rejected") in
      cleanup-IsSequential (reject_step q env plan_id step_id e summary') env
        (reject-IsSequential q plan_id step_id e summary' h) plan_id
  decide-IsSequential q plan_id step_id approve summary (some e) h =
      let p = ensure_approvals q.service env.now plan_id step_id in
      let updated = Map.set e.step.capability true p.1 in
      approve-IsSequential (with_service q p.0) plan_id step_id e
        (or_else summary (some "Approved for execution")) updated
        (violation e.step
          (env.policy e.step updated (or_else e.job.subject (Map.get plan_id p.0.plan_subjects))))
        (ensure-IsOrderly q env h plan_id step_id)

  find_persisted-IsSequential :
      (q : PlanQueue) (plan_id step_id : String) (o : Option PersistedStep)
      → IsSequential q
      → IsSequential (find_persisted q plan_id step_id o).0
  find_persisted-IsSequential q plan_id step_id none h = h
  find_persisted-IsSequential q plan_id step_id (some e) h = h

  find_registered-IsSequential :
      (q : PlanQueue) (plan_id step_id : String) (o : Option RegistryEntry)
      → IsSequential q
      → IsSequential (find_registered q env plan_id step_id o).0
  find_registered-IsSequential q plan_id step_id (some e) h = h
  find_registered-IsSequential q plan_id step_id none h =
      let p = get_entry q.service.store env.now plan_id step_id in
      find_persisted-IsSequential (with_store q p.0) plan_id step_id p.1
        (get_entry-IsOrderly q env h plan_id step_id)

  pub resolve-IsSequential :
      (q : PlanQueue) (plan_id step_id : String) (decision : ApprovalDecision)
      (summary : Option String)
      → IsSequential q
      → IsSequential (resolve_plan_step_approval q env plan_id step_id decision summary).0
  unfolding resolve_plan_step_approval
  resolve-IsSequential q plan_id step_id decision summary h =
      let p =
        find_registered q env plan_id step_id (get_registry_entry q.service plan_id step_id) in
      decide-IsSequential p.0 plan_id step_id decision summary p.1 (
        find_registered-IsSequential q plan_id step_id
          (get_registry_entry q.service plan_id step_id) h)

-- ===== src/Plans/Decisions.antt =====
-- `submitPlanSteps`, `resolvePlanStepApproval` and `rehydratePendingSteps` of
-- services/orchestrator/src/queue/PlanQueueManager.ts.
use Prim.Native.String.{◌++◌ as append_str}
use ai_agent_tool.Common.{
  ◌+◌, Bool, true, false, Option, none, some, List, [], ◌∷◌, String, if◌then◌else◌, map,
}
use ai_agent_tool.Common.Map
use ai_agent_tool.Common.Map.{Map}
use ai_agent_tool.Common.Text.{is_given}
use ai_agent_tool.Plans.Data.{
  PlanStep, PlanStepState, queued, running, waiting_approval, approved, rejected, PlanSubject,
  PersistedStep, PlanStepMetadata, PlanMetadata,
}
use ai_agent_tool.Plans.Store.{
  get_entry, record_approval, remember_plan_metadata, list_active_steps, or_else,
}
use ai_agent_tool.Plans.Service.{
  RegistryEntry, PlanStateService, get_registry_entry, set_registry_entry, cache_approvals,
  ensure_approvals, set_plan_subject, delete_plan_subject, clear_retained_plan_subject,
}
use ai_agent_tool.Plans.Queue.{
  Env, PlanQueue, QueueError, not_available, lock_failed, enqueue_failed, not_permitted,
  with_service, with_store, emit_plan_event, drop_step, release_session, cleanup_plan_session,
  violation, release_next_plan_steps,
}

pub record Plan : Type 0 where
  pub id : String
  pub steps : List PlanStep

abbrev pub session_of : Option PlanSubject → Option String
session_of none = none
session_of (some subject) = subject.session_id

-- The session is tracked, if there is one.
abbrev pub track_session : PlanQueue → String → Option String → PlanQueue
track_session q plan_id session =
    if is_given session
    then (elim session [
      | none ↦ q
      | some id ↦ record q {
        plan_sessions = Map.set plan_id id q.plan_sessions;
        session_ref_counts =
            Map.set id (elim (Map.get id q.session_ref_counts) [ none ↦ 1 | some n ↦ n + 1 ])
              q.session_ref_counts;
      }
    ])
    else record q { plan_sessions = Map.delete plan_id q.plan_sessions }

abbrev pub keep_subject : PlanStateService → String → Option PlanSubject → PlanStateService
keep_subject s plan_id none = clear_retained_plan_subject (delete_plan_subject s plan_id) plan_id
keep_subject s plan_id (some subject) =
    clear_retained_plan_subject (set_plan_subject s plan_id subject) plan_id

abbrev pub submitted_step : Env → Option String → Option PlanSubject → PlanStep → PlanStepMetadata
submitted_step env request_id subject step = record {
  step = step;
  created_at = some env.now;
  attempt = 0;
  request_id = request_id;
  subject = subject;
}

abbrev pub submitted : Env → Plan → String → Option String → Option PlanSubject → PlanMetadata
submitted env plan trace_id request_id subject =
    let request = some (elim request_id [ none ↦ env.uuid | some r ↦ r ]) in
    record {
      plan_id = plan.id;
      trace_id = trace_id;
      request_id = request;
      steps = map (submitted_step env request subject) plan.steps;
      next_step_index = 0;
      completed_up_to = 0;
    }

-- The `catch` of `submitPlanSteps`.
abbrev pub untrack_session :
    String → Option String → PlanQueue × Option QueueError → PlanQueue × Option QueueError
untrack_session plan_id session (q, none) = (q, none)
untrack_session plan_id none (q, some e) = (q, some e)
untrack_session plan_id (some id) (q, some e) = (
  if is_given (some id)
      then (let q' = release_session q id in
          record q' { plan_sessions = Map.delete plan_id q'.plan_sessions })
      else q,
  some e,
)

unfoldable pub submit_plan_steps :
    PlanQueue
    → Env
    → Plan
    → (trace_id : String) (request_id : Option String) (subject : Option PlanSubject)
    → PlanQueue × Option QueueError
submit_plan_steps q env plan trace_id request_id subject =
    let session = session_of subject in
    let q₁ = track_session q plan.id session in
    let q₂ = with_service q₁ (keep_subject q₁.service plan.id subject) in
    let m = submitted env plan trace_id request_id subject in
    let q₃ = with_store q₂ (remember_plan_metadata q₂.service.store env.now plan.id m) in
    untrack_session plan.id session
      (if env.has_lock then release_next_plan_steps q₃ env plan.id else (q₂, some lock_failed))

pub data ApprovalDecision : Type 0 where
  approve reject : ApprovalDecision

abbrev pub persisted_entry : PersistedStep → RegistryEntry
persisted_entry e = record {
  step = e.step;
  trace_id = e.trace_id;
  request_id = e.request_id;
  job = record {
    plan_id = e.plan_id;
    step = e.step;
    attempt = e.attempt;
    created_at = e.created_at;
    trace_id = e.trace_id;
    request_id = e.request_id;
    subject = none;
  };
  in_flight = false;
}

-- The registered step, which is registered from the store if need be.
abbrev pub find_persisted :
    PlanQueue → String → String → Option PersistedStep → PlanQueue × Option RegistryEntry
find_persisted q plan_id step_id none = (q, none)
find_persisted q plan_id step_id (some e) = (
  with_service q (set_registry_entry q.service plan_id step_id (persisted_entry e)),
  some (persisted_entry e),
)

abbrev pub find_registered :
    PlanQueue → Env → String → String → Option RegistryEntry → PlanQueue × Option RegistryEntry
find_registered q env plan_id step_id (some entry) = (q, some entry)
find_registered q env plan_id step_id none =
    let (store, persisted) = get_entry q.service.store env.now plan_id step_id in
    find_persisted (with_store q store) plan_id step_id persisted

abbrev pub reject_step :
    PlanQueue → Env → String → String → RegistryEntry → Option String → PlanQueue
reject_step q env plan_id step_id e summary =
    drop_step (emit_plan_event q env plan_id e.step rejected summary e.job.attempt) env plan_id
      step_id

-- `map(d => d.reason).join("; ")`.
abbrev pub join : List String → String
join [] = ""
join (r ∷ []) = r
join (r ∷ r' ∷ rs) = append_str r (append_str "; " (join (r' ∷ rs)))

abbrev pub reason_of : QueueError → Option String
reason_of e = elim e [ not_permitted reasons ↦ some (join reasons) | _ ↦ none ]

abbrev pub is_violation : QueueError → Bool
is_violation e = elim e [ not_permitted reasons ↦ true | _ ↦ false ]

abbrev pub approve_step :
    PlanQueue
    → Env
    → String
    → String
    → RegistryEntry
    → Option String
    → Map Bool
    → Option QueueError
    → PlanQueue × Option QueueError
approve_step q env plan_id step_id e summary approvals (some error) = (
  if is_violation error then reject_step q env plan_id step_id e (reason_of error) else q,
  some error,
)
approve_step q env plan_id step_id e summary approvals none =
    let s = cache_approvals q.service plan_id step_id approvals in
    let s' = record s {
      store = record_approval s.store env.now plan_id step_id e.step.capability true;
    } in
    let q' =
      emit_plan_event (with_service q s') env plan_id e.step approved summary e.job.attempt in
    let request = or_else e.request_id e.job.request_id in
    let job = record e.job { created_at = some env.now } in
    release_next_plan_steps
      (with_service q' (
        set_registry_entry q'.service plan_id step_id
          (record e { request_id = request; job = job; in_flight = false })))
      env plan_id

abbrev pub decide :
    PlanQueue
    → Env
    → String
    → String
    → ApprovalDecision
    → Option String
    → Option RegistryEntry
    → PlanQueue × Option QueueError
decide q env plan_id step_id decision summary none = (q, some not_available)
decide q env plan_id step_id reject summary (some e) = (
  cleanup_plan_session
      (reject_step q env plan_id step_id e (or_else summary (some "Step rejected"))) plan_id,
  none,
)
decide q env plan_id step_id approve summary (some e) =
    let (s, approvals) = ensure_approvals q.service env.now plan_id step_id in
    let updated = Map.set e.step.capability true approvals in
    approve_step (with_service q s) env plan_id step_id e
      (or_else summary (some "Approved for execution")) updated
      (violation e.step
        (env.policy e.step updated (or_else e.job.subject (Map.get plan_id s.plan_subjects))))

unfoldable pub resolve_plan_step_approval :
    PlanQueue
    → Env
    → (plan_id step_id : String) → ApprovalDecision
    → (summary : Option String) → PlanQueue × Option QueueError
resolve_plan_step_approval q env plan_id step_id decision summary =
    let (q', entry) =
      find_registered q env plan_id step_id (get_registry_entry q.service plan_id step_id) in
    decide q' env plan_id step_id decision summary entry

-- One step of `rehydratePendingSteps`, that is not registered.
abbrev pub requeued : PlanQueue → Env → PersistedStep → PlanStepState → PlanQueue
requeued q env e state = elim state [
  | running ↦
      emit_plan_event q env e.plan_id e.step queued
        (some (append_str "Retry enqueued (attempt " (append_str (env.number e.attempt) ")")))
        e.attempt
  | _ ↦ q
]

abbrev pub enqueue_again : PlanQueue → Env → PersistedStep → PlanQueue × Option QueueError
enqueue_again q env e =
    if env.can_enqueue
    then (
      requeued (record q { enqueued = (persisted_entry e).job ∷ q.enqueued }) env e e.state,
      none,
    )
    else (q, some enqueue_failed)

abbrev pub rehydrate_state :
    PlanQueue → Env → PersistedStep → PlanStepState → PlanQueue × Option QueueError
rehydrate_state q env e state = elim state [
  | waiting_approval ↦ (
    emit_plan_event q env e.plan_id e.step waiting_approval (some "Awaiting approval (rehydrated)")
        e.attempt,
    none,
  )
  | running ↦ enqueue_again q env e
  | queued ↦ enqueue_again q env e
  | _ ↦ (q, none)
]

abbrev pub track_again : PlanQueue → String → Option String → PlanQueue
track_again q plan_id session = if is_given session then track_session q plan_id session else q

abbrev pub rehydrate_step :
    PlanQueue → Env → PersistedStep → Option RegistryEntry → PlanQueue × Option QueueError
rehydrate_step q env e (some entry) = (q, none)
rehydrate_step q env e none =
    let q' = track_again q e.plan_id (session_of e.subject) in
    rehydrate_state
      (with_service q' (set_registry_entry q'.service e.plan_id e.step.id (persisted_entry e))) env
      e e.state

abbrev pub then_rehydrate :
    (PlanQueue → PlanQueue × Option QueueError)
    → PlanQueue × Option QueueError
    → PlanQueue × Option QueueError
then_rehydrate go (q, none) = go q
then_rehydrate go (q, some e) = (q, some e)

unfoldable pub rehydrate_all : PlanQueue → Env → List PersistedStep → PlanQueue × Option QueueError
rehydrate_all q env [] = (q, none)
rehydrate_all q env (e ∷ es) =
    then_rehydrate (λ q'. rehydrate_all q' env es)
      (rehydrate_step q env e (get_registry_entry q.service e.plan_id e.step.id))

unfoldable pub rehydrate_pending_steps : PlanQueue → Env → PlanQueue × Option QueueError
unfolding rehydrate_all
rehydrate_pending_steps q env =
    let (store, pending) = list_active_steps q.service.store env.now in
    rehydrate_all (with_store q store) env pending

-- ===== src/Plans/Queue.antt =====
-- `PlanQueueManager` of services/orchestrator/src/queue/PlanQueueManager.ts, once initialized: the
-- submission of plans, the release of their steps and the decisions on approvals. A method runs
-- from its start to its end; its clock is read once, and what the world around it does (the policy,
-- the plan lock, the queue) is its argument.
use ai_agent_tool.Common.{
  ℕ, zero, suc, ◌+◌, ◌-◌, Bool, true, false, not, ◌&&◌, ◌||◌, Option, none, some, List, [], ◌∷◌,
  String, if◌then◌else◌, ltb, leb, str_eq, filter, length, get_elem?, set,
}
use ai_agent_tool.Common.Map
use ai_agent_tool.Common.Map.{Map}
use ai_agent_tool.Common.Text.{is_given}
use ai_agent_tool.Plans.Data.{
  PlanStep, PlanStepState, queued, running, retrying, waiting_approval, PlanSubject, PersistedStep,
  PlanStepMetadata, PlanMetadata,
}
use ai_agent_tool.Plans.Store.{
  PlanStateStore, to_key, get_entry, set_state, remember_step, forget_step, get_plan_metadata,
  remember_plan_metadata, forget_plan_metadata, or_else,
}
use ai_agent_tool.Plans.Service.{
  PlanJob, RegistryEntry, PlanStateService, set_registry_entry, delete_registry_entry,
  cache_approvals, clear_approvals, ensure_approvals, prune_plan_subject,
}

-- What `enforcePlanStep` answers: whether it allows, and its reasons to deny.
pub record PolicyDecision : Type 0 where
  pub allow : Bool
  pub deny : List String

pub data QueueError : Type 0 where
  not_available lock_failed policy_failed enqueue_failed : QueueError
  not_permitted : (reasons : List String) → QueueError

-- The world around one call of a method.
pub record Env : Type 0 where
  pub now : ℕ
  pub uuid : String
  -- Whether the plan's lock is had: by the method that is called, and then by the release.
  pub has_lock : Bool
  pub has_release_lock : Bool
  -- None where the enforcement throws.
  pub policy : PlanStep → Map Bool → Option PlanSubject → Option PolicyDecision
  pub can_enqueue : Bool
  -- How a number is written in a text.
  pub number : ℕ → String

pub record PlanQueue : Type 0 where
  pub service : PlanStateService
  -- The jobs put on the queue of steps, the newest first.
  pub enqueued : List PlanJob
  -- The published events: plan, step and state, the newest first.
  pub events : List (String × (String × PlanStepState))
  pub plan_sessions : Map String
  pub session_ref_counts : Map ℕ
  -- The sessions whose file locks were released, the newest first.
  pub released_sessions : List String

abbrev pub with_service : PlanQueue → PlanStateService → PlanQueue
with_service q s = record q { service = s }

abbrev pub with_store : PlanQueue → PlanStateStore → PlanQueue
with_store q store = record q { service = record q.service { store = store } }

abbrev pub emit_plan_event :
    PlanQueue → Env → String → PlanStep → PlanStepState → (summary : Option String) → ℕ → PlanQueue
emit_plan_event q env plan_id step state summary attempt =
    let q' =
      with_store q
        (set_state q.service.store env.now plan_id step.id state summary (some attempt)) in
    record q' { events = (plan_id, (step.id, state)) ∷ q'.events }

-- A step is over: it is no longer registered, its approvals and its entry are gone.
abbrev pub drop_step : PlanQueue → Env → String → String → PlanQueue
drop_step q env plan_id step_id =
    let s = clear_approvals (delete_registry_entry q.service plan_id step_id) plan_id step_id in
    with_service q (
      prune_plan_subject (record s { store = forget_step s.store env.now plan_id step_id }) plan_id)

abbrev pub count_of : Option ℕ → ℕ
count_of none = 1
count_of (some n) = n

abbrev pub release_session : PlanQueue → String → PlanQueue
release_session q session =
    let remaining = count_of (Map.get session q.session_ref_counts) - 1 in
    if leb remaining 0
    then record q {
      released_sessions = session ∷ q.released_sessions;
      session_ref_counts = Map.delete session q.session_ref_counts;
    }
    else record q { session_ref_counts = Map.set session remaining q.session_ref_counts }

abbrev pub cleanup_found : PlanQueue → String → Option String → PlanQueue
cleanup_found q plan_id none = q
cleanup_found q plan_id (some session) =
    let q' = release_session q session in
    if is_given (some session)
    then record q' { plan_sessions = Map.delete plan_id q'.plan_sessions }
    else q

unfoldable pub cleanup_plan_session : PlanQueue → (plan_id : String) → PlanQueue
cleanup_plan_session q plan_id = cleanup_found q plan_id (Map.get plan_id q.plan_sessions)

-- `canReleaseNextStep`.
abbrev pub can_release_next_step : PlanMetadata → Bool
can_release_next_step m =
    ltb m.next_step_index (length m.steps) && leb m.next_step_index m.completed_up_to

abbrev pub is_active : Option PersistedStep → Bool
is_active none = false
is_active (some e) = elim e.state [ queued ↦ true | running ↦ true | retrying ↦ true | _ ↦ false ]

abbrev pub job_of :
    Env → PlanQueue → String → PlanMetadata → PlanStepMetadata → Option PersistedStep → PlanJob
job_of env q plan_id m e existing = record {
  plan_id = plan_id;
  step = e.step;
  attempt = elim existing [ none ↦ e.attempt | some x ↦ x.attempt ];
  created_at = elim existing [ none ↦ e.created_at | some x ↦ x.created_at ];
  trace_id = m.trace_id;
  request_id = some (elim (or_else m.request_id e.request_id) [ none ↦ env.uuid | some r ↦ r ]);
  subject = or_else e.subject (
      or_else (elim existing [ none ↦ none | some x ↦ x.subject ])
        (Map.get plan_id q.service.plan_subjects));
}

-- The plan's metadata with what the job settles.
abbrev pub settle_metadata : PlanMetadata → PlanStepMetadata → PlanJob → PlanMetadata
settle_metadata m e job = record m {
  request_id = job.request_id;
  steps = set m.steps m.next_step_index (record e {
    attempt = job.attempt;
    created_at = job.created_at;
    request_id = job.request_id;
    subject = job.subject;
  });
}

abbrev pub is_blocking : String → Bool
is_blocking reason = not (str_eq reason "approval_required")

abbrev pub is_empty_list {ℓ} : {A : Type ℓ} → List A → Bool
is_empty_list [] = true
is_empty_list (x ∷ xs) = false

-- None where the step is permitted, perhaps after an approval.
abbrev pub violation : PlanStep → Option PolicyDecision → Option QueueError
violation step none = some policy_failed
violation step (some d) =
    if not d.allow
      && (not (is_empty_list (filter is_blocking d.deny)) || not step.approval_required)
    then some (not_permitted d.deny)
    else none

abbrev pub is_granted : Map Bool → String → Bool
is_granted approvals capability = elim (Map.get capability approvals) [ none ↦ false | some b ↦ b ]

abbrev pub registered : PlanJob → RegistryEntry
registered job = record {
  step = job.step;
  trace_id = job.trace_id;
  request_id = job.request_id;
  job = job;
  in_flight = false;
}

-- `rememberStep`, where the step has no entry yet.
abbrev pub remember_new :
    PlanQueue → Env → PlanJob → PlanStepState → Map Bool → Option PersistedStep → PlanQueue
remember_new q env job state approvals (some e) = q
remember_new q env job state approvals none = with_store q (
    remember_step q.service.store env.now env.uuid job.plan_id job.step job.trace_id (record {
      initial_state = some state;
      idempotency_key = to_key job.plan_id job.step.id;
      attempt = job.attempt;
      created_at = job.created_at;
      request_id = job.request_id;
      approvals = some approvals;
      subject = job.subject;
    }))

abbrev pub await_approval : PlanQueue → Env → PlanJob → Map Bool → Option PersistedStep → PlanQueue
await_approval q env job approvals (some e) = q
await_approval q env job approvals none =
    emit_plan_event (remember_new q env job waiting_approval approvals none) env job.plan_id
      job.step waiting_approval (some "Awaiting approval") job.attempt

-- What a step of the loop comes to: it goes on, it is left, or it throws.
pub data Released : Type 0 where
  goes_on stops : PlanQueue → PlanMetadata → Released
  throws : PlanQueue → QueueError → Released

abbrev pub enqueue_step :
    PlanQueue → Env → PlanMetadata → PlanJob → Map Bool → Option PersistedStep → Released
enqueue_step q env m job approvals existing =
    let q₁ = with_service q (cache_approvals q.service job.plan_id job.step.id approvals) in
    let q₂ = remember_new q₁ env job queued approvals existing in
    if env.can_enqueue
    then goes_on
        (emit_plan_event (record q₂ { enqueued = job ∷ q₂.enqueued }) env job.plan_id job.step
          queued (some "Queued for execution") job.attempt)
        (record m { next_step_index = m.next_step_index + 1 })
    else throws (drop_step q₂ env job.plan_id job.step.id) enqueue_failed

abbrev pub release_permitted :
    PlanQueue
    → Env
    → PlanMetadata
    → PlanJob
    → Map Bool
    → Option PersistedStep
    → Option QueueError
    → Released
release_permitted q env m job approvals existing (some e) = throws q e
release_permitted q env m job approvals existing none =
    let q' =
      with_service q (set_registry_entry q.service job.plan_id job.step.id (registered job)) in
    if job.step.approval_required && not (is_granted approvals job.step.capability)
    then stops (await_approval q' env job approvals existing) m
    else enqueue_step q' env m job approvals existing

abbrev pub release_entry :
    PlanQueue → Env → String → PlanMetadata → PlanStepMetadata → Option PersistedStep → Released
release_entry q env plan_id m e existing =
    if is_active existing
    then stops q m
    else (let job = job_of env q plan_id m e existing in
        let (s, approvals) = ensure_approvals q.service env.now plan_id e.step.id in
        release_permitted (with_service q s) env (settle_metadata m e job) job approvals existing
          (violation e.step (env.policy e.step approvals job.subject)))

abbrev pub release_found :
    PlanQueue → Env → String → PlanMetadata → Option PlanStepMetadata → Released
release_found q env plan_id m none = stops q m
release_found q env plan_id m (some e) =
    let (store, existing) = get_entry q.service.store env.now plan_id e.step.id in
    release_entry (with_store q store) env plan_id m e existing

-- One round of the loop.
unfoldable pub release_step : PlanQueue → Env → (plan_id : String) → PlanMetadata → Released
release_step q env plan_id m =
    if can_release_next_step m
    then release_found q env plan_id m (get_elem? m.steps m.next_step_index)
    else stops q m

abbrev pub then_release : (PlanQueue → PlanMetadata → Released) → Released → Released
then_release go (goes_on q m) = go q m
then_release go (stops q m) = stops q m
then_release go (throws q e) = throws q e

-- The loop. Fuel: each round goes one step on.
unfoldable pub release_loop :
    (fuel : ℕ) → PlanQueue → Env → (plan_id : String) → PlanMetadata → Released
release_loop zero q env plan_id m = stops q m
release_loop (suc fuel) q env plan_id m =
    then_release (λ q' m'. release_loop fuel q' env plan_id m') (release_step q env plan_id m)

abbrev pub is_completed : PlanMetadata → Bool
is_completed m = leb (length m.steps) m.next_step_index && leb (length m.steps) m.completed_up_to

unfoldable pub end_release : Env → String → Released → PlanQueue × Option QueueError
unfolding cleanup_plan_session
end_release env plan_id (goes_on q m) = (q, none)
end_release env plan_id (throws q e) = (q, some e)
end_release env plan_id (stops q m) = (
  if is_completed m
      then cleanup_plan_session
          (with_store q (forget_plan_metadata q.service.store env.now plan_id)) plan_id
      else with_store q (remember_plan_metadata q.service.store env.now plan_id m),
  none,
)

unfoldable pub release_plan :
    PlanQueue → Env → String → Option PlanMetadata → PlanQueue × Option QueueError
unfolding end_release release_loop
release_plan q env plan_id none = (q, none)
release_plan q env plan_id (some m) =
    end_release env plan_id (release_loop (suc (length m.steps)) q env plan_id m)

unfoldable pub release_next_plan_steps :
    PlanQueue → Env → (plan_id : String) → PlanQueue × Option QueueError
unfolding release_plan
release_next_plan_steps q env plan_id =
    let (store, m) = get_plan_metadata q.service.store env.now plan_id in
    if env.has_release_lock
    then release_plan (with_store q store) env plan_id m
    else (q, some lock_failed)

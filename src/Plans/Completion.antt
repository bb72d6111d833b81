-- ===== src/Plans/Completion.antt =====
-- `processMessage` of services/orchestrator/src/queue/CompletionConsumer.ts: a step's outcome comes in.
-- What the consumer does with the message is its result. Outputs are free-form data and left out, and
-- so is the suppression of an event that repeats the latest one.
use ai_agent_tool.Common.{
  ℕ, ◌+◌, Bool, true, ◌&&◌, Option, none, some, List, [], ◌∷◌, String, if◌then◌else◌, leb, str_eq,
  max,
}
use ai_agent_tool.Common.Map
use ai_agent_tool.Common.Map.{Map}
use ai_agent_tool.Common.Text.{is_empty}
use ai_agent_tool.Plans.Data.{
  PlanStepState, completed, is_terminal, PersistedStep, PlanStepMetadata, PlanMetadata,
}
use ai_agent_tool.Plans.Store.{
  to_key, get_entry, get_plan_metadata, remember_plan_metadata, set_state,
}
use ai_agent_tool.Plans.Service.{RegistryEntry, get_registry_entry, cache_approvals}
use ai_agent_tool.Plans.Queue.{
  Env, PlanQueue, with_service, with_store, drop_step, release_next_plan_steps,
}

pub record CompletionPayload : Type 0 where
  pub plan_id : String
  pub step_id : String
  pub state : PlanStepState
  pub summary : Option String
  pub attempt : Option ℕ
  pub request_id : Option String
  pub trace_id : Option String
  pub approvals : Option (Map Bool)

pub record Message : Type 0 where
  pub id : String
  pub payload : CompletionPayload
  pub headers : Map String

pub data Handled : Type 0 where
  acked retried : Handled
  dead_letter : (reason : String) → Handled

-- A chain of `||`, from the left: the first text that is given, or the empty one.
abbrev pub first_given : List (Option String) → String
first_given [] = ""
first_given (none ∷ l) = first_given l
first_given (some t ∷ l) = let rest = first_given l in if is_empty t then rest else t

abbrev pub received_trace_id : Message → String
received_trace_id m = first_given (
    m.payload.trace_id
    ∷ Map.get "trace-id" m.headers
    ∷ Map.get "traceId" m.headers
    ∷ Map.get "Trace-Id" m.headers
    ∷ [])

abbrev pub received_idempotency_key : Message → String
received_idempotency_key m = first_given (
    Map.get "x-idempotency-key" m.headers
    ∷ Map.get "idempotency-key" m.headers
    ∷ Map.get "Idempotency-Key" m.headers
    ∷ [])

-- What the state knows of a step: its registered entry, else its entry in the store.
pub data Known : Type 0 where
  in_registry : RegistryEntry → Known
  in_store : PersistedStep → Known
  unknown : Known

abbrev pub expected_trace_id : Known → String
expected_trace_id (in_registry e) = e.trace_id
expected_trace_id (in_store e) = e.trace_id
expected_trace_id unknown = ""

abbrev pub expected_idempotency_key : String → Known → String
expected_idempotency_key key (in_registry e) = key
expected_idempotency_key key (in_store e) = e.idempotency_key
expected_idempotency_key key unknown = ""

-- A text that is expected is received.
abbrev pub is_expected : (expected received : String) → Bool
is_expected expected received = if is_empty expected then true else str_eq expected received

-- `!enforceMetadata || metadataMatches`.
abbrev pub metadata_matches :
    (expected_trace received_trace expected_key received_key : String) → Bool
metadata_matches expected_trace received_trace expected_key received_key =
    is_expected expected_trace received_trace && is_expected expected_key received_key

abbrev pub one_on : Option ℕ → Option ℕ
one_on none = none
one_on (some i) = some (i + 1)

-- `steps.findIndex(entry => entry.step.id === stepId)`.
abbrev pub find_index : List PlanStepMetadata → String → Option ℕ
find_index [] id = none
find_index (e ∷ es) id =
    let rest = one_on (find_index es id) in if str_eq e.step.id id then some 0 else rest

abbrev pub advance : PlanMetadata → ℕ → PlanMetadata
advance m index = record m {
  completed_up_to = max m.completed_up_to (index + 1);
  next_step_index = if leb m.next_step_index index then index + 1 else m.next_step_index;
}

abbrev pub advance_found : PlanQueue → Env → String → PlanMetadata → Option ℕ → PlanQueue
advance_found q env plan_id m none = q
advance_found q env plan_id m (some index) =
    with_store q (remember_plan_metadata q.service.store env.now plan_id (advance m index))

abbrev pub complete_in : PlanQueue → Env → String → String → Option PlanMetadata → PlanQueue
complete_in q env plan_id step_id none = q
complete_in q env plan_id step_id (some m) =
    advance_found q env plan_id m (find_index m.steps step_id)

-- The step is marked as completed, under the plan's lock.
unfoldable pub complete_step : PlanQueue → Env → (plan_id step_id : String) → PlanQueue
complete_step q env plan_id step_id =
    let (store, m) = get_plan_metadata q.service.store env.now plan_id in
    complete_in (with_store q store) env plan_id step_id m

abbrev pub attempt_of : CompletionPayload → Known → ℕ
attempt_of p (in_registry e) = elim p.attempt [ none ↦ e.job.attempt | some n ↦ n ]
attempt_of p (in_store e) = elim p.attempt [ none ↦ e.attempt | some n ↦ n ]
attempt_of p unknown = elim p.attempt [ none ↦ 0 | some n ↦ n ]

-- The approvals in the store are cached, where the step is not registered.
abbrev pub recall_approvals : PlanQueue → String → String → Known → PlanQueue
recall_approvals q plan_id step_id (in_registry e) = q
recall_approvals q plan_id step_id unknown = q
recall_approvals q plan_id step_id (in_store e) = elim e.approvals [
  | none ↦ q
  | some approvals ↦ with_service q (cache_approvals q.service plan_id step_id approvals)
]

-- The step's new state, in the store and as an event.
abbrev pub emit_outcome : PlanQueue → Env → CompletionPayload → ℕ → PlanQueue
emit_outcome q env p attempt =
    let q' =
      with_store q
        (set_state q.service.store env.now p.plan_id p.step_id p.state p.summary (some attempt)) in
    record q' { events = (p.plan_id, (p.step_id, p.state)) ∷ q'.events }

-- A completed step lets the plan go on; an error of the release is only logged.
abbrev pub finish_step : PlanQueue → Env → CompletionPayload → PlanStepState → PlanQueue × Handled
finish_step q env p state = elim state [
  | completed ↦
      if env.has_lock
      then (let q' =
            (release_next_plan_steps (complete_step q env p.plan_id p.step_id) env p.plan_id).0 in
          (drop_step q' env p.plan_id p.step_id, acked))
      else (q, retried)
  | other ↦ (if is_terminal other then drop_step q env p.plan_id p.step_id else q, acked)
]

abbrev pub accept : PlanQueue → Env → CompletionPayload → Known → PlanQueue × Handled
accept q env p known =
    let q' = recall_approvals q p.plan_id p.step_id known in
    finish_step (emit_outcome q' env p (attempt_of p known)) env p p.state

abbrev pub process_known : PlanQueue → Env → Message → Known → PlanQueue × Handled
process_known q env m unknown = (q, dead_letter "unknown_step")
process_known q env m known =
    if metadata_matches (expected_trace_id known) (received_trace_id m)
      (expected_idempotency_key (to_key m.payload.plan_id m.payload.step_id) known)
      (received_idempotency_key m)
    then accept q env m.payload known
    else (q, dead_letter "metadata_mismatch")

abbrev pub known_of : Option PersistedStep → Known
known_of none = unknown
known_of (some e) = in_store e

abbrev pub process_found : PlanQueue → Env → Message → Option RegistryEntry → PlanQueue × Handled
process_found q env m (some e) = process_known q env m (in_registry e)
process_found q env m none =
    let (store, persisted) =
      get_entry q.service.store env.now m.payload.plan_id m.payload.step_id in
    process_known (with_store q store) env m (known_of persisted)

unfoldable pub process_message : PlanQueue → Env → Message → PlanQueue × Handled
process_message q env m =
    process_found q env m (get_registry_entry q.service m.payload.plan_id m.payload.step_id)

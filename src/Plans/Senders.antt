-- ===== src/Plans/Senders.antt =====
-- Which completions services/orchestrator/src/queue/CompletionConsumer.ts takes in.
use ai_agent_tool.Common.{
  ◌≡◌, ◌⊎◌, inl, inr, refl, Bool, true, false, ◌&&◌, Option, none, some, String, arith, str_eq,
  Bool-cases, if-cases, eq_iff,
}
use ai_agent_tool.Plans.Data.{PersistedStep}
use ai_agent_tool.Plans.Store.{to_key, get_entry}
use ai_agent_tool.Plans.Service.{RegistryEntry, get_registry_entry}
use ai_agent_tool.Plans.Queue.{Env, PlanQueue, with_store}
use ai_agent_tool.Plans.Completion.{
  Message, Handled, dead_letter, Known, in_registry, in_store, unknown, process_known, known_of,
  process_found, process_message, metadata_matches, expected_trace_id, expected_idempotency_key,
  received_trace_id, received_idempotency_key,
}
use ai_agent_tool.Plans.Store.{after_purge}
use ai_agent_tool.Plans.Completion.{is_expected}
use ai_agent_tool.Common.Text.{is_empty}

-- A text that the state has is the one that is received.
abbrev pub IsSame : (expected received : String) → Type 0
IsSame expected received = (is_empty expected ≡ true) ⊎ (expected ≡ received)

-- The message has what the state has for its step.
abbrev pub IsFrom : Message → Known → Type 0
IsFrom m known =
    IsSame (expected_trace_id known) (received_trace_id m)
    × IsSame (expected_idempotency_key (to_key m.payload.plan_id m.payload.step_id) known)
        (received_idempotency_key m)

-- The state has the step, in its registry or else in its store.
abbrev pub IsKnown : PlanQueue → Env → Message → Known → Type 0
IsKnown q env m (in_registry e) =
    get_registry_entry q.service m.payload.plan_id m.payload.step_id ≡ some e
IsKnown q env m (in_store e) =
    (get_registry_entry q.service m.payload.plan_id m.payload.step_id ≡ none)
    × ((get_entry q.service.store env.now m.payload.plan_id m.payload.step_id).1 ≡ some e)
IsKnown q env m unknown = ⊥

-- Only expired entries may be gone.
abbrev pub IsUntouched : PlanQueue → Env → PlanQueue → Type 0
IsUntouched q env q' = (q' ≡ q) ⊎ (q' ≡ with_store q (after_purge q.service.store env.now))

-- The message is refused without effect, or it is from who runs the step.
abbrev pub IsAuthentic : PlanQueue → Env → Message → PlanQueue × Handled → Type 0
IsAuthentic q env m (q', handled) =
    (IsUntouched q env q' × ((reason : String) × (handled ≡ dead_letter reason)))
    ⊎ ((known : Known) × IsKnown q env m known × IsFrom m known)

expected-IsSame :
    (expected received : String) → is_expected expected received ≡ true → IsSame expected received
expected-IsSame expected received e = elim (Bool-cases (is_empty expected)) [
  | inl b ↦ inl b
  | inr b ↦
      (let same : str_eq expected received ≡ true = ground (arith, e, b) in
        inr ((eq_iff expected received).0 same))
]

both-true : (a b : Bool) → (a && b) ≡ true → (a ≡ true) × (b ≡ true)
both-true true true e = (refl, refl)
both-true true false e = (refl, e)
both-true false b e = (e, ground (arith, e))

matches-IsFrom :
    (m : Message) (known : Known)
    → metadata_matches
        (expected_trace_id known)
        (received_trace_id m)
        (expected_idempotency_key (to_key m.payload.plan_id m.payload.step_id) known)
        (received_idempotency_key m)
      ≡ true
    → IsFrom m known
matches-IsFrom m known e =
    let trace = is_expected (expected_trace_id known) (received_trace_id m) in
    let key =
      is_expected (expected_idempotency_key (to_key m.payload.plan_id m.payload.step_id) known)
        (received_idempotency_key m) in
    let both : (trace ≡ true) × (key ≡ true) = both-true trace key e in
    (expected-IsSame _ _ both.0, expected-IsSame _ _ both.1)

known-IsAuthentic :
    (q q' : PlanQueue) (env : Env) (m : Message) (known : Known)
    → IsUntouched q env q'
    → IsKnown q env m known
    → IsAuthentic q env m (process_known q' env m known)
known-IsAuthentic q q' env m unknown u k = inl (u, ("unknown_step", refl))
known-IsAuthentic q q' env m (in_registry e) u k =
    if-cases (IsAuthentic q env m) _ _ _
      (λ b. inr (in_registry e, k, matches-IsFrom m (in_registry e) b))
      (λ b. inl (u, ("metadata_mismatch", refl)))
known-IsAuthentic q q' env m (in_store e) u k =
    if-cases (IsAuthentic q env m) _ _ _ (λ b. inr (in_store e, k, matches-IsFrom m (in_store e) b))
      (λ b. inl (u, ("metadata_mismatch", refl)))

stored-IsAuthentic :
    (q : PlanQueue) (env : Env) (m : Message) (o : Option PersistedStep)
    → get_registry_entry q.service m.payload.plan_id m.payload.step_id ≡ none
    → (get_entry q.service.store env.now m.payload.plan_id m.payload.step_id).1 ≡ o
    → IsAuthentic q env m
        (process_known (with_store q (after_purge q.service.store env.now)) env m (known_of o))
stored-IsAuthentic q env m none r e = inl (inr refl, ("unknown_step", refl))
stored-IsAuthentic q env m (some x) r e =
    known-IsAuthentic q (with_store q (after_purge q.service.store env.now)) env m (in_store x)
      (inr refl) (r, e)

found-IsAuthentic :
    (q : PlanQueue) (env : Env) (m : Message) (o : Option RegistryEntry)
    → get_registry_entry q.service m.payload.plan_id m.payload.step_id ≡ o
    → IsAuthentic q env m (process_found q env m o)
unfolding get_entry
found-IsAuthentic q env m (some e) r = known-IsAuthentic q q env m (in_registry e) (inl refl) r
found-IsAuthentic q env m none r =
    let p = get_entry q.service.store env.now m.payload.plan_id m.payload.step_id in
    stored-IsAuthentic q env m p.1 r refl

-- A completion is taken in only from who runs the step. A message for a step that neither the
-- registry nor the store has, or whose trace id or idempotency key is not the one the state has for
-- the step, where it has one that is not empty, becomes a dead letter and changes nothing, except
-- that expired entries may be purged.
pub process-IsAuthentic :
    (q : PlanQueue) (env : Env) (m : Message) → IsAuthentic q env m (process_message q env m)
unfolding process_message
process-IsAuthentic q env m =
    found-IsAuthentic q env m (get_registry_entry q.service m.payload.plan_id m.payload.step_id)
      refl

-- ===== src/Plans/Gone.antt =====
-- What services/orchestrator/src/queue/PlanQueueManager.ts and
-- services/orchestrator/src/queue/CompletionConsumer.ts leave of a step that is over.
use ai_agent_tool.Common.{
  ℕ, ◌≡◌, refl, sym, ap, ◌∙◌, subst, Bool, true, false, Option, none, some, String, arith, if-cases,
  if◌then◌else◌,
}
use ai_agent_tool.Common.Map
use ai_agent_tool.Common.Map.{Map}
use ai_agent_tool.Plans.Data.{PersistedStep, PlanStepState, rejected, completed, is_terminal}
use ai_agent_tool.Plans.Store.{PlanStateStore, to_key, get_entry, or_else, persist_if}
use ai_agent_tool.Plans.Service.{RegistryEntry, PlanStateService, get_registry_entry}
use ai_agent_tool.Plans.Queue.{
  Env, PlanQueue, with_service, with_store, emit_plan_event, drop_step, cleanup_plan_session,
  release_next_plan_steps,
}
use ai_agent_tool.Plans.Decisions.{
  reject, find_persisted, find_registered, reject_step, decide, resolve_plan_step_approval,
}
use ai_agent_tool.Plans.Completion.{
  CompletionPayload, Message, Handled, acked, retried, dead_letter, Known, in_registry, in_store,
  unknown, complete_step, recall_approvals, emit_outcome, attempt_of, finish_step, accept,
  process_known, known_of, process_found, process_message,
}
use ai_agent_tool.Plans.Sequence.{cleanup_service}
use ai_agent_tool.Plans.Permits.{cleanup_enqueued}
use ai_agent_tool.Plans.Service.{prune_plan_subject, delete_registry_entry, clear_approvals}
use ai_agent_tool.Plans.Store.{forget_step, persist, purge_expired}

-- Of the step there is no registered entry, no approval in the cache and no entry in the store.
abbrev pub IsGone : PlanQueue → (plan_id step_id : String) → Type 0
IsGone q plan_id step_id =
    (get_registry_entry q.service plan_id step_id ≡ none)
    × (Map.get (to_key plan_id step_id) q.service.approval_cache ≡ none)
    × (Map.get (to_key plan_id step_id) q.service.store.records ≡ none)

forget_records :
    (s : PlanStateStore) (now : ℕ) (plan_id step_id : String)
    → Map.get (to_key plan_id step_id) (forget_step s now plan_id step_id).records ≡ none
unfolding forget_step persist_if persist
forget_records s now plan_id step_id =
    let key = to_key plan_id step_id in
    let p = purge_expired s now in ground (arith, Map.get-delete_self key p.0.records)

-- Only the subjects change.
prune_rest :
    (s : PlanStateService) (plan_id : String)
    → (((prune_plan_subject s plan_id).step_registry ≡ s.step_registry)
        × ((prune_plan_subject s plan_id).approval_cache ≡ s.approval_cache)
        × ((prune_plan_subject s plan_id).store ≡ s.store))
unfolding prune_plan_subject
prune_rest s plan_id = ground arith

drop_step-IsGone :
    (q : PlanQueue) (env : Env) (plan_id step_id : String)
    → IsGone (drop_step q env plan_id step_id) plan_id step_id
drop_step-IsGone q env plan_id step_id =
    let s = clear_approvals (delete_registry_entry q.service plan_id step_id) plan_id step_id in
    let s' = record s { store = forget_step s.store env.now plan_id step_id } in
    let key = to_key plan_id step_id in
    let rest = prune_rest s' plan_id in
    (
      ap (Map.get key) rest.0 ∙ Map.get-delete_self key q.service.step_registry,
      ap (Map.get key) rest.1 ∙ Map.get-delete_self key q.service.approval_cache,
      ap (λ x. Map.get key x.records) rest.2
          ∙ forget_records q.service.store env.now plan_id step_id,
    )

-- A message that is acknowledged has left nothing of the step.
abbrev IsGoneIfAcked : (plan_id step_id : String) → PlanQueue × Handled → Type 0
IsGoneIfAcked plan_id step_id (q, acked) = IsGone q plan_id step_id
IsGoneIfAcked plan_id step_id (q, retried) = Unit
IsGoneIfAcked plan_id step_id (q, dead_letter reason) = Unit

finish-IsGoneIfAcked :
    (q : PlanQueue) (env : Env) (p : CompletionPayload) (state : PlanStepState)
    → is_terminal state ≡ true
    → IsGoneIfAcked p.plan_id p.step_id (finish_step q env p state)
finish-IsGoneIfAcked q env p state e =
    let q' = (release_next_plan_steps (complete_step q env p.plan_id p.step_id) env p.plan_id).0 in
    elim state
        as (λ s. is_terminal s ≡ true → IsGoneIfAcked p.plan_id p.step_id (finish_step q env p s)) [
          | completed ↦ λ t.
              if-cases (IsGoneIfAcked p.plan_id p.step_id) env.has_lock
                (drop_step q' env p.plan_id p.step_id, acked) (q, retried)
                (λ b. drop_step-IsGone q' env p.plan_id p.step_id) (λ b. tt)
          | other ↦ λ t.
              if-cases (λ q''. IsGone q'' p.plan_id p.step_id) (is_terminal other)
                (drop_step q env p.plan_id p.step_id) q
                (λ b. drop_step-IsGone q env p.plan_id p.step_id) (λ b. ground (arith, b, t))
        ]
      e

accept-IsGoneIfAcked :
    (q : PlanQueue) (env : Env) (p : CompletionPayload) (known : Known)
    → is_terminal p.state ≡ true
    → IsGoneIfAcked p.plan_id p.step_id (accept q env p known)
accept-IsGoneIfAcked q env p known e =
    finish-IsGoneIfAcked
      (emit_outcome (recall_approvals q p.plan_id p.step_id known) env p (attempt_of p known)) env p
      p.state e

matched-IsGoneIfAcked :
    (q : PlanQueue) (env : Env) (p : CompletionPayload) (known : Known) (b : Bool)
    → is_terminal p.state ≡ true
    → IsGoneIfAcked p.plan_id p.step_id
        (if b then accept q env p known else (q, dead_letter "metadata_mismatch"))
matched-IsGoneIfAcked q env p known true e = accept-IsGoneIfAcked q env p known e
matched-IsGoneIfAcked q env p known false e = tt

known-IsGoneIfAcked :
    (q : PlanQueue) (env : Env) (m : Message) (known : Known)
    → is_terminal m.payload.state ≡ true
    → IsGoneIfAcked m.payload.plan_id m.payload.step_id (process_known q env m known)
known-IsGoneIfAcked q env m unknown e = tt
known-IsGoneIfAcked q env m (in_registry r) e =
    matched-IsGoneIfAcked q env m.payload (in_registry r) _ e
known-IsGoneIfAcked q env m (in_store r) e = matched-IsGoneIfAcked q env m.payload (in_store r) _ e

found-IsGoneIfAcked :
    (q : PlanQueue) (env : Env) (m : Message) (o : Option RegistryEntry)
    → is_terminal m.payload.state ≡ true
    → IsGoneIfAcked m.payload.plan_id m.payload.step_id (process_found q env m o)
found-IsGoneIfAcked q env m (some e) t = known-IsGoneIfAcked q env m (in_registry e) t
found-IsGoneIfAcked q env m none t =
    let p = get_entry q.service.store env.now m.payload.plan_id m.payload.step_id in
    known-IsGoneIfAcked (with_store q p.0) env m (known_of p.1) t

acked-IsGone :
    (plan_id step_id : String) (p : PlanQueue × Handled)
    → IsGoneIfAcked plan_id step_id p
    → p.1 ≡ acked
    → IsGone p.0 plan_id step_id
acked-IsGone plan_id step_id (q, acked) g e = g
acked-IsGone plan_id step_id (q, retried) g e = ground (arith, e)
acked-IsGone plan_id step_id (q, dead_letter reason) g e = ground (arith, e)

-- A step that is over leaves nothing. When a completion whose state is a terminal one (completed,
-- failed, rejected or dead-lettered) is acknowledged, the step is no longer registered, none of its
-- approvals are cached, and the store has no entry for it, also where a release follows the step.
pub process-IsGone :
    (q : PlanQueue) (env : Env) (m : Message)
    → is_terminal m.payload.state ≡ true
    → (process_message q env m).1 ≡ acked
    → IsGone (process_message q env m).0 m.payload.plan_id m.payload.step_id
unfolding process_message
process-IsGone q env m t e =
    acked-IsGone m.payload.plan_id m.payload.step_id (process_message q env m)
      (found-IsGoneIfAcked q env m
        (get_registry_entry q.service m.payload.plan_id m.payload.step_id) t)
      e

rejected-IsGone :
    (q : PlanQueue) (env : Env) (plan_id step_id : String) (summary : Option String)
    (o : Option RegistryEntry)
    → (decide q env plan_id step_id reject summary o).1 ≡ none
    → IsGone (decide q env plan_id step_id reject summary o).0 plan_id step_id
      × ((decide q env plan_id step_id reject summary o).0.enqueued ≡ q.enqueued)
unfolding cleanup_plan_session
rejected-IsGone q env plan_id step_id summary none e = ground (arith, e)
rejected-IsGone q env plan_id step_id summary (some r) e =
    let summary' = or_else summary (some "Step rejected") in
    let before = emit_plan_event q env plan_id r.step rejected summary' r.job.attempt in
    let q' = reject_step q env plan_id step_id r summary' in
    (
      subst (λ s. IsGone (with_service q' s) plan_id step_id) (sym (cleanup_service q' plan_id))
          (drop_step-IsGone before env plan_id step_id),
      cleanup_enqueued q' plan_id,
    )

find_persisted_enqueued :
    (q : PlanQueue) (plan_id step_id : String) (o : Option PersistedStep)
    → (find_persisted q plan_id step_id o).0.enqueued ≡ q.enqueued
find_persisted_enqueued q plan_id step_id none = refl
find_persisted_enqueued q plan_id step_id (some e) = refl

find_enqueued :
    (q : PlanQueue) (env : Env) (plan_id step_id : String) (o : Option RegistryEntry)
    → (find_registered q env plan_id step_id o).0.enqueued ≡ q.enqueued
find_enqueued q env plan_id step_id (some e) = refl
find_enqueued q env plan_id step_id none =
    let p = get_entry q.service.store env.now plan_id step_id in
    find_persisted_enqueued (with_store q p.0) plan_id step_id p.1

-- A rejection ends the step. When a rejection of a step succeeds, no job is put on the queue of
-- steps, the step is no longer registered, none of its approvals are cached, and the store has no
-- entry for it.
pub reject-IsGone :
    (q : PlanQueue) (env : Env) (plan_id step_id : String) (summary : Option String)
    → (resolve_plan_step_approval q env plan_id step_id reject summary).1 ≡ none
    → let q' = (resolve_plan_step_approval q env plan_id step_id reject summary).0 in
      IsGone q' plan_id step_id × (q'.enqueued ≡ q.enqueued)
unfolding resolve_plan_step_approval
reject-IsGone q env plan_id step_id summary e =
    let o = get_registry_entry q.service plan_id step_id in
    let p = find_registered q env plan_id step_id o in
    let gone = rejected-IsGone p.0 env plan_id step_id summary p.1 e in
    (gone.0, gone.1 ∙ find_enqueued q env plan_id step_id o)

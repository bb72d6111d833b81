-- ===== src/Plans/Completed.antt =====
-- Every completion that services/orchestrator/src/queue/CompletionConsumer.ts takes in keeps the
-- plans in step.
use ai_agent_tool.Common.{
  ℕ, ◌<◌, ◌≡◌, inl, inr, refl, sym, subst, Bool, true, false, Option, none, some, List, [], ◌∷◌,
  String, arith, Option-cases, if◌then◌else◌, length,
}
use ai_agent_tool.Plans.Data.{PlanMetadata, PlanStepMetadata, PlanStepState, completed, is_terminal}
use ai_agent_tool.Plans.Store.{get_entry, get_plan_metadata}
use ai_agent_tool.Plans.Service.{RegistryEntry, get_registry_entry}
use ai_agent_tool.Plans.Queue.{Env, PlanQueue, with_store, drop_step, release_next_plan_steps}
use ai_agent_tool.Plans.Completion.{
  CompletionPayload, Message, Handled, acked, retried, dead_letter, Known, in_registry, in_store,
  unknown, find_index, advance, advance_found, complete_in, complete_step, recall_approvals,
  emit_outcome, attempt_of, finish_step, accept, process_known, known_of, process_found,
  process_message,
}
use ai_agent_tool.Plans.Order.{
  IsInStep, IsOrderly, after_purge-IsOrderly, set_state-IsOrderly, remember_plan-IsOrderly,
  get_plan-IsInStep,
}
use ai_agent_tool.Plans.Sequence.{IsSequential, drop-IsSequential, get_entry-IsOrderly}
use ai_agent_tool.Plans.Releases.{release-IsSequential}

find_index-lt :
    (es : List PlanStepMetadata) (id : String) (i : ℕ) → find_index es id ≡ some i → i < length es
find_index-lt [] id i e = ground arith
find_index-lt (x ∷ es) id i e = elim (Option-cases (find_index es id)) [
  | inl n ↦ ground (arith, n, e)
  | inr (k, n) ↦ (let ih = find_index-lt es id k n in ground (arith, n, e, ih))
]

advance-IsInStep :
    (m : PlanMetadata) (i : ℕ) → i < length m.steps → IsInStep m → IsInStep (advance m i)
advance-IsInStep m i b h = (ground (arith, h), ground (arith, h), ground (arith, h, b))

module _ (env : Env) where
  advance_found-IsSequential :
      (q : PlanQueue) (plan_id step_id : String) (m : PlanMetadata) (o : Option ℕ)
      → ((i : ℕ) → o ≡ some i → i < length m.steps)
      → IsInStep m
      → IsSequential q
      → IsSequential (advance_found q env plan_id m o)
  advance_found-IsSequential q plan_id step_id m none b i h = h
  advance_found-IsSequential q plan_id step_id m (some index) b i h =
      remember_plan-IsOrderly q.service.store env.now h plan_id (advance m index)
        (advance-IsInStep m index (b index refl) i)

  complete_in-IsSequential :
      (q : PlanQueue) (plan_id step_id : String) (o : Option PlanMetadata)
      → ((m : PlanMetadata) → o ≡ some m → IsInStep m)
      → IsSequential q
      → IsSequential (complete_in q env plan_id step_id o)
  complete_in-IsSequential q plan_id step_id none f h = h
  complete_in-IsSequential q plan_id step_id (some m) f h =
      advance_found-IsSequential q plan_id step_id m (find_index m.steps step_id)
        (λ i e. find_index-lt m.steps step_id i e) (f m refl) h

  pub complete_step-IsSequential :
      (q : PlanQueue) (plan_id step_id : String)
      → IsSequential q
      → IsSequential (complete_step q env plan_id step_id)
  unfolding complete_step get_plan_metadata
  complete_step-IsSequential q plan_id step_id h =
      let p = get_plan_metadata q.service.store env.now plan_id in
      complete_in-IsSequential (with_store q p.0) plan_id step_id p.1
        (λ m e. get_plan-IsInStep q.service.store env.now h plan_id m e)
        (after_purge-IsOrderly q.service.store env.now h)

  recall_service :
      (q : PlanQueue) (plan_id step_id : String) (known : Known)
      → (recall_approvals q plan_id step_id known).service.store ≡ q.service.store
  recall_service q plan_id step_id (in_registry e) = refl
  recall_service q plan_id step_id unknown = refl
  recall_service q plan_id step_id (in_store e) = ground arith

  dropped-IsSequential :
      (q : PlanQueue) (plan_id step_id : String) (b : Bool)
      → IsSequential q
      → IsSequential (if b then drop_step q env plan_id step_id else q)
  dropped-IsSequential q plan_id step_id true h = drop-IsSequential q env h plan_id step_id
  dropped-IsSequential q plan_id step_id false h = h

  finish-IsSequential :
      (q : PlanQueue) (p : CompletionPayload) (state : PlanStepState)
      → IsSequential q
      → IsSequential (finish_step q env p state).0
  finish-IsSequential q p state h =
      let q' =
        (release_next_plan_steps (complete_step q env p.plan_id p.step_id) env p.plan_id).0 in
      let done : PlanQueue × Handled = (drop_step q' env p.plan_id p.step_id, acked) in
      elim state as (λ s. IsSequential (finish_step q env p s).0) [
        | completed ↦
            elim env.has_lock as (λ b. IsSequential (if b then done else (q, retried)).0) [
              | true ↦
                  drop-IsSequential q' env
                    (release-IsSequential env (complete_step q env p.plan_id p.step_id) p.plan_id
                      (complete_step-IsSequential q p.plan_id p.step_id h))
                    p.plan_id p.step_id
              | false ↦ h
            ]
        | other ↦ dropped-IsSequential q p.plan_id p.step_id (is_terminal other) h
      ]

  accept-IsSequential :
      (q : PlanQueue) (p : CompletionPayload) (known : Known)
      → IsSequential q
      → IsSequential (accept q env p known).0
  accept-IsSequential q p known h =
      let q' = recall_approvals q p.plan_id p.step_id known in
      let h' = subst IsOrderly (sym (recall_service q p.plan_id p.step_id known)) h in
      finish-IsSequential (emit_outcome q' env p (attempt_of p known)) p p.state (
        set_state-IsOrderly q'.service.store env.now h' p.plan_id p.step_id p.state p.summary
          (some (attempt_of p known)))

  matched-IsSequential :
      (q : PlanQueue) (p : CompletionPayload) (known : Known) (b : Bool)
      → IsSequential q
      → IsSequential (if b then accept q env p known else (q, dead_letter "metadata_mismatch")).0
  matched-IsSequential q p known true h = accept-IsSequential q p known h
  matched-IsSequential q p known false h = h

  process_known-IsSequential :
      (q : PlanQueue) (m : Message) (known : Known)
      → IsSequential q
      → IsSequential (process_known q env m known).0
  process_known-IsSequential q m unknown h = h
  process_known-IsSequential q m (in_registry e) h =
      matched-IsSequential q m.payload (in_registry e) _ h
  process_known-IsSequential q m (in_store e) h = matched-IsSequential q m.payload (in_store e) _ h

  process_found-IsSequential :
      (q : PlanQueue) (m : Message) (o : Option RegistryEntry)
      → IsSequential q
      → IsSequential (process_found q env m o).0
  process_found-IsSequential q m (some e) h = process_known-IsSequential q m (in_registry e) h
  process_found-IsSequential q m none h =
      let p = get_entry q.service.store env.now m.payload.plan_id m.payload.step_id in
      process_known-IsSequential (with_store q p.0) m (known_of p.1)
        (get_entry-IsOrderly q env h m.payload.plan_id m.payload.step_id)

  pub process-IsSequential :
      (q : PlanQueue) (m : Message) → IsSequential q → IsSequential (process_message q env m).0
  unfolding process_message
  process-IsSequential q m h =
      process_found-IsSequential q m
        (get_registry_entry q.service m.payload.plan_id m.payload.step_id) h

-- ===== src/Plans/Rehydrated.antt =====
-- The enqueueing of pending steps after a restart (`rehydratePendingSteps` of
-- services/orchestrator/src/queue/PlanQueueManager.ts) keeps the plans in step.
use Prim.Native.String.{◌++◌ as append_str}
use ai_agent_tool.Common.{
  sym, subst, true, false, Option, none, some, List, [], ◌∷◌, String, if◌then◌else◌,
}
use ai_agent_tool.Common.Text.{is_given}
use ai_agent_tool.Plans.Data.{PersistedStep, PlanStepState, waiting_approval, queued, running}
use ai_agent_tool.Plans.Store.{list_active_steps}
use ai_agent_tool.Plans.Service.{RegistryEntry, get_registry_entry, set_registry_entry}
use ai_agent_tool.Plans.Queue.{Env, PlanQueue, QueueError, enqueue_failed, with_service, with_store}
use ai_agent_tool.Plans.Decisions.{
  session_of, track_session, persisted_entry, requeued, enqueue_again, rehydrate_state, track_again,
  rehydrate_step, then_rehydrate, rehydrate_all, rehydrate_pending_steps,
}
use ai_agent_tool.Plans.Order.{IsOrderly, after_purge-IsOrderly}
use ai_agent_tool.Plans.Sequence.{IsSequential, emit-IsSequential}
use ai_agent_tool.Plans.Methods.{track_service}

module _ (env : Env) where
  track_again-IsSequential :
      (q : PlanQueue) (plan_id : String) (o : Option String)
      → IsSequential q
      → IsSequential (track_again q plan_id o)
  track_again-IsSequential q plan_id o h =
      let kept = subst (λ s. IsOrderly s.store) (sym (track_service q plan_id o)) h in
      elim (is_given o) as (λ b. IsSequential (if b then track_session q plan_id o else q)) [
        | true ↦ kept
        | false ↦ h
      ]

  requeued-IsSequential :
      (q : PlanQueue) (e : PersistedStep) (state : PlanStepState)
      → IsSequential q
      → IsSequential (requeued q env e state)
  requeued-IsSequential q e state h = elim state as (λ s. IsSequential (requeued q env e s)) [
    | running ↦
        emit-IsSequential q env h e.plan_id e.step queued
          (some (append_str "Retry enqueued (attempt " (append_str (env.number e.attempt) ")")))
          e.attempt
    | _ ↦ h
  ]

  enqueue_again-IsSequential :
      (q : PlanQueue) (e : PersistedStep) → IsSequential q → IsSequential (enqueue_again q env e).0
  enqueue_again-IsSequential q e h =
      let q' = record q { enqueued = (persisted_entry e).job ∷ q.enqueued } in
      let done : PlanQueue × Option QueueError = (requeued q' env e e.state, none) in
      elim env.can_enqueue as (λ b. IsSequential (if b then done else (q, some enqueue_failed)).0) [
        | true ↦ requeued-IsSequential q' e e.state h
        | false ↦ h
      ]

  rehydrate_state-IsSequential :
      (q : PlanQueue) (e : PersistedStep) (state : PlanStepState)
      → IsSequential q
      → IsSequential (rehydrate_state q env e state).0
  rehydrate_state-IsSequential q e state h =
      elim state as (λ s. IsSequential (rehydrate_state q env e s).0) [
        | waiting_approval ↦
            emit-IsSequential q env h e.plan_id e.step waiting_approval
              (some "Awaiting approval (rehydrated)") e.attempt
        | running ↦ enqueue_again-IsSequential q e h
        | queued ↦ enqueue_again-IsSequential q e h
        | _ ↦ h
      ]

  rehydrate_step-IsSequential :
      (q : PlanQueue) (e : PersistedStep) (o : Option RegistryEntry)
      → IsSequential q
      → IsSequential (rehydrate_step q env e o).0
  rehydrate_step-IsSequential q e (some x) h = h
  rehydrate_step-IsSequential q e none h =
      let q' = track_again q e.plan_id (session_of e.subject) in
      rehydrate_state-IsSequential
        (with_service q' (set_registry_entry q'.service e.plan_id e.step.id (persisted_entry e))) e
        e.state (track_again-IsSequential q e.plan_id (session_of e.subject) h)

  then_rehydrate-IsSequential :
      (go : PlanQueue → PlanQueue × Option QueueError)
      → ((q : PlanQueue) → IsSequential q → IsSequential (go q).0)
      → (p : PlanQueue × Option QueueError) → IsSequential p.0
      → IsSequential (then_rehydrate go p).0
  then_rehydrate-IsSequential go f (q, none) h = f q h
  then_rehydrate-IsSequential go f (q, some e) h = h

  rehydrate_all-IsSequential :
      (q : PlanQueue) (es : List PersistedStep)
      → IsSequential q
      → IsSequential (rehydrate_all q env es).0
  unfolding rehydrate_all
  rehydrate_all-IsSequential q [] h = h
  rehydrate_all-IsSequential q (e ∷ es) h =
      let o = get_registry_entry q.service e.plan_id e.step.id in
      then_rehydrate-IsSequential (λ q'. rehydrate_all q' env es)
        (λ q' h'. rehydrate_all-IsSequential q' es h') (rehydrate_step q env e o)
        (rehydrate_step-IsSequential q e o h)

  pub rehydrate-IsSequential :
      (q : PlanQueue) → IsSequential q → IsSequential (rehydrate_pending_steps q env).0
  unfolding rehydrate_pending_steps list_active_steps
  rehydrate-IsSequential q h =
      let p = list_active_steps q.service.store env.now in
      rehydrate_all-IsSequential (with_store q p.0) p.1
        (after_purge-IsOrderly q.service.store env.now h)

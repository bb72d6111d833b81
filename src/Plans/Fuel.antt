-- ===== src/Plans/Fuel.antt =====
-- The fuel of the release of steps (`releaseNextPlanSteps` of
-- services/orchestrator/src/queue/PlanQueueManager.ts) is enough.
use ai_agent_tool.Common.{
  ℕ, zero, suc, ◌+◌, ◌≤◌, ◌<◌, ◌≡◌, refl, Bool, false, not, ◌&&◌, Option, none, some, ◌∷◌, String,
  arith, if-cases, length, get_elem?, length-set,
}
use ai_agent_tool.Common.Map.{Map}
use ai_agent_tool.Plans.Data.{PersistedStep, PlanMetadata, PlanStepMetadata, queued}
use ai_agent_tool.Plans.Store.{get_entry}
use ai_agent_tool.Plans.Service.{PlanJob, ensure_approvals, cache_approvals, set_registry_entry}
use ai_agent_tool.Plans.Queue.{
  Env, PlanQueue, QueueError, enqueue_failed, Released, goes_on, stops, throws, with_service,
  with_store, emit_plan_event, drop_step, can_release_next_step, job_of, settle_metadata, violation,
  is_granted, remember_new, await_approval, enqueue_step, release_permitted, release_entry,
  release_found, release_step, then_release, release_loop, registered, is_active,
}

-- A round that goes on has gone one step on, in the same steps.
abbrev IsOneOn : PlanMetadata → Released → Type 0
IsOneOn m (goes_on q m') =
    (length m'.steps ≡ length m.steps) × (m'.next_step_index ≡ m.next_step_index + 1)
IsOneOn m (stops q m') = Unit
IsOneOn m (throws q e) = Unit

module _ (env : Env) (plan_id : String) where
  enqueue-IsOneOn :
      (q : PlanQueue) (m₀ m : PlanMetadata) (job : PlanJob) (approvals : Map Bool)
      (o : Option PersistedStep)
      → length m.steps ≡ length m₀.steps
      → m.next_step_index ≡ m₀.next_step_index
      → IsOneOn m₀ (enqueue_step q env m job approvals o)
  enqueue-IsOneOn q m₀ m job approvals o l n =
      let q₁ = with_service q (cache_approvals q.service job.plan_id job.step.id approvals) in
      let q₂ = remember_new q₁ env job queued approvals o in
      if-cases (IsOneOn m₀) env.can_enqueue
        (goes_on
          (emit_plan_event (record q₂ { enqueued = job ∷ q₂.enqueued }) env job.plan_id job.step
            queued (some "Queued for execution") job.attempt)
          (record m { next_step_index = m.next_step_index + 1 }))
        (throws (drop_step q₂ env job.plan_id job.step.id) enqueue_failed)
        (λ e. (l, omega (arith, n))) (λ e. tt)

  permitted-IsOneOn :
      (q : PlanQueue) (m₀ m : PlanMetadata) (job : PlanJob) (approvals : Map Bool)
      (o : Option PersistedStep) (v : Option QueueError)
      → length m.steps ≡ length m₀.steps
      → m.next_step_index ≡ m₀.next_step_index
      → IsOneOn m₀ (release_permitted q env m job approvals o v)
  permitted-IsOneOn q m₀ m job approvals o (some e) l n = tt
  permitted-IsOneOn q m₀ m job approvals o none l n =
      let q' =
        with_service q (set_registry_entry q.service job.plan_id job.step.id (registered job)) in
      if-cases (IsOneOn m₀)
        (job.step.approval_required && not (is_granted approvals job.step.capability))
        (stops (await_approval q' env job approvals o) m) (enqueue_step q' env m job approvals o)
        (λ b. tt) (λ b. enqueue-IsOneOn q' m₀ m job approvals o l n)

  entry-IsOneOn :
      (q : PlanQueue) (m : PlanMetadata) (e : PlanStepMetadata) (o : Option PersistedStep)
      → IsOneOn m (release_entry q env plan_id m e o)
  entry-IsOneOn q m e o =
      let job = job_of env q plan_id m e o in
      let p = ensure_approvals q.service env.now plan_id e.step.id in
      let v = violation e.step (env.policy e.step p.1 job.subject) in
      if-cases (IsOneOn m) (is_active o) (stops q m)
        (release_permitted (with_service q p.0) env (settle_metadata m e job) job p.1 o v) (λ b. tt)
        (λ b.
          permitted-IsOneOn (with_service q p.0) m (settle_metadata m e job) job p.1 o v
            (length-set m.steps m.next_step_index _) refl)

  found-IsOneOn :
      (q : PlanQueue) (m : PlanMetadata) (o : Option PlanStepMetadata)
      → IsOneOn m (release_found q env plan_id m o)
  found-IsOneOn q m none = tt
  found-IsOneOn q m (some e) =
      let p = get_entry q.service.store env.now plan_id e.step.id in
      entry-IsOneOn (with_store q p.0) m e p.1

  round-IsOneOn : (q : PlanQueue) (m : PlanMetadata) → IsOneOn m (release_step q env plan_id m)
  unfolding release_step
  round-IsOneOn q m =
      if-cases (IsOneOn m) (can_release_next_step m)
        (release_found q env plan_id m (get_elem? m.steps m.next_step_index)) (stops q m)
        (λ b. found-IsOneOn q m (get_elem? m.steps m.next_step_index)) (λ b. tt)

  done-stops :
      (q : PlanQueue) (m : PlanMetadata) (fuel : ℕ)
      → length m.steps ≤ m.next_step_index
      → release_loop fuel q env plan_id m ≡ stops q m
  unfolding release_loop release_step
  done-stops q m zero l = refl
  done-stops q m (suc fuel) l =
      let b : can_release_next_step m ≡ false = ground (arith, l) in rw b refl

  then-more :
      (fuel fuel' : ℕ) (m : PlanMetadata) (r : Released)
      → ((q : PlanQueue) (m : PlanMetadata)
          → length m.steps ≤ m.next_step_index + fuel
          → release_loop fuel' q env plan_id m ≡ release_loop fuel q env plan_id m)
      → IsOneOn m r
      → length m.steps ≤ m.next_step_index + suc fuel
      → then_release (λ q' m'. release_loop fuel' q' env plan_id m') r
        ≡ then_release (λ q' m'. release_loop fuel q' env plan_id m') r
  then-more fuel fuel' m (goes_on q m') ih o l = ih q m' (omega (arith, o, l))
  then-more fuel fuel' m (stops q m') ih o l = refl
  then-more fuel fuel' m (throws q e) ih o l = refl

  loop-more :
      (fuel fuel' : ℕ) (q : PlanQueue) (m : PlanMetadata)
      → fuel ≤ fuel'
      → length m.steps ≤ m.next_step_index + fuel
      → release_loop fuel' q env plan_id m ≡ release_loop fuel q env plan_id m
  unfolding release_loop
  loop-more zero fuel' q m f l = done-stops q m fuel' (omega (arith, l))
  loop-more (suc fuel) zero q m f l = ground (arith, f)
  loop-more (suc fuel) (suc fuel') q m f l =
      then-more fuel fuel' m (release_step q env plan_id m)
        (λ q' m' l'. loop-more fuel fuel' q' m' (omega (arith, f)) l') (round-IsOneOn q m) l

-- The loop's fuel is enough: with any fuel above the number of the plan's steps the release comes to
-- the same, from any state of the queue manager and any metadata of the plan.
pub fuel-IsEnough :
    (fuel : ℕ) (q : PlanQueue) (env : Env) (plan_id : String) (m : PlanMetadata)
    → length m.steps < fuel
    → release_loop fuel q env plan_id m ≡ release_loop (suc (length m.steps)) q env plan_id m
fuel-IsEnough fuel q env plan_id m l =
    loop-more env plan_id (suc (length m.steps)) fuel q m (omega (arith, l)) (omega arith)

-- ===== src/Plans/Releases.antt =====
-- The release of steps (`releaseNextPlanSteps` of
-- services/orchestrator/src/queue/PlanQueueManager.ts) keeps the plans in step, and its fuel is enough.
use ai_agent_tool.Common.{
  ℕ, zero, suc, ◌≤◌, ◌<◌, ◌≡◌, inl, inr, refl, Bool, true, false, not, ◌&&◌, Option, none, some,
  ◌∷◌, String, arith, Bool-cases, if◌then◌else◌, length, get_elem?, length-set,
}
use ai_agent_tool.Common.Map.{Map}
use ai_agent_tool.Plans.Data.{
  PersistedStep, PlanMetadata, PlanStepMetadata, waiting_approval, queued,
}
use ai_agent_tool.Plans.Store.{get_entry, get_plan_metadata}
use ai_agent_tool.Plans.Service.{PlanJob, ensure_approvals, cache_approvals, set_registry_entry}
use ai_agent_tool.Plans.Queue.{
  Env, PlanQueue, QueueError, lock_failed, Released, goes_on, stops, throws, with_service,
  with_store, can_release_next_step, job_of, settle_metadata, violation, is_granted, remember_new,
  await_approval, enqueue_step, release_permitted, release_entry, release_found, release_step,
  then_release, release_loop, is_completed, end_release, release_plan, release_next_plan_steps,
  registered, is_active,
}
use ai_agent_tool.Plans.Order.{
  IsInStep, after_purge-IsOrderly, remember_plan-IsOrderly, forget_plan-IsOrderly,
  get_plan-IsInStep,
}
use ai_agent_tool.Plans.Sequence.{
  IsSequential, emit-IsSequential, drop-IsSequential, cleanup-IsSequential, get_entry-IsOrderly,
  ensure-IsOrderly, remember_new-IsSequential,
}

-- What a round leaves is in step.
abbrev IsReleasedInStep : Released → Type 0
IsReleasedInStep (goes_on q m) = IsSequential q × IsInStep m
IsReleasedInStep (stops q m) = IsSequential q × IsInStep m
IsReleasedInStep (throws q e) = IsSequential q

abbrev IsReleasable : PlanMetadata → Type 0
IsReleasable m = (m.next_step_index < length m.steps) × (m.next_step_index ≤ m.completed_up_to)

can_release-IsReleasable : (m : PlanMetadata) → can_release_next_step m ≡ true → IsReleasable m
can_release-IsReleasable m e = ground arith

settled-IsInStep :
    (m : PlanMetadata) (e : PlanStepMetadata) (job : PlanJob)
    → IsInStep m
    → IsInStep (settle_metadata m e job)
settled-IsInStep m e job i =
    rw
      (length-set m.steps m.next_step_index (record e {
        attempt = job.attempt;
        created_at = job.created_at;
        request_id = job.request_id;
        subject = job.subject;
      }))
      i

module _ (env : Env) where
  await-IsSequential :
      (q : PlanQueue) (job : PlanJob) (approvals : Map Bool) (o : Option PersistedStep)
      → IsSequential q
      → IsSequential (await_approval q env job approvals o)
  await-IsSequential q job approvals none h =
      emit-IsSequential (remember_new q env job waiting_approval approvals none) env
        (remember_new-IsSequential q env h job waiting_approval approvals none) job.plan_id job.step
        waiting_approval (some "Awaiting approval") job.attempt
  await-IsSequential q job approvals (some e) h = h

  enqueue-IsReleasedInStep :
      (q : PlanQueue) (m : PlanMetadata) (job : PlanJob) (approvals : Map Bool)
      (o : Option PersistedStep)
      → IsSequential q
      → IsInStep m
      → IsReleasable m
      → IsReleasedInStep (enqueue_step q env m job approvals o)
  enqueue-IsReleasedInStep q m job approvals o h i c =
      let q₁ = with_service q (cache_approvals q.service job.plan_id job.step.id approvals) in
      let q₂ = remember_new q₁ env job queued approvals o in
      let h₂ = remember_new-IsSequential q₁ env h job queued approvals o in
      elim (Bool-cases env.can_enqueue) [
        | inl e ↦ rw e (
          emit-IsSequential (record q₂ { enqueued = job ∷ q₂.enqueued }) env h₂ job.plan_id job.step
              queued (some "Queued for execution") job.attempt,
          ground (arith, i, c),
        )
        | inr e ↦ rw e (drop-IsSequential q₂ env h₂ job.plan_id job.step.id)
      ]

  permitted-IsReleasedInStep :
      (q : PlanQueue) (m : PlanMetadata) (job : PlanJob) (approvals : Map Bool)
      (o : Option PersistedStep) (v : Option QueueError)
      → IsSequential q
      → IsInStep m
      → IsReleasable m
      → IsReleasedInStep (release_permitted q env m job approvals o v)
  permitted-IsReleasedInStep q m job approvals o (some e) h i c = h
  permitted-IsReleasedInStep q m job approvals o none h i c =
      let q' =
        with_service q (set_registry_entry q.service job.plan_id job.step.id (registered job)) in
      elim (Bool-cases
        (job.step.approval_required && not (is_granted approvals job.step.capability))) [
          | inl e ↦ rw e (await-IsSequential q' job approvals o h, i)
          | inr e ↦ rw e (enqueue-IsReleasedInStep q' m job approvals o h i c)
        ]

  entry-IsReleasedInStep :
      (q : PlanQueue) (plan_id : String) (m : PlanMetadata) (e : PlanStepMetadata)
      (o : Option PersistedStep)
      → IsSequential q
      → IsInStep m
      → IsReleasable m
      → IsReleasedInStep (release_entry q env plan_id m e o)
  entry-IsReleasedInStep q plan_id m e o h i c =
      let job = job_of env q plan_id m e o in
      let p = ensure_approvals q.service env.now plan_id e.step.id in
      elim (Bool-cases (is_active o)) [
        | inl a ↦ rw a (h, i)
        | inr a ↦ rw a (
            permitted-IsReleasedInStep (with_service q p.0) (settle_metadata m e job) job p.1 o
              (violation e.step (env.policy e.step p.1 job.subject))
              (ensure-IsOrderly q env h plan_id e.step.id) (settled-IsInStep m e job i)
              (rw
                (length-set m.steps m.next_step_index (record e {
                  attempt = job.attempt;
                  created_at = job.created_at;
                  request_id = job.request_id;
                  subject = job.subject;
                }))
                c))
      ]

  found-IsReleasedInStep :
      (q : PlanQueue) (plan_id : String) (m : PlanMetadata) (o : Option PlanStepMetadata)
      → IsSequential q
      → IsInStep m
      → IsReleasable m
      → IsReleasedInStep (release_found q env plan_id m o)
  found-IsReleasedInStep q plan_id m none h i c = (h, i)
  found-IsReleasedInStep q plan_id m (some e) h i c =
      let p = get_entry q.service.store env.now plan_id e.step.id in
      entry-IsReleasedInStep (with_store q p.0) plan_id m e p.1
        (get_entry-IsOrderly q env h plan_id e.step.id) i c

  round-IsReleasedInStep :
      (q : PlanQueue) (plan_id : String) (m : PlanMetadata)
      → IsSequential q
      → IsInStep m
      → IsReleasedInStep (release_step q env plan_id m)
  unfolding release_step
  round-IsReleasedInStep q plan_id m h i = elim (Bool-cases (can_release_next_step m)) [
    | inl e ↦ rw e (
        found-IsReleasedInStep q plan_id m (get_elem? m.steps m.next_step_index) h i
          (can_release-IsReleasable m e))
    | inr e ↦ rw e (h, i)
  ]

  then-IsReleasedInStep :
      (go : PlanQueue → PlanMetadata → Released)
      → ((q : PlanQueue) (m : PlanMetadata)
          → IsSequential q
          → IsInStep m
          → IsReleasedInStep (go q m))
      → (r : Released) → IsReleasedInStep r
      → IsReleasedInStep (then_release go r)
  then-IsReleasedInStep go f (goes_on q m) h = f q m h.0 h.1
  then-IsReleasedInStep go f (stops q m) h = h
  then-IsReleasedInStep go f (throws q e) h = h

  loop-IsReleasedInStep :
      (fuel : ℕ) (q : PlanQueue) (plan_id : String) (m : PlanMetadata)
      → IsSequential q
      → IsInStep m
      → IsReleasedInStep (release_loop fuel q env plan_id m)
  unfolding release_loop
  loop-IsReleasedInStep zero q plan_id m h i = (h, i)
  loop-IsReleasedInStep (suc fuel) q plan_id m h i =
      then-IsReleasedInStep (λ q' m'. release_loop fuel q' env plan_id m')
        (λ q' m' h' i'. loop-IsReleasedInStep fuel q' plan_id m' h' i')
        (release_step q env plan_id m) (round-IsReleasedInStep q plan_id m h i)

  end-IsSequential :
      (plan_id : String) (r : Released)
      → IsReleasedInStep r
      → IsSequential (end_release env plan_id r).0
  unfolding end_release
  end-IsSequential plan_id (goes_on q m) h = h.0
  end-IsSequential plan_id (throws q e) h = h
  end-IsSequential plan_id (stops q m) h = elim (Bool-cases (is_completed m)) [
    | inl e ↦ rw e (
        cleanup-IsSequential _ env (forget_plan-IsOrderly q.service.store env.now h.0 plan_id)
          plan_id)
    | inr e ↦ rw e (remember_plan-IsOrderly q.service.store env.now h.0 plan_id m h.1)
  ]

  plan-IsSequential :
      (q : PlanQueue) (plan_id : String) (o : Option PlanMetadata)
      → IsSequential q
      → ((m : PlanMetadata) → o ≡ some m → IsInStep m)
      → IsSequential (release_plan q env plan_id o).0
  unfolding release_plan
  plan-IsSequential q plan_id none h f = h
  plan-IsSequential q plan_id (some m) h f =
      end-IsSequential plan_id (release_loop (suc (length m.steps)) q env plan_id m)
        (loop-IsReleasedInStep (suc (length m.steps)) q plan_id m h (f m refl))

  pub release-IsSequential :
      (q : PlanQueue) (plan_id : String)
      → IsSequential q
      → IsSequential (release_next_plan_steps q env plan_id).0
  unfolding release_next_plan_steps get_plan_metadata
  release-IsSequential q plan_id h =
      let p = get_plan_metadata q.service.store env.now plan_id in
      let run = release_plan (with_store q p.0) env plan_id p.1 in
      elim env.has_release_lock
        as (λ b. IsSequential (if b then run else (q, some lock_failed)).0) [
          | true ↦
              plan-IsSequential (with_store q p.0) plan_id p.1
                (after_purge-IsOrderly q.service.store env.now h)
                (λ m found. get_plan-IsInStep q.service.store env.now h plan_id m found)
          | false ↦ h
        ]

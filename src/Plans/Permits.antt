-- ===== src/Plans/Permits.antt =====
-- What `releaseNextPlanSteps` of services/orchestrator/src/queue/PlanQueueManager.ts puts on the queue
-- of steps.
use ai_agent_tool.Common.{
  ℕ, zero, suc, ◌+◌, ◌≤◌, ◌<◌, ◌≡◌, ◌⊎◌, inl, inr, refl, ap, ◌∙◌, subst, Bool, true, false, not,
  ◌&&◌, ◌||◌, Option, none, some, List, ◌∷◌, String, arith, if-cases, length, get_elem?,
}
use ai_agent_tool.Common.Map
use ai_agent_tool.Common.Map.{Map}
use ai_agent_tool.Plans.Data.{PersistedStep, PlanMetadata, PlanStepMetadata, PlanStepState, queued}
use ai_agent_tool.Plans.Store.{
  forget_plan_metadata, remember_plan_metadata, get_entry, get_plan_metadata, after_purge,
}
use ai_agent_tool.Plans.Service.{PlanJob, ensure_approvals, cache_approvals, set_registry_entry}
use ai_agent_tool.Plans.Queue.{
  Env, PlanQueue, QueueError, lock_failed, enqueue_failed, Released, goes_on, stops, throws,
  with_service, with_store, emit_plan_event, drop_step, cleanup_plan_session, can_release_next_step,
  job_of, settle_metadata, violation, is_granted, remember_new, await_approval, enqueue_step,
  release_permitted, release_entry, release_found, release_step, then_release, release_loop,
  is_completed, end_release, release_plan, release_next_plan_steps, registered, is_active,
}
use ai_agent_tool.Plans.Order.{IsInStep, get_plan-IsInStep}
use ai_agent_tool.Plans.Sequence.{IsSequential}
use ai_agent_tool.Plans.Queue.{cleanup_found}
use ai_agent_tool.Plans.Approvals.{ensure-after}
use ai_agent_tool.Plans.Runs.{Event, run, new_queue, run-IsSequential, new_queue-IsSequential}

-- A job may be put on the queue: it is for the step after the plan's furthest completed one, the
-- policy permits it with the approvals that the queue manager has for the step, and if the step
-- requires an approval, its capability is approved.
abbrev pub IsPermitted : PlanQueue → Env → String → PlanMetadata → PlanJob → Type 0
IsPermitted q env plan_id m job =
    let approvals = (ensure_approvals q.service env.now plan_id job.step.id).1 in
    (job.plan_id ≡ plan_id)
    × ((e : PlanStepMetadata) × (get_elem? m.steps m.completed_up_to ≡ some e)
        × (job.step ≡ e.step))
    × (violation job.step (env.policy job.step approvals job.subject) ≡ none)
    × ((not job.step.approval_required || is_granted approvals job.step.capability) ≡ true)

-- What a round of the loop comes to.
IsRound : PlanQueue → Env → String → PlanMetadata → Released → Type 0
IsRound q env plan_id m (goes_on q' m') =
    ((job : PlanJob) × (q'.enqueued ≡ job ∷ q.enqueued) × IsPermitted q env plan_id m job)
    × (m'.completed_up_to < m'.next_step_index)
IsRound q env plan_id m (stops q' m') = q'.enqueued ≡ q.enqueued
IsRound q env plan_id m (throws q' e) = q'.enqueued ≡ q.enqueued

remember_new_enqueued :
    (q : PlanQueue) (env : Env) (job : PlanJob) (state : PlanStepState) (approvals : Map Bool)
    (o : Option PersistedStep)
    → (remember_new q env job state approvals o).enqueued ≡ q.enqueued
remember_new_enqueued q env job state approvals none = refl
remember_new_enqueued q env job state approvals (some e) = refl

await_enqueued :
    (q : PlanQueue) (env : Env) (job : PlanJob) (approvals : Map Bool) (o : Option PersistedStep)
    → (await_approval q env job approvals o).enqueued ≡ q.enqueued
await_enqueued q env job approvals none = refl
await_enqueued q env job approvals (some e) = refl

cleanup_found_enqueued :
    (q : PlanQueue) (plan_id : String) (o : Option String)
    → (cleanup_found q plan_id o).enqueued ≡ q.enqueued
cleanup_found_enqueued q plan_id none = refl
cleanup_found_enqueued q plan_id (some id) = ground arith

pub cleanup_enqueued :
    (q : PlanQueue) (plan_id : String) → (cleanup_plan_session q plan_id).enqueued ≡ q.enqueued
unfolding cleanup_plan_session
cleanup_enqueued q plan_id = cleanup_found_enqueued q plan_id (Map.get plan_id q.plan_sessions)

module _ (env : Env) (plan_id : String) where
  enqueue-IsRound :
      (q₀ q : PlanQueue) (m₀ m : PlanMetadata) (job : PlanJob) (approvals : Map Bool)
      (o : Option PersistedStep)
      → q.enqueued ≡ q₀.enqueued
      → IsPermitted q₀ env plan_id m₀ job
      → m.completed_up_to ≤ m.next_step_index
      → IsRound q₀ env plan_id m₀ (enqueue_step q env m job approvals o)
  unfolding IsRound
  enqueue-IsRound q₀ q m₀ m job approvals o same p le =
      let q₁ = with_service q (cache_approvals q.service job.plan_id job.step.id approvals) in
      let kept = remember_new_enqueued q₁ env job queued approvals o ∙ same in
      let q₂ = remember_new q₁ env job queued approvals o in
      if-cases (IsRound q₀ env plan_id m₀) env.can_enqueue
        (goes_on
          (emit_plan_event (record q₂ { enqueued = job ∷ q₂.enqueued }) env job.plan_id job.step
            queued (some "Queued for execution") job.attempt)
          (record m { next_step_index = m.next_step_index + 1 }))
        (throws (drop_step q₂ env job.plan_id job.step.id) enqueue_failed)
        (λ e. ((job, ap (λ jobs. job ∷ jobs) kept, p), omega (arith, le))) (λ e. kept)

  permitted-IsRound :
      (q₀ q : PlanQueue) (m₀ m : PlanMetadata) (job : PlanJob) (approvals : Map Bool)
      (o : Option PersistedStep) (v : Option QueueError)
      → approvals ≡ (ensure_approvals q₀.service env.now plan_id job.step.id).1
      → violation job.step (env.policy job.step approvals job.subject) ≡ v
      → q.enqueued ≡ q₀.enqueued
      → m.completed_up_to ≤ m.next_step_index
      → job.plan_id ≡ plan_id
      → ((e : PlanStepMetadata) × (get_elem? m₀.steps m₀.completed_up_to ≡ some e)
          × (job.step ≡ e.step))
      → IsRound q₀ env plan_id m₀ (release_permitted q env m job approvals o v)
  unfolding IsRound
  permitted-IsRound q₀ q m₀ m job approvals o (some e) a v same le own found = same
  permitted-IsRound q₀ q m₀ m job approvals o none a v same le own found =
      let q' =
        with_service q (set_registry_entry q.service job.plan_id job.step.id (registered job)) in
      if-cases (IsRound q₀ env plan_id m₀)
        (job.step.approval_required && not (is_granted approvals job.step.capability))
        (stops (await_approval q' env job approvals o) m) (enqueue_step q' env m job approvals o)
        (λ b. await_enqueued q' env job approvals o ∙ same)
        (λ b.
          let allowed : (not job.step.approval_required || is_granted approvals job.step.capability)
              ≡ true =
            ground (arith, b) in
          enqueue-IsRound q₀ q' m₀ m job approvals o same
            (
              own,
              found,
              subst (λ x. violation job.step (env.policy job.step x job.subject) ≡ none) a v,
              subst
                  (λ x. (not job.step.approval_required || is_granted x job.step.capability) ≡ true)
                  a allowed,
            )
            le)

  entry-IsRound :
      (q₀ q : PlanQueue) (m : PlanMetadata) (e : PlanStepMetadata) (o : Option PersistedStep)
      → (ensure_approvals q.service env.now plan_id e.step.id).1
        ≡ (ensure_approvals q₀.service env.now plan_id e.step.id).1
      → q.enqueued ≡ q₀.enqueued
      → m.completed_up_to ≤ m.next_step_index
      → get_elem? m.steps m.completed_up_to ≡ some e
      → IsRound q₀ env plan_id m (release_entry q env plan_id m e o)
  unfolding IsRound
  entry-IsRound q₀ q m e o a same le found =
      let job = job_of env q plan_id m e o in
      let p = ensure_approvals q.service env.now plan_id e.step.id in
      let v = violation e.step (env.policy e.step p.1 job.subject) in
      if-cases (IsRound q₀ env plan_id m) (is_active o) (stops q m)
        (release_permitted (with_service q p.0) env (settle_metadata m e job) job p.1 o v)
        (λ b. same)
        (λ b.
          permitted-IsRound q₀ (with_service q p.0) m (settle_metadata m e job) job p.1 o v a refl
            same le refl (e, found, refl))

  found-IsRound :
      (q₀ q : PlanQueue) (m : PlanMetadata) (o : Option PlanStepMetadata)
      → ((step_id : String)
          → (ensure_approvals q.service env.now plan_id step_id).1
            ≡ (ensure_approvals q₀.service env.now plan_id step_id).1)
      → q.enqueued ≡ q₀.enqueued
      → m.completed_up_to ≤ m.next_step_index
      → get_elem? m.steps m.completed_up_to ≡ o
      → IsRound q₀ env plan_id m (release_found q env plan_id m o)
  unfolding IsRound get_entry
  found-IsRound q₀ q m none a same le found = same
  found-IsRound q₀ q m (some e) a same le found =
      let p = get_entry q.service.store env.now plan_id e.step.id in
      entry-IsRound q₀ (with_store q p.0) m e p.1
        (ensure-after q.service env.now plan_id e.step.id ∙ a e.step.id) same le found

  release_step-IsRound :
      (q₀ q : PlanQueue) (m : PlanMetadata)
      → ((step_id : String)
          → (ensure_approvals q.service env.now plan_id step_id).1
            ≡ (ensure_approvals q₀.service env.now plan_id step_id).1)
      → q.enqueued ≡ q₀.enqueued
      → IsInStep m
      → IsRound q₀ env plan_id m (release_step q env plan_id m)
  unfolding IsRound release_step
  release_step-IsRound q₀ q m a same i =
      if-cases (IsRound q₀ env plan_id m) (can_release_next_step m)
        (release_found q env plan_id m (get_elem? m.steps m.next_step_index)) (stops q m)
        (λ b.
          let here : m.completed_up_to ≡ m.next_step_index = ground (arith, i, b) in
          found-IsRound q₀ q m (get_elem? m.steps m.next_step_index) a same i.0
            (ap (get_elem? m.steps) here))
        (λ b. same)

  -- Once a step is released, the loop is over.
  loop-stops :
      (fuel : ℕ) (q : PlanQueue) (m : PlanMetadata)
      → m.completed_up_to < m.next_step_index
      → release_loop fuel q env plan_id m ≡ stops q m
  unfolding release_loop release_step
  loop-stops zero q m l = refl
  loop-stops (suc fuel) q m l =
      let b : can_release_next_step m ≡ false = ground (arith, l) in rw b refl

  -- What one release comes to: nothing is enqueued, or one job that may be.
  IsAtMostOne : PlanQueue → PlanMetadata → List PlanJob → Type 0
  IsAtMostOne q₀ m jobs =
      (jobs ≡ q₀.enqueued)
      ⊎ ((job : PlanJob) × (jobs ≡ job ∷ q₀.enqueued) × IsPermitted q₀ env plan_id m job)

  end-stops :
      (q : PlanQueue) (m : PlanMetadata)
      → (end_release env plan_id (stops q m)).0.enqueued ≡ q.enqueued
  unfolding end_release
  end-stops q m =
      let forgotten = with_store q (forget_plan_metadata q.service.store env.now plan_id) in
      if-cases (λ q'. q'.enqueued ≡ q.enqueued) (is_completed m)
        (cleanup_plan_session forgotten plan_id)
        (with_store q (remember_plan_metadata q.service.store env.now plan_id m))
        (λ b. cleanup_enqueued forgotten plan_id) (λ b. refl)

  loop-IsAtMostOne :
      (fuel : ℕ) (q₀ : PlanQueue) (m : PlanMetadata) (r : Released)
      → IsRound q₀ env plan_id m r
      → IsAtMostOne q₀ m
          (end_release env plan_id
            (then_release (λ q' m'. release_loop fuel q' env plan_id m') r)).0.enqueued
  unfolding IsRound IsAtMostOne end_release
  loop-IsAtMostOne fuel q₀ m (goes_on q m') ((job, e, p), l) =
      inr (job, rw (loop-stops fuel q m' l) (end-stops q m') ∙ e, p)
  loop-IsAtMostOne fuel q₀ m (stops q m') e = inl (end-stops q m' ∙ e)
  loop-IsAtMostOne fuel q₀ m (throws q x) e = inl e

  plan-IsAtMostOne :
      (q₀ q : PlanQueue) (m : PlanMetadata)
      → ((step_id : String)
          → (ensure_approvals q.service env.now plan_id step_id).1
            ≡ (ensure_approvals q₀.service env.now plan_id step_id).1)
      → q.enqueued ≡ q₀.enqueued
      → IsInStep m
      → IsAtMostOne q₀ m (release_plan q env plan_id (some m)).0.enqueued
  unfolding release_plan release_loop
  plan-IsAtMostOne q₀ q m a same i =
      loop-IsAtMostOne (length m.steps) q₀ m (release_step q env plan_id m)
        (release_step-IsRound q₀ q m a same i)

-- What one release comes to, where the plan may be unknown.
abbrev pub IsReleased : PlanQueue → Env → (plan_id : String) → List PlanJob → Type 0
IsReleased q env plan_id jobs =
    (jobs ≡ q.enqueued)
    ⊎ ((m : PlanMetadata) × ((get_plan_metadata q.service.store env.now plan_id).1 ≡ some m)
        × (job : PlanJob) × (jobs ≡ job ∷ q.enqueued)
        × IsPermitted q env plan_id m job)

found-IsReleased :
    (q : PlanQueue) (env : Env) (plan_id : String) (o : Option PlanMetadata)
    → IsSequential q
    → (get_plan_metadata q.service.store env.now plan_id).1 ≡ o
    → IsReleased q env plan_id
        (release_plan (with_store q (after_purge q.service.store env.now)) env plan_id o).0.enqueued
unfolding IsAtMostOne release_plan
found-IsReleased q env plan_id none h e = inl refl
found-IsReleased q env plan_id (some m) h e =
    elim (plan-IsAtMostOne env plan_id q (with_store q (after_purge q.service.store env.now)) m
      (λ step_id. ensure-after q.service env.now plan_id step_id) refl
      (get_plan-IsInStep q.service.store env.now h plan_id m e)) [
        | inl same ↦ inl same
        | inr (job, here, p) ↦ inr (m, e, job, here, p)
      ]

release-IsReleased :
    (q : PlanQueue) (env : Env) (plan_id : String)
    → IsSequential q
    → IsReleased q env plan_id (release_next_plan_steps q env plan_id).0.enqueued
unfolding release_next_plan_steps get_plan_metadata
release-IsReleased q env plan_id h =
    let p = get_plan_metadata q.service.store env.now plan_id in
    if-cases (λ r. IsReleased q env plan_id r.0.enqueued) env.has_release_lock
      (release_plan (with_store q p.0) env plan_id p.1) (q, some lock_failed)
      (λ b. found-IsReleased q env plan_id p.1 h refl) (λ b. inl refl)

-- A release puts at most one job on the queue of steps, and only one that may go there. Begin with
-- an empty store and take any events. A release of any plan after them, whatever the lock, the
-- policy and the queue do, enqueues nothing, or one job: it is for the step at lastCompletedIndex
-- + 1 of the metadata that the plan has then, the one after its furthest completed step; the
-- policy permits that step with the approvals that the queue manager has for it (it denies at most
-- for want of an approval that the step requires), and where the step requires an approval, the
-- approval of its capability is there.
pub release-IsPermitted :
    (retention : Option ℕ) (faults : List Bool) (es : List Event) (env : Env) (plan_id : String)
    → let q = run (new_queue retention faults) es in
      IsReleased q env plan_id (release_next_plan_steps q env plan_id).0.enqueued
release-IsPermitted retention faults es env plan_id =
    release-IsReleased (run (new_queue retention faults) es) env plan_id
      (run-IsSequential (new_queue retention faults) es (new_queue-IsSequential retention faults))

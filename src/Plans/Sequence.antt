-- ===== src/Plans/Sequence.antt =====
-- The methods of the queue manager and of the consumer of completions keep the counters of the
-- plans in step.
use ai_agent_tool.Common.{
  ℕ, ◌≡◌, inl, inr, refl, sym, subst, Bool, Option, none, some, String, arith, Option-cases,
}
use ai_agent_tool.Common.Map
use ai_agent_tool.Common.Map.{Map}
use ai_agent_tool.Plans.Data.{PersistedStep, PlanStep, PlanStepState}
use ai_agent_tool.Plans.Store.{to_key, get_entry, forget_step}
use ai_agent_tool.Plans.Service.{
  PlanJob, PlanStateService, ensure_approvals, prune_plan_subject, clear_approvals,
  delete_registry_entry,
}
use ai_agent_tool.Plans.Queue.{
  Env, PlanQueue, emit_plan_event, drop_step, cleanup_found, cleanup_plan_session, remember_new,
}
use ai_agent_tool.Plans.Order.{
  IsOrderly, after_purge-IsOrderly, remember_step-IsOrderly, set_state-IsOrderly,
  forget_step-IsOrderly,
}

-- The plans of a queue's store are in step.
abbrev pub IsSequential : PlanQueue → Type 0
IsSequential q = IsOrderly q.service.store

prune_store :
    (s : PlanStateService) (plan_id : String) → (prune_plan_subject s plan_id).store ≡ s.store
unfolding prune_plan_subject
prune_store s plan_id = ground arith

cleanup_found_service :
    (q : PlanQueue) (plan_id : String) (o : Option String)
    → (cleanup_found q plan_id o).service ≡ q.service
cleanup_found_service q plan_id none = refl
cleanup_found_service q plan_id (some id) = ground arith

pub cleanup_service :
    (q : PlanQueue) (plan_id : String) → (cleanup_plan_session q plan_id).service ≡ q.service
unfolding cleanup_plan_session
cleanup_service q plan_id = cleanup_found_service q plan_id (Map.get plan_id q.plan_sessions)

-- The small operations.
module _ (q : PlanQueue) (env : Env) (h : IsSequential q) where
  pub emit-IsSequential :
      (plan_id : String) (step : PlanStep) (state : PlanStepState) (summary : Option String)
      (attempt : ℕ)
      → IsSequential (emit_plan_event q env plan_id step state summary attempt)
  emit-IsSequential plan_id step state summary attempt =
      set_state-IsOrderly q.service.store env.now h plan_id step.id state summary (some attempt)

  pub drop-IsSequential :
      (plan_id step_id : String) → IsSequential (drop_step q env plan_id step_id)
  drop-IsSequential plan_id step_id =
      let s = clear_approvals (delete_registry_entry q.service plan_id step_id) plan_id step_id in
      subst IsOrderly
        (sym
          (prune_store (record s { store = forget_step s.store env.now plan_id step_id }) plan_id))
        (forget_step-IsOrderly q.service.store env.now h plan_id step_id)

  pub cleanup-IsSequential : (plan_id : String) → IsSequential (cleanup_plan_session q plan_id)
  cleanup-IsSequential plan_id = subst (λ s. IsOrderly s.store) (sym (cleanup_service q plan_id)) h

  pub get_entry-IsOrderly :
      (plan_id step_id : String) → IsOrderly (get_entry q.service.store env.now plan_id step_id).0
  unfolding get_entry
  get_entry-IsOrderly plan_id step_id = after_purge-IsOrderly q.service.store env.now h

  pub ensure-IsOrderly :
      (plan_id step_id : String)
      → IsOrderly (ensure_approvals q.service env.now plan_id step_id).0.store
  unfolding ensure_approvals
  ensure-IsOrderly plan_id step_id =
      elim (Option-cases (Map.get (to_key plan_id step_id) q.service.approval_cache)) [
        | inl e ↦ rw e (get_entry-IsOrderly plan_id step_id)
        | inr (m, e) ↦ rw e h
      ]

  pub remember_new-IsSequential :
      (job : PlanJob) (state : PlanStepState) (approvals : Map Bool) (o : Option PersistedStep)
      → IsSequential (remember_new q env job state approvals o)
  remember_new-IsSequential job state approvals none =
      remember_step-IsOrderly q.service.store env.now h env.uuid job.plan_id job.step job.trace_id _
  remember_new-IsSequential job state approvals (some e) = h

-- ===== src/Plans/Service.antt =====
-- `PlanStateService` of services/orchestrator/src/services/PlanStateService.ts, over the store of
-- Plans.Store. The plan lock is not here: whether it is had is an argument of what takes it.
use Prim.Native.Char.{code}
use Prim.Native.String.{◌++◌ as append_str}
use ai_agent_tool.Common.{
  ℕ, Bool, true, false, Option, none, some, [], String, any, ◌==◌, if◌then◌else◌,
}
use ai_agent_tool.Common.Map
use ai_agent_tool.Common.Map.{Map}
use ai_agent_tool.Plans.Data.{PlanStep, PlanSubject, PersistedStep}
use ai_agent_tool.Plans.Store.{PlanStateStore, to_key, get_entry}

pub record PlanJob : Type 0 where
  pub plan_id : String
  pub step : PlanStep
  pub attempt : ℕ
  pub created_at : Option ℕ
  pub trace_id : String
  pub request_id : Option String
  pub subject : Option PlanSubject

pub record RegistryEntry : Type 0 where
  pub step : PlanStep
  pub trace_id : String
  pub request_id : Option String
  pub job : PlanJob
  pub in_flight : Bool

pub record PlanStateService : Type 0 where
  pub store : PlanStateStore
  pub step_registry : Map RegistryEntry
  pub approval_cache : Map (Map Bool)
  pub plan_subjects : Map PlanSubject
  pub retained_plan_subjects : Map PlanSubject

abbrev pub get_registry_entry : PlanStateService → (plan_id step_id : String) → Option RegistryEntry
get_registry_entry s plan_id step_id = Map.get (to_key plan_id step_id) s.step_registry

abbrev pub set_registry_entry :
    PlanStateService → (plan_id step_id : String) → RegistryEntry → PlanStateService
set_registry_entry s plan_id step_id e = record s {
  step_registry = Map.set (to_key plan_id step_id) e s.step_registry;
}

abbrev pub delete_registry_entry : PlanStateService → (plan_id step_id : String) → PlanStateService
delete_registry_entry s plan_id step_id = record s {
  step_registry = Map.delete (to_key plan_id step_id) s.step_registry;
}

abbrev pub cache_approvals :
    PlanStateService → (plan_id step_id : String) → Map Bool → PlanStateService
cache_approvals s plan_id step_id approvals = record s {
  approval_cache = Map.set (to_key plan_id step_id) approvals s.approval_cache;
}

abbrev pub clear_approvals : PlanStateService → (plan_id step_id : String) → PlanStateService
clear_approvals s plan_id step_id = record s {
  approval_cache = Map.delete (to_key plan_id step_id) s.approval_cache;
}

abbrev pub approvals_of : Option PersistedStep → Map Bool
approvals_of none = []
approvals_of (some e) = elim e.approvals [ none ↦ [] | some m ↦ m ]

abbrev pub ensure_cached :
    PlanStateService → ℕ → String → String → Option (Map Bool) → PlanStateService × Map Bool
ensure_cached s now plan_id step_id (some cached) = (s, cached)
ensure_cached s now plan_id step_id none =
    let (store, persisted) = get_entry s.store now plan_id step_id in
    (
      cache_approvals (record s { store = store }) plan_id step_id (approvals_of persisted),
      approvals_of persisted,
    )

-- The approvals of a step: those in the cache, else those in the store, which are then cached.
unfoldable pub ensure_approvals :
    PlanStateService → (now : ℕ) (plan_id step_id : String) → PlanStateService × Map Bool
ensure_approvals s now plan_id step_id =
    ensure_cached s now plan_id step_id (Map.get (to_key plan_id step_id) s.approval_cache)

abbrev pub set_plan_subject : PlanStateService → (plan_id : String) → PlanSubject → PlanStateService
set_plan_subject s plan_id subject = record s {
  plan_subjects = Map.set plan_id subject s.plan_subjects;
}

abbrev pub delete_plan_subject : PlanStateService → (plan_id : String) → PlanStateService
delete_plan_subject s plan_id = record s { plan_subjects = Map.delete plan_id s.plan_subjects }

-- Its timeout is an event, which deletes the subject as this does.
abbrev pub clear_retained_plan_subject : PlanStateService → (plan_id : String) → PlanStateService
clear_retained_plan_subject s plan_id = record s {
  retained_plan_subjects = Map.delete plan_id s.retained_plan_subjects;
}

abbrev pub retain_completed_plan_subject :
    PlanStateService → (plan_id : String) → PlanSubject → PlanStateService
retain_completed_plan_subject s plan_id subject =
    let s' = clear_retained_plan_subject s plan_id in
    record s' { retained_plan_subjects = Map.set plan_id subject s'.retained_plan_subjects }

-- `key.startsWith(prefix)`.
unfoldable pub starts_with : (prefix key : String) → Bool
starts_with String.[] key = true
starts_with (String.◌∷◌ c p) String.[] = false
starts_with (String.◌∷◌ c p) (String.◌∷◌ d k) =
    let rest = starts_with p k in if code c == code d then rest else false

abbrev pub any_starts_with {ℓ} : {V : Type ℓ} → String → Map V → Bool
unfolding starts_with
any_starts_with prefix m = any (λ e. starts_with prefix e.0) m

abbrev pub retain_found : PlanStateService → String → Option PlanSubject → PlanStateService
retain_found s plan_id none = s
retain_found s plan_id (some subject) =
    retain_completed_plan_subject (delete_plan_subject s plan_id) plan_id subject

-- Once no step of the plan is registered, its subject is only retained. (The code is the same in
-- the queue manager and in both consumers.)
unfoldable pub prune_plan_subject : PlanStateService → (plan_id : String) → PlanStateService
unfolding any_starts_with
prune_plan_subject s plan_id =
    if any_starts_with (append_str plan_id ":") s.step_registry
    then s
    else retain_found s plan_id (Map.get plan_id s.plan_subjects)

unfoldable pub clear_all : PlanStateService → PlanStateService
clear_all s = record s {
  step_registry = [];
  approval_cache = [];
  plan_subjects = [];
  retained_plan_subjects = [];
}

-- ===== src/Plans/Approvals.antt =====
-- The approvals that the release of a step reads are the same before and after expired entries are
-- purged.
use ai_agent_tool.Common.{
  ℕ, ◌≡◌, inl, inr, refl, sym, ap, ◌∙◌, Bool, not, Option, none, some, List, [], ◌∷◌, String, arith,
  Option-cases, filter,
}
use ai_agent_tool.Common.Map
use ai_agent_tool.Common.Map.{Map}
use ai_agent_tool.Common.Keys.{drop_entries}
use ai_agent_tool.Plans.Data.{PersistedStep}
use ai_agent_tool.Plans.Store.{
  PlanStateStore, to_key, persist, persist_if, purge_after, purge_expired, after_purge, get_entry,
  is_step_expired,
}
use ai_agent_tool.Plans.Service.{PlanStateService, ensure_approvals, approvals_of}

-- The entries that a purge leaves.
abbrev live : Option ℕ → ℕ → Map PersistedStep → Map PersistedStep
live none now m = m
live (some r) now m = drop_entries (is_step_expired r now) m

filter-filter {ℓ} : {A : Type ℓ} (p : A → Bool) (xs : List A) → filter p (filter p xs) ≡ filter p xs
filter-filter p [] = refl
filter-filter p (x ∷ xs) = ground (arith, filter-filter p xs)

live-live :
    (o : Option ℕ) (now : ℕ) (m : Map PersistedStep) → live o now (live o now m) ≡ live o now m
live-live none now m = refl
live-live (some r) now m = filter-filter (λ e. not (is_step_expired r now e.1)) m

persist_if_records : (s : PlanStateStore) (b : Bool) → (persist_if (s, b)).records ≡ s.records
unfolding persist_if persist
persist_if_records s b = ground arith

persist_if_retention : (s : PlanStateStore) (b : Bool) → (persist_if (s, b)).retention ≡ s.retention
unfolding persist_if persist
persist_if_retention s b = ground arith

purge_records :
    (s : PlanStateStore) (now : ℕ) (o : Option ℕ)
    → (purge_after s now o).0.records ≡ live o now s.records
purge_records s now none = refl
purge_records s now (some r) = refl

purge_retention :
    (s : PlanStateStore) (now : ℕ) (o : Option ℕ) → (purge_after s now o).0.retention ≡ s.retention
purge_retention s now none = refl
purge_retention s now (some r) = refl

after_records :
    (s : PlanStateStore) (now : ℕ) → (after_purge s now).records ≡ live s.retention now s.records
unfolding after_purge purge_expired
after_records s now =
    persist_if_records (purge_after s now s.retention).0 (purge_after s now s.retention).1
    ∙ purge_records s now s.retention

after_retention : (s : PlanStateStore) (now : ℕ) → (after_purge s now).retention ≡ s.retention
unfolding after_purge purge_expired
after_retention s now =
    persist_if_retention (purge_after s now s.retention).0 (purge_after s now s.retention).1
    ∙ purge_retention s now s.retention

after-after :
    (s : PlanStateStore) (now : ℕ)
    → (after_purge (after_purge s now) now).records ≡ (after_purge s now).records
after-after s now =
    after_records (after_purge s now) now
    ∙ rw (after_retention s now, after_records s now) (live-live s.retention now s.records)
    ∙ sym (after_records s now)

get_entry-after :
    (s : PlanStateStore) (now : ℕ) (plan_id step_id : String)
    → (get_entry (after_purge s now) now plan_id step_id).1 ≡ (get_entry s now plan_id step_id).1
unfolding get_entry
get_entry-after s now plan_id step_id = ap (Map.get (to_key plan_id step_id)) (after-after s now)

pub ensure-after :
    (s : PlanStateService) (now : ℕ) (plan_id step_id : String)
    → (ensure_approvals (record s { store = after_purge s.store now }) now plan_id step_id).1
      ≡ (ensure_approvals s now plan_id step_id).1
unfolding ensure_approvals
ensure-after s now plan_id step_id =
    elim (Option-cases (Map.get (to_key plan_id step_id) s.approval_cache)) [
      | inl e ↦ rw e (ap approvals_of (get_entry-after s.store now plan_id step_id))
      | inr (m, e) ↦ rw e refl
    ]

-- ===== src/Plans/Durable.antt =====
-- What the store of services/orchestrator/src/queue/PlanStateStore.ts holds survives a restart.
use ai_agent_tool.Common.{
  ℕ, ◌≡◌, inl, inr, refl, sym, ap, ◌∙◌, subst, true, false, Option, none, some, List, [], ◌∷◌,
  String, eq_iff, str_eq, All, Bool-cases, map,
}
use ai_agent_tool.Common.Map
use ai_agent_tool.Common.Map.{Map}
use ai_agent_tool.Common.Keys.{AreKeysDistinct, AreKeyed}
use ai_agent_tool.Plans.Data.{PersistedStep, PlanRecord}
use ai_agent_tool.Plans.Store.{
  PlanStateStore, absent, to_key, new_store, or_else, store_step, load_steps, store_plan,
  load_plans, ensure_loaded, metadata_of, load_file, load_document, entries_of,
}
use ai_agent_tool.Plans.Calls.{Call, run, IsProper}
use ai_agent_tool.Plans.Synced.{step_key, plan_key, IsSynced, run-IsSynced}

get-load_steps :
    (m acc : Map PersistedStep) (k : String)
    → AreKeyed step_key m
    → AreKeysDistinct m
    → Map.get k (load_steps (Map.values m) acc) ≡ or_else (Map.get k m) (Map.get k acc)
unfolding load_steps Map.get
get-load_steps [] acc k h d = refl
get-load_steps ((j, e) ∷ m) acc k h d =
    let ih = get-load_steps m (store_step e acc) k h.1 d.1 in
    let stored = Map.get-set j k e acc in
    elim (Bool-cases (str_eq j k)) [
      | inl b ↦
          let once = subst (λ i. Map.get i m ≡ none) ((eq_iff j k).0 b) d.0 in
          ih ∙ rw (h.0, once, stored, b) refl
      | inr b ↦ ih ∙ rw (h.0, stored, b) refl
    ]

get-load_plans :
    (now : ℕ) (m acc : Map PlanRecord) (k : String)
    → AreKeyed plan_key m
    → AreKeysDistinct m
    → metadata_of (Map.get k (load_plans now (map (λ r. r.metadata) (Map.values m)) acc))
      ≡ or_else (metadata_of (Map.get k m)) (metadata_of (Map.get k acc))
unfolding load_plans Map.get
get-load_plans now [] acc k h d = refl
get-load_plans now ((j, r) ∷ m) acc k h d =
    let ih = get-load_plans now m (store_plan now r.metadata acc) k h.1 d.1 in
    let stored =
      Map.get-set (plan_key r) k (record { metadata = r.metadata; updated_at = some now }) acc in
    elim (Bool-cases (str_eq j k)) [
      | inl b ↦
          let once = subst (λ i. Map.get i m ≡ none) ((eq_iff j k).0 b) d.0 in
          let here = subst (λ i. str_eq i k ≡ true) (sym h.0) b in
          ih ∙ rw (stored, here, once, b) refl
      | inr b ↦
          let elsewhere = subst (λ i. str_eq i k ≡ false) (sym h.0) b in
          ih ∙ rw (stored, elsewhere, b) refl
    ]

steps_back : (l : List PersistedStep) → entries_of (map some l) ≡ l
steps_back [] = refl
steps_back (e ∷ es) = ap (λ l. e ∷ l) (steps_back es)

plans_back :
    (l : List PlanRecord) → entries_of (map (λ r. some r.metadata) l) ≡ map (λ r. r.metadata) l
plans_back [] = refl
plans_back (r ∷ rs) = ap (λ l. r.metadata ∷ l) (plans_back rs)

or_else-none {ℓ} : {A : Type ℓ} (o : Option A) → or_else o none ≡ o
or_else-none none = refl
or_else-none (some a) = refl

-- A loaded store agrees with another one on an entry and on a plan.
abbrev pub IsRestored : PlanStateStore → (plan_id step_id : String) → Option PlanStateStore → Type 0
IsRestored s plan_id step_id o =
    (s' : PlanStateStore) × (o ≡ some s')
    × (Map.get (to_key plan_id step_id) s'.records ≡ Map.get (to_key plan_id step_id) s.records)
    × (metadata_of (Map.get plan_id s'.plan_records) ≡ metadata_of (Map.get plan_id s.plan_records))

load-IsRestored :
    (s : PlanStateStore) (retention : Option ℕ) (now : ℕ) (plan_id step_id : String)
    → IsSynced s
    → IsRestored s plan_id step_id (ensure_loaded (new_store retention s.file []) now)
unfolding ensure_loaded load_file load_document new_store load_plans load_steps Map.get
load-IsRestored s retention now plan_id step_id (h, inl d) =
    let begin = new_store retention s.file [] in
    let steps = steps_back (Map.values s.records) in
    let plans = plans_back (Map.values s.plan_records) in
    let loaded : PlanStateStore = record begin {
      records = load_steps (Map.values s.records) [];
      plan_records = load_plans now (map (λ r. r.metadata) (Map.values s.plan_records)) [];
    } in
    (
      loaded,
      rw (d, steps, plans) refl,
      get-load_steps s.records [] (to_key plan_id step_id) h.steps_keyed h.steps_distinct
          ∙ or_else-none (Map.get (to_key plan_id step_id) s.records),
      get-load_plans now s.plan_records [] plan_id h.plans_keyed h.plans_distinct
          ∙ or_else-none (metadata_of (Map.get plan_id s.plan_records)),
    )
load-IsRestored s retention now plan_id step_id (h, inr (d, steps, plans)) =
    (new_store retention s.file [], rw d refl, rw steps refl, rw plans refl)

new_store-IsSynced : (retention : Option ℕ) → IsSynced (new_store retention absent [])
unfolding new_store
new_store-IsSynced retention = (
  record {
    is_open = refl;
    works = refl;
    steps_keyed = tt;
    steps_distinct = tt;
    plans_keyed = tt;
    plans_distinct = tt;
  },
  inr (refl, refl, refl),
)

-- What the store holds is in its file, and loads again. Take a store that begins without a file,
-- and any calls of its methods other than `close`, purges included, in which every plan's metadata
-- is stored under its own id and every write of the file succeeds. Take the file's text to be read
-- by JSON.parse as the document that was written. A store that is then opened on the file, with
-- any retention and at any time, loads, and has for every plan and step the same entry, and for
-- every plan the same metadata.
pub restart-IsRestored :
    (retention retention' : Option ℕ) (now : ℕ) (calls : List Call) (plan_id step_id : String)
    → All IsProper calls
    → let s = run (new_store retention absent []) calls in
      IsRestored s plan_id step_id (ensure_loaded (new_store retention' s.file []) now)
restart-IsRestored retention retention' now calls plan_id step_id p =
    load-IsRestored (run (new_store retention absent []) calls) retention' now plan_id step_id
      (run-IsSynced (new_store retention absent []) calls p (new_store-IsSynced retention))

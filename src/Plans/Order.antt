-- ===== src/Plans/Order.antt =====
-- How far the release of a plan's steps is ahead of their completions.
use ai_agent_tool.Common.{
  ℕ, ◌+◌, ◌≤◌, ◌≡◌, inl, inr, Bool, true, false, ◌||◌, Option, none, some, List, [], ◌∷◌, String,
  arith, str_eq, All, Bool-cases, if-cases, if◌then◌else◌, length, map, fails, rest,
}
use ai_agent_tool.Common.Map
use ai_agent_tool.Common.Map.{Map}
use ai_agent_tool.Common.Keys.{drop_entries}
use ai_agent_tool.Plans.Data.{PersistedStep, PlanMetadata, PlanRecord, PlanStep, PlanStepState}
use ai_agent_tool.Plans.Store.{
  File, absent, unreadable, document, PlanStateStore, to_key, document_of, persist, persist_if,
  purge_expired, purge_after, StepOptions, remember_step, set_found, set_state, approve_found,
  record_approval, forget_step, after_purge, remember_plan_metadata, forget_plan_metadata,
  get_plan_metadata, metadata_of, is_plan_expired, is_there, store_step, new_entry, load_plans,
  load_file, load_document, entries_of, plans_of,
}

-- The next step to release is the one after the furthest completed step, or the one after that. It
-- is in the plan, or the end of it.
abbrev pub IsInStep : PlanMetadata → Type 0
IsInStep m =
    (m.completed_up_to ≤ m.next_step_index)
    × (m.next_step_index ≤ m.completed_up_to + 1)
    × (m.next_step_index ≤ length m.steps)

abbrev AreInStep : Map PlanRecord → Type 0
AreInStep [] = Unit
AreInStep ((k, r) ∷ m) = IsInStep r.metadata × AreInStep m

-- So are the plans in the file.
abbrev IsFileInStep : File → Type 0
IsFileInStep absent = Unit
IsFileInStep unreadable = Unit
IsFileInStep (document d) = All IsInStep (plans_of d.plans)

abbrev pub IsOrderly : PlanStateStore → Type 0
IsOrderly s = AreInStep s.plan_records × IsFileInStep s.file

set-AreInStep :
    (m : Map PlanRecord) (k : String) (r : PlanRecord)
    → IsInStep r.metadata
    → AreInStep m
    → AreInStep (Map.set k r m)
unfolding Map.set
set-AreInStep [] k r h a = (h, tt)
set-AreInStep ((j, x) ∷ m) k r h a = elim (Bool-cases (str_eq j k)) [
  | inl e ↦ rw e (h, a.1)
  | inr e ↦ rw e (a.0, set-AreInStep m k r h a.1)
]

delete-AreInStep : (m : Map PlanRecord) (k : String) → AreInStep m → AreInStep (Map.delete k m)
unfolding Map.delete
delete-AreInStep [] k a = tt
delete-AreInStep ((j, x) ∷ m) k a =
    let rest = delete-AreInStep m k a.1 in
    elim (Bool-cases (str_eq j k)) [ inl e ↦ rw e rest | inr e ↦ rw e (a.0, rest) ]

drop-AreInStep :
    (p : PlanRecord → Bool) (m : Map PlanRecord) → AreInStep m → AreInStep (drop_entries p m)
drop-AreInStep p [] a = tt
drop-AreInStep p ((j, x) ∷ m) a =
    let rest = drop-AreInStep p m a.1 in
    elim (Bool-cases (p x)) [ inl e ↦ rw e rest | inr e ↦ rw e (a.0, rest) ]

-- What is found is in step.
Found : Option PlanRecord → Type 0
Found none = Unit
Found (some r) = IsInStep r.metadata

metadata_of-IsInStep :
    (o : Option PlanRecord) (m : PlanMetadata) → Found o → metadata_of o ≡ some m → IsInStep m
unfolding Found
metadata_of-IsInStep none m h e = ground arith
metadata_of-IsInStep (some r) m h e = ground arith

get-AreInStep : (m : Map PlanRecord) (k : String) → AreInStep m → Found (Map.get k m)
unfolding Map.get Found
get-AreInStep [] k a = tt
get-AreInStep ((j, x) ∷ m) k a =
    let rest = get-AreInStep m k a.1 in
    elim (Bool-cases (str_eq j k)) [ inl e ↦ rw e a.0 | inr e ↦ rw e rest ]

values-InStep :
    (m : Map PlanRecord)
    → AreInStep m
    → All IsInStep (entries_of (map (λ r. some r.metadata) (Map.values m)))
values-InStep [] a = tt
values-InStep ((k, r) ∷ m) a = (a.0, values-InStep m a.1)

-- A write of the file keeps the plans in step.
persist-IsOrderly : (s : PlanStateStore) → IsOrderly s → IsOrderly (persist s)
unfolding persist
persist-IsOrderly s h =
    let written = record s { file = document (document_of s); faults = rest s.faults } in
    let without = record s { faults = rest s.faults } in
    if-cases IsOrderly s.closed s (if fails s.faults then without else written) (λ b. h)
      (λ b.
        if-cases IsOrderly (fails s.faults) without written (λ c. h)
          (λ c. (h.0, values-InStep s.plan_records h.0)))

keep_records-IsOrderly :
    (s : PlanStateStore) (records : Map PersistedStep)
    → IsOrderly s
    → IsOrderly (persist (record s { records = records }))
keep_records-IsOrderly s records h = persist-IsOrderly (record s { records = records }) h

persist_if-IsOrderly : (s : PlanStateStore) (b : Bool) → IsOrderly s → IsOrderly (persist_if (s, b))
unfolding persist_if
persist_if-IsOrderly s true h = persist-IsOrderly s h
persist_if-IsOrderly s false h = h

purge_after-IsOrderly :
    (s : PlanStateStore) (now : ℕ) (o : Option ℕ) → IsOrderly s → IsOrderly (purge_after s now o).0
purge_after-IsOrderly s now none h = h
purge_after-IsOrderly s now (some r) h =
    (drop-AreInStep (is_plan_expired r now) s.plan_records h.0, h.1)

purge-IsOrderly : (s : PlanStateStore) (now : ℕ) → IsOrderly s → IsOrderly (purge_expired s now).0
unfolding purge_expired
purge-IsOrderly s now h = purge_after-IsOrderly s now s.retention h

set_found-IsOrderly :
    (s : PlanStateStore) (b : Bool) (now : ℕ) (key : String) (state : PlanStepState)
    (summary : Option String) (attempt : Option ℕ) (o : Option PersistedStep)
    → IsOrderly s
    → IsOrderly (set_found (s, b) now key state summary attempt o)
unfolding set_found
set_found-IsOrderly s b now key state summary attempt none h = persist_if-IsOrderly s b h
set_found-IsOrderly s b now key state summary attempt (some e) h = keep_records-IsOrderly s _ h

approve_found-IsOrderly :
    (s : PlanStateStore) (b : Bool) (now : ℕ) (key capability : String) (granted : Bool)
    (o : Option PersistedStep)
    → IsOrderly s
    → IsOrderly (approve_found (s, b) now key capability granted o)
unfolding approve_found
approve_found-IsOrderly s b now key capability granted none h = persist_if-IsOrderly s b h
approve_found-IsOrderly s b now key capability granted (some e) h = keep_records-IsOrderly s _ h

-- Each method of the store keeps the plans in step.
module _ (s : PlanStateStore) (now : ℕ) (h : IsOrderly s) where
  pub after_purge-IsOrderly : IsOrderly (after_purge s now)
  unfolding after_purge
  after_purge-IsOrderly =
      persist_if-IsOrderly (purge_expired s now).0 (purge_expired s now).1 (purge-IsOrderly s now h)

  pub remember_step-IsOrderly :
      (uuid plan_id : String) (step : PlanStep) (trace_id : String) (o : StepOptions)
      → IsOrderly (remember_step s now uuid plan_id step trace_id o)
  unfolding remember_step
  remember_step-IsOrderly uuid plan_id step trace_id o =
      let s' = (purge_expired s now).0 in
      keep_records-IsOrderly s' (store_step (new_entry now uuid plan_id step trace_id o) s'.records)
        (purge-IsOrderly s now h)

  pub set_state-IsOrderly :
      (plan_id step_id : String) (state : PlanStepState) (summary : Option String)
      (attempt : Option ℕ)
      → IsOrderly (set_state s now plan_id step_id state summary attempt)
  unfolding set_state
  set_state-IsOrderly plan_id step_id state summary attempt =
      set_found-IsOrderly (purge_expired s now).0 (purge_expired s now).1 now
        (to_key plan_id step_id) state summary attempt _ (purge-IsOrderly s now h)

  pub record_approval-IsOrderly :
      (plan_id step_id capability : String) (granted : Bool)
      → IsOrderly (record_approval s now plan_id step_id capability granted)
  unfolding record_approval
  record_approval-IsOrderly plan_id step_id capability granted =
      approve_found-IsOrderly (purge_expired s now).0 (purge_expired s now).1 now
        (to_key plan_id step_id) capability granted _ (purge-IsOrderly s now h)

  pub forget_step-IsOrderly :
      (plan_id step_id : String) → IsOrderly (forget_step s now plan_id step_id)
  unfolding forget_step
  forget_step-IsOrderly plan_id step_id =
      let s' = (purge_expired s now).0 in
      let key = to_key plan_id step_id in
      persist_if-IsOrderly (record s' { records = Map.delete key s'.records })
        ((purge_expired s now).1 || is_there (Map.get key s'.records)) (purge-IsOrderly s now h)

  pub remember_plan-IsOrderly :
      (plan_id : String) (m : PlanMetadata)
      → IsInStep m
      → IsOrderly (remember_plan_metadata s now plan_id m)
  unfolding remember_plan_metadata
  remember_plan-IsOrderly plan_id m i =
      let p = purge-IsOrderly s now h in
      let r : PlanRecord = record { metadata = m; updated_at = some now } in
      let s' = (purge_expired s now).0 in
      persist-IsOrderly (record s' { plan_records = Map.set plan_id r s'.plan_records })
        (set-AreInStep s'.plan_records plan_id r i p.0, p.1)

  pub forget_plan-IsOrderly : (plan_id : String) → IsOrderly (forget_plan_metadata s now plan_id)
  unfolding forget_plan_metadata
  forget_plan-IsOrderly plan_id =
      let p = purge-IsOrderly s now h in
      let s' = (purge_expired s now).0 in
      persist_if-IsOrderly (record s' { plan_records = Map.delete plan_id s'.plan_records })
        ((purge_expired s now).1 || is_there (Map.get plan_id s'.plan_records))
        (delete-AreInStep s'.plan_records plan_id p.0, p.1)

  pub get_plan-IsInStep :
      (plan_id : String) (m : PlanMetadata)
      → (get_plan_metadata s now plan_id).1 ≡ some m
      → IsInStep m
  unfolding get_plan_metadata Found
  get_plan-IsInStep plan_id m e =
      metadata_of-IsInStep (Map.get plan_id (after_purge s now).plan_records) m
        (get-AreInStep (after_purge s now).plan_records plan_id after_purge-IsOrderly.0) e

load_plans-AreInStep :
    (now : ℕ) (ms : List PlanMetadata) (m : Map PlanRecord)
    → All IsInStep ms
    → AreInStep m
    → AreInStep (load_plans now ms m)
unfolding load_plans
load_plans-AreInStep now [] m h a = a
load_plans-AreInStep now (p ∷ ps) m h a =
    let r : PlanRecord = record { metadata = p; updated_at = some now } in
    load_plans-AreInStep now ps (Map.set p.plan_id r m) h.1 (set-AreInStep m p.plan_id r h.0 a)

load_document-IsOrderly :
    (s : PlanStateStore) (now : ℕ) (o : Option (List (Option PersistedStep)))
    (ps : List PlanMetadata)
    → IsOrderly s
    → All IsInStep ps
    → IsOrderly (load_document s now o ps)
unfolding load_document
load_document-IsOrderly s now none ps h f = h
load_document-IsOrderly s now (some es) ps h f =
    (load_plans-AreInStep now ps s.plan_records f h.0, h.1)

-- What a store that is opened on the file loads is in step.
abbrev pub IsLoaded : Option PlanStateStore → Type 0
IsLoaded none = Unit
IsLoaded (some s) = IsOrderly s

pub load-IsLoaded :
    (s : PlanStateStore) (now : ℕ) (file : File)
    → IsOrderly s
    → IsFileInStep file
    → IsLoaded (load_file s now file)
unfolding load_file
load-IsLoaded s now absent h f = h
load-IsLoaded s now unreadable h f = tt
load-IsLoaded s now (document d) h f = load_document-IsOrderly s now d.steps (plans_of d.plans) h f

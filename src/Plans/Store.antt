-- ===== src/Plans/Store.antt =====
-- `FilePlanStateStore` of services/orchestrator/src/queue/PlanStateStore.ts. A method's `now` is the
-- clock's reading. The store's first method loads the file (`ensure_loaded`); the methods here are
-- called after. A method writes the file at its end, which may fail; a failure is ignored, and
-- leaves the file as it was. The file's text is modelled as the document that JSON.parse reads from
-- it, and a plan of the document that has an id has its list of steps.
use Prim.Native.String.{◌++◌ as append_str}
use ai_agent_tool.Common.{
  ℕ, ◌+◌, Bool, true, false, ◌||◌, Option, none, some, List, [], ◌∷◌, String, if◌then◌else◌, ltb,
  any, map, fails, rest,
}
use ai_agent_tool.Common.Map
use ai_agent_tool.Common.Map.{Map}
use ai_agent_tool.Common.Keys.{drop_entries}
use ai_agent_tool.Plans.Data.{
  PlanStep, PlanStepState, queued, is_terminal, PlanSubject, PersistedStep, PlanMetadata,
  PlanRecord, PersistedDocument,
}

pub data File : Type 0 where
  absent unreadable : File
  document : PersistedDocument → File

pub record PlanStateStore : Type 0 where
  pub retention : Option ℕ
  pub closed : Bool
  pub records : Map PersistedStep
  pub plan_records : Map PlanRecord
  pub file : File
  -- Whether the next writes fail.
  pub faults : List Bool

abbrev pub to_key : (plan_id step_id : String) → String
to_key plan_id step_id = append_str plan_id (append_str ":" step_id)

unfoldable pub new_store : (retention : Option ℕ) → File → (faults : List Bool) → PlanStateStore
new_store retention file faults = record {
  retention = elim retention [ none ↦ none | some r ↦ if ltb 0 r then some r else none ];
  closed = false;
  records = [];
  plan_records = [];
  file = file;
  faults = faults;
}

abbrev pub store_step : PersistedStep → Map PersistedStep → Map PersistedStep
store_step e m = Map.set (to_key e.plan_id e.step_id) e m

unfoldable pub load_steps : List PersistedStep → Map PersistedStep → Map PersistedStep
load_steps [] m = m
load_steps (e ∷ es) m = load_steps es (store_step e m)

abbrev pub store_plan : ℕ → PlanMetadata → Map PlanRecord → Map PlanRecord
store_plan now p m = Map.set p.plan_id (record { metadata = p; updated_at = some now }) m

unfoldable pub load_plans : (now : ℕ) → List PlanMetadata → Map PlanRecord → Map PlanRecord
load_plans now [] m = m
load_plans now (p ∷ ps) m = load_plans now ps (store_plan now p m)

-- The entries of an array that `load` takes.
abbrev pub entries_of {ℓ} : {A : Type ℓ} → List (Option A) → List A
entries_of [] = []
entries_of (none ∷ es) = entries_of es
entries_of (some e ∷ es) = e ∷ entries_of es

-- No entries where there is no array.
abbrev pub plans_of : Option (List (Option PlanMetadata)) → List PlanMetadata
plans_of none = []
plans_of (some ps) = entries_of ps

-- Without an array of steps nothing is loaded.
unfoldable pub load_document :
    PlanStateStore → ℕ → Option (List (Option PersistedStep)) → List PlanMetadata → PlanStateStore
unfolding load_steps load_plans
load_document s now none ps = s
load_document s now (some es) ps = record s {
  records = load_steps (entries_of es) s.records;
  plan_records = load_plans now ps s.plan_records;
}

unfoldable pub load_file : PlanStateStore → ℕ → File → Option PlanStateStore
unfolding load_document
load_file s now absent = some s
load_file s now unreadable = none
load_file s now (document d) = some (load_document s now d.steps (plans_of d.plans))

-- `load`; it throws where the file cannot be read.
unfoldable pub ensure_loaded : PlanStateStore → (now : ℕ) → Option PlanStateStore
unfolding load_file
ensure_loaded s now = load_file s now s.file

abbrev pub document_of : PlanStateStore → PersistedDocument
document_of s = record {
  steps = some (map some (Map.values s.records));
  plans = some (map (λ r. some r.metadata) (Map.values s.plan_records));
}

-- `enqueuePersist`, once the writes before are done.
unfoldable pub persist : PlanStateStore → PlanStateStore
persist s =
    if s.closed
    then s
    else if fails s.faults
    then record s { faults = rest s.faults }
    else record s { file = document (document_of s); faults = rest s.faults }

abbrev pub or_else {ℓ} : {A : Type ℓ} → Option A → Option A → Option A
or_else none o = o
or_else (some a) o = some a

abbrev pub is_before : Option ℕ → ℕ → ℕ → Bool
is_before none retention now = false
is_before (some time) retention now = ltb (time + retention) now

abbrev pub is_step_expired : ℕ → ℕ → PersistedStep → Bool
is_step_expired retention now e = is_before (or_else e.updated_at e.created_at) retention now

abbrev pub is_plan_expired : ℕ → ℕ → PlanRecord → Bool
is_plan_expired retention now r = is_before r.updated_at retention now

abbrev pub purge_after : PlanStateStore → ℕ → Option ℕ → PlanStateStore × Bool
purge_after s now none = (s, false)
purge_after s now (some r) = (
  record s {
    records = drop_entries (is_step_expired r now) s.records;
    plan_records = drop_entries (is_plan_expired r now) s.plan_records;
  },
  any (λ e. is_step_expired r now e.1) s.records
      || any (λ e. is_plan_expired r now e.1) s.plan_records,
)

-- The state after, and whether anything was removed.
unfoldable pub purge_expired : PlanStateStore → (now : ℕ) → PlanStateStore × Bool
purge_expired s now = purge_after s now s.retention

-- The end of a method that writes only what was purged.
unfoldable pub persist_if : PlanStateStore × Bool → PlanStateStore
unfolding persist
persist_if (s, changed) = if changed then persist s else s

pub record StepOptions : Type 0 where
  pub initial_state : Option PlanStepState
  pub idempotency_key : String
  pub attempt : ℕ
  pub created_at : Option ℕ
  pub request_id : Option String
  pub approvals : Option (Map Bool)
  pub subject : Option PlanSubject

abbrev pub new_entry : ℕ → String → String → PlanStep → String → StepOptions → PersistedStep
new_entry now uuid plan_id step trace_id o = record {
  id = uuid;
  plan_id = plan_id;
  step_id = step.id;
  trace_id = trace_id;
  request_id = o.request_id;
  step = step;
  state = elim o.initial_state [ none ↦ queued | some state ↦ state ];
  summary = none;
  updated_at = some now;
  attempt = o.attempt;
  idempotency_key = o.idempotency_key;
  created_at = o.created_at;
  approvals = o.approvals;
  subject = o.subject;
}

unfoldable pub remember_step :
    PlanStateStore
    → (now : ℕ) (uuid plan_id : String) → PlanStep
    → (trace_id : String) → StepOptions
    → PlanStateStore
unfolding purge_expired persist
remember_step s now uuid plan_id step trace_id o =
    let s' = (purge_expired s now).0 in
    persist
      (record s' { records = store_step (new_entry now uuid plan_id step trace_id o) s'.records })

abbrev pub with_state : ℕ → PlanStepState → Option String → Option ℕ → PersistedStep → PersistedStep
with_state now state summary attempt e = record e {
  state = state;
  summary = summary;
  updated_at = some now;
  attempt = elim attempt [ none ↦ e.attempt | some n ↦ n ];
}

unfoldable pub set_found :
    PlanStateStore × Bool
    → ℕ
    → String
    → PlanStepState
    → Option String
    → Option ℕ
    → Option PersistedStep
    → PlanStateStore
unfolding persist
set_found p now key state summary attempt none = persist_if p
set_found (s, purged) now key state summary attempt (some e) = persist (record s {
  records =
      if is_terminal state
      then Map.delete key s.records
      else Map.set key (with_state now state summary attempt e) s.records;
})

unfoldable pub set_state :
    PlanStateStore
    → (now : ℕ) (plan_id step_id : String) → PlanStepState
    → (summary : Option String) (attempt : Option ℕ) → PlanStateStore
unfolding set_found purge_expired
set_state s now plan_id step_id state summary attempt =
    let p = purge_expired s now in
    let key = to_key plan_id step_id in
    set_found p now key state summary attempt (Map.get key p.0.records)

abbrev pub granted_approvals : Option (Map Bool) → String → Bool → Map Bool
granted_approvals none capability granted = if granted then (capability, true) ∷ [] else []
granted_approvals (some m) capability granted =
    if granted then Map.set capability true m else Map.delete capability m

unfoldable pub approve_found :
    PlanStateStore × Bool → ℕ → String → String → Bool → Option PersistedStep → PlanStateStore
unfolding persist
approve_found p now key capability granted none = persist_if p
approve_found (s, purged) now key capability granted (some e) = persist (record s {
  records =
      Map.set key
        (record e {
          approvals = some (granted_approvals e.approvals capability granted);
          updated_at = some now;
        })
        s.records;
})

unfoldable pub record_approval :
    PlanStateStore
    → (now : ℕ) (plan_id step_id capability : String) (granted : Bool) → PlanStateStore
unfolding approve_found purge_expired
record_approval s now plan_id step_id capability granted =
    let p = purge_expired s now in
    let key = to_key plan_id step_id in
    approve_found p now key capability granted (Map.get key p.0.records)

abbrev pub is_there {ℓ} : {A : Type ℓ} → Option A → Bool
is_there none = false
is_there (some a) = true

unfoldable pub forget_step : PlanStateStore → (now : ℕ) (plan_id step_id : String) → PlanStateStore
unfolding purge_expired persist_if
forget_step s now plan_id step_id =
    let (s', purged) = purge_expired s now in
    let key = to_key plan_id step_id in
    persist_if (
      record s' { records = Map.delete key s'.records },
      purged || is_there (Map.get key s'.records),
    )

-- The queries purge as well.
unfoldable pub after_purge : PlanStateStore → (now : ℕ) → PlanStateStore
unfolding purge_expired persist_if
after_purge s now = persist_if (purge_expired s now)

unfoldable pub get_entry :
    PlanStateStore → (now : ℕ) (plan_id step_id : String) → PlanStateStore × Option PersistedStep
unfolding after_purge
get_entry s now plan_id step_id =
    let s' = after_purge s now in (s', Map.get (to_key plan_id step_id) s'.records)

unfoldable pub list_active_steps : PlanStateStore → (now : ℕ) → PlanStateStore × List PersistedStep
unfolding after_purge
list_active_steps s now = let s' = after_purge s now in (s', Map.values s'.records)

unfoldable pub remember_plan_metadata :
    PlanStateStore → (now : ℕ) (plan_id : String) → PlanMetadata → PlanStateStore
unfolding purge_expired persist
remember_plan_metadata s now plan_id p =
    let s' = (purge_expired s now).0 in
    persist (record s' {
      plan_records =
          Map.set plan_id (record { metadata = p; updated_at = some now }) s'.plan_records;
    })

abbrev pub metadata_of : Option PlanRecord → Option PlanMetadata
metadata_of none = none
metadata_of (some r) = some r.metadata

unfoldable pub get_plan_metadata :
    PlanStateStore → (now : ℕ) (plan_id : String) → PlanStateStore × Option PlanMetadata
unfolding after_purge
get_plan_metadata s now plan_id =
    let s' = after_purge s now in (s', metadata_of (Map.get plan_id s'.plan_records))

unfoldable pub list_plan_metadata : PlanStateStore → (now : ℕ) → PlanStateStore × List PlanMetadata
unfolding after_purge
list_plan_metadata s now =
    let s' = after_purge s now in (s', map (λ r. r.metadata) (Map.values s'.plan_records))

unfoldable pub forget_plan_metadata : PlanStateStore → (now : ℕ) (plan_id : String) → PlanStateStore
unfolding purge_expired persist_if
forget_plan_metadata s now plan_id =
    let (s', purged) = purge_expired s now in
    persist_if (
      record s' { plan_records = Map.delete plan_id s'.plan_records },
      purged || is_there (Map.get plan_id s'.plan_records),
    )

unfoldable pub clear : PlanStateStore → PlanStateStore
unfolding persist
clear s = persist (record s { records = []; plan_records = [] })

unfoldable pub close : PlanStateStore → PlanStateStore
close s = record s { closed = true }

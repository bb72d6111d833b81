-- ===== src/Plans/Synced.antt =====
-- The file holds what the store of services/orchestrator/src/queue/PlanStateStore.ts holds.
use ai_agent_tool.Common.{
  ℕ, ◌≡◌, ◌⊎◌, inl, inr, refl, sym, ap, subst, Bool, true, false, Option, none, some, List, [], ◌∷◌,
  String, arith, str_eq, All, Bool-cases, any, if◌then◌else◌, ◌||◌,
}
use ai_agent_tool.Common.Map
use ai_agent_tool.Common.Map.{Map}
use ai_agent_tool.Common.Keys.{
  drop_entries, AreKeysDistinct, AreKeyed, get-AreKeyed, set-AreKeyed, delete-AreKeyed,
  drop-AreKeyed, set-AreKeysDistinct, delete-AreKeysDistinct, drop-AreKeysDistinct,
}
use ai_agent_tool.Plans.Data.{PersistedStep, PlanRecord, PlanStepState, is_terminal}
use ai_agent_tool.Plans.Store.{
  PlanStateStore, absent, document, to_key, document_of, persist, persist_if, purge_expired,
  purge_after, is_step_expired, is_plan_expired, new_entry, with_state, remember_step, set_found,
  set_state, granted_approvals, approve_found, record_approval, is_there, forget_step, after_purge,
  remember_plan_metadata, forget_plan_metadata, clear,
}
use ai_agent_tool.Plans.Calls.{
  Call, remember_call, state_call, approval_call, forget_call, query_call, plan_call,
  forget_plan_call, clear_call, handle, run, IsProper,
}

abbrev pub step_key : PersistedStep → String
step_key e = to_key e.plan_id e.step_id

abbrev pub plan_key : PlanRecord → String
plan_key r = r.metadata.plan_id

-- An open store whose writes succeed, with every entry once and under its own key.
pub record IsSound (s : PlanStateStore) : Type 0 where
  pub is_open : s.closed ≡ false
  pub works : s.faults ≡ []
  pub steps_keyed : AreKeyed step_key s.records
  pub steps_distinct : AreKeysDistinct s.records
  pub plans_keyed : AreKeyed plan_key s.plan_records
  pub plans_distinct : AreKeysDistinct s.plan_records

abbrev pub IsOnDisk : PlanStateStore → Type 0
IsOnDisk s =
    (s.file ≡ document (document_of s))
    ⊎ ((s.file ≡ absent) × (s.records ≡ []) × (s.plan_records ≡ []))

abbrev pub IsSynced : PlanStateStore → Type 0
IsSynced s = IsSound s × IsOnDisk s

persist-IsSynced : (s : PlanStateStore) → IsSound s → IsSynced (persist s)
unfolding persist_if persist
persist-IsSynced s h =
    rw (h.is_open, h.works)
      (
        record {
          is_open = refl;
          works = refl;
          steps_keyed = h.steps_keyed;
          steps_distinct = h.steps_distinct;
          plans_keyed = h.plans_keyed;
          plans_distinct = h.plans_distinct;
        },
        inl refl,
      )

persist_if-IsSynced :
    (s : PlanStateStore) (changed : Bool)
    → IsSound s
    → (changed ≡ false → IsOnDisk s)
    → IsSynced (persist_if (s, changed))
unfolding persist_if persist
persist_if-IsSynced s true h d = persist-IsSynced s h
persist_if-IsSynced s false h d = (h, d refl)

module _ {ℓ} {V : Type ℓ} where
  drop_nothing : (p : V → Bool) (m : Map V) → any (λ e. p e.1) m ≡ false → drop_entries p m ≡ m
  drop_nothing p [] h = refl
  drop_nothing p ((k, v) ∷ m) h = elim (Bool-cases (p v)) [
    | inl e ↦ ground (arith)
    | inr e ↦ rw e (ap (λ l. (k, v) ∷ l) (drop_nothing p m (ground arith)))
  ]

  delete_nothing : (m : Map V) (k : String) → Map.get k m ≡ none → Map.delete k m ≡ m
  unfolding Map.get Map.delete
  delete_nothing [] k h = refl
  delete_nothing ((j, v) ∷ m) k h = elim (Bool-cases (str_eq j k)) [
    | inl e ↦ ground arith
    | inr e ↦ rw e (ap (λ l. (j, v) ∷ l) (delete_nothing m k (ground arith)))
  ]

with_records :
    (s : PlanStateStore) (m : Map PersistedStep)
    → IsSound s
    → AreKeyed step_key m
    → AreKeysDistinct m
    → IsSound (record s { records = m })
with_records s m h k d = record {
  is_open = h.is_open;
  works = h.works;
  steps_keyed = k;
  steps_distinct = d;
  plans_keyed = h.plans_keyed;
  plans_distinct = h.plans_distinct;
}

with_plans :
    (s : PlanStateStore) (m : Map PlanRecord)
    → IsSound s
    → AreKeyed plan_key m
    → AreKeysDistinct m
    → IsSound (record s { plan_records = m })
with_plans s m h k d = record {
  is_open = h.is_open;
  works = h.works;
  steps_keyed = h.steps_keyed;
  steps_distinct = h.steps_distinct;
  plans_keyed = k;
  plans_distinct = d;
}

purge_after-IsSound :
    (s : PlanStateStore) (now : ℕ) (o : Option ℕ) → IsSound s → IsSound (purge_after s now o).0
purge_after-IsSound s now none h = h
purge_after-IsSound s now (some r) h =
    let steps =
      with_records s (drop_entries (is_step_expired r now) s.records) h
        (drop-AreKeyed step_key (is_step_expired r now) s.records h.steps_keyed)
        (drop-AreKeysDistinct (is_step_expired r now) s.records h.steps_distinct) in
    with_plans _ (drop_entries (is_plan_expired r now) s.plan_records) steps
      (drop-AreKeyed plan_key (is_plan_expired r now) s.plan_records h.plans_keyed)
      (drop-AreKeysDistinct (is_plan_expired r now) s.plan_records h.plans_distinct)

purge-IsSound : (s : PlanStateStore) (now : ℕ) → IsSound s → IsSound (purge_expired s now).0
unfolding purge_expired
purge-IsSound s now h = purge_after-IsSound s now s.retention h

-- Where nothing is purged, nothing has changed.
purge_after_idle :
    (s : PlanStateStore) (now : ℕ) (o : Option ℕ)
    → (purge_after s now o).1 ≡ false
    → (purge_after s now o).0 ≡ s
purge_after_idle s now none h = refl
purge_after_idle s now (some r) h =
    let steps = drop_nothing (is_step_expired r now) s.records (ground arith) in
    let plans = drop_nothing (is_plan_expired r now) s.plan_records (ground arith) in
    λ i. record s { records = steps i; plan_records = plans i }

purge_idle :
    (s : PlanStateStore) (now : ℕ) → (purge_expired s now).1 ≡ false → (purge_expired s now).0 ≡ s
unfolding purge_expired
purge_idle s now h = purge_after_idle s now s.retention h

-- A state after a purge that removed nothing is on disk as before.
purge-IsOnDisk :
    (s : PlanStateStore) (now : ℕ)
    → IsOnDisk s
    → (purge_expired s now).1 ≡ false
    → IsOnDisk (purge_expired s now).0
purge-IsOnDisk s now d h = subst IsOnDisk (sym (purge_idle s now h)) d

after_purge-IsSynced : (s : PlanStateStore) (now : ℕ) → IsSynced s → IsSynced (after_purge s now)
unfolding after_purge
after_purge-IsSynced s now (h, d) =
    persist_if-IsSynced (purge_expired s now).0 (purge_expired s now).1 (purge-IsSound s now h)
      (purge-IsOnDisk s now d)

store-IsSound :
    (s : PlanStateStore) (key : String) (e : PersistedStep)
    → step_key e ≡ key
    → IsSound s
    → IsSound (record s { records = Map.set key e s.records })
store-IsSound s key e k h =
    with_records s (Map.set key e s.records) h
      (set-AreKeyed step_key s.records key e k h.steps_keyed)
      (set-AreKeysDistinct s.records key e h.steps_distinct)

delete-IsSound :
    (s : PlanStateStore) (key : String)
    → IsSound s
    → IsSound (record s { records = Map.delete key s.records })
delete-IsSound s key h =
    with_records s (Map.delete key s.records) h
      (delete-AreKeyed step_key s.records key h.steps_keyed)
      (delete-AreKeysDistinct s.records key h.steps_distinct)

set_found-IsSynced :
    (s : PlanStateStore) (purged : Bool) (now : ℕ) (key : String) (state : PlanStepState)
    (summary : Option String) (attempt : Option ℕ) (o : Option PersistedStep)
    → Map.get key s.records ≡ o
    → IsSound s
    → (purged ≡ false → IsOnDisk s)
    → IsSynced (set_found (s, purged) now key state summary attempt o)
unfolding persist_if persist set_found
set_found-IsSynced s purged now key state summary attempt none e h d =
    persist_if-IsSynced s purged h d
set_found-IsSynced s purged now key state summary attempt (some x) e h d =
    let kept =
      store-IsSound s key (with_state now state summary attempt x)
        (get-AreKeyed step_key s.records key x h.steps_keyed e) h in
    let gone = delete-IsSound s key h in
    let next : PlanStateStore = record s {
      records =
          if is_terminal state
          then Map.delete key s.records
          else Map.set key (with_state now state summary attempt x) s.records;
    } in
    let sound : IsSound next = elim (Bool-cases (is_terminal state)) [
      | inl b ↦ rw b gone
      | inr b ↦ rw b kept
    ] in
    persist-IsSynced next sound

approve_found-IsSynced :
    (s : PlanStateStore) (purged : Bool) (now : ℕ) (key capability : String) (granted : Bool)
    (o : Option PersistedStep)
    → Map.get key s.records ≡ o
    → IsSound s
    → (purged ≡ false → IsOnDisk s)
    → IsSynced (approve_found (s, purged) now key capability granted o)
unfolding persist_if persist approve_found
approve_found-IsSynced s purged now key capability granted none e h d =
    persist_if-IsSynced s purged h d
approve_found-IsSynced s purged now key capability granted (some x) e h d = persist-IsSynced _ (
    store-IsSound s key
      (record x {
        approvals = some (granted_approvals x.approvals capability granted);
        updated_at = some now;
      })
      (get-AreKeyed step_key s.records key x h.steps_keyed e) h)

absent_of {ℓ} : {A : Type ℓ} (o : Option A) → is_there o ≡ false → o ≡ none
absent_of none h = refl
absent_of (some a) h = cc

forget_step-IsSynced :
    (s : PlanStateStore) (now : ℕ) (plan_id step_id : String)
    → IsSynced s
    → IsSynced (forget_step s now plan_id step_id)
unfolding forget_step
forget_step-IsSynced s now plan_id step_id (h, d) =
    let (s', purged) = purge_expired s now in
    let key = to_key plan_id step_id in
    persist_if-IsSynced _ (purged || is_there (Map.get key s'.records))
      (delete-IsSound s' key (purge-IsSound s now h))
      (λ e.
        let same =
          delete_nothing s'.records key (absent_of (Map.get key s'.records) (ground arith)) in
        subst (λ m. IsOnDisk (record s' { records = m })) (sym same)
          (purge-IsOnDisk s now d (ground arith)))

forget_plan-IsSynced :
    (s : PlanStateStore) (now : ℕ) (plan_id : String)
    → IsSynced s
    → IsSynced (forget_plan_metadata s now plan_id)
unfolding forget_plan_metadata
forget_plan-IsSynced s now plan_id (h, d) =
    let (s', purged) = purge_expired s now in
    let h' = purge-IsSound s now h in
    persist_if-IsSynced _ (purged || is_there (Map.get plan_id s'.plan_records))
      (with_plans s' (Map.delete plan_id s'.plan_records) h'
        (delete-AreKeyed plan_key s'.plan_records plan_id h'.plans_keyed)
        (delete-AreKeysDistinct s'.plan_records plan_id h'.plans_distinct))
      (λ e.
        let same =
          delete_nothing s'.plan_records plan_id
            (absent_of (Map.get plan_id s'.plan_records) (ground arith)) in
        subst (λ m. IsOnDisk (record s' { plan_records = m })) (sym same)
          (purge-IsOnDisk s now d (ground arith)))

pub handle-IsSynced :
    (s : PlanStateStore) (c : Call) → IsProper c → IsSynced s → IsSynced (handle s c)
unfolding handle remember_step set_state record_approval remember_plan_metadata clear
handle-IsSynced s (remember_call now uuid plan_id step trace_id o) p (h, d) = persist-IsSynced _ (
    store-IsSound (purge_expired s now).0 (to_key plan_id step.id)
      (new_entry now uuid plan_id step trace_id o) refl (purge-IsSound s now h))
handle-IsSynced s (state_call now plan_id step_id state summary attempt) p (h, d) =
    set_found-IsSynced (purge_expired s now).0 (purge_expired s now).1 now (to_key plan_id step_id)
      state summary attempt _ refl (purge-IsSound s now h) (purge-IsOnDisk s now d)
handle-IsSynced s (approval_call now plan_id step_id capability granted) p (h, d) =
    approve_found-IsSynced (purge_expired s now).0 (purge_expired s now).1 now
      (to_key plan_id step_id) capability granted _ refl (purge-IsSound s now h)
      (purge-IsOnDisk s now d)
handle-IsSynced s (forget_call now plan_id step_id) p h =
    forget_step-IsSynced s now plan_id step_id h
handle-IsSynced s (query_call now) p h = after_purge-IsSynced s now h
handle-IsSynced s (plan_call now plan_id metadata) p (h, d) =
    let s' = (purge_expired s now).0 in
    let r : PlanRecord = record { metadata = metadata; updated_at = some now } in
    let h' = purge-IsSound s now h in
    persist-IsSynced _ (
      with_plans s' (Map.set plan_id r s'.plan_records) h'
        (set-AreKeyed plan_key s'.plan_records plan_id r p h'.plans_keyed)
        (set-AreKeysDistinct s'.plan_records plan_id r h'.plans_distinct))
handle-IsSynced s (forget_plan_call now plan_id) p h = forget_plan-IsSynced s now plan_id h
handle-IsSynced s clear_call p (h, d) =
    persist-IsSynced _ (with_plans _ [] (with_records s [] h tt tt) tt tt)

pub run-IsSynced :
    (s : PlanStateStore) (calls : List Call)
    → All IsProper calls
    → IsSynced s
    → IsSynced (run s calls)
unfolding run
run-IsSynced s [] p h = h
run-IsSynced s (c ∷ calls) p h = run-IsSynced (handle s c) calls p.1 (handle-IsSynced s c p.0 h)

-- ===== src/Cases/Tenants.antt =====
-- Tenants cannot touch each other's cases.
use ai_agent_tool.Common.{
  ℕ, ◌≡◌, ◌≢◌, ◌⊎◌, true, false, Option, some, List, [], ◌∷◌, String, arith, eq_iff, All,
  Bool-cases, str_eq, str_eq-cases, ◌∙◌, inl, inr, ap, refl, ◌++◌, contains,
}
use ai_agent_tool.Common.Map
use ai_agent_tool.Common.Map.{Map}
use ai_agent_tool.Cases.{
  CaseRecord, CaseService, CreateTaskInput, AttachArtifactInput, Result, ok, thrown, access_denied,
  case_name, is_denied, check_access, new_case, create_case, attach_workflow, create_task,
  attach_artifact, get_or_create_case_for_session, Call, create_case_call, attach_workflow_call,
  create_task_call, attach_artifact_call, session_call, handle, run, attach_to, create_task_in,
  attach_artifact_to,
}

-- A call that a case is out of reach of: it names another case, or it gives a tenant that is not
-- the case's. A case that is created gets an id that is not in use.
abbrev pub IsForeign : String → CaseRecord → Call → Type 0
IsForeign id c (create_case_call now uuid input) = case_name uuid ≢ id
IsForeign id c (attach_workflow_call now j workflow tenant) = (j ≢ id) ⊎ (is_denied tenant c ≡ true)
IsForeign id c (create_task_call now uuid input) =
    (input.case_id ≢ id) ⊎ (is_denied input.tenant_id c ≡ true)
IsForeign id c (attach_artifact_call now uuid input) =
    (input.case_id ≢ id) ⊎ (is_denied input.tenant_id c ≡ true)
IsForeign id c (session_call now uuid session defaults) = case_name uuid ≢ id

abbrev IsKept : String → CaseRecord → CaseService → Type 0
IsKept id c s = Map.get id s.cases ≡ some c

-- The guards refuse a foreign tenant: what is let through names another case.
access-elsewhere :
    (s : CaseService) (j : String) (tenant : Option String) (id : String) (c c' : CaseRecord)
    → (j ≢ id) ⊎ (is_denied tenant c ≡ true)
    → IsKept id c s
    → check_access j tenant (Map.get j s.cases) ≡ ok c'
    → str_eq j id ≡ false
access-elsewhere s j tenant id c c' f h e = elim (str_eq-cases j id) [
  | inl same_id ↦ ground (arith, eq_iff j id, ap (λ k. Map.get k s.cases) same_id)
  | inr other ↦ other.0
]

attach_to-IsKept :
    (s : CaseService) (now : ℕ) (j w id : String) (c : CaseRecord) (r : Result CaseRecord)
    → ((c' : CaseRecord) → r ≡ ok c' → str_eq j id ≡ false)
    → IsKept id c s
    → IsKept id c (attach_to s now j w r).0
attach_to-IsKept s now j w id c (thrown e) f h = h
attach_to-IsKept s now j w id c (ok c') f h = elim (Bool-cases (contains w c'.workflows)) [
  | inl there ↦ ground (arith)
  | inr new ↦ ground (
    arith,
    Map.get-set_ne j id (record c' { workflows = c'.workflows ++ w ∷ []; updated_at = now }) s.cases
        (f c' refl),
  )
]

create_task_in-IsKept :
    (s : CaseService) (now : ℕ) (uuid : String) (input : CreateTaskInput) (id : String)
    (c : CaseRecord) (r : Result CaseRecord)
    → ((c' : CaseRecord) → r ≡ ok c' → str_eq input.case_id id ≡ false)
    → IsKept id c s
    → IsKept id c (create_task_in s now uuid input r).0
create_task_in-IsKept s now uuid input id c (thrown e) f h = h
create_task_in-IsKept s now uuid input id c (ok c') f h =
    Map.get-set_ne input.case_id id _ s.cases (f c' refl) ∙ h

attach_artifact_to-IsKept :
    (s : CaseService) (now : ℕ) (uuid : String) (input : AttachArtifactInput) (id : String)
    (c : CaseRecord) (r : Result CaseRecord)
    → ((c' : CaseRecord) → r ≡ ok c' → str_eq input.case_id id ≡ false)
    → IsKept id c s
    → IsKept id c (attach_artifact_to s now uuid input r).0
attach_artifact_to-IsKept s now uuid input id c (thrown e) f h = h
attach_artifact_to-IsKept s now uuid input id c (ok c') f h =
    Map.get-set_ne input.case_id id _ s.cases (f c' refl) ∙ h

handle-IsKept :
    (s : CaseService) (call : Call) (id : String) (c : CaseRecord)
    → IsForeign id c call
    → IsKept id c s
    → IsKept id c (handle s call)
unfolding handle create_case attach_workflow create_task attach_artifact
    get_or_create_case_for_session
handle-IsKept s (create_case_call now uuid input) id c f h = ground (
  arith,
  eq_iff (case_name uuid) id,
  Map.get-set (case_name uuid) id (new_case now (case_name uuid) input) s.cases,
)
handle-IsKept s (attach_workflow_call now j w tenant) id c f h =
    attach_to-IsKept s now j w id c (check_access j tenant (Map.get j s.cases))
      (λ c'. access-elsewhere s j tenant id c c' f h) h
handle-IsKept s (create_task_call now uuid input) id c f h =
    create_task_in-IsKept s now uuid input id c
      (check_access input.case_id input.tenant_id (Map.get input.case_id s.cases))
      (λ c'. access-elsewhere s input.case_id input.tenant_id id c c' f h) h
handle-IsKept s (attach_artifact_call now uuid input) id c f h =
    attach_artifact_to-IsKept s now uuid input id c
      (check_access input.case_id input.tenant_id (Map.get input.case_id s.cases))
      (λ c'. access-elsewhere s input.case_id input.tenant_id id c c' f h) h
handle-IsKept s (session_call now uuid session defaults) id c f h = ground (
  arith,
  eq_iff (case_name uuid) id,
  Map.get-set (case_name uuid) id (new_case now (case_name uuid) defaults) s.cases,
)

run-IsKept :
    (s : CaseService) (calls : List Call) (id : String) (c : CaseRecord)
    → All (IsForeign id c) calls
    → IsKept id c s
    → IsKept id c (run s calls)
unfolding run
run-IsKept s [] id c f h = h
run-IsKept s (call ∷ calls) id c f h =
    run-IsKept (handle s call) calls id c f.1 (handle-IsKept s call id c f.0 h)

-- Tenants are kept apart. Take a case that is in the service, and any calls that either name other
-- cases or give a tenant that is not the case's (cases are created under ids that are not in use).
-- After them the case is as it was; and a further attempt, by a tenant that is given and is not the
-- case's, to attach a workflow or an artifact to it or to create a task in it is refused with
-- access denied and changes nothing.
pub run_keeps_foreign :
    (s : CaseService) (calls : List Call) (id : String) (c : CaseRecord) (tenant : Option String)
    (now : ℕ) (uuid : String) (workflow_id : String) (task : CreateTaskInput)
    (artifact : AttachArtifactInput)
    → Map.get id s.cases ≡ some c
    → All (IsForeign id c) calls
    → is_denied tenant c ≡ true
    → let s' = run s calls in
      (Map.get id s'.cases ≡ some c)
      × (attach_workflow s' now id workflow_id tenant ≡ (s', thrown (access_denied id)))
      × (create_task s' now uuid (record task { case_id = id; tenant_id = tenant })
          ≡ (s', thrown (access_denied id)))
      × (attach_artifact s' now uuid (record artifact { case_id = id; tenant_id = tenant })
          ≡ (s', thrown (access_denied id)))
unfolding attach_workflow create_task attach_artifact
run_keeps_foreign s calls id c tenant now uuid workflow_id task artifact h f d =
    let kept = run-IsKept s calls id c f h in (kept, rw (kept, d), rw (kept, d), rw (kept, d))

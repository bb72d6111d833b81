-- ===== src/Cases/Sessions.antt =====
-- A session keeps its case.
use ai_agent_tool.Common.{
  ℕ, ◌≡◌, false, Option, none, some, List, [], ◌∷◌, ◌++◌, String, arith, eq_iff, Bool-cases, str_eq,
  str_eq-cases, Option-cases, sym, ◌∙◌, inl, inr, ap, refl, contains, subst,
}
use text.Mathlib.TextLemmas.{cons-append}
use ai_agent_tool.Common.Map
use ai_agent_tool.Common.Map.{Map}
use ai_agent_tool.Common.Text.{is_empty}
use ai_agent_tool.Cases.{
  CaseRecord, CaseService, CreateCaseInput, CreateTaskInput, AttachArtifactInput, Result, ok,
  thrown, new_service, case_name, check_access, new_case, create_case, attach_workflow, create_task,
  attach_artifact, get_or_create_case_for_session, create_for_session, case_of_session,
  existing_case, Call, create_case_call, attach_workflow_call, create_task_call,
  attach_artifact_call, session_call, handle, run, attach_to, store_case, create_task_in,
  attach_artifact_to, new_task, new_artifact,
}

-- Every case stands under its own id, and no session has an empty id for its case.
abbrev IsSound : CaseService → Type 0
IsSound s =
    ((id : String) (c : CaseRecord) → Map.get id s.cases ≡ some c → c.id ≡ id)
    × ((session id : String) → Map.get session s.session_cases ≡ some id → is_empty id ≡ false)

-- The session has a case, under this id.
abbrev IsLinked : CaseService → String → String → Type 0
IsLinked s session id =
    (Map.get session s.session_cases ≡ some id) × ((c : CaseRecord) × (Map.get id s.cases ≡ some c))

store_case-IsSound :
    (s : CaseService) (j : String) (c : CaseRecord)
    → c.id ≡ j
    → IsSound s
    → IsSound (store_case s j c)
store_case-IsSound s j c e (cases, sessions) =
    (λ id c' h. ground (arith, eq_iff j id, Map.get-set j id c s.cases, cases id c'), sessions)

store_case-IsLinked :
    (s : CaseService) (j : String) (c : CaseRecord) (session id : String)
    → IsLinked s session id
    → IsLinked (store_case s j c) session id
store_case-IsLinked s j c session id (there, (c', h)) = (
  there,
  elim (str_eq-cases j id) [
    | inl e ↦ (c, ground (arith, eq_iff j id, Map.get-set j id c s.cases))
    | inr (ne, n) ↦ (c', Map.get-set_ne j id c s.cases ne ∙ h)
  ],
)

create_case-IsSound :
    (s : CaseService) (now : ℕ) (uuid : String) (input : CreateCaseInput)
    → IsSound s
    → IsSound (create_case s now uuid input).0
unfolding create_case
create_case-IsSound s now uuid input h =
    store_case-IsSound s (case_name uuid) (new_case now (case_name uuid) input) refl h

access-id :
    (s : CaseService) (j : String) (tenant : Option String) (c : CaseRecord)
    → IsSound s
    → check_access j tenant (Map.get j s.cases) ≡ ok c
    → c.id ≡ j
access-id s j tenant c (cases, sessions) e = elim (Option-cases (Map.get j s.cases)) [
  | inl none_there ↦ ground arith
  | inr (c', there) ↦ ground (arith, cases j c' there)
]

-- What every storing of a case under its own id keeps, the operations on one case keep.
module _ (P : CaseService → Type 0)
    (keep : (s : CaseService) (j : String) (c : CaseRecord)
      → c.id ≡ j
      → P s
      → P (store_case s j c)) where
  attach_to-keeps :
      (s : CaseService) (now : ℕ) (j w : String) (r : Result CaseRecord)
      → ((c : CaseRecord) → r ≡ ok c → c.id ≡ j)
      → P s
      → P (attach_to s now j w r).0
  attach_to-keeps s now j w (thrown e) f h = h
  attach_to-keeps s now j w (ok c) f h =
      let kept =
        keep s j (record c { workflows = c.workflows ++ w ∷ []; updated_at = now }) (f c refl) h in
      elim (Bool-cases (contains w c.workflows)) [ inl there ↦ rw there h | inr new ↦ rw new kept ]

  create_task_in-keeps :
      (s : CaseService) (now : ℕ) (uuid : String) (input : CreateTaskInput) (r : Result CaseRecord)
      → ((c : CaseRecord) → r ≡ ok c → c.id ≡ input.case_id)
      → P s
      → P (create_task_in s now uuid input r).0
  create_task_in-keeps s now uuid input (thrown e) f h = h
  create_task_in-keeps s now uuid input (ok c) f h =
      keep s input.case_id
        (record c { tasks = c.tasks ++ new_task now uuid input ∷ []; updated_at = now }) (f c refl)
        h

  attach_artifact_to-keeps :
      (s : CaseService) (now : ℕ) (uuid : String) (input : AttachArtifactInput)
      (r : Result CaseRecord)
      → ((c : CaseRecord) → r ≡ ok c → c.id ≡ input.case_id)
      → P s
      → P (attach_artifact_to s now uuid input r).0
  attach_artifact_to-keeps s now uuid input (thrown e) f h = h
  attach_artifact_to-keeps s now uuid input (ok c) f h =
      keep s input.case_id
        (record c { artifacts = c.artifacts ++ new_artifact now uuid input ∷ []; updated_at = now })
        (f c refl) h

  -- Every call but that for a session.
  handle-keeps :
      (s : CaseService) (call : Call)
      → IsSound s
      → ((now : ℕ) (uuid session : String) (defaults : CreateCaseInput)
          → P (get_or_create_case_for_session s now uuid session defaults).0)
      → P s
      → P (handle s call)
  unfolding handle create_case attach_workflow create_task attach_artifact
  handle-keeps s (create_case_call now uuid input) sound g h =
      keep s (case_name uuid) (new_case now (case_name uuid) input) refl h
  handle-keeps s (attach_workflow_call now j w tenant) sound g h =
      attach_to-keeps s now j w (check_access j tenant (Map.get j s.cases))
        (λ c. access-id s j tenant c sound) h
  handle-keeps s (create_task_call now uuid input) sound g h =
      create_task_in-keeps s now uuid input
        (check_access input.case_id input.tenant_id (Map.get input.case_id s.cases))
        (λ c. access-id s input.case_id input.tenant_id c sound) h
  handle-keeps s (attach_artifact_call now uuid input) sound g h =
      attach_artifact_to-keeps s now uuid input
        (check_access input.case_id input.tenant_id (Map.get input.case_id s.cases))
        (λ c. access-id s input.case_id input.tenant_id c sound) h
  handle-keeps s (session_call now uuid session defaults) sound g h = g now uuid session defaults

case_name-given : (uuid : String) → is_empty (case_name uuid) ≡ false
case_name-given uuid = ap is_empty (cons-append "c" "ase-" uuid)

create_for_session-IsSound :
    (s : CaseService) (now : ℕ) (uuid session : String) (defaults : CreateCaseInput)
    → IsSound s
    → IsSound (create_for_session s now uuid session defaults).0
unfolding create_for_session create_case
create_for_session-IsSound s now uuid session defaults h = (
  (store_case-IsSound s (case_name uuid) (new_case now (case_name uuid) defaults) refl h).0,
  λ j id e. ground (
    arith,
    eq_iff session j,
    Map.get-set session j (case_name uuid) s.session_cases,
    h.1 j id,
    case_name-given uuid,
  ),
)

forget-IsSound :
    (s : CaseService) (session : String)
    → IsSound s
    → IsSound (record s { session_cases = Map.delete session s.session_cases })
forget-IsSound s session h = (
  h.0,
  λ j id e. ground (arith, eq_iff session j, Map.get-delete session j s.session_cases, h.1 j id),
)

existing_case-IsSound :
    (s : CaseService) (now : ℕ) (uuid session : String) (defaults : CreateCaseInput)
    (o : Option CaseRecord)
    → IsSound s
    → IsSound (existing_case s now uuid session defaults o).0
existing_case-IsSound s now uuid session defaults (some c) h = h
existing_case-IsSound s now uuid session defaults none h =
    create_for_session-IsSound (record s { session_cases = Map.delete session s.session_cases }) now
      uuid session defaults (forget-IsSound s session h)

case_of_session-IsSound :
    (s : CaseService) (now : ℕ) (uuid session : String) (defaults : CreateCaseInput)
    (o : Option String)
    → IsSound s
    → IsSound (case_of_session s now uuid session defaults o).0
case_of_session-IsSound s now uuid session defaults none h =
    create_for_session-IsSound s now uuid session defaults h
case_of_session-IsSound s now uuid session defaults (some id) h =
    let fresh = create_for_session-IsSound s now uuid session defaults h in
    let known = existing_case-IsSound s now uuid session defaults (Map.get id s.cases) h in
    elim (Bool-cases (is_empty id)) [ inl e ↦ rw e fresh | inr e ↦ rw e known ]

handle-IsSound : (s : CaseService) (call : Call) → IsSound s → IsSound (handle s call)
unfolding get_or_create_case_for_session
handle-IsSound s call h =
    handle-keeps IsSound store_case-IsSound s call h
      (λ now uuid session defaults.
        case_of_session-IsSound s now uuid session defaults (Map.get session s.session_cases) h)
      h

run-IsSound : (s : CaseService) (calls : List Call) → IsSound s → IsSound (run s calls)
unfolding run
run-IsSound s [] h = h
run-IsSound s (call ∷ calls) h = run-IsSound (handle s call) calls (handle-IsSound s call h)

-- The call of a session that has a case returns it, and changes nothing.
linked-returns :
    (s : CaseService) (now : ℕ) (uuid session id : String) (defaults : CreateCaseInput)
    → IsSound s
    → IsLinked s session id
    → ((get_or_create_case_for_session s now uuid session defaults).0 ≡ s)
      × ((get_or_create_case_for_session s now uuid session defaults).1.id ≡ id)
unfolding get_or_create_case_for_session
linked-returns s now uuid session id defaults (cases, sessions) (there, (c, h)) = (
  rw (there, sessions session id there, h),
  rw (there, sessions session id there, h) (cases id c h),
)

create_for_session-IsLinked :
    (s : CaseService) (now : ℕ) (uuid other session id : String) (defaults : CreateCaseInput)
    → str_eq other session ≡ false
    → IsLinked s session id
    → IsLinked (create_for_session s now uuid other defaults).0 session id
unfolding create_for_session create_case
create_for_session-IsLinked s now uuid other session id defaults ne h = (
  Map.get-set_ne other session (case_name uuid) s.session_cases ne ∙ h.0,
  (store_case-IsLinked s (case_name uuid) (new_case now (case_name uuid) defaults) session id h).1,
)

existing_case-IsLinked :
    (s : CaseService) (now : ℕ) (uuid other session id : String) (defaults : CreateCaseInput)
    (o : Option CaseRecord)
    → str_eq other session ≡ false
    → IsLinked s session id
    → IsLinked (existing_case s now uuid other defaults o).0 session id
existing_case-IsLinked s now uuid other session id defaults (some c) ne h = h
existing_case-IsLinked s now uuid other session id defaults none ne h =
    create_for_session-IsLinked (record s { session_cases = Map.delete other s.session_cases }) now
      uuid other session id defaults ne
      (Map.get-delete_ne other session s.session_cases ne ∙ h.0, h.1)

case_of_session-IsLinked :
    (s : CaseService) (now : ℕ) (uuid other session id : String) (defaults : CreateCaseInput)
    (o : Option String)
    → str_eq other session ≡ false
    → IsLinked s session id
    → IsLinked (case_of_session s now uuid other defaults o).0 session id
case_of_session-IsLinked s now uuid other session id defaults none ne h =
    create_for_session-IsLinked s now uuid other session id defaults ne h
case_of_session-IsLinked s now uuid other session id defaults (some j) ne h =
    let fresh = create_for_session-IsLinked s now uuid other session id defaults ne h in
    let known =
      existing_case-IsLinked s now uuid other session id defaults (Map.get j s.cases) ne h in
    elim (Bool-cases (is_empty j)) [ inl e ↦ rw e fresh | inr e ↦ rw e known ]

session-IsLinked :
    (s : CaseService) (now : ℕ) (uuid other session id : String) (defaults : CreateCaseInput)
    → IsSound s
    → IsLinked s session id
    → IsLinked (get_or_create_case_for_session s now uuid other defaults).0 session id
unfolding get_or_create_case_for_session
session-IsLinked s now uuid other session id defaults sound h = elim (str_eq-cases other session) [
  | inl e ↦
      let h' = subst (λ o. IsLinked s o id) (sym e) h in
      subst (λ s'. IsLinked s' session id)
        (sym (linked-returns s now uuid other id defaults sound h').0) h
  | inr ne ↦
      case_of_session-IsLinked s now uuid other session id defaults (Map.get other s.session_cases)
        ne.0 h
]

run-IsLinked :
    (s : CaseService) (calls : List Call) (session id : String)
    → IsSound s
    → IsLinked s session id
    → IsLinked (run s calls) session id
unfolding run
run-IsLinked s [] session id sound h = h
run-IsLinked s (call ∷ calls) session id sound h =
    run-IsLinked (handle s call) calls session id (handle-IsSound s call sound) (
      handle-keeps (λ s'. IsLinked s' session id)
        (λ s' j c e. store_case-IsLinked s' j c session id) s call sound
        (λ now uuid other defaults. session-IsLinked s now uuid other session id defaults sound h)
        h)

create_for_session-links :
    (s : CaseService) (now : ℕ) (uuid session : String) (defaults : CreateCaseInput)
    → let (s', c) = create_for_session s now uuid session defaults in IsLinked s' session c.id
unfolding create_for_session create_case
create_for_session-links s now uuid session defaults = (
  Map.get-set_self session (case_name uuid) s.session_cases,
  (
    new_case now (case_name uuid) defaults,
    Map.get-set_self (case_name uuid) (new_case now (case_name uuid) defaults) s.cases,
  ),
)

existing_case-links :
    (s : CaseService) (now : ℕ) (uuid session id : String) (defaults : CreateCaseInput)
    (o : Option CaseRecord)
    → IsSound s
    → Map.get session s.session_cases ≡ some id
    → Map.get id s.cases ≡ o
    → let (s', c) = existing_case s now uuid session defaults o in IsLinked s' session c.id
existing_case-links s now uuid session id defaults none sound there e =
    create_for_session-links (record s { session_cases = Map.delete session s.session_cases }) now
      uuid session defaults
existing_case-links s now uuid session id defaults (some c) sound there e =
    subst (λ j. IsLinked s session j) (sym (sound.0 id c e)) (there, (c, e))

case_of_session-links :
    (s : CaseService) (now : ℕ) (uuid session : String) (defaults : CreateCaseInput)
    (o : Option String)
    → IsSound s
    → Map.get session s.session_cases ≡ o
    → let (s', c) = case_of_session s now uuid session defaults o in IsLinked s' session c.id
case_of_session-links s now uuid session defaults none sound there =
    create_for_session-links s now uuid session defaults
case_of_session-links s now uuid session defaults (some id) sound there =
    rw (sound.1 session id there)
      (existing_case-links s now uuid session id defaults (Map.get id s.cases) sound there refl)

new_service-IsSound : IsSound new_service
unfolding Map.get
new_service-IsSound = (λ id c e. ground arith, λ session id e. ground arith)

-- A session keeps its case. In a service that any calls have led to, take the case that
-- `getOrCreateCaseForSession` returns for a session. After any further calls, for this session or
-- for others, the next call for the session returns a case of the same id, and changes nothing.
pub session_keeps_case :
    (before after : List Call) (now later : ℕ) (uuid uuid' session : String)
    (defaults defaults' : CreateCaseInput)
    → let (s, c) =
        get_or_create_case_for_session (run new_service before) now uuid session defaults in
      let (s', c') = get_or_create_case_for_session (run s after) later uuid' session defaults' in
      (s' ≡ run s after) × (c'.id ≡ c.id)
unfolding get_or_create_case_for_session
session_keeps_case before after now later uuid uuid' session defaults defaults' =
    let s = run new_service before in
    let o = Map.get session s.session_cases in
    let sound = run-IsSound new_service before new_service-IsSound in
    let (s', c) = case_of_session s now uuid session defaults o in
    let sound' = case_of_session-IsSound s now uuid session defaults o sound in
    let linked = case_of_session-links s now uuid session defaults o sound refl in
    linked-returns (run s' after) later uuid' session c.id defaults' (run-IsSound s' after sound')
      (run-IsLinked s' after session c.id sound' linked)

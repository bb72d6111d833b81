-- ===== src/Cases.antt =====
-- `CaseService` of services/orchestrator/src/cases/CaseService.ts: cases with their tasks, artifacts
-- and workflows. Times are milliseconds; the clock's reading and the random part of an id are
-- arguments. Free-form metadata is left out.
pub mod Tenants
pub mod Sessions
mod Tests
use Prim.Native.String.{◌++◌ as append_str}
use ai_agent_tool.Common.{
  ℕ, ◌≡◌, Bool, true, false, not, ◌&&◌, Option, none, some, List, [], ◌∷◌, ◌++◌, String,
  if◌then◌else◌, contains, filter,
}
use ai_agent_tool.Common.Map
use ai_agent_tool.Common.Map.{Map}
use ai_agent_tool.Common.Text.{is_empty, is_given, same}

pub data CaseStatus : Type 0 where
  -- The source's "open" is opened here.
  opened in_progress closed : CaseStatus

pub data TaskStatus : Type 0 where
  pending in_progress done : TaskStatus

pub record TaskRecord : Type 0 where
  pub id : String
  pub case_id : String
  pub title : String
  pub status : TaskStatus
  pub assignee : Option String
  pub created_at : ℕ
  pub updated_at : ℕ

pub record ArtifactRecord : Type 0 where
  pub id : String
  pub case_id : String
  pub type : String
  pub ref : String
  pub created_at : ℕ

pub record CaseRecord : Type 0 where
  pub id : String
  pub tenant_id : Option String
  pub project_id : Option String
  pub title : String
  pub description : Option String
  pub status : CaseStatus
  pub created_at : ℕ
  pub updated_at : ℕ
  pub tasks : List TaskRecord
  pub artifacts : List ArtifactRecord
  pub workflows : List String

pub record CreateCaseInput : Type 0 where
  pub title : String
  pub tenant_id : Option String
  pub project_id : Option String
  pub description : Option String
  pub status : Option CaseStatus

pub record CreateTaskInput : Type 0 where
  pub case_id : String
  pub title : String
  pub assignee : Option String
  pub tenant_id : Option String

pub record AttachArtifactInput : Type 0 where
  pub case_id : String
  pub type : String
  pub ref : String
  pub tenant_id : Option String

pub record CaseQuery : Type 0 where
  pub tenant_id : Option String
  pub project_id : Option String

-- What the operations throw, for a case.
pub data CaseError : Type 0 where
  not_found access_denied : (case_id : String) → CaseError

pub data Result {ℓ} (A : Type ℓ) : Type ℓ where
  ok : A → Result A
  thrown : CaseError → Result A

pub record CaseService : Type 0 where
  pub cases : Map CaseRecord
  pub session_cases : Map String

abbrev pub new_service : CaseService
new_service = record { cases = []; session_cases = [] }

abbrev pub new_case : (now : ℕ) → (id : String) → CreateCaseInput → CaseRecord
new_case now id input = record {
  id = id;
  tenant_id = input.tenant_id;
  project_id = input.project_id;
  title = input.title;
  description = input.description;
  status = elim input.status [ none ↦ opened | some s ↦ s ];
  created_at = now;
  updated_at = now;
  tasks = [];
  artifacts = [];
  workflows = [];
}

abbrev pub case_name : String → String
case_name uuid = append_str "case-" uuid

unfoldable pub create_case :
    CaseService → (now : ℕ) (uuid : String) → CreateCaseInput → CaseService × CaseRecord
create_case s now uuid input =
    let c = new_case now (case_name uuid) input in (record s { cases = Map.set c.id c s.cases }, c)

-- A filter that is not given, or empty, lets everything through.
abbrev pub passes : (filter actual : Option String) → Bool
passes wanted actual = if is_given wanted then same actual wanted else true

abbrev pub matches : CaseQuery → CaseRecord → Bool
matches query c = passes query.tenant_id c.tenant_id && passes query.project_id c.project_id

unfoldable pub list_cases : CaseService → CaseQuery → List CaseRecord
list_cases s query = filter (matches query) (Map.values s.cases)

abbrev pub get_case : CaseService → String → Option CaseRecord
get_case s id = Map.get id s.cases

-- `tenantId && target.tenantId !== tenantId`.
abbrev pub is_denied : Option String → CaseRecord → Bool
is_denied tenant c = is_given tenant && not (same c.tenant_id tenant)

-- The guards that `attachWorkflow`, `createTask` and `attachArtifact` share.
abbrev pub check_access : String → Option String → Option CaseRecord → Result CaseRecord
check_access id tenant none = thrown (not_found id)
check_access id tenant (some c) = if is_denied tenant c then thrown (access_denied id) else ok c

abbrev pub store_case : CaseService → String → CaseRecord → CaseService
store_case s id c = record s { cases = Map.set id c s.cases }

abbrev pub attach_to :
    CaseService → ℕ → String → String → Result CaseRecord → CaseService × Result (Unit {0})
attach_to s now id workflow_id (thrown e) = (s, thrown e)
attach_to s now id workflow_id (ok c) = if contains workflow_id c.workflows then (s, ok tt) else (
  store_case s id (record c { workflows = c.workflows ++ workflow_id ∷ []; updated_at = now }),
  ok tt,
)

unfoldable pub attach_workflow :
    CaseService
    → (now : ℕ) (case_id workflow_id : String) (tenant_id : Option String)
    → CaseService × Result (Unit {0})
attach_workflow s now case_id workflow_id tenant_id =
    attach_to s now case_id workflow_id (check_access case_id tenant_id (Map.get case_id s.cases))

abbrev pub new_task : ℕ → String → CreateTaskInput → TaskRecord
new_task now uuid input = record {
  id = append_str "task-" uuid;
  case_id = input.case_id;
  title = input.title;
  status = pending;
  assignee = input.assignee;
  created_at = now;
  updated_at = now;
}

abbrev pub create_task_in :
    CaseService → ℕ → String → CreateTaskInput → Result CaseRecord → CaseService × Result TaskRecord
create_task_in s now uuid input (thrown e) = (s, thrown e)
create_task_in s now uuid input (ok c) =
    let task = new_task now uuid input in
    (
      store_case s input.case_id (record c { tasks = c.tasks ++ task ∷ []; updated_at = now }),
      ok task,
    )

unfoldable pub create_task :
    CaseService → (now : ℕ) (uuid : String) → CreateTaskInput → CaseService × Result TaskRecord
create_task s now uuid input =
    create_task_in s now uuid input
      (check_access input.case_id input.tenant_id (Map.get input.case_id s.cases))

abbrev pub new_artifact : ℕ → String → AttachArtifactInput → ArtifactRecord
new_artifact now uuid input = record {
  id = append_str "artifact-" uuid;
  case_id = input.case_id;
  type = input.type;
  ref = input.ref;
  created_at = now;
}

abbrev pub attach_artifact_to :
    CaseService
    → ℕ
    → String
    → AttachArtifactInput
    → Result CaseRecord
    → CaseService × Result ArtifactRecord
attach_artifact_to s now uuid input (thrown e) = (s, thrown e)
attach_artifact_to s now uuid input (ok c) =
    let artifact = new_artifact now uuid input in
    (
      store_case s input.case_id
          (record c { artifacts = c.artifacts ++ artifact ∷ []; updated_at = now }),
      ok artifact,
    )

unfoldable pub attach_artifact :
    CaseService
    → (now : ℕ) (uuid : String) → AttachArtifactInput
    → CaseService × Result ArtifactRecord
attach_artifact s now uuid input =
    attach_artifact_to s now uuid input
      (check_access input.case_id input.tenant_id (Map.get input.case_id s.cases))

abbrev pub create_for_session :
    CaseService → ℕ → String → String → CreateCaseInput → CaseService × CaseRecord
unfolding create_case
create_for_session s now uuid session defaults =
    let (s', c) = create_case s now uuid defaults in
    (record s' { session_cases = Map.set session c.id s'.session_cases }, c)

-- The case of a session's id, if there is one; else the session is forgotten and a case created.
abbrev pub existing_case :
    CaseService
    → ℕ
    → String
    → String
    → CreateCaseInput
    → Option CaseRecord
    → CaseService × CaseRecord
existing_case s now uuid session defaults (some c) = (s, c)
existing_case s now uuid session defaults none =
    create_for_session (record s { session_cases = Map.delete session s.session_cases }) now uuid
      session defaults

abbrev pub case_of_session :
    CaseService → ℕ → String → String → CreateCaseInput → Option String → CaseService × CaseRecord
case_of_session s now uuid session defaults none = create_for_session s now uuid session defaults
case_of_session s now uuid session defaults (some id) =
    if is_empty id
    then create_for_session s now uuid session defaults
    else existing_case s now uuid session defaults (Map.get id s.cases)

unfoldable pub get_or_create_case_for_session :
    CaseService → (now : ℕ) (uuid session_id : String) → CreateCaseInput → CaseService × CaseRecord
get_or_create_case_for_session s now uuid session_id defaults =
    case_of_session s now uuid session_id defaults (Map.get session_id s.session_cases)

-- A call of an operation that may change the service, with the clock and the random id.
pub data Call : Type 0 where
  create_case_call : (now : ℕ) (uuid : String) (input : CreateCaseInput) → Call
  attach_workflow_call : (now : ℕ) (case_id workflow_id : String) (tenant_id : Option String) → Call
  create_task_call : (now : ℕ) (uuid : String) (input : CreateTaskInput) → Call
  attach_artifact_call : (now : ℕ) (uuid : String) (input : AttachArtifactInput) → Call
  session_call : (now : ℕ) (uuid session_id : String) (defaults : CreateCaseInput) → Call

unfoldable pub handle : CaseService → Call → CaseService
unfolding create_case attach_workflow create_task attach_artifact get_or_create_case_for_session
handle s (create_case_call now uuid input) = (create_case s now uuid input).0
handle s (attach_workflow_call now id workflow_id tenant) =
    (attach_workflow s now id workflow_id tenant).0
handle s (create_task_call now uuid input) = (create_task s now uuid input).0
handle s (attach_artifact_call now uuid input) = (attach_artifact s now uuid input).0
handle s (session_call now uuid session defaults) =
    (get_or_create_case_for_session s now uuid session defaults).0

unfoldable pub run : CaseService → List Call → CaseService
unfolding handle
run s [] = s
run s (c ∷ calls) = run (handle s c) calls

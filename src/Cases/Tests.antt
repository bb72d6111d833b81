-- ===== src/Cases/Tests.antt =====
-- The theorems about cases at concrete inputs.
use ai_agent_tool.Common.{
  ◌≡◌, ◌≢◌, refl, inl, inr, none, some, List, [], ◌∷◌, String, arith, eq_iff,
}
use ai_agent_tool.Common.Map
use ai_agent_tool.Cases.{
  CaseService, CaseRecord, CreateCaseInput, CreateTaskInput, AttachArtifactInput, thrown,
  access_denied, new_service, new_case, attach_workflow, create_task, attach_artifact,
  get_or_create_case_for_session, Call, attach_workflow_call, create_task_call, session_call, run,
}
use ai_agent_tool.Cases.Tenants.{run_keeps_foreign}
use ai_agent_tool.Cases.Sessions.{session_keeps_case}

abbrev input : CreateCaseInput
input = record {
  title = "Outage";
  tenant_id = some "acme";
  project_id = none;
  description = none;
  status = none;
}

abbrev outage : CaseRecord
outage = new_case 5 "case-1" input

abbrev service : CaseService
service = record { cases = ("case-1", outage) ∷ []; session_cases = [] }

abbrev task : CreateTaskInput
task = record { case_id = "case-2"; title = "Call"; assignee = none; tenant_id = some "evil" }

abbrev artifact : AttachArtifactInput
artifact = record { case_id = "case-1"; type = "log"; ref = "r"; tenant_id = some "evil" }

abbrev calls : List Call
calls = create_task_call 7 "t" task ∷ attach_workflow_call 8 "case-1" "wf-9" (some "evil") ∷ []

other_case : ◌≢◌ {A = String} "case-2" "case-1"
other_case = ground (arith, eq_iff "case-2" "case-1")

run_keeps_foreign_example :
    let s' = run service calls in
    (Map.get "case-1" s'.cases ≡ some outage)
    × (attach_workflow s' 9 "case-1" "wf-1" (some "evil") ≡ (s', thrown (access_denied "case-1")))
    × (create_task s' 9 "u" (record task { case_id = "case-1"; tenant_id = some "evil" })
        ≡ (s', thrown (access_denied "case-1")))
    × (attach_artifact s' 9 "u" (record artifact { case_id = "case-1"; tenant_id = some "evil" })
        ≡ (s', thrown (access_denied "case-1")))
unfolding Map.get
run_keeps_foreign_example =
    run_keeps_foreign service calls "case-1" outage (some "evil") 9 "u" "wf-1" task artifact refl
      (inl other_case, (inr refl, tt)) refl

session_keeps_case_example :
    let (s, c) =
      get_or_create_case_for_session
        (run new_service (session_call 1 "x" "other" input ∷ []))
        2
        "y"
        "mine"
        input in
    let (s', c') =
      get_or_create_case_for_session
        (run s (session_call 3 "z" "third" input ∷ []))
        4
        "w"
        "mine"
        input in
    (s' ≡ run s (session_call 3 "z" "third" input ∷ [])) × (c'.id ≡ c.id)
session_keeps_case_example =
    session_keeps_case (session_call 1 "x" "other" input ∷ [])
      (session_call 3 "z" "third" input ∷ []) 2 4 "y" "w" "mine" input input

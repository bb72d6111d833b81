-- ===== src/Approvals/Tests.antt =====
-- Runs of the approval manager, and the theorems at concrete inputs.
use ai_agent_tool.Common.{◌≡◌, refl, none, some, List, [], ◌∷◌}
use ai_agent_tool.Common.Map
use ai_agent_tool.Approvals.{ApprovalManager, default_config, new_manager, emit, granted}
use ai_agent_tool.Approvals.Requests.{
  RequestOptions, request_approval, approve, deny, fire_timeout, cleanup_expired,
  check_tenant_limit, get_pending_requests, clean_all,
}
use ai_agent_tool.Approvals.Batches.{
  Event, request_event, approve_event, deny_event, timeout_event, cleanup_event, handle, run,
}
use ai_agent_tool.Approvals.Final.{Evolves, run-Evolves}

program : Unit {0}
unfolding new_manager emit request_approval approve deny fire_timeout cleanup_expired clean_all
    check_tenant_limit get_pending_requests handle run Map.get Map.set Map.delete
program = tt

abbrev options : RequestOptions
options = record { requester_id = none; tenant_id = some "acme"; timeout = none; metadata = none }

abbrev manager : ApprovalManager
manager = record {
  requests = [];
  batches = [];
  config = default_config;
  listeners = [];
  timers = [];
  promises = [];
}

abbrev asked : ApprovalManager
asked = run manager (request_event 0 "r1" "shell" "rm" "" options ∷ [])

abbrev later : List Event
later =
    approve_event 5 "r1" (some "bob") none
    ∷ deny_event 6 "r1" none none
    ∷ timeout_event 300000 "r1"
    ∷ cleanup_event 300001
    ∷ []

approved_once : Map.get "r1" (run asked later).promises ≡ some granted
unfolding program
approved_once = refl

run-Evolves_example :
    Evolves (Map.get "r1" asked.requests) (Map.get "r1" (run asked later).requests)
run-Evolves_example = run-Evolves "r1" asked later (tt, (tt, (tt, (tt, tt))))

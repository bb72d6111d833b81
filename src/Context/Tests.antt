-- ===== src/Context/Tests.antt =====
-- Two agents that share a key, and the theorems about the shared context at concrete inputs.
use ai_agent_tool.Common.{ℕ, ◌≤◌, refl, true, none, some, List, [], ◌∷◌, length}
use ai_agent_tool.Common.Map
use ai_agent_tool.Context.{
  global_scope, private_scope, SharedContext, new_context, set_value, get_value, share,
}
use ai_agent_tool.Context.Calls.{ContextCall, set_call, share_call, handle, run}
use ai_agent_tool.Context.Query.{ContextQueryOptions}
use ai_agent_tool.Context.Sizes.{run-le-max_entries}
use ai_agent_tool.Context.Justified.{IsReader}
use ai_agent_tool.Context.Readers.{get_value-IsReader}

abbrev calls : List (ContextCall ℕ)
calls =
    set_call 1 "plan" 42 "writer" private_scope none
    ∷ share_call 2 "plan" "writer" ("reader" ∷ [])
    ∷ set_call 3 "log" 7 "writer" global_scope (some 100)
    ∷ []

abbrev context : SharedContext ℕ
context = run (new_context 10 true) calls

get_value-IsReader_example : IsReader (new_context 10 true) calls "plan" "reader" 42
unfolding new_context run handle set_value share get_value Map.get Map.set
get_value-IsReader_example = get_value-IsReader 10 true calls 5 "plan" "reader" 42 refl

run-le-max_entries_example : length (run (new_context 10 true) calls).entries ≤ 10
run-le-max_entries_example = run-le-max_entries 10 true calls

abbrev options : ContextQueryOptions
options = record {
  scope = none;
  owner_id = some "writer";
  prefix = none;
  pattern = none;
  limit = some 1;
  offset = some 1;
}

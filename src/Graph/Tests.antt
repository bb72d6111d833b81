-- ===== src/Graph/Tests.antt =====
-- Graphs that the validation accepts and refuses, and the theorems at concrete inputs.
use ai_agent_tool.Common.{◌≡◌, ◌↔◌, refl, false, none, List, [], ◌∷◌, String}
use ai_agent_tool.Graph.Definition.{
  NodeDefinition, task, GraphDefinition, SearchState, clear, cycle, detect_cycles, validate_graph,
  valid, invalid, unknown_dependency,
}
use ai_agent_tool.Graph.Cycles.{IsOnCycle}
use ai_agent_tool.Graph.Decision.{IsDecided, detect_cycles_lem, detect_cycles_iff}

abbrev node : String → List String → NodeDefinition
node id deps = record {
  id = id;
  type = task;
  name = id;
  dependencies = deps;
  retry_policy = none;
  timeout = none;
  continue_on_error = false;
}

abbrev diamond : List NodeDefinition
diamond = node "d" ("b" ∷ "c" ∷ []) ∷ node "b" ("a" ∷ []) ∷ node "c" ("a" ∷ []) ∷ node "a" [] ∷ []

abbrev ring : List NodeDefinition
ring = node "a" ("b" ∷ []) ∷ node "b" ("a" ∷ []) ∷ []

diamond-clear :
    detect_cycles diamond ≡ clear (record { visited = "c" ∷ "a" ∷ "b" ∷ "d" ∷ []; stack = [] })
unfolding detect_cycles
diamond-clear = refl

ring_cycle : detect_cycles ring ≡ cycle "b" "a"
unfolding detect_cycles
ring_cycle = refl

abbrev graph : List NodeDefinition → GraphDefinition
graph nodes = record { id = "g"; nodes = nodes; entry_nodes = [] }

diamond_valid :
    validate_graph (graph diamond)
    ≡ valid (record { id = "g"; nodes = diamond; entry_nodes = "a" ∷ [] })
unfolding validate_graph
diamond_valid = refl

dangling : validate_graph (graph (node "a" ("z" ∷ []) ∷ [])) ≡ invalid (unknown_dependency "a" "z")
unfolding validate_graph
dangling = refl

detect_cycles_lem_example : IsDecided ring (detect_cycles ring)
detect_cycles_lem_example = detect_cycles_lem ring

detect_cycles_iff_example :
    ((s : SearchState) × (detect_cycles diamond ≡ clear s))
    ↔ ((x y : String) → ¬ IsOnCycle diamond x y)
detect_cycles_iff_example = detect_cycles_iff diamond

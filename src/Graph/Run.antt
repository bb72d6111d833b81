-- ===== src/Graph/Run.antt =====
-- The run of a graph in services/orchestrator/src/agents/ExecutionGraph.ts. Every call of
-- `scheduleNode` is a flight: it waits for a slot, it awaits the handler, or it sleeps before a
-- retry. The code between two awaits of a flight is one step. Times and events are left out, and
-- a handler that is not registered is one that fails.
use ai_agent_tool.Common.{
  ℕ, ◌+◌, ◌-◌, Bool, true, false, ◌&&◌, Option, none, some, List, [], ◌∷◌, ◌++◌, String, leb,
  if◌then◌else◌, contains, all,
}
use ai_agent_tool.Common.Map
use ai_agent_tool.Common.Map.{Map}
use ai_agent_tool.Graph.Definition.{
  NodeStatus, pending, running, completed, failed, NodeDefinition, GraphDefinition, find_node,
}

pub record ExecutionError : Type 0 where
  pub message : String
  pub retry_count : ℕ

pub record NodeExecution : Type 0 where
  pub status : NodeStatus
  pub attempts : ℕ
  pub error : Option ExecutionError

pub data Flight : Type 0 where
  -- In the loop of `scheduleNode`; a retry is called from `executeNode`, which keeps its slot.
  waiting : (node : String) (is_retry : Bool) → Flight
  executing : (node : String) → Flight
  backing_off : (node : String) (delay : ℕ) → Flight

pub record GraphRun : Type 0 where
  pub nodes : List NodeDefinition
  pub dependency_map : Map (List String)
  pub concurrency_limit : ℕ
  pub executions : Map NodeExecution
  pub outputs : List String
  pub active_executions : ℕ
  pub is_running : Bool
  pub flights : List Flight

-- `this.dependencyMap.get(id)`, where an absent set is empty.
abbrev pub dependents_of : String → Map (List String) → List String
dependents_of id m = elim (Map.get id m) [ none ↦ [] | some l ↦ l ]

abbrev pub add_to_set : String → List String → List String
add_to_set x l = if contains x l then l else l ++ x ∷ []

unfoldable pub add_dependents :
    (node : String) → List String → Map (List String) → Map (List String)
add_dependents node [] m = m
add_dependents node (dep ∷ deps) m =
    add_dependents node deps (Map.set dep (add_to_set node (dependents_of dep m)) m)

unfoldable pub build_dependency_map : List NodeDefinition → Map (List String) → Map (List String)
unfolding add_dependents
build_dependency_map [] m = m
build_dependency_map (n ∷ ns) m = build_dependency_map ns (add_dependents n.id n.dependencies m)

unfoldable pub initialize_executions : List NodeDefinition → Map NodeExecution → Map NodeExecution
initialize_executions [] m = m
initialize_executions (n ∷ ns) m =
    initialize_executions ns
      (Map.set n.id (record { status = pending; attempts = 0; error = none }) m)

-- The constructor, on a definition that `validateGraph` has let through.
unfoldable pub new_run : GraphDefinition → (concurrency_limit : ℕ) → GraphRun
unfolding build_dependency_map initialize_executions
new_run d limit = record {
  nodes = d.nodes;
  dependency_map = build_dependency_map d.nodes [];
  concurrency_limit = limit;
  executions = initialize_executions d.nodes [];
  outputs = [];
  active_executions = 0;
  is_running = false;
  flights = [];
}

abbrev pub is_pending : Option NodeExecution → Bool
is_pending none = false
is_pending (some e) = elim e.status [ pending ↦ true | _ ↦ false ]

abbrev pub continues : Option NodeDefinition → Bool
continues none = false
continues (some n) = n.continue_on_error

-- A dependency is met: completed, or failed where the node continues on error.
abbrev pub is_met : Option NodeExecution → Option NodeDefinition → Bool
is_met none definition = false
is_met (some e) definition = elim e.status [
  | completed ↦ true
  | failed ↦ continues definition
  | _ ↦ false
]

abbrev pub deps_met : GraphRun → Option NodeDefinition → Bool
deps_met g none = true
deps_met g (some n) =
    all (λ d. is_met (Map.get d g.executions) (find_node d g.nodes)) n.dependencies

unfoldable pub can_execute : GraphRun → String → Bool
can_execute g id = is_pending (Map.get id g.executions) && deps_met g (find_node id g.nodes)

-- The start of `executeNode`, up to the await of the handler.
abbrev pub started : Option NodeExecution → NodeExecution
started none = record { status = running; attempts = 1; error = none }
started (some e) = record e { status = running; attempts = e.attempts + 1 }

-- A slot is taken: `activeExecutions++`, then `executeNode`.
unfoldable pub launch : GraphRun → String → GraphRun
launch g id = record g {
  executions = Map.set id (started (Map.get id g.executions)) g.executions;
  active_executions = g.active_executions + 1;
  flights = executing id ∷ g.flights;
}

-- `scheduleNode` up to its first await.
unfoldable pub schedule_node : GraphRun → String → (is_retry : Bool) → GraphRun
unfolding launch
schedule_node g id is_retry =
    if leb g.concurrency_limit g.active_executions
    then record g { flights = waiting id is_retry ∷ g.flights }
    else launch g id

unfoldable pub schedule_nodes : GraphRun → List String → GraphRun
unfolding schedule_node can_execute
schedule_nodes g [] = g
schedule_nodes g (id ∷ ids) =
    schedule_nodes (if can_execute g id then schedule_node g id false else g) ids

-- The end of a flight: `activeExecutions--`.
abbrev pub leave : GraphRun → GraphRun
leave g = record g { active_executions = g.active_executions - 1 }

-- ===== src/Graph/Definition.antt =====
-- The graph of services/orchestrator/src/agents/ExecutionGraph.ts and its validation. The node's
-- free-form `config` and the descriptions, which no decision reads, are left out. The schema's
-- checks of types hold by the types here, and numbers are whole.
use ai_agent_tool.Common.{
  ℕ, zero, suc, Bool, true, not, ◌&&◌, Option, none, some, List, [], ◌∷◌, String, leb, ◌==◌,
  if◌then◌else◌, str_eq, contains, filter, find, any, length, map,
}

pub data NodeType : Type 0 where
  task condition parallel merge loop : NodeType

pub data NodeStatus : Type 0 where
  pending running completed failed skipped blocked : NodeStatus

pub record RetryPolicy : Type 0 where
  pub max_retries : ℕ
  pub backoff : ℕ
  pub exponential : Bool

pub record NodeDefinition : Type 0 where
  pub id : String
  pub type : NodeType
  pub name : String
  pub dependencies : List String
  pub retry_policy : Option RetryPolicy
  pub timeout : Option ℕ
  pub continue_on_error : Bool

pub record GraphDefinition : Type 0 where
  pub id : String
  pub nodes : List NodeDefinition
  pub entry_nodes : List String

-- `NodeDefinitionSchema`: the checks that are not on types.
unfoldable pub is_schema_valid : NodeDefinition → Bool
is_schema_valid node =
    not (str_eq node.id "")
    && not (str_eq node.name "")
    && (elim node.retry_policy [ none ↦ true | some p ↦ leb p.max_retries 10 ])
    && (elim node.timeout [ none ↦ true | some t ↦ leb 1000 t && leb t 3600000 ])

-- `definition.nodes.find((n) => n.id === id)`.
abbrev pub find_node : String → List NodeDefinition → Option NodeDefinition
find_node id = find (λ n. str_eq n.id id)

-- The dependencies that the search of `detectCycles` goes through.
abbrev pub deps_of_found : Option NodeDefinition → List String
deps_of_found none = []
deps_of_found (some node) = node.dependencies

unfoldable pub deps_of : List NodeDefinition → String → List String
deps_of nodes id = deps_of_found (find_node id nodes)

-- The two sets of `detectCycles`, as lists.
pub record SearchState : Type 0 where
  pub visited : List String
  pub stack : List String

-- The search returns `false`, or throws with the two nodes. `exhausted` is the model's own: the
-- fuel ran out.
pub data SearchResult : Type 0 where
  clear : SearchState → SearchResult
  cycle : (node dependency : String) → SearchResult
  exhausted : SearchResult

abbrev pub without : String → List String → List String
without id = filter (λ j. not (str_eq j id))

abbrev pub then_search : SearchResult → (SearchState → SearchResult) → SearchResult
then_search (clear s) k = k s
then_search (cycle x y) k = cycle x y
then_search exhausted k = exhausted

-- The loop of `dfs` over the dependencies; `visit` is the recursive call.
unfoldable pub visit_deps :
    (String → SearchState → SearchResult)
    → (node : String) → List String
    → SearchState
    → SearchResult
visit_deps visit node [] s = clear s
visit_deps visit node (dep ∷ deps) s =
    let rest = λ (t : SearchState).
      (let more = visit_deps visit node deps t in
        if contains dep t.stack then cycle node dep else more) in
    if contains dep s.visited then rest s else then_search (visit dep s) rest

unfoldable pub dfs : List NodeDefinition → (fuel : ℕ) → String → SearchState → SearchResult
unfolding visit_deps deps_of
dfs nodes zero id s = exhausted
dfs nodes (suc fuel) id s =
    if contains id s.visited
    then clear (record s { stack = without id s.stack })
    else then_search
        (visit_deps (dfs nodes fuel) id (deps_of nodes id)
          (record { visited = id ∷ s.visited; stack = id ∷ s.stack }))
        (λ t. clear (record t { stack = without id t.stack }))

-- The loop of `detectCycles` over the nodes.
unfoldable pub search_all :
    List NodeDefinition → (fuel : ℕ) → List NodeDefinition → SearchState → SearchResult
unfolding dfs
search_all nodes fuel [] s = clear s
search_all nodes fuel (n ∷ ns) s =
    let rest = λ (t : SearchState). search_all nodes fuel ns t in
    if contains n.id s.visited then rest s else then_search (dfs nodes fuel n.id s) rest

-- One level of recursion for each node, and one more.
unfoldable pub detect_cycles : List NodeDefinition → SearchResult
unfolding search_all
detect_cycles nodes =
    search_all nodes (suc (length nodes)) nodes (record { visited = []; stack = [] })

pub data GraphError : Type 0 where
  no_nodes no_entry_nodes : GraphError
  schema_error : (node : String) → GraphError
  duplicate_id : (node : String) → GraphError
  unknown_dependency : (node dependency : String) → GraphError
  cycle_detected : (node dependency : String) → GraphError
  search_exhausted : GraphError

pub data GraphResult : Type 0 where
  valid : GraphDefinition → GraphResult
  invalid : GraphError → GraphResult

-- `none`: all dependencies of the node exist.
unfoldable pub missing_dependency : List NodeDefinition → List String → List String → Option String
missing_dependency nodes seen [] = none
missing_dependency nodes seen (dep ∷ deps) =
    let rest = missing_dependency nodes seen deps in
    if not (contains dep seen) && not (any (λ n. str_eq n.id dep) nodes) then some dep else rest

-- The loop of `validateGraph` over the nodes; `none` is a run without an exception.
unfoldable pub check_nodes :
    List NodeDefinition → (seen : List String) → List NodeDefinition → Option GraphError
unfolding is_schema_valid missing_dependency
check_nodes nodes seen [] = none
check_nodes nodes seen (n ∷ ns) =
    let rest = check_nodes nodes (n.id ∷ seen) ns in
    if not (is_schema_valid n)
    then some (schema_error n.id)
    else if contains n.id seen
    then some (duplicate_id n.id)
    else (elim (missing_dependency nodes (n.id ∷ seen) n.dependencies) [
      | some dep ↦ some (unknown_dependency n.id dep)
      | none ↦ rest
    ])

abbrev pub is_entry : NodeDefinition → Bool
is_entry n = length n.dependencies == 0

-- "Identify entry nodes if not specified".
abbrev pub with_entry_nodes : GraphDefinition → GraphResult
with_entry_nodes d =
    if length d.entry_nodes == 0
    then (let entries = map (λ n. n.id) (filter is_entry d.nodes) in
        if length entries == 0
        then invalid no_entry_nodes
        else valid (record d { entry_nodes = entries }))
    else valid d

abbrev pub after_search : GraphDefinition → SearchResult → GraphResult
after_search d (clear s) = with_entry_nodes d
after_search d (cycle x y) = invalid (cycle_detected x y)
after_search d exhausted = invalid search_exhausted

unfoldable pub validate_graph : GraphDefinition → GraphResult
unfolding check_nodes detect_cycles
validate_graph d =
    if length d.nodes == 0 then invalid no_nodes else (elim (check_nodes d.nodes [] d.nodes) [
      | some e ↦ invalid e
      | none ↦ after_search d (detect_cycles d.nodes)
    ])

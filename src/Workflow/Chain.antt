-- ===== src/Workflow/Chain.antt =====
-- A workflow's nodes form a chain.
use ai_agent_tool.Common.{
  ℕ, zero, suc, ◌≡◌, refl, ap, ◌∙◌, false, Option, none, some, List, [], ◌∷◌, String, arith, inl,
  inr, str_eq-cases, eq_iff, eq_refl, str_eq, All, find, map, length,
}
use ai_agent_tool.Common.Map
use ai_agent_tool.Common.Map.{Map}
use ai_agent_tool.Plans.Data.{PlanStep}
use ai_agent_tool.Workflow.{
  Plan, WorkflowNode, Workflow, WorkflowEngine, WorkflowOptions, WorkflowStatus, node_of, nodes_of,
  create_workflow_from_plan, set_status, set_found, get_workflow,
}

abbrev pub find_node : List WorkflowNode → String → Option WorkflowNode
find_node nodes id = find (λ n. str_eq n.id id) nodes

abbrev pub follow_next : (go : String → List String) → Option (List String) → List String
follow_next go none = []
follow_next go (some []) = []
follow_next go (some (id ∷ ids)) = go id

abbrev pub follow_node : (go : String → List String) → Option WorkflowNode → List String
follow_node go none = []
follow_node go (some n) = n.id ∷ follow_next go n.next

-- The ids on the way that starts at a node and goes on to the first of each node's `next`.
unfoldable pub follow : (fuel : ℕ) → List WorkflowNode → String → List String
follow zero nodes id = []
follow (suc fuel) nodes id = follow_node (follow fuel nodes) (find_node nodes id)

-- No two steps have the same id.
abbrev pub AreDistinct : List PlanStep → Type 0
AreDistinct [] = Unit
AreDistinct (s ∷ steps) = All (λ t. str_eq s.id t.id ≡ false) steps × AreDistinct steps

-- Every step's node is found by its id.
abbrev AreFound : List WorkflowNode → List PlanStep → Type 0
AreFound nodes [] = Unit
AreFound nodes (s ∷ steps) = (find_node nodes s.id ≡ some (node_of s steps)) × AreFound nodes steps

AreFound-cons :
    (n : WorkflowNode) (nodes : List WorkflowNode) (steps : List PlanStep)
    → All (λ t. str_eq n.id t.id ≡ false) steps
    → AreFound nodes steps
    → AreFound (n ∷ nodes) steps
AreFound-cons n nodes [] d h = tt
AreFound-cons n nodes (s ∷ steps) d h = (rw d.0 h.0, AreFound-cons n nodes steps d.1 h.1)

nodes_of-AreFound : (steps : List PlanStep) → AreDistinct steps → AreFound (nodes_of steps) steps
unfolding nodes_of
nodes_of-AreFound [] d = tt
nodes_of-AreFound (s ∷ steps) d = (
  rw (eq_refl s.id) refl,
  AreFound-cons (node_of s steps) (nodes_of steps) steps d.0 (nodes_of-AreFound steps d.1),
)

follow-map :
    (nodes : List WorkflowNode) (s : PlanStep) (steps : List PlanStep)
    → AreFound nodes (s ∷ steps)
    → follow (suc (length (s ∷ steps))) nodes s.id ≡ map (λ t. t.id) (s ∷ steps)
unfolding follow
follow-map nodes s [] h = rw h.0 refl
follow-map nodes s (t ∷ steps) h = rw h.0 (ap (λ ids. s.id ∷ ids) (follow-map nodes t steps h.1))

abbrev pub Change : Type 0
Change = ℕ × (String × WorkflowStatus)

-- Changes of status, of any workflows.
unfoldable pub change_all : WorkflowEngine → List Change → WorkflowEngine
change_all e [] = e
change_all e (c ∷ changes) = change_all (set_status e c.0 c.1.0 c.1.1) changes

-- The workflow is there, with these nodes.
abbrev IsStored : WorkflowEngine → String → List WorkflowNode → Type 0
IsStored e id nodes = (w : Workflow) × (Map.get id e ≡ some w) × (w.nodes ≡ nodes)

set_found-IsStored :
    (e : WorkflowEngine) (now : ℕ) (j id : String) (status : WorkflowStatus) (o : Option Workflow)
    (nodes : List WorkflowNode)
    → Map.get j e ≡ o
    → IsStored e id nodes
    → IsStored (set_found e now j status o) id nodes
set_found-IsStored e now j id status none nodes there h = h
set_found-IsStored e now j id status (some v) nodes there (w, found, same_nodes) =
    let changed = record v { status = status; updated_at = now } in
    elim (str_eq-cases j id) [
      | inl eq ↦ (
        changed,
        ground (arith, eq_iff j id, Map.get-set j id changed e),
        ground (arith, ap (λ k. Map.get k e) eq),
      )
      | inr ne ↦ (w, Map.get-set_ne j id changed e ne.0 ∙ found, same_nodes)
    ]

change_all-IsStored :
    (changes : List Change) (e : WorkflowEngine) (id : String) (nodes : List WorkflowNode)
    → IsStored e id nodes
    → IsStored (change_all e changes) id nodes
unfolding change_all set_status
change_all-IsStored [] e id nodes h = h
change_all-IsStored (c ∷ changes) e id nodes h =
    change_all-IsStored changes (set_status e c.0 c.1.0 c.1.1) id nodes
      (set_found-IsStored e c.0 c.1.0 id c.1.1 (Map.get c.1.0 e) nodes refl h)

-- A workflow runs through its plan. Let a workflow be made from a plan whose steps have different
-- ids, and let the status of any workflows be set any number of times after. Then the workflow is
-- found under its id, and following `next` from the first step's node visits the nodes of all
-- steps, in the order of the plan, and ends there, though there is fuel for one node more.
pub create-follow :
    (e : WorkflowEngine) (now : ℕ) (uuid plan_id : String) (s : PlanStep) (steps : List PlanStep)
    (options : WorkflowOptions) (changes : List Change)
    → AreDistinct (s ∷ steps)
    → let plan : Plan = record { id = plan_id; steps = s ∷ steps } in
      let (e', w) = create_workflow_from_plan e now uuid plan options in
      (w' : Workflow) × (get_workflow (change_all e' changes) w.id ≡ some w')
      × (follow (suc (length (s ∷ steps))) w'.nodes s.id ≡ map (λ t. t.id) (s ∷ steps))
unfolding create_workflow_from_plan
create-follow e now uuid plan_id s steps options changes d =
    let plan : Plan = record { id = plan_id; steps = s ∷ steps } in
    let (e', w) = create_workflow_from_plan e now uuid plan options in
    let (w', there, same_nodes) =
      change_all-IsStored changes e' w.id (nodes_of (s ∷ steps))
        (w, Map.get-set_self w.id w e, refl) in
    (
      w',
      there,
      ap (λ nodes. follow (suc (length (s ∷ steps))) nodes s.id) same_nodes
          ∙ follow-map (nodes_of (s ∷ steps)) s steps (nodes_of-AreFound (s ∷ steps) d),
    )

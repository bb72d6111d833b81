-- ===== src/Graph/Decision.antt =====
-- `detectCycles` decides whether there is a cycle of dependencies.
use ai_agent_tool.Common.{
  ℕ, suc, ◌<◌, ◌≡◌, refl, ◌∙◌, ◌↔◌, true, some, List, [], ◌∷◌, String, arith, contains, inl, inr,
  Bool-cases, Option-cases, All, str_eq-cases, length,
}
use ai_agent_tool.Graph.Definition.{
  NodeDefinition, find_node, deps_of, SearchState, SearchResult, clear, cycle, exhausted, dfs,
  search_all, detect_cycles,
}
use ai_agent_tool.Graph.Cycles.{IsOnCycle, IsOrdered, IsOrdered-acyclic}
use ai_agent_tool.Graph.Search.{
  unvisited, unvisited-le, IsSearched, Post, then_search-Post, Post-map, Advances, dfs-Post,
}

abbrev Sorts : List NodeDefinition → List NodeDefinition → List String → SearchState → Type 0
Sorts nodes ns order t =
    (order' : List String) × IsSearched nodes t order'
    × All (λ n. contains n.id order' ≡ true) ns
    × ((x : String) → contains x order ≡ true → contains x order' ≡ true)

search_all-Post :
    (nodes : List NodeDefinition) (fuel : ℕ) (ns : List NodeDefinition) (s : SearchState)
    (order : List String)
    → IsSearched nodes s order
    → s.stack ≡ []
    → unvisited nodes s.visited < fuel
    → Post nodes (Sorts nodes ns order) (search_all nodes fuel ns s)
unfolding search_all
search_all-Post nodes fuel [] s order h idle room = (order, h, tt, λ x c. c)
search_all-Post nodes fuel (n ∷ ns) s order h idle room =
    elim (Bool-cases (contains n.id s.visited)) [
      | inl seen ↦ rw seen (
          Post-map nodes (Sorts nodes ns order) (Sorts nodes (n ∷ ns) order)
            (search_all nodes fuel ns s)
            (λ t (o, g, all_in, kept).
              (o, g, (kept n.id (ground (arith, h.split n.id, idle)), all_in), kept))
            (search_all-Post nodes fuel ns s order h idle room))
      | inr new ↦ rw new (
          then_search-Post nodes (Advances nodes s order (n.id ∷ [])) (Sorts nodes (n ∷ ns) order)
            (dfs nodes fuel n.id s) _ (dfs-Post nodes fuel n.id s order h new (rw idle tt) room)
            (λ t a.
              Post-map nodes (Sorts nodes ns a.order') (Sorts nodes (n ∷ ns) order)
                (search_all nodes fuel ns t)
                (λ u (o, g, all_in, kept).
                  (o, g, (kept n.id a.finished.0, all_in), λ x c. kept x (a.kept x c)))
                (search_all-Post nodes fuel ns t a.order' a.searched (a.same_stack ∙ idle)
                  (omega (arith, a.fewer)))))
    ]

-- What a result of `detectCycles` says.
abbrev pub IsDecided : List NodeDefinition → SearchResult → Type 0
IsDecided nodes (clear t) =
    (order : List String) × IsOrdered nodes order × All (λ n. contains n.id order ≡ true) nodes
IsDecided nodes (cycle x y) = IsOnCycle nodes x y
IsDecided nodes exhausted = ⊥

-- What `detectCycles` comes to, for every list of nodes: if it returns, there is an order of ids
-- that has every node, and in which each id stands before all that its node depends on; if it
-- throws for a node and a dependency, the node does depend on it, and by some path of dependencies
-- it leads back to the node. The search never needs more fuel than it is given.
pub detect_cycles_lem : (nodes : List NodeDefinition) → IsDecided nodes (detect_cycles nodes)
unfolding detect_cycles
detect_cycles_lem nodes =
    let start : SearchState = record { visited = []; stack = [] } in
    decided nodes (search_all nodes (suc (length nodes)) nodes start) (
      search_all-Post nodes (suc (length nodes)) nodes start []
        (record { split = λ x. refl; ordered = tt; chain = tt }) refl
        (omega (arith, unvisited-le nodes [])))
  where
    decided :
        (nodes : List NodeDefinition) (r : SearchResult)
        → Post nodes (Sorts nodes nodes []) r
        → IsDecided nodes r
    decided nodes (clear t) (o, g, all_in, kept) = (o, g.ordered, all_in)
    decided nodes (cycle x y) h = h
    decided nodes exhausted h = h

-- What has a dependency is a node, and so it is in the order.
in_order :
    (nodes : List NodeDefinition) (order : List String) (x : String) (n : NodeDefinition)
    → All (λ m. contains m.id order ≡ true) nodes
    → find_node x nodes ≡ some n
    → contains x order ≡ true
in_order [] order x n h e = cc
in_order (m ∷ nodes) order x n h e = elim (str_eq-cases m.id x) [
  | inl same ↦ rw same at h.0
  | inr (differ, apart) ↦ in_order nodes order x n h.1 (ground arith)
]

acyclic :
    (nodes : List NodeDefinition) (order : List String)
    → IsOrdered nodes order
    → All (λ m. contains m.id order ≡ true) nodes
    → (x y : String) → ¬ IsOnCycle nodes x y
unfolding deps_of
acyclic nodes order ordered all_in x y c = elim (Option-cases (find_node x nodes)) [
  | inl absent ↦ ground (arith, c.0)
  | inr (n, found) ↦
      IsOrdered-acyclic nodes order x y ordered (in_order nodes order x n all_in found) c
]

-- `detectCycles` is exact: it returns if and only if no node is on a cycle of dependencies.
pub detect_cycles_iff :
    (nodes : List NodeDefinition)
    → ((s : SearchState) × (detect_cycles nodes ≡ clear s))
      ↔ ((x y : String) → ¬ IsOnCycle nodes x y)
detect_cycles_iff nodes = go (detect_cycles nodes) refl (detect_cycles_lem nodes)
  where
    go :
        (r : SearchResult)
        → detect_cycles nodes ≡ r
        → IsDecided nodes r
        → ((s : SearchState) × (detect_cycles nodes ≡ clear s))
          ↔ ((x y : String) → ¬ IsOnCycle nodes x y)
    go (clear t) e (order, ordered, all_in) =
        (λ (s, h) x y c. acyclic nodes order ordered all_in x y c, λ h. (t, e))
    go (cycle x y) e on = (λ (s, h). cc, λ h. absurd (h x y on))
    go exhausted e never = absurd never

-- ===== src/Graph/Search.antt =====
-- The depth-first search `dfs` of `detectCycles`: what it keeps, and what it has done in the end.
use ai_agent_tool.Common.{
  ℕ, zero, suc, ◌≤◌, ◌<◌, ◌≡◌, refl, ◌∙◌, true, false, not, ◌||◌, some, List, [], ◌∷◌, String,
  arith, contains, if◌then◌else◌, inl, inr, Bool-cases, Option-cases, eq_iff, eq_refl, All, All-map,
  str_eq-cases, count_if, length,
}
use ai_agent_tool.Graph.Definition.{
  NodeDefinition, find_node, deps_of, without, SearchState, SearchResult, clear, cycle, exhausted,
  then_search, visit_deps, dfs,
}
use ai_agent_tool.Graph.Cycles.{
  DependsOn, IsOnCycle, IsOrdered, IsChain, IsChain-Reaches, All-contains_self,
}

abbrev pub unvisited : List NodeDefinition → List String → ℕ
unvisited nodes visited = count_if (λ n. not (contains n.id visited)) nodes

unvisited-cons-le :
    (nodes : List NodeDefinition) (id : String) (visited : List String)
    → unvisited nodes (id ∷ visited) ≤ unvisited nodes visited
unvisited-cons-le [] id visited = omega arith
unvisited-cons-le (n ∷ nodes) id visited = ground (arith, unvisited-cons-le nodes id visited)

-- Visiting a node of the graph for the first time leaves fewer.
unvisited-cons-lt :
    (nodes : List NodeDefinition) (id : String) (visited : List String) (n : NodeDefinition)
    → find_node id nodes ≡ some n
    → contains id visited ≡ false
    → unvisited nodes (id ∷ visited) < unvisited nodes visited
unvisited-cons-lt [] id visited n e h = cc
unvisited-cons-lt (m ∷ nodes) id visited n e h = elim (str_eq-cases m.id id) [
  | inl same ↦ rw (same, eq_refl id, h) (omega (arith, unvisited-cons-le nodes id visited))
  | inr (differ, apart) ↦
      ground (arith, unvisited-cons-lt nodes id visited n, eq_iff m.id id, eq_iff id m.id)
]

pub unvisited-le :
    (nodes : List NodeDefinition) (visited : List String) → unvisited nodes visited ≤ length nodes
unvisited-le [] visited = omega arith
unvisited-le (n ∷ nodes) visited = ground (arith, unvisited-le nodes visited)

without_absent : (id : String) (l : List String) → contains id l ≡ false → without id l ≡ l
without_absent id [] h = refl
without_absent id (x ∷ l) h = ground (arith, without_absent id l)

-- What is known of the search: the ids visited are those finished, in an order in which each comes
-- after what it needs, and those on the stack.
pub record IsSearched (nodes : List NodeDefinition) (s : SearchState) (order : List String)
    : Type 0 where
  pub split : (x : String) → contains x s.visited ≡ (contains x order || contains x s.stack)
  pub ordered : IsOrdered nodes order
  pub chain : IsChain nodes s.stack

-- A result is good if it satisfies `Q`, or reports a cycle that is there.
abbrev pub Post : List NodeDefinition → (SearchState → Type 0) → SearchResult → Type 0
Post nodes Q (clear t) = Q t
Post nodes Q (cycle x y) = IsOnCycle nodes x y
Post nodes Q exhausted = ⊥

pub then_search-Post :
    (nodes : List NodeDefinition) (Q R : SearchState → Type 0) (r : SearchResult)
    (k : SearchState → SearchResult)
    → Post nodes Q r
    → ((t : SearchState) → Q t → Post nodes R (k t))
    → Post nodes R (then_search r k)
then_search-Post nodes Q R (clear t) k h f = f t h
then_search-Post nodes Q R (cycle x y) k h f = h
then_search-Post nodes Q R exhausted k h f = absurd h

-- The search went on from `s` to `t`, finished all of `targets`, and left the stack as it was.
pub record Advances (nodes : List NodeDefinition) (s : SearchState) (order targets : List String)
    (t : SearchState) : Type 0 where
  pub order' : List String
  pub searched : IsSearched nodes t order'
  pub same_stack : t.stack ≡ s.stack
  pub finished : All (λ d. contains d order' ≡ true) targets
  pub kept : (x : String) → contains x order ≡ true → contains x order' ≡ true
  pub fewer : unvisited nodes t.visited ≤ unvisited nodes s.visited

pub Post-map :
    (nodes : List NodeDefinition) (Q R : SearchState → Type 0) (r : SearchResult)
    → ((t : SearchState) → Q t → R t)
    → Post nodes Q r
    → Post nodes R r
Post-map nodes Q R (clear t) f h = f t h
Post-map nodes Q R (cycle x y) f h = h
Post-map nodes Q R exhausted f h = h

-- What the recursive call is good for.
abbrev pub Explores : List NodeDefinition → (String → SearchState → SearchResult) → ℕ → Type 0
Explores nodes visit fuel =
    (id : String) (s : SearchState) (order : List String)
    → IsSearched nodes s order
    → contains id s.visited ≡ false
    → IsChain nodes (id ∷ s.stack)
    → unvisited nodes s.visited < fuel
    → Post nodes (Advances nodes s order (id ∷ [])) (visit id s)

module _ (nodes : List NodeDefinition) (visit : String → SearchState → SearchResult) (fuel : ℕ)
    (explores : Explores nodes visit fuel) (node : String) (base : List String) where
  -- The test of a dependency that has been visited, and the rest of the loop.
  resume-Post :
      (dep : String) (deps : List String) (s t : SearchState) (order order1 : List String)
      → IsSearched nodes t order1
      → s.stack ≡ node ∷ base
      → t.stack ≡ s.stack
      → ((x : String) → contains x order ≡ true → contains x order1 ≡ true)
      → unvisited nodes t.visited ≤ unvisited nodes s.visited
      → DependsOn nodes node dep
      → contains dep t.visited ≡ true
      → Post nodes (Advances nodes t order1 deps) (visit_deps visit node deps t)
      → Post nodes
          (Advances nodes s order (dep ∷ deps))
          (if contains dep t.stack then cycle node dep else visit_deps visit node deps t)
  resume-Post dep deps s t order order1 h e same kept fewer d seen rest =
      elim (Bool-cases (contains dep t.stack)) [
        | inl on ↦ rw on (
          d,
          IsChain-Reaches nodes node base dep (rw (same ∙ e) at h.chain) (rw (same ∙ e) at on),
        )
        | inr off ↦ rw off (
            Post-map nodes (Advances nodes t order1 deps) (Advances nodes s order (dep ∷ deps))
              (visit_deps visit node deps t)
              (λ u a. record {
                order' = a.order';
                searched = a.searched;
                same_stack = a.same_stack ∙ same;
                finished = (a.kept dep (ground (arith, h.split dep)), a.finished);
                kept = λ x c. a.kept x (kept x c);
                fewer = omega (arith, a.fewer);
              })
              rest)
      ]

  visit_deps-Post :
      (deps : List String) (s : SearchState) (order : List String)
      → IsSearched nodes s order
      → s.stack ≡ node ∷ base
      → All (λ d. DependsOn nodes node d) deps
      → All (λ d. unvisited nodes s.visited < fuel) deps
      → Post nodes (Advances nodes s order deps) (visit_deps visit node deps s)
  unfolding visit_deps
  visit_deps-Post [] s order h e d room = record {
    order' = order;
    searched = h;
    same_stack = refl;
    finished = tt;
    kept = λ x c. c;
    fewer = omega arith;
  }
  visit_deps-Post (dep ∷ deps) s order h e d room = elim (Bool-cases (contains dep s.visited)) [
    | inl seen ↦ rw seen (
        resume-Post dep deps s s order order h e refl (λ x c. c) (omega arith) d.0 seen
          (visit_deps-Post deps s order h e d.1 room.1))
    | inr new ↦ rw new (
        then_search-Post nodes (Advances nodes s order (dep ∷ []))
          (Advances nodes s order (dep ∷ deps)) (visit dep s) _
          (explores dep s order h new (rw e (d.0, rw e at h.chain)) room.0)
          (λ t a.
            resume-Post dep deps s t order a.order' a.searched e a.same_stack a.kept a.fewer d.0
              (ground (arith, a.searched.split dep, a.finished.0))
              (visit_deps-Post deps t a.order' a.searched (a.same_stack ∙ e) d.1
                (All-map deps (λ q r. omega (arith, a.fewer)) room.1))))
  ]

All-Unit : (l : List String) → All (λ d. Unit {0}) l
All-Unit [] = tt
All-Unit (x ∷ l) = (tt, All-Unit l)

-- The recursive calls have fuel left: an id with dependencies is that of a node.
enough_room :
    (nodes : List NodeDefinition) (id : String) (visited : List String) (fuel : ℕ)
    → contains id visited ≡ false
    → unvisited nodes visited < suc fuel
    → All (λ d. unvisited nodes (id ∷ visited) < fuel) (deps_of nodes id)
unfolding deps_of
enough_room nodes id visited fuel new room = elim (Option-cases (find_node id nodes)) [
  | inl absent ↦ rw absent tt
  | inr (n, found) ↦ rw found (
      All-map {P = λ d. Unit {0}} n.dependencies
        (λ d u. omega (arith, unvisited-cons-lt nodes id visited n found new))
        (All-Unit n.dependencies))
]

-- The end of `dfs`: the id leaves the stack and is finished.
finish :
    (nodes : List NodeDefinition) (id : String) (s : SearchState) (order : List String)
    {t : SearchState}
    → contains id s.visited ≡ false
    → IsSearched nodes s order
    → Advances nodes
        (record { visited = id ∷ s.visited; stack = id ∷ s.stack })
        order
        (deps_of nodes id)
        t
    → Advances nodes s order (id ∷ []) (record t { stack = without id t.stack })
finish nodes id s order {t} new h a =
    let absent : contains id s.stack ≡ false = ground (arith, h.split id) in
    let back : without id t.stack ≡ s.stack =
      rw (a.same_stack, eq_refl id) (without_absent id s.stack absent) in
    record {
      order' = id ∷ a.order';
      searched = record {
        split = λ x. ground (arith, a.searched.split x, a.same_stack, back);
        ordered = (a.finished, a.searched.ordered);
        chain = rw back h.chain;
      };
      same_stack = back;
      finished = (ground (arith, eq_refl id), tt);
      kept = λ x c. ground (arith, a.kept x c);
      fewer = omega (arith, a.fewer, unvisited-cons-le nodes id s.visited);
    }

-- The whole of `dfs`: enough fuel is one more than the nodes that are still unvisited.
pub dfs-Post : (nodes : List NodeDefinition) (fuel : ℕ) → Explores nodes (dfs nodes fuel) fuel
unfolding dfs
dfs-Post nodes zero id s order h new chain room = absurd (omega arith)
dfs-Post nodes (suc fuel) id s order h new chain room = rw new (
    then_search-Post nodes
      (Advances nodes (record { visited = id ∷ s.visited; stack = id ∷ s.stack }) order
        (deps_of nodes id))
      (Advances nodes s order (id ∷ [])) _ _
      (visit_deps-Post nodes (dfs nodes fuel) fuel (dfs-Post nodes fuel) id s.stack
        (deps_of nodes id) (record { visited = id ∷ s.visited; stack = id ∷ s.stack }) order
        (record { split = λ x. ground (arith, h.split x); ordered = h.ordered; chain = chain }) refl
        (All-contains_self (deps_of nodes id)) (enough_room nodes id s.visited fuel new room))
      (λ t a. finish nodes id s order new h a))

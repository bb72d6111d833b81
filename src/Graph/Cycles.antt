-- ===== src/Graph/Cycles.antt =====
-- Paths and cycles of dependencies, and orders in which every node comes after what it needs.
use ai_agent_tool.Common.{
  ◌≡◌, true, List, [], ◌∷◌, String, arith, contains, inl, inr, eq_iff, eq_refl, All, str_eq-cases,
}
use ai_agent_tool.Graph.Definition.{NodeDefinition, deps_of}

-- `x` depends on `y`.
abbrev pub DependsOn : List NodeDefinition → String → String → Type 0
DependsOn nodes x y = contains y (deps_of nodes x) ≡ true

-- `x` depends on `y` by any number of steps.
pub data Reaches (nodes : List NodeDefinition) (x : String) : String → Type 0 where
  here : Reaches nodes x x
  next : {y z : String} → Reaches nodes x y → DependsOn nodes y z → Reaches nodes x z

-- `x` depends on `y`, which leads back to `x`.
abbrev pub IsOnCycle : List NodeDefinition → String → String → Type 0
IsOnCycle nodes x y = DependsOn nodes x y × Reaches nodes y x

-- Each id stands before all that its node depends on; the last one was finished first.
abbrev pub IsOrdered : List NodeDefinition → List String → Type 0
IsOrdered nodes [] = Unit
IsOrdered nodes (x ∷ xs) = All (λ d. contains d xs ≡ true) (deps_of nodes x) × IsOrdered nodes xs

-- The recursion stack: each id is a dependency of the one under it.
abbrev pub IsChain : List NodeDefinition → List String → Type 0
IsChain nodes [] = Unit
IsChain nodes (x ∷ []) = Unit
IsChain nodes (x ∷ y ∷ l) = DependsOn nodes y x × IsChain nodes (y ∷ l)

pub All-contains {κ} :
    (P : String → Type κ) (l : List String) (x : String) → All P l → contains x l ≡ true → P x
All-contains P [] x h e = cc
All-contains P (y ∷ l) x h e = elim (str_eq-cases y x) [
  | inl same ↦ rw (← same) h.0
  | inr (differ, apart) ↦ All-contains P l x h.1 (ground arith)
]

pub All-contains_self : (l : List String) → All (λ d. contains d l ≡ true) l
All-contains_self l = go l (λ d e. e)
  where
    go :
        (k : List String)
        → ((d : String) → contains d k ≡ true → contains d l ≡ true)
        → All (λ d. contains d l ≡ true) k
    go [] f = tt
    go (x ∷ k) f = (f x (ground (arith, eq_refl x)), go k (λ d e. f d (ground arith)))

-- From anything on the stack there is a path to its top.
pub IsChain-Reaches :
    (nodes : List NodeDefinition) (top : String) (l : List String) (y : String)
    → IsChain nodes (top ∷ l)
    → contains y (top ∷ l) ≡ true
    → Reaches nodes y top
IsChain-Reaches nodes top [] y c e =
    let same : top ≡ y = (eq_iff top y).0 (ground arith) in rw same here
IsChain-Reaches nodes top (z ∷ l) y c e = elim (str_eq-cases top y) [
  | inl same ↦ rw same here
  | inr (differ, apart) ↦ next (IsChain-Reaches nodes z l y c.1 (ground arith)) c.0
]

IsOrdered-closed :
    (nodes : List NodeDefinition) (l : List String) (x d : String)
    → IsOrdered nodes l
    → contains x l ≡ true
    → DependsOn nodes x d
    → contains d l ≡ true
IsOrdered-closed nodes [] x d o e h = cc
IsOrdered-closed nodes (z ∷ l) x d o e h = elim (str_eq-cases z x) [
  | inl same ↦
      let found = All-contains (λ q. contains q l ≡ true) (deps_of nodes z) d o.0 (rw same h) in
      ground arith
  | inr (differ, apart) ↦
      let found = IsOrdered-closed nodes l x d o.1 (ground arith) h in ground arith
]

IsOrdered-Reaches :
    (nodes : List NodeDefinition) (l : List String) {x y : String}
    → IsOrdered nodes l
    → contains x l ≡ true
    → Reaches nodes x y
    → contains y l ≡ true
IsOrdered-Reaches nodes l o e here = e
IsOrdered-Reaches nodes l o e (next {y = y} {z = z} r h) =
    IsOrdered-closed nodes l y z o (IsOrdered-Reaches nodes l o e r) h

-- Nothing in an ordered list is on a cycle.
pub IsOrdered-acyclic :
    (nodes : List NodeDefinition) (l : List String) (x y : String)
    → IsOrdered nodes l
    → contains x l ≡ true
    → ¬ IsOnCycle nodes x y
IsOrdered-acyclic nodes [] x y o e c = cc
IsOrdered-acyclic nodes (z ∷ l) x y o e c = elim (str_eq-cases z x) [
  | inl same ↦
      let found = All-contains (λ q. contains q l ≡ true) (deps_of nodes z) y o.0 (rw same c.0) in
      IsOrdered-acyclic nodes l x y o.1 (IsOrdered-Reaches nodes l o.1 found c.1) c
  | inr (differ, apart) ↦ IsOrdered-acyclic nodes l x y o.1 (ground arith) c
]

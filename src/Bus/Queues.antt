-- ===== src/Bus/Queues.antt =====
-- Queues of the message bus of services/orchestrator/src/agents/AgentCommunication.ts: they are sorted
-- by priority and not too long.
use ai_agent_tool.Common.{
  ℕ, suc, ◌+◌, ◌≤◌, ◌<◌, ◌≡◌, refl, ap, Bool, List, [], ◌∷◌, arith, ltb, ◌==◌, length, filter,
  length-filter-le, All, All-map, if-cases,
}
use ai_agent_tool.Bus.{rank, Envelope, insert_by_priority}
use ai_agent_tool.Bus.Delivery.{remove_ref, set_retries}

module _ {V : Type 0} where
  abbrev pub rank_of : Envelope V → ℕ
  rank_of e = rank e.message.priority

  abbrev pub IsSorted : List (Envelope V) → Type 0
  IsSorted [] = Unit
  IsSorted (x ∷ xs) = All (λ y. rank_of y ≤ rank_of x) xs × IsSorted xs

  abbrev pub IsOrderly : ℕ → List (Envelope V) → Type 0
  IsOrderly n q = IsSorted q × (length q ≤ n)

  length-insert :
      (e : Envelope V) (q : List (Envelope V)) → length (insert_by_priority e q) ≡ length q + 1
  unfolding insert_by_priority
  length-insert e [] = refl
  length-insert e (x ∷ xs) = ground (arith, length-insert e xs)

  insert-All :
      (P : Envelope V → Type 0) (e : Envelope V) (q : List (Envelope V))
      → P e
      → All P q
      → All P (insert_by_priority e q)
  unfolding insert_by_priority
  insert-All P e [] p h = (p, tt)
  insert-All P e (x ∷ xs) p h =
      let rest = insert-All P e xs p h.1 in
      if-cases (All P) (ltb (rank_of x) (rank_of e)) (e ∷ x ∷ xs) (x ∷ insert_by_priority e xs)
        (λ b. (p, h)) (λ b. (h.0, rest))

  pub insert-IsSorted :
      (e : Envelope V) (q : List (Envelope V)) → IsSorted q → IsSorted (insert_by_priority e q)
  unfolding insert_by_priority
  insert-IsSorted e [] h = (tt, tt)
  insert-IsSorted e (x ∷ xs) h =
      let rest = insert-IsSorted e xs h.1 in
      if-cases IsSorted (ltb (rank_of x) (rank_of e)) (e ∷ x ∷ xs) (x ∷ insert_by_priority e xs)
        (λ b.
          let l : rank_of x ≤ rank_of e = ground (arith, b) in
          ((l, All-map xs (λ y g. omega (arith, g, l)) h.0), h))
        (λ b. (insert-All (λ y. rank_of y ≤ rank_of x) e xs (ground (arith, b)) h.0, rest))

  pub insert-IsOrderly :
      (n : ℕ) (e : Envelope V) (q : List (Envelope V))
      → IsOrderly n q
      → length q < n
      → IsOrderly n (insert_by_priority e q)
  insert-IsOrderly n e q h l =
      let grown = length-insert e q in (insert-IsSorted e q h.0, omega (arith, grown, l))

  remove-All :
      (P : Envelope V → Type 0) (ref : ℕ) (q : List (Envelope V))
      → All P q
      → All P (remove_ref ref q)
  unfolding remove_ref
  remove-All P ref [] h = tt
  remove-All P ref (x ∷ xs) h =
      let rest = remove-All P ref xs h.1 in
      if-cases (All P) (x.ref == ref) xs (x ∷ remove_ref ref xs) (λ b. h.1) (λ b. (h.0, rest))

  remove-IsSorted : (ref : ℕ) (q : List (Envelope V)) → IsSorted q → IsSorted (remove_ref ref q)
  unfolding remove_ref
  remove-IsSorted ref [] h = tt
  remove-IsSorted ref (x ∷ xs) h =
      let rest = remove-IsSorted ref xs h.1 in
      if-cases IsSorted (x.ref == ref) xs (x ∷ remove_ref ref xs) (λ b. h.1)
        (λ b. (remove-All (λ y. rank_of y ≤ rank_of x) ref xs h.0, rest))

  length-remove : (ref : ℕ) (q : List (Envelope V)) → length (remove_ref ref q) ≤ length q
  unfolding remove_ref
  length-remove ref [] = omega arith
  length-remove ref (x ∷ xs) = ground (arith, length-remove ref xs)

  pub remove-IsOrderly :
      (n ref : ℕ) (q : List (Envelope V)) → IsOrderly n q → IsOrderly n (remove_ref ref q)
  remove-IsOrderly n ref q h =
      let l = length-remove ref q in (remove-IsSorted ref q h.0, omega (arith, l, h.1))

  retries-All :
      (bound ref n : ℕ) (q : List (Envelope V))
      → All (λ y. rank_of y ≤ bound) q
      → All (λ y. rank_of y ≤ bound) (set_retries ref n q)
  unfolding set_retries
  retries-All bound ref n [] h = tt
  retries-All bound ref n (x ∷ xs) h = (
    if-cases (λ y. rank_of y ≤ bound) (x.ref == ref) (record x { retries = n }) x (λ b. h.0)
        (λ b. h.0),
    retries-All bound ref n xs h.1,
  )

  retries-IsSorted :
      (ref n : ℕ) (q : List (Envelope V)) → IsSorted q → IsSorted (set_retries ref n q)
  unfolding set_retries
  retries-IsSorted ref n [] h = tt
  retries-IsSorted ref n (x ∷ xs) h =
      let rest = retries-IsSorted ref n xs h.1 in
      let below = retries-All (rank_of x) ref n xs h.0 in
      if-cases
        (λ y.
          All (λ z. rank_of z ≤ rank_of y) (set_retries ref n xs) × IsSorted (set_retries ref n xs))
        (x.ref == ref) (record x { retries = n }) x (λ b. (below, rest)) (λ b. (below, rest))

  length-retries : (ref n : ℕ) (q : List (Envelope V)) → length (set_retries ref n q) ≡ length q
  unfolding set_retries
  length-retries ref n [] = refl
  length-retries ref n (x ∷ xs) = ap suc (length-retries ref n xs)

  pub retries-IsOrderly :
      (n ref retries : ℕ) (q : List (Envelope V))
      → IsOrderly n q
      → IsOrderly n (set_retries ref retries q)
  retries-IsOrderly n ref retries q h =
      let l = length-retries ref retries q in
      (retries-IsSorted ref retries q h.0, omega (arith, l, h.1))

  filter-All :
      (P : Envelope V → Type 0) (p : Envelope V → Bool) (q : List (Envelope V))
      → All P q
      → All P (filter p q)
  filter-All P p [] h = tt
  filter-All P p (x ∷ xs) h =
      let rest = filter-All P p xs h.1 in
      if-cases (All P) (p x) (x ∷ filter p xs) (filter p xs) (λ b. (h.0, rest)) (λ b. rest)

  filter-IsSorted :
      (p : Envelope V → Bool) (q : List (Envelope V)) → IsSorted q → IsSorted (filter p q)
  filter-IsSorted p [] h = tt
  filter-IsSorted p (x ∷ xs) h =
      let rest = filter-IsSorted p xs h.1 in
      if-cases IsSorted (p x) (x ∷ filter p xs) (filter p xs)
        (λ b. (filter-All (λ y. rank_of y ≤ rank_of x) p xs h.0, rest)) (λ b. rest)

  pub filter-IsOrderly :
      (n : ℕ) (p : Envelope V → Bool) (q : List (Envelope V))
      → IsOrderly n q
      → IsOrderly n (filter p q)
  filter-IsOrderly n p q h =
      let l = length-filter-le p q in (filter-IsSorted p q h.0, omega (arith, l, h.1))

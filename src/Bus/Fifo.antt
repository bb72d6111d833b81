-- ===== src/Bus/Fifo.antt =====
-- The order of messages in a queue of the message bus of
-- services/orchestrator/src/agents/AgentCommunication.ts.
use ai_agent_tool.Common.{
  ℕ, ◌≤◌, ◌<◌, ◌≡◌, inl, inr, refl, sym, ap, subst, ◌∙◌, List, [], ◌∷◌, ◌++◌, arith, ltb, ◌==◌,
  filter, All, Bool-cases,
}
use ai_agent_tool.Bus.{Envelope, insert_by_priority}
use ai_agent_tool.Bus.Queues.{rank_of, IsSorted, insert-IsSorted}

module _ {V : Type 0} where
  -- The envelopes of one priority.
  abbrev pub of_rank : ℕ → List (Envelope V) → List (Envelope V)
  of_rank p q = filter (λ e. rank_of e == p) q

  -- A queue after arrivals, the first of them first.
  unfoldable pub arrive : List (Envelope V) → List (Envelope V) → List (Envelope V)
  arrive q [] = q
  arrive q (e ∷ es) = arrive (insert_by_priority e q) es

  of_rank-below : (p : ℕ) (q : List (Envelope V)) → All (λ y. rank_of y < p) q → of_rank p q ≡ []
  of_rank-below p [] h = refl
  of_rank-below p (x ∷ xs) h = let rest = of_rank-below p xs h.1 in ground (arith, rest, h.0)

  All-lt :
      (a b : ℕ) (q : List (Envelope V))
      → a < b
      → All (λ y. rank_of y ≤ a) q
      → All (λ y. rank_of y < b) q
  All-lt a b [] l h = tt
  All-lt a b (x ∷ xs) l h = (omega (arith, l, h.0), All-lt a b xs l h.1)

  append_nil : (xs : List (Envelope V)) → xs ++ [] ≡ xs
  append_nil [] = refl
  append_nil (x ∷ xs) = ap (λ l. x ∷ l) (append_nil xs)

  of_rank-first :
      (p : ℕ) (e : Envelope V) (q : List (Envelope V))
      → All (λ y. rank_of y < rank_of e) q
      → of_rank p (e ∷ q) ≡ of_rank p q ++ of_rank p (e ∷ [])
  of_rank-first p e q h = elim (Bool-cases (rank_of e == p)) [
    | inl b ↦
        let same : rank_of e ≡ p = ground (arith, b) in
        let none_left = of_rank-below p q (subst (λ n. All (λ y. rank_of y < n) q) same h) in
        rw (b, none_left) refl
    | inr b ↦ rw b (sym (append_nil (of_rank p q)))
  ]

  of_rank-insert :
      (p : ℕ) (e : Envelope V) (q : List (Envelope V))
      → IsSorted q
      → of_rank p (insert_by_priority e q) ≡ of_rank p q ++ of_rank p (e ∷ [])
  unfolding insert_by_priority
  of_rank-insert p e [] h = refl
  of_rank-insert p e (x ∷ xs) h =
      let ih = of_rank-insert p e xs h.1 in
      elim (Bool-cases (ltb (rank_of x) (rank_of e))) [
        | inl b ↦
            let l : rank_of x < rank_of e = ground (arith, b) in
            let first = of_rank-first p e (x ∷ xs) (l, All-lt (rank_of x) (rank_of e) xs l h.0) in
            rw b first
        | inr b ↦ ground (arith, ih, b)
      ]

  append_assoc : (xs ys zs : List (Envelope V)) → (xs ++ ys) ++ zs ≡ xs ++ (ys ++ zs)
  append_assoc [] ys zs = refl
  append_assoc (x ∷ xs) ys zs = ap (λ l. x ∷ l) (append_assoc xs ys zs)

  of_rank-cons :
      (p : ℕ) (e : Envelope V) (es : List (Envelope V))
      → of_rank p (e ∷ []) ++ of_rank p es ≡ of_rank p (e ∷ es)
  of_rank-cons p e es = elim (Bool-cases (rank_of e == p)) [ inl b ↦ rw b refl | inr b ↦ rw b refl ]

  of_rank-arrive :
      (p : ℕ) (q es : List (Envelope V))
      → IsSorted q
      → of_rank p (arrive q es) ≡ of_rank p q ++ of_rank p es
  unfolding arrive
  of_rank-arrive p q [] h = sym (append_nil (of_rank p q))
  of_rank-arrive p q (e ∷ es) h =
      of_rank-arrive p (insert_by_priority e q) es (insert-IsSorted e q h)
      ∙ ap (λ l. l ++ of_rank p es) (of_rank-insert p e q h)
      ∙ append_assoc (of_rank p q) (of_rank p (e ∷ [])) (of_rank p es)
      ∙ ap (λ l. of_rank p q ++ l) (of_rank-cons p e es)

  arrive-IsSorted : (q es : List (Envelope V)) → IsSorted q → IsSorted (arrive q es)
  unfolding arrive
  arrive-IsSorted q [] h = h
  arrive-IsSorted q (e ∷ es) h = arrive-IsSorted (insert_by_priority e q) es (insert-IsSorted e q h)

  -- A queue orders messages by priority, and by arrival within a priority. When envelopes arrive one
  -- after another at an empty queue, the queue never has an envelope before one of a higher priority,
  -- and for each priority, its envelopes of that priority are those that arrived, in their order.
  pub arrive-IsStable :
      (es : List (Envelope V)) (p : ℕ)
      → IsSorted (arrive [] es) × (of_rank p (arrive [] es) ≡ of_rank p es)
  arrive-IsStable es p = (arrive-IsSorted [] es tt, of_rank-arrive p [] es tt)

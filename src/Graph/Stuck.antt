-- ===== src/Graph/Stuck.antt =====
-- A retry needs a second slot while it still holds its first.
use ai_agent_tool.Common.{
  ◌≡◌, refl, ◌∙◌, true, false, some, List, [], ◌∷◌, ◌++◌, String, arith, leb, count_if,
  count_if-middle, All, All-split,
}
use ai_agent_tool.Common.Map
use ai_agent_tool.Graph.Definition.{GraphDefinition, RetryPolicy, find_node, pending}
use ai_agent_tool.Graph.Run.{
  Flight, waiting, executing, backing_off, GraphRun, NodeExecution, new_run, is_pending,
}
use ai_agent_tool.Graph.Execution.{
  fail, wake, start_execution, stop, take_off, Step, take_slot, take_slot_again, succeed, go_wrong,
  wake_up, stop_run, Reach, start, next, retry_policy_of, should_retry, counted_error,
  backoff_delay,
}
use ai_agent_tool.Graph.Slots.{holds_slot, Reach-le-limit, Reach-limit}

abbrev IsWaiting : Flight → Type 0
IsWaiting (waiting id is_retry) = Unit
IsWaiting _ = ⊥

-- All slots are taken, and all flights wait for one.
record IsStuck (g : GraphRun) : Type 0 where
  full : leb g.concurrency_limit g.active_executions ≡ true
  idle : All IsWaiting g.flights

-- The flights and the nodes of two runs are the same.
abbrev pub Unmoved : GraphRun → GraphRun → Type 0
Unmoved g h = (h.flights ≡ g.flights) × (h.executions ≡ g.executions)

Step-IsStuck : {g h : GraphRun} → Step g h → IsStuck g → IsStuck h × Unmoved g h
unfolding stop
Step-IsStuck (take_slot before id after e free) s = absurd (ground (arith, s.full))
Step-IsStuck (take_slot_again before id after e free) s = absurd (ground (arith, s.full))
Step-IsStuck (succeed before id after e) s =
    absurd (All-split IsWaiting before (executing id) after (rw e at s.idle)).0
Step-IsStuck (go_wrong before id after message e) s =
    absurd (All-split IsWaiting before (executing id) after (rw e at s.idle)).0
Step-IsStuck (wake_up before id delay after e) s =
    absurd (All-split IsWaiting before (backing_off id delay) after (rw e at s.idle)).0
Step-IsStuck stop_run s = (record { full = s.full; idle = s.idle }, (refl, refl))

Reach-IsStuck : {g h : GraphRun} → IsStuck g → Reach g h → IsStuck h × Unmoved g h
Reach-IsStuck s start = (s, (refl, refl))
Reach-IsStuck s (next r st) =
    let (s', (flights, executions)) = Reach-IsStuck s r in
    let (s'', (flights', executions')) = Step-IsStuck st s' in
    (s'', (flights' ∙ flights, executions' ∙ executions))

idle_of_no_slot : (l : List Flight) → count_if holds_slot l ≡ 0 → All IsWaiting l
idle_of_no_slot [] h = tt
idle_of_no_slot (waiting id false ∷ l) h = (tt, idle_of_no_slot l h)
idle_of_no_slot (waiting id true ∷ l) h = absurd (omega arith)
idle_of_no_slot (executing id ∷ l) h = absurd (omega arith)
idle_of_no_slot (backing_off id delay ∷ l) h = absurd (omega arith)

-- The failure of a handler that is tried again, and the wait for the slot of the retry.
abbrev pub retried : GraphRun → (before after : List Flight) → (id message : String) → GraphRun
retried g before after id message =
    wake (take_off (fail (take_off g before after) id message) [] (before ++ after)) id

retried_lem :
    (g : GraphRun) (before after : List Flight) (id message : String) (e : NodeExecution)
    (p : RetryPolicy)
    → Map.get id g.executions ≡ some e
    → retry_policy_of (find_node id g.nodes) ≡ some p
    → should_retry g e p ≡ true
    → leb g.concurrency_limit g.active_executions ≡ true
    → ((retried g before after id message).concurrency_limit ≡ g.concurrency_limit)
      × ((retried g before after id message).active_executions ≡ g.active_executions)
      × ((retried g before after id message).flights ≡ waiting id true ∷ before ++ after)
      × (is_pending (Map.get id (retried g before after id message).executions) ≡ true)
unfolding wake fail
retried_lem g before after id message e p found policy again full =
    let kept =
      Map.get-set_self id
        (record e { status = pending; error = some (counted_error e.error message) })
        g.executions in
    (ground arith, ground arith, ground arith, ground (arith, kept))

-- The two steps that lead there.
retried-Reach :
    (g : GraphRun) (before after : List Flight) (id message : String) (e : NodeExecution)
    (p : RetryPolicy)
    → g.flights ≡ before ++ executing id ∷ after
    → Map.get id g.executions ≡ some e
    → retry_policy_of (find_node id g.nodes) ≡ some p
    → should_retry g e p ≡ true
    → Reach g (retried g before after id message)
unfolding fail
retried-Reach g before after id message e p flights found policy again =
    next (next start (go_wrong before id after message flights)) (
      wake_up [] id (backoff_delay p (counted_error e.error message)) (before ++ after)
        (ground arith))

-- With a concurrency limit of 1 no retry ever runs. Take any state that a run with that limit can
-- come to, and a node in it whose handler is awaited, whose retry policy allows another attempt.
-- If the handler fails, the run can come, by the failure and the end of the backoff, to a state in
-- which the node is pending, and whatever state `h` can be come to from there, no node and no flight
-- has changed: the node stays pending, and the retry waits for ever for the slot that it holds.
pub retry_never_runs :
    (d : GraphDefinition) (entries : List String) (g : GraphRun) (before after : List Flight)
    (id message : String) (e : NodeExecution) (p : RetryPolicy) (h : GraphRun)
    → Reach (start_execution (new_run d 1) entries) g
    → g.flights ≡ before ++ executing id ∷ after
    → Map.get id g.executions ≡ some e
    → retry_policy_of (find_node id g.nodes) ≡ some p
    → should_retry g e p ≡ true
    → Reach (retried g before after id message) h
    → Reach g (retried g before after id message)
      × (is_pending (Map.get id (retried g before after id message).executions) ≡ true)
      × Unmoved (retried g before after id message) h
retry_never_runs d entries g before after id message e p h reach flights found policy again later =
    let (counted, bounded, few) = Reach-le-limit d 1 entries g reach in
    let one = Reach-limit d 1 entries g reach in
    let held = count_if-middle holds_slot before (executing id) after in
    let full : leb g.concurrency_limit g.active_executions ≡ true = ground (arith, flights) in
    let (same_limit, same_active, same_flights, stays) =
      retried_lem g before after id message e p found policy again full in
    let stuck : IsStuck (retried g before after id message) = record {
      full = ground arith;
      idle = rw same_flights (tt, idle_of_no_slot (before ++ after) (ground (arith, flights)));
    } in
    (
      retried-Reach g before after id message e p flights found policy again,
      stays,
      (Reach-IsStuck stuck later).1,
    )

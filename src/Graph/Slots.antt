-- ===== src/Graph/Slots.antt =====
-- The slots of a run: how many flights hold one, and the limit.
use ai_agent_tool.Common.{
  ℕ, suc, ◌+◌, ◌≤◌, ◌≡◌, Bool, true, false, Option, none, some, List, [], ◌∷◌, ◌++◌, String, arith,
  leb, if◌then◌else◌, count_if, count_if-middle, inl, inr, Bool-cases,
}
use ai_agent_tool.Common.Map
use ai_agent_tool.Graph.Definition.{GraphDefinition, find_node, RetryPolicy}
use ai_agent_tool.Graph.Run.{
  Flight, waiting, executing, backing_off, GraphRun, NodeExecution, new_run, launch, schedule_node,
  schedule_nodes, can_execute, leave, continues, dependents_of,
}
use ai_agent_tool.Graph.Execution.{
  mark_blocked_dependents, complete, complete_found, mark_completed, mark_failed, fail_found,
  should_retry, give_up, fail, relaunch, wake, start_execution, stop, take_off, Step, take_slot,
  take_slot_again, succeed, go_wrong, wake_up, stop_run, Reach, start, next, retry_policy_of,
}

-- Awaiting the handler, sleeping before a retry, and waiting for the slot of a retry: all of these
-- hold a slot.
abbrev pub holds_slot : Flight → Bool
holds_slot (waiting id is_retry) = is_retry
holds_slot (executing id) = true
holds_slot (backing_off id delay) = true

abbrev pub is_executing : Flight → Bool
is_executing (executing id) = true
is_executing _ = false

-- The counter is the number of flights that hold a slot, but for `k` that are about to end.
record Counts (limit k : ℕ) (g : GraphRun) : Type 0 where
  same_limit : g.concurrency_limit ≡ limit
  counted : g.active_executions ≡ count_if holds_slot g.flights + k
  bounded : g.active_executions ≤ limit

module _ (limit k : ℕ) where
  launch-Counts :
      (g : GraphRun) (id : String)
      → leb g.concurrency_limit g.active_executions ≡ false
      → Counts limit k g
      → Counts limit k (launch g id)
  unfolding launch
  launch-Counts g id free c = ground arith

  schedule_node-Counts :
      (g : GraphRun) (id : String) → Counts limit k g → Counts limit k (schedule_node g id false)
  unfolding schedule_node
  schedule_node-Counts g id c = elim (Bool-cases (leb g.concurrency_limit g.active_executions)) [
    | inl full ↦ rw full (ground arith)
    | inr free ↦ rw free (launch-Counts g id free c)
  ]

  schedule_nodes-Counts :
      (g : GraphRun) (ids : List String) → Counts limit k g → Counts limit k (schedule_nodes g ids)
  unfolding schedule_nodes
  schedule_nodes-Counts g [] c = c
  schedule_nodes-Counts g (id ∷ ids) c = elim (Bool-cases (can_execute g id)) [
    | inl ready ↦
        rw ready
          (schedule_nodes-Counts (schedule_node g id false) ids (schedule_node-Counts g id c))
    | inr blocked ↦ rw blocked (schedule_nodes-Counts g ids c)
  ]

leave-Counts : (limit k : ℕ) (g : GraphRun) → Counts limit (suc k) g → Counts limit k (leave g)
leave-Counts limit k g c = ground arith

module _ (limit : ℕ) where
  complete_found-Counts :
      (g : GraphRun) (id : String) (e : Option NodeExecution)
      → Counts limit 1 g
      → Counts limit 0 (complete_found g id e)
  complete_found-Counts g id none c = leave-Counts limit 0 g c
  complete_found-Counts g id (some e) c = leave-Counts limit 0 _ (
      schedule_nodes-Counts limit 1 (mark_completed g id e) (dependents_of id g.dependency_map)
        (record { same_limit = c.same_limit; counted = c.counted; bounded = c.bounded }))

  complete-Counts : (g : GraphRun) (id : String) → Counts limit 1 g → Counts limit 0 (complete g id)
  unfolding complete
  complete-Counts g id c = complete_found-Counts g id (Map.get id g.executions) c

  give_up-Counts :
      (g : GraphRun) (id : String) (e : NodeExecution) (message : String)
      → Counts limit 1 g
      → Counts limit 0 (give_up g id e message)
  unfolding give_up mark_blocked_dependents
  give_up-Counts g id e message c = elim (Bool-cases (continues (find_node id g.nodes))) [
    | inl go ↦ rw go (
        leave-Counts limit 0 _ (
          schedule_nodes-Counts limit 1 (mark_failed g id e message)
            (dependents_of id g.dependency_map)
            (record { same_limit = c.same_limit; counted = c.counted; bounded = c.bounded })))
    | inr stays ↦ rw stays (
        leave-Counts limit 0 _
          (record { same_limit = c.same_limit; counted = c.counted; bounded = c.bounded }))
  ]

  fail_found-Counts :
      (g : GraphRun) (id message : String) (e : Option NodeExecution) (policy : Option RetryPolicy)
      → Counts limit 1 g
      → Counts limit 0 (fail_found g id message e policy)
  fail_found-Counts g id message none policy c = leave-Counts limit 0 g c
  fail_found-Counts g id message (some e) none c = give_up-Counts g id e message c
  fail_found-Counts g id message (some e) (some p) c = elim (Bool-cases (should_retry g e p)) [
    | inl again ↦
        simp again
          (record { same_limit = c.same_limit; counted = ground arith; bounded = c.bounded })
    | inr last ↦ simp last (give_up-Counts g id e message c)
  ]

  fail-Counts :
      (g : GraphRun) (id message : String) → Counts limit 1 g → Counts limit 0 (fail g id message)
  unfolding fail
  fail-Counts g id message c =
      fail_found-Counts g id message (Map.get id g.executions)
        (retry_policy_of (find_node id g.nodes)) c

  relaunch-Counts :
      (g : GraphRun) (id : String)
      → leb g.concurrency_limit g.active_executions ≡ false
      → Counts limit 1 g
      → Counts limit 0 (relaunch g id)
  unfolding relaunch
  relaunch-Counts g id free c =
      leave-Counts limit 0 (launch g id) (launch-Counts limit 1 g id free c)

  wake-Counts : (g : GraphRun) (id : String) → Counts limit 1 g → Counts limit 0 (wake g id)
  unfolding wake
  wake-Counts g id c = elim (Bool-cases (leb g.concurrency_limit g.active_executions)) [
    | inl full ↦ rw full (ground arith)
    | inr free ↦ rw free (relaunch-Counts g id free c)
  ]

  -- A flight that is taken off still counts, if it held a slot.
  take_off-Counts :
      (g : GraphRun) (before : List Flight) (f : Flight) (after : List Flight)
      → g.flights ≡ before ++ f ∷ after
      → Counts limit 0 g
      → Counts limit (if holds_slot f then 1 else 0) (take_off g before after)
  take_off-Counts g before f after e c = record {
    same_limit = c.same_limit;
    counted = ground (arith, c.counted, e, count_if-middle holds_slot before f after);
    bounded = c.bounded;
  }

  Step-Counts : {g h : GraphRun} → Step g h → Counts limit 0 g → Counts limit 0 h
  unfolding stop
  Step-Counts {g} (take_slot before id after e free) c =
      launch-Counts limit 0 _ id free (take_off-Counts g before _ after e c)
  Step-Counts {g} (take_slot_again before id after e free) c =
      relaunch-Counts _ id free (take_off-Counts g before _ after e c)
  Step-Counts {g} (succeed before id after e) c =
      complete-Counts _ id (take_off-Counts g before _ after e c)
  Step-Counts {g} (go_wrong before id after message e) c =
      fail-Counts _ id message (take_off-Counts g before _ after e c)
  Step-Counts {g} (wake_up before id delay after e) c =
      wake-Counts _ id (take_off-Counts g before _ after e c)
  Step-Counts stop_run c = record {
    same_limit = c.same_limit;
    counted = c.counted;
    bounded = c.bounded;
  }

  Reach-Counts : {g h : GraphRun} → Counts limit 0 g → Reach g h → Counts limit 0 h
  Reach-Counts c start = c
  Reach-Counts c (next r s) = Step-Counts s (Reach-Counts c r)

start-Counts :
    (d : GraphDefinition) (limit : ℕ) (entries : List String)
    → Counts limit 0 (start_execution (new_run d limit) entries)
unfolding start_execution new_run
start-Counts d limit entries = schedule_nodes-Counts limit 0 _ entries (omega arith)

executing-le-holds : (l : List Flight) → count_if is_executing l ≤ count_if holds_slot l
executing-le-holds [] = omega arith
executing-le-holds (waiting id b ∷ l) = ground (arith, executing-le-holds l)
executing-le-holds (executing id ∷ l) = ground (arith, executing-le-holds l)
executing-le-holds (backing_off id t ∷ l) = ground (arith, executing-le-holds l)

-- In every state that the run of a graph can come to, from any entry nodes and whatever succeeds,
-- fails, wakes up or stops, in any order: `activeExecutions` is the number of flights that hold a
-- slot, and neither it nor the number of nodes whose handler is awaited exceeds the concurrency
-- limit.
pub Reach-le-limit :
    (d : GraphDefinition) (limit : ℕ) (entries : List String) (g : GraphRun)
    → Reach (start_execution (new_run d limit) entries) g
    → (g.active_executions ≡ count_if holds_slot g.flights)
      × (g.active_executions ≤ limit)
      × (count_if is_executing g.flights ≤ limit)
Reach-le-limit d limit entries g r =
    let c = Reach-Counts limit (start-Counts d limit entries) r in
    (
      omega (arith, c.counted),
      c.bounded,
      omega (arith, c.counted, c.bounded, executing-le-holds g.flights),
    )

pub Reach-limit :
    (d : GraphDefinition) (limit : ℕ) (entries : List String) (g : GraphRun)
    → Reach (start_execution (new_run d limit) entries) g
    → g.concurrency_limit ≡ limit
Reach-limit d limit entries g r = (Reach-Counts limit (start-Counts d limit entries) r).same_limit

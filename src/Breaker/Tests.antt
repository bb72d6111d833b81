-- ===== src/Breaker/Tests.antt =====
-- Runs of the breaker, and the theorems at concrete inputs.
use ai_agent_tool.Common.{ℕ, ◌+◌, ◌≡◌, refl, true, some, List, [], ◌∷◌, String, arith, All, leb}
use ai_agent_tool.Common.Map
use ai_agent_tool.Breaker.{
  CircuitBreaker, closed, open_, Outcome, success, failure, threshold, begin, settle, settled,
  execute, fresh_state, get_state, admitted,
}
use ai_agent_tool.Breaker.Invariant.{
  System, Reach, start, next, call, initial, after_begin, add_flight, IsSound, Reach-IsSound,
}
use ai_agent_tool.Breaker.Sequence.{state_of, run_failures, execute_trips}
use ai_agent_tool.Breaker.Slow.{begin-settle_slow}

abbrev breaker : CircuitBreaker
breaker = (initial 3 1000).breaker

abbrev two_failures : List (ℕ × String)
two_failures = (10, "timeout") ∷ (20, "timeout") ∷ []

program : Unit {0}
unfolding execute begin settle settled run_failures state_of get_state add_flight Map.get Map.set
program = tt

third_opens :
    (execute (run_failures breaker "openai" two_failures) 30 "openai" (failure "reset")).1 ≡ true
unfolding program
third_opens = refl

execute_trips_example :
    let before = run_failures breaker "openai" two_failures in
    let after = (execute before 30 "openai" (failure "reset")).0 in
    let trial = execute after 1040 "openai" in
    ((state_of before "openai").phase ≡ closed)
    × ((execute before 30 "openai" (failure "reset")).1 ≡ true)
    × ((state_of after "openai").phase ≡ open_)
    × ((state_of after "openai").opened_at ≡ some 30)
    × ((outcome : Outcome) → (trial outcome).1 ≡ leb (30 + 1000) 1040)
    × ((trial success).1 ≡ true → state_of (trial success).0 "openai" ≡ fresh_state)
    × ((trial (failure "again")).1 ≡ true
        → ((state_of (trial (failure "again")).0 "openai").phase ≡ open_)
          × ((state_of (trial (failure "again")).0 "openai").opened_at ≡ some 1040))
unfolding state_of Map.get
execute_trips_example =
    execute_trips breaker "openai" two_failures 30 1040 "reset" "again" refl refl

-- Two calls of one key overlap, and the breaker is reset between their ends.
abbrev s0 : System
s0 = initial 3 1000

abbrev s1 : System
s1 = after_begin s0 5 "openai"

abbrev overlapping : System
overlapping = after_begin s1 6 "mistral"

Reach-overlapping : Reach s0 overlapping
Reach-overlapping = next (next start (call s0 5 "openai")) (call s1 6 "mistral")

Reach-IsSound_example :
    ((k : String) (r : ℕ)
      → Map.get k overlapping.breaker.states ≡ some r
      → IsSound (threshold overlapping.breaker) (overlapping.breaker.heap r))
    × ((j k : String) (r : ℕ)
        → Map.get j overlapping.breaker.states ≡ some r
        → Map.get k overlapping.breaker.states ≡ some r
        → j ≡ k)
    × All
        (λ f. (k : String) → Map.get k overlapping.breaker.states ≡ some f.ref → k ≡ f.key)
        overlapping.flights
Reach-IsSound_example = Reach-IsSound 3 1000 overlapping Reach-overlapping

begin-settle_slow_example :
    (begin (settle breaker "openai" 0 100 (failure "timeout")) 1200 "openai").1 ≡ admitted 0 1200
begin-settle_slow_example =
    begin-settle_slow breaker "openai" "timeout" 0 100 1200 (omega arith) (omega arith)

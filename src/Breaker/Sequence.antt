-- ===== src/Breaker/Sequence.antt =====
-- Calls one after another: `execute` against a machine that knows one key and nothing of objects.
use ai_agent_tool.Common.{
  ℕ, ◌+◌, ◌<◌, ◌≡◌, refl, Bool, true, false, none, some, List, [], ◌∷◌, String, arith, ltb, leb,
  if◌then◌else◌, inl, inr, Option-cases, length,
}
use ai_agent_tool.Common.Map
use ai_agent_tool.Breaker.{
  closed, open_, half_open, BreakerState, CircuitBreaker, threshold, fresh_state, settled, Outcome,
  success, failure, execute,
}

-- What a key's state is: a key that has none is as good as new.
unfoldable pub state_of : CircuitBreaker → String → BreakerState
state_of b key = elim (Map.get key b.states) [ none ↦ fresh_state | some r ↦ b.heap r ]

-- The machine: a call is turned away while the breaker cools down, and otherwise runs; from open
-- it runs as a trial, whose failure opens the breaker again.
abbrev pub spec_execute : (limit timeout now : ℕ) → Outcome → BreakerState → BreakerState × Bool
spec_execute limit timeout now outcome st = elim st.phase [
  | open_ ↦
      if elim st.opened_at [ none ↦ false | some at ↦ ltb now (at + timeout) ]
      then (st, false)
      else (settled limit now outcome (record st { phase = half_open }), true)
  | other ↦ (settled limit now outcome st, true)
]

execute_at_object :
    (b : CircuitBreaker) (now : ℕ) (key : String) (outcome : Outcome) (r : ℕ)
    → Map.get key b.states ≡ some r
    → (state_of (execute b now key outcome).0 key
        ≡ (spec_execute (threshold b) b.reset_timeout now outcome (b.heap r)).0)
      × ((execute b now key outcome).1
          ≡ (spec_execute (threshold b) b.reset_timeout now outcome (b.heap r)).1)
unfolding execute state_of
execute_at_object b now key outcome r e =
    (ground (arith, Map.get-set_self key r b.states), ground arith)

execute_at_new :
    (b : CircuitBreaker) (now : ℕ) (key : String) (outcome : Outcome)
    → Map.get key b.states ≡ none
    → (state_of (execute b now key outcome).0 key
        ≡ (spec_execute (threshold b) b.reset_timeout now outcome fresh_state).0)
      × ((execute b now key outcome).1
          ≡ (spec_execute (threshold b) b.reset_timeout now outcome fresh_state).1)
unfolding execute state_of
execute_at_new b now key outcome e =
    (ground (arith, Map.get-set_self key b.next (Map.set key b.next b.states)), ground arith)

state_of_new :
    (b : CircuitBreaker) (key : String) → Map.get key b.states ≡ none → state_of b key ≡ fresh_state
unfolding state_of
state_of_new b key e = rw (e, state_of)

state_of_known :
    (b : CircuitBreaker) (key : String) (r : ℕ)
    → Map.get key b.states ≡ some r
    → state_of b key ≡ b.heap r
unfolding state_of
state_of_known b key r e = rw (e, state_of)

execute_refines :
    (b : CircuitBreaker) (now : ℕ) (key : String) (outcome : Outcome)
    → let spec = spec_execute (threshold b) b.reset_timeout now outcome (state_of b key) in
      (state_of (execute b now key outcome).0 key ≡ spec.0)
      × ((execute b now key outcome).1 ≡ spec.1)
execute_refines b now key outcome = elim (Option-cases (Map.get key b.states)) [
  | inl new ↦ rw (state_of_new b key new) (execute_at_new b now key outcome new)
  | inr (r, known) ↦ rw (state_of_known b key r known) (execute_at_object b now key outcome r known)
]

-- `execute` changes neither the options of the breaker.
execute_options :
    (b : CircuitBreaker) (now : ℕ) (key : String) (outcome : Outcome)
    → ((execute b now key outcome).0.failure_threshold ≡ b.failure_threshold)
      × ((execute b now key outcome).0.reset_timeout ≡ b.reset_timeout)
unfolding execute
execute_options b now key outcome = elim (Option-cases (Map.get key b.states)) [
  | inl new ↦ (ground arith, ground arith)
  | inr (r, known) ↦ (ground arith, ground arith)
]

-- Failing calls of one key, one after another: each with its time and its message.
unfoldable pub run_failures : CircuitBreaker → String → List (ℕ × String) → CircuitBreaker
run_failures b key [] = b
run_failures b key ((now, message) ∷ calls) =
    run_failures (execute b now key (failure message)).0 key calls

-- One failure of a closed breaker.
failure_at_closed :
    (b : CircuitBreaker) (now : ℕ) (key message : String)
    → (state_of b key).phase ≡ closed
    → let n = (state_of b key).consecutive_failures + 1 in
      let st = state_of (execute b now key (failure message)).0 key in
      ((execute b now key (failure message)).1 ≡ true)
      × (st.consecutive_failures ≡ n)
      × (st.phase ≡ (if leb (threshold b) n then open_ else closed))
      × (leb (threshold b) n ≡ true → st.opened_at ≡ some now)
unfolding settled
failure_at_closed b now key message c =
    let (became, ran) = execute_refines b now key (failure message) in
    (ground arith, ground arith, ground arith, λ h. ground arith)

run_failures_below :
    (b : CircuitBreaker) (key : String) (calls : List (ℕ × String))
    → (state_of b key).phase ≡ closed
    → (state_of b key).consecutive_failures + length calls < threshold b
    → ((state_of (run_failures b key calls) key).phase ≡ closed)
      × ((state_of (run_failures b key calls) key).consecutive_failures
          ≡ (state_of b key).consecutive_failures + length calls)
      × ((run_failures b key calls).failure_threshold ≡ b.failure_threshold)
      × ((run_failures b key calls).reset_timeout ≡ b.reset_timeout)
unfolding run_failures
run_failures_below b key [] c h = (c, omega arith, refl, refl)
run_failures_below b key ((now, message) ∷ calls) c h =
    let (ran, counted, phase, opened) = failure_at_closed b now key message c in
    let (same_limit, same_timeout) = execute_options b now key (failure message) in
    let ih =
      run_failures_below (execute b now key (failure message)).0 key calls (ground arith)
        (ground arith) in
    ground (arith, ih.0, ih.1, ih.2, ih.3)

-- The breaker trips at the threshold and not before. A key that starts afresh, on which all but
-- the last of `failureThreshold` calls fail (at least one call in all): the breaker is then still
-- closed, and the last call runs and, as it fails at `now`, opens the breaker at `now`. From then
-- on a call runs exactly if it comes at least `resetTimeoutMs` after `now`; if it runs and
-- succeeds the key is as new again, and if it runs and fails the breaker is open as of that call.
pub execute_trips :
    (b : CircuitBreaker) (key : String) (calls : List (ℕ × String)) (now later : ℕ)
    (message again : String)
    → state_of b key ≡ fresh_state
    → length calls + 1 ≡ threshold b
    → let before = run_failures b key calls in
      let after = (execute before now key (failure message)).0 in
      let trial = execute after later key in
      ((state_of before key).phase ≡ closed)
      × ((execute before now key (failure message)).1 ≡ true)
      × ((state_of after key).phase ≡ open_)
      × ((state_of after key).opened_at ≡ some now)
      × ((outcome : Outcome) → (trial outcome).1 ≡ leb (now + b.reset_timeout) later)
      × ((trial success).1 ≡ true → state_of (trial success).0 key ≡ fresh_state)
      × ((trial (failure again)).1 ≡ true
          → ((state_of (trial (failure again)).0 key).phase ≡ open_)
            × ((state_of (trial (failure again)).0 key).opened_at ≡ some later))
unfolding settled
execute_trips b key calls now later message again fresh count =
    let before = run_failures b key calls in
    let (still, counted, limit, timeout) =
      run_failures_below b key calls (ground arith) (ground arith) in
    let (ran, failures, phase, opened) = failure_at_closed before now key message still in
    let (limit', timeout') = execute_options before now key (failure message) in
    let after = (execute before now key (failure message)).0 in
    (
      still,
      ran,
      ground arith,
      opened (ground arith),
      λ outcome. ground (arith, (execute_refines after later key outcome).1),
      λ r. ground (arith, execute_refines after later key success),
      λ r. (
        ground (arith, execute_refines after later key (failure again)),
        ground (arith, execute_refines after later key (failure again)),
      ),
    )

-- ===== src/Breaker.antt =====
-- `CircuitBreaker` of services/orchestrator/src/providers/resilience.ts. The state of a key is an
-- object that `execute` holds across the await, so the model has a heap: `states` maps a key to a
-- reference. `execute` is two steps, before and after the awaited action.
pub mod Invariant
pub mod Sequence
pub mod Slow
mod Tests
use ai_agent_tool.Common.{
  ℕ, suc, ◌+◌, ◌-◌, ◌≤◌, ◌≡◌, max, Bool, true, false, ◌&&◌, Option, none, some, List, [], ◌∷◌,
  String, ltb, leb, ◌==◌, if◌then◌else◌,
}
use ai_agent_tool.Common.Map
use ai_agent_tool.Common.Map.{Map}

pub data Phase : Type 0 where
  closed open_ half_open : Phase

pub record BreakerState : Type 0 where
  pub phase : Phase
  pub consecutive_failures : ℕ
  pub opened_at : Option ℕ
  pub last_error : Option String

pub record CircuitBreaker : Type 0 where
  pub failure_threshold : ℕ
  pub reset_timeout : ℕ
  pub states : Map ℕ
  pub heap : ℕ → BreakerState
  pub next : ℕ

abbrev pub threshold : CircuitBreaker → ℕ
threshold b = max 1 b.failure_threshold

abbrev pub fresh_state : BreakerState
fresh_state = record {
  phase = closed;
  consecutive_failures = 0;
  opened_at = none;
  last_error = none;
}

abbrev pub update : (ℕ → BreakerState) → ℕ → BreakerState → ℕ → BreakerState
update heap r st q = if q == r then st else heap q

-- `getState`: the object of the key, which is made on the first use.
abbrev pub state_at : CircuitBreaker → String → Option ℕ → CircuitBreaker × ℕ
state_at b key (some r) = (b, r)
state_at b key none = (
  record b {
    states = Map.set key b.next b.states;
    heap = update b.heap b.next fresh_state;
    next = suc b.next;
  },
  b.next,
)

unfoldable pub get_state : CircuitBreaker → String → CircuitBreaker × ℕ
get_state b key = state_at b key (Map.get key b.states)

-- `now - state.openedAt < resetTimeoutMs`, where `openedAt` is set.
abbrev pub is_cooling : CircuitBreaker → ℕ → BreakerState → Bool
is_cooling b now st = elim st.opened_at [ none ↦ false | some at ↦ ltb now (at + b.reset_timeout) ]

-- What `execute` does up to the action: it throws `circuit_open`, with the last error, or runs
-- the action, with the object and the time that it goes on with.
pub data Entry : Type 0 where
  rejected : (last_error : Option String) → Entry
  admitted : (ref : ℕ) (now : ℕ) → Entry

abbrev pub admit : CircuitBreaker → ℕ → ℕ → Phase → CircuitBreaker × Entry
admit b r now open_ = if is_cooling b now (b.heap r) then (b, rejected (b.heap r).last_error) else (
  record b { heap = update b.heap r (record (b.heap r) { phase = half_open }) },
  admitted r now,
)
admit b r now closed = (b, admitted r now)
admit b r now half_open = (b, admitted r now)

unfoldable pub begin : CircuitBreaker → (now : ℕ) → String → CircuitBreaker × Entry
unfolding get_state
begin b now key = let (b', r) = get_state b key in admit b' r now (b'.heap r).phase

pub data Outcome : Type 0 where
  success : Outcome
  failure : (message : String) → Outcome

-- The `catch` branch, on the object.
abbrev pub failed : ℕ → ℕ → String → BreakerState → BreakerState
failed limit now message st = elim st.phase [
  | half_open ↦ record {
    phase = open_;
    consecutive_failures = limit;
    opened_at = some now;
    last_error = some message;
  }
  | other ↦
      if leb limit (st.consecutive_failures + 1)
      then record {
        phase = open_;
        consecutive_failures = st.consecutive_failures + 1;
        opened_at = some now;
        last_error = some message;
      }
      else record st {
        consecutive_failures = st.consecutive_failures + 1;
        last_error = some message;
      }
]

unfoldable pub settled : ℕ → ℕ → Outcome → BreakerState → BreakerState
settled limit now success st = fresh_state
settled limit now (failure message) st = failed limit now message st

-- What `execute` does after the action, on the object and with the time of its first step.
unfoldable pub settle : CircuitBreaker → String → (ref now : ℕ) → Outcome → CircuitBreaker
settle b key r now outcome = record b {
  states = Map.set key r b.states;
  heap = update b.heap r (settled (threshold b) now outcome (b.heap r));
}

unfoldable pub reset : CircuitBreaker → Option String → CircuitBreaker
reset b none = record b { states = [] }
reset b (some key) = record b { states = Map.delete key b.states }

-- `execute` with nothing in between: the new state, and whether the action ran.
unfoldable pub execute : CircuitBreaker → (now : ℕ) → String → Outcome → CircuitBreaker × Bool
unfolding begin settle
execute b now key outcome =
    let (b', entry) = begin b now key in
    elim entry [ rejected e ↦ (b', false) | admitted r t ↦ (settle b' key r t outcome, true) ]

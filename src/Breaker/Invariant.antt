-- ===== src/Breaker/Invariant.antt =====
-- Calls that overlap: any number of actions in flight, `reset` at any time.
use ai_agent_tool.Common.{
  ℕ, ◌≤◌, ◌<◌, ◌≡◌, ◌≢◌, refl, Option, none, some, List, [], ◌∷◌, String, arith, ◌==◌,
  if◌then◌else◌, inl, inr, Bool-cases, eq_iff, Option-cases, All, All-map, All-split, ◌++◌, sym,
  ◌∙◌,
}
use ai_agent_tool.Common.Map
use ai_agent_tool.Common.Map.{Map}
use ai_agent_tool.Breaker.{
  Phase, closed, open_, half_open, BreakerState, CircuitBreaker, threshold, get_state, begin,
  settled, settle, reset, Entry, admit, fresh_state, rejected, admitted, Outcome, success, failure,
  is_cooling,
}

-- A closed breaker has fewer failures in a row than the threshold; an open one has at least as
-- many and knows since when; half open comes from open.
abbrev pub IsSound : ℕ → BreakerState → Type 0
IsSound limit st = elim st.phase [
  | closed ↦ st.consecutive_failures < limit
  | open_ ↦ (limit ≤ st.consecutive_failures) × (st.opened_at ≢ none)
  | half_open ↦ (limit ≤ st.consecutive_failures) × (st.opened_at ≢ none)
]

settled-IsSound :
    (limit now : ℕ) (outcome : Outcome) (st : BreakerState)
    → 1 ≤ limit
    → IsSound limit st
    → IsSound limit (settled limit now outcome st)
unfolding settled
settled-IsSound limit now success st h k = omega arith
settled-IsSound limit now (failure message) st h k = ground arith

-- An action in flight: its key, and what the second step of `execute` holds.
pub record Flight : Type 0 where
  pub key : String
  pub ref : ℕ
  pub started : ℕ

-- Each object belongs to one key, and to no other.
abbrev pub Owns : (ℕ → String) → CircuitBreaker → String → ℕ → Type 0
Owns owner b key r = (r < b.next) × (owner r ≡ key)

pub record IsConsistent (owner : ℕ → String) (b : CircuitBreaker) (flights : List Flight)
    : Type 0 where
  pub sound : (r : ℕ) → IsSound (threshold b) (b.heap r)
  pub owned : (k : String) (r : ℕ) → Map.get k b.states ≡ some r → Owns owner b k r
  pub flying : All (λ f. Owns owner b f.key f.ref) flights

-- `getState` hands out an object of the key.
abbrev assign : (ℕ → String) → CircuitBreaker → String → Option ℕ → ℕ → String
assign owner b key (some r) = owner
assign owner b key none = λ q. if q == b.next then key else owner q

get_state-IsConsistent :
    (owner : ℕ → String) (b : CircuitBreaker) (key : String) (flights : List Flight)
    → IsConsistent owner b flights
    → IsConsistent (assign owner b key (Map.get key b.states)) (get_state b key).0 flights
      × Owns (assign owner b key (Map.get key b.states)) (get_state b key).0 key (get_state b key).1
unfolding get_state
get_state-IsConsistent owner b key flights c = elim (Option-cases (Map.get key b.states)) [
  | inr (r, known) ↦ rw known (c, c.owned key r known)
  | inl new ↦ rw new (
    record {
      sound = λ q. ground (arith, c.sound q);
      owned = λ k q e. ground (arith, Map.get-set key k b.next b.states, eq_iff key k, c.owned k q);
      flying = All-map flights (λ f o. ground (arith, o)) c.flying;
    },
    (omega arith, ground arith),
  )
]

-- The first step of `execute` on an object of the key.
unfoldable pub add_flight : String → Entry → List Flight → List Flight
add_flight key (rejected e) flights = flights
add_flight key (admitted r now) flights = record { key = key; ref = r; started = now } ∷ flights

admit-IsConsistent :
    (owner : ℕ → String) (b : CircuitBreaker) (key : String) (r now : ℕ) (flights : List Flight)
    (phase : Phase)
    → (b.heap r).phase ≡ phase
    → Owns owner b key r
    → IsConsistent owner b flights
    → IsConsistent owner (admit b r now phase).0 (add_flight key (admit b r now phase).1 flights)
unfolding add_flight
admit-IsConsistent owner b key r now flights closed e o c = record {
  sound = c.sound;
  owned = c.owned;
  flying = (o, c.flying);
}
admit-IsConsistent owner b key r now flights half_open e o c = record {
  sound = c.sound;
  owned = c.owned;
  flying = (o, c.flying);
}
admit-IsConsistent owner b key r now flights open_ e o c =
    elim (Bool-cases (is_cooling b now (b.heap r))) [
      | inl cooling ↦ rw cooling c
      | inr due ↦ rw due (record {
        sound = λ q. ground (arith, c.sound q, c.sound r);
        owned = c.owned;
        flying = (o, c.flying);
      })
    ]

begin-IsConsistent :
    (owner : ℕ → String) (b : CircuitBreaker) (now : ℕ) (key : String) (flights : List Flight)
    → IsConsistent owner b flights
    → IsConsistent
        (assign owner b key (Map.get key b.states))
        (begin b now key).0
        (add_flight key (begin b now key).1 flights)
unfolding begin
begin-IsConsistent owner b now key flights c =
    let (c', o) = get_state-IsConsistent owner b key flights c in
    let (b', r) = get_state b key in
    admit-IsConsistent (assign owner b key (Map.get key b.states)) b' key r now flights
      (b'.heap r).phase refl o c'

settle-IsConsistent :
    (owner : ℕ → String) (b : CircuitBreaker) (before : List Flight) (f : Flight)
    (after : List Flight) (outcome : Outcome)
    → IsConsistent owner b (before ++ f ∷ after)
    → IsConsistent owner (settle b f.key f.ref f.started outcome) (before ++ after)
unfolding settle
settle-IsConsistent owner b before f after outcome c =
    let (o, rest) = All-split (λ g. Owns owner b g.key g.ref) before f after c.flying in
    record {
      sound = λ q. ground (
        arith,
        c.sound q,
        settled-IsSound (threshold b) f.started outcome (b.heap f.ref) (omega arith)
            (c.sound f.ref),
      );
      owned =
          λ k q e. ground (arith, Map.get-set f.key k f.ref b.states, eq_iff f.key k, c.owned k q);
      flying = rest;
    }

reset-IsConsistent :
    (owner : ℕ → String) (b : CircuitBreaker) (key : Option String) (flights : List Flight)
    → IsConsistent owner b flights
    → IsConsistent owner (reset b key) flights
unfolding reset Map.get
reset-IsConsistent owner b none flights c = record {
  sound = c.sound;
  owned = λ k q e. cc;
  flying = c.flying;
}
reset-IsConsistent owner b (some key) flights c = record {
  sound = c.sound;
  owned = λ k q e. ground (arith, Map.get-delete key k b.states, c.owned k q);
  flying = c.flying;
}

-- The breaker and the actions in flight, and what may happen next: a call comes in, an action
-- ends, or the breaker is reset.
pub record System : Type 0 where
  pub breaker : CircuitBreaker
  pub flights : List Flight

abbrev pub after_begin : System → ℕ → String → System
after_begin s now key = record {
  breaker = (begin s.breaker now key).0;
  flights = add_flight key (begin s.breaker now key).1 s.flights;
}

pub data Step : System → System → Type 0 where
  call : (s : System) (now : ℕ) (key : String) → Step s (after_begin s now key)
  finish :
      (s : System) (before : List Flight) (f : Flight) (after : List Flight) (outcome : Outcome)
      → s.flights ≡ before ++ f ∷ after
      → Step s (record {
        breaker = settle s.breaker f.key f.ref f.started outcome;
        flights = before ++ after;
      })
  clear : (s : System) (key : Option String) → Step s (record s { breaker = reset s.breaker key })

pub data Reach (s : System) : System → Type 0 where
  start : Reach s s
  next : {t u : System} → Reach s t → Step t u → Reach s u

abbrev Consistent : System → Type 0
Consistent s = (owner : ℕ → String) × IsConsistent owner s.breaker s.flights

Step-Consistent : {s t : System} → Step s t → Consistent s → Consistent t
Step-Consistent (call s now key) (owner, c) = (
  assign owner s.breaker key (Map.get key s.breaker.states),
  begin-IsConsistent owner s.breaker now key s.flights c,
)
Step-Consistent (finish s before f after outcome e) (owner, c) =
    (owner, settle-IsConsistent owner s.breaker before f after outcome (rw e at c))
Step-Consistent (clear s key) (owner, c) =
    (owner, reset-IsConsistent owner s.breaker key s.flights c)

abbrev pub initial : (failure_threshold reset_timeout : ℕ) → System
initial limit timeout = record {
  breaker = record {
    failure_threshold = limit;
    reset_timeout = timeout;
    states = [];
    heap = λ r. fresh_state;
    next = 0;
  };
  flights = [];
}

initial-Consistent : (limit timeout : ℕ) → Consistent (initial limit timeout)
unfolding Map.get
initial-Consistent limit timeout =
    (λ r. "", record { sound = λ r. omega arith; owned = λ k r e. cc; flying = tt })

Reach-Consistent : {s t : System} → Consistent s → Reach s t → Consistent t
Reach-Consistent h start = h
Reach-Consistent h (next r st) = Step-Consistent st (Reach-Consistent h r)

-- Whatever calls overlap and whenever the breaker is reset: the state of each key is sound (a
-- closed breaker has fewer failures in a row than the threshold, an open or half-open one at
-- least as many, and a time at which it opened), two keys never share a state object, and an
-- action in flight never writes the object of another key.
pub Reach-IsSound :
    (limit timeout : ℕ) (s : System)
    → Reach (initial limit timeout) s
    → ((k : String) (r : ℕ)
        → Map.get k s.breaker.states ≡ some r
        → IsSound (threshold s.breaker) (s.breaker.heap r))
      × ((j k : String) (r : ℕ)
          → Map.get j s.breaker.states ≡ some r
          → Map.get k s.breaker.states ≡ some r
          → j ≡ k)
      × All (λ f. (k : String) → Map.get k s.breaker.states ≡ some f.ref → k ≡ f.key) s.flights
Reach-IsSound limit timeout s reach =
    let (owner, c) = Reach-Consistent (initial-Consistent limit timeout) reach in
    (
      λ k r e. c.sound r,
      λ j k r e e'. sym (c.owned j r e).1 ∙ (c.owned k r e').1,
      All-map s.flights (λ f o k e. sym (c.owned k f.ref e).1 ∙ o.1) c.flying,
    )

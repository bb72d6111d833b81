-- ===== src/RateLimit/Store.antt =====
-- `MemoryRateLimitStore` of services/orchestrator/src/rateLimit/store.ts. Times are milliseconds;
-- `Date.now()` is the argument `now`. The limit and the window are whole numbers.
use Prim.Native.String.{◌++◌ as append_str}
use text.Mathlib.TextLemmas.{append_cancel_left}
use ai_agent_tool.Common.{
  ℕ, ◌+◌, ◌-◌, ◌≡◌, ◌≢◌, min, Bool, true, false, Option, none, some, List, [], ◌∷◌, ◌++◌, inl, inr,
  String, arith, ltb, leb, str_eq, if◌then◌else◌, length, filter, str_eq-cases,
}
use ai_agent_tool.Common.Map
use ai_agent_tool.Common.Map.{Map}

-- `Math.min()` of no entry is `Infinity`, and so is the wait that follows from it.
pub data Wait : Type 0 where
  ms : ℕ → Wait
  infinite : Wait

pub record RateLimitDecision : Type 0 where
  pub allowed : Bool
  pub retry_after : Option Wait
  pub remaining : Option ℕ
  pub limit : Option ℕ
  pub window : Option ℕ

pub record MemoryRateLimitStore : Type 0 where
  pub prefix : String
  pub hits : Map (List ℕ)

unfoldable pub namespaced_key : MemoryRateLimitStore → String → String
namespaced_key s key = append_str s.prefix (append_str ":" key)

-- `timestamp > now - windowMs`, with nothing cut off at zero.
abbrev pub is_recent : ℕ → ℕ → ℕ → Bool
is_recent now window timestamp = ltb now (timestamp + window)

-- `Math.min(...entries)`.
abbrev pub oldest : List ℕ → Option ℕ
oldest [] = none
oldest (x ∷ xs) = elim (oldest xs) [ none ↦ some x | some y ↦ some (min x y) ]

-- `Math.max(0, windowMs - (now - oldest))`.
abbrev pub wait_for : ℕ → ℕ → Option ℕ → Wait
wait_for now window none = infinite
wait_for now window (some first) = ms (window + first - now)

unfoldable pub entries : MemoryRateLimitStore → String → List ℕ
entries s key = elim (Map.get (namespaced_key s key) s.hits) [ none ↦ [] | some l ↦ l ]

abbrev pub recent : MemoryRateLimitStore → ℕ → String → ℕ → List ℕ
recent s now key window = filter (is_recent now window) (entries s key)

abbrev pub store_hits : MemoryRateLimitStore → String → List ℕ → MemoryRateLimitStore
store_hits s key l = record s { hits = Map.set (namespaced_key s key) l s.hits }

unfoldable pub allow :
    MemoryRateLimitStore
    → (now : ℕ) (key : String) (window max_requests : ℕ) → MemoryRateLimitStore × RateLimitDecision
allow s now key window max_requests =
    let live = recent s now key window in
    if leb max_requests (length live)
    then (
      store_hits s key live,
      record {
        allowed = false;
        retry_after = some (wait_for now window (oldest live));
        remaining = some 0;
        limit = some max_requests;
        window = some window;
      },
    )
    else (
      store_hits s key (live ++ now ∷ []),
      record {
        allowed = true;
        retry_after = none;
        remaining = some (max_requests - length (live ++ now ∷ []));
        limit = some max_requests;
        window = some window;
      },
    )

-- `if (key)`: the empty text counts as no key.
unfoldable pub reset : MemoryRateLimitStore → Option String → MemoryRateLimitStore
reset s none = record s { hits = [] }
reset s (some key) =
    if str_eq key ""
    then record s { hits = [] }
    else record s { hits = Map.delete (namespaced_key s key) s.hits }

-- Different keys of one store are stored apart.
pub namespaced_key_injective :
    (s : MemoryRateLimitStore) (j k : String) → namespaced_key s j ≡ namespaced_key s k → j ≡ k
unfolding namespaced_key
namespaced_key_injective s j k e =
    append_cancel_left ":" j k (append_cancel_left s.prefix (append_str ":" j) (append_str ":" k) e)

pub namespaced_key_ne :
    (s : MemoryRateLimitStore) (j k : String)
    → j ≢ k
    → str_eq (namespaced_key s j) (namespaced_key s k) ≡ false
namespaced_key_ne s j k h = elim (str_eq-cases (namespaced_key s j) (namespaced_key s k)) [
  | inl e ↦ absurd (h (namespaced_key_injective s j k e))
  | inr d ↦ d.0
]

pub entries-store_hits_self :
    (s : MemoryRateLimitStore) (key : String) (l : List ℕ) → entries (store_hits s key l) key ≡ l
unfolding entries namespaced_key
entries-store_hits_self s key l =
    rw (Map.get-set_self (append_str s.prefix (append_str ":" key)) l s.hits, entries)

pub entries-store_hits_ne :
    (s : MemoryRateLimitStore) (key other : String) (l : List ℕ)
    → key ≢ other
    → entries (store_hits s key l) other ≡ entries s other
unfolding entries
entries-store_hits_ne s key other l h =
    let apart = namespaced_key_ne s key other h in
    unfold namespaced_key in
    ground (arith, Map.get-set_ne (namespaced_key s key) (namespaced_key s other) l s.hits)

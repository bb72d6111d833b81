-- ===== src/Sse.antt =====
-- `SseQuotaManager` of services/orchestrator/src/server/SseQuotaManager.ts. `acquire` returns a
-- release closure; the model keeps the closures that were handed out in a list, each with what it
-- captured and its `released` flag. Limits are whole numbers.
pub mod Live
mod Tests
use ai_agent_tool.Common.{
  ℕ, ◌+◌, ◌-◌, Bool, true, false, not, ◌&&◌, ◌||◌, Option, none, some, List, [], ◌∷◌, ◌++◌, String,
  ltb, leb, if◌then◌else◌, str_eq, get_elem?, set,
}
use ai_agent_tool.Common.Map
use ai_agent_tool.Common.Map.{Map}
use ai_agent_tool.Common.Text.{trim, is_empty}

pub record SseQuotaIdentity : Type 0 where
  pub ip : Option String
  pub subject_id : Option String

pub record Release : Type 0 where
  pub subject_key : Option String
  pub ip_key : Option String
  pub released : Bool

pub record SseQuotaManager : Type 0 where
  pub per_ip_limit : ℕ
  pub per_subject_limit : ℕ
  pub ip_counts : Map ℕ
  pub subject_counts : Map ℕ
  pub handed_out : List Release

unfoldable pub normalize_key : Option String → Option String
normalize_key none = none
normalize_key (some value) = if is_empty (trim value) then none else some (trim value)

-- `map.get(key) ?? 0`.
unfoldable pub count_of : String → Map ℕ → ℕ
count_of key m = elim (Map.get key m) [ none ↦ 0 | some n ↦ n ]

unfoldable pub increment_counter : String → Map ℕ → Map ℕ
increment_counter key m = Map.set key (count_of key m + 1) m

unfoldable pub decrement_counter : String → Map ℕ → Map ℕ
decrement_counter key m = elim (Map.get key m) [
  | none ↦ m
  | some current ↦ if leb current 1 then Map.delete key m else Map.set key (current - 1) m
]

-- `this.perLimit > 0 && key`, and what is done under that test.
abbrev pub is_full : ℕ → Option String → Map ℕ → Bool
is_full limit none counts = false
is_full limit (some key) counts = ltb 0 limit && leb limit (count_of key counts)

abbrev pub when_limited : ℕ → Option String → (String → Map ℕ → Map ℕ) → Map ℕ → Map ℕ
when_limited limit none change counts = counts
when_limited limit (some key) change counts = if ltb 0 limit then change key counts else counts

-- The new manager, and whether a closure was returned (at the end of the list) or `null`.
unfoldable pub acquire : SseQuotaManager → SseQuotaIdentity → SseQuotaManager × Bool
acquire m identity =
    let ip_key = normalize_key identity.ip in
    let subject_key = normalize_key identity.subject_id in
    if is_full m.per_subject_limit subject_key m.subject_counts
      || is_full m.per_ip_limit ip_key m.ip_counts
    then (m, false)
    else (
      record m {
        subject_counts =
            when_limited m.per_subject_limit subject_key increment_counter m.subject_counts;
        ip_counts = when_limited m.per_ip_limit ip_key increment_counter m.ip_counts;
        handed_out =
            m.handed_out
            ++ record { subject_key = subject_key; ip_key = ip_key; released = false } ∷ [];
      },
      true,
    )

-- A call of the `i`-th closure.
abbrev pub call_release : SseQuotaManager → ℕ → Option Release → SseQuotaManager
call_release m i none = m
call_release m i (some r) = if r.released then m else record m {
  subject_counts =
      when_limited m.per_subject_limit r.subject_key decrement_counter m.subject_counts;
  ip_counts = when_limited m.per_ip_limit r.ip_key decrement_counter m.ip_counts;
  handed_out = set m.handed_out i (record r { released = true });
}

unfoldable pub release : SseQuotaManager → ℕ → SseQuotaManager
release m i = call_release m i (get_elem? m.handed_out i)

pub data Action : Type 0 where
  connect : SseQuotaIdentity → Action
  disconnect : ℕ → Action

unfoldable pub run : SseQuotaManager → List Action → SseQuotaManager
run m [] = m
run m (connect identity ∷ actions) = run (acquire m identity).0 actions
run m (disconnect i ∷ actions) = run (release m i) actions

unfoldable pub new_manager : (per_ip per_subject : ℕ) → SseQuotaManager
new_manager per_ip per_subject = record {
  per_ip_limit = per_ip;
  per_subject_limit = per_subject;
  ip_counts = [];
  subject_counts = [];
  handed_out = [];
}

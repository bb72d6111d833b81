-- ===== src/RateLimit/Retry.antt =====
-- What the `retryAfterMs` of a refusal promises.
use ai_agent_tool.Common.{
  ℕ, ◌+◌, ◌-◌, ◌≤◌, ◌<◌, ◌≡◌, refl, true, false, none, some, List, [], ◌∷◌, String, arith, ltb, leb,
  length, filter, length-append, length-filter-le, inl, inr, Bool-cases, Option-cases,
}
use ai_agent_tool.RateLimit.Store.{
  MemoryRateLimitStore, ms, is_recent, oldest, entries, recent, allow,
}
use ai_agent_tool.RateLimit.Window.{entries-allow_self, allowed_iff}

oldest-eq-none : (l : List ℕ) → oldest l ≡ none → l ≡ []
oldest-eq-none [] e = refl
oldest-eq-none (x ∷ l) e = ground arith

-- Until the oldest entry leaves the window all entries count, and from then on fewer do.
filter_before_oldest :
    (window t first : ℕ) (l : List ℕ)
    → oldest l ≡ some first
    → t < first + window
    → filter (is_recent t window) l ≡ l
filter_before_oldest window t first [] e h = refl
filter_before_oldest window t first (x ∷ l) e h = elim (Option-cases (oldest l)) [
  | inl bare ↦ rw (oldest-eq-none l bare) (ground arith)
  | inr (y, least) ↦ ground (arith, filter_before_oldest window t y l least)
]

filter_after_oldest :
    (window t first : ℕ) (l : List ℕ)
    → oldest l ≡ some first
    → first + window ≤ t
    → length (filter (is_recent t window) l) < length l
filter_after_oldest window t first [] e h = ground arith
filter_after_oldest window t first (x ∷ l) e h = elim (Option-cases (oldest l)) [
  | inl bare ↦ ground (arith, length-filter-le (is_recent t window) l)
  | inr (y, least) ↦
      ground
        (arith, length-filter-le (is_recent t window) l, filter_after_oldest window t y l least)
]

oldest-filter :
    (window t first : ℕ) (l : List ℕ)
    → oldest (filter (is_recent t window) l) ≡ some first
    → t < first + window
oldest-filter window t first [] e = cc
oldest-filter window t first (x ∷ l) e =
    elim (Option-cases (oldest (filter (is_recent t window) l))) [
      | inl bare ↦ ground arith
      | inr (y, least) ↦ ground (arith, oldest-filter window t y l least)
    ]

-- A refusal with a finite wait, taken apart.
refusal :
    (s : MemoryRateLimitStore) (now : ℕ) (key : String) (window max wait : ℕ)
    → (allow s now key window max).1.retry_after ≡ some (ms wait)
    → (first : ℕ) × (oldest (recent s now key window) ≡ some first)
      × (wait ≡ window + first - now)
      × (leb max (length (recent s now key window)) ≡ true)
      × ((allow s now key window max).1.allowed ≡ false)
unfolding allow
refusal s now key window max wait h =
    elim (Bool-cases (leb max (length (recent s now key window)))) [
      | inr room ↦ ground arith
      | inl full ↦ elim (Option-cases (oldest (recent s now key window))) [
        | inl bare ↦ ground arith
        | inr (first, least) ↦ (first, least, ground arith, full, ground arith)
      ]
    ]

-- The number of stored timestamps stays within the limit.
pub length-entries-allow :
    (s : MemoryRateLimitStore) (now : ℕ) (key : String) (window max : ℕ)
    → length (entries s key) ≤ max
    → length (entries (allow s now key window max).0 key) ≤ max
length-entries-allow s now key window max h =
    rw (entries-allow_self s now key window max, allowed_iff s now key window max)
      (ground (
        arith,
        length-append (recent s now key window) (now ∷ []),
        length-filter-le (is_recent now window) (entries s key),
      ))

-- The wait is exact: where a key holds no more timestamps than the limit, and a call of it was
-- refused with the finite wait `wait`, the next call of the key, with the same window and limit
-- and at no earlier time, is granted exactly if `wait` milliseconds have gone by.
pub allow_after_wait :
    (s : MemoryRateLimitStore) (now later : ℕ) (key : String) (window max wait : ℕ)
    → now ≤ later
    → length (entries s key) ≤ max
    → (allow s now key window max).1.retry_after ≡ some (ms wait)
    → (allow (allow s now key window max).0 later key window max).1.allowed ≡ leb (now + wait) later
allow_after_wait s now later key window max wait le fits h =
    let (first, least, waited, full, refused) = refusal s now key window max wait h in
    let held = recent s now key window in
    rw
      (
        allowed_iff (allow s now key window max).0 later key window max,
        entries-allow_self s now key window max,
        refused,
      )
      (elim (Bool-cases (ltb later (first + window))) [
        | inl early ↦ ground (
          arith,
          filter_before_oldest window later first held least (ground arith),
          oldest-filter window now first (entries s key) least,
        )
        | inr due ↦ ground (
          arith,
          filter_after_oldest window later first held least (ground arith),
          length-filter-le (is_recent now window) (entries s key),
          oldest-filter window now first (entries s key) least,
        )
      ])

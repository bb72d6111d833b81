-- ===== src/RateLimit/Exact.antt =====
-- What `PerSessionRateLimiter` of services/orchestrator/src/services/RateLimiter.ts answers after any
-- checks, told by the history of its answers.
use ai_agent_tool.Common.{
  ℕ, ◌+◌, ◌-◌, ◌≤◌, ◌≡◌, refl, sym, ap, ◌∙◌, Bool, ◌&&◌, List, [], ◌∷◌, ◌++◌, String, arith, leb,
  ltb, str_eq, if◌then◌else◌, length, length-append, filter, count_if, length-filter, inl, inr,
  Bool-cases, str_eq-cases, eq_refl,
}
use ai_agent_tool.RateLimit.Store.{is_recent, entries, recent, allow}
use ai_agent_tool.RateLimit.Window.{
  alive, alive-filter, alive-snoc, entries-allow_self, entries-allow_ne, allowed_iff,
  IsChronological,
}
use ai_agent_tool.RateLimit.Session.{PerSessionRateLimiter, check}

-- The limiter after checks of sessions at times.
unfoldable pub check_all : PerSessionRateLimiter → List (String × ℕ) → PerSessionRateLimiter
check_all l [] = l
check_all l ((session, now) ∷ calls) = check_all (check l now session).0 calls

-- The times at which a session was answered that it is allowed.
unfoldable pub granted_times : PerSessionRateLimiter → String → List (String × ℕ) → List ℕ
granted_times l session [] = []
granted_times l session ((s, now) ∷ calls) =
    let rest = granted_times (check l now s).0 session calls in
    if str_eq s session && (check l now s).1.allowed then now ∷ rest else rest

-- How many of the times are less than `window` before `t`, and not after it.
abbrev pub in_window : (window t : ℕ) → List ℕ → ℕ
in_window window t = count_if (λ g. leb g t && ltb t (g + window))

-- The stored hits count from `last` on as the grants do.
IsCounted : (window : ℕ) (log hits : List ℕ) (last : ℕ) → Type 0
IsCounted window log hits last = (t : ℕ) → last ≤ t → in_window window t log ≡ alive window t hits

deny-IsCounted :
    (window : ℕ) (log hits : List ℕ) (last now : ℕ)
    → last ≤ now
    → IsCounted window log hits last
    → IsCounted window log (filter (is_recent now window) hits) now
unfolding IsCounted
deny-IsCounted window log hits last now h k =
    λ t le. ground (arith, k t, alive-filter window now t hits le)

grant-IsCounted :
    (window : ℕ) (log hits : List ℕ) (last now : ℕ)
    → last ≤ now
    → IsCounted window log hits last
    → IsCounted window (now ∷ log) (filter (is_recent now window) hits ++ now ∷ []) now
unfolding IsCounted
grant-IsCounted window log hits last now h k = λ t le. ground (
  arith,
  k t,
  alive-filter window now t hits le,
  alive-snoc window t now (filter (is_recent now window) hits),
)

later-IsCounted :
    (window : ℕ) (log hits : List ℕ) (last now : ℕ)
    → last ≤ now
    → IsCounted window log hits last
    → IsCounted window log hits now
unfolding IsCounted
later-IsCounted window log hits last now h k = λ t le. k t (omega arith)

check_self-IsCounted :
    (l : PerSessionRateLimiter) (session : String) (last now : ℕ) (log : List ℕ)
    → last ≤ now
    → IsCounted l.window log (entries l.store session) last
    → IsCounted l.window
        (if (check l now session).1.allowed then now ∷ log else log)
        (entries (check l now session).0.store session)
        now
unfolding check
check_self-IsCounted l session last now log h k =
    rw
      (
        entries-allow_self l.store now session l.window l.limit,
        allowed_iff l.store now session l.window l.limit,
      )
      (elim (Bool-cases (leb l.limit (length (recent l.store now session l.window)))) [
        | inl full ↦ rw full (deny-IsCounted l.window log (entries l.store session) last now h k)
        | inr room ↦ rw room (grant-IsCounted l.window log (entries l.store session) last now h k)
      ])

check-IsCounted :
    (l : PerSessionRateLimiter) (session s : String) (last now : ℕ) (log : List ℕ)
    → last ≤ now
    → IsCounted l.window log (entries l.store session) last
    → IsCounted l.window
        (if str_eq s session && (check l now s).1.allowed then now ∷ log else log)
        (entries (check l now s).0.store session)
        now
unfolding check
check-IsCounted l session s last now log h k = elim (str_eq-cases s session) [
  | inl same ↦
      rw (same, eq_refl session) (unfold check in check_self-IsCounted l session last now log h k)
  | inr (differ, apart) ↦
      rw (differ, entries-allow_ne l.store now s session l.window l.limit apart)
        (later-IsCounted l.window log (entries l.store session) last now h k)
]

counted_step :
    (window now time : ℕ) (granted : Bool) (log rest : List ℕ) (n : ℕ)
    → in_window window now (if granted then time ∷ log else log) + in_window window now rest ≡ n
    → in_window window now log + in_window window now (if granted then time ∷ rest else rest) ≡ n
counted_step window now time granted log rest n h = ground (arith, h)

run-IsCounted :
    (l : PerSessionRateLimiter) (session : String) (last : ℕ) (log : List ℕ)
    (calls : List (String × ℕ)) (now : ℕ)
    → IsChronological last (calls ++ (session, now) ∷ [])
    → IsCounted l.window log (entries l.store session) last
    → in_window l.window now log + in_window l.window now (granted_times l session calls)
      ≡ length (recent (check_all l calls).store now session l.window)
unfolding check_all granted_times check IsCounted
run-IsCounted l session last log [] now c k =
    ground (arith, k now c.0, length-filter (is_recent now l.window) (entries l.store session))
run-IsCounted l session last log ((s, time) ∷ calls) now c k =
    let l' = (check l time s).0 in
    let granted = str_eq s session && (check l time s).1.allowed in
    let ih =
      run-IsCounted l' session time (if granted then time ∷ log else log) calls now c.1
        (check-IsCounted l session s last time log c.0 k) in
    counted_step l.window now time granted log (granted_times l' session calls) _ ih

new-IsCounted : (window last : ℕ) (hits : List ℕ) → hits ≡ [] → IsCounted window [] hits last
unfolding IsCounted
new-IsCounted window last hits e = λ t le. rw e refl

-- A check changes neither the limit nor the window.
check_all_options :
    (l : PerSessionRateLimiter) (calls : List (String × ℕ))
    → ((check_all l calls).window ≡ l.window) × ((check_all l calls).limit ≡ l.limit)
unfolding check_all check
check_all_options l [] = (refl, refl)
check_all_options l ((s, now) ∷ calls) = check_all_options (check l now s).0 calls

-- What a check reports, in terms of the hits that are stored.
check_lem :
    (l : PerSessionRateLimiter) (now : ℕ) (session : String)
    → let live = length (recent l.store now session l.window) in
      let result = (check l now session).1 in
      (result.allowed ≡ ltb live l.limit) × (result.remaining ≡ l.limit - (live + 1))
unfolding check allow
check_lem l now session =
    let held = recent l.store now session l.window in
    (ground arith, ground (arith, length-append held (now ∷ [])))

-- The session limiter decides by the history of its answers. Take a limiter that has nothing stored
-- for a session, and any checks of any sessions, at times that do not go back. A further check of
-- the session, not earlier, is allowed exactly if fewer than `limit` of the session's checks that
-- were allowed are in the window of `window` milliseconds that ends then. The number of remaining
-- calls that it reports is the limit without these and itself, or 0 where it is refused; checks of
-- other sessions make no difference.
pub check_all-decides :
    (l : PerSessionRateLimiter) (session : String) (last : ℕ) (calls : List (String × ℕ)) (now : ℕ)
    → entries l.store session ≡ []
    → IsChronological last (calls ++ (session, now) ∷ [])
    → let granted = in_window l.window now (granted_times l session calls) in
      let result = (check (check_all l calls) now session).1 in
      (result.allowed ≡ ltb granted l.limit) × (result.remaining ≡ l.limit - (granted + 1))
check_all-decides l session last calls now empty c =
    let l' = check_all l calls in
    let kept = check_all_options l calls in
    let counted =
      run-IsCounted l session last [] calls now c
        (new-IsCounted l.window last (entries l.store session) empty) in
    let counted_by : in_window l.window now (granted_times l session calls)
        ≡ length (recent l'.store now session l.window) =
      ground (arith, counted) in
    let live : length (recent l'.store now session l'.window)
        ≡ in_window l.window now (granted_times l session calls) =
      ap (λ w. length (recent l'.store now session w)) kept.0 ∙ sym counted_by in
    let answer = check_lem l' now session in
    (ground (arith, answer.0, live, kept.1), ground (arith, answer.1, live, kept.1))

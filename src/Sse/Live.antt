-- ===== src/Sse/Live.antt =====
-- The counters against the connections that are open.
use ai_agent_tool.Common.{
  ℕ, ◌+◌, ◌-◌, ◌≤◌, ◌<◌, ◌≡◌, refl, Bool, true, false, not, ◌&&◌, ◌||◌, Option, none, some, List,
  [], ◌∷◌, ◌++◌, count_if-append, String, arith, ltb, leb, str_eq, if◌then◌else◌, count_if,
  count_if-set, get_elem?, inl, inr, Option-cases, Bool-cases, eq_iff,
}
use ai_agent_tool.Common.Map
use ai_agent_tool.Common.Map.{Map}
use ai_agent_tool.Sse.{
  SseQuotaIdentity, SseQuotaManager, Release, normalize_key, count_of, increment_counter,
  decrement_counter, is_full, when_limited, acquire, release, Action, connect, disconnect, run,
  new_manager,
}

count_of-increment :
    (key j : String) (m : Map ℕ)
    → count_of j (increment_counter key m) ≡ count_of j m + (if str_eq key j then 1 else 0)
unfolding count_of increment_counter
count_of-increment key j m = ground (arith, eq_iff key j, Map.get-set key j (count_of key m + 1) m)

count_of-decrement :
    (key j : String) (m : Map ℕ)
    → count_of j (decrement_counter key m) ≡ count_of j m - (if str_eq key j then 1 else 0)
unfolding count_of decrement_counter
count_of-decrement key j m = elim (Option-cases (Map.get key m)) [
  | inl absent ↦ ground (arith, eq_iff key j)
  | inr (n, present) ↦
      ground (arith, eq_iff key j, Map.get-set key j (n - 1) m, Map.get-delete key j m)
]

-- Open connections of a subject, and from an address.
abbrev is_key : Option String → String → Bool
is_key none k = false
is_key (some j) k = str_eq j k

abbrev pub live_subject : String → SseQuotaManager → ℕ
live_subject k m = count_if (λ r. not r.released && is_key r.subject_key k) m.handed_out

abbrev pub live_ip : String → SseQuotaManager → ℕ
live_ip k m = count_if (λ r. not r.released && is_key r.ip_key k) m.handed_out

-- Where a limit is set, each counter is the number of open connections, and within the limit.
record IsCounted (m : SseQuotaManager) : Type 0 where
  subjects : (k : String) → 0 < m.per_subject_limit → count_of k m.subject_counts ≡ live_subject k m
  ips : (k : String) → 0 < m.per_ip_limit → count_of k m.ip_counts ≡ live_ip k m
  few_subjects : (k : String) → 0 < m.per_subject_limit → live_subject k m ≤ m.per_subject_limit
  few_ips : (k : String) → 0 < m.per_ip_limit → live_ip k m ≤ m.per_ip_limit

when_limited-increment :
    (limit : ℕ) (key : Option String) (k : String) (counts : Map ℕ)
    → 0 < limit
    → count_of k (when_limited limit key increment_counter counts)
      ≡ count_of k counts + (if is_key key k then 1 else 0)
when_limited-increment limit none k counts h = omega arith
when_limited-increment limit (some j) k counts h = ground (arith, count_of-increment j k counts)

when_limited-decrement :
    (limit : ℕ) (key : Option String) (k : String) (counts : Map ℕ)
    → 0 < limit
    → count_of k (when_limited limit key decrement_counter counts)
      ≡ count_of k counts - (if is_key key k then 1 else 0)
when_limited-decrement limit none k counts h = omega arith
when_limited-decrement limit (some j) k counts h = ground (arith, count_of-decrement j k counts)

is_full-false :
    (limit : ℕ) (key : Option String) (k : String) (counts : Map ℕ)
    → is_full limit key counts ≡ false
    → 0 < limit
    → is_key key k ≡ true
    → count_of k counts < limit
is_full-false limit none k counts e h i = cc
is_full-false limit (some j) k counts e h i = ground (arith, eq_iff j k)

live_subject-connect :
    (k : String) (subject ip : Option String) (l : List Release)
    → count_if
        (λ r. not r.released && is_key r.subject_key k)
        (l ++ record { subject_key = subject; ip_key = ip; released = false } ∷ [])
      ≡ count_if (λ r. not r.released && is_key r.subject_key k) l
        + (if is_key subject k then 1 else 0)
live_subject-connect k subject ip l =
    count_if-append (λ r. not r.released && is_key r.subject_key k) l _

live_ip-connect :
    (k : String) (subject ip : Option String) (l : List Release)
    → count_if
        (λ r. not r.released && is_key r.ip_key k)
        (l ++ record { subject_key = subject; ip_key = ip; released = false } ∷ [])
      ≡ count_if (λ r. not r.released && is_key r.ip_key k) l + (if is_key ip k then 1 else 0)
live_ip-connect k subject ip l = count_if-append (λ r. not r.released && is_key r.ip_key k) l _

acquire-IsCounted :
    (m : SseQuotaManager) (identity : SseQuotaIdentity)
    → IsCounted m
    → IsCounted (acquire m identity).0
unfolding acquire
acquire-IsCounted m identity c =
    let subject = normalize_key identity.subject_id in
    let ip = normalize_key identity.ip in
    elim (Bool-cases (
      is_full m.per_subject_limit subject m.subject_counts
      || is_full m.per_ip_limit ip m.ip_counts)) [
        | inl full ↦ rw full c
        | inr room ↦ rw room (record {
          subjects = λ k h. ground (
            arith,
            c.subjects k h,
            when_limited-increment m.per_subject_limit subject k m.subject_counts h,
            live_subject-connect k subject ip m.handed_out,
          );
          ips = λ k h. ground (
            arith,
            c.ips k h,
            when_limited-increment m.per_ip_limit ip k m.ip_counts h,
            live_ip-connect k subject ip m.handed_out,
          );
          few_subjects = λ k h. ground (
            arith,
            c.subjects k h,
            c.few_subjects k h,
            is_full-false m.per_subject_limit subject k m.subject_counts,
            live_subject-connect k subject ip m.handed_out,
          );
          few_ips = λ k h. ground (
            arith,
            c.ips k h,
            c.few_ips k h,
            is_full-false m.per_ip_limit ip k m.ip_counts,
            live_ip-connect k subject ip m.handed_out,
          );
        })
      ]

release-IsCounted : (m : SseQuotaManager) (i : ℕ) → IsCounted m → IsCounted (release m i)
unfolding release
release-IsCounted m i c = elim (Option-cases (get_elem? m.handed_out i)) [
  | inl absent ↦ rw absent c
  | inr (r, found) ↦ elim (Bool-cases r.released) [
    | inl again ↦ rw (found, again) c
    | inr first ↦
        let closed = record r { released = true } in
        let subjects = λ (k : String).
          count_if-set (λ q. not q.released && is_key q.subject_key k) m.handed_out i r closed
            found in
        let ips = λ (k : String).
          count_if-set (λ q. not q.released && is_key q.ip_key k) m.handed_out i r closed found in
        rw (found, first)
          (record {
            subjects = λ k h. ground (
              arith,
              c.subjects k h,
              subjects k,
              when_limited-decrement m.per_subject_limit r.subject_key k m.subject_counts h,
            );
            ips = λ k h. ground (
              arith,
              c.ips k h,
              ips k,
              when_limited-decrement m.per_ip_limit r.ip_key k m.ip_counts h,
            );
            few_subjects = λ k h. ground (arith, c.few_subjects k h, subjects k);
            few_ips = λ k h. ground (arith, c.few_ips k h, ips k);
          })
  ]
]

run-IsCounted :
    (m : SseQuotaManager) (actions : List Action) → IsCounted m → IsCounted (run m actions)
unfolding run
run-IsCounted m [] c = c
run-IsCounted m (connect identity ∷ actions) c =
    run-IsCounted (acquire m identity).0 actions (acquire-IsCounted m identity c)
run-IsCounted m (disconnect i ∷ actions) c =
    run-IsCounted (release m i) actions (release-IsCounted m i c)

new_manager-IsCounted : (per_ip per_subject : ℕ) → IsCounted (new_manager per_ip per_subject)
unfolding new_manager count_of Map.get
new_manager-IsCounted per_ip per_subject = record {
  subjects = λ k h. refl;
  ips = λ k h. refl;
  few_subjects = λ k h. omega arith;
  few_ips = λ k h. omega arith;
}

run_limits :
    (m : SseQuotaManager) (actions : List Action)
    → ((run m actions).per_ip_limit ≡ m.per_ip_limit)
      × ((run m actions).per_subject_limit ≡ m.per_subject_limit)
unfolding run acquire release
run_limits m [] = (refl, refl)
run_limits m (connect identity ∷ actions) =
    ground (arith, run_limits (acquire m identity).0 actions)
run_limits m (disconnect i ∷ actions) = ground (arith, run_limits (release m i) actions)

-- After any run of connections and calls of the release closures, in any order and a closure
-- called any number of times, where a limit is set (not 0) no subject and no address has more open
-- connections than its limit.
pub run-le-limits :
    (per_ip per_subject : ℕ) (actions : List Action) (k : String)
    → let m = run (new_manager per_ip per_subject) actions in
      (0 < per_subject → live_subject k m ≤ per_subject) × (0 < per_ip → live_ip k m ≤ per_ip)
unfolding new_manager
run-le-limits per_ip per_subject actions k =
    let m = new_manager per_ip per_subject in
    let c = run-IsCounted m actions (new_manager-IsCounted per_ip per_subject) in
    let (same_ip, same_subject) = run_limits m actions in
    (λ h. ground (arith, c.few_subjects k), λ h. ground (arith, c.few_ips k))

-- Room for one more, by the connections that are open.
abbrev pub has_room : ℕ → Option String → (String → ℕ) → Bool
has_room limit none live = true
has_room limit (some k) live = leb limit 0 || ltb (live k) limit

has_room_lem :
    (limit : ℕ) (key : Option String) (counts : Map ℕ) (live : String → ℕ)
    → ((k : String) → 0 < limit → count_of k counts ≡ live k)
    → is_full limit key counts ≡ not (has_room limit key live)
has_room_lem limit none counts live h = refl
has_room_lem limit (some k) counts live h = ground (arith, h k)

-- No connection is refused without need, and none leaks: after any run, a connection is accepted
-- exactly if its subject and its address, trimmed, have room; an identity that is absent or blank
-- has room, and so has everything where the limit is 0.
pub acquire_iff_room :
    (per_ip per_subject : ℕ) (actions : List Action) (identity : SseQuotaIdentity)
    → let m = run (new_manager per_ip per_subject) actions in
      (acquire m identity).1 ≡ (
        has_room per_subject (normalize_key identity.subject_id) (λ k. live_subject k m)
        && has_room per_ip (normalize_key identity.ip) (λ k. live_ip k m))
unfolding acquire
acquire_iff_room per_ip per_subject actions identity =
    let m = run (new_manager per_ip per_subject) actions in
    let c =
      run-IsCounted (new_manager per_ip per_subject) actions
        (new_manager-IsCounted per_ip per_subject) in
    let (same_ip, same_subject) = run_limits (new_manager per_ip per_subject) actions in
    unfold new_manager in
    ground (
      arith,
      same_ip,
      same_subject,
      has_room_lem m.per_subject_limit (normalize_key identity.subject_id) m.subject_counts
          (λ k. live_subject k m) c.subjects,
      has_room_lem m.per_ip_limit (normalize_key identity.ip) m.ip_counts (λ k. live_ip k m) c.ips,
    )

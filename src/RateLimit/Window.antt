-- ===== src/RateLimit/Window.antt =====
-- The window that `allow` enforces, over whole runs of calls.
use ai_agent_tool.Common.{
  ℕ, suc, ◌+◌, ◌≤◌, ◌≡◌, ◌≢◌, refl, true, false, ◌&&◌, List, [], ◌∷◌, ◌++◌, String, arith, leb,
  str_eq, if◌then◌else◌, length, filter, count_if, length-filter, inl, inr, Bool-cases,
  str_eq-cases, eq_refl,
}
use ai_agent_tool.RateLimit.Store.{
  MemoryRateLimitStore, is_recent, entries, recent, allow, entries-store_hits_self,
  entries-store_hits_ne,
}

-- What a call leaves under its own key, and under another.
pub entries-allow_self :
    (s : MemoryRateLimitStore) (now : ℕ) (key : String) (window max : ℕ)
    → entries (allow s now key window max).0 key ≡ (
        if (allow s now key window max).1.allowed
        then recent s now key window ++ now ∷ []
        else recent s now key window)
unfolding allow
entries-allow_self s now key window max = ground (
  arith,
  entries-store_hits_self s key (recent s now key window),
  entries-store_hits_self s key (recent s now key window ++ now ∷ []),
)

pub entries-allow_ne :
    (s : MemoryRateLimitStore) (now : ℕ) (key other : String) (window max : ℕ)
    → key ≢ other
    → entries (allow s now key window max).0 other ≡ entries s other
unfolding allow
entries-allow_ne s now key other window max h = ground (
  arith,
  entries-store_hits_ne s key other (recent s now key window) h,
  entries-store_hits_ne s key other (recent s now key window ++ now ∷ []) h,
)

pub allowed_iff :
    (s : MemoryRateLimitStore) (now : ℕ) (key : String) (window max : ℕ)
    → (allow s now key window max).1.allowed
      ≡ (if leb max (length (recent s now key window)) then false else true)
unfolding allow
allowed_iff s now key window max = ground arith

-- The timestamps that still count at `t`, and the grants in the window that ends at `t`.
abbrev pub alive : ℕ → ℕ → List ℕ → ℕ
alive window t = count_if (is_recent t window)

abbrev pub granted_in : ℕ → ℕ → List ℕ → ℕ
granted_in window t = count_if (λ g. leb g t && is_recent t window g)

granted_in-le-alive : (window t : ℕ) (l : List ℕ) → granted_in window t l ≤ alive window t l
granted_in-le-alive window t [] = omega arith
granted_in-le-alive window t (x ∷ l) = ground (arith, granted_in-le-alive window t l)

alive-antitone : (window t u : ℕ) (l : List ℕ) → t ≤ u → alive window u l ≤ alive window t l
alive-antitone window t u [] h = omega arith
alive-antitone window t u (x ∷ l) h = ground (arith, alive-antitone window t u l h)

-- Dropping what is stale at `t` changes no later count.
pub alive-filter :
    (window t u : ℕ) (l : List ℕ)
    → t ≤ u
    → alive window u (filter (is_recent t window) l) ≡ alive window u l
alive-filter window t u [] h = refl
alive-filter window t u (x ∷ l) h = ground (arith, alive-filter window t u l h)

pub alive-snoc :
    (window t x : ℕ) (l : List ℕ) → alive window t (l ++ x ∷ []) ≡ alive window t (x ∷ l)
alive-snoc window t x [] = refl
alive-snoc window t x (y ∷ l) = ground (arith, alive-snoc window t x l)

-- What is known of one key after a run: `log` holds its grants.
record Tracked (window max : ℕ) (log hits : List ℕ) (last : ℕ) : Type 0 where
  bounded : (t : ℕ) → granted_in window t log ≤ max
  covered : (t : ℕ) → last ≤ t → granted_in window t log ≤ alive window t hits

Tracked-deny :
    {window max : ℕ} {log hits : List ℕ} {last : ℕ} (now : ℕ)
    → last ≤ now
    → Tracked window max log hits last
    → Tracked window max log (filter (is_recent now window) hits) now
Tracked-deny {window} {hits = hits} now h k = record {
  bounded = k.bounded;
  covered = λ t le. ground (arith, k.covered t, alive-filter window now t hits le);
}

Tracked-grant :
    {window max : ℕ} {log hits : List ℕ} {last : ℕ} (now : ℕ)
    → last ≤ now
    → suc (length (filter (is_recent now window) hits)) ≤ max
    → Tracked window max log hits last
    → Tracked window max (now ∷ log) (filter (is_recent now window) hits ++ now ∷ []) now
Tracked-grant {window} {max} {log} {hits} now h room k = record {
  bounded = λ t. ground (
    arith,
    k.bounded t,
    k.covered t,
    alive-antitone window now t hits,
    length-filter (is_recent now window) hits,
  );
  covered = λ t le. ground (
    arith,
    k.covered t,
    alive-filter window now t hits le,
    alive-snoc window t now (filter (is_recent now window) hits),
  );
}

-- The grants that a run of calls makes under `key`. A call is a key and a time.
unfoldable pub grants :
    MemoryRateLimitStore → (window max : ℕ) (key : String) → List (String × ℕ) → List ℕ
grants s window max key [] = []
grants s window max key ((j, now) ∷ calls) =
    let (s', decision) = allow s now j window max in
    let rest = grants s' window max key calls in
    if str_eq j key && decision.allowed then now ∷ rest else rest

-- The times of a run do not go back.
abbrev pub IsChronological : ℕ → List (String × ℕ) → Type 0
IsChronological last [] = Unit
IsChronological last ((j, now) ∷ calls) = (last ≤ now) × IsChronological now calls

Tracked-later :
    {window max : ℕ} {log hits : List ℕ} {last : ℕ} (now : ℕ)
    → last ≤ now
    → Tracked window max log hits last
    → Tracked window max log hits now
Tracked-later now h k = record { bounded = k.bounded; covered = λ t le. k.covered t (omega arith) }

allow-Tracked_self :
    (s : MemoryRateLimitStore) (window max : ℕ) (key : String) (last now : ℕ) (log : List ℕ)
    → last ≤ now
    → Tracked window max log (entries s key) last
    → Tracked window max
        (if (allow s now key window max).1.allowed then now ∷ log else log)
        (entries (allow s now key window max).0 key)
        now
allow-Tracked_self s window max key last now log h k =
    rw (entries-allow_self s now key window max, allowed_iff s now key window max)
      (elim (Bool-cases (leb max (length (recent s now key window)))) [
        | inl full ↦ rw full (Tracked-deny now h k)
        | inr room ↦ rw room (Tracked-grant now h (ground arith) k)
      ])

allow-Tracked :
    (s : MemoryRateLimitStore) (window max : ℕ) (key j : String) (last now : ℕ) (log : List ℕ)
    → last ≤ now
    → Tracked window max log (entries s key) last
    → Tracked window max
        (if str_eq j key && (allow s now j window max).1.allowed then now ∷ log else log)
        (entries (allow s now j window max).0 key)
        now
allow-Tracked s window max key j last now log h k = elim (str_eq-cases j key) [
  | inl same ↦ rw (same, eq_refl key) (allow-Tracked_self s window max key last now log h k)
  | inr (differ, apart) ↦
      rw (differ, entries-allow_ne s now j key window max apart) (Tracked-later now h k)
]

grants-Tracked :
    (s : MemoryRateLimitStore) (window max : ℕ) (key : String) (last : ℕ) (log : List ℕ)
    (calls : List (String × ℕ))
    → IsChronological last calls
    → Tracked window max log (entries s key) last
    → (t : ℕ) → granted_in window t log + granted_in window t (grants s window max key calls) ≤ max
unfolding grants
grants-Tracked s window max key last log [] c k t = omega (arith, k.bounded t)
grants-Tracked s window max key last log ((j, now) ∷ calls) c k t = ground (
  arith,
  grants-Tracked (allow s now j window max).0 window max key now
      (if str_eq j key && (allow s now j window max).1.allowed then now ∷ log else log) calls c.1
      (allow-Tracked s window max key j last now log c.0 k) t,
)

-- No window is overrun: over any run of calls with one limit and one window that starts where
-- nothing is stored for the key, and whose times do not go back, at most `max` calls of the key
-- are granted in the window of `window` milliseconds that ends at `t`, for every `t`.
pub grants-le-max :
    (s : MemoryRateLimitStore) (window max : ℕ) (key : String) (last : ℕ)
    (calls : List (String × ℕ)) (t : ℕ)
    → entries s key ≡ []
    → IsChronological last calls
    → granted_in window t (grants s window max key calls) ≤ max
grants-le-max s window max key last calls t empty c = omega (
  arith,
  grants-Tracked s window max key last [] calls c
      (rw empty (record { bounded = λ u. omega arith; covered = λ u le. omega arith })) t,
)

-- ===== src/Dedupe/Exclusive.antt =====
-- A claim keeps others out until it ends.
use ai_agent_tool.Common.{
  ℕ, ◌+◌, ◌≤◌, ◌<◌, ◌≡◌, ◌≢◌, max, true, false, none, some, List, [], ◌∷◌, String, arith, ltb, leb,
  inl, eq_iff, All, ◌⊎◌,
}
use ai_agent_tool.Common.Map
use ai_agent_tool.Common.Map.{Map}
use ai_agent_tool.Dedupe.{
  MemoryDedupeService, drop_expired, cleanup_expired, claim, release, is_claimed, Event,
  claim_event, release_event, query_event, cleanup_event, handle, run,
}

-- The claim of a key lives until `expires`.
abbrev pub IsHeldUntil : MemoryDedupeService → String → ℕ → Type 0
IsHeldUntil s key expires = Map.get key s.claims ≡ some expires

-- Before that time no event ends it, but its release.
abbrev pub Before : ℕ → String → Event → Type 0
Before expires key (claim_event now j ttl) = now < expires
Before expires key (release_event j) = j ≢ key
Before expires key (query_event now j) = now < expires
Before expires key (cleanup_event now) = now < expires

get-drop_expired :
    (now : ℕ) (key : String) (m : Map ℕ) (expires : ℕ)
    → now < expires
    → Map.get key m ≡ some expires
    → Map.get key (drop_expired now m) ≡ some expires
unfolding Map.get
get-drop_expired now key [] expires h e = cc
get-drop_expired now key ((j, x) ∷ m) expires h e = ground (
  arith,
  eq_iff j key,
  get-drop_expired now key m expires h,
  Map.get-delete j key (drop_expired now m),
)

handle-IsHeldUntil :
    (s : MemoryDedupeService) (e : Event) (key : String) (expires : ℕ)
    → Before expires key e
    → IsHeldUntil s key expires
    → IsHeldUntil (handle s e) key expires
unfolding handle claim release is_claimed cleanup_expired
handle-IsHeldUntil s (claim_event now j ttl) key expires b h =
    ground (arith, eq_iff j key, Map.get-set j key (now + max 1 ttl) s.claims)
handle-IsHeldUntil s (release_event j) key expires b h =
    ground (arith, eq_iff j key, Map.get-delete j key s.claims)
handle-IsHeldUntil s (query_event now j) key expires b h =
    ground (arith, eq_iff j key, Map.get-delete j key s.claims)
handle-IsHeldUntil s (cleanup_event now) key expires b h =
    get-drop_expired now key s.claims expires b h

run-IsHeldUntil :
    (s : MemoryDedupeService) (events : List Event) (key : String) (expires : ℕ)
    → All (Before expires key) events
    → IsHeldUntil s key expires
    → IsHeldUntil (run s events) key expires
unfolding run
run-IsHeldUntil s [] key expires b h = h
run-IsHeldUntil s (e ∷ events) key expires b h =
    run-IsHeldUntil (handle s e) events key expires b.1 (handle-IsHeldUntil s e key expires b.0 h)

claim-IsHeldUntil :
    (s : MemoryDedupeService) (now : ℕ) (key : String) (ttl : ℕ)
    → (claim s now key ttl).1 ≡ true
    → IsHeldUntil (claim s now key ttl).0 key (now + max 1 ttl)
unfolding claim
claim-IsHeldUntil s now key ttl h = ground (arith, Map.get-set_self key (now + max 1 ttl) s.claims)

-- A claim is exclusive: once `claim` has succeeded at `now`, and until its time to live (at least
-- a millisecond) is over, a second claim of the key fails and changes nothing, and the key is
-- reported as claimed, whatever claims, queries and cleanups of any keys, all before that time,
-- and releases of other keys have come in between.
pub claim_exclusive :
    (s : MemoryDedupeService) (now later : ℕ) (key : String) (ttl ttl' : ℕ) (events : List Event)
    → (claim s now key ttl).1 ≡ true
    → later < now + max 1 ttl
    → All (Before (now + max 1 ttl) key) events
    → let s' = run (claim s now key ttl).0 events in
      (claim s' later key ttl' ≡ (s', false)) × (is_claimed s' later key ≡ (s', true))
unfolding claim is_claimed
claim_exclusive s now later key ttl ttl' events won early quiet =
    let held =
      run-IsHeldUntil (claim s now key ttl).0 events key (now + max 1 ttl) quiet
        (claim-IsHeldUntil s now key ttl won) in
    (ground arith, ground arith)

-- Events that leave the claim of a key alone, none of them after `later`.
abbrev pub Spares : ℕ → String → Event → Type 0
Spares later key (claim_event now j ttl) = j ≢ key
Spares later key (release_event j) = j ≢ key
Spares later key (query_event now j) = now ≤ later
Spares later key (cleanup_event now) = now ≤ later

-- The claim is there, or it has ended and is gone.
abbrev Lasts : ℕ → MemoryDedupeService → String → ℕ → Type 0
Lasts later s key expires =
    (Map.get key s.claims ≡ some expires) ⊎ ((Map.get key s.claims ≡ none) × (expires ≤ later))

Lasts-drop_expired :
    (now later : ℕ) (key : String) (m : Map ℕ) (expires : ℕ)
    → now ≤ later
    → (Map.get key m ≡ some expires) ⊎ ((Map.get key m ≡ none) × (expires ≤ later))
    → (Map.get key (drop_expired now m) ≡ some expires)
      ⊎ ((Map.get key (drop_expired now m) ≡ none) × (expires ≤ later))
unfolding Map.get
Lasts-drop_expired now later key [] expires h e = ground arith
Lasts-drop_expired now later key ((j, x) ∷ m) expires h e = ground (
  arith,
  eq_iff j key,
  Lasts-drop_expired now later key m expires h,
  Map.get-delete j key (drop_expired now m),
)

handle-Lasts :
    (s : MemoryDedupeService) (e : Event) (later : ℕ) (key : String) (expires : ℕ)
    → Spares later key e
    → Lasts later s key expires
    → Lasts later (handle s e) key expires
unfolding handle claim release is_claimed cleanup_expired
handle-Lasts s (claim_event now j ttl) later key expires b h =
    ground (arith, eq_iff j key, Map.get-set j key (now + max 1 ttl) s.claims)
handle-Lasts s (release_event j) later key expires b h =
    ground (arith, eq_iff j key, Map.get-delete j key s.claims)
handle-Lasts s (query_event now j) later key expires b h =
    ground (arith, eq_iff j key, Map.get-delete j key s.claims)
handle-Lasts s (cleanup_event now) later key expires b h =
    Lasts-drop_expired now later key s.claims expires b h

run-Lasts :
    (s : MemoryDedupeService) (events : List Event) (later : ℕ) (key : String) (expires : ℕ)
    → All (Spares later key) events
    → Lasts later s key expires
    → Lasts later (run s events) key expires
unfolding run
run-Lasts s [] later key expires b h = h
run-Lasts s (e ∷ events) later key expires b h =
    run-Lasts (handle s e) events later key expires b.1 (handle-Lasts s e later key expires b.0 h)

-- A claim ends on time: after a successful claim at `now`, and any events up to `later` that
-- neither claim nor release the key, the key can be claimed at `later` exactly if the time to live
-- (at least a millisecond) is over, and is reported as claimed exactly if it is not.
pub claim_expires :
    (s : MemoryDedupeService) (now later : ℕ) (key : String) (ttl ttl' : ℕ) (events : List Event)
    → (claim s now key ttl).1 ≡ true
    → All (Spares later key) events
    → let s' = run (claim s now key ttl).0 events in
      ((claim s' later key ttl').1 ≡ leb (now + max 1 ttl) later)
      × ((is_claimed s' later key).1 ≡ ltb later (now + max 1 ttl))
unfolding claim is_claimed
claim_expires s now later key ttl ttl' events won quiet =
    let lasts =
      run-Lasts (claim s now key ttl).0 events later key (now + max 1 ttl) quiet
        (inl (claim-IsHeldUntil s now key ttl won)) in
    (ground arith, ground arith)

-- ===== src/Dedupe.antt =====
-- `MemoryDedupeService` of services/orchestrator/src/queue/MemoryDedupeService.ts: claims with an
-- expiry. Times are milliseconds; `Date.now()` is an argument; a time to live is a whole number.
pub mod Exclusive
mod Tests
use ai_agent_tool.Common.{
  ℕ, ◌+◌, max, Bool, true, false, Option, none, some, List, [], ◌∷◌, String, ltb, leb,
  if◌then◌else◌,
}
use ai_agent_tool.Common.Map
use ai_agent_tool.Common.Map.{Map}

pub record MemoryDedupeService : Type 0 where
  pub claims : Map ℕ
  pub timer_running : Bool

unfoldable pub new_service : (cleanup_interval : ℕ) → MemoryDedupeService
new_service cleanup_interval = record { claims = []; timer_running = ltb 0 cleanup_interval }

-- `existing && existing.expiresAt > now`.
abbrev pub is_held : Option ℕ → ℕ → Bool
is_held none now = false
is_held (some expires_at) now = ltb now expires_at

-- The loop of `cleanupExpired` over the entries.
abbrev pub drop_expired : ℕ → Map ℕ → Map ℕ
drop_expired now [] = []
drop_expired now ((key, expires_at) ∷ m) =
    let rest = drop_expired now m in
    if leb expires_at now then Map.delete key rest else (key, expires_at) ∷ rest

unfoldable pub cleanup_expired : MemoryDedupeService → (now : ℕ) → MemoryDedupeService
cleanup_expired s now = record s { claims = drop_expired now s.claims }

unfoldable pub claim :
    MemoryDedupeService → (now : ℕ) → String → (ttl : ℕ) → MemoryDedupeService × Bool
claim s now key ttl =
    if is_held (Map.get key s.claims) now
    then (s, false)
    else (record s { claims = Map.set key (now + max 1 ttl) s.claims }, true)

unfoldable pub release : MemoryDedupeService → String → MemoryDedupeService
release s key = record s { claims = Map.delete key s.claims }

abbrev pub check_claim : MemoryDedupeService → ℕ → String → Option ℕ → MemoryDedupeService × Bool
check_claim s now key none = (s, false)
check_claim s now key (some expires_at) =
    if leb expires_at now then (record s { claims = Map.delete key s.claims }, false) else (s, true)

unfoldable pub is_claimed : MemoryDedupeService → (now : ℕ) → String → MemoryDedupeService × Bool
is_claimed s now key = check_claim s now key (Map.get key s.claims)

unfoldable pub close : MemoryDedupeService → MemoryDedupeService
close s = record { claims = []; timer_running = false }

-- What other callers, and the timer, may do meanwhile.
pub data Event : Type 0 where
  claim_event : (now : ℕ) (key : String) (ttl : ℕ) → Event
  release_event : (key : String) → Event
  query_event : (now : ℕ) (key : String) → Event
  cleanup_event : (now : ℕ) → Event

unfoldable pub handle : MemoryDedupeService → Event → MemoryDedupeService
handle s (claim_event now key ttl) = (claim s now key ttl).0
handle s (release_event key) = release s key
handle s (query_event now key) = (is_claimed s now key).0
handle s (cleanup_event now) = cleanup_expired s now

unfoldable pub run : MemoryDedupeService → List Event → MemoryDedupeService
run s [] = s
run s (e ∷ events) = run (handle s e) events

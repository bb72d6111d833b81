-- ===== src/RateLimit/Tests.antt =====
-- Runs of the limiter, and the theorems at concrete inputs.
use ai_agent_tool.Common.{
  ℕ, ltb, ◌+◌, ◌-◌, ◌≤◌, ◌≡◌, refl, none, some, List, [], ◌∷◌, String, arith, leb,
}
use ai_agent_tool.Common.Map
use ai_agent_tool.RateLimit.Store.{MemoryRateLimitStore, namespaced_key, entries, allow}
use ai_agent_tool.RateLimit.Window.{granted_in, grants, grants-le-max}
use ai_agent_tool.RateLimit.Retry.{allow_after_wait}
use ai_agent_tool.RateLimit.Exact.{check_all, granted_times, in_window, check_all-decides}
use ai_agent_tool.RateLimit.Session.{
  PerSessionRateLimiter, Environment, check, resolve_backend_from_env,
}

program : Unit {0}
unfolding allow entries namespaced_key grants check resolve_backend_from_env Map.get Map.set
program = tt

abbrev store : MemoryRateLimitStore
store = record { prefix = "rate-limit"; hits = [] }

abbrev calls : List (String × ℕ)
calls = ("a", 0) ∷ ("a", 10) ∷ ("b", 15) ∷ ("a", 20) ∷ ("a", 101) ∷ ("a", 102) ∷ []

three_granted : grants store 100 2 "a" calls ≡ 0 ∷ 10 ∷ 101 ∷ []
unfolding program
three_granted = refl

grants-le-max_example : granted_in 100 101 (grants store 100 2 "a" calls) ≤ 2
unfolding program
grants-le-max_example = grants-le-max store 100 2 "a" 0 calls 101 refl (omega arith)

abbrev full : MemoryRateLimitStore
full = record store { hits = ("rate-limit:a", 0 ∷ 10 ∷ []) ∷ [] }

allow_after_wait_example :
    (allow (allow full 20 "a" 100 2).0 90 "a" 100 2).1.allowed ≡ leb (20 + 80) 90
unfolding program
allow_after_wait_example = allow_after_wait full 20 90 "a" 100 2 80 (omega arith) (omega arith) refl

abbrev limiter : PerSessionRateLimiter
limiter = record { store = full; limit = 3; window = 100 }

abbrev env : Environment
env = record {
  backend = some "memory";
  orchestrator_redis_url = none;
  redis_url = some "redis://cache:6379";
}

abbrev checks : List (String × ℕ)
checks = ("b", 5) ∷ ("b", 10) ∷ ("c", 12) ∷ ("b", 15) ∷ []

-- Session b has used two of its three calls by then, and a third is out of the window.
abbrev small : PerSessionRateLimiter
small = record { store = store; limit = 3; window = 100 }

check_all-decides_example :
    let granted = in_window 100 108 (granted_times small "b" checks) in
    let result = (check (check_all small checks) 108 "b").1 in
    (result.allowed ≡ ltb granted 3) × (result.remaining ≡ 3 - (granted + 1))
unfolding program
check_all-decides_example = check_all-decides small "b" 0 checks 108 refl (omega arith)

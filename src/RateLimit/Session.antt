-- ===== src/RateLimit/Session.antt =====
-- `PerSessionRateLimiter` of services/orchestrator/src/services/RateLimiter.ts over the memory
-- store, and the choice of a backend from the environment. `toLowerCase` is a parameter.
use ai_agent_tool.Common.{
  ℕ, ◌-◌, Bool, false, not, ◌&&◌, ◌||◌, Option, none, some, String, str_eq, if◌then◌else◌,
}
use ai_agent_tool.RateLimit.Store
use ai_agent_tool.RateLimit.Store.{
  MemoryRateLimitStore, RateLimitDecision, Wait, recent, entries, allow,
}

pub record RateLimitResult : Type 0 where
  pub allowed : Bool
  pub remaining : ℕ
  pub limit : ℕ
  pub window : ℕ
  pub retry_after : Option Wait

pub record PerSessionRateLimiter : Type 0 where
  pub store : MemoryRateLimitStore
  pub limit : ℕ
  pub window : ℕ

-- `a ?? b`.
abbrev or_else {ℓ} : {A : Type ℓ} → Option A → A → A
or_else none b = b
or_else (some a) b = a

to_result : PerSessionRateLimiter → RateLimitDecision → RateLimitResult
to_result l d = record {
  allowed = d.allowed;
  remaining = or_else d.remaining (if d.allowed then l.limit - 1 else 0);
  limit = or_else d.limit l.limit;
  window = or_else d.window l.window;
  retry_after = d.retry_after;
}

unfoldable pub check :
    PerSessionRateLimiter → (now : ℕ) → String → PerSessionRateLimiter × RateLimitResult
unfolding to_result
check l now session =
    let (store', decision) = allow l.store now session l.window l.limit in
    (record l { store = store' }, to_result l decision)

unfoldable pub reset : PerSessionRateLimiter → Option String → PerSessionRateLimiter
reset l session = record l { store = Store.reset l.store session }

pub data BackendConfig : Type 0 where
  memory : BackendConfig
  redis : String → BackendConfig

pub record Environment : Type 0 where
  pub backend : Option String
  pub orchestrator_redis_url : Option String
  pub redis_url : Option String

-- `!!text`: an absent or empty text is falsy.
abbrev is_truthy : Option String → Bool
is_truthy none = false
is_truthy (some s) = not (str_eq s "")

abbrev pub is_text : Option String → String → Bool
is_text none t = false
is_text (some s) t = str_eq s t

abbrev pub first_defined : Option String → Option String → Option String
first_defined none b = b
first_defined (some a) b = some a

-- `wantsRedis && redisUrl ? { provider: "redis", redisUrl } : { provider: "memory" }`.
abbrev pub backend_at : Bool → Option String → BackendConfig
backend_at wants_redis none = memory
backend_at wants_redis (some u) = if wants_redis && not (str_eq u "") then redis u else memory

module _ (to_lower_case : String → String) where
  abbrev pub provider_of : Environment → Option String
  provider_of env = elim env.backend [ none ↦ none | some s ↦ some (to_lower_case s) ]

  unfoldable pub resolve_backend_from_env : Environment → BackendConfig
  resolve_backend_from_env env =
      let provider = provider_of env in
      let url = first_defined env.orchestrator_redis_url env.redis_url in
      let wants_redis =
        is_text provider "redis" || (is_truthy url && not (is_text provider "memory")) in
      if wants_redis && not (is_truthy url) then memory else backend_at wants_redis url

-- ===== src/RateLimit.antt =====
-- The sliding-window rate limiter: `MemoryRateLimitStore` of
-- services/orchestrator/src/rateLimit/store.ts, and the per-session wrapper of
-- services/orchestrator/src/services/RateLimiter.ts.
pub mod Store
pub mod Window
pub mod Retry
pub mod Session
pub mod Exact
mod Tests

-- ===== src/Breaker/Slow.antt =====
-- An action that takes long: `execute` dates the opening by the time at which the call began.
use ai_agent_tool.Common.{ℕ, ◌+◌, ◌≤◌, ◌≡◌, String, arith}
use ai_agent_tool.Common.Map
use ai_agent_tool.Breaker.{CircuitBreaker, threshold, begin, settle, settled, admitted, failure}
use ai_agent_tool.Breaker.Invariant.{IsSound}

-- When an action fails `resetTimeoutMs` or more after its call began, the failure never makes the
-- breaker turn a call away: whatever sound state the failure finds, the next call of the key, at
-- any time from then on, is admitted and runs its action.
pub begin-settle_slow :
    (b : CircuitBreaker) (key message : String) (ref started now : ℕ)
    → IsSound (threshold b) (b.heap ref)
    → started + b.reset_timeout ≤ now
    → (begin (settle b key ref started (failure message)) now key).1 ≡ admitted ref now
unfolding begin settle settled
begin-settle_slow b key message ref started now sound late =
    ground (arith, Map.get-set_self key ref b.states)

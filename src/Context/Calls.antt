-- ===== src/Context/Calls.antt =====
-- Runs of calls of the shared context of services/orchestrator/src/agents/AgentCommunication.ts.
use ai_agent_tool.Common.{ℕ, Option, List, [], ◌∷◌, String}
use ai_agent_tool.Context.{
  ContextScope, SharedContext, set_value, get_value, delete_value, share, cleanup_expired, shutdown,
}

pub data ContextCall (V : Type 0) : Type 0 where
  set_call :
      (now : ℕ) (key : String) (value : V) (owner_id : String) (scope : ContextScope)
      (ttl : Option ℕ)
      → ContextCall V
  get_call : (now : ℕ) (key requester_id : String) → ContextCall V
  delete_call : (key requester_id : String) → ContextCall V
  share_call : (now : ℕ) (key owner_id : String) (agents : List String) → ContextCall V
  cleanup_call : (now : ℕ) → ContextCall V
  shutdown_call : ContextCall V

module _ {V : Type 0} where
  unfoldable pub handle : SharedContext V → ContextCall V → SharedContext V
  handle c (set_call now key value owner_id scope ttl) =
      (set_value c now key value owner_id scope ttl).0
  handle c (get_call now key requester_id) = (get_value c now key requester_id).0
  handle c (delete_call key requester_id) = (delete_value c key requester_id).0
  handle c (share_call now key owner_id agents) = (share c now key owner_id agents).0
  handle c (cleanup_call now) = cleanup_expired c now
  handle c shutdown_call = shutdown c

  unfoldable pub run : SharedContext V → List (ContextCall V) → SharedContext V
  run c [] = c
  run c (call ∷ calls) = run (handle c call) calls

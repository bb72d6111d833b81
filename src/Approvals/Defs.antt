-- ===== src/Approvals/Defs.antt =====
-- The data of services/orchestrator/src/approvals/ApprovalManager.ts.
use ai_agent_tool.Common.{
  ℕ, Bool, true, false, not, Option, none, some, List, [], String, if◌then◌else◌, str_eq, contains,
  filter,
}
use ai_agent_tool.Common.Map
use ai_agent_tool.Common.Map.{Map}

pub data ApprovalStatus : Type 0 where
  pending approved denied expired cancelled : ApprovalStatus

abbrev pub is_pending : ApprovalStatus → Bool
is_pending pending = true
is_pending _ = false

pub record ApprovalRequest : Type 0 where
  pub id : String
  pub operation : String
  pub reason : String
  pub details : String
  pub requester_id : Option String
  pub tenant_id : Option String
  pub status : ApprovalStatus
  pub created_at : ℕ
  pub expires_at : Option ℕ
  pub resolved_at : Option ℕ
  pub resolved_by : Option String
  pub resolution_comment : Option String
  pub metadata : Option String

pub record BatchApprovalRequest : Type 0 where
  pub batch_id : String
  pub request_ids : List String
  pub description : String
  pub created_at : ℕ

pub record ApprovalConfig : Type 0 where
  pub default_timeout : ℕ
  pub max_pending_per_tenant : ℕ
  pub auto_deny_on_timeout : Bool
  pub enable_batch_approvals : Bool
  pub audit_enabled : Bool

-- What a promise came to: `resolve(true)`, `resolve(false)` or `reject`.
pub data Answer : Type 0 where
  granted refused timed_out : Answer

pub record ApprovalManager : Type 0 where
  pub requests : Map ApprovalRequest
  pub batches : Map BatchApprovalRequest
  pub config : ApprovalConfig
  pub listeners : List String
  pub timers : List String
  pub promises : Map Answer

-- The defaults of the constructor.
abbrev pub default_config : ApprovalConfig
default_config = record {
  default_timeout = 300000;
  max_pending_per_tenant = 100;
  auto_deny_on_timeout = true;
  enable_batch_approvals = true;
  audit_enabled = true;
}

unfoldable pub new_manager : ApprovalConfig → ApprovalManager
new_manager config = record {
  requests = [];
  batches = [];
  config = config;
  listeners = [];
  timers = [];
  promises = [];
}

abbrev pub without : String → List String → List String
without id = filter (λ j. not (str_eq j id))

-- Only the first `resolve` or `reject` of a promise counts.
abbrev pub settle_once : String → Answer → Option Answer → Map Answer → Map Answer
settle_once id answer none promises = Map.set id answer promises
settle_once id answer (some _) promises = promises

-- `emit("approved" | "denied" | "cancelled" | "expired", { request })`: the listener of the
-- request takes the listeners off, clears the timer and resolves.
unfoldable pub emit : ApprovalManager → String → Answer → ApprovalManager
emit m id answer =
    if contains id m.listeners
    then record m {
      listeners = without id m.listeners;
      timers = without id m.timers;
      promises = settle_once id answer (Map.get id m.promises) m.promises;
    }
    else m

abbrev pub put_request : ApprovalManager → ApprovalRequest → ApprovalManager
put_request m r = record m { requests = Map.set r.id r m.requests }

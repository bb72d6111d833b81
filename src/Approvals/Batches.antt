-- ===== src/Approvals/Batches.antt =====
-- `createBatch`, `approveBatch` and `denyBatch` of
-- services/orchestrator/src/approvals/ApprovalManager.ts, and runs of the manager.
use ai_agent_tool.Common.{ℕ, suc, Option, none, some, List, [], ◌∷◌, String, if◌then◌else◌, map}
use ai_agent_tool.Common.Map
use ai_agent_tool.Approvals.Defs.{pending, ApprovalRequest, BatchApprovalRequest, ApprovalManager}
use ai_agent_tool.Approvals.Requests.{
  RequestOptions, request_approval, approve, deny, cancel, fire_timeout, cleanup_expired, shutdown,
}

-- One item of a batch, with the id that `uuidv4` gives it.
pub record BatchItem : Type 0 where
  pub id : String
  pub operation : String
  pub reason : String
  pub details : String

abbrev pub batch_request :
    ℕ → (requester_id tenant_id : Option String) → BatchItem → ApprovalRequest
batch_request now requester_id tenant_id item = record {
  id = item.id;
  operation = item.operation;
  reason = item.reason;
  details = item.details;
  requester_id = requester_id;
  tenant_id = tenant_id;
  status = pending;
  created_at = now;
  expires_at = none;
  resolved_at = none;
  resolved_by = none;
  resolution_comment = none;
  metadata = none;
}

unfoldable pub add_requests : ApprovalManager → List ApprovalRequest → ApprovalManager
add_requests m [] = m
add_requests m (r ∷ rs) = add_requests (record m { requests = Map.set r.id r m.requests }) rs

-- `none`: "Batch approvals are disabled" is thrown.
unfoldable pub create_batch :
    ApprovalManager
    → (now : ℕ) (batch_id : String) → List BatchItem
    → (description : String) (requester_id tenant_id : Option String) → Option ApprovalManager
create_batch m now batch_id items description requester_id tenant_id =
    if m.config.enable_batch_approvals
    then (let added = add_requests m (map (batch_request now requester_id tenant_id) items) in
        some (record added {
          batches =
              Map.set batch_id
                (record {
                  batch_id = batch_id;
                  request_ids = map (λ i. i.id) items;
                  description = description;
                  created_at = now;
                })
                m.batches;
        }))
    else none

-- The loops of `approveBatch` and `denyBatch`: the manager, and how many calls succeeded.
unfoldable pub approve_each :
    ApprovalManager → (now : ℕ) → List String → (by comment : Option String) → ApprovalManager × ℕ
approve_each m now [] by comment = (m, 0)
approve_each m now (id ∷ ids) by comment =
    let (m', done) = approve m now id by comment in
    let (m'', n) = approve_each m' now ids by comment in (m'', if done then suc n else n)

unfoldable pub deny_each :
    ApprovalManager → (now : ℕ) → List String → (by comment : Option String) → ApprovalManager × ℕ
deny_each m now [] by comment = (m, 0)
deny_each m now (id ∷ ids) by comment =
    let (m', done) = deny m now id by comment in
    let (m'', n) = deny_each m' now ids by comment in (m'', if done then suc n else n)

abbrev pub ids_of : Option BatchApprovalRequest → List String
ids_of none = []
ids_of (some b) = b.request_ids

unfoldable pub approve_batch :
    ApprovalManager → (now : ℕ) → String → (by comment : Option String) → ApprovalManager × ℕ
approve_batch m now batch_id by comment =
    approve_each m now (ids_of (Map.get batch_id m.batches)) by comment

unfoldable pub deny_batch :
    ApprovalManager → (now : ℕ) → String → (by comment : Option String) → ApprovalManager × ℕ
deny_batch m now batch_id by comment =
    deny_each m now (ids_of (Map.get batch_id m.batches)) by comment

-- What can happen to a manager.
pub data Event : Type 0 where
  request_event :
      (now : ℕ) (id operation reason details : String) (options : RequestOptions) → Event
  approve_event : (now : ℕ) (id : String) (by comment : Option String) → Event
  deny_event : (now : ℕ) (id : String) (by comment : Option String) → Event
  cancel_event : (now : ℕ) (id : String) → Event
  timeout_event : (now : ℕ) (id : String) → Event
  cleanup_event : (now : ℕ) → Event
  batch_event :
      (now : ℕ) (batch_id : String) (items : List BatchItem) (description : String)
      (requester_id tenant_id : Option String)
      → Event
  approve_batch_event : (now : ℕ) (batch_id : String) (by comment : Option String) → Event
  deny_batch_event : (now : ℕ) (batch_id : String) (by comment : Option String) → Event
  shutdown_event : Event

-- A call that throws leaves the manager as it is.
abbrev pub or_same : ApprovalManager → Option ApprovalManager → ApprovalManager
or_same m none = m
or_same m (some m') = m'

unfoldable pub handle : ApprovalManager → Event → ApprovalManager
handle m (request_event now id operation reason details options) =
    or_same m (request_approval m now id operation reason details options)
handle m (approve_event now id by comment) = (approve m now id by comment).0
handle m (deny_event now id by comment) = (deny m now id by comment).0
handle m (cancel_event now id) = (cancel m now id).0
handle m (timeout_event now id) = fire_timeout m now id
handle m (cleanup_event now) = cleanup_expired m now
handle m (batch_event now batch_id items description requester_id tenant_id) =
    or_same m (create_batch m now batch_id items description requester_id tenant_id)
handle m (approve_batch_event now batch_id by comment) = (approve_batch m now batch_id by comment).0
handle m (deny_batch_event now batch_id by comment) = (deny_batch m now batch_id by comment).0
handle m shutdown_event = shutdown m

unfoldable pub run : ApprovalManager → List Event → ApprovalManager
run m [] = m
run m (e ∷ events) = run (handle m e) events

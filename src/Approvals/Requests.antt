-- ===== src/Approvals/Requests.antt =====
-- `requestApproval`, `approve`, `deny`, `cancel`, the timeout, the clean-up and the queries of
-- services/orchestrator/src/approvals/ApprovalManager.ts.
use ai_agent_tool.Common.{
  ℕ, ◌+◌, ◌-◌, Bool, true, false, not, ◌&&◌, ◌||◌, Option, none, some, List, [], ◌∷◌, String, ltb,
  ◌==◌, if◌then◌else◌, str_eq, filter, length, map, contains,
}
use ai_agent_tool.Common.Map
use ai_agent_tool.Common.Map.{Map}
use ai_agent_tool.Approvals.Defs.{
  ApprovalStatus, pending, approved, denied, expired, cancelled, is_pending, ApprovalRequest,
  ApprovalConfig, ApprovalManager, granted, refused, timed_out, emit, settle_once, without,
}

-- `!tenantId || request.tenantId === tenantId`.
abbrev pub is_of_tenant : Option String → ApprovalRequest → Bool
is_of_tenant none r = true
is_of_tenant (some t) r = str_eq t "" || (elim r.tenant_id [ none ↦ false | some u ↦ str_eq u t ])

unfoldable pub get_pending_requests : ApprovalManager → Option String → List ApprovalRequest
get_pending_requests m tenant =
    filter (λ r. is_pending r.status && is_of_tenant tenant r) (Map.values m.requests)

-- `maxPendingPerTenant || 100`.
abbrev pub pending_limit : ApprovalConfig → ℕ
pending_limit config =
    if config.max_pending_per_tenant == 0 then 100 else config.max_pending_per_tenant

unfoldable pub check_tenant_limit : ApprovalManager → String → Bool
check_tenant_limit m tenant =
    ltb (length (get_pending_requests m (some tenant))) (pending_limit m.config)

pub record RequestOptions : Type 0 where
  pub requester_id : Option String
  pub tenant_id : Option String
  pub timeout : Option ℕ
  pub metadata : Option String

-- `options?.tenantId && !this.checkTenantLimit(options.tenantId)`.
abbrev pub is_over_limit : ApprovalManager → Option String → Bool
is_over_limit m none = false
is_over_limit m (some t) = not (str_eq t "") && not (check_tenant_limit m t)

-- `none`: "Too many pending approval requests" is thrown.
unfoldable pub request_approval :
    ApprovalManager
    → (now : ℕ) (id operation reason details : String) → RequestOptions
    → Option ApprovalManager
request_approval m now id operation reason details options =
    let timeout : ℕ = elim options.timeout [ none ↦ m.config.default_timeout | some t ↦ t ] in
    if is_over_limit m options.tenant_id
    then none
    else some (record m {
      requests =
          Map.set id
            (record {
              id = id;
              operation = operation;
              reason = reason;
              details = details;
              requester_id = options.requester_id;
              tenant_id = options.tenant_id;
              status = pending;
              created_at = now;
              expires_at = some (now + timeout);
              resolved_at = none;
              resolved_by = none;
              resolution_comment = none;
              metadata = options.metadata;
            })
            m.requests;
      listeners = id ∷ m.listeners;
      timers = id ∷ m.timers;
    })

-- What `approve`, `deny` and `cancel` do with the request that they found.
abbrev pub when_pending :
    ApprovalManager
    → Option ApprovalRequest
    → (ApprovalRequest → ApprovalManager)
    → ApprovalManager × Bool
when_pending m none act = (m, false)
when_pending m (some r) act = if is_pending r.status then (act r, true) else (m, false)

module _ (m : ApprovalManager) (now : ℕ) (id : String) where
  unfoldable pub approve : (approved_by comment : Option String) → ApprovalManager × Bool
  approve approved_by comment = when_pending m (Map.get id m.requests) λ r.
      emit
        (record m {
          requests =
              Map.set id
                (record r {
                  status = approved;
                  resolved_at = some now;
                  resolved_by = approved_by;
                  resolution_comment = comment;
                })
                m.requests;
        })
        id granted

  unfoldable pub deny : (denied_by comment : Option String) → ApprovalManager × Bool
  deny denied_by comment = when_pending m (Map.get id m.requests) λ r.
      emit
        (record m {
          requests =
              Map.set id
                (record r {
                  status = denied;
                  resolved_at = some now;
                  resolved_by = denied_by;
                  resolution_comment = comment;
                })
                m.requests;
        })
        id refused

  unfoldable pub cancel : ApprovalManager × Bool
  cancel = when_pending m (Map.get id m.requests) λ r.
      emit
        (record m {
          requests =
              Map.set id (record r { status = cancelled; resolved_at = some now }) m.requests;
        })
        id refused

  -- The callback of `setTimeout`.
  unfoldable pub time_out : ApprovalManager
  time_out =
      let fired = record m { timers = without id m.timers } in
      (when_pending fired (Map.get id m.requests) λ r.
        if m.config.auto_deny_on_timeout
        then emit
            (record fired {
              requests =
                  Map.set id
                    (record r {
                      status = expired;
                      resolved_at = some now;
                      resolution_comment = some "Approval request timed out";
                    })
                    m.requests;
            })
            id refused
        else record fired {
          promises = settle_once id timed_out (Map.get id m.promises) m.promises;
        }).0

  -- It runs if the timer is armed.
  unfoldable pub fire_timeout : ApprovalManager
  fire_timeout = if contains id m.timers then time_out else m

-- `request.expiresAt && request.expiresAt < now`, and `resolvedAt` more than an hour ago.
abbrev pub is_overdue : ℕ → ApprovalRequest → Bool
is_overdue now r = is_pending r.status && (elim r.expires_at [ none ↦ false | some t ↦ ltb t now ])

abbrev pub is_old : ℕ → ApprovalRequest → Bool
is_old now r = elim r.resolved_at [ none ↦ false | some t ↦ ltb 3600000 (now - t) ]

-- One round of the loop of `cleanupExpired`; a request that expires now is not old.
abbrev pub clean_request : ApprovalManager → ℕ → String → Option ApprovalRequest → ApprovalManager
clean_request m now id none = m
clean_request m now id (some r) =
    if is_overdue now r
    then (if m.config.auto_deny_on_timeout
        then emit
            (record m {
              requests =
                  Map.set id (record r { status = expired; resolved_at = some now }) m.requests;
            })
            id refused
        else if is_old now r
        then record m { requests = Map.delete id m.requests }
        else m)
    else if is_old now r
    then record m { requests = Map.delete id m.requests }
    else m

unfoldable pub clean_all : ApprovalManager → ℕ → List String → ApprovalManager
clean_all m now [] = m
clean_all m now (id ∷ ids) = clean_all (clean_request m now id (Map.get id m.requests)) now ids

unfoldable pub cleanup_expired : ApprovalManager → (now : ℕ) → ApprovalManager
cleanup_expired m now = clean_all m now (map (λ e. e.0) m.requests)

unfoldable pub shutdown : ApprovalManager → ApprovalManager
shutdown m = record m { requests = []; batches = [] }

pub record Stats : Type 0 where
  pub pending_count : ℕ
  pub approved_count : ℕ
  pub denied_count : ℕ
  pub expired_count : ℕ
  pub cancelled_count : ℕ

abbrev pub count_status : Stats → ApprovalStatus → Stats
count_status s pending = record s { pending_count = s.pending_count + 1 }
count_status s approved = record s { approved_count = s.approved_count + 1 }
count_status s denied = record s { denied_count = s.denied_count + 1 }
count_status s expired = record s { expired_count = s.expired_count + 1 }
count_status s cancelled = record s { cancelled_count = s.cancelled_count + 1 }

unfoldable pub stats_loop : Option String → Stats → List ApprovalRequest → Stats
stats_loop tenant s [] = s
stats_loop tenant s (r ∷ rs) =
    stats_loop tenant (if is_of_tenant tenant r then count_status s r.status else s) rs

unfoldable pub get_stats : ApprovalManager → Option String → Stats
unfolding stats_loop
get_stats m tenant =
    stats_loop tenant
      (record {
        pending_count = 0;
        approved_count = 0;
        denied_count = 0;
        expired_count = 0;
        cancelled_count = 0;
      })
      (Map.values m.requests)

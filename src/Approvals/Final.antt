-- ===== src/Approvals/Final.antt =====
-- What can become of a request.
use ai_agent_tool.Common.{
  ℕ, ◌≡◌, ◌≢◌, refl, ◌∙◌, true, false, Option, none, some, List, [], ◌∷◌, String, arith, str_eq,
  if◌then◌else◌, inl, inr, Option-cases, Bool-cases, eq_iff, contains, All, map,
}
use ai_agent_tool.Common.Map
use ai_agent_tool.Common.Map.{Map}
use ai_agent_tool.Approvals.Defs.{
  is_pending, ApprovalRequest, ApprovalManager, Answer, granted, refused, emit,
}
use ai_agent_tool.Approvals.Requests.{
  request_approval, is_over_limit, when_pending, approve, deny, cancel, time_out, fire_timeout,
  clean_request, clean_all, cleanup_expired, shutdown, is_overdue, is_old,
}
use ai_agent_tool.Approvals.Batches.{
  BatchItem, batch_request, add_requests, create_batch, approve_each, deny_each, approve_batch,
  deny_batch, ids_of, Event, request_event, approve_event, deny_event, cancel_event, timeout_event,
  cleanup_event, batch_event, approve_batch_event, deny_batch_event, shutdown_event, or_same,
  handle, run,
}

pub emit-requests :
    (m : ApprovalManager) (id : String) (a : Answer) → (emit m id a).requests ≡ m.requests
unfolding emit
emit-requests m id a = ground arith

-- A request stays what it was asked for, and does not change once it is resolved; it may be
-- removed, and an id that is not there does not appear.
pub record Keeps (r r' : ApprovalRequest) : Type 0 where
  pub final : is_pending r.status ≡ false → r' ≡ r
  pub same_id : r'.id ≡ r.id
  pub same_operation : r'.operation ≡ r.operation
  pub same_details : r'.details ≡ r.details
  pub same_tenant : r'.tenant_id ≡ r.tenant_id
  pub same_created : r'.created_at ≡ r.created_at

abbrev pub Fate : ApprovalRequest → Option ApprovalRequest → Type 0
Fate r none = Unit
Fate r (some r') = Keeps r r'

abbrev pub Evolves : Option ApprovalRequest → Option ApprovalRequest → Type 0
Evolves none o = o ≡ none
Evolves (some r) o = Fate r o

Evolves-refl : (o : Option ApprovalRequest) → Evolves o o
Evolves-refl none = refl
Evolves-refl (some r) = record {
  final = λ h. refl;
  same_id = refl;
  same_operation = refl;
  same_details = refl;
  same_tenant = refl;
  same_created = refl;
}

Keeps-trans : {r s t : ApprovalRequest} → Keeps r s → Keeps s t → Keeps r t
Keeps-trans h k = record {
  final = λ p. let e = h.final p in k.final (rw e p) ∙ e;
  same_id = k.same_id ∙ h.same_id;
  same_operation = k.same_operation ∙ h.same_operation;
  same_details = k.same_details ∙ h.same_details;
  same_tenant = k.same_tenant ∙ h.same_tenant;
  same_created = k.same_created ∙ h.same_created;
}

Evolves-trans : (o p q : Option ApprovalRequest) → Evolves o p → Evolves p q → Evolves o q
Evolves-trans none p q h k = rw h at k
Evolves-trans (some r) none none h k = tt
Evolves-trans (some r) none (some t) h k = cc
Evolves-trans (some r) (some s) none h k = tt
Evolves-trans (some r) (some s) (some t) h k = Keeps-trans h k

-- All requests of one manager against those of another, at one id.
abbrev Moves : String → ApprovalManager → ApprovalManager → Type 0
Moves j m m' = Evolves (Map.get j m.requests) (Map.get j m'.requests)

-- Writing back a request that was found, and removing one.
Evolves-set :
    (j id : String) (r r' : ApprovalRequest) (requests : Map ApprovalRequest)
    → Map.get id requests ≡ some r
    → Keeps r r'
    → Evolves (Map.get j requests) (Map.get j (Map.set id r' requests))
Evolves-set j id r r' requests e k =
    rw (Map.get-set id j r' requests) (elim (Bool-cases (str_eq id j)) [
      | inl same ↦ rw (same, ← (eq_iff id j).0 same, e) k
      | inr differ ↦ rw differ (Evolves-refl (Map.get j requests))
    ])

Evolves-delete :
    (j id : String) (requests : Map ApprovalRequest)
    → Evolves (Map.get j requests) (Map.get j (Map.delete id requests))
Evolves-delete j id requests = rw (Map.get-delete id j requests) (elim (Bool-cases (str_eq id j)) [
  | inl same ↦ rw same (elim (Option-cases (Map.get j requests)) [
    | inl absent ↦ rw absent refl
    | inr (r, found) ↦ rw found tt
  ])
  | inr differ ↦ rw differ (Evolves-refl (Map.get j requests))
])

module _ (j : String) (m : ApprovalManager) where
  emit-Moves :
      (id : String) (r r' : ApprovalRequest) (b : ApprovalManager) (a : Answer)
      → Map.get id m.requests ≡ some r
      → Keeps r r'
      → b.requests ≡ Map.set id r' m.requests
      → Moves j m (emit b id a)
  emit-Moves id r r' b a e k w = rw (emit-requests b id a, w) (Evolves-set j id r r' m.requests e k)

  when_pending-Moves :
      (id : String) (b : ApprovalManager) (act : ApprovalRequest → ApprovalManager)
      → b.requests ≡ m.requests
      → ((r : ApprovalRequest)
          → Map.get id m.requests ≡ some r
          → is_pending r.status ≡ true
          → Moves j m (act r))
      → Moves j m (when_pending b (Map.get id m.requests) act).0
  when_pending-Moves id b act same h = elim (Option-cases (Map.get id m.requests)) [
    | inl absent ↦ rw (absent, when_pending, same) (Evolves-refl (Map.get j m.requests))
    | inr (r, found) ↦ elim (Bool-cases (is_pending r.status)) [
      | inl open_ ↦ rw (found, when_pending, open_) (h r found open_)
      | inr done ↦ rw (found, when_pending, done, same) (Evolves-refl (Map.get j m.requests))
    ]
  ]

  approve-Moves :
      (now : ℕ) (id : String) (by comment : Option String)
      → Moves j m (approve m now id by comment).0
  unfolding approve
  approve-Moves now id by comment =
      when_pending-Moves id m _ refl
        λ r found open_. emit-Moves id r _ _ granted found (ground arith) refl

  deny-Moves :
      (now : ℕ) (id : String) (by comment : Option String) → Moves j m (deny m now id by comment).0
  unfolding deny
  deny-Moves now id by comment =
      when_pending-Moves id m _ refl
        λ r found open_. emit-Moves id r _ _ refused found (ground arith) refl

  cancel-Moves : (now : ℕ) (id : String) → Moves j m (cancel m now id).0
  unfolding cancel
  cancel-Moves now id =
      when_pending-Moves id m _ refl
        λ r found open_. emit-Moves id r _ _ refused found (ground arith) refl

  time_out-Moves : (now : ℕ) (id : String) → Moves j m (time_out m now id)
  unfolding time_out
  time_out-Moves now id = when_pending-Moves id _ _ refl λ r found open_.
      elim (Bool-cases m.config.auto_deny_on_timeout) [
        | inl auto ↦ rw auto (emit-Moves id r _ _ refused found (ground arith) refl)
        | inr manual ↦ rw manual (Evolves-refl (Map.get j m.requests))
      ]

  fire_timeout-Moves : (now : ℕ) (id : String) → Moves j m (fire_timeout m now id)
  unfolding fire_timeout
  fire_timeout-Moves now id = elim (Bool-cases (contains id m.timers)) [
    | inl armed ↦ rw armed (time_out-Moves now id)
    | inr idle ↦ rw idle (Evolves-refl (Map.get j m.requests))
  ]

  remove_old-Moves :
      (now : ℕ) (id : String) (r : ApprovalRequest)
      → Moves j m (if is_old now r then record m { requests = Map.delete id m.requests } else m)
  remove_old-Moves now id r = elim (Bool-cases (is_old now r)) [
    | inl old ↦ rw old (Evolves-delete j id m.requests)
    | inr young ↦ rw young (Evolves-refl (Map.get j m.requests))
  ]

  clean_request-Moves :
      (now : ℕ) (id : String) → Moves j m (clean_request m now id (Map.get id m.requests))
  clean_request-Moves now id = elim (Option-cases (Map.get id m.requests)) [
    | inl absent ↦ rw (absent, clean_request) (Evolves-refl (Map.get j m.requests))
    | inr (r, found) ↦
        rw (found, clean_request)
          (elim (Bool-cases (is_overdue now r)) [
            | inl overdue ↦ rw overdue (elim (Bool-cases m.config.auto_deny_on_timeout) [
              | inl auto ↦ rw auto (emit-Moves id r _ _ refused found (ground arith) refl)
              | inr manual ↦ simp manual (remove_old-Moves now id r)
            ])
            | inr due ↦ rw due (remove_old-Moves now id r)
          ])
  ]

clean_all-Moves :
    (j : String) (m : ApprovalManager) (now : ℕ) (ids : List String)
    → Moves j m (clean_all m now ids)
unfolding clean_all
clean_all-Moves j m now [] = Evolves-refl (Map.get j m.requests)
clean_all-Moves j m now (id ∷ ids) =
    let m' = clean_request m now id (Map.get id m.requests) in
    Evolves-trans (Map.get j m.requests) (Map.get j m'.requests)
      (Map.get j (clean_all m' now ids).requests) (clean_request-Moves j m now id)
      (clean_all-Moves j m' now ids)

approve_each-Moves :
    (j : String) (m : ApprovalManager) (now : ℕ) (ids : List String) (by comment : Option String)
    → Moves j m (approve_each m now ids by comment).0
unfolding approve_each
approve_each-Moves j m now [] by comment = Evolves-refl (Map.get j m.requests)
approve_each-Moves j m now (id ∷ ids) by comment =
    let m' = (approve m now id by comment).0 in
    Evolves-trans (Map.get j m.requests) (Map.get j m'.requests)
      (Map.get j (approve_each m' now ids by comment).0.requests)
      (approve-Moves j m now id by comment) (approve_each-Moves j m' now ids by comment)

deny_each-Moves :
    (j : String) (m : ApprovalManager) (now : ℕ) (ids : List String) (by comment : Option String)
    → Moves j m (deny_each m now ids by comment).0
unfolding deny_each
deny_each-Moves j m now [] by comment = Evolves-refl (Map.get j m.requests)
deny_each-Moves j m now (id ∷ ids) by comment =
    let m' = (deny m now id by comment).0 in
    Evolves-trans (Map.get j m.requests) (Map.get j m'.requests)
      (Map.get j (deny_each m' now ids by comment).0.requests) (deny-Moves j m now id by comment)
      (deny_each-Moves j m' now ids by comment)

-- New requests, under other ids.
get-add_requests :
    (j : String) (m : ApprovalManager) (rs : List ApprovalRequest)
    → All (λ r. r.id ≢ j) rs
    → Map.get j (add_requests m rs).requests ≡ Map.get j m.requests
unfolding add_requests
get-add_requests j m [] h = refl
get-add_requests j m (r ∷ rs) h = ground (
  arith,
  eq_iff r.id j,
  get-add_requests j (record m { requests = Map.set r.id r m.requests }) rs h.1,
  Map.get-set r.id j r m.requests,
)

All-batch_request :
    (j : String) (now : ℕ) (requester tenant : Option String) (items : List BatchItem)
    → All (λ i. i.id ≢ j) items
    → All (λ r. r.id ≢ j) (map (batch_request now requester tenant) items)
All-batch_request j now requester tenant [] h = tt
All-batch_request j now requester tenant (i ∷ items) h =
    (h.0, All-batch_request j now requester tenant items h.1)

-- The ids of `uuidv4` do not come twice: no event makes a request under the id `j` again.
abbrev pub IsNewTo : String → Event → Type 0
IsNewTo j (request_event now id operation reason details options) = id ≢ j
IsNewTo j (batch_event now batch_id items description requester tenant) = All (λ i. i.id ≢ j) items
IsNewTo j _ = Unit

handle-Moves : (j : String) (m : ApprovalManager) (e : Event) → IsNewTo j e → Moves j m (handle m e)
unfolding handle request_approval create_batch approve_batch deny_batch cleanup_expired shutdown
    Map.get
handle-Moves j m (request_event now id operation reason details options) h =
    elim (Bool-cases (is_over_limit m options.tenant_id)) [
      | inl over ↦ rw (over, or_same) (Evolves-refl (Map.get j m.requests))
      | inr free ↦
          rw (free, or_same, Map.get-set_ne id j _ m.requests (ground (arith, eq_iff id j)))
            (Evolves-refl (Map.get j m.requests))
    ]
handle-Moves j m (approve_event now id by comment) h = approve-Moves j m now id by comment
handle-Moves j m (deny_event now id by comment) h = deny-Moves j m now id by comment
handle-Moves j m (cancel_event now id) h = cancel-Moves j m now id
handle-Moves j m (timeout_event now id) h = fire_timeout-Moves j m now id
handle-Moves j m (cleanup_event now) h = clean_all-Moves j m now (map (λ e. e.0) m.requests)
handle-Moves j m (batch_event now batch_id items description requester tenant) h =
    elim (Bool-cases m.config.enable_batch_approvals) [
      | inr off ↦ rw (off, or_same) (Evolves-refl (Map.get j m.requests))
      | inl enabled ↦
          simp
            (
              enabled,
              or_same,
              get-add_requests j m _ (All-batch_request j now requester tenant items h),
            )
            (Evolves-refl (Map.get j m.requests))
    ]
handle-Moves j m (approve_batch_event now batch_id by comment) h =
    approve_each-Moves j m now (ids_of (Map.get batch_id m.batches)) by comment
handle-Moves j m (deny_batch_event now batch_id by comment) h =
    deny_each-Moves j m now (ids_of (Map.get batch_id m.batches)) by comment
handle-Moves j m shutdown_event h = elim (Option-cases (Map.get j m.requests)) [
  | inl absent ↦ rw absent refl
  | inr (r, found) ↦ rw found tt
]

-- A decision is final: take a manager and any run of events, none of which makes a request under
-- the id `j` (ids are new each time). If the manager has no request `j`, there is none afterwards.
-- If it has one, then afterwards there is none, or one with the same id, operation, details,
-- tenant and time of creation; and one that was already resolved is unchanged in every field.
pub run-Evolves :
    (j : String) (m : ApprovalManager) (events : List Event)
    → All (IsNewTo j) events
    → Evolves (Map.get j m.requests) (Map.get j (run m events).requests)
unfolding run
run-Evolves j m [] h = Evolves-refl (Map.get j m.requests)
run-Evolves j m (e ∷ events) h =
    Evolves-trans (Map.get j m.requests) (Map.get j (handle m e).requests)
      (Map.get j (run (handle m e) events).requests) (handle-Moves j m e h.0)
      (run-Evolves j (handle m e) events h.1)

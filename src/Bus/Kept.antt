-- ===== src/Bus/Kept.antt =====
-- Sending and delivery in services/orchestrator/src/agents/AgentCommunication.ts keep the queues of the
-- message bus sorted and not too long.
use ai_agent_tool.Common.{
  ℕ, ◌+◌, ◌<◌, ◌≡◌, ◌⊎◌, inl, inr, not, Option, none, some, List, [], ◌∷◌, String, if◌then◌else◌,
  arith, ltb, leb, length, filter, map, any, str_eq, if-cases,
}
use ai_agent_tool.Common.Map
use ai_agent_tool.Common.Map.{Map}
use ai_agent_tool.Common.Text.{is_empty}
use ai_agent_tool.Common.Keys.{AllEntries, IfFound, get-AllEntries, set-AllEntries}
use ai_agent_tool.Bus.{
  request, response, error, broadcast, high, Recipients, to_one, to_many, to_nobody, result,
  failure, Message, Envelope, BusError, queue_full, no_recipient, Settlement, resolved, rejected,
  MessageBus, same_type, types_of, insert_by_priority, expiry, send_found, send_to_one,
  send_to_multiple, then_send, send_to_each, broadcast_message, send_to, send,
}
use ai_agent_tool.Bus.Delivery.{
  Answer, answers, throws, Delivered, goes_on, aborts, remove_ref, set_retries, change_queue,
  remove_envelope, settle_found, settle, reply, settle_sent, reply_found, send_response,
  send_error_response, fail_envelope, catch_response, respond, deliver_answered, deliver_envelope,
}
use ai_agent_tool.Bus.Queues.{IsOrderly, insert-IsOrderly, remove-IsOrderly, retries-IsOrderly}

module _ {V : Type 0} (n : ℕ) where
  unfoldable pub IsOrderlyAt : String → List (Envelope V) → Type 0
  IsOrderlyAt agent q = IsOrderly n q

  -- Every queue is sorted and no longer than n, the limit.
  abbrev pub AreOrderly : MessageBus V → Type 0
  AreOrderly b = AllEntries IsOrderlyAt b.queues × (b.max_queue_size ≡ n)

  abbrev pub AreOrderlyAfter : {A : Type 0} → MessageBus V × A → Type 0
  AreOrderlyAfter p = AreOrderly p.0

  found-AreOrderly :
      (b : MessageBus V) (now : ℕ) (m : Message V) (agent : String) (o : Option (List (Envelope V)))
      → IfFound (IsOrderly n) o
      → AreOrderly b
      → AreOrderlyAfter (send_found b now m agent o)
  unfolding send_found IsOrderlyAt
  found-AreOrderly b now m agent none f h = h
  found-AreOrderly b now m agent (some q) f h =
      let e : Envelope V = record {
        ref = b.next_ref;
        message = m;
        expires_at = expiry now b.default_ttl m.ttl;
        retries = 0;
      } in
      if-cases AreOrderlyAfter (leb b.max_queue_size (length q))
        (record b { messages_failed = b.messages_failed + 1 }, inl queue_full)
        (
          record b {
            queues = Map.set agent (insert_by_priority e q) b.queues;
            next_ref = b.next_ref + 1;
          },
          inr m.id,
        )
        (λ c. h)
        (λ c.
          let room : length q < n = ground (arith, c, h.1) in
          (
            set-AllEntries IsOrderlyAt b.queues agent (insert_by_priority e q)
                (insert-IsOrderly n e q f room) h.0,
            h.1,
          ))

  one-AreOrderly :
      (b : MessageBus V) (now : ℕ) (m : Message V) (agent : String)
      → AreOrderly b
      → AreOrderlyAfter (send_to_one b now m agent)
  unfolding send_to_one IsOrderlyAt
  one-AreOrderly b now m agent h =
      found-AreOrderly b now (record m { recipients = to_one agent }) agent (Map.get agent b.queues)
        (get-AllEntries IsOrderlyAt b.queues agent h.0) h

  multiple-AreOrderly :
      (b : MessageBus V) (now : ℕ) (m : Message V) (agents : List String)
      → AreOrderly b
      → AreOrderlyAfter (send_to_multiple b now m agents)
  unfolding send_to_multiple
  multiple-AreOrderly b now m [] h = h
  multiple-AreOrderly b now m (a ∷ agents) h =
      multiple-AreOrderly (send_to_one b now m a).0 now m agents (one-AreOrderly b now m a h)

  then-AreOrderly :
      (go : MessageBus V → MessageBus V × (BusError ⊎ String))
      → ((b : MessageBus V) → AreOrderly b → AreOrderlyAfter (go b))
      → (p : MessageBus V × (BusError ⊎ String)) → AreOrderlyAfter p
      → AreOrderlyAfter (then_send go p)
  then-AreOrderly go f (b, inl e) h = h
  then-AreOrderly go f (b, inr id) h = f b h

  each-AreOrderly :
      (b : MessageBus V) (now : ℕ) (m : Message V) (agents : List String)
      → AreOrderly b
      → AreOrderlyAfter (send_to_each b now m agents)
  unfolding send_to_each
  each-AreOrderly b now m [] h = h
  each-AreOrderly b now m (a ∷ agents) h =
      then-AreOrderly (λ b'. send_to_each b' now m agents)
        (λ b' h'. each-AreOrderly b' now m agents h') (send_to_one b now m a)
        (one-AreOrderly b now m a h)

  to-AreOrderly :
      (b : MessageBus V) (now : ℕ) (m : Message V) (to : Recipients)
      → AreOrderly b
      → AreOrderlyAfter (send_to b now m to)
  unfolding send_to
  to-AreOrderly b now m (to_many agents) h = multiple-AreOrderly b now m agents h
  to-AreOrderly b now m to_nobody h = h
  to-AreOrderly b now m (to_one agent) h =
      if-cases AreOrderlyAfter (is_empty agent) (b, inl no_recipient) (send_to_one b now m agent)
        (λ c. h) (λ c. one-AreOrderly b now m agent h)

  pub send-AreOrderly :
      (b : MessageBus V) (now : ℕ) (id : String) (draft : Message V)
      → AreOrderly b
      → AreOrderlyAfter (send b now id draft)
  unfolding send broadcast_message
  send-AreOrderly b now id draft h =
      let m = record draft { id = id; timestamp = now } in
      let b' = record b { messages_sent = b.messages_sent + 1 } in
      if-cases AreOrderlyAfter (same_type m.kind broadcast) (broadcast_message b' now m)
        (send_to b' now m m.recipients)
        (λ c.
          each-AreOrderly b' now m
            (filter (λ a. not (str_eq a m.sender)) (map (λ x. x.0) b'.queues)) h)
        (λ c. to-AreOrderly b' now m m.recipients h)

  changed :
      (b : MessageBus V) (agent : String) (f : List (Envelope V) → List (Envelope V))
      → ((q : List (Envelope V)) → IsOrderly n q → IsOrderly n (f q))
      → (o : Option (List (Envelope V))) → IfFound (IsOrderlyAt agent) o
      → AreOrderly b
      → AreOrderly (change_queue b agent f o)
  unfolding IsOrderlyAt
  changed b agent f g none s h = h
  changed b agent f g (some q) s h =
      (set-AllEntries IsOrderlyAt b.queues agent (f q) (g q s) h.0, h.1)

  settled :
      (b : MessageBus V) (id : String) (s : Settlement V) (o : Option ℕ)
      → AreOrderly b
      → AreOrderly (settle_found b id s o)
  settled b id s none h = h
  settled b id s (some t) h = h

  change-AreOrderly :
      (b : MessageBus V) (agent : String) (f : List (Envelope V) → List (Envelope V))
      → ((q : List (Envelope V)) → IsOrderly n q → IsOrderly n (f q))
      → AreOrderly b
      → AreOrderly (change_queue b agent f (Map.get agent b.queues))
  change-AreOrderly b agent f g h =
      changed b agent f g (Map.get agent b.queues) (get-AllEntries IsOrderlyAt b.queues agent h.0) h

  pub settle-AreOrderly :
      (b : MessageBus V) (id : String) (s : Settlement V)
      → AreOrderly b
      → AreOrderly (settle b id s)
  unfolding settle
  settle-AreOrderly b id s h = settled b id s (Map.get id b.pending_requests) h

  sent-AreOrderly :
      (correlation : String) (s : Settlement V) (p : MessageBus V × (BusError ⊎ String))
      → AreOrderlyAfter p
      → AreOrderlyAfter (settle_sent correlation s p)
  sent-AreOrderly correlation s (b, inl e) h = h
  sent-AreOrderly correlation s (b, inr id) h = settle-AreOrderly b correlation s h

  reply-AreOrderly :
      (b : MessageBus V) (now : ℕ) (id : String) (m : Message V) (s : Settlement V)
      (o : Option String)
      → AreOrderly b
      → AreOrderlyAfter (reply_found b now id m s o)
  reply-AreOrderly b now id m s none h = h
  reply-AreOrderly b now id m s (some correlation) h =
      if-cases AreOrderlyAfter (is_empty correlation) (b, goes_on)
        (settle_sent correlation s (send b now id m)) (λ c. h)
        (λ c. sent-AreOrderly correlation s (send b now id m) (send-AreOrderly b now id m h))

  fail-AreOrderly :
      (b : MessageBus V) (now : ℕ) (id agent : String) (e : Envelope V) (message : String)
      → AreOrderly b
      → AreOrderlyAfter (fail_envelope b now id agent e message)
  unfolding fail_envelope send_error_response
  fail-AreOrderly b now id agent e message h =
      let b₁ = remove_envelope (record b { messages_failed = b.messages_failed + 1 }) agent e.ref in
      let h₁ =
        change-AreOrderly (record b { messages_failed = b.messages_failed + 1 }) agent
          (λ q. remove_ref e.ref q) (λ q g. remove-IsOrderly n e.ref q g) h in
      if-cases AreOrderlyAfter (ltb b.max_retries (e.retries + 1))
        (if same_type e.message.kind request
          then send_error_response b₁ now id e.message message
          else (b₁, goes_on))
        (
          change_queue b agent (λ q. set_retries e.ref (e.retries + 1) q) (Map.get agent b.queues),
          goes_on,
        )
        (λ c.
          if-cases AreOrderlyAfter (same_type e.message.kind request)
            (send_error_response b₁ now id e.message message) (b₁, goes_on)
            (λ d.
              reply-AreOrderly b₁ now id (reply e.message error (failure message) high)
                (rejected message) e.message.correlation_id h₁)
            (λ d. h₁))
        (λ c.
          change-AreOrderly b agent (λ q. set_retries e.ref (e.retries + 1) q)
            (λ q g. retries-IsOrderly n e.ref (e.retries + 1) q g) h)

  catch-AreOrderly :
      (now : ℕ) (id agent : String) (e : Envelope V) (message : String)
      (p : MessageBus V × Delivered)
      → AreOrderlyAfter p
      → AreOrderlyAfter (catch_response now id agent e message p)
  catch-AreOrderly now id agent e message (b, goes_on) h = h
  catch-AreOrderly now id agent e message (b, aborts) h = fail-AreOrderly b now id agent e message h

  respond-AreOrderly :
      (b : MessageBus V) (now : ℕ) (id agent : String) (e : Envelope V) (message : String)
      (o : Option V)
      → AreOrderly b
      → AreOrderlyAfter (respond b now id agent e message o)
  unfolding send_response
  respond-AreOrderly b now id agent e message none h = h
  respond-AreOrderly b now id agent e message (some value) h =
      if-cases AreOrderlyAfter (same_type e.message.kind request)
        (catch_response now id agent e message (send_response b now id e.message value))
        (b, goes_on)
        (λ c. catch-AreOrderly now id agent e message (send_response b now id e.message value) (
          reply-AreOrderly b now id (reply e.message response (result value) e.message.priority)
            (resolved value) e.message.correlation_id h))
        (λ c. h)

  answered-AreOrderly :
      (b : MessageBus V) (now : ℕ) (id agent : String) (e : Envelope V) (message : String)
      (a : Answer V)
      → AreOrderly b
      → AreOrderlyAfter (deliver_answered b now id agent e message a)
  answered-AreOrderly b now id agent e message (throws reason) h =
      fail-AreOrderly b now id agent e reason h
  answered-AreOrderly b now id agent e message (answers value) h =
      let b' = record b { messages_delivered = b.messages_delivered + 1 } in
      respond-AreOrderly (remove_envelope b' agent e.ref) now id agent e message value (
        change-AreOrderly b' agent (λ q. remove_ref e.ref q) (λ q g. remove-IsOrderly n e.ref q g)
          h)

  pub deliver-AreOrderly :
      (b : MessageBus V) (now : ℕ) (id agent : String) (e : Envelope V) (message : String)
      (a : Answer V)
      → AreOrderly b
      → AreOrderlyAfter (deliver_envelope b now id agent e message a)
  unfolding deliver_envelope
  deliver-AreOrderly b now id agent e message a h =
      if-cases AreOrderlyAfter
        (any (λ t. same_type e.message.kind t) (types_of (Map.get agent b.handlers)))
        (deliver_answered b now id agent e message a) (b, goes_on)
        (λ c. answered-AreOrderly b now id agent e message a h) (λ c. h)

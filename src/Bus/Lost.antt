-- ===== src/Bus/Lost.antt =====
-- Requests of agents that are not registered, in services/orchestrator/src/agents/AgentCommunication.ts.
use ai_agent_tool.Common.{
  ℕ, ◌+◌, ◌≡◌, ◌⊎◌, inl, inr, refl, sym, subst, false, Option, none, some, List, String,
  if◌then◌else◌, arith, eq_iff, ltb, any, if-cases,
}
use ai_agent_tool.Common.Map
use ai_agent_tool.Common.Map.{Map}
use ai_agent_tool.Common.Text.{is_empty}
use ai_agent_tool.Bus.{
  MessageType, MessagePriority, broadcast, broadcast_message, request, response, error, high,
  to_one, MessagePayload, result, failure, Message, Envelope, BusError, not_registered,
  no_recipient, Settlement, resolved, rejected, MessageBus, same_type, types_of, send_found,
  send_to_one, send_to, send,
}
use ai_agent_tool.Bus.Delivery.{
  Answer, answers, throws, Delivered, goes_on, aborts, remove_ref, set_retries, change_queue,
  remove_envelope, reply, settle_sent, reply_found, send_response, send_error_response,
  fail_envelope, catch_response, respond, deliver_answered, deliver_envelope,
}

module _ {V : Type 0} (b₀ : MessageBus V) (e : Envelope V) where
  -- No request is settled, and the sender is still not registered.
  abbrev pub IsUnanswered : MessageBus V → Type 0
  IsUnanswered b =
      (b.settled ≡ b₀.settled)
      × (b.pending_requests ≡ b₀.pending_requests)
      × (Map.get e.message.sender b.queues ≡ none)

  abbrev IsUnansweredAfter : {A : Type 0} → MessageBus V × A → Type 0
  IsUnansweredAfter p = IsUnanswered p.0

  changed :
      (b : MessageBus V) (agent : String) (f : List (Envelope V) → List (Envelope V))
      (o : Option (List (Envelope V)))
      → Map.get agent b.queues ≡ o
      → IsUnanswered b
      → IsUnanswered (change_queue b agent f o)
  changed b agent f none found h = h
  changed b agent f (some q) found (s, p, g) = (
    s,
    p,
    ground (
      arith,
      Map.get-set agent e.message.sender (f q) b.queues,
      eq_iff agent e.message.sender,
      found,
      g,
    ),
  )

  -- A reply to the sender is an error.
  IsRefused : MessageBus V × (BusError ⊎ String) → Type 0
  IsRefused p = IsUnanswered p.0 × ((x : BusError) × (p.1 ≡ inl x))

  found-IsRefused :
      (b : MessageBus V) (now : ℕ) (m : Message V) (o : Option (List (Envelope V)))
      → o ≡ none
      → IsUnanswered b
      → IsRefused (send_found b now m e.message.sender o)
  unfolding IsRefused send_found
  found-IsRefused b now m none n h = (h, (not_registered, refl))
  found-IsRefused b now m (some q) n h = ground (arith, n)

  to-IsRefused :
      (b : MessageBus V) (now : ℕ) (m : Message V)
      → IsUnanswered b
      → IsRefused (send_to b now m (to_one e.message.sender))
  unfolding send_to send_to_one IsRefused
  to-IsRefused b now m h =
      if-cases IsRefused (is_empty e.message.sender) (b, inl no_recipient)
        (send_to_one b now m e.message.sender) (λ c. (h, (no_recipient, refl)))
        (λ c.
          found-IsRefused b now (record m { recipients = to_one e.message.sender })
            (Map.get e.message.sender b.queues) h.2 h)

  send-IsRefused :
      (b : MessageBus V) (now : ℕ) (id : String) (m : Message V)
      → same_type m.kind broadcast ≡ false
      → m.recipients ≡ to_one e.message.sender
      → IsUnanswered b
      → IsRefused (send b now id m)
  unfolding send
  send-IsRefused b now id m k r h =
      let b' = record b { messages_sent = b.messages_sent + 1 } in
      let m' = record m { id = id; timestamp = now } in
      subst
        (λ c. IsRefused (if c then broadcast_message b' now m' else send_to b' now m' m.recipients))
        (sym k) (subst (λ to. IsRefused (send_to b' now m' to)) (sym r) (to-IsRefused b' now m' h))

  sent-IsUnanswered :
      (correlation : String) (s : Settlement V) (p : MessageBus V × (BusError ⊎ String))
      → IsRefused p
      → IsUnansweredAfter (settle_sent correlation s p)
  unfolding IsRefused
  sent-IsUnanswered correlation s (b, inl x) r = r.0
  sent-IsUnanswered correlation s (b, inr id) (u, (x, n)) = ground (arith, n)

  reply-IsUnanswered :
      (b : MessageBus V) (now : ℕ) (id : String) (kind : MessageType) (payload : MessagePayload V)
      (priority : MessagePriority) (s : Settlement V)
      → same_type kind broadcast ≡ false
      → (o : Option String) → IsUnanswered b
      → IsUnansweredAfter (reply_found b now id (reply e.message kind payload priority) s o)
  reply-IsUnanswered b now id kind payload priority s k none h = h
  reply-IsUnanswered b now id kind payload priority s k (some correlation) h =
      let m = reply e.message kind payload priority in
      if-cases IsUnansweredAfter (is_empty correlation) (b, goes_on)
        (settle_sent correlation s (send b now id m)) (λ c. h)
        (λ c.
          sent-IsUnanswered correlation s (send b now id m) (send-IsRefused b now id m k refl h))

  fail-IsUnanswered :
      (b : MessageBus V) (now : ℕ) (id agent message : String)
      → IsUnanswered b
      → IsUnansweredAfter (fail_envelope b now id agent e message)
  unfolding fail_envelope send_error_response
  fail-IsUnanswered b now id agent message h =
      let b' = record b { messages_failed = b.messages_failed + 1 } in
      let b₁ = remove_envelope b' agent e.ref in
      let h₁ = changed b' agent (λ q. remove_ref e.ref q) (Map.get agent b.queues) refl h in
      if-cases IsUnansweredAfter (ltb b.max_retries (e.retries + 1))
        (if same_type e.message.kind request
          then send_error_response b₁ now id e.message message
          else (b₁, goes_on))
        (
          change_queue b agent (λ q. set_retries e.ref (e.retries + 1) q) (Map.get agent b.queues),
          goes_on,
        )
        (λ c.
          if-cases IsUnansweredAfter (same_type e.message.kind request)
            (send_error_response b₁ now id e.message message) (b₁, goes_on)
            (λ d.
              reply-IsUnanswered b₁ now id error (failure message) high (rejected message) refl
                e.message.correlation_id h₁)
            (λ d. h₁))
        (λ c.
          changed b agent (λ q. set_retries e.ref (e.retries + 1) q) (Map.get agent b.queues) refl
            h)

  catch-IsUnanswered :
      (now : ℕ) (id agent message : String) (p : MessageBus V × Delivered)
      → IsUnansweredAfter p
      → IsUnansweredAfter (catch_response now id agent e message p)
  catch-IsUnanswered now id agent message (b, goes_on) h = h
  catch-IsUnanswered now id agent message (b, aborts) h = fail-IsUnanswered b now id agent message h

  respond-IsUnanswered :
      (b : MessageBus V) (now : ℕ) (id agent message : String) (o : Option V)
      → IsUnanswered b
      → IsUnansweredAfter (respond b now id agent e message o)
  unfolding send_response
  respond-IsUnanswered b now id agent message none h = h
  respond-IsUnanswered b now id agent message (some value) h =
      if-cases IsUnansweredAfter (same_type e.message.kind request)
        (catch_response now id agent e message (send_response b now id e.message value))
        (b, goes_on)
        (λ c. catch-IsUnanswered now id agent message (send_response b now id e.message value) (
          reply-IsUnanswered b now id response (result value) e.message.priority (resolved value)
            refl e.message.correlation_id h))
        (λ c. h)

  answered-IsUnanswered :
      (b : MessageBus V) (now : ℕ) (id agent message : String) (a : Answer V)
      → IsUnanswered b
      → IsUnansweredAfter (deliver_answered b now id agent e message a)
  answered-IsUnanswered b now id agent message (throws reason) h =
      fail-IsUnanswered b now id agent reason h
  answered-IsUnanswered b now id agent message (answers value) h =
      let b' = record b { messages_delivered = b.messages_delivered + 1 } in
      respond-IsUnanswered (remove_envelope b' agent e.ref) now id agent message value
        (changed b' agent (λ q. remove_ref e.ref q) (Map.get agent b.queues) refl h)

-- An agent that is not registered gets no answer. Where the sender of an envelope's message has no
-- queue, a delivery of the envelope settles no request and takes none off those that wait, whatever
-- the handler answers; so the sender's request waits for its timeout.
pub deliver-IsUnanswered :
    {V : Type 0} (b : MessageBus V) (now : ℕ) (id agent message : String) (e : Envelope V)
    (a : Answer V)
    → Map.get e.message.sender b.queues ≡ none
    → IsUnanswered b e (deliver_envelope b now id agent e message a).0
unfolding deliver_envelope
deliver-IsUnanswered b now id agent message e a n =
    if-cases (IsUnansweredAfter b e)
      (any (λ t. same_type e.message.kind t) (types_of (Map.get agent b.handlers)))
      (deliver_answered b now id agent e message a) (b, goes_on)
      (λ c. answered-IsUnanswered b e b now id agent message a (refl, refl, n))
      (λ c. (refl, refl, n))

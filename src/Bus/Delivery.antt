-- ===== src/Bus/Delivery.antt =====
-- The delivery of messages, and requests, of services/orchestrator/src/agents/AgentCommunication.ts.
use ai_agent_tool.Common.{
  ℕ, ◌+◌, ◌⊎◌, inl, inr, Bool, not, Option, none, some, List, [], ◌∷◌, String, if◌then◌else◌, ltb,
  leb, ◌==◌, length, map, filter, any,
}
use ai_agent_tool.Common.Map
use ai_agent_tool.Common.Map.{Map}
use ai_agent_tool.Common.Text.{is_empty}
use ai_agent_tool.Bus.{
  MessageType, request, response, error, MessagePriority, normal, high, Recipients, to_one, to_many,
  to_nobody, MessagePayload, result, failure, Message, Envelope, BusError, Settlement, resolved,
  rejected, MessageBus, same_type, types_of, send,
}

-- What a handler does: it answers, perhaps nothing, or it throws.
pub data Answer (V : Type 0) : Type 0 where
  answers : (value : Option V) → Answer V
  throws : (message : String) → Answer V

-- Whether the delivery goes on to the next envelope.
pub data Delivered : Type 0 where
  goes_on aborts : Delivered

abbrev pub sender_of : Recipients → String
sender_of (to_one agent) = agent
sender_of (to_many agents) = ""
sender_of to_nobody = ""

module _ {V : Type 0} where
  -- `splice` at the envelope's index, if there is one.
  unfoldable pub remove_ref : (ref : ℕ) → List (Envelope V) → List (Envelope V)
  remove_ref ref [] = []
  remove_ref ref (x ∷ xs) = let rest = remove_ref ref xs in if x.ref == ref then xs else x ∷ rest

  unfoldable pub set_retries : (ref retries : ℕ) → List (Envelope V) → List (Envelope V)
  set_retries ref retries [] = []
  set_retries ref retries (x ∷ xs) =
      let rest = set_retries ref retries xs in
      (if x.ref == ref then record x { retries = retries } else x) ∷ rest

  abbrev pub change_queue :
      MessageBus V
      → String
      → (List (Envelope V) → List (Envelope V))
      → Option (List (Envelope V))
      → MessageBus V
  change_queue b agent f none = b
  change_queue b agent f (some q) = record b { queues = Map.set agent (f q) b.queues }

  abbrev pub remove_envelope : MessageBus V → String → ℕ → MessageBus V
  remove_envelope b agent ref =
      change_queue b agent (λ q. remove_ref ref q) (Map.get agent b.queues)

  -- The promise of a request is settled, if it still waits.
  abbrev pub settle_found : MessageBus V → String → Settlement V → Option ℕ → MessageBus V
  settle_found b id s none = b
  settle_found b id s (some timeout) = record b {
    pending_requests = Map.delete id b.pending_requests;
    settled = (id, s) ∷ b.settled;
  }

  unfoldable pub settle : MessageBus V → (correlation_id : String) → Settlement V → MessageBus V
  settle b id s = settle_found b id s (Map.get id b.pending_requests)

  abbrev pub reply : Message V → MessageType → MessagePayload V → MessagePriority → Message V
  reply m kind payload priority = record {
    id = "";
    kind = kind;
    sender = sender_of m.recipients;
    recipients = to_one m.sender;
    payload = payload;
    priority = priority;
    correlation_id = m.correlation_id;
    timestamp = 0;
    ttl = none;
  }

  abbrev pub settle_sent :
      String → Settlement V → MessageBus V × (BusError ⊎ String) → MessageBus V × Delivered
  settle_sent correlation s (b, inl e) = (b, aborts)
  settle_sent correlation s (b, inr id) = (settle b correlation s, goes_on)

  abbrev pub reply_found :
      MessageBus V
      → ℕ
      → String
      → Message V
      → Settlement V
      → Option String
      → MessageBus V × Delivered
  reply_found b now id m s none = (b, goes_on)
  reply_found b now id m s (some correlation) =
      if is_empty correlation then (b, goes_on) else settle_sent correlation s (send b now id m)

  -- `sendResponse`; it aborts where the response cannot be sent.
  unfoldable pub send_response :
      MessageBus V → (now : ℕ) (id : String) → Message V → (value : V) → MessageBus V × Delivered
  send_response b now id m value =
      reply_found b now id (reply m response (result value) m.priority) (resolved value)
        m.correlation_id

  unfoldable pub send_error_response :
      MessageBus V
      → (now : ℕ) (id : String) → Message V
      → (message : String) → MessageBus V × Delivered
  send_error_response b now id m message =
      reply_found b now id (reply m error (failure message) high) (rejected message)
        m.correlation_id

  -- The `catch` of `performDelivery`.
  unfoldable pub fail_envelope :
      MessageBus V
      → (now : ℕ) (id : String) (agent_id : String) → Envelope V
      → (message : String) → MessageBus V × Delivered
  fail_envelope b now id agent_id e message =
      if ltb b.max_retries (e.retries + 1)
      then (let b' =
            remove_envelope (record b { messages_failed = b.messages_failed + 1 }) agent_id e.ref in
          if same_type e.message.kind request
          then send_error_response b' now id e.message message
          else (b', goes_on))
      else (
        change_queue b agent_id (λ q. set_retries e.ref (e.retries + 1) q)
            (Map.get agent_id b.queues),
        goes_on,
      )

  -- An error of the response is caught.
  abbrev pub catch_response :
      ℕ
      → String
      → String
      → Envelope V
      → String
      → MessageBus V × Delivered
      → MessageBus V × Delivered
  catch_response now id agent e message (b, goes_on) = (b, goes_on)
  catch_response now id agent e message (b, aborts) = fail_envelope b now id agent e message

  abbrev pub respond :
      MessageBus V → ℕ → String → String → Envelope V → String → Option V → MessageBus V × Delivered
  respond b now id agent e message none = (b, goes_on)
  respond b now id agent e message (some value) =
      if same_type e.message.kind request
      then catch_response now id agent e message (send_response b now id e.message value)
      else (b, goes_on)

  abbrev pub deliver_answered :
      MessageBus V → ℕ → String → String → Envelope V → String → Answer V → MessageBus V × Delivered
  deliver_answered b now id agent e message (throws reason) = fail_envelope b now id agent e reason
  deliver_answered b now id agent e message (answers value) =
      let b' = record b { messages_delivered = b.messages_delivered + 1 } in
      respond (remove_envelope b' agent e.ref) now id agent e message value

  -- One round of the loop of `performDelivery`. The text of an error that `send` throws is `message`,
  -- and `id` is the id of the reply.
  unfoldable pub deliver_envelope :
      MessageBus V
      → (now : ℕ) (id : String) (agent_id : String) → Envelope V
      → (message : String) → Answer V
      → MessageBus V × Delivered
  deliver_envelope b now id agent_id e message answer =
      if any (λ t. same_type e.message.kind t) (types_of (Map.get agent_id b.handlers))
      then deliver_answered b now id agent_id e message answer
      else (b, goes_on)

  -- The envelopes that `performDelivery` takes.
  abbrev pub to_deliver : ℕ → List (Envelope V) → List (Envelope V)
  to_deliver now q = filter (λ e. ltb now e.expires_at) q

  -- `request`, up to its promise; `correlation` and `id` are its new ids.
  unfoldable pub make_request :
      MessageBus V
      → (now : ℕ) (correlation id : String) (sender recipient : String) → MessagePayload V
      → (timeout : ℕ) → MessageBus V × (BusError ⊎ String)
  make_request b now correlation id sender recipient payload timeout =
      send (record b { pending_requests = Map.set correlation timeout b.pending_requests }) now id
        (record {
          id = "";
          kind = request;
          sender = sender;
          recipients = to_one recipient;
          payload = payload;
          priority = normal;
          correlation_id = some correlation;
          timestamp = 0;
          ttl = none;
        })

  -- The timeout of a request.
  unfoldable pub fire_timeout :
      MessageBus V → (correlation : String) (reason : String) → MessageBus V
  unfolding settle
  fire_timeout b correlation reason = settle b correlation (rejected reason)

  abbrev pub is_expired : ℕ → Envelope V → Bool
  is_expired now e = leb e.expires_at now

  abbrev pub count_all : List (List (Envelope V)) → ℕ
  count_all [] = 0
  count_all (q ∷ qs) = length q + count_all qs

  unfoldable pub cleanup_expired_messages : MessageBus V → (now : ℕ) → MessageBus V
  cleanup_expired_messages b now = record b {
    queues = map (λ x. (x.0, filter (λ e. not (is_expired now e)) x.1)) b.queues;
    messages_expired =
        b.messages_expired + count_all (map (λ x. filter (λ e. is_expired now e) x.1) b.queues);
  }

  abbrev pub reject_all :
      List (String × ℕ) → List (String × Settlement V) → List (String × Settlement V)
  reject_all [] settled = settled
  reject_all ((id, t) ∷ l) settled =
      reject_all l ((id, rejected "Message bus shutting down") ∷ settled)

  unfoldable pub shutdown : MessageBus V → MessageBus V
  shutdown b = record b { pending_requests = []; settled = reject_all b.pending_requests b.settled }

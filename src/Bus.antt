-- ===== src/Bus.antt =====
-- `MessageBus` of services/orchestrator/src/agents/AgentCommunication.ts: the queues of agents, by
-- priority, the delivery of messages, and requests. What a payload and a result are is a parameter.
-- An envelope is an object: its `ref` tells it from all others. A handler is called by the delivery of
-- one envelope, and its answer is an argument; other calls may stand between two deliveries.
use ai_agent_tool.Common.{
  ℕ, zero, suc, ◌+◌, ◌⊎◌, inl, inr, Bool, true, false, not, ◌&&◌, ◌||◌, Option, none, some, List,
  [], ◌∷◌, ◌++◌, String, if◌then◌else◌, ltb, leb, ◌==◌, length, map, filter, any, str_eq,
}
use ai_agent_tool.Common.Map
use ai_agent_tool.Common.Map.{Map}
use ai_agent_tool.Common.Text.{is_given, is_empty}
pub mod Delivery
pub mod Queues
pub mod Kept
pub mod Runs
pub mod Lost
mod Tests
pub mod Fifo

pub data MessageType : Type 0 where
  request response broadcast notification error : MessageType

pub data MessagePriority : Type 0 where
  low normal high urgent : MessagePriority

abbrev pub rank : MessagePriority → ℕ
rank low = 0
rank normal = 1
rank high = 2
rank urgent = 3

pub data Recipients : Type 0 where
  to_one : (agent : String) → Recipients
  to_many : (agents : List String) → Recipients
  to_nobody : Recipients

pub data MessagePayload (V : Type 0) : Type 0 where
  plain : (data_ : V) → MessagePayload V
  result : (value : V) → MessagePayload V
  failure : (message : String) → MessagePayload V

pub record Message (V : Type 0) : Type 0 where
  pub id : String
  pub kind : MessageType
  pub sender : String
  pub recipients : Recipients
  pub payload : MessagePayload V
  pub priority : MessagePriority
  pub correlation_id : Option String
  pub timestamp : ℕ
  pub ttl : Option ℕ

pub record Envelope (V : Type 0) : Type 0 where
  pub ref : ℕ
  pub message : Message V
  pub expires_at : ℕ
  pub retries : ℕ

pub data BusError : Type 0 where
  not_registered queue_full no_recipient : BusError

-- What becomes of the promise of a request.
pub data Settlement (V : Type 0) : Type 0 where
  resolved : (value : V) → Settlement V
  rejected : (reason : String) → Settlement V

pub record MessageBus (V : Type 0) : Type 0 where
  pub max_queue_size : ℕ
  pub default_ttl : ℕ
  pub max_retries : ℕ
  pub queues : Map (List (Envelope V))
  -- The types of messages that an agent has a handler for.
  pub handlers : Map (List MessageType)
  -- The requests without an answer, with their timeouts.
  pub pending_requests : Map ℕ
  -- The settled requests, the newest first.
  pub settled : List (String × Settlement V)
  pub messages_sent : ℕ
  pub messages_delivered : ℕ
  pub messages_failed : ℕ
  pub messages_expired : ℕ
  pub next_ref : ℕ

abbrev pub same_type : MessageType → MessageType → Bool
same_type request t = elim t [ request ↦ true | _ ↦ false ]
same_type response t = elim t [ response ↦ true | _ ↦ false ]
same_type broadcast t = elim t [ broadcast ↦ true | _ ↦ false ]
same_type notification t = elim t [ notification ↦ true | _ ↦ false ]
same_type error t = elim t [ error ↦ true | _ ↦ false ]

unfoldable pub new_bus : {V : Type 0} → (max_queue_size default_ttl max_retries : ℕ) → MessageBus V
new_bus max_queue_size default_ttl max_retries = record {
  max_queue_size = max_queue_size;
  default_ttl = default_ttl;
  max_retries = max_retries;
  queues = [];
  handlers = [];
  pending_requests = [];
  settled = [];
  messages_sent = 0;
  messages_delivered = 0;
  messages_failed = 0;
  messages_expired = 0;
  next_ref = 0;
}

abbrev pub types_of : Option (List MessageType) → List MessageType
types_of none = []
types_of (some l) = l

abbrev pub expiry : ℕ → ℕ → Option ℕ → ℕ
expiry now default_ttl none = now + default_ttl
expiry now default_ttl (some t) = if ltb 0 t then now + t else now + default_ttl

abbrev pub first_error : BusError ⊎ String → BusError ⊎ String → BusError ⊎ String
first_error (inl e) r = inl e
first_error (inr id) r = r

module _ {V : Type 0} where
  abbrev pub register_found : MessageBus V → String → Option (List (Envelope V)) → MessageBus V
  register_found b agent (some q) = b
  register_found b agent none = record b {
    queues = Map.set agent [] b.queues;
    handlers = Map.set agent [] b.handlers;
  }

  unfoldable pub register_agent : MessageBus V → (agent_id : String) → MessageBus V
  register_agent b agent_id = register_found b agent_id (Map.get agent_id b.queues)

  unfoldable pub unregister_agent : MessageBus V → (agent_id : String) → MessageBus V
  unregister_agent b agent_id = record b {
    queues = Map.delete agent_id b.queues;
    handlers = Map.delete agent_id b.handlers;
  }

  unfoldable pub register_first : MessageBus V → String → Option (List MessageType) → MessageBus V
  unfolding register_agent
  register_first b agent none = register_agent b agent
  register_first b agent (some l) = b

  unfoldable pub register_handler : MessageBus V → (agent_id : String) → MessageType → MessageBus V
  unfolding register_first
  register_handler b agent_id t =
      let b' = register_first b agent_id (Map.get agent_id b.handlers) in
      record b' {
        handlers = Map.set agent_id (t ∷ types_of (Map.get agent_id b'.handlers)) b'.handlers;
      }

  -- Behind the envelopes of the same priority.
  unfoldable pub insert_by_priority : Envelope V → List (Envelope V) → List (Envelope V)
  insert_by_priority e [] = e ∷ []
  insert_by_priority e (x ∷ xs) =
      let rest = insert_by_priority e xs in
      if ltb (rank x.message.priority) (rank e.message.priority) then e ∷ x ∷ xs else x ∷ rest

  unfoldable pub send_found :
      MessageBus V
      → ℕ
      → Message V
      → String
      → Option (List (Envelope V))
      → MessageBus V × (BusError ⊎ String)
  unfolding insert_by_priority
  send_found b now m agent none =
      (record b { messages_failed = b.messages_failed + 1 }, inl not_registered)
  send_found b now m agent (some q) =
      if leb b.max_queue_size (length q)
      then (record b { messages_failed = b.messages_failed + 1 }, inl queue_full)
      else (let e : Envelope V = record {
        ref = b.next_ref;
        message = m;
        expires_at = expiry now b.default_ttl m.ttl;
        retries = 0;
      } in
          (
            record b {
              queues = Map.set agent (insert_by_priority e q) b.queues;
              next_ref = b.next_ref + 1;
            },
            inr m.id,
          ))

  unfoldable pub send_to_one :
      MessageBus V
      → (now : ℕ) → Message V
      → (recipient : String) → MessageBus V × (BusError ⊎ String)
  unfolding send_found
  send_to_one b now m recipient =
      send_found b now (record m { recipients = to_one recipient }) recipient
        (Map.get recipient b.queues)

  -- All are sent to; the first error is the result.
  unfoldable pub send_to_multiple :
      MessageBus V
      → (now : ℕ) → Message V
      → (recipients : List String) → MessageBus V × (BusError ⊎ String)
  send_to_multiple b now m [] = (b, inr m.id)
  send_to_multiple b now m (a ∷ agents) =
      let p = send_to_one b now m a in
      let p' = send_to_multiple p.0 now m agents in (p'.0, first_error p.1 p'.1)

  abbrev pub then_send :
      (MessageBus V → MessageBus V × (BusError ⊎ String))
      → MessageBus V × (BusError ⊎ String)
      → MessageBus V × (BusError ⊎ String)
  then_send go (b, inl e) = (b, inl e)
  then_send go (b, inr id) = go b

  -- One after another, up to the first error.
  unfoldable pub send_to_each :
      MessageBus V → (now : ℕ) → Message V → List String → MessageBus V × (BusError ⊎ String)
  send_to_each b now m [] = (b, inr m.id)
  send_to_each b now m (a ∷ agents) =
      then_send (λ b'. send_to_each b' now m agents) (send_to_one b now m a)

  unfoldable pub broadcast_message :
      MessageBus V → ℕ → Message V → MessageBus V × (BusError ⊎ String)
  unfolding send_to_each
  broadcast_message b now m =
      send_to_each b now m (filter (λ a. not (str_eq a m.sender)) (map (λ x. x.0) b.queues))

  unfoldable pub send_to :
      MessageBus V → ℕ → Message V → Recipients → MessageBus V × (BusError ⊎ String)
  unfolding send_to_one send_to_multiple
  send_to b now m (to_many agents) = send_to_multiple b now m agents
  send_to b now m (to_one agent) =
      if is_empty agent then (b, inl no_recipient) else send_to_one b now m agent
  send_to b now m to_nobody = (b, inl no_recipient)

  -- The message's id and time are set here.
  unfoldable pub send :
      MessageBus V → (now : ℕ) (id : String) → Message V → MessageBus V × (BusError ⊎ String)
  unfolding broadcast_message send_to
  send b now id draft =
      let m = record draft { id = id; timestamp = now } in
      let b' = record b { messages_sent = b.messages_sent + 1 } in
      if same_type m.kind broadcast
      then broadcast_message b' now m
      else send_to b' now m m.recipients

  abbrev pub get_queue_size : MessageBus V → String → ℕ
  get_queue_size b agent = elim (Map.get agent b.queues) [ none ↦ 0 | some q ↦ length q ]

  abbrev pub get_registered_agents : MessageBus V → List String
  get_registered_agents b = map (λ x. x.0) b.queues

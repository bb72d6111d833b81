-- ===== src/Bus/Runs.antt =====
-- Runs of the message bus of services/orchestrator/src/agents/AgentCommunication.ts.
use ai_agent_tool.Common.{
  ℕ, ◌≡◌, refl, subst, not, Option, none, some, List, [], ◌∷◌, String, arith, filter, map,
}
use ai_agent_tool.Common.Map
use ai_agent_tool.Common.Map.{Map}
use ai_agent_tool.Common.Keys.{
  AllEntries, IfFound, get-AllEntries, set-AllEntries, delete-AllEntries,
}
use ai_agent_tool.Bus.{
  MessageType, MessagePayload, Message, Envelope, rejected, MessageBus, new_bus, register_found,
  register_agent, unregister_agent, register_first, register_handler, send,
}
use ai_agent_tool.Bus.Delivery.{
  Answer, deliver_envelope, make_request, fire_timeout, is_expired, cleanup_expired_messages,
  shutdown,
}
use ai_agent_tool.Bus.Queues.{IsOrderly, filter-IsOrderly}
use ai_agent_tool.Bus.Kept.{
  IsOrderlyAt, AreOrderly, send-AreOrderly, settle-AreOrderly, deliver-AreOrderly,
}

-- What happens to a bus; an envelope is delivered when its handler has answered.
pub data BusEvent (V : Type 0) : Type 0 where
  registration deregistration : (agent_id : String) → BusEvent V
  handling : (agent_id : String) (kind : MessageType) → BusEvent V
  sending : (now : ℕ) (id : String) (draft : Message V) → BusEvent V
  delivery :
      (now : ℕ) (id agent_id : String) (e : Envelope V) (message : String) (answer : Answer V)
      → BusEvent V
  requesting :
      (now : ℕ) (correlation id sender recipient : String) (payload : MessagePayload V)
      (timeout : ℕ)
      → BusEvent V
  timing_out : (correlation reason : String) → BusEvent V
  cleaning : (now : ℕ) → BusEvent V
  shutting_down : BusEvent V

module _ {V : Type 0} where
  unfoldable pub handle : MessageBus V → BusEvent V → MessageBus V
  handle b (registration agent_id) = register_agent b agent_id
  handle b (deregistration agent_id) = unregister_agent b agent_id
  handle b (handling agent_id kind) = register_handler b agent_id kind
  handle b (sending now id draft) = (send b now id draft).0
  handle b (delivery now id agent_id e message answer) =
      (deliver_envelope b now id agent_id e message answer).0
  handle b (requesting now correlation id sender recipient payload timeout) =
      (make_request b now correlation id sender recipient payload timeout).0
  handle b (timing_out correlation reason) = fire_timeout b correlation reason
  handle b (cleaning now) = cleanup_expired_messages b now
  handle b shutting_down = shutdown b

  unfoldable pub run : MessageBus V → List (BusEvent V) → MessageBus V
  run b [] = b
  run b (e ∷ es) = run (handle b e) es

module _ {V : Type 0} (n : ℕ) where
  register-AreOrderly :
      (b : MessageBus V) (agent : String) (o : Option (List (Envelope V)))
      → AreOrderly n b
      → AreOrderly n (register_found b agent o)
  unfolding IsOrderlyAt
  register-AreOrderly b agent (some q) h = h
  register-AreOrderly b agent none h =
      (set-AllEntries (IsOrderlyAt n) b.queues agent [] (tt, omega arith) h.0, h.1)

  first-AreOrderly :
      (b : MessageBus V) (agent : String) (o : Option (List MessageType))
      → AreOrderly n b
      → AreOrderly n (register_first b agent o)
  unfolding register_first register_agent
  first-AreOrderly b agent (some l) h = h
  first-AreOrderly b agent none h = register-AreOrderly b agent (Map.get agent b.queues) h

  filtered :
      (now : ℕ) (m : Map (List (Envelope V)))
      → AllEntries (IsOrderlyAt n) m
      → AllEntries (IsOrderlyAt n) (map (λ x. (x.0, filter (λ e. not (is_expired now e)) x.1)) m)
  unfolding IsOrderlyAt
  filtered now [] h = tt
  filtered now ((k, q) ∷ m) h =
      (filter-IsOrderly n (λ e. not (is_expired now e)) q h.0, filtered now m h.1)

  handle-AreOrderly :
      (b : MessageBus V) (e : BusEvent V) → AreOrderly n b → AreOrderly n (handle b e)
  unfolding handle register_agent unregister_agent register_handler make_request fire_timeout
      cleanup_expired_messages shutdown
  handle-AreOrderly b (registration agent) h =
      register-AreOrderly b agent (Map.get agent b.queues) h
  handle-AreOrderly b (deregistration agent) h =
      (delete-AllEntries (IsOrderlyAt n) b.queues agent h.0, h.1)
  handle-AreOrderly b (handling agent kind) h =
      first-AreOrderly b agent (Map.get agent b.handlers) h
  handle-AreOrderly b (sending now id draft) h = send-AreOrderly n b now id draft h
  handle-AreOrderly b (delivery now id agent e message answer) h =
      deliver-AreOrderly n b now id agent e message answer h
  handle-AreOrderly b (requesting now correlation id sender recipient payload timeout) h =
      send-AreOrderly n
        (record b { pending_requests = Map.set correlation timeout b.pending_requests }) now id _ h
  handle-AreOrderly b (timing_out correlation reason) h =
      settle-AreOrderly n b correlation (rejected reason) h
  handle-AreOrderly b (cleaning now) h = (filtered now b.queues h.0, h.1)
  handle-AreOrderly b shutting_down h = h

  run-AreOrderly :
      (b : MessageBus V) (es : List (BusEvent V)) → AreOrderly n b → AreOrderly n (run b es)
  unfolding run
  run-AreOrderly b [] h = h
  run-AreOrderly b (e ∷ es) h = run-AreOrderly (handle b e) es (handle-AreOrderly b e h)

found-IsOrderly :
    {V : Type 0} (n : ℕ) (o : Option (List (Envelope V))) (q : List (Envelope V))
    → IfFound (IsOrderly n) o
    → o ≡ some q
    → IsOrderly n q
found-IsOrderly n none q f e = ground (arith, e)
found-IsOrderly n (some x) q f e =
    (let same : x ≡ q = ground (arith, e) in subst (IsOrderly n) same f)

-- The queues of the bus are bounded and sorted. Begin with an empty bus and take any registrations,
-- messages, requests, timeouts, deliveries with any answers of the handlers, cleanings and shutdowns.
-- The queue of any agent is then no longer than the limit, and no envelope in it stands before one of
-- a higher priority.
pub run-IsOrderly :
    {V : Type 0} (max_queue_size default_ttl max_retries : ℕ) (es : List (BusEvent V))
    (agent : String) (q : List (Envelope V))
    → Map.get agent (run (new_bus max_queue_size default_ttl max_retries) es).queues ≡ some q
    → IsOrderly max_queue_size q
unfolding new_bus IsOrderlyAt
run-IsOrderly max_queue_size default_ttl max_retries es agent q e =
    let b = new_bus max_queue_size default_ttl max_retries in
    let h = run-AreOrderly max_queue_size b es (tt, refl) in
    found-IsOrderly max_queue_size (Map.get agent (run b es).queues) q
      (get-AllEntries (IsOrderlyAt max_queue_size) (run b es).queues agent h.0) e

-- ===== src/Bus/Tests.antt =====
-- Messages to one agent, and the theorems about the message bus at concrete inputs.
use ai_agent_tool.Common.{ℕ, ◌≡◌, refl, none, some, List, [], ◌∷◌, String}
use ai_agent_tool.Common.Map
use ai_agent_tool.Bus.{
  notification, request, MessagePriority, low, normal, high, to_one, plain, Message, Envelope,
  MessageBus, new_bus, register_agent, register_handler, register_first, insert_by_priority,
  send_found, send_to_one, send_to, send,
}
use ai_agent_tool.Bus.Delivery.{answers, remove_ref, make_request, deliver_envelope}
use ai_agent_tool.Bus.Queues.{IsOrderly, IsSorted}
use ai_agent_tool.Bus.Fifo.{arrive, of_rank, arrive-IsStable}
use ai_agent_tool.Bus.Lost.{IsUnanswered, deliver-IsUnanswered}
use ai_agent_tool.Bus.Runs.{
  BusEvent, registration, handling, sending, delivery, requesting, handle, run, run-IsOrderly,
}

abbrev message : String → MessagePriority → Message ℕ
message id priority = record {
  id = id;
  kind = notification;
  sender = "planner";
  recipients = to_one "coder";
  payload = plain 7;
  priority = priority;
  correlation_id = none;
  timestamp = 5;
  ttl = none;
}

abbrev envelope : ℕ → String → MessagePriority → Envelope ℕ
envelope ref id priority = record {
  ref = ref;
  message = message id priority;
  expires_at = 105;
  retries = 0;
}

abbrev events : List (BusEvent ℕ)
events =
    registration "coder"
    ∷ handling "coder" notification
    ∷ sending 5 "a" (message "" low)
    ∷ sending 5 "b" (message "" high)
    ∷ sending 5 "c" (message "" high)
    ∷ delivery 6 "r" "coder" (envelope 1 "b" high) "" (answers none)
    ∷ []

run-IsOrderly_example : IsOrderly 10 (envelope 2 "c" high ∷ envelope 0 "a" low ∷ [])
unfolding new_bus run handle register_agent register_handler register_first insert_by_priority
    send_found send_to_one send_to send remove_ref deliver_envelope Map.get Map.set
run-IsOrderly_example =
    run-IsOrderly 10 100 3 events "coder" (envelope 2 "c" high ∷ envelope 0 "a" low ∷ []) refl

abbrev arrivals : List (Envelope ℕ)
arrivals = envelope 0 "a" low ∷ envelope 1 "b" high ∷ envelope 2 "c" high ∷ []

arrive-IsStable_example :
    IsSorted (arrive [] arrivals) × (of_rank 2 (arrive [] arrivals) ≡ of_rank 2 arrivals)
arrive-IsStable_example = arrive-IsStable arrivals 2

-- "ghost" is not registered.
abbrev asked : MessageBus ℕ
asked = run (new_bus 10 100 3) (
    registration "coder"
    ∷ handling "coder" request
    ∷ requesting 5 "k" "m" "ghost" "coder" (plain 7) 30000
    ∷ [])

abbrev question : Envelope ℕ
question = record {
  ref = 0;
  message = record {
    id = "m";
    kind = request;
    sender = "ghost";
    recipients = to_one "coder";
    payload = plain 7;
    priority = normal;
    correlation_id = some "k";
    timestamp = 5;
    ttl = none;
  };
  expires_at = 105;
  retries = 0;
}

deliver-IsUnanswered_example :
    IsUnanswered asked question
      (deliver_envelope asked 6 "r" "coder" question "" (answers (some 9))).0
unfolding new_bus run handle register_agent register_handler register_first insert_by_priority
    send_found send_to_one send_to send make_request Map.get Map.set
deliver-IsUnanswered_example =
    deliver-IsUnanswered asked 6 "r" "coder" "" question (answers (some 9)) refl

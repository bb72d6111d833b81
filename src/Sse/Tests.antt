-- ===== src/Sse/Tests.antt =====
-- Runs of the quota manager, and the theorems at concrete inputs.
use ai_agent_tool.Common.{◌≤◌, ◌<◌, ◌≡◌, refl, ◌&&◌, none, some, List, [], ◌∷◌}
use ai_agent_tool.Common.Map
use ai_agent_tool.Common.Text.{trim}
use ai_agent_tool.Sse.{
  SseQuotaIdentity, normalize_key, count_of, increment_counter, decrement_counter, acquire, release,
  Action, connect, disconnect, run, new_manager,
}
use ai_agent_tool.Sse.Live.{live_subject, live_ip, has_room, run-le-limits, acquire_iff_room}

program : Unit {0}
unfolding trim normalize_key count_of increment_counter decrement_counter acquire release run
    new_manager Map.get Map.set Map.delete
program = tt

abbrev alice : SseQuotaIdentity
alice = record { ip = some "10.0.0.1"; subject_id = some " alice " }

abbrev day : List Action
day =
    connect alice ∷ connect alice ∷ disconnect 0 ∷ disconnect 0 ∷ connect alice ∷ connect alice ∷ []

two_live : live_subject "alice" (run (new_manager 0 2) day) ≡ 2
unfolding program
two_live = refl

trimmed : normalize_key (some " a b ") ≡ some "a b"
unfolding program
trimmed = refl

blank : normalize_key (some "  ") ≡ none
unfolding program
blank = refl

run-le-limits_example :
    let m = run (new_manager 0 2) day in
    (0 < 2 → live_subject "alice" m ≤ 2) × (0 < 0 → live_ip "alice" m ≤ 0)
run-le-limits_example = run-le-limits 0 2 day "alice"

acquire_iff_room_example :
    let m = run (new_manager 0 2) day in
    (acquire m alice).1 ≡ (
      has_room 2 (normalize_key (some " alice ")) (λ k. live_subject k m)
      && has_room 0 (normalize_key (some "10.0.0.1")) (λ k. live_ip k m))
acquire_iff_room_example = acquire_iff_room 0 2 day alice

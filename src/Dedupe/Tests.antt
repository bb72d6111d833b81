-- ===== src/Dedupe/Tests.antt =====
-- The theorems about claims at concrete inputs.
use ai_agent_tool.Common.{
  ◌+◌, ◌≡◌, ◌≢◌, refl, max, true, false, List, [], ◌∷◌, String, arith, ltb, leb, eq_iff,
}
use ai_agent_tool.Common.Map
use ai_agent_tool.Dedupe.{
  MemoryDedupeService, new_service, claim, is_claimed, release, cleanup_expired, Event, claim_event,
  release_event, query_event, cleanup_event, handle, run,
}
use ai_agent_tool.Dedupe.Exclusive.{claim_exclusive, claim_expires}

program : Unit {0}
unfolding new_service claim is_claimed release cleanup_expired handle run Map.get Map.set Map.delete
program = tt

abbrev service : MemoryDedupeService
service = record { claims = []; timer_running = true }

a_not_b : ◌≢◌ {A = String} "b" "job"
a_not_b = ground (arith, eq_iff "b" "job")

abbrev events : List Event
events = claim_event 120 "job" 5 ∷ release_event "b" ∷ cleanup_event 140 ∷ query_event 145 "b" ∷ []

claim_exclusive_example :
    let s' = run (claim service 100 "job" 60).0 events in
    (claim s' 150 "job" 10 ≡ (s', false)) × (is_claimed s' 150 "job" ≡ (s', true))
unfolding program
claim_exclusive_example =
    claim_exclusive service 100 150 "job" 60 10 events refl (omega arith)
      (omega arith, (a_not_b, (omega arith, (omega arith, tt))))

abbrev later_events : List Event
later_events = claim_event 120 "b" 5 ∷ cleanup_event 165 ∷ []

claim_expires_example :
    let s' = run (claim service 100 "job" 60).0 later_events in
    ((claim s' 170 "job" 10).1 ≡ leb (100 + max 1 60) 170)
    × ((is_claimed s' 170 "job").1 ≡ ltb 170 (100 + max 1 60))
unfolding program
claim_expires_example =
    claim_expires service 100 170 "job" 60 10 later_events refl (a_not_b, (omega arith, tt))

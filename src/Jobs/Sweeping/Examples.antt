-- ===== src/Jobs/Sweeping/Examples.antt =====
-- redis.go: a sweep of a list with orphans.
use gatew_ai.Base.{◌≡◌, refl, true, some, [], ◌∷◌, update, if◌then◌else◌}
use gatew_ai.Server.{View}
use gatew_ai.Server.Memory.{empty, memory}
use gatew_ai.Jobs.Sweeping.{SweepCalls, visits, sweep_orphaned_relay_queue_entries}
use gatew_ai.Jobs.Sweeping.Orphans.{filter, stays, visited, sweep-filter}

abbrev reliable : SweepCalls
reliable = record { lists = λ k. true; checks = λ k. true; removes = λ k id. true }

abbrev stuck : View
stuck = record empty {
  text = update "job:2" (some "{}") empty.text;
  list = update "relay:m:processing" ("1" ∷ "2" ∷ "1" ∷ "3" ∷ []) empty.list;
}

stuck_swept :
    let ((removed, error), after) =
      sweep_orphaned_relay_queue_entries memory reliable ("m" ∷ []) stuck in
    (removed ≡ record { model = "m"; state = "processing"; count = 3 } ∷ [])
    × (after.list "relay:m:processing" ≡ "2" ∷ [])
unfolding sweep_orphaned_relay_queue_entries
stuck_swept = (refl, refl)

sweep-filter_example :
    let after = (sweep_orphaned_relay_queue_entries memory reliable ("m" ∷ []) stuck).1 in
    (after.text ≡ stuck.text)
    × (after.list "relay:m:processing" ≡ (
        if visited memory reliable "relay:m:processing" (visits ("m" ∷ []))
        then filter
            (stays memory reliable stuck "relay:m:processing")
            (stuck.list "relay:m:processing")
        else stuck.list "relay:m:processing"))
unfolding sweep_orphaned_relay_queue_entries
sweep-filter_example = sweep-filter memory reliable ("m" ∷ []) stuck refl "relay:m:processing"

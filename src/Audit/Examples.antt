-- ===== src/Audit/Examples.antt =====
-- A recorder with a queue of one: one event is queued, one is written by its caller, and the recorder is
-- closed.
use rkcockpit.Common.{
  Bool, List, [], count, drop, false, length, refl, true, ℕ, ◌+◌, ◌-◌, ◌∷◌, ◌≡◌, ◌≤◌,
}
use rkcockpit.Audit.{Recorder, event, bad_time, init, is_clean}
use rkcockpit.Audit.Books.{in_flight}
use rkcockpit.Audit.Steps.{Step, records, queues, falls, takes, exits, closes, drains, writes, run}
use rkcockpit.Audit.Runs.{run-conserves, run-closed}

abbrev own : ℕ → ℕ
own seq = seq

abbrev steps : List (Step ℕ)
steps =
    records (event own)
    ∷ records bad_time
    ∷ records (event own)
    ∷ queues 0
    ∷ queues 0
    ∷ takes
    ∷ writes false
    ∷ falls 0 true
    ∷ closes
    ∷ records (event own)
    ∷ writes true
    ∷ drains
    ∷ exits
    ∷ []

abbrev ended : Recorder ℕ
ended = run steps (init 1 1)

-- The event that its caller wrote came first, and the third was not accepted.
ended-disk : ended.disk ≡ 2 ∷ 1 ∷ []
unfolding run init
ended-disk = refl

ended-ring : ended.ring ≡ 2 ∷ []
unfolding run init
ended-ring = refl

ended-clean : is_clean ended ≡ true
unfolding run init is_clean
ended-clean = refl

run-conserves_example :
    ((p : ℕ → Bool)
      → count p ended.taken ≡ count p ended.disk + count p ended.lost + count p (in_flight ended))
    × (ended.pending ≡ length (in_flight ended))
    × (ended.metrics.written ≡ length ended.disk)
    × (ended.metrics.unpersisted ≡ length ended.lost)
    × (length ended.queue ≤ 1)
    × (ended.ring ≡ drop (length ended.taken - 1) ended.taken)
run-conserves_example = run-conserves 1 1 steps

run-closed_example :
    (ended.accepting ≡ false)
    × (in_flight ended ≡ [])
    × ((p : ℕ → Bool) → count p ended.disk ≡ count p ended.taken)
run-closed_example = run-closed 1 1 steps ended-clean

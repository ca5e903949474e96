-- ===== src/Scheduler/Examples.antt =====
-- Runs of the scheduler of host/transport/scheduler.py, and its theorems at concrete inputs.
use mathlib.Core.Option
use rkcockpit.Common.{
  All, List, String, [], count, is_nonempty, length, none, refl, some, true, ℕ, ◌++◌, ◌∷◌, ◌≡◌, ◌≤◌,
  ◌⊎◌,
}
use rkcockpit.Common.Dict.{lookup, insert, erase}
use rkcockpit.Scheduler.Waiter.{
  Waiter, Workload, foreground, background, member, same, remove, workload_eq,
}
use rkcockpit.Scheduler.ClassQueue.{
  queue_of, pop_eligible, enqueue, empty, remove_waiter, without_device,
}
use rkcockpit.Scheduler.ClassQueue.Fairness.{PopResult, pop_eligible-PopResult}
use rkcockpit.Scheduler.Tally
use rkcockpit.Scheduler.State.{Limits, Scheduler, init, fresh, queues, active_for, waiting_for}
use rkcockpit.Scheduler.Grant.{can_grant}
use rkcockpit.Scheduler.Grant.Loop.{Settles, grant-Settles}
use rkcockpit.Scheduler.Grant.{grant}
use rkcockpit.Scheduler.Sound.{IsSound, is_on, queued}
use rkcockpit.Scheduler.Calls
use rkcockpit.Scheduler.Calls.{
  global_queue_full, timed_out, returned, device_name, remove_device, release,
}
use rkcockpit.Scheduler.Calls.Releasing.{release-lem, Releases}
use rkcockpit.Scheduler.Calls.Effects.{remove_device-lem}
use rkcockpit.Scheduler.Run.{
  Event, enter, wake, release as release_event, run, OnlyRefusal, WithinLimits, after-IsReady,
  run-WithinLimits, run-never_breaks, run-accounts, run-work_conserving,
}

abbrev small : Limits
small = record {
  global_limit = 2;
  device_limit = 1;
  background_device_limit = 1;
  global_wait_limit = 2;
  device_wait_limit = 2;
  wait_timeout = 100;
}

start : init small ≡ some (fresh small)
unfolding init
start = refl

abbrev waiter : ℕ → String → Workload → ℕ → Waiter
waiter ident device workload started = record {
  ident = ident;
  device_id = device;
  workload = workload;
  started = started;
}

-- Two callers on one device and one on another; then the first lease is released.
abbrev busy : List Event
busy =
    enter 0 0 "a" "foreground" none
    ∷ enter 1 1 "a" "background" none
    ∷ enter 2 2 "b" "foreground" (some 7)
    ∷ enter 3 3 "b" "foreground" none
    ∷ []

program : Unit {0}
unfolding run init Calls.enter Calls.wake Calls.release Calls.remove_device queue_of lookup member
    pop_eligible enqueue empty insert erase workload_eq same remove_waiter remove without_device
    Option.bind Tally.take_one Tally.bump Tally.lower active_for waiting_for
program = tt

run-busy :
    ((run busy (fresh small)).1.held ≡ waiter 0 "a" foreground 0 ∷ waiter 2 "b" foreground 2 ∷ [])
    × ((run busy (fresh small)).1.waiting ≡ 2)
unfolding program
run-busy = (refl, refl)

-- A third waiter is refused, one gives up after its deadline, and a release wakes the other.
run-errors :
    (run
      (enter 4 4 "c" "foreground" none
        ∷ wake 103 (waiter 3 "b" foreground 3) 103
        ∷ release_event 104 (waiter 0 "a" foreground 0)
        ∷ wake 105 (waiter 1 "a" background 1) 101
        ∷ [])
      (run busy (fresh small)).1).0
    ≡ some global_queue_full ∷ some timed_out ∷ none ∷ none ∷ []
unfolding program
run-errors = refl

abbrev busy_state : Scheduler
busy_state = (run busy (fresh small)).1

busy_state-IsSound : IsSound busy_state
busy_state-IsSound = (after-IsReady small (fresh small) start busy).0.sound

run-WithinLimits_example : WithinLimits small busy_state
run-WithinLimits_example = run-WithinLimits small (fresh small) start busy

run-never_breaks_example : All OnlyRefusal (run busy (fresh small)).0
run-never_breaks_example = run-never_breaks small (fresh small) start busy

run-accounts_example :
    (busy_state.active ≡ length busy_state.held)
    × ((d : String) → active_for d busy_state ≡ count (is_on d) busy_state.held)
    × ((d : String) → waiting_for d busy_state ≡ queued busy_state d)
run-accounts_example = run-accounts small (fresh small) start busy

a_waits : is_nonempty (queue_of (queues background busy_state) "a") ≡ true
unfolding program
a_waits = refl

run-work_conserving_example :
    2 ≤ busy_state.active
    ⊎ 1 ≤ active_for "a" busy_state
    ⊎ (background ≡ background) × (1 ≤ Tally.get "a" busy_state.background_by_device)
run-work_conserving_example =
    run-work_conserving small (fresh small) start busy background "a" a_waits

pop_eligible-PopResult_example :
    PopResult background
      (λ d. can_grant busy_state d background)
      busy_state.background_queues
      (pop_eligible (λ d. can_grant busy_state d background) busy_state.background_queues)
pop_eligible-PopResult_example =
    pop_eligible-PopResult background (λ d. can_grant busy_state d background)
      busy_state.background_queues busy_state-IsSound.fair_background

grant-Settles_example : (s' : Scheduler) × (grant 9 busy_state ≡ some s') × Settles busy_state s'
grant-Settles_example = grant-Settles 9 busy_state busy_state-IsSound

release-lem_example :
    let w = waiter 0 "a" foreground 0 in
    Releases (member w busy_state.held) w busy_state (release 9 w busy_state)
release-lem_example =
    release-lem 9 (waiter 0 "a" foreground 0) busy_state
      (after-IsReady small (fresh small) start busy).0

remove_device-lem_example :
    (t : Scheduler) × (remove_device 9 "a" busy_state ≡ returned tt t)
    × (t.cancelled
        ≡ busy_state.cancelled
          ++ queue_of busy_state.foreground_queues (device_name "a")
          ++ queue_of busy_state.background_queues (device_name "a"))
    × (queued t (device_name "a") ≡ 0)
    × (waiting_for (device_name "a") t ≡ 0)
remove_device-lem_example =
    remove_device-lem 9 "a" busy_state (after-IsReady small (fresh small) start busy).0

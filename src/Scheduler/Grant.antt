-- ===== src/Scheduler/Grant.antt =====
-- `_can_grant_locked` and `_grant_locked` of host/transport/scheduler.py.
pub mod Turns
pub mod Books
pub mod Loop
use mathlib.Core.Option
use rkcockpit.Common.{
  Bool, List, Option, String, [], drop, false, if◌then◌else◌, leb, length, ltb, map, max, none,
  some, suc, true, zero, ℕ, ◌&&◌, ◌++◌, ◌+◌, ◌-◌, ◌||◌, ◌∷◌,
}
use rkcockpit.Common.Dict.{Dict}
use rkcockpit.Scheduler.Waiter.{Waiter, Workload, foreground, background, workload_eq}
use rkcockpit.Scheduler.ClassQueue.{pop_eligible}
use rkcockpit.Scheduler.Tally
use rkcockpit.Scheduler.State.{
  Scheduler, WaitStats, queues, with_queues, foreground_burst, max_samples,
}

unfoldable pub can_grant : Scheduler → String → Workload → Bool
can_grant s device workload =
    if leb s.global_limit s.active || leb s.device_limit (Tally.get device s.active_by_device)
    then false
    else if workload_eq workload background
        && leb s.background_device_limit (Tally.get device s.background_by_device)
    then false
    else true

unfoldable pub pop_waiter : Workload → Scheduler → Option Waiter × Scheduler
pop_waiter kind s =
    let (w, q) = pop_eligible (λ device. can_grant s device kind) (queues kind s) in
    (w, with_queues kind q s)

-- `if waiter is not None: self._foreground_streak = …`
abbrev pub with_streak : (ℕ → ℕ) → Option Waiter × Scheduler → Option Waiter × Scheduler
with_streak f (none, s) = (none, s)
with_streak f (some w, s) = (some w, record s { foreground_streak = f s.foreground_streak })

-- `if waiter is None: …`
abbrev pub or_else :
    Option Waiter × Scheduler → (Scheduler → Option Waiter × Scheduler) → Option Waiter × Scheduler
or_else (none, s) f = f s
or_else (some w, s) f = (some w, s)

-- Lines 164-178: whose turn it is.
unfoldable pub next_waiter : Scheduler → Option Waiter × Scheduler
next_waiter s =
    let after_burst = with_streak (λ _. 0) (pop_waiter background s) in
    let first = if leb foreground_burst s.foreground_streak then after_burst else (none, s) in
    or_else (or_else first (λ t. with_streak suc (pop_waiter foreground t)))
      (λ t. with_streak (λ _. 0) (pop_waiter background t))

-- `deque.append` at `maxlen`: the oldest sample goes.
unfoldable pub add_sample : ℕ → List ℕ → List ℕ
add_sample ms samples = let longer = samples ++ ms ∷ [] in drop (length longer - max_samples) longer

unfoldable pub add_wait : ℕ → WaitStats → WaitStats
unfolding add_sample
add_wait ms w = record {
  wait_count = w.wait_count + 1;
  wait_total_ms = w.wait_total_ms + ms;
  wait_max_ms = max w.wait_max_ms ms;
  wait_samples = add_sample ms w.wait_samples;
}

abbrev pub record_wait : Workload → ℕ → Scheduler → Scheduler
record_wait foreground ms s = record s { foreground_waits = add_wait ms s.foreground_waits }
record_wait background ms s = record s { background_waits = add_wait ms s.background_waits }

unfoldable pub raise_peaks : String → Scheduler → Scheduler
raise_peaks device s = record s {
  peaks = record s.peaks {
    peak_active = max s.peaks.peak_active s.active;
    peak_device_active = max s.peaks.peak_device_active (Tally.get device s.active_by_device);
    peak_background_device =
        max s.peaks.peak_background_device (Tally.get device s.background_by_device);
  };
}

abbrev pub count_background : Workload → String → Dict ℕ → Dict ℕ
count_background foreground device d = d
count_background background device d = Tally.bump device d

-- Lines 179-204 but for the count of the device's waiters, which is `waiting_by_device` afterwards.
unfoldable pub booked : ℕ → Waiter → Scheduler → Dict ℕ → Scheduler
unfolding raise_peaks add_wait
booked now w s waiting_by_device =
    let granted = record s {
      waiting = s.waiting - 1;
      waiting_by_device = waiting_by_device;
      active = s.active + 1;
      active_by_device = Tally.bump w.device_id s.active_by_device;
      background_by_device = count_background w.workload w.device_id s.background_by_device;
      held = s.held ++ w ∷ [];
    } in
    record_wait w.workload (now - w.started) (raise_peaks w.device_id granted)

-- The books of one grant. A device that is missing in `_waiting_by_device` would raise KeyError,
-- `none`.
unfoldable pub account : ℕ → Waiter → Scheduler → Option Scheduler
unfolding booked
account now w s = Option.map (booked now w s) (Tally.take_one w.device_id s.waiting_by_device)

abbrev pub grant_next :
    (Scheduler → Option Scheduler) → ℕ → Option Waiter × Scheduler → Option Scheduler
grant_next more now (none, s) = some s
grant_next more now (some w, s) = Option.bind (account now w s) more

-- The `while` loop. Each round adds one to `_active`, so `_global_limit - _active` rounds are enough:
-- with no round left the loop's own test fails.
unfoldable pub grant_rounds : ℕ → ℕ → Scheduler → Option Scheduler
grant_rounds now zero s = some s
grant_rounds now (suc rounds) s =
    let round = grant_next (grant_rounds now rounds) now (next_waiter s) in
    if ltb s.active s.global_limit then round else some s

unfoldable pub grant : ℕ → Scheduler → Option Scheduler
unfolding grant_rounds account next_waiter pop_waiter can_grant
grant now s = grant_rounds now (s.global_limit - s.active) s

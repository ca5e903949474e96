-- ===== src/Scheduler/Calls/Entering.antt =====
-- `acquire` up to its first wait (host/transport/scheduler.py, lines 231-260).
use rkcockpit.Common.{
  Bool-cases, Option, String, [], ap, arith, eq_iff, false, if◌then◌else◌, inl, inr, leb, leb→lt,
  length, length-append, none, refl, some, str_eq, true, ℕ, ◌+◌, ◌<◌, ◌==◌, ◌∷◌, ◌≡◌, ◌⊎◌,
}
use rkcockpit.Scheduler.Waiter.{Waiter, Workload, foreground, background}
use rkcockpit.Scheduler.ClassQueue.{queue_of, enqueue}
use rkcockpit.Scheduler.ClassQueue.Edits.{enqueue-IsFair, queue_of-enqueue}
use rkcockpit.Scheduler.Tally
use rkcockpit.Scheduler.Tally.{bump-IsTally, get-bump}
use rkcockpit.Scheduler.State.{Scheduler, queues}
use rkcockpit.Scheduler.Sound.{IsSound}
use rkcockpit.Scheduler.Calls.{
  new_waiter, queue_up, enter_locked, with_deadline, wait_of, enter, Outcome, workload_of,
  device_name, returned, raised,
}
use rkcockpit.Scheduler.Calls.Ready.{IsReady, recounted-IsReady, Clean, granting-Clean}

module _ (s : Scheduler) (sound : IsSound s) (now : ℕ) (device : String) where
  length-enqueue :
      (kind : Workload) (d : String)
      → length (queue_of (enqueue (new_waiter now device kind s) (queues kind s)) d)
        ≡ length (queue_of (queues kind s) d) + (if str_eq device d then 1 else 0)
  length-enqueue kind d =
      let w = new_waiter now device kind s in
      let old = queue_of (queues kind s) device in
      ground (
        arith,
        ap (length {A = Waiter}) (queue_of-enqueue w (queues kind s) d),
        length-append old (w ∷ []),
        eq_iff device d,
      )

  bumped :
      (d : String)
      → Tally.get d (Tally.bump device s.waiting_by_device)
        ≡ Tally.get d s.waiting_by_device + (if str_eq device d then 1 else 0)
  bumped d = ground (arith, get-bump device d s.waiting_by_device, eq_iff device d)

  -- A waiter that passes both limits is queued and counted.
  pub queue_up-IsSound :
      (kind : Workload)
      → s.waiting < s.global_wait_limit
      → Tally.get device s.waiting_by_device < s.device_wait_limit
      → IsSound (queue_up (new_waiter now device kind s) s)
  unfolding queue_up
  queue_up-IsSound foreground room device_room = record {
    fair_foreground = enqueue-IsFair foreground s.foreground_queues sound.fair_foreground _ refl;
    fair_background = sound.fair_background;
    active_tally = sound.active_tally;
    background_tally = sound.background_tally;
    waiting_tally = bump-IsTally device s.waiting_by_device s.waiting sound.waiting_tally;
    active_bound = sound.active_bound;
    device_bound = sound.device_bound;
    background_bound = sound.background_bound;
    waiting_bound = omega (arith, room);
    device_waiting_bound =
        λ d. ground (arith, bumped d, sound.device_waiting_bound d, eq_iff device d);
    waiting_counts =
        λ d. omega (arith, bumped d, sound.waiting_counts d, length-enqueue foreground d);
    held_total = sound.held_total;
    held_counts = sound.held_counts;
    held_background = sound.held_background;
  }
  queue_up-IsSound background room device_room = record {
    fair_foreground = sound.fair_foreground;
    fair_background = enqueue-IsFair background s.background_queues sound.fair_background _ refl;
    active_tally = sound.active_tally;
    background_tally = sound.background_tally;
    waiting_tally = bump-IsTally device s.waiting_by_device s.waiting sound.waiting_tally;
    active_bound = sound.active_bound;
    device_bound = sound.device_bound;
    background_bound = sound.background_bound;
    waiting_bound = omega (arith, room);
    device_waiting_bound =
        λ d. ground (arith, bumped d, sound.device_waiting_bound d, eq_iff device d);
    waiting_counts =
        λ d. omega (arith, bumped d, sound.waiting_counts d, length-enqueue background d);
    held_total = sound.held_total;
    held_counts = sound.held_counts;
    held_background = sound.held_background;
  }

limits-queue_up :
    (s : Scheduler) (now : ℕ) (device : String) (kind : Workload)
    → (queue_up (new_waiter now device kind s) s).limits ≡ s.limits
unfolding queue_up
limits-queue_up s now device foreground = refl
limits-queue_up s now device background = refl

enter_locked-Clean :
    (s : Scheduler) (now : ℕ) (device : String) (kind : Workload)
    → IsReady s
    → Clean s (enter_locked now device kind s)
unfolding enter_locked
enter_locked-Clean s now device kind h =
    by_tests (Bool-cases (leb s.global_wait_limit s.waiting))
      (Bool-cases (leb s.device_wait_limit (Tally.get device s.waiting_by_device)))
  where
    w : Waiter
    w = new_waiter now device kind s

    by_tests :
        (leb s.global_wait_limit s.waiting ≡ true) ⊎ (leb s.global_wait_limit s.waiting ≡ false)
        → (leb s.device_wait_limit (Tally.get device s.waiting_by_device) ≡ true)
          ⊎ (leb s.device_wait_limit (Tally.get device s.waiting_by_device) ≡ false)
        → Clean s (enter_locked now device kind s)
    by_tests (inl full) _ = rw full (recounted-IsReady s _ _ h, refl, tt)
    by_tests (inr room) (inl full) = rw (room, full) (recounted-IsReady s _ _ h, refl, tt)
    by_tests (inr room) (inr device_room) =
        rw (room, device_room)
          (granting-Clean now w s (queue_up w s)
            (queue_up-IsSound s h.sound now device kind (leb→lt _ _ room) (leb→lt _ _ device_room))
            (limits-queue_up s now device kind))

with_deadline-Clean :
    (s : Scheduler) (deadline : ℕ) (o : Outcome Waiter)
    → Clean s o
    → Clean s (with_deadline deadline o)
with_deadline-Clean s deadline (returned w t) h = h
with_deadline-Clean s deadline (raised e t) h = h

-- `acquire` up to its first wait returns or refuses, and the scheduler is ready again.
pub enter-Clean :
    (s : Scheduler) (asked now : ℕ) (device name : String) (timeout : Option ℕ)
    → IsReady s
    → Clean s (enter asked now device name timeout s)
unfolding enter
enter-Clean s asked now device name timeout h =
    by_cases (workload_of name) refl (Bool-cases (wait == 0))
  where
    wait : ℕ
    wait = wait_of timeout s.wait_timeout

    by_cases :
        (o : Option Workload)
        → workload_of name ≡ o
        → ((wait == 0) ≡ true) ⊎ ((wait == 0) ≡ false)
        → Clean s (enter asked now device name timeout s)
    by_cases none e _ = rw (e, enter, Clean) (h, refl, tt)
    by_cases (some kind) e (inl zero_wait) = rw (e, zero_wait, enter, Clean) (h, refl, tt)
    by_cases (some kind) e (inr waits) =
        rw (e, waits, enter)
          (with_deadline-Clean s (asked + wait) _
            (enter_locked-Clean s now (device_name device) kind h))

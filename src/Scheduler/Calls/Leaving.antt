-- ===== src/Scheduler/Calls/Leaving.antt =====
-- A round of the loop of `acquire` (host/transport/scheduler.py, lines 261-271).
use rkcockpit.Common.{
  Bool, Bool-cases, Option, String, ap, arith, eq_iff, false, if◌then◌else◌, inl, inr, leb, length,
  none, refl, some, str_eq, subst, true, ℕ, ◌+◌, ◌-◌, ◌<◌, ◌∙◌, ◌≡◌, ◌⊎◌,
}
use rkcockpit.Common.Dict.{Dict}
use rkcockpit.Scheduler.Waiter.{Waiter, Workload, foreground, background, member, length-remove}
use rkcockpit.Scheduler.ClassQueue.{ClassQueue, queue_of, remove_waiter}
use rkcockpit.Scheduler.ClassQueue.Fairness.{IsFair}
use rkcockpit.Scheduler.ClassQueue.Edits.{remove_waiter-lem}
use rkcockpit.Scheduler.Tally
use rkcockpit.Scheduler.Tally.{Taken, take_one-Taken}
use rkcockpit.Scheduler.State.{Scheduler, queues, with_queues}
use rkcockpit.Scheduler.Grant.Loop.{grant-Settles}
use rkcockpit.Scheduler.Sound.{IsSound, queued_of_kind}
use rkcockpit.Scheduler.Calls.{give_up, expire, wake}
use rkcockpit.Scheduler.Calls.Ready.{IsReady, recounted-IsReady, Clean}

-- A waiter that leaves its queue early.
module _ (s : Scheduler) (sound : IsSound s) (w : Waiter) (q : ClassQueue) (d' : Dict ℕ)
    (taken : Taken w.device_id s.waiting_by_device d' s.waiting) where
  length-left :
      (kind : Workload)
      → remove_waiter w (queues kind s) ≡ some q
      → IsFair kind (queues kind s)
      → (d : String)
      → length (queue_of (queues kind s) d)
        ≡ length (queue_of q d) + (if str_eq w.device_id d then 1 else 0)
  length-left kind e fair d =
      let (present, _, law) = remove_waiter-lem kind (queues kind s) fair w e in
      ground (
        arith,
        ap (length {A = Waiter}) (law d),
        length-remove w (queue_of (queues kind s) w.device_id) present,
        eq_iff w.device_id d,
      )

  counts_left :
      (d : String)
      → 0 < Tally.get w.device_id s.waiting_by_device
      → Tally.get d s.waiting_by_device ≡ Tally.get d d' + (if str_eq w.device_id d then 1 else 0)
  counts_left d p = ground (arith, taken.counts d, eq_iff w.device_id d)

  left-IsSound :
      (kind : Workload)
      → remove_waiter w (queues kind s) ≡ some q
      → 0 < Tally.get w.device_id s.waiting_by_device
      → IsSound (record (with_queues kind q s) { waiting = s.waiting - 1; waiting_by_device = d' })
  left-IsSound foreground e p = record {
    fair_foreground =
        (remove_waiter-lem foreground s.foreground_queues sound.fair_foreground w e).1;
    fair_background = sound.fair_background;
    active_tally = sound.active_tally;
    background_tally = sound.background_tally;
    waiting_tally = taken.tally;
    active_bound = sound.active_bound;
    device_bound = sound.device_bound;
    background_bound = sound.background_bound;
    waiting_bound = omega (arith, sound.waiting_bound);
    device_waiting_bound = λ d. omega (arith, sound.device_waiting_bound d, counts_left d p);
    waiting_counts = λ d. omega (
      arith,
      counts_left d p,
      sound.waiting_counts d,
      length-left foreground e sound.fair_foreground d,
    );
    held_total = sound.held_total;
    held_counts = sound.held_counts;
    held_background = sound.held_background;
  }
  left-IsSound background e p = record {
    fair_foreground = sound.fair_foreground;
    fair_background =
        (remove_waiter-lem background s.background_queues sound.fair_background w e).1;
    active_tally = sound.active_tally;
    background_tally = sound.background_tally;
    waiting_tally = taken.tally;
    active_bound = sound.active_bound;
    device_bound = sound.device_bound;
    background_bound = sound.background_bound;
    waiting_bound = omega (arith, sound.waiting_bound);
    device_waiting_bound = λ d. omega (arith, sound.device_waiting_bound d, counts_left d p);
    waiting_counts = λ d. omega (
      arith,
      counts_left d p,
      sound.waiting_counts d,
      length-left background e sound.fair_background d,
    );
    held_total = sound.held_total;
    held_counts = sound.held_counts;
    held_background = sound.held_background;
  }

-- `_remove_waiter_locked` raises nothing and keeps the invariant.
give_up-IsSound :
    (w : Waiter) (s : Scheduler)
    → IsSound s
    → (t : Scheduler) × (give_up w s ≡ some t) × IsSound t × (t.limits ≡ s.limits)
unfolding give_up
give_up-IsSound w s sound = by_queue w.workload (remove_waiter w (queues w.workload s)) refl refl
  where
    Goal : Type 0
    Goal = (t : Scheduler) × (give_up w s ≡ some t) × IsSound t × (t.limits ≡ s.limits)

    fair_at : (kind : Workload) → IsFair kind (queues kind s)
    fair_at foreground = sound.fair_foreground
    fair_at background = sound.fair_background

    limits_at : (kind : Workload) (q : ClassQueue) → (with_queues kind q s).limits ≡ s.limits
    limits_at foreground q = refl
    limits_at background q = refl

    by_queue :
        (kind : Workload) (o : Option ClassQueue)
        → w.workload ≡ kind
        → remove_waiter w (queues w.workload s) ≡ o
        → Goal
    by_queue kind none ek e = (s, rw (e, give_up) refl, sound, refl)
    by_queue kind (some q) ek e =
        let e' : remove_waiter w (queues kind s) ≡ some q =
          subst (λ k. remove_waiter w (queues k s) ≡ some q) ek e in
        let (present, _, _) = remove_waiter-lem kind (queues kind s) (fair_at kind) w e' in
        let pos : 0 < Tally.get w.device_id s.waiting_by_device = ground (
          arith,
          length-remove w (queue_of (queues kind s) w.device_id) present,
          sound.waiting_counts w.device_id,
          queued_of_kind kind s w.device_id,
        ) in
        let (d', et, taken) =
          take_one-Taken w.device_id s.waiting_by_device s.waiting sound.waiting_tally pos in
        (
          record (with_queues kind q s) { waiting = s.waiting - 1; waiting_by_device = d' },
          rw (e, et, give_up)
              (ap
                (λ k.
                  some (record (with_queues k q s) {
                    waiting = s.waiting - 1;
                    waiting_by_device = d';
                  }))
                ek),
          left-IsSound s sound w q d' taken kind e' pos,
          limits_at kind q,
        )

-- After its deadline a waiter leaves, the others are granted what they can be, and the call fails.
expire-Clean : (now : ℕ) (w : Waiter) (s : Scheduler) → IsSound s → Clean s (expire now w s)
unfolding expire
expire-Clean now w s sound =
    let (t, et, st, lt) = give_up-IsSound w s sound in
    let (u, eu, r) = grant-Settles now t st in
    rw (et, eu, Clean)
      (recounted-IsReady u _ _ (record { sound = r.sound; settled = r.settled }), r.limits ∙ lt, tt)

-- A round of the waiting loop returns, waits on, or fails, and leaves the scheduler ready.
pub wake-Clean :
    (now : ℕ) (w : Waiter) (deadline : ℕ) (s : Scheduler)
    → IsReady s
    → Clean s (wake now w deadline s)
unfolding wake
wake-Clean now w deadline s h =
    by_tests (Bool-cases (member w s.held)) (Bool-cases (member w s.cancelled))
      (Bool-cases (leb deadline now))
  where
    Either : Bool → Type 0
    Either b = (b ≡ true) ⊎ (b ≡ false)

    by_tests :
        Either (member w s.held)
        → Either (member w s.cancelled)
        → Either (leb deadline now)
        → Clean s (wake now w deadline s)
    by_tests (inl a) _ _ = rw (a, wake, Clean) (h, refl)
    by_tests (inr a) (inl b) _ = rw (a, b, wake, Clean) (h, refl, tt)
    by_tests (inr a) (inr b) (inl c) = rw (a, b, c, wake) (expire-Clean now w s h.sound)
    by_tests (inr a) (inr b) (inr c) = rw (a, b, c, wake, Clean) (h, refl)

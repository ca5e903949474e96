-- ===== src/Scheduler/Sound.antt =====
-- The invariant of `TransportScheduler` (host/transport/scheduler.py): its counters agree with its
-- queues and with the leases that are out, and no limit is passed.
use rkcockpit.Common.{
  Bool, String, arith, count, false, is_nonempty, length, refl, str_eq, true, ℕ, ◌&&◌, ◌+◌, ◌≡◌,
  ◌≤◌,
}
use rkcockpit.Common.Dict.{Dict, lookup}
use rkcockpit.Scheduler.Waiter.{Waiter, Workload, foreground, background, workload_eq}
use rkcockpit.Scheduler.ClassQueue.{queue_of, empty}
use rkcockpit.Scheduler.ClassQueue.Fairness.{IsFair, empty-IsFair}
use rkcockpit.Scheduler.Tally
use rkcockpit.Scheduler.Tally.{IsTally}
use rkcockpit.Scheduler.State.{Limits, Scheduler, queues, fresh}
use rkcockpit.Scheduler.Grant.{can_grant}

abbrev pub is_on : String → Waiter → Bool
is_on device w = str_eq w.device_id device

abbrev pub is_background_on : String → Waiter → Bool
is_background_on device w = str_eq w.device_id device && workload_eq w.workload background

-- How many waiters of a device are queued, of both workloads.
abbrev pub queued : Scheduler → String → ℕ
queued s d = length (queue_of s.foreground_queues d) + length (queue_of s.background_queues d)

pub record IsSound (s : Scheduler) : Type 0 where
  pub fair_foreground : IsFair foreground s.foreground_queues
  pub fair_background : IsFair background s.background_queues
  pub active_tally : IsTally s.active_by_device s.active
  pub background_tally : IsTally s.background_by_device (Tally.total s.background_by_device)
  pub waiting_tally : IsTally s.waiting_by_device s.waiting
  pub active_bound : s.active ≤ s.global_limit
  pub device_bound : (d : String) → Tally.get d s.active_by_device ≤ s.device_limit
  pub background_bound :
      (d : String) → Tally.get d s.background_by_device ≤ s.background_device_limit
  pub waiting_bound : s.waiting ≤ s.global_wait_limit
  pub device_waiting_bound : (d : String) → Tally.get d s.waiting_by_device ≤ s.device_wait_limit
  pub waiting_counts : (d : String) → Tally.get d s.waiting_by_device ≡ queued s d
  pub held_total : s.active ≡ length s.held
  pub held_counts : (d : String) → Tally.get d s.active_by_device ≡ count (is_on d) s.held
  pub held_background :
      (d : String) → Tally.get d s.background_by_device ≡ count (is_background_on d) s.held

-- No queued waiter of the workload could be granted now.
abbrev pub NoneEligible : Workload → Scheduler → Type 0
NoneEligible kind s =
    (d : String) → is_nonempty (queue_of (queues kind s) d) ≡ true → can_grant s d kind ≡ false

pub record IsSettled (s : Scheduler) : Type 0 where
  pub foreground_done : NoneEligible foreground s
  pub background_done : NoneEligible background s

pub fresh-IsSound : (l : Limits) → IsSound (fresh l)
unfolding fresh empty queue_of lookup Tally.get Tally.total
fresh-IsSound l = record {
  fair_foreground = empty-IsFair foreground;
  fair_background = empty-IsFair background;
  active_tally = record { nodup = tt; positive = tt; sum = refl };
  background_tally = record { nodup = tt; positive = tt; sum = refl };
  waiting_tally = record { nodup = tt; positive = tt; sum = refl };
  active_bound = omega arith;
  device_bound = λ d. omega arith;
  background_bound = λ d. omega arith;
  waiting_bound = omega arith;
  device_waiting_bound = λ d. omega arith;
  waiting_counts = λ d. omega arith;
  held_total = refl;
  held_counts = λ d. refl;
  held_background = λ d. refl;
}

pub fresh-IsSettled : (l : Limits) → IsSettled (fresh l)
unfolding fresh empty queue_of lookup
fresh-IsSettled l = record {
  foreground_done = λ d h. absurd (ground arith);
  background_done = λ d h. absurd (ground arith);
}

pub queued_of_kind :
    (kind : Workload) (s : Scheduler) (d : String)
    → length (queue_of (queues kind s) d) ≤ queued s d
queued_of_kind foreground s d = omega arith
queued_of_kind background s d = omega arith

pub with_own_total : {d : Dict ℕ} {n : ℕ} → IsTally d n → IsTally d (Tally.total d)
with_own_total t = record { nodup = t.nodup; positive = t.positive; sum = refl }

-- ===== src/Scheduler/State.antt =====
-- The state of `TransportScheduler` in host/transport/scheduler.py, and its constructor. The clock
-- counts whole milliseconds, so `waited_ms` is a difference of two of its values.
use rkcockpit.Common.{Bool, List, Option, String, [], if◌then◌else◌, leb, none, some, ℕ, ◌&&◌}
use rkcockpit.Common.Dict.{Dict}
use rkcockpit.Scheduler.Waiter.{Waiter, Workload, foreground, background}
use rkcockpit.Scheduler.ClassQueue
use rkcockpit.Scheduler.ClassQueue.{ClassQueue}
use rkcockpit.Scheduler.Tally

abbrev pub foreground_burst : ℕ
foreground_burst = 8

-- `deque(maxlen=4096)`
abbrev pub max_samples : ℕ
max_samples = 4096

pub record Limits : Type 0 where
  pub global_limit : ℕ
  pub device_limit : ℕ
  pub background_device_limit : ℕ
  pub global_wait_limit : ℕ
  pub device_wait_limit : ℕ
  pub wait_timeout : ℕ

abbrev pub default_limits : Limits
default_limits = record {
  global_limit = 32;
  device_limit = 8;
  background_device_limit = 6;
  global_wait_limit = 128;
  device_wait_limit = 16;
  wait_timeout = 5000;
}

-- `_wait_count`, `_wait_total_ms`, `_wait_max_ms` and `_wait_samples` of one workload.
pub record WaitStats : Type 0 where
  pub wait_count : ℕ
  pub wait_total_ms : ℕ
  pub wait_max_ms : ℕ
  pub wait_samples : List ℕ

abbrev no_waits : WaitStats
no_waits = record { wait_count = 0; wait_total_ms = 0; wait_max_ms = 0; wait_samples = [] }

pub record Peaks : Type 0 where
  pub peak_active : ℕ
  pub peak_waiting : ℕ
  pub peak_device_active : ℕ
  pub peak_device_waiting : ℕ
  pub peak_background_device : ℕ

abbrev no_peaks : Peaks
no_peaks = record {
  peak_active = 0;
  peak_waiting = 0;
  peak_device_active = 0;
  peak_device_waiting = 0;
  peak_background_device = 0;
}

-- `held` are the waiters with `granted` set whose lease is not released, `cancelled` those with
-- `error` set: flags of the waiter objects in the source. `next_ident` makes each object its own.
pub record Scheduler : Type 0 where
  pub limits : Limits
  pub open limits use *
  pub active : ℕ
  pub active_by_device : Dict ℕ
  pub background_by_device : Dict ℕ
  pub waiting : ℕ
  pub waiting_by_device : Dict ℕ
  pub foreground_queues : ClassQueue
  pub background_queues : ClassQueue
  pub foreground_streak : ℕ
  pub peaks : Peaks
  pub queue_full_total : ℕ
  pub wait_timeout_total : ℕ
  pub foreground_waits : WaitStats
  pub background_waits : WaitStats
  pub held : List Waiter
  pub cancelled : List Waiter
  pub next_ident : ℕ

-- The limits that the constructor accepts; any other raises ValueError.
unfoldable pub limits_ok : Limits → Bool
limits_ok l =
    leb 1 l.global_limit
    && leb 1 l.device_limit
    && leb l.background_device_limit l.device_limit
    && leb 1 l.global_wait_limit
    && leb 1 l.device_wait_limit
    && leb 1 l.wait_timeout

unfoldable pub fresh : Limits → Scheduler
fresh l = record {
  limits = l;
  active = 0;
  active_by_device = [];
  background_by_device = [];
  waiting = 0;
  waiting_by_device = [];
  foreground_queues = ClassQueue.empty;
  background_queues = ClassQueue.empty;
  foreground_streak = 0;
  peaks = no_peaks;
  queue_full_total = 0;
  wait_timeout_total = 0;
  foreground_waits = no_waits;
  background_waits = no_waits;
  held = [];
  cancelled = [];
  next_ident = 0;
}

unfoldable pub init : Limits → Option Scheduler
unfolding limits_ok fresh
init l = if limits_ok l then some (fresh l) else none

abbrev pub queues : Workload → Scheduler → ClassQueue
queues foreground s = s.foreground_queues
queues background s = s.background_queues

abbrev pub with_queues : Workload → ClassQueue → Scheduler → Scheduler
with_queues foreground q s = record s { foreground_queues = q }
with_queues background q s = record s { background_queues = q }

-- The properties `active`, `waiting`, `active_for` and `waiting_for`.
unfoldable pub active_for : String → Scheduler → ℕ
unfolding Tally.get
active_for device s = Tally.get device s.active_by_device

unfoldable pub waiting_for : String → Scheduler → ℕ
unfolding Tally.get
waiting_for device s = Tally.get device s.waiting_by_device

-- ===== src/Scheduler/Calls.antt =====
-- The methods of `TransportScheduler` and `Lease` in host/transport/scheduler.py that change the
-- state. `acquire` is cut where it waits: `enter` runs to its first wait, and `wake` is one round of
-- its `while` loop; between them other threads run. `asked` is the clock that the deadline counts from, and `now` the
-- clock under the lock.
pub mod Ready
pub mod Entering
pub mod Leaving
pub mod Releasing
pub mod Removal
pub mod Effects
use rkcockpit.Common.{
  Bool, Option, String, false, if◌then◌else◌, is_nonempty, leb, length, max, none, some, str_eq,
  true, ℕ, ◌++◌, ◌+◌, ◌-◌, ◌==◌, ◌||◌,
}
use rkcockpit.Common.Dict.{erase}
use rkcockpit.Scheduler.Waiter.{Waiter, Workload, foreground, background, member, remove}
use rkcockpit.Scheduler.ClassQueue.{enqueue, remove_waiter, drop_device}
use rkcockpit.Scheduler.Tally
use rkcockpit.Scheduler.State.{Scheduler, queues, with_queues}
use rkcockpit.Scheduler.Grant.{grant}

-- What the methods raise: ValueError, TransportError with its four texts, and the KeyError and
-- RuntimeErrors of broken books.
pub data Error : Type 0 where
  bad_workload bad_timeout : Error
  global_queue_full device_queue_full timed_out device_removed : Error
  missing_key underflow background_underflow : Error

pub data Outcome {ℓ} (A : Type ℓ) : Type ℓ where
  returned : A → Scheduler → Outcome A
  raised : Error → Scheduler → Outcome A

-- `str(device_id or "<unknown>")`
unfoldable pub device_name : String → String
device_name d = if str_eq d "" then "<unknown>" else d

-- `workload in _WORKLOADS`
unfoldable pub workload_of : String → Option Workload
workload_of name =
    if str_eq name "foreground"
    then some foreground
    else if str_eq name "background"
    then some background
    else none

-- Grants, and then returns `a`; a KeyError in the books escapes.
unfoldable pub granting {ℓ} : {A : Type ℓ} → ℕ → A → Scheduler → Outcome A
unfolding grant
granting now a s = elim (grant now s) [ none ↦ raised missing_key s | some t ↦ returned a t ]

abbrev pub new_waiter : ℕ → String → Workload → Scheduler → Waiter
new_waiter now device workload s = record {
  ident = s.next_ident;
  device_id = device;
  workload = workload;
  started = now;
}

-- Lines 247-259.
unfoldable pub queue_up : Waiter → Scheduler → Scheduler
queue_up w s =
    let q = enqueue w (queues w.workload s) in
    let waiting_by_device = Tally.bump w.device_id s.waiting_by_device in
    record (with_queues w.workload q s) {
      waiting = s.waiting + 1;
      waiting_by_device = waiting_by_device;
      next_ident = s.next_ident + 1;
      peaks = record s.peaks {
        peak_waiting = max s.peaks.peak_waiting (s.waiting + 1);
        peak_device_waiting =
            max s.peaks.peak_device_waiting (Tally.get w.device_id waiting_by_device);
      };
    }

-- The locked part of `acquire` up to the loop, lines 240-260.
unfoldable pub enter_locked : ℕ → String → Workload → Scheduler → Outcome Waiter
unfolding queue_up granting
enter_locked now device workload s =
    let full = record s { queue_full_total = s.queue_full_total + 1 } in
    let w = new_waiter now device workload s in
    if leb s.global_wait_limit s.waiting
    then raised global_queue_full full
    else if leb s.device_wait_limit (Tally.get device s.waiting_by_device)
    then raised device_queue_full full
    else granting now w (queue_up w s)

abbrev pub with_deadline : ℕ → Outcome Waiter → Outcome (Waiter × ℕ)
with_deadline deadline (returned w s) = returned (w, deadline) s
with_deadline deadline (raised e s) = raised e s

-- `self.wait_timeout if timeout is None else float(timeout)`
abbrev pub wait_of : Option ℕ → ℕ → ℕ
wait_of none default = default
wait_of (some t) default = t

-- `acquire` up to its loop. The deadline is `asked` plus the timeout.
unfoldable pub enter : ℕ → ℕ → String → String → Option ℕ → Scheduler → Outcome (Waiter × ℕ)
unfolding enter_locked device_name workload_of
enter asked now device name timeout s = elim (workload_of name) [
  | none ↦ raised bad_workload s
  | some workload ↦
      let wait = wait_of timeout s.wait_timeout in
      if wait == 0
      then raised bad_timeout s
      else with_deadline (asked + wait) (enter_locked now (device_name device) workload s)
]

-- `_remove_waiter_locked`: the state afterwards, unchanged where the method returns False.
-- A device missing in `_waiting_by_device` raises KeyError, `none`.
unfoldable pub give_up : Waiter → Scheduler → Option Scheduler
give_up w s = elim (remove_waiter w (queues w.workload s)) [
  | none ↦ some s
  | some q ↦ elim (Tally.take_one w.device_id s.waiting_by_device) [
    | none ↦ none
    | some d ↦
        some
          (record (with_queues w.workload q s) { waiting = s.waiting - 1; waiting_by_device = d })
  ]
]

-- The lines of `acquire` after its deadline, 264-267.
unfoldable pub expire : ℕ → Waiter → Scheduler → Outcome (Option Waiter)
unfolding give_up grant
expire now w s = elim (give_up w s) [
  | none ↦ raised missing_key s
  | some t ↦ elim (grant now t) [
    | none ↦ raised missing_key t
    | some u ↦ raised timed_out (record u { wait_timeout_total = u.wait_timeout_total + 1 })
  ]
]

-- One round of the loop of `acquire`, and its end: `some` lease, or `none` for another wait.
unfoldable pub wake : ℕ → Waiter → ℕ → Scheduler → Outcome (Option Waiter)
unfolding expire
wake now w deadline s =
    if member w s.held
    then returned (some w) s
    else if member w s.cancelled
    then raised device_removed s
    else if leb deadline now
    then expire now w s
    else returned none s

-- `_release`, with the error raised where the books are broken.
unfoldable pub release_locked : ℕ → String → Workload → Scheduler → Outcome (Unit {0})
unfolding granting
release_locked now device workload s =
    let current = Tally.get device s.active_by_device in
    let lowered = record s {
      active = s.active - 1;
      active_by_device = Tally.lower device current s.active_by_device;
    } in
    let background_count = Tally.get device s.background_by_device in
    let both = record lowered {
      background_by_device = Tally.lower device background_count s.background_by_device;
    } in
    if s.active == 0 || current == 0 then raised underflow s else elim workload [
      | foreground ↦ granting now tt lowered
      | background ↦
          if background_count == 0
          then raised background_underflow lowered
          else granting now tt both
    ]

abbrev pub as_released : Outcome (Unit {0}) → Outcome Bool
as_released (returned _ s) = returned true s
as_released (raised e s) = raised e s

-- `Lease.release`. A lease is released when its waiter is no longer in `held`.
unfoldable pub release : ℕ → Waiter → Scheduler → Outcome Bool
unfolding release_locked
release now w s =
    if member w s.held
    then as_released
        (release_locked now w.device_id w.workload (record s { held = remove w s.held }))
    else returned false s

-- The loop body of `remove_device` for one workload.
unfoldable pub cancel_queue : String → Workload → Scheduler → Scheduler
cancel_queue device kind s =
    let (queue, q) = drop_device device (queues kind s) in
    let t = with_queues kind q s in
    if is_nonempty queue
    then record t {
      cancelled = s.cancelled ++ queue;
      waiting = s.waiting - length queue;
      waiting_by_device = erase device s.waiting_by_device;
    }
    else t

unfoldable pub remove_device : ℕ → String → Scheduler → Outcome (Unit {0})
unfolding cancel_queue granting device_name
remove_device now device s =
    let d = device_name device in
    granting now tt (cancel_queue d background (cancel_queue d foreground s))

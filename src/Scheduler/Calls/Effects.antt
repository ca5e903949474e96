-- ===== src/Scheduler/Calls/Effects.antt =====
-- What the removal of a device does to its waiters (host/transport/scheduler.py).
use rkcockpit.Common.{
  String, ap, append-nil, ap₂, arith, if◌then◌else◌, length, refl, ℕ, ◌++◌, ◌∙◌, ◌≡◌,
}
use rkcockpit.Scheduler.Waiter.{Waiter, Workload, foreground, background, workload_eq}
use rkcockpit.Scheduler.ClassQueue.{queue_of, drop_device}
use rkcockpit.Scheduler.ClassQueue.Edits.{queue_of-drop_device_self, drop_device-queue}
use rkcockpit.Scheduler.State.{Scheduler, queues, waiting_for}
use rkcockpit.Scheduler.Grant.Loop.{grant-Settles}
use rkcockpit.Scheduler.Sound.{queued}
use rkcockpit.Scheduler.Calls.{cancel_queue, device_name, remove_device, returned}
use rkcockpit.Scheduler.Calls.Ready.{IsReady, granting-eq-returned}
use rkcockpit.Scheduler.Calls.Removal.{cancelled-IsSound}

-- The fields of `cancel_queue d kind s`.
record CancelsOne (d : String) (kind : Workload) (s t : Scheduler) : Type 0 where
  cancelled : t.cancelled ≡ s.cancelled ++ queue_of (queues kind s) d
  foreground_queues : t.foreground_queues ≡ (
      if workload_eq kind foreground
      then (drop_device d s.foreground_queues).1
      else s.foreground_queues)
  background_queues : t.background_queues ≡ (
      if workload_eq kind background
      then (drop_device d s.background_queues).1
      else s.background_queues)

cancel_queue-CancelsOne :
    (d : String) (kind : Workload) (s : Scheduler) → CancelsOne d kind s (cancel_queue d kind s)
unfolding cancel_queue workload_eq
cancel_queue-CancelsOne d foreground s =
    let e = drop_device-queue d s.foreground_queues in
    record {
      cancelled = ground (arith, e, append-nil s.cancelled);
      foreground_queues = ground arith;
      background_queues = ground arith;
    }
cancel_queue-CancelsOne d background s =
    let e = drop_device-queue d s.background_queues in
    record {
      cancelled = ground (arith, e, append-nil s.cancelled);
      foreground_queues = ground arith;
      background_queues = ground arith;
    }

-- Between two calls of a scheduler, removing a device returns, wakes every waiter of the device with
-- an error, in the order of its foreground and then its background queue, and leaves none of them
-- queued or counted.
pub remove_device-lem :
    (now : ℕ) (device : String) (s : Scheduler)
    → IsReady s
    → (t : Scheduler) × (remove_device now device s ≡ returned tt t)
      × (t.cancelled
          ≡ s.cancelled
            ++ queue_of s.foreground_queues (device_name device)
            ++ queue_of s.background_queues (device_name device))
      × (queued t (device_name device) ≡ 0)
      × (waiting_for (device_name device) t ≡ 0)
unfolding remove_device waiting_for workload_eq
remove_device-lem now device s h =
    let d = device_name device in
    let first = cancel_queue d foreground s in
    let second = cancel_queue d background first in
    let a = cancel_queue-CancelsOne d foreground s in
    let b = cancel_queue-CancelsOne d background first in
    let (t, e, r) = grant-Settles now second (cancelled-IsSound s h.sound d _ _ refl refl) in
    let gone : queued t d ≡ 0 = omega (
      arith,
      r.queued_less d,
      ap (length {A = Waiter}) (
          ap (λ q. queue_of q d) (b.foreground_queues ∙ a.foreground_queues)
          ∙ queue_of-drop_device_self foreground s.foreground_queues h.sound.fair_foreground d),
      ap (length {A = Waiter}) (
          ap (λ q. queue_of q d) b.background_queues
          ∙ ap (λ q. queue_of (drop_device d q).1 d) a.background_queues
          ∙ queue_of-drop_device_self background s.background_queues h.sound.fair_background d),
    ) in
    (
      t,
      granting-eq-returned now tt second t e,
      r.cancelled ∙ b.cancelled ∙ ap₂ ◌++◌ a.cancelled (ap (λ q. queue_of q d) a.background_queues),
      gone,
      r.sound.waiting_counts d ∙ gone,
    )

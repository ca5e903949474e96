-- ===== src/Scheduler/ClassQueue/Edits.antt =====
-- Entering a queue, leaving it early, and the removal of a device, in
-- host/transport/scheduler.py: each changes the queue and the turn of one device.
use rkcockpit.Common.{
  All-append, Bool, List, String, [], arith, eq_iff, eq_refl, false, filter, if◌then◌else◌,
  is_nonempty, refl, some, str_eq, subst, true, ◌++◌, ◌∷◌, ◌≡◌,
}
use rkcockpit.Common.Dict.{erase}
use rkcockpit.Scheduler.Waiter.{Waiter, Workload, member, remove, All-remove, is_nonempty_of_remove}
use rkcockpit.Scheduler.ClassQueue.{
  ClassQueue, queue_of, is_other, enqueue, without_device, remove_waiter, drop_device,
}
use rkcockpit.Scheduler.ClassQueue.Fairness.{
  turns_of, IsFair, Changed, Changed-IsFair, queue_of-insert, queue_of-erase, turns_of-append,
}

turns_of-others :
    (device d : String) (rr : List String)
    → turns_of d (filter (is_other device) rr) ≡ (if str_eq device d then 0 else turns_of d rr)
turns_of-others device d [] = ground arith
turns_of-others device d (x ∷ rr) =
    ground (arith, turns_of-others device d rr, eq_iff x device, eq_iff x d, eq_iff device d)

is_nonempty_snoc : (xs : List Waiter) (w : Waiter) → is_nonempty (xs ++ w ∷ []) ≡ true
is_nonempty_snoc [] w = refl
is_nonempty_snoc (x ∷ xs) w = refl

module _ (kind : Workload) (q : ClassQueue) (fair : IsFair kind q) where
  enqueue-Changed :
      (w : Waiter) → Changed q (enqueue w q) w.device_id (queue_of q w.device_id ++ w ∷ [])
  unfolding enqueue
  enqueue-Changed w = record {
    queues = λ d. queue_of-insert q w.device_id d _ _;
    turns_self = by_queue (queue_of q w.device_id) (fair.turns w.device_id);
    turns_other = λ d n. others (queue_of q w.device_id) d n;
  }
    where
      device : String
      device = w.device_id

      by_queue :
          (ws : List Waiter)
          → turns_of device q.round_robin ≡ (if is_nonempty ws then 1 else 0)
          → turns_of device (if is_nonempty ws then q.round_robin else q.round_robin ++ device ∷ [])
            ≡ (if is_nonempty (ws ++ w ∷ []) then 1 else 0)
      by_queue [] e =
          ground (arith, turns_of-append device q.round_robin (device ∷ []), eq_refl device)
      by_queue (v ∷ ws) e = e

      others :
          (ws : List Waiter) (d : String)
          → str_eq device d ≡ false
          → turns_of d (if is_nonempty ws then q.round_robin else q.round_robin ++ device ∷ [])
            ≡ turns_of d q.round_robin
      others [] d n = ground (arith, turns_of-append d q.round_robin (device ∷ []))
      others (v ∷ ws) d n = refl

  -- A new waiter stands last in its device's queue; a device that had none gets the last turn.
  pub enqueue-IsFair : (w : Waiter) → w.workload ≡ kind → IsFair kind (enqueue w q)
  enqueue-IsFair w k =
      Changed-IsFair kind q (enqueue w q) w.device_id _ fair (enqueue-Changed w)
        (All-append _ (queue_of q w.device_id) (w ∷ []) (fair.owned w.device_id) ((refl, k), tt))

  without_device-Changed : (device : String) → Changed q (without_device device q) device []
  unfolding without_device
  without_device-Changed device = record {
    queues = λ d. queue_of-erase q device d _;
    turns_self = ground (arith, turns_of-others device device q.round_robin, eq_refl device);
    turns_other = λ d n. ground (arith, turns_of-others device d q.round_robin);
  }

  remove_waiter_cases :
      (w : Waiter) {q' : ClassQueue} (ws : List Waiter)
      → remove w (queue_of q w.device_id) ≡ ws
      → remove_waiter w q ≡ some q'
      → Changed q q' w.device_id ws
  unfolding remove_waiter
  remove_waiter_cases w [] e h =
      subst (λ r. Changed q r w.device_id []) (ground arith) (without_device-Changed w.device_id)
  remove_waiter_cases w {q'} (v ∷ ws) e h = record {
    queues = λ d. ground (arith, queue_of-insert q w.device_id d (v ∷ ws) q.round_robin);
    turns_self =
        ground (arith, fair.turns w.device_id, is_nonempty_of_remove w (queue_of q w.device_id));
    turns_other = λ d n. ground arith;
  }

  -- A waiter that gives up leaves its queue, and the queue alone.
  pub remove_waiter-lem :
      (w : Waiter) {q' : ClassQueue}
      → remove_waiter w q ≡ some q'
      → (member w (queue_of q w.device_id) ≡ true)
        × IsFair kind q'
        × ((d : String)
            → queue_of q' d
              ≡ (if str_eq w.device_id d then remove w (queue_of q w.device_id) else queue_of q d))
  unfolding remove_waiter
  remove_waiter-lem w {q'} h =
      let changed = remove_waiter_cases w (remove w (queue_of q w.device_id)) refl h in
      (
        ground arith,
        Changed-IsFair kind q q' w.device_id _ fair changed
            (All-remove _ w (queue_of q w.device_id) (fair.owned w.device_id)),
        changed.queues,
      )

  drop_device-Changed : (device : String) → Changed q (drop_device device q).1 device []
  unfolding drop_device
  drop_device-Changed device = by_queue (is_nonempty (queue_of q device)) refl
    where
      by_queue :
          (b : Bool)
          → is_nonempty (queue_of q device) ≡ b
          → Changed q
              (if b then without_device device q else record q { queues = erase device q.queues })
              device
              []
      by_queue true e = without_device-Changed device
      by_queue false e = record {
        queues = λ d. queue_of-erase q device d _;
        turns_self = ground (arith, fair.turns device);
        turns_other = λ d n. refl;
      }

  pub drop_device-IsFair : (device : String) → IsFair kind (drop_device device q).1
  drop_device-IsFair device = Changed-IsFair kind q _ device [] fair (drop_device-Changed device) tt

  pub queue_of-drop_device :
      (device d : String)
      → queue_of (drop_device device q).1 d ≡ (if str_eq device d then [] else queue_of q d)
  queue_of-drop_device device = (drop_device-Changed device).queues

pub queue_of-enqueue :
    (w : Waiter) (q : ClassQueue) (d : String)
    → queue_of (enqueue w q) d
      ≡ (if str_eq w.device_id d then queue_of q w.device_id ++ w ∷ [] else queue_of q d)
unfolding enqueue
queue_of-enqueue w q d = queue_of-insert q w.device_id d _ _

pub drop_device-queue :
    (device : String) (q : ClassQueue) → (drop_device device q).0 ≡ queue_of q device
unfolding drop_device
drop_device-queue device q = refl

pub queue_of-drop_device_self :
    (kind : Workload) (q : ClassQueue) (fair : IsFair kind q) (device : String)
    → queue_of (drop_device device q).1 device ≡ []
queue_of-drop_device_self kind q fair device =
    ground (arith, queue_of-drop_device kind q fair device device, eq_refl device)

-- ===== src/Scheduler/ClassQueue.antt =====
-- `_queues[workload]` and `_round_robin[workload]` of host/transport/scheduler.py: a FIFO queue for
-- each device, and the turn of the devices that have one.
pub mod Fairness
pub mod Edits
use rkcockpit.Common.{
  Bool, List, Option, String, [], filter, if◌then◌else◌, is_nonempty, none, not, some, str_eq, ◌++◌,
  ◌∷◌,
}
use rkcockpit.Common.Dict.{Dict, lookup, insert, erase}
use rkcockpit.Scheduler.Waiter.{Waiter, member, remove}

pub record ClassQueue : Type 0 where
  pub queues : Dict (List Waiter)
  pub round_robin : List String

unfoldable pub empty : ClassQueue
empty = record { queues = []; round_robin = [] }

abbrev pub or_nil : Option (List Waiter) → List Waiter
or_nil none = []
or_nil (some ws) = ws

-- `queues.get(device_id)`, where a missing queue and an empty one both count as false.
unfoldable pub queue_of : ClassQueue → String → List Waiter
queue_of q device = or_nil (lookup device q.queues)

abbrev pub is_other : String → String → Bool
is_other device item = not (str_eq item device)

-- Lines 248-252 of `acquire`.
unfoldable pub enqueue : Waiter → ClassQueue → ClassQueue
enqueue w q =
    let device = w.device_id in
    let queue = queue_of q device in
    record {
      queues = insert device (queue ++ w ∷ []) q.queues;
      round_robin = if is_nonempty queue then q.round_robin else q.round_robin ++ device ∷ [];
    }

-- Lines 154-157: a device that still has waiters goes behind the others, any other loses its turn.
unfoldable pub after_pop : String → List String → Dict (List Waiter) → List Waiter → ClassQueue
after_pop device rr queues queue =
    if is_nonempty queue
    then record { queues = insert device queue queues; round_robin = rr ++ device ∷ [] }
    else record { queues = erase device queues; round_robin = rr }

-- The `for` loop of `_pop_eligible_locked`. Its rounds are fixed at `len(rr)`, so they pop the items
-- that stood in `rr` at the start (`turn`); what was appended meanwhile (`kept`) stands behind them.
unfoldable pub pop_from :
    (String → Bool) → List String → List String → Dict (List Waiter) → Option Waiter × ClassQueue
pop_from can_grant [] kept queues = (none, record { queues = queues; round_robin = kept })
pop_from can_grant (device ∷ turn) kept queues = elim (or_nil (lookup device queues)) [
  | [] ↦ pop_from can_grant turn kept (erase device queues)
  | waiter ∷ queue ↦
      let skipped = pop_from can_grant turn (kept ++ device ∷ []) queues in
      if can_grant device
      then (some waiter, after_pop device (turn ++ kept) queues queue)
      else skipped
]

unfoldable pub pop_eligible : (String → Bool) → ClassQueue → Option Waiter × ClassQueue
unfolding pop_from after_pop
pop_eligible can_grant q = pop_from can_grant q.round_robin [] q.queues

-- A device whose queue is gone has no turn: lines 219-222 and 347-349.
unfoldable pub without_device : String → ClassQueue → ClassQueue
without_device device q = record {
  queues = erase device q.queues;
  round_robin = filter (is_other device) q.round_robin;
}

-- `_remove_waiter_locked`, the part that edits the queue: `none` where it returns False.
unfoldable pub remove_waiter : Waiter → ClassQueue → Option ClassQueue
remove_waiter w q =
    let device = w.device_id in
    let queue = queue_of q device in
    let rest = remove w queue in
    if member w queue
    then some (
        if is_nonempty rest
        then record q { queues = insert device rest q.queues }
        else without_device device q)
    else none

-- The part of `remove_device` that drops a device's queue and its turn. The queue is returned.
unfoldable pub drop_device : String → ClassQueue → List Waiter × ClassQueue
drop_device device q =
    let queue = queue_of q device in
    (
      queue,
      (if is_nonempty queue
          then without_device device q
          else record q { queues = erase device q.queues }),
    )

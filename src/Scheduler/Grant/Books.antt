-- ===== src/Scheduler/Grant/Books.antt =====
-- The books of one grant (`_grant_locked`, lines 179-204) keep the invariant.
use mathlib.Core.Option
use rkcockpit.Common.{
  String, [], ap, arith, count, count-append, eq_iff, eq_refl, if◌then◌else◌, length, length-append,
  refl, some, str_eq, true, ℕ, ◌++◌, ◌+◌, ◌<◌, ◌∷◌, ◌≡◌, ◌≤◌,
}
use rkcockpit.Common.Dict.{Dict}
use rkcockpit.Scheduler.Waiter.{Waiter, Workload, foreground, background, workload_eq}
use rkcockpit.Scheduler.ClassQueue.{ClassQueue, queue_of}
use rkcockpit.Scheduler.ClassQueue.Fairness.{Popped}
use rkcockpit.Scheduler.Tally
use rkcockpit.Scheduler.Tally.{Taken, get-bump, bump-IsTally, take_one-Taken}
use rkcockpit.Scheduler.State.{Scheduler, queues, with_queues}
use rkcockpit.Scheduler.Grant.{can_grant, booked, account}
use rkcockpit.Scheduler.Sound.{
  IsSound, is_on, is_background_on, queued, queued_of_kind, with_own_total,
}
use rkcockpit.Scheduler.Grant.Turns.{Pops}

-- What a grant is allowed by.
pub record HasRoom (s : Scheduler) (d : String) (kind : Workload) : Type 0 where
  pub global : s.active < s.global_limit
  pub device : Tally.get d s.active_by_device < s.device_limit
  pub background :
      kind ≡ background → Tally.get d s.background_by_device < s.background_device_limit

pub can_grant-HasRoom :
    (s : Scheduler) (d : String) (kind : Workload) → can_grant s d kind ≡ true → HasRoom s d kind
unfolding can_grant workload_eq
can_grant-HasRoom s d foreground h = record {
  global = ground arith;
  device = ground arith;
  background = λ e. absurd (cc);
}
can_grant-HasRoom s d background h = record {
  global = ground arith;
  device = ground arith;
  background = λ e. ground arith;
}

-- The state in which the books of `w` are written: its queue is popped.
abbrev popped_state : Workload → ClassQueue → ℕ → Scheduler → Scheduler
popped_state kind q streak s = record (with_queues kind q s) { foreground_streak = streak }

-- What one grant leaves behind.
pub record Booked (s : Scheduler) (w : Waiter) (s' : Scheduler) : Type 0 where
  pub sound : IsSound s'
  pub limits : s'.limits ≡ s.limits
  pub active : s'.active ≡ s.active + 1
  pub held : s'.held ≡ s.held ++ w ∷ []
  pub queued_less :
      (d : String) → queued s' d + (if str_eq w.device_id d then 1 else 0) ≡ queued s d
  pub cancelled : s'.cancelled ≡ s.cancelled
  pub next_ident : s'.next_ident ≡ s.next_ident

-- Books that keep the invariant, given what is common to both workloads.
module _ (s : Scheduler) (sound : IsSound s) (w : Waiter) (d' : Dict ℕ) (q : ClassQueue)
    (kind : Workload) (p : Popped kind (λ d. can_grant s d kind) (queues kind s) w q)
    (room : HasRoom s w.device_id kind)
    (taken : Taken w.device_id s.waiting_by_device d' s.waiting) where
  length-popped :
      (d : String)
      → length (queue_of (queues kind s) d)
        ≡ length (queue_of q d) + (if str_eq w.device_id d then 1 else 0)
  length-popped d =
      ground (arith, p.queues' d, ap (length {A = Waiter}) p.head, eq_iff w.device_id d)

  device_bound' :
      (d : String) → Tally.get d (Tally.bump w.device_id s.active_by_device) ≤ s.device_limit
  device_bound' d =
      ground (arith, get-bump w.device_id d s.active_by_device, room.device, sound.device_bound d)

  device_waiting_bound' : (d : String) → Tally.get d d' ≤ s.device_wait_limit
  device_waiting_bound' d =
      ground (
        arith,
        taken.counts d,
        sound.device_waiting_bound d,
        sound.device_waiting_bound w.device_id,
      )

  -- The device that is popped has one waiter less, in the books as in the queues.
  counts_taken :
      (d : String)
      → Tally.get d s.waiting_by_device ≡ Tally.get d d' + (if str_eq w.device_id d then 1 else 0)
  counts_taken d = ground (
    arith,
    taken.counts d,
    sound.waiting_counts w.device_id,
    length-popped w.device_id,
    eq_refl w.device_id,
    eq_iff w.device_id d,
    queued_of_kind kind s w.device_id,
  )

  held_total' : s.active + 1 ≡ length (s.held ++ w ∷ [])
  held_total' = omega (arith, sound.held_total, length-append s.held (w ∷ []))

  held_counts' :
      (d : String)
      → Tally.get d (Tally.bump w.device_id s.active_by_device) ≡ count (is_on d) (s.held ++ w ∷ [])
  held_counts' d = ground (
    arith,
    get-bump w.device_id d s.active_by_device,
    sound.held_counts d,
    sound.held_counts w.device_id,
    count-append (is_on d) s.held (w ∷ []),
    eq_iff w.device_id d,
  )

module _ (s : Scheduler) (sound : IsSound s) (now : ℕ) (w : Waiter) (streak : ℕ) (d' : Dict ℕ)
    (q : ClassQueue) where
  booked-foreground :
      Popped foreground (λ d. can_grant s d foreground) s.foreground_queues w q
      → HasRoom s w.device_id foreground
      → Taken w.device_id s.waiting_by_device d' s.waiting
      → Booked s w (booked now w (popped_state foreground q streak s) d')
  unfolding booked workload_eq
  booked-foreground p room taken =
      let lengths = length-popped s sound w d' q foreground p room taken in
      let waiting = counts_taken s sound w d' q foreground p room taken in
      let held = held_counts' s sound w d' q foreground p room taken in
      rw p.of_kind (record {
        sound = record {
          fair_foreground = p.fair;
          fair_background = sound.fair_background;
          active_tally = bump-IsTally w.device_id s.active_by_device s.active sound.active_tally;
          background_tally = sound.background_tally;
          waiting_tally = taken.tally;
          active_bound = omega (arith, room.global);
          device_bound = device_bound' s sound w d' q foreground p room taken;
          background_bound = sound.background_bound;
          waiting_bound = omega (arith, sound.waiting_bound);
          device_waiting_bound = device_waiting_bound' s sound w d' q foreground p room taken;
          waiting_counts = λ d. ground (arith, lengths d, waiting d, sound.waiting_counts d);
          held_total = rw p.of_kind at (held_total' s sound w d' q foreground p room taken);
          held_counts = λ d. rw p.of_kind at (held d);
          held_background = λ d. ground (
            arith,
            sound.held_background d,
            count-append (is_background_on d) s.held (record w { workload = foreground } ∷ []),
          );
        };
        limits = refl;
        active = refl;
        held = refl;
        queued_less = λ d. omega (arith, lengths d);
        cancelled = refl;
        next_ident = refl;
      })

  booked-background :
      Popped background (λ d. can_grant s d background) s.background_queues w q
      → HasRoom s w.device_id background
      → Taken w.device_id s.waiting_by_device d' s.waiting
      → Booked s w (booked now w (popped_state background q streak s) d')
  unfolding booked workload_eq
  booked-background p room taken =
      let lengths = length-popped s sound w d' q background p room taken in
      let waiting = counts_taken s sound w d' q background p room taken in
      let held = held_counts' s sound w d' q background p room taken in
      let bumped = λ (d : String). get-bump w.device_id d s.background_by_device in
      rw p.of_kind (record {
        sound = record {
          fair_foreground = sound.fair_foreground;
          fair_background = p.fair;
          active_tally = bump-IsTally w.device_id s.active_by_device s.active sound.active_tally;
          background_tally =
              with_own_total
                (bump-IsTally w.device_id s.background_by_device _ sound.background_tally);
          waiting_tally = taken.tally;
          active_bound = omega (arith, room.global);
          device_bound = device_bound' s sound w d' q background p room taken;
          background_bound =
              λ d. ground (arith, bumped d, room.background refl, sound.background_bound d);
          waiting_bound = omega (arith, sound.waiting_bound);
          device_waiting_bound = device_waiting_bound' s sound w d' q background p room taken;
          waiting_counts = λ d. ground (arith, lengths d, waiting d, sound.waiting_counts d);
          held_total = rw p.of_kind at (held_total' s sound w d' q background p room taken);
          held_counts = λ d. rw p.of_kind at (held d);
          held_background = λ d. ground (
            arith,
            sound.held_background d,
            sound.held_background w.device_id,
            bumped d,
            count-append (is_background_on d) s.held (record w { workload = background } ∷ []),
            eq_iff w.device_id d,
          );
        };
        limits = refl;
        active = refl;
        held = refl;
        queued_less = λ d. omega (arith, lengths d);
        cancelled = refl;
        next_ident = refl;
      })

-- A waiter at the head of a queue is counted.
waiting_pos :
    (s : Scheduler) (sound : IsSound s) (kind : Workload) (pops : Pops kind s)
    → 0 < Tally.get pops.waiter.device_id s.waiting_by_device
waiting_pos s sound kind pops = ground (
  arith,
  sound.waiting_counts pops.waiter.device_id,
  queued_of_kind kind s pops.waiter.device_id,
  ap (length {A = Waiter}) pops.popped.head,
)

-- A popped waiter has an entry in the books, so accounting for it raises nothing.
pub account-Booked :
    (s : Scheduler) (sound : IsSound s) (now : ℕ) (kind : Workload) (pops : Pops kind s)
    (streak : ℕ)
    → (s' : Scheduler) × (account now pops.waiter (popped_state kind pops.queues' streak s)
        ≡ some s')
      × Booked s pops.waiter s'
unfolding account
account-Booked s sound now foreground pops streak =
    let w = pops.waiter in
    let (d', e, taken) =
      take_one-Taken w.device_id s.waiting_by_device s.waiting sound.waiting_tally
        (waiting_pos s sound foreground pops) in
    (
      booked now w (popped_state foreground pops.queues' streak s) d',
      ap (Option.map (booked now w (popped_state foreground pops.queues' streak s))) e,
      booked-foreground s sound now w streak d' pops.queues' pops.popped
          (can_grant-HasRoom s w.device_id foreground pops.popped.allowed) taken,
    )
account-Booked s sound now background pops streak =
    let w = pops.waiter in
    let (d', e, taken) =
      take_one-Taken w.device_id s.waiting_by_device s.waiting sound.waiting_tally
        (waiting_pos s sound background pops) in
    (
      booked now w (popped_state background pops.queues' streak s) d',
      ap (Option.map (booked now w (popped_state background pops.queues' streak s))) e,
      booked-background s sound now w streak d' pops.queues' pops.popped
          (can_grant-HasRoom s w.device_id background pops.popped.allowed) taken,
    )

-- ===== src/Scheduler/Calls/Releasing.antt =====
-- `Lease.release` and `_release` (host/transport/scheduler.py).
use rkcockpit.Common.{
  String, count, length, length-append, count-append, if◌then◌else◌, str_eq, ◌+◌, Bool, Bool-cases,
  List, ap, arith, eq_iff, eq_refl, false, inl, inr, refl, true, ℕ, ◌++◌, ◌-◌, ◌<◌, ◌==◌, ◌||◌, ◌∙◌,
  ◌≡◌, ◌⊎◌,
}
use rkcockpit.Scheduler.Waiter.{
  Waiter, Workload, foreground, background, workload_eq, member, remove, count-remove,
  length-remove, count_pos_of_member,
}
use rkcockpit.Scheduler.Tally
use rkcockpit.Scheduler.Tally.{get-le-total, lower-Taken}
use rkcockpit.Scheduler.State.{active_for, Scheduler}
use rkcockpit.Scheduler.Grant.Loop.{grant-Settles}
use rkcockpit.Scheduler.Sound.{IsSound, is_on, is_background_on, queued, with_own_total}
use rkcockpit.Scheduler.Calls.{
  Outcome, granting, release_locked, release, as_released, returned, raised,
}
use rkcockpit.Scheduler.Calls.Ready.{IsReady, Clean, granting-Clean, granting-eq-returned}

-- The state after the books of a release, before the waiters are woken.
module _ (s : Scheduler) (sound : IsSound s) (w : Waiter) (m : member w s.held ≡ true) where
  active_pos : 0 < Tally.get w.device_id s.active_by_device
  active_pos =
      rw (sound.held_counts w.device_id)
        (count_pos_of_member (is_on w.device_id) w s.held m (eq_refl w.device_id))

  background_pos : w.workload ≡ background → 0 < Tally.get w.device_id s.background_by_device
  unfolding workload_eq
  background_pos e = rw (sound.held_background w.device_id) (
      count_pos_of_member (is_background_on w.device_id) w s.held m
        (ground (arith, eq_refl w.device_id)))

  active_total_pos : 0 < s.active
  active_total_pos =
      omega (arith, active_pos, get-le-total w.device_id s.active_by_device, sound.active_tally.sum)

  released_foreground :
      w.workload ≡ foreground
      → IsSound (record s {
        held = remove w s.held;
        active = s.active - 1;
        active_by_device =
            Tally.lower w.device_id (Tally.get w.device_id s.active_by_device) s.active_by_device;
      })
  unfolding workload_eq
  released_foreground e =
      let taken =
        lower-Taken w.device_id s.active_by_device s.active sound.active_tally active_pos in
      record {
        fair_foreground = sound.fair_foreground;
        fair_background = sound.fair_background;
        active_tally = taken.tally;
        background_tally = sound.background_tally;
        waiting_tally = sound.waiting_tally;
        active_bound = omega (arith, sound.active_bound);
        device_bound = λ d.
            ground (arith, taken.counts d, sound.device_bound d, sound.device_bound w.device_id);
        background_bound = sound.background_bound;
        waiting_bound = sound.waiting_bound;
        device_waiting_bound = sound.device_waiting_bound;
        waiting_counts = sound.waiting_counts;
        held_total = omega (arith, sound.held_total, length-remove w s.held m);
        held_counts = λ d. ground (
          arith,
          taken.counts d,
          sound.held_counts d,
          sound.held_counts w.device_id,
          active_pos,
          count-remove (is_on d) w s.held m,
          eq_iff w.device_id d,
        );
        held_background = λ d.
            ground
              (arith, sound.held_background d, count-remove (is_background_on d) w s.held m, e);
      }

  released_background :
      w.workload ≡ background
      → IsSound (record s {
        held = remove w s.held;
        active = s.active - 1;
        active_by_device =
            Tally.lower w.device_id (Tally.get w.device_id s.active_by_device) s.active_by_device;
        background_by_device =
            Tally.lower w.device_id
              (Tally.get w.device_id s.background_by_device)
              s.background_by_device;
      })
  unfolding workload_eq
  released_background e =
      let taken =
        lower-Taken w.device_id s.active_by_device s.active sound.active_tally active_pos in
      let taken_bg =
        lower-Taken w.device_id s.background_by_device _ sound.background_tally
          (background_pos e) in
      record {
        fair_foreground = sound.fair_foreground;
        fair_background = sound.fair_background;
        active_tally = taken.tally;
        background_tally = with_own_total taken_bg.tally;
        waiting_tally = sound.waiting_tally;
        active_bound = omega (arith, sound.active_bound);
        device_bound = λ d.
            ground (arith, taken.counts d, sound.device_bound d, sound.device_bound w.device_id);
        background_bound = λ d. ground (
          arith,
          taken_bg.counts d,
          sound.background_bound d,
          sound.background_bound w.device_id,
        );
        waiting_bound = sound.waiting_bound;
        device_waiting_bound = sound.device_waiting_bound;
        waiting_counts = sound.waiting_counts;
        held_total = omega (arith, sound.held_total, length-remove w s.held m);
        held_counts = λ d. ground (
          arith,
          taken.counts d,
          sound.held_counts d,
          sound.held_counts w.device_id,
          active_pos,
          count-remove (is_on d) w s.held m,
          eq_iff w.device_id d,
        );
        held_background = λ d. ground (
          arith,
          taken_bg.counts d,
          sound.held_background d,
          sound.held_background w.device_id,
          background_pos e,
          count-remove (is_background_on d) w s.held m,
          eq_iff w.device_id d,
        );
      }

as_released-Clean : (s : Scheduler) (o : Outcome (Unit {0})) → Clean s o → Clean s (as_released o)
as_released-Clean s (returned _ t) h = h
as_released-Clean s (raised e t) h = h

release_locked-Clean :
    (now : ℕ) (w : Waiter) (s : Scheduler)
    → IsSound s
    → member w s.held ≡ true
    → Clean s (release_locked now w.device_id w.workload (record s { held = remove w s.held }))
unfolding release_locked
release_locked-Clean now w s sound m = by_workload w.workload refl
  where
    no_underflow : (s.active == 0 || Tally.get w.device_id s.active_by_device == 0) ≡ false
    no_underflow = ground (arith, active_total_pos s sound w m, active_pos s sound w m)

    by_workload :
        (kind : Workload)
        → w.workload ≡ kind
        → Clean s (release_locked now w.device_id kind (record s { held = remove w s.held }))
    by_workload foreground e =
        rw (no_underflow, release_locked)
          (granting-Clean now tt s _ (released_foreground s sound w m e) refl)
    by_workload background e =
        let bg : (Tally.get w.device_id s.background_by_device == 0) ≡ false =
          ground (arith, background_pos s sound w m e) in
        rw (no_underflow, bg, release_locked)
          (granting-Clean now tt s _ (released_background s sound w m e) refl)

-- Releasing a lease never underflows: the scheduler is ready again, under the same limits.
pub release-Clean : (now : ℕ) (w : Waiter) (s : Scheduler) → IsReady s → Clean s (release now w s)
unfolding release
release-Clean now w s h = by_test (Bool-cases (member w s.held))
  where
    by_test : (member w s.held ≡ true) ⊎ (member w s.held ≡ false) → Clean s (release now w s)
    by_test (inl out) =
        rw (out, release) (as_released-Clean s _ (release_locked-Clean now w s h.sound out))
    by_test (inr back) = rw (back, release, Clean) (h, refl)

-- The state after a release of `w`: its lease is out no more, its slot has gone to those who waited for
-- it, and the counters say so.
abbrev pub IsFreed : Waiter → Scheduler → Scheduler → List Waiter → Type 0
IsFreed w s t granted =
    (t.held ≡ remove w s.held ++ granted)
    × (t.active + 1 ≡ s.active + length granted)
    × ((d : String)
        → active_for d t + (if str_eq w.device_id d then 1 else 0)
          ≡ active_for d s + count (is_on d) granted)
    × ((d : String) → queued t d + count (is_on d) granted ≡ queued s d)
    × IsReady t

abbrev pub Frees : {A : Type 0} → Waiter → Scheduler → A → Outcome A → Type 0
Frees w s a o =
    (t : Scheduler) × (granted : List Waiter) × (o ≡ returned a t) × IsFreed w s t granted

freed :
    (now : ℕ) (w : Waiter) (s t : Scheduler)
    → IsSound s
    → member w s.held ≡ true
    → IsSound t
    → t.held ≡ remove w s.held
    → ((d : String) → queued t d ≡ queued s d)
    → Frees w s tt (granting now (tt {0}) t)
unfolding active_for
freed now w s t before out sound e same =
    let (u, eu, r) = grant-Settles now t sound in
    let held : u.held ≡ remove w s.held ++ r.granted = r.held ∙ ap (λ l. l ++ r.granted) e in
    (
      u,
      r.granted,
      granting-eq-returned now tt t u eu,
      (
        held,
        omega (
          arith,
          r.sound.held_total,
          before.held_total,
          ap (length {A = Waiter}) held,
          length-append (remove w s.held) r.granted,
          length-remove w s.held out,
        ),
        (λ d. omega (
          arith,
          r.sound.held_counts d,
          before.held_counts d,
          ap (count (is_on d)) held,
          count-append (is_on d) (remove w s.held) r.granted,
          count-remove (is_on d) w s.held out,
        )),
        (λ d. omega (arith, r.queued_less d, same d)),
        record { sound = r.sound; settled = r.settled },
      ),
    )

release_locked-Frees :
    (now : ℕ) (w : Waiter) (s : Scheduler)
    → IsSound s
    → member w s.held ≡ true
    → Frees w s tt (release_locked now w.device_id w.workload (record s { held = remove w s.held }))
unfolding release_locked
release_locked-Frees now w s sound m = by_workload w.workload refl
  where
    no_underflow : (s.active == 0 || Tally.get w.device_id s.active_by_device == 0) ≡ false
    no_underflow = ground (arith, active_total_pos s sound w m, active_pos s sound w m)

    by_workload :
        (kind : Workload)
        → w.workload ≡ kind
        → Frees w s tt (release_locked now w.device_id kind (record s { held = remove w s.held }))
    by_workload foreground e =
        rw (no_underflow, release_locked)
          (freed now w s _ sound m (released_foreground s sound w m e) refl (λ d. refl))
    by_workload background e =
        let bg : (Tally.get w.device_id s.background_by_device == 0) ≡ false =
          ground (arith, background_pos s sound w m e) in
        rw (no_underflow, bg, release_locked)
          (freed now w s _ sound m (released_background s sound w m e) refl (λ d. refl))

-- What releasing a lease comes to, that is out or is not.
abbrev pub Releases : Bool → Waiter → Scheduler → Outcome Bool → Type 0
Releases true w s o = Frees w s true o
Releases false w s o = o ≡ returned false s

-- Between two calls of a scheduler, `release` of a lease that is out returns True. The leases out
-- afterwards are the others and those granted by it; the active counts, in total and of each device, lose
-- the lease and gain those granted, and the queues of each device lose as many waiters as it was granted.
-- The scheduler is then ready again: its invariant holds, and nobody waits who could run. For any other
-- lease `release` returns False and changes nothing, so a lease gives its slot back once.
pub release-lem :
    (now : ℕ) (w : Waiter) (s : Scheduler)
    → IsReady s
    → Releases (member w s.held) w s (release now w s)
unfolding release
release-lem now w s h = elim (Bool-cases (member w s.held)) [
  | inl out ↦
      let (t, granted, e, held) = release_locked-Frees now w s h.sound out in
      rw out (t, granted, ap as_released e, held)
  | inr back ↦ rw back refl
]

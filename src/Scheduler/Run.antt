-- ===== src/Scheduler/Run.antt =====
-- The scheduler under any interleaving of its callers (host/transport/scheduler.py): each event is
-- one stretch of a method that runs under the lock.
use rkcockpit.Common.{
  All, Bool-cases, List, Option, String, [], ap, arith, count, false, inl, inr, is_nonempty, length,
  none, refl, some, subst, sym, true, ℕ, ◌∙◌, ◌∷◌, ◌≡◌, ◌≤◌, ◌⊎◌,
}
use rkcockpit.Scheduler.Waiter.{Waiter, Workload, foreground, background, workload_eq}
use rkcockpit.Scheduler.ClassQueue.{queue_of}
use rkcockpit.Scheduler.Grant.{can_grant}
use rkcockpit.Scheduler.Tally
use rkcockpit.Scheduler.State.{
  Limits, Scheduler, limits_ok, init, fresh, queues, active_for, waiting_for,
}
use rkcockpit.Scheduler.Sound.{
  IsSound, IsSettled, NoneEligible, queued, is_on, fresh-IsSound, fresh-IsSettled,
}
use rkcockpit.Scheduler.Calls
use rkcockpit.Scheduler.Calls.{Error, Outcome, returned, raised}
use rkcockpit.Scheduler.Calls.Ready.{IsReady, IsRefusal, Clean}
use rkcockpit.Scheduler.Calls.Entering.{enter-Clean}
use rkcockpit.Scheduler.Calls.Leaving.{wake-Clean}
use rkcockpit.Scheduler.Calls.Releasing.{release-Clean}
use rkcockpit.Scheduler.Calls.Removal.{remove_device-Clean}

pub data Event : Type 0 where
  enter : (asked now : ℕ) → (device name : String) → Option ℕ → Event
  wake : (now : ℕ) → Waiter → (deadline : ℕ) → Event
  release : (now : ℕ) → Waiter → Event
  remove_device : (now : ℕ) → (device : String) → Event

abbrev pub state_of {ℓ} : {A : Type ℓ} → Outcome A → Scheduler
state_of (returned a s) = s
state_of (raised e s) = s

abbrev pub error_of {ℓ} : {A : Type ℓ} → Outcome A → Option Error
error_of (returned a s) = none
error_of (raised e s) = some e

unfoldable pub perform : Event → Scheduler → Option Error × Scheduler
perform (enter asked now device name timeout) s =
    let o = Calls.enter asked now device name timeout s in (error_of o, state_of o)
perform (wake now w deadline) s = let o = Calls.wake now w deadline s in (error_of o, state_of o)
perform (release now w) s = let o = Calls.release now w s in (error_of o, state_of o)
perform (remove_device now device) s =
    let o = Calls.remove_device now device s in (error_of o, state_of o)

-- The errors that callers saw, in order, and the state in the end.
unfoldable pub run : List Event → Scheduler → List (Option Error) × Scheduler
unfolding perform
run [] s = ([], s)
run (e ∷ events) s =
    let (error, t) = perform e s in let (errors, u) = run events t in (error ∷ errors, u)

abbrev pub OnlyRefusal : Option Error → Type 0
OnlyRefusal none = Unit
OnlyRefusal (some e) = IsRefusal e

pub record Kept (s : Scheduler) (r : Option Error × Scheduler) : Type 0 where
  pub ready : IsReady r.1
  pub limits : r.1.limits ≡ s.limits
  pub refusal : OnlyRefusal r.0

of_Clean {ℓ} :
    {A : Type ℓ} (s : Scheduler) (o : Outcome A) → Clean s o → Kept s (error_of o, state_of o)
of_Clean s (returned a t) h = record { ready = h.0; limits = h.1; refusal = tt }
of_Clean s (raised e t) h = record { ready = h.0; limits = h.1; refusal = h.2 }

perform-Kept : (e : Event) (s : Scheduler) → IsReady s → Kept s (perform e s)
unfolding perform
perform-Kept (enter asked now device name timeout) s h =
    of_Clean s _ (enter-Clean s asked now device name timeout h)
perform-Kept (wake now w deadline) s h = of_Clean s _ (wake-Clean now w deadline s h)
perform-Kept (release now w) s h = of_Clean s _ (release-Clean now w s h)
perform-Kept (remove_device now device) s h = of_Clean s _ (remove_device-Clean now device s h)

run-IsReady :
    (events : List Event) (s : Scheduler)
    → IsReady s
    → IsReady (run events s).1 × ((run events s).1.limits ≡ s.limits)
unfolding run
run-IsReady [] s h = (h, refl)
run-IsReady (e ∷ events) s h =
    let k = perform-Kept e s h in
    let (ready, same) = run-IsReady events (perform e s).1 k.ready in (ready, same ∙ k.limits)

run-OnlyRefusal :
    (events : List Event) (s : Scheduler) → IsReady s → All OnlyRefusal (run events s).0
unfolding run
run-OnlyRefusal [] s h = tt
run-OnlyRefusal (e ∷ events) s h =
    let k = perform-Kept e s h in (k.refusal, run-OnlyRefusal events (perform e s).1 k.ready)

init-IsReady : (l : Limits) (s : Scheduler) → init l ≡ some s → IsReady s × (s.limits ≡ l)
unfolding init
init-IsReady l s e = by_test (Bool-cases (limits_ok l))
  where
    by_test : (limits_ok l ≡ true) ⊎ (limits_ok l ≡ false) → IsReady s × (s.limits ≡ l)
    by_test (inl good) =
        let same : fresh l ≡ s = ground arith in
        (
          subst IsReady same (record { sound = fresh-IsSound l; settled = fresh-IsSettled l }),
          sym (ap (λ (x : Scheduler). x.limits) same) ∙ refl,
        )
    by_test (inr bad) = absurd (ground arith)

-- No counter passes its limit, in total and for each device.
pub record WithinLimits (l : Limits) (s : Scheduler) : Type 0 where
  pub active : s.active ≤ l.global_limit
  pub active_for_device : (d : String) → active_for d s ≤ l.device_limit
  pub background_for_device :
      (d : String) → Tally.get d s.background_by_device ≤ l.background_device_limit
  pub waiting : s.waiting ≤ l.global_wait_limit
  pub waiting_for_device : (d : String) → waiting_for d s ≤ l.device_wait_limit

within-limits : (l : Limits) (s : Scheduler) → IsSound s → s.limits ≡ l → WithinLimits l s
unfolding active_for waiting_for
within-limits l s h e =
    subst (λ x. WithinLimits x s) e
      (record {
        active = h.active_bound;
        active_for_device = h.device_bound;
        background_for_device = h.background_bound;
        waiting = h.waiting_bound;
        waiting_for_device = h.device_waiting_bound;
      })

-- Why a waiter of a device is not granted.
abbrev Blocked : Workload → String → Scheduler → Limits → Type 0
Blocked kind d s l =
    l.global_limit ≤ s.active
    ⊎ l.device_limit ≤ Tally.get d s.active_by_device
    ⊎ (kind ≡ background) × (l.background_device_limit ≤ Tally.get d s.background_by_device)

refused-Blocked :
    (kind : Workload) (d : String) (s : Scheduler)
    → can_grant s d kind ≡ false
    → Blocked kind d s s.limits
unfolding can_grant workload_eq
refused-Blocked foreground d s h = ground arith
refused-Blocked background d s h = ground arith

none_eligible : (kind : Workload) (s : Scheduler) → IsSettled s → NoneEligible kind s
none_eligible foreground s h = h.foreground_done
none_eligible background s h = h.background_done

module _ (l : Limits) (s : Scheduler) (start : init l ≡ some s) (events : List Event) where
  abbrev after : Scheduler
  after = (run events s).1

  pub after-IsReady : IsReady after × (after.limits ≡ l)
  after-IsReady =
      let (ready, limits) = init-IsReady l s start in
      let (ready', same) = run-IsReady events s ready in (ready', same ∙ limits)

  -- From a fresh scheduler with any accepted limits, after any sequence of calls by any number of
  -- callers, the active and waiting counts are within the limits, in total and for each device, and
  -- so are the background counts of each device.
  pub run-WithinLimits : WithinLimits l after
  run-WithinLimits = within-limits l after after-IsReady.0.sound after-IsReady.1

  -- No call of such a sequence ends in a KeyError or an accounting underflow: the only errors are the
  -- ValueErrors for bad arguments and the four "ssh_busy" refusals.
  pub run-never_breaks : All OnlyRefusal (run events s).0
  run-never_breaks = run-OnlyRefusal events s (init-IsReady l s start).0

  -- After such a sequence `active` is the number of leases that are out (granted and not released),
  -- each device's active count is the number of those on that device, and the waiting count of each
  -- device is the number of waiters in its two queues.
  pub run-accounts :
      (after.active ≡ length after.held)
      × ((d : String) → active_for d after ≡ count (is_on d) after.held)
      × ((d : String) → waiting_for d after ≡ queued after d)
  unfolding active_for waiting_for
  run-accounts = let h = after-IsReady.0.sound in (h.held_total, h.held_counts, h.waiting_counts)

  -- After such a sequence nobody waits who could run: while a waiter of a device is queued, all
  -- global slots are taken, or the device's are, or (for background work) its background slots are.
  pub run-work_conserving :
      (kind : Workload) (d : String)
      → is_nonempty (queue_of (queues kind after) d) ≡ true
      → l.global_limit ≤ after.active
        ⊎ l.device_limit ≤ active_for d after
        ⊎ (kind ≡ background) × (l.background_device_limit ≤ Tally.get d after.background_by_device)
  unfolding active_for
  run-work_conserving kind d waits =
      subst (Blocked kind d after) after-IsReady.1
        (refused-Blocked kind d after (none_eligible kind after after-IsReady.0.settled d waits))

-- ===== src/Scheduler/Calls/Removal.antt =====
-- `remove_device` of host/transport/scheduler.py.
use rkcockpit.Common.{
  List, String, [], ap, arith, eq_iff, eq_refl, if◌then◌else◌, length, refl, str_eq, subst, suc,
  sym, ℕ, ◌-◌, ◌∙◌, ◌∷◌, ◌≡◌,
}
use rkcockpit.Common.Dict.{Dict, erase}
use rkcockpit.Scheduler.Waiter.{Waiter, Workload, foreground, background}
use rkcockpit.Scheduler.ClassQueue.{queue_of, drop_device}
use rkcockpit.Scheduler.ClassQueue.Edits.{
  drop_device-IsFair, queue_of-drop_device, drop_device-queue,
}
use rkcockpit.Scheduler.Tally
use rkcockpit.Scheduler.Tally.{IsTally, erase-IsTally, get-erase}
use rkcockpit.Scheduler.State.{Scheduler}
use rkcockpit.Scheduler.Sound.{IsSound}
use rkcockpit.Scheduler.Calls.{cancel_queue, device_name, remove_device}
use rkcockpit.Scheduler.Calls.Ready.{IsReady, Clean, granting-Clean}

module _ (s : Scheduler) (sound : IsSound s) (d : String) where
  abbrev ahead : ℕ
  ahead = length (queue_of s.foreground_queues d)

  abbrev behind : ℕ
  behind = length (queue_of s.background_queues d)

  -- Both queues of the device dropped, and the books without it.
  emptied_IsSound :
      (waiting : ℕ) (waiting_by_device : Dict ℕ) (cancelled : List Waiter)
      → waiting ≡ s.waiting - ahead - behind
      → IsTally waiting_by_device waiting
      → ((j : String)
          → Tally.get j waiting_by_device
            ≡ (if str_eq d j then 0 else Tally.get j s.waiting_by_device))
      → IsSound (record s {
        foreground_queues = (drop_device d s.foreground_queues).1;
        background_queues = (drop_device d s.background_queues).1;
        waiting = waiting;
        waiting_by_device = waiting_by_device;
        cancelled = cancelled;
      })
  emptied_IsSound waiting waiting_by_device cancelled e tally counts =
      let dropped = queue_of-drop_device foreground s.foreground_queues sound.fair_foreground d in
      let dropped' = queue_of-drop_device background s.background_queues sound.fair_background d in
      record {
        fair_foreground = drop_device-IsFair foreground s.foreground_queues sound.fair_foreground d;
        fair_background = drop_device-IsFair background s.background_queues sound.fair_background d;
        active_tally = sound.active_tally;
        background_tally = sound.background_tally;
        waiting_tally = tally;
        active_bound = sound.active_bound;
        device_bound = sound.device_bound;
        background_bound = sound.background_bound;
        waiting_bound = omega (arith, sound.waiting_bound);
        device_waiting_bound = λ j. ground (arith, counts j, sound.device_waiting_bound j);
        waiting_counts = λ j. ground (
          arith,
          counts j,
          sound.waiting_counts j,
          ap (length {A = Waiter}) (dropped j),
          ap (length {A = Waiter}) (dropped' j),
        );
        held_total = sound.held_total;
        held_counts = sound.held_counts;
        held_background = sound.held_background;
      }

  erased : IsTally (erase d s.waiting_by_device) (s.waiting - ahead - behind)
  erased =
      let e : s.waiting - Tally.get d s.waiting_by_device ≡ s.waiting - ahead - behind =
        omega (arith, sound.waiting_counts d) in
      subst (IsTally (erase d s.waiting_by_device)) e
        (erase-IsTally d s.waiting_by_device s.waiting sound.waiting_tally)

  erased_twice : IsTally (erase d (erase d s.waiting_by_device)) (s.waiting - ahead - behind)
  erased_twice =
      let e : s.waiting - ahead - behind - Tally.get d (erase d s.waiting_by_device)
          ≡ s.waiting - ahead - behind =
        ground (arith, get-erase d d s.waiting_by_device, eq_refl d) in
      subst (IsTally (erase d (erase d s.waiting_by_device))) e
        (erase-IsTally d (erase d s.waiting_by_device) _ erased)

  pub cancelled-IsSound :
      (f b : List Waiter)
      → (drop_device d s.foreground_queues).0 ≡ f
      → (drop_device d s.background_queues).0 ≡ b
      → IsSound (cancel_queue d background (cancel_queue d foreground s))
  unfolding cancel_queue
  cancelled-IsSound f b ef eb = by_lists f b ef eb
    where
      ahead_is : {f : List Waiter} → (drop_device d s.foreground_queues).0 ≡ f → ahead ≡ length f
      ahead_is e = ap (length {A = Waiter}) (sym (drop_device-queue d s.foreground_queues) ∙ e)

      behind_is : {b : List Waiter} → (drop_device d s.background_queues).0 ≡ b → behind ≡ length b
      behind_is e = ap (length {A = Waiter}) (sym (drop_device-queue d s.background_queues) ∙ e)

      once :
          (j : String)
          → Tally.get j (erase d s.waiting_by_device)
            ≡ (if str_eq d j then 0 else Tally.get j s.waiting_by_device)
      once j = get-erase d j s.waiting_by_device

      by_lists :
          (f b : List Waiter)
          → (drop_device d s.foreground_queues).0 ≡ f
          → (drop_device d s.background_queues).0 ≡ b
          → IsSound (cancel_queue d background (cancel_queue d foreground s))
      by_lists [] [] ef eb =
          rw (ef, eb, cancel_queue)
            (emptied_IsSound s.waiting s.waiting_by_device s.cancelled
              (omega (arith, ahead_is ef, behind_is eb)) sound.waiting_tally
              (λ j. ground (arith, sound.waiting_counts d, ahead_is ef, behind_is eb, eq_iff d j)))
      by_lists [] (y ∷ ys) ef eb =
          let e : s.waiting - suc (length ys) ≡ s.waiting - ahead - behind =
            omega (arith, ahead_is ef, behind_is eb) in
          rw (ef, eb, cancel_queue)
            (emptied_IsSound _ _ _ e (subst (IsTally _) (sym e) erased) once)
      by_lists (x ∷ xs) [] ef eb =
          let e : s.waiting - suc (length xs) ≡ s.waiting - ahead - behind =
            omega (arith, ahead_is ef, behind_is eb) in
          rw (ef, eb, cancel_queue)
            (emptied_IsSound _ _ _ e (subst (IsTally _) (sym e) erased) once)
      by_lists (x ∷ xs) (y ∷ ys) ef eb =
          let e : s.waiting - suc (length xs) - suc (length ys) ≡ s.waiting - ahead - behind =
            omega (arith, ahead_is ef, behind_is eb) in
          rw (ef, eb, cancel_queue)
            (emptied_IsSound _ _ _ e (subst (IsTally _) (sym e) erased_twice)
              (λ j. ground (arith, once j, get-erase d j (erase d s.waiting_by_device))))

cancel_queue-limits :
    (d : String) (kind : Workload) (s : Scheduler) → (cancel_queue d kind s).limits ≡ s.limits
unfolding cancel_queue
cancel_queue-limits d foreground s = ground arith
cancel_queue-limits d background s = ground arith

-- Removing a device leaves the scheduler ready, under the same limits.
pub remove_device-Clean :
    (now : ℕ) (device : String) (s : Scheduler) → IsReady s → Clean s (remove_device now device s)
unfolding remove_device
remove_device-Clean now device s h =
    let d = device_name device in
    granting-Clean now tt s _ (cancelled-IsSound s h.sound d _ _ refl refl) (
      cancel_queue-limits d background (cancel_queue d foreground s)
      ∙ cancel_queue-limits d foreground s)

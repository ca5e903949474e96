-- ===== src/Scheduler/Grant/Loop.antt =====
-- The loop of `_grant_locked`: it raises nothing, keeps the invariant, and stops only where no
-- waiter could be granted.
use mathlib.Core.Option
use rkcockpit.Common.{
  count, ◌+◌, Bool-cases, List, Option, String, [], ap, append-nil, append_assoc, arith, false, inl,
  inr, ltb, ltb→le, refl, some, suc, sym, true, zero, ℕ, ◌++◌, ◌-◌, ◌∙◌, ◌∷◌, ◌≡◌, ◌≤◌, ◌⊎◌,
}
use rkcockpit.Scheduler.Waiter.{Waiter, Workload, foreground, background}
use rkcockpit.Scheduler.State.{Scheduler, Limits}
use rkcockpit.Scheduler.Grant.{can_grant, grant_rounds, grant}
use rkcockpit.Scheduler.Sound.{is_on, IsSound, IsSettled, queued}
use rkcockpit.Scheduler.Grant.Turns.{ChoiceCases, next_waiter-cases}
use rkcockpit.Scheduler.Grant.Books.{Booked, account-Booked}

-- A state that `_grant_locked` leaves behind, with the waiters that it has granted.
pub record Settles (s s' : Scheduler) : Type 0 where
  pub sound : IsSound s'
  pub settled : IsSettled s'
  pub limits : s'.limits ≡ s.limits
  pub granted : List Waiter
  pub held : s'.held ≡ s.held ++ granted
  pub queued_less : (d : String) → queued s' d + count (is_on d) granted ≡ queued s d
  pub cancelled : s'.cancelled ≡ s.cancelled
  pub next_ident : s'.next_ident ≡ s.next_ident

full-refuses :
    (s : Scheduler) (d : String) (kind : Workload)
    → s.global_limit ≤ s.active
    → can_grant s d kind ≡ false
unfolding can_grant
full-refuses s d kind h = ground arith

full-IsSettled : (s : Scheduler) → s.global_limit ≤ s.active → IsSettled s
full-IsSettled s h = record {
  foreground_done = λ d _. full-refuses s d foreground h;
  background_done = λ d _. full-refuses s d background h;
}

Settles-refl : (s : Scheduler) → IsSound s → IsSettled s → Settles s s
Settles-refl s sound settled = record {
  sound = sound;
  settled = settled;
  limits = refl;
  granted = [];
  held = sym (append-nil s.held);
  queued_less = λ d. omega arith;
  cancelled = refl;
  next_ident = refl;
}

Settles-step : {s t u : Scheduler} (w : Waiter) → Booked s w t → Settles t u → Settles s u
Settles-step {s} w b r = record {
  sound = r.sound;
  settled = r.settled;
  limits = r.limits ∙ b.limits;
  granted = w ∷ r.granted;
  held = r.held ∙ ap (λ l. l ++ r.granted) b.held ∙ append_assoc s.held (w ∷ []) r.granted;
  queued_less = λ d. omega (arith, r.queued_less d, b.queued_less d);
  cancelled = r.cancelled ∙ b.cancelled;
  next_ident = r.next_ident ∙ b.next_ident;
}

abbrev GrantsTo : Scheduler → Option Scheduler → Type 0
GrantsTo s o = (s' : Scheduler) × (o ≡ some s') × Settles s s'

grant_rounds-Settles :
    (now rounds : ℕ) (s : Scheduler)
    → IsSound s
    → s.global_limit - s.active ≤ rounds
    → GrantsTo s (grant_rounds now rounds s)
unfolding grant_rounds Option.bind
grant_rounds-Settles now zero s sound h =
    (s, refl, Settles-refl s sound (full-IsSettled s (omega (arith, h))))
grant_rounds-Settles now (suc rounds) s sound h =
    by_test (Bool-cases (ltb s.active s.global_limit)) (next_waiter-cases s sound)
      (grant_rounds-Settles now rounds)
  where
    Next : Type 0
    Next =
        (t : Scheduler)
        → IsSound t
        → t.global_limit - t.active ≤ rounds
        → GrantsTo t (grant_rounds now rounds t)

    by_test :
        (ltb s.active s.global_limit ≡ true) ⊎ (ltb s.active s.global_limit ≡ false)
        → ChoiceCases s
        → Next
        → GrantsTo s (grant_rounds now (suc rounds) s)
    by_test (inr full) c next =
        (s, rw full refl, Settles-refl s sound (full-IsSettled s (ltb→le _ _ full)))
    by_test (inl room) (inl (e, nf, nb)) next = (
      s,
      rw (room, e) refl,
      Settles-refl s sound (record { foreground_done = nf; background_done = nb }),
    )
    by_test (inl room) (inr c) next =
        let (t, e, b) = account-Booked s sound now c.kind c.pops c.streak in
        let (u, e', r) =
          next t b.sound (omega (arith, b.active, ap (λ (l : Limits). l.global_limit) b.limits)) in
        (u, rw (room, c.result, e) e', Settles-step c.pops.waiter b r)

-- In a scheduler that keeps its invariant, granting raises nothing and keeps the invariant, and
-- afterwards no queued waiter may be granted. The leases out are those before and those granted,
-- each device has as many waiters fewer as were granted to it, and limits and cancelled waiters are as
-- before.
pub grant-Settles :
    (now : ℕ) (s : Scheduler)
    → IsSound s
    → (s' : Scheduler) × (grant now s ≡ some s') × Settles s s'
unfolding grant
grant-Settles now s sound = grant_rounds-Settles now _ s sound (omega arith)

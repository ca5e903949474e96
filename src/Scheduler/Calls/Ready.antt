-- ===== src/Scheduler/Calls/Ready.antt =====
-- What every method of the scheduler starts from and leaves behind (host/transport/scheduler.py).
use rkcockpit.Common.{refl, some, ℕ, ◌∙◌, ◌≡◌}
use rkcockpit.Scheduler.State.{Scheduler}
use rkcockpit.Scheduler.Grant.{can_grant, grant}
use rkcockpit.Scheduler.Grant.Loop.{grant-Settles}
use rkcockpit.Scheduler.Sound.{IsSound, IsSettled}
use rkcockpit.Scheduler.Calls.{
  Error, missing_key, underflow, background_underflow, Outcome, returned, raised, granting,
}

-- Sound, and with nobody waiting who could be granted.
pub record IsReady (s : Scheduler) : Type 0 where
  pub sound : IsSound s
  pub settled : IsSettled s

-- Counting refusals changes nothing that the invariant reads.
pub recounted-IsReady :
    (s : Scheduler) (a b : ℕ)
    → IsReady s
    → IsReady (record s { queue_full_total = a; wait_timeout_total = b })
unfolding can_grant
recounted-IsReady s a b h = record {
  sound = record {
    fair_foreground = h.sound.fair_foreground;
    fair_background = h.sound.fair_background;
    active_tally = h.sound.active_tally;
    background_tally = h.sound.background_tally;
    waiting_tally = h.sound.waiting_tally;
    active_bound = h.sound.active_bound;
    device_bound = h.sound.device_bound;
    background_bound = h.sound.background_bound;
    waiting_bound = h.sound.waiting_bound;
    device_waiting_bound = h.sound.device_waiting_bound;
    waiting_counts = h.sound.waiting_counts;
    held_total = h.sound.held_total;
    held_counts = h.sound.held_counts;
    held_background = h.sound.held_background;
  };
  settled = record {
    foreground_done = h.settled.foreground_done;
    background_done = h.settled.background_done;
  };
}

-- The errors that callers are meant to see; the others are broken books.
abbrev pub IsRefusal : Error → Type 0
IsRefusal missing_key = ⊥
IsRefusal underflow = ⊥
IsRefusal background_underflow = ⊥
IsRefusal _ = Unit

-- The call ends in a state that is ready under the same limits, and raises only refusals.
abbrev pub Clean {ℓ} : {A : Type ℓ} → Scheduler → Outcome A → Type 0
Clean s (returned a t) = IsReady t × (t.limits ≡ s.limits)
Clean s (raised e t) = IsReady t × (t.limits ≡ s.limits) × IsRefusal e

pub granting-Clean {ℓ} :
    {A : Type ℓ} (now : ℕ) (a : A) (s t : Scheduler)
    → IsSound t
    → t.limits ≡ s.limits
    → Clean s (granting now a t)
unfolding granting
granting-Clean now a s t sound same =
    let (u, e, r) = grant-Settles now t sound in
    rw (e, Clean) (record { sound = r.sound; settled = r.settled }, r.limits ∙ same)

pub granting-eq-returned {ℓ} :
    {A : Type ℓ} (now : ℕ) (a : A) (s t : Scheduler)
    → grant now s ≡ some t
    → granting now a s ≡ returned a t
unfolding granting
granting-eq-returned now a s t e = rw (e, granting) refl

-- ===== src/Scheduler/Grant/Turns.antt =====
-- Whose turn it is (`_grant_locked`, lines 164-178): foreground first, but background after a burst.
use rkcockpit.Common.{
  Bool, Bool-cases, Option, String, ap, false, inl, inr, leb, leb→le, leb→lt, none, refl, some, suc,
  true, ℕ, ◌<◌, ◌∙◌, ◌≡◌, ◌≤◌, ◌⊎◌,
}
use rkcockpit.Scheduler.Waiter.{Waiter, Workload, foreground, background}
use rkcockpit.Scheduler.ClassQueue.{ClassQueue, pop_eligible}
use rkcockpit.Scheduler.ClassQueue.Fairness.{IsFair, Popped, PopResult, pop_eligible-PopResult}
use rkcockpit.Scheduler.State.{Scheduler, queues, with_queues, foreground_burst}
use rkcockpit.Scheduler.Grant.{can_grant, pop_waiter, next_waiter}
use rkcockpit.Scheduler.Sound.{IsSound, NoneEligible}

pub record Pops (kind : Workload) (s : Scheduler) : Type 0 where
  pub waiter : Waiter
  pub queues' : ClassQueue
  pub result : pop_waiter kind s ≡ (some waiter, with_queues kind queues' s)
  pub popped : Popped kind (λ d. can_grant s d kind) (queues kind s) waiter queues'

abbrev PopCases : Workload → Scheduler → Type 0
PopCases kind s = (pop_waiter kind s ≡ (none, s)) × NoneEligible kind s ⊎ Pops kind s

queues-IsFair : (kind : Workload) (s : Scheduler) → IsSound s → IsFair kind (queues kind s)
queues-IsFair foreground s h = h.fair_foreground
queues-IsFair background s h = h.fair_background

with_same_queues : (kind : Workload) (s : Scheduler) → with_queues kind (queues kind s) s ≡ s
with_same_queues foreground s = refl
with_same_queues background s = refl

pop_waiter-cases : (kind : Workload) (s : Scheduler) → IsSound s → PopCases kind s
unfolding pop_waiter
pop_waiter-cases kind s sound =
    by_result (pop_eligible can (queues kind s)) refl
      (pop_eligible-PopResult kind can (queues kind s) (queues-IsFair kind s sound))
  where
    can : String → Bool
    can d = can_grant s d kind

    after : Option Waiter × ClassQueue → Option Waiter × Scheduler
    after (w, q) = (w, with_queues kind q s)

    by_result :
        (r : Option Waiter × ClassQueue)
        → pop_eligible can (queues kind s) ≡ r
        → PopResult kind can (queues kind s) r
        → PopCases kind s
    by_result (none, q) e (same, idle) = inl (
      ap after e
          ∙ ap (λ x. (none, with_queues kind x s)) same
          ∙ ap (λ t. (none, t)) (with_same_queues kind s),
      idle,
    )
    by_result (some w, q) e p =
        inr (record { waiter = w; queues' = q; result = ap after e; popped = p })

-- Why a workload is served: a burst of foreground grants is over, or it is the foreground's turn,
-- or the foreground has nothing to serve.
abbrev pub Turn : Scheduler → Workload → ℕ → Type 0
Turn s foreground streak =
    (streak ≡ suc s.foreground_streak)
    × (s.foreground_streak < foreground_burst ⊎ NoneEligible background s)
Turn s background streak =
    (streak ≡ 0) × (foreground_burst ≤ s.foreground_streak ⊎ NoneEligible foreground s)

-- The waiter that is granted next.
pub record Chosen (s : Scheduler) : Type 0 where
  pub kind : Workload
  pub pops : Pops kind s
  pub streak : ℕ
  pub result :
      next_waiter s
      ≡ (some pops.waiter, record (with_queues kind pops.queues' s) { foreground_streak = streak })
  pub turn : Turn s kind streak

abbrev pub ChoiceCases : Scheduler → Type 0
ChoiceCases s =
    (next_waiter s ≡ (none, s)) × NoneEligible foreground s × NoneEligible background s ⊎ Chosen s

-- In a scheduler that keeps its invariant, no waiter is chosen only where no queued waiter may be
-- granted, and then nothing changes. A chosen one is what the queues of its workload pop. A
-- foreground one has ended no full burst, or no background waiter may be granted, and adds one to
-- the streak; a background one ends a full burst, or no foreground waiter may be granted, and resets
-- the streak.
pub next_waiter-cases : (s : Scheduler) → IsSound s → ChoiceCases s
unfolding next_waiter
next_waiter-cases s sound =
    by_pops (Bool-cases (leb foreground_burst s.foreground_streak))
      (pop_waiter-cases background s sound) (pop_waiter-cases foreground s sound)
  where
    by_pops :
        (leb foreground_burst s.foreground_streak ≡ true)
          ⊎ (leb foreground_burst s.foreground_streak ≡ false)
        → PopCases background s
        → PopCases foreground s
        → ChoiceCases s
    by_pops (inl burst) (inr b) f = inr (record {
      kind = background;
      pops = b;
      streak = 0;
      result = rw (burst, b.result) refl;
      turn = (refl, inl (leb→le _ _ burst));
    })
    by_pops (inl burst) (inl (eb, nb)) (inr f) = inr (record {
      kind = foreground;
      pops = f;
      streak = suc s.foreground_streak;
      result = rw (burst, eb, f.result) refl;
      turn = (refl, inr nb);
    })
    by_pops (inl burst) (inl (eb, nb)) (inl (ef, nf)) = inl (rw (burst, eb, ef, eb) refl, nf, nb)
    by_pops (inr calm) b (inr f) = inr (record {
      kind = foreground;
      pops = f;
      streak = suc s.foreground_streak;
      result = rw (calm, f.result) refl;
      turn = (refl, inl (leb→lt _ _ calm));
    })
    by_pops (inr calm) (inr b) (inl (ef, nf)) = inr (record {
      kind = background;
      pops = b;
      streak = 0;
      result = rw (calm, ef, b.result) refl;
      turn = (refl, inr nf);
    })
    by_pops (inr calm) (inl (eb, nb)) (inl (ef, nf)) = inl (rw (calm, ef, eb) refl, nf, nb)

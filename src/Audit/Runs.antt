-- ===== src/Audit/Runs.antt =====
-- The recorder of host/audit/recorder.py after any steps, and when `close` reports success.
use rkcockpit.Common.{
  Bool, Bool-cases, List, Option, Option-cases, [], ap, arith, count, drop, drop-nil, false,
  if◌then◌else◌, inl, inr, length, max, none, not, refl, some, sym, true, ℕ, ◌&&◌, ◌+◌, ◌-◌, ◌==◌,
  ◌∙◌, ◌∷◌, ◌≡◌, ◌≤◌,
}
use rkcockpit.Audit.{
  Recorder, Given, no_action, bad_time, not_json, event, init, count_invalid, take_in, accept, pull,
  is_idle, get, is_clean,
}
use rkcockpit.Audit.Steps.{
  Step, records, queues, falls, takes, exits, closes, drains, writes, queue_at, fall_at, write_on,
  step, run,
}
use rkcockpit.Audit.Books.{IsSound, in_flight, take_in-IsSound, offer-IsSound}
use rkcockpit.Audit.Writes.{fall_back-IsSound, try_write-IsSound, get-IsSound}

init-limits :
    (A : Type 0) (max_ring queue_size : ℕ)
    → ((init {A = A} max_ring queue_size).capacity ≡ max 1 queue_size)
      × ((init {A = A} max_ring queue_size).max_ring ≡ max_ring)
unfolding init
init-limits A max_ring queue_size = (refl, refl)

module _ {A : Type 0} where
  if-IsSound :
      (b : Bool) (x y : Recorder A)
      → (b ≡ true → IsSound x)
      → IsSound y
      → IsSound (if b then x else y)
  if-IsSound true x y hx hy = hx refl
  if-IsSound false x y hx hy = hy

  accept-IsSound : (given : Given A) (r : Recorder A) → IsSound r → IsSound (accept given r)
  unfolding accept count_invalid
  accept-IsSound no_action r h = h
  accept-IsSound bad_time r h = noted r h
    where
      noted : (q : Recorder A) → IsSound q → IsSound (count_invalid q)
      noted q k = record {
        balance = k.balance;
        conserved = k.conserved;
        wrote = k.wrote;
        gave = k.gave;
        bounded = k.bounded;
        shown = k.shown;
        quiet = k.quiet;
        healthy = k.healthy;
      }
  accept-IsSound not_json r h = if-IsSound r.accepting _ r (λ _. counted) h
    where
      counted : IsSound (count_invalid (record r { seq = r.seq + 1 }))
      counted = record {
        balance = h.balance;
        conserved = h.conserved;
        wrote = h.wrote;
        gave = h.gave;
        bounded = h.bounded;
        shown = h.shown;
        quiet = h.quiet;
        healthy = h.healthy;
      }
  accept-IsSound (event freeze) r h =
      if-IsSound r.accepting _ r (λ open_. take_in-IsSound (freeze (r.seq + 1)) r open_ h) h

  queue_at-IsSound : (i : ℕ) (r : Recorder A) → IsSound r → IsSound (queue_at i r)
  unfolding queue_at
  queue_at-IsSound i r h = elim (Option-cases (pull i r.hands)) [
    | inl nothing ↦ rw (nothing, queue_at) h
    | inr ((a, rest), found) ↦ rw (found, queue_at) (offer-IsSound i a rest r found h)
  ]

  fall_at-IsSound : (i : ℕ) (good : Bool) (r : Recorder A) → IsSound r → IsSound (fall_at i good r)
  unfolding fall_at
  fall_at-IsSound i good r h = elim (Option-cases (pull i r.falling)) [
    | inl nothing ↦ rw (nothing, fall_at) h
    | inr ((a, rest), found) ↦ rw (found, fall_at) (fall_back-IsSound good i a rest r found h)
  ]

  write_on-IsSound :
      (good : Bool) (o : Option A) (r : Recorder A)
      → r.writing ≡ o
      → IsSound r
      → IsSound (write_on good o r)
  unfolding write_on
  write_on-IsSound good none r e h = h
  write_on-IsSound good (some a) r e h = try_write-IsSound good a r e h

  idle-none : (r : Recorder A) → is_idle r ≡ true → r.writing ≡ none
  unfolding is_idle
  idle-none r e = ground arith

  -- A record that differs in `accepting`, `stop` and `exited` alone.
  flags-IsSound :
      (accepting stop exited : Bool) (r : Recorder A)
      → (stop ≡ true → (accepting ≡ false) × (r.pending ≡ 0))
      → IsSound r
      → IsSound (record r { accepting = accepting; stop = stop; exited = exited })
  flags-IsSound accepting stop exited r quiet h = record {
    balance = h.balance;
    conserved = h.conserved;
    wrote = h.wrote;
    gave = h.gave;
    bounded = h.bounded;
    shown = h.shown;
    quiet = quiet;
    healthy = h.healthy;
  }

  step-IsSound : (s : Step A) (r : Recorder A) → IsSound r → IsSound (step s r)
  unfolding step
  step-IsSound (records given) r h = accept-IsSound given r h
  step-IsSound (queues i) r h = queue_at-IsSound i r h
  step-IsSound (falls i good) r h = fall_at-IsSound i good r h
  step-IsSound takes r h = elim (Bool-cases (not r.exited && is_idle r)) [
    | inr busy ↦ rw busy h
    | inl free ↦ rw free (get-IsSound r (idle-none r (ground arith)) h)
  ]
  step-IsSound (writes good) r h = write_on-IsSound good r.writing r refl h
  step-IsSound closes r h =
      flags-IsSound false r.stop r.exited r (λ stops. (refl, (h.quiet stops).1)) h
  step-IsSound drains r h = elim (Bool-cases (not r.accepting && r.pending == 0)) [
    | inr waits ↦ rw waits h
    | inl done ↦
        rw done (flags-IsSound r.accepting true r.exited r (λ _. (ground arith, ground arith)) h)
  ]
  step-IsSound exits r h = elim (Bool-cases (r.stop && r.pending == 0 && is_idle r)) [
    | inr stays ↦ rw stays h
    | inl goes ↦ rw goes (flags-IsSound r.accepting r.stop true r h.quiet h)
  ]

  run-IsSound : (steps : List (Step A)) (r : Recorder A) → IsSound r → IsSound (run steps r)
  unfolding run
  run-IsSound [] r h = h
  run-IsSound (s ∷ steps) r h = run-IsSound steps (step s r) (step-IsSound s r h)

  init-IsSound : (max_ring queue_size : ℕ) → IsSound (init {A = A} max_ring queue_size)
  unfolding init
  init-IsSound max_ring queue_size = record {
    balance = refl;
    conserved = λ p. refl;
    wrote = refl;
    gave = refl;
    bounded = omega arith;
    shown = sym (drop-nil (0 - max_ring));
    quiet = λ stops. absurd (ground arith);
    healthy = λ _. refl;
  }

  accept-limits :
      (given : Given A) (r : Recorder A)
      → ((accept given r).capacity ≡ r.capacity) × ((accept given r).max_ring ≡ r.max_ring)
  unfolding accept count_invalid take_in
  accept-limits no_action r = (refl, refl)
  accept-limits bad_time r = (refl, refl)
  accept-limits not_json r = (ground arith, ground arith)
  accept-limits (event freeze) r = (ground arith, ground arith)

  step-limits :
      (s : Step A) (r : Recorder A)
      → ((step s r).capacity ≡ r.capacity) × ((step s r).max_ring ≡ r.max_ring)
  unfolding step accept queue_at fall_at write_on get
  step-limits (records given) r = accept-limits given r
  step-limits (queues i) r = (ground arith, ground arith)
  step-limits (falls i good) r = (ground arith, ground arith)
  step-limits takes r = (ground arith, ground arith)
  step-limits (writes good) r = (ground arith, ground arith)
  step-limits closes r = (refl, refl)
  step-limits drains r = (ground arith, ground arith)
  step-limits exits r = (ground arith, ground arith)

  run-limits :
      (steps : List (Step A)) (r : Recorder A)
      → ((run steps r).capacity ≡ r.capacity) × ((run steps r).max_ring ≡ r.max_ring)
  unfolding run
  run-limits [] r = (refl, refl)
  run-limits (s ∷ steps) r =
      let rest = run-limits steps (step s r) in
      (rest.0 ∙ (step-limits s r).0, rest.1 ∙ (step-limits s r).1)

  clean-parts : (r : Recorder A) → is_clean r ≡ true → (r.stop ≡ true) × (r.metrics.unpersisted ≡ 0)
  unfolding is_clean
  clean-parts r clean = (ground arith, ground arith)

  -- After any steps of a new recorder every accepted event is written, counted as given up or in flight, as
  -- often as it was accepted; the counters of pending, written and given up events are exact; the queue is
  -- within its capacity, and the ring shows the last events that were accepted.
  pub run-conserves :
      (max_ring queue_size : ℕ) (steps : List (Step A))
      → let r = run steps (init max_ring queue_size) in
        ((p : A → Bool) → count p r.taken ≡ count p r.disk + count p r.lost + count p (in_flight r))
        × (r.pending ≡ length (in_flight r))
        × (r.metrics.written ≡ length r.disk)
        × (r.metrics.unpersisted ≡ length r.lost)
        × (length r.queue ≤ max 1 queue_size)
        × (r.ring ≡ drop (length r.taken - max_ring) r.taken)
  run-conserves max_ring queue_size steps =
      let r = run steps (init max_ring queue_size) in
      let h = run-IsSound steps (init max_ring queue_size) (init-IsSound max_ring queue_size) in
      let limits = run-limits steps (init max_ring queue_size) in
      let fresh = init-limits A max_ring queue_size in
      (
        h.conserved,
        h.balance,
        h.wrote,
        h.gave,
        omega (arith, h.bounded, limits.0, fresh.0),
        h.shown ∙ ap (λ m. drop (length r.taken - m) r.taken) (limits.1 ∙ fresh.1),
      )

  nothing : (xs : List A) → 0 ≡ length xs → xs ≡ []
  nothing [] e = refl
  nothing (x ∷ xs) e = absurd (omega arith)

  count-nil : (p : A → Bool) (xs : List A) → xs ≡ [] → count p xs ≡ 0
  count-nil p xs e = ap (count p) e

  -- When `close` reports success after any steps of a new recorder, no event is accepted or in flight any
  -- more, and the disk has every accepted event, as often as it was accepted.
  pub run-closed :
      (max_ring queue_size : ℕ) (steps : List (Step A))
      → is_clean (run steps (init max_ring queue_size)) ≡ true
      → let r = run steps (init max_ring queue_size) in
        (r.accepting ≡ false)
        × (in_flight r ≡ [])
        × ((p : A → Bool) → count p r.disk ≡ count p r.taken)
  run-closed max_ring queue_size steps clean =
      let r = run steps (init max_ring queue_size) in
      let h = run-IsSound steps (init max_ring queue_size) (init-IsSound max_ring queue_size) in
      let (stops, none_lost) = clean-parts r clean in
      let (shut, none_left) = h.quiet stops in
      let flight : in_flight r ≡ [] = nothing (in_flight r) (omega (arith, h.balance, none_left)) in
      let lost : r.lost ≡ [] = nothing r.lost (omega (arith, h.gave, none_lost)) in
      (
        shut,
        flight,
        λ p.
            omega (arith, h.conserved p, count-nil p (in_flight r) flight, count-nil p r.lost lost),
      )

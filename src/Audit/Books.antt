-- ===== src/Audit/Books.antt =====
-- What the recorder of host/audit/recorder.py keeps under any order of steps: no accepted event is lost but
-- those that are counted.
use rkcockpit.Common.{
  Bool, Bool-cases, List, Option, Option-cases, [], ap, arith, count, count-append, drop,
  drop-append, drop-drop, false, inl, inr, length, length-append, length-drop, ltb, ltb→lt, none,
  some, suc, sym, true, zero, ℕ, ◌++◌, ◌+◌, ◌-◌, ◌∙◌, ◌∷◌, ◌≡◌, ◌≤◌,
}
use rkcockpit.Audit.{Recorder, push_ring, take_in, pull, offer}

abbrev pub held : {A : Type 0} → Option A → List A
held none = []
held (some a) = a ∷ []

-- The events that a recorder still has to deal with.
abbrev pub in_flight : {A : Type 0} → Recorder A → List A
in_flight r = r.hands ++ (r.queue ++ (r.falling ++ held r.writing))

pub record IsSound {A : Type 0} (r : Recorder A) : Type 0 where
  pub balance : r.pending ≡ length (in_flight r)
  pub conserved :
      (p : A → Bool) → count p r.taken ≡ count p r.disk + count p r.lost + count p (in_flight r)
  pub wrote : r.metrics.written ≡ length r.disk
  pub gave : r.metrics.unpersisted ≡ length r.lost
  pub bounded : length r.queue ≤ r.capacity
  pub shown : r.ring ≡ drop (length r.taken - r.max_ring) r.taken
  pub quiet : r.stop ≡ true → (r.accepting ≡ false) × (r.pending ≡ 0)
  pub healthy : r.metrics.degraded ≡ false → r.metrics.unpersisted ≡ 0

module _ {A : Type 0} where
  pub length-flight :
      (r : Recorder A)
      → length (in_flight r)
        ≡ length r.hands + length r.queue + length r.falling + length (held r.writing)
  length-flight r = omega (
    arith,
    length-append r.hands (r.queue ++ (r.falling ++ held r.writing)),
    length-append r.queue (r.falling ++ held r.writing),
    length-append r.falling (held r.writing),
  )

  pub count-flight :
      (p : A → Bool) (r : Recorder A)
      → count p (in_flight r)
        ≡ count p r.hands + count p r.queue + count p r.falling + count p (held r.writing)
  count-flight p r = omega (
    arith,
    count-append p r.hands (r.queue ++ (r.falling ++ held r.writing)),
    count-append p r.queue (r.falling ++ held r.writing),
    count-append p r.falling (held r.writing),
  )

  -- The last events of the longer list.
  push_ring-last :
      (m : ℕ) (a : A) (taken : List A)
      → push_ring m a (drop (length taken - m) taken)
        ≡ drop (length (taken ++ a ∷ []) - m) (taken ++ a ∷ [])
  unfolding push_ring
  push_ring-last m a taken =
      let lost = length taken - m in
      let ring = drop lost taken in
      let e : ring ++ a ∷ [] ≡ drop lost (taken ++ a ∷ []) =
        sym (drop-append lost taken (a ∷ []) (omega arith)) in
      ap (λ l. drop (length l - m) l) e
      ∙ drop-drop (length (drop lost (taken ++ a ∷ [])) - m) lost (taken ++ a ∷ [])
      ∙ ap (λ n. drop n (taken ++ a ∷ []))
          (omega (arith, length-drop lost (taken ++ a ∷ []), length-append taken (a ∷ [])))

  pub take_in-IsSound :
      (a : A) (r : Recorder A) → r.accepting ≡ true → IsSound r → IsSound (take_in a r)
  unfolding take_in
  take_in-IsSound a r open_ h = record {
    balance = omega (
      arith,
      h.balance,
      length-flight r,
      length-flight (take_in a r),
      length-append r.hands (a ∷ []),
    );
    conserved = λ p. omega (
      arith,
      h.conserved p,
      count-flight p r,
      count-flight p (take_in a r),
      count-append p r.hands (a ∷ []),
      count-append p r.taken (a ∷ []),
    );
    wrote = h.wrote;
    gave = h.gave;
    bounded = h.bounded;
    shown = ap (push_ring r.max_ring a) h.shown ∙ push_ring-last r.max_ring a r.taken;
    quiet = λ stops. absurd (ground (arith, (h.quiet stops).0, open_));
    healthy = h.healthy;
  }

  none≢some : {b : A × List A} → ◌≡◌ {A = Option (A × List A)} none (some b) → ⊥
  none≢some e = cc

  cons-pair :
      (x : A) (others : List A) (a : A) (rest : List A) (b : A)
      → ◌≡◌ {A = Option (A × List A)} (some (b, x ∷ others)) (some (a, rest))
      → (b ≡ a) × (x ∷ others ≡ rest)
  cons-pair x others a rest b e = (ground arith, ground arith)

  pub pull-split :
      (i : ℕ) (xs rest : List A) (a : A)
      → pull i xs ≡ some (a, rest)
      → (length xs ≡ suc (length rest))
        × ((p : A → Bool) → count p xs ≡ count p (a ∷ []) + count p rest)
  unfolding pull
  pull-split i [] rest a e = absurd (ground arith)
  pull-split zero (x ∷ xs) rest a e =
      let head : x ≡ a = ground arith in
      let tail : xs ≡ rest = ground arith in
      (
        ap (λ l. suc (length l)) tail,
        λ p. omega (arith, ap (λ y. count p (y ∷ [])) head, ap (count p) tail),
      )
  pull-split (suc i) (x ∷ xs) rest a e = elim (Option-cases (pull i xs)) [
    | inl none_left ↦ absurd (none≢some (rw (none_left, pull) at e))
    | inr ((b, others), found) ↦
        let (long, counts) = pull-split i xs others b found in
        let same = cons-pair x others a rest b (rw (found, pull) at e) in
        (
          omega (arith, long, ap length same.1),
          λ p. omega (arith, counts p, ap (λ y. count p (y ∷ [])) same.0, ap (count p) same.1),
        )
  ]

  pub offer-IsSound :
      (i : ℕ) (a : A) (rest : List A) (r : Recorder A)
      → pull i r.hands ≡ some (a, rest)
      → IsSound r
      → IsSound (offer a rest r)
  unfolding offer
  offer-IsSound i a rest r e h =
      let (long, counts) = pull-split i r.hands rest a e in
      elim (Bool-cases (ltb (length r.queue) r.capacity)) [
        | inl room ↦
            let s : Recorder A = record r {
              hands = rest;
              queue = r.queue ++ a ∷ [];
              metrics = record (r.metrics) { enqueued = r.metrics.enqueued + 1 };
            } in
            rw room (record {
              balance = omega (
                arith,
                h.balance,
                long,
                length-flight r,
                length-flight s,
                length-append r.queue (a ∷ []),
              );
              conserved = λ p. omega (
                arith,
                h.conserved p,
                counts p,
                count-flight p r,
                count-flight p s,
                count-append p r.queue (a ∷ []),
              );
              wrote = h.wrote;
              gave = h.gave;
              bounded = omega (arith, length-append r.queue (a ∷ []), ltb→lt _ _ room);
              shown = h.shown;
              quiet = h.quiet;
              healthy = h.healthy;
            })
        | inr full ↦
            let s : Recorder A = record r {
              hands = rest;
              falling = r.falling ++ a ∷ [];
              metrics = record (r.metrics) { fallback = r.metrics.fallback + 1 };
            } in
            rw full (record {
              balance = omega (
                arith,
                h.balance,
                long,
                length-flight r,
                length-flight s,
                length-append r.falling (a ∷ []),
              );
              conserved = λ p. omega (
                arith,
                h.conserved p,
                counts p,
                count-flight p r,
                count-flight p s,
                count-append p r.falling (a ∷ []),
              );
              wrote = h.wrote;
              gave = h.gave;
              bounded = h.bounded;
              shown = h.shown;
              quiet = h.quiet;
              healthy = h.healthy;
            })
      ]

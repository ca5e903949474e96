-- ===== src/Scheduler/ClassQueue/Fairness.antt =====
-- What the queue operations of host/transport/scheduler.py do to the queue of each device and to the
-- devices' turns.
use rkcockpit.Common.{
  All, All-append, Bool, Bool-cases, List, Option, String, [], ap, append-nil, append_assoc, ap₂,
  arith, count, count-append, eq_iff, eq_refl, false, if◌then◌else◌, inl, inr, is_nonempty, none,
  refl, some, str_eq, subst, sym, true, ℕ, ◌++◌, ◌+◌, ◌<◌, ◌∙◌, ◌∷◌, ◌≡◌,
}
use rkcockpit.Common.Dict.{Dict, lookup, insert, erase, lookup-insert, lookup-erase}
use rkcockpit.Scheduler.Waiter.{Waiter, Workload}
use rkcockpit.Scheduler.ClassQueue.{ClassQueue, queue_of, after_pop, pop_from, pop_eligible, empty}

abbrev pub turns_of : String → List String → ℕ
turns_of d rr = count (λ item. str_eq item d) rr

abbrev pub IsOwned : Workload → String → Waiter → Type 0
IsOwned kind d w = (w.device_id ≡ d) × (w.workload ≡ kind)

-- A device has one turn if it has waiters and none otherwise, and its waiters are its own.
pub record IsFair (kind : Workload) (q : ClassQueue) : Type 0 where
  pub turns :
      (d : String) → turns_of d q.round_robin ≡ (if is_nonempty (queue_of q d) then 1 else 0)
  pub owned : (d : String) → All (IsOwned kind d) (queue_of q d)

pub empty-IsFair : (kind : Workload) → IsFair kind empty
unfolding empty queue_of lookup
empty-IsFair kind = record { turns = λ d. refl; owned = λ d. tt }

-- A pop that found a waiter: the first in the queue of the first device in turn that may be
-- granted. The devices before it keep their order and go behind the others, and it goes last.
pub record Popped (kind : Workload) (can_grant : String → Bool) (q : ClassQueue) (w : Waiter)
    (q' : ClassQueue) : Type 0 where
  pub allowed : can_grant w.device_id ≡ true
  pub rest : List Waiter
  pub head : queue_of q w.device_id ≡ w ∷ rest
  pub queues' : (d : String) → queue_of q' d ≡ (if str_eq w.device_id d then rest else queue_of q d)
  pub before : List String
  pub after : List String
  pub turn : q.round_robin ≡ before ++ w.device_id ∷ after
  pub skipped : All (λ d. can_grant d ≡ false) before
  pub turn' :
      q'.round_robin ≡ after ++ before ++ (if is_nonempty rest then w.device_id ∷ [] else [])
  pub fair : IsFair kind q'
  pub of_kind : w.workload ≡ kind

abbrev pub PopResult : Workload → (String → Bool) → ClassQueue → Option Waiter × ClassQueue → Type 0
PopResult kind can_grant q (none, q') =
    (q' ≡ q) × ((d : String) → is_nonempty (queue_of q d) ≡ true → can_grant d ≡ false)
PopResult kind can_grant q (some w, q') = Popped kind can_grant q w q'

pub queue_of-insert :
    (q : ClassQueue) (device d : String) (ws : List Waiter) (rr : List String)
    → queue_of (record { queues = insert device ws q.queues; round_robin = rr }) d
      ≡ (if str_eq device d then ws else queue_of q d)
unfolding queue_of
queue_of-insert q device d ws rr = ground (arith, lookup-insert device d ws q.queues)

pub queue_of-erase :
    (q : ClassQueue) (device d : String) (rr : List String)
    → queue_of (record { queues = erase device q.queues; round_robin = rr }) d
      ≡ (if str_eq device d then [] else queue_of q d)
unfolding queue_of
queue_of-erase q device d rr = ground (arith, lookup-erase device d q.queues)

pub turns_of-append :
    (d : String) (xs ys : List String) → turns_of d (xs ++ ys) ≡ turns_of d xs + turns_of d ys
turns_of-append d xs ys = count-append (λ item. str_eq item d) xs ys

turns_of-last :
    (d device : String) (b : Bool)
    → turns_of d (if b then device ∷ [] else [])
      ≡ (if b then (if str_eq device d then 1 else 0) else 0)
turns_of-last d device true = omega arith
turns_of-last d device false = refl

-- The device whose queue an operation has changed to `ws`, and its new turn.
pub record Changed (q q' : ClassQueue) (device : String) (ws : List Waiter) : Type 0 where
  pub queues : (d : String) → queue_of q' d ≡ (if str_eq device d then ws else queue_of q d)
  pub turns_self : turns_of device q'.round_robin ≡ (if is_nonempty ws then 1 else 0)
  pub turns_other :
      (d : String) → str_eq device d ≡ false → turns_of d q'.round_robin ≡ turns_of d q.round_robin

pub Changed-IsFair :
    (kind : Workload) (q q' : ClassQueue) (device : String) (ws : List Waiter)
    → IsFair kind q
    → Changed q q' device ws
    → All (IsOwned kind device) ws
    → IsFair kind q'
Changed-IsFair kind q q' device ws f c own = record { turns = turns; owned = owned }
  where
    turns :
        (d : String) → turns_of d q'.round_robin ≡ (if is_nonempty (queue_of q' d) then 1 else 0)
    turns d = elim (Bool-cases (str_eq device d)) [
      | inl e ↦
          let e' = (eq_iff device d).0 e in
          rw (c.queues d) (
            rw e (
              subst (λ x. turns_of x q'.round_robin ≡ (if is_nonempty ws then 1 else 0)) e'
                c.turns_self))
      | inr n ↦ rw (c.queues d) (rw n (c.turns_other d n ∙ f.turns d))
    ]

    owned : (d : String) → All (IsOwned kind d) (queue_of q' d)
    owned d = elim (Bool-cases (str_eq device d)) [
      | inl e ↦
          let e' = (eq_iff device d).0 e in
          rw (c.queues d) (rw e (subst (λ x. All (IsOwned kind x) ws) e' own))
      | inr n ↦ rw (c.queues d) (rw n (f.owned d))
    ]

round_robin-after_pop :
    (device : String) (rr : List String) (queues : Dict (List Waiter)) (ws : List Waiter)
    → (after_pop device rr queues ws).round_robin
      ≡ rr ++ (if is_nonempty ws then device ∷ [] else [])
unfolding after_pop
round_robin-after_pop device rr queues [] = sym (append-nil rr)
round_robin-after_pop device rr queues (v ∷ ws) = refl

queue_of-after_pop :
    (q : ClassQueue) (device : String) (rr : List String) (ws : List Waiter) (d : String)
    → queue_of (after_pop device rr q.queues ws) d ≡ (if str_eq device d then ws else queue_of q d)
unfolding after_pop
queue_of-after_pop q device rr [] d = queue_of-erase q device d rr
queue_of-after_pop q device rr (v ∷ ws) d = queue_of-insert q device d (v ∷ ws) _

module _ (can_grant : String → Bool) (device : String) (turn kept : List String) (q : ClassQueue)
    (w : Waiter) (ws : List Waiter) (head : queue_of q device ≡ w ∷ ws) where
  pop_from-granted :
      can_grant device ≡ true
      → pop_from can_grant (device ∷ turn) kept q.queues
        ≡ (some w, after_pop device (turn ++ kept) q.queues ws)
  unfolding pop_from queue_of
  pop_from-granted granted = ground arith

  pop_from-refused :
      can_grant device ≡ false
      → pop_from can_grant (device ∷ turn) kept q.queues
        ≡ pop_from can_grant turn (kept ++ device ∷ []) q.queues
  unfolding pop_from queue_of
  pop_from-refused refused = ground arith

module _ (kind : Workload) (can_grant : String → Bool) (q : ClassQueue) (fair : IsFair kind q) where
  turn_is_nonempty :
      (device : String) (kept turn : List String)
      → q.round_robin ≡ kept ++ device ∷ turn
      → is_nonempty (queue_of q device) ≡ true
  turn_is_nonempty device kept turn e = ground (
    arith,
    fair.turns device,
    ap (turns_of device) e,
    turns_of-append device kept (device ∷ turn),
    eq_refl device,
  )

  -- The turns after a pop are those before it, but for the turn that is used up.
  popped_Changed :
      (device : String) (kept turn : List String) (w : Waiter) (ws : List Waiter) (q' : ClassQueue)
      → q.round_robin ≡ kept ++ device ∷ turn
      → queue_of q device ≡ w ∷ ws
      → q'.round_robin ≡ turn ++ kept ++ (if is_nonempty ws then device ∷ [] else [])
      → ((d : String) → queue_of q' d ≡ (if str_eq device d then ws else queue_of q d))
      → Changed q q' device ws
  popped_Changed device kept turn w ws q' e head e' law = record {
    queues = law;
    turns_self = ground (arith, counts device, fair.turns device, head, eq_refl device, e, e');
    turns_other = λ d n. ground (arith, counts d);
  }
    where
      counts :
          (d : String)
          → (turns_of d q.round_robin
              ≡ turns_of d kept + ((if str_eq device d then 1 else 0) + turns_of d turn))
            × (turns_of d q'.round_robin
                ≡ turns_of d turn
                  + turns_of d kept
                  + (if is_nonempty ws then (if str_eq device d then 1 else 0) else 0))
      counts d = (
        ap (turns_of d) e ∙ turns_of-append d kept (device ∷ turn),
        ap (turns_of d) e'
            ∙ turns_of-append d (turn ++ kept) _
            ∙ ap₂ ◌+◌ (turns_of-append d turn kept) (turns_of-last d device (is_nonempty ws)),
      )

  is_owned :
      (device : String) (w : Waiter) (ws : List Waiter)
      → queue_of q device ≡ w ∷ ws
      → All (IsOwned kind device) (w ∷ ws)
  is_owned device w ws h = subst (All (IsOwned kind device)) h (fair.owned device)

  module _ (kept turn : List String) (w : Waiter) (ws : List Waiter) where
    to_Popped :
        (q' : ClassQueue)
        → q.round_robin ≡ kept ++ w.device_id ∷ turn
        → queue_of q w.device_id ≡ w ∷ ws
        → All (λ d. can_grant d ≡ false) kept
        → can_grant w.device_id ≡ true
        → q'.round_robin ≡ turn ++ kept ++ (if is_nonempty ws then w.device_id ∷ [] else [])
        → ((d : String) → queue_of q' d ≡ (if str_eq w.device_id d then ws else queue_of q d))
        → Popped kind can_grant q w q'
    to_Popped q' e head ineligible allowed e' law =
        let own = is_owned w.device_id w ws head in
        record {
          allowed = allowed;
          rest = ws;
          head = head;
          queues' = law;
          before = kept;
          after = turn;
          turn = e;
          skipped = ineligible;
          turn' = e';
          fair =
              Changed-IsFair kind q q' w.device_id ws fair
                (popped_Changed w.device_id kept turn w ws q' e head e' law) own.1;
          of_kind = own.0.1;
        }

    -- A round of the loop at a device that has waiters.
    abbrev Round : String → Type 0
    Round device =
        q.round_robin ≡ kept ++ device ∷ turn
        → queue_of q device ≡ w ∷ ws
        → All (λ d. can_grant d ≡ false) kept
        → (can_grant device ≡ false
            → PopResult kind can_grant q (pop_from can_grant turn (kept ++ device ∷ []) q.queues))
        → PopResult kind can_grant q (pop_from can_grant (device ∷ turn) kept q.queues)

  head-Round :
      (kept turn : List String) (w : Waiter) (ws : List Waiter) → Round kept turn w ws w.device_id
  head-Round kept turn w ws e head ineligible later =
      let device = w.device_id in
      elim (Bool-cases (can_grant device)) [
        | inl granted ↦
            subst (PopResult kind can_grant q)
              (sym (pop_from-granted can_grant device turn kept q w ws head granted))
              (to_Popped kept turn w ws (after_pop device (turn ++ kept) q.queues ws) e head
                ineligible granted (round_robin-after_pop device (turn ++ kept) q.queues ws)
                (queue_of-after_pop q device (turn ++ kept) ws))
        | inr refused ↦
            subst (PopResult kind can_grant q)
              (sym (pop_from-refused can_grant device turn kept q w ws head refused))
              (later refused)
      ]

  pop_round :
      (kept turn : List String) (device : String) (queue : List Waiter)
      → queue_of q device ≡ queue
      → q.round_robin ≡ kept ++ device ∷ turn
      → All (λ d. can_grant d ≡ false) kept
      → (can_grant device ≡ false
          → PopResult kind can_grant q (pop_from can_grant turn (kept ++ device ∷ []) q.queues))
      → PopResult kind can_grant q (pop_from can_grant (device ∷ turn) kept q.queues)
  pop_round kept turn device [] h e ineligible later =
      absurd (ground (arith, turn_is_nonempty device kept turn e))
  pop_round kept turn device (w ∷ ws) h e ineligible later =
      subst (Round kept turn w ws) (is_owned device w ws h).0.0 (head-Round kept turn w ws) e h
        ineligible later

  -- Past the last turn every device with waiters has been refused.
  none_eligible :
      (d : String)
      → All (λ x. can_grant x ≡ false) q.round_robin
      → is_nonempty (queue_of q d) ≡ true
      → can_grant d ≡ false
  none_eligible d all h = refused_of_turn d q.round_robin (ground (arith, fair.turns d)) all
    where
      refused_of_turn :
          (d : String) (rr : List String)
          → 0 < turns_of d rr
          → All (λ x. can_grant x ≡ false) rr
          → can_grant d ≡ false
      refused_of_turn d [] p a = absurd (omega arith)
      refused_of_turn d (x ∷ rr) p a =
          ground (arith, eq_iff x d, λ (h : 0 < turns_of d rr). refused_of_turn d rr h a.1)

  pop_from-PopResult :
      (turn kept : List String)
      → q.round_robin ≡ kept ++ turn
      → All (λ d. can_grant d ≡ false) kept
      → PopResult kind can_grant q (pop_from can_grant turn kept q.queues)
  unfolding pop_from
  pop_from-PopResult [] kept e ineligible =
      let whole = e ∙ append-nil kept in
      (
        λ i. record { queues = q.queues; round_robin = sym whole i },
        λ d. none_eligible d (rw whole ineligible),
      )
  pop_from-PopResult (device ∷ turn) kept e ineligible =
      pop_round kept turn device (queue_of q device) refl e ineligible (λ refused.
        pop_from-PopResult turn (kept ++ device ∷ [])
          (e ∙ sym (append_assoc kept (device ∷ []) turn))
          (All-append _ kept (device ∷ []) ineligible (refused, tt)))

-- On queues in which every device has a turn exactly while it has waiters, all of the workload: if
-- some device may be granted, the loop returns the oldest waiter of the first such device in turn,
-- moves that device to the end of the turn (out of it, when no waiter is left), keeps the queues of
-- the others and that invariant. If it returns no waiter, no device with waiters may be granted, and
-- nothing changed.
pub pop_eligible-PopResult :
    (kind : Workload) (can_grant : String → Bool) (q : ClassQueue)
    → IsFair kind q
    → PopResult kind can_grant q (pop_eligible can_grant q)
unfolding pop_eligible
pop_eligible-PopResult kind can_grant q fair =
    pop_from-PopResult kind can_grant q fair q.round_robin [] refl tt

-- ===== src/Portal/Server/Slots.antt =====
-- The slots of portal/server.py under any order of requests and workers.
use rkcockpit.Common.{
  &&-right, Bool, Bool-cases, List, Option, String, [], ap, arith, eq_refl, false, inl, inr, length,
  length-append, ltb, ltb→lt, not, refl, some, suc, true, zero, ℕ, ◌&&◌, ◌++◌, ◌+◌, ◌-◌, ◌<◌, ◌↔◌,
  ◌∙◌, ◌∷◌, ◌≡◌, ◌≤◌, ◌⊎◌,
}
use rkcockpit.Common.Dict.{lookup, lookup-insert}
use rkcockpit.Common.Int.{ℤ, pos, negsuc, minus, ◌+ℤ◌, minus-suc}
use rkcockpit.Metrics.{Metrics, gauge_add, gauge_set, increment, observe_http_status}
use rkcockpit.Portal.Server.{
  Server, admitted, busy, admit, give_back, reject, process_request, take_work, finish, remove_one,
  is_handled, server_close, is_drained, gauge, or_same, init,
}

pub data Event : Type 0 where
  request : Bool → ℕ → Event
  takes : Event
  finishes : ℕ → Event
  closes : Event

unfoldable pub step : Event → Server → Server
unfolding process_request take_work finish server_close
step (request timed r) s = (process_request timed r s).1
step takes s = take_work s.work s
step (finishes r) s = finish r s
step closes s = server_close s

unfoldable pub run : List Event → Server → Server
unfolding step
run [] s = s
run (e ∷ events) s = run events (step e s)

pub record IsSound (s : Server) : Type 0 where
  pub active : s.active_requests ≡ length s.work + length s.handled
  pub slots : s.free_slots + s.active_requests ≡ s.max_workers
  pub shown : lookup "http_active" s.metrics.gauges ≡ some (pos s.active_requests)

length-remove_one :
    (x : ℕ) (ys : List ℕ) → is_handled x ys ≡ true → length (remove_one x ys) + 1 ≡ length ys
unfolding remove_one is_handled
length-remove_one x [] h = absurd (ground arith)
length-remove_one x (y ∷ ys) h = ground (arith, length-remove_one x ys)

gauge-up :
    (n : ℕ) (m : Metrics)
    → lookup "http_active" m.gauges ≡ some (pos n)
    → lookup "http_active" (gauge (pos 1) m).gauges ≡ some (pos (n + 1))
unfolding gauge gauge_add or_same ◌+ℤ◌
gauge-up n m e =
    ground (
      arith,
      lookup-insert "http_active" "http_active" (pos (n + 1)) m.gauges,
      eq_refl "http_active",
    )

gauge-down :
    (n : ℕ) (m : Metrics)
    → lookup "http_active" m.gauges ≡ some (pos (suc n))
    → lookup "http_active" (gauge (negsuc 0) m).gauges ≡ some (pos n)
unfolding gauge gauge_add or_same ◌+ℤ◌
gauge-down n m e = ground (
  arith,
  lookup-insert "http_active" "http_active" (minus (suc n) 1) m.gauges,
  eq_refl "http_active",
  minus-suc n,
)

increment-gauges :
    (name : String) (amount : ℤ) (m : Metrics)
    → (or_same m (increment name amount m)).gauges ≡ m.gauges
unfolding increment or_same
increment-gauges name amount m = ground arith

observe-gauges :
    (status : Option ℤ) (m : Metrics) → (or_same m (observe_http_status status m)).gauges ≡ m.gauges
unfolding observe_http_status increment or_same
observe-gauges status m = ground arith

reject-gauges : (s : Server) → (reject s).metrics.gauges ≡ s.metrics.gauges
unfolding reject
reject-gauges s =
    observe-gauges (some (pos 503))
      (or_same s.metrics (increment "http_rejected" (pos 1) s.metrics))
    ∙ increment-gauges "http_rejected" (pos 1) s.metrics

admit-shown :
    (s : Server)
    → IsSound s
    → lookup "http_active" (admit s).metrics.gauges ≡ some (pos (s.active_requests + 1))
unfolding admit
admit-shown s h = gauge-up s.active_requests s.metrics h.shown

give_back-shown :
    (s : Server) (n : ℕ)
    → lookup "http_active" s.metrics.gauges ≡ some (pos n)
    → 0 < n
    → lookup "http_active" (give_back s).metrics.gauges ≡ some (pos (n - 1))
unfolding give_back
give_back-shown s zero e lt = absurd (omega arith)
give_back-shown s (suc n) e lt = gauge-down n s.metrics e ∙ ap (λ k. some (pos k)) (omega arith)

admitted-IsSound :
    (r : ℕ) (s : Server)
    → IsSound s
    → 0 < s.free_slots
    → IsSound (record (admit s) { work = s.work ++ r ∷ [] })
unfolding admit
admitted-IsSound r s h room = record {
  active = omega (arith, h.active, length-append s.work (r ∷ []));
  slots = omega (arith, h.slots, room);
  shown = admit-shown s h;
}

returned-IsSound : (s : Server) → IsSound s → 0 < s.free_slots → IsSound (give_back (admit s))
unfolding admit give_back
returned-IsSound s h room = record {
  active = omega (arith, h.active);
  slots = omega (arith, h.slots, room);
  shown =
      give_back-shown (admit s) (s.active_requests + 1) (admit-shown s h) (omega arith)
      ∙ ap (λ k. some (pos k)) (omega arith);
}

rejected-IsSound : (s : Server) → IsSound s → IsSound (reject s)
unfolding reject
rejected-IsSound s h = record {
  active = h.active;
  slots = h.slots;
  shown = ap (lookup "http_active") (reject-gauges s) ∙ h.shown;
}

process_request-IsSound :
    (timed : Bool) (r : ℕ) (s : Server) → IsSound s → IsSound (process_request timed r s).1
unfolding process_request
process_request-IsSound timed r s h = elim (Bool-cases (not s.closing && ltb 0 s.free_slots)) [
  | inr full ↦ rw (full, process_request) (rejected-IsSound s h)
  | inl open_ ↦
      let room : 0 < s.free_slots = ltb→lt 0 s.free_slots (&&-right (not s.closing) _ open_) in
      elim (Bool-cases (timed && ltb (length (admit s).work) (admit s).max_workers)) [
        | inl fits ↦ rw (open_, fits, process_request) (admitted-IsSound r s h room)
        | inr fails ↦ rw (open_, fails, process_request) (returned-IsSound s h room)
      ]
]

finish-IsSound : (r : ℕ) (s : Server) → IsSound s → IsSound (finish r s)
unfolding finish
finish-IsSound r s h = elim (Bool-cases (is_handled r s.handled)) [
  | inr other ↦ rw (other, finish) h
  | inl own ↦ rw (own, finish) (freed (length-remove_one r s.handled own))
]
  where
    freed :
        length (remove_one r s.handled) + 1 ≡ length s.handled
        → IsSound (give_back (record s { handled = remove_one r s.handled }))
    freed e = record {
      active = omega (arith, h.active, e);
      slots = omega (arith, h.slots, h.active, e);
      shown =
          give_back-shown (record s { handled = remove_one r s.handled }) s.active_requests h.shown
            (omega (arith, h.active, e));
    }

take_work-IsSound :
    (work : List ℕ) (s : Server) → work ≡ s.work → IsSound s → IsSound (take_work work s)
unfolding take_work
take_work-IsSound [] s e h = h
take_work-IsSound (r ∷ work) s e h = record {
  active = omega (arith, h.active, ap (length {A = ℕ}) e, length-append s.handled (r ∷ []));
  slots = h.slots;
  shown = h.shown;
}

step-IsSound : (e : Event) (s : Server) → IsSound s → IsSound (step e s)
unfolding step server_close
step-IsSound (request timed r) s h = process_request-IsSound timed r s h
step-IsSound takes s h = take_work-IsSound s.work s refl h
step-IsSound (finishes r) s h = finish-IsSound r s h
step-IsSound closes s h = record { active = h.active; slots = h.slots; shown = h.shown }

pub run-IsSound : (events : List Event) (s : Server) → IsSound s → IsSound (run events s)
unfolding run
run-IsSound [] s h = h
run-IsSound (e ∷ events) s h = run-IsSound events (step e s) (step-IsSound e s h)

step-max : (e : Event) (s : Server) → (step e s).max_workers ≡ s.max_workers
unfolding step admit give_back reject server_close process_request finish
step-max (request timed r) s = ground arith
step-max takes s = take_work-max s.work s
  where
    take_work-max : (work : List ℕ) (s : Server) → (take_work work s).max_workers ≡ s.max_workers
    take_work-max [] s = refl
    take_work-max (r ∷ work) s = refl
step-max (finishes r) s = ground arith
step-max closes s = refl

run-max : (events : List Event) (s : Server) → (run events s).max_workers ≡ s.max_workers
unfolding run
run-max [] s = refl
run-max (e ∷ events) s = run-max events (step e s) ∙ step-max e s

pub init-IsSound :
    (max_workers : ℕ) (m : Metrics) (s : Server)
    → init max_workers m ≡ some s
    → lookup "http_active" m.gauges ≡ some (pos 0)
    → IsSound s × (s.max_workers ≡ max_workers)
unfolding init or_same gauge_set
init-IsSound max_workers m s e z =
    let own = lookup-insert "http_max_workers" "http_active" (pos max_workers) m.gauges in
    ground (arith, own)

-- A server with any accepted number of workers, started when the gauge shows 0: after any requests,
-- turns of workers, ends of handlers and `server_close`, the active requests are those that wait and
-- those that are handled, they are never more than the workers, the gauge "http_active" shows their
-- number, and the server is drained exactly when none waits or is handled.
pub run-active_requests :
    (max_workers : ℕ) (m : Metrics) (s : Server) (events : List Event)
    → init max_workers m ≡ some s
    → lookup "http_active" m.gauges ≡ some (pos 0)
    → let t = run events s in
      (t.active_requests ≡ length t.work + length t.handled)
      × (t.active_requests ≤ max_workers)
      × (lookup "http_active" t.metrics.gauges ≡ some (pos t.active_requests))
      × ((is_drained t ≡ true) ↔ (length t.work + length t.handled ≡ 0))
unfolding is_drained
run-active_requests max_workers m s events e z =
    let (h, same) = init-IsSound max_workers m s e z in
    let k = run-IsSound events s h in
    (k.active, omega (arith, k.slots, run-max events s, same), k.shown, ground (arith, k.active))

-- In such a server a request is turned away exactly when the server is closing or every worker has a
-- request already, and it is admitted exactly when neither is so and its socket takes the timeout:
-- the queue has room whenever a slot is free.
process_request_iff :
    (timed : Bool) (r : ℕ) (s : Server)
    → IsSound s
    → (((process_request timed r s).0 ≡ busy)
        ↔ (s.closing ≡ true ⊎ s.active_requests ≡ s.max_workers))
      × (((process_request timed r s).0 ≡ admitted)
          ↔ ((timed ≡ true) × (s.closing ≡ false) × (s.active_requests < s.max_workers)))
unfolding process_request admit
process_request_iff timed r s h = (
  ground (arith, h.slots, h.active),
  (
    λ e. (
      ground (arith, h.slots, h.active),
      ground (arith, h.slots, h.active),
      ground (arith, h.slots, h.active),
    ),
    λ e. ground (arith, h.slots, h.active, e),
  ),
)

-- ===== src/Spool/Budget.antt =====
-- The budget of host/task/spool.py, for any sequence of uploads that begin and end.
use rkcockpit.Common.{
  List, Option, [], arith, false, if◌then◌else◌, none, refl, some, suc, zero, ℕ, ◌+◌, ◌<◌, ◌↔◌, ◌∷◌,
  ◌≡◌, ◌≤◌,
}
use rkcockpit.Spool.{
  Limiter, Lease, Admission, admitted, refused, init, acquire, give_back, release,
}

-- The bytes of the leases that are not released.
unfoldable pub outstanding : List Lease → ℕ
outstanding [] = 0
outstanding (x ∷ leases) = (if x.released then 0 else x.size) + outstanding leases

unfoldable pub open_leases : List Lease → ℕ
open_leases [] = 0
open_leases (x ∷ leases) = (if x.released then 0 else 1) + open_leases leases

-- The limiter and every lease that it has handed out.
pub record System : Type 0 where
  pub limiter : Limiter
  pub leases : List Lease

-- `release` of the lease at an index; an index that names no lease does nothing.
unfoldable pub release_at : ℕ → List Lease → Limiter → List Lease × Limiter
unfolding release
release_at i [] l = ([], l)
release_at zero (x ∷ leases) l = let (y, m) = release x l in (y ∷ leases, m)
release_at (suc i) (x ∷ leases) l = let (ys, m) = release_at i leases l in (x ∷ ys, m)

pub data Event : Type 0 where
  begin : Option ℕ → (size : ℕ) → Event
  finish : ℕ → Event

abbrev pub admit : Admission → System → System
admit (admitted lease l) s = record { limiter = l; leases = lease ∷ s.leases }
admit (refused _) s = s

unfoldable pub step : System → Event → System
unfolding acquire release_at
step s (begin disk size) = admit (acquire disk size s.limiter) s
step s (finish i) =
    let (leases, l) = release_at i s.leases s.limiter in record { limiter = l; leases = leases }

unfoldable pub run : System → List Event → System
unfolding step
run s [] = s
run s (e ∷ events) = run (step s e) events

-- The books agree with the leases, and the limits hold.
pub record IsSound (s : System) : Type 0 where
  pub reserved : s.limiter.reserved ≡ outstanding s.leases
  pub active : s.limiter.active ≡ open_leases s.leases
  pub within_bytes : s.limiter.reserved ≤ s.limiter.max_bytes
  pub within_active : s.limiter.active ≤ s.limiter.max_active

release_at-counts :
    (i : ℕ) (leases : List Lease) (l : Limiter) (a b : ℕ)
    → l.reserved ≡ outstanding leases + a
    → l.active ≡ open_leases leases + b
    → let r = release_at i leases l in
      (r.1.reserved ≡ outstanding r.0 + a)
      × (r.1.active ≡ open_leases r.0 + b)
      × (r.1.reserved ≤ l.reserved)
      × (r.1.active ≤ l.active)
      × (r.1.max_bytes ≡ l.max_bytes)
      × (r.1.max_active ≡ l.max_active)
      × (r.1.min_free_bytes ≡ l.min_free_bytes)
unfolding release_at outstanding open_leases give_back
release_at-counts i [] l a b e f = (e, f, omega arith, omega arith, refl, refl, refl)
release_at-counts zero (x ∷ leases) l a b e f = ground arith
release_at-counts (suc i) (x ∷ leases) l a b e f = ground (
  arith,
  release_at-counts i leases l ((if x.released then 0 else x.size) + a)
      ((if x.released then 0 else 1) + b),
)

-- A release leaves the limits alone.
release_at-fields :
    (i : ℕ) (leases : List Lease) (l : Limiter)
    → ((release_at i leases l).1.max_bytes ≡ l.max_bytes)
      × ((release_at i leases l).1.max_active ≡ l.max_active)
unfolding release_at give_back
release_at-fields i [] l = (refl, refl)
release_at-fields zero (x ∷ leases) l = ground arith
release_at-fields (suc i) (x ∷ leases) l = release_at-fields i leases l

step-IsSound : (s : System) (e : Event) → IsSound s → IsSound (step s e)
unfolding step acquire outstanding open_leases
step-IsSound s (begin disk size) h = ground arith
step-IsSound s (finish i) h = ground (arith, release_at-counts i s.leases s.limiter 0 0)

run-IsSound : (s : System) (events : List Event) → IsSound s → IsSound (run s events)
unfolding run
run-IsSound s [] h = h
run-IsSound s (e ∷ events) h = run-IsSound (step s e) events (step-IsSound s e h)

step-limits :
    (s : System) (e : Event)
    → ((step s e).limiter.max_bytes ≡ s.limiter.max_bytes)
      × ((step s e).limiter.max_active ≡ s.limiter.max_active)
unfolding step acquire
step-limits s (begin disk size) = ground arith
step-limits s (finish i) = ground (arith, release_at-fields i s.leases s.limiter)

run-limits :
    (s : System) (events : List Event)
    → ((run s events).limiter.max_bytes ≡ s.limiter.max_bytes)
      × ((run s events).limiter.max_active ≡ s.limiter.max_active)
unfolding run
run-limits s [] = (refl, refl)
run-limits s (e ∷ events) = ground (arith, step-limits s e, run-limits (step s e) events)

abbrev pub started : ℕ → ℕ → ℕ → System
started max_active max_bytes min_free_bytes = record {
  limiter = init max_active max_bytes min_free_bytes;
  leases = [];
}

-- After any sequence of uploads that begin and of leases that are released, once or more often: the
-- bytes reserved are those of the leases that are not released, the active uploads are those leases,
-- and neither passes its limit.
pub run-within_budget :
    (max_active max_bytes min_free_bytes : ℕ) (events : List Event)
    → let s = run (started max_active max_bytes min_free_bytes) events in
      (s.limiter.reserved ≡ outstanding s.leases)
      × (s.limiter.active ≡ open_leases s.leases)
      × (s.limiter.reserved ≤ max_bytes)
      × (s.limiter.active ≤ max_active)
unfolding init outstanding open_leases
run-within_budget max_active max_bytes min_free_bytes events =
    let s = started max_active max_bytes min_free_bytes in
    let h : IsSound (run s events) = run-IsSound s events (record {
      reserved = refl;
      active = refl;
      within_bytes = omega arith;
      within_active = omega arith;
    }) in
    let (bytes, active) = run-limits s events in
    (
      h.reserved,
      h.active,
      omega (arith, h.within_bytes, bytes),
      omega (arith, h.within_active, active),
    )

-- An upload is admitted exactly when its size is positive and within the budget, the free space is
-- known, a slot is left, the bytes fit beside those reserved, and the disk keeps its minimum free
-- beyond all that is reserved then. It gets a lease of its size, and its size is reserved.
acquire_iff :
    (disk : Option ℕ) (size : ℕ) (l : Limiter)
    → ((0 < size)
        × (l.active < l.max_active)
        × (l.reserved + size ≤ l.max_bytes)
        × ((free : ℕ) × (disk ≡ some free) × (l.min_free_bytes + l.reserved + size ≤ free)))
      ↔ (acquire disk size l
          ≡ admitted
              (record { size = size; released = false })
              (record l { active = l.active + 1; reserved = l.reserved + size }))
unfolding acquire
acquire_iff none size l = (λ h. ground arith, λ h. ground arith)
acquire_iff (some free) size l =
    (λ h. ground arith, λ h. (ground arith, ground arith, ground arith, (free, refl, ground arith)))

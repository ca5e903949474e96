-- ===== src/Scheduler/Waiter.antt =====
-- `_Waiter` of host/transport/scheduler.py. Times are whole milliseconds of the scheduler's clock.
-- Two waiters are one object exactly when their fields agree: `ident` is fresh for each.
use rkcockpit.Common.{
  All, All-if, Bool, List, String, [], arith, count, eq_iff, false, if◌then◌else◌, is_nonempty,
  length, refl, str_eq, true, ℕ, ◌&&◌, ◌+◌, ◌<◌, ◌==◌, ◌||◌, ◌↔◌, ◌∷◌, ◌≡◌,
}

pub data Workload : Type 0 where
  foreground background : Workload

pub record Waiter : Type 0 where
  pub ident : ℕ
  pub device_id : String
  pub workload : Workload
  pub started : ℕ

unfoldable pub workload_eq : Workload → Workload → Bool
workload_eq foreground foreground = true
workload_eq background background = true
workload_eq _ _ = false

pub workload_eq_iff : (a b : Workload) → (workload_eq a b ≡ true) ↔ (a ≡ b)
unfolding workload_eq
workload_eq_iff a b = ground arith

-- `is`, which `deque.remove` falls back to.
unfoldable pub same : Waiter → Waiter → Bool
same v w =
    v.ident == w.ident
    && str_eq v.device_id w.device_id
    && workload_eq v.workload w.workload
    && v.started == w.started

pub same_iff : (v w : Waiter) → (same v w ≡ true) ↔ (v ≡ w)
unfolding same
same_iff v w = ground (arith, eq_iff v.device_id w.device_id, workload_eq_iff v.workload w.workload)

-- `w in q`
unfoldable pub member : Waiter → List Waiter → Bool
member w [] = false
member w (v ∷ vs) = same v w || member w vs

-- The effect of `q.remove(w)`, which raises ValueError where `w` is no member.
unfoldable pub remove : Waiter → List Waiter → List Waiter
remove w [] = []
remove w (v ∷ vs) = if same v w then vs else v ∷ remove w vs

pub same_refl : (w : Waiter) → same w w ≡ true
same_refl w = (same_iff w w).1 refl

pub count-remove :
    (p : Waiter → Bool) (w : Waiter) (vs : List Waiter)
    → member w vs ≡ true
    → count p vs ≡ count p (remove w vs) + (if p w then 1 else 0)
unfolding remove member
count-remove p w [] h = absurd (ground arith)
count-remove p w (v ∷ vs) h = ground (arith, count-remove p w vs, same_iff v w)

pub length-remove :
    (w : Waiter) (vs : List Waiter) → member w vs ≡ true → length vs ≡ length (remove w vs) + 1
unfolding remove member
length-remove w [] h = absurd (ground arith)
length-remove w (v ∷ vs) h = ground (arith, length-remove w vs)

pub All-remove :
    (P : Waiter → Type 0) (w : Waiter) (vs : List Waiter) → All P vs → All P (remove w vs)
unfolding remove
All-remove P w [] a = tt
All-remove P w (v ∷ vs) a =
    All-if P (same v w) vs (v ∷ remove w vs) a.1 (a.0, All-remove P w vs a.1)

pub count_pos_of_member :
    (p : Waiter → Bool) (w : Waiter) (vs : List Waiter)
    → member w vs ≡ true
    → p w ≡ true
    → 0 < count p vs
unfolding member
count_pos_of_member p w [] h e = absurd (ground arith)
count_pos_of_member p w (v ∷ vs) h e = ground (arith, count_pos_of_member p w vs, same_iff v w)

pub is_nonempty_of_remove :
    (w : Waiter) (vs : List Waiter) → is_nonempty (remove w vs) ≡ true → is_nonempty vs ≡ true
unfolding remove
is_nonempty_of_remove w [] h = h
is_nonempty_of_remove w (v ∷ vs) h = refl

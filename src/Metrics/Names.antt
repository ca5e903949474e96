-- ===== src/Metrics/Names.antt =====
-- The names of host/core/metrics.py are closed, and counters only grow.
use rkcockpit.Common.{
  Bool-cases, List, Option, Option-cases, String, [], arith, eq_iff, false, inl, inr, none, refl,
  some, str_eq, true, ℕ, ◌+◌, ◌∙◌, ◌∷◌, ◌≡◌, ◌≤◌, ◌⊎◌,
}
use rkcockpit.Common.Dict.{Dict, lookup, insert, lookup-insert}
use rkcockpit.Common.Int.{ℤ, pos, negsuc, ◌+ℤ◌}
use rkcockpit.Common.Result.{Result, ok, raised, ◌>>=◌}
use rkcockpit.Metrics.{
  Metrics, Error, increment, gauge_add, gauge_set, observe_http_status, status_counter,
}

pub data Call : Type 0 where
  increments adds sets : String → ℤ → Call
  observes : Option ℤ → Call

unfoldable pub call : Call → Metrics → Result Error Metrics
unfolding increment gauge_add gauge_set observe_http_status
call (increments name amount) m = increment name amount m
call (adds name amount) m = gauge_add name amount m
call (sets name value) m = gauge_set name value m
call (observes status) m = observe_http_status status m

-- A call that raises changes nothing.
unfoldable pub keep : Metrics → Result Error Metrics → Metrics
keep m (ok t) = t
keep m (raised _) = m

unfoldable pub run : List Call → Metrics → Metrics
unfolding call keep
run [] m = m
run (c ∷ calls) m = run calls (keep m (call c m))

abbrev pub names_of {ℓ} : {A : Type ℓ} → Dict A → List String
names_of [] = []
names_of ((k, v) ∷ d) = k ∷ names_of d

-- The same names, and every counter at least as high.
pub record Grows (m t : Metrics) : Type 0 where
  pub counters : names_of t.counters ≡ names_of m.counters
  pub gauges : names_of t.gauges ≡ names_of m.gauges
  pub counts :
      (k : String) (n : ℕ)
      → lookup k m.counters ≡ some n
      → (p : ℕ) × (lookup k t.counters ≡ some p) × (n ≤ p)

insert-names {ℓ} :
    {A : Type ℓ} (k : String) (v w : A) (d : Dict A)
    → lookup k d ≡ some w
    → names_of (insert k v d) ≡ names_of d
unfolding lookup insert
insert-names k v w [] e = absurd (ground arith)
insert-names k v w ((j, x) ∷ d) e = ground (arith, eq_iff j k, insert-names k v w d)

Grows-refl : (m : Metrics) → Grows m m
Grows-refl m = record { counters = refl; gauges = refl; counts = λ k n e. (n, e, omega arith) }

Grows-trans : {a b c : Metrics} → Grows a b → Grows b c → Grows a c
Grows-trans g h = record {
  counters = h.counters ∙ g.counters;
  gauges = h.gauges ∙ g.gauges;
  counts = λ k n e.
      let (p, f, le) = g.counts k n e in
      let (q, f', le') = h.counts k p f in (q, f', omega (arith, le, le'));
}

increment-Grows :
    (name : String) (amount : ℤ) (m : Metrics) → Grows m (keep m (increment name amount m))
unfolding increment keep
increment-Grows name (negsuc a) m = elim (Option-cases (lookup name m.counters)) [
  | inl e ↦ rw (e, increment, keep) (Grows-refl m)
  | inr (n, e) ↦ rw (e, increment, keep) (Grows-refl m)
]
increment-Grows name (pos a) m = elim (Option-cases (lookup name m.counters)) [
  | inl e ↦ rw (e, increment, keep) (Grows-refl m)
  | inr (n, e) ↦
      rw (e, increment, keep)
        (record {
          counters = insert-names name (n + a) n m.counters e;
          gauges = refl;
          counts = λ k c f. risen k c f (Bool-cases (str_eq name k)) n e;
        })
]
  where
    risen :
        (k : String) (c : ℕ)
        → lookup k m.counters ≡ some c
        → (str_eq name k ≡ true) ⊎ (str_eq name k ≡ false)
        → (n : ℕ) → lookup name m.counters ≡ some n
        → (q : ℕ) × (lookup k (insert name (n + a) m.counters) ≡ some q) × (c ≤ q)
    risen k c f (inl same) n e = (
      n + a,
      ground (arith, lookup-insert name k (n + a) m.counters),
      ground (arith, eq_iff name k),
    )
    risen k c f (inr other) n e =
        (c, ground (arith, lookup-insert name k (n + a) m.counters), omega arith)

set_gauge-Grows :
    (name : String) (v w : ℤ) (m : Metrics)
    → lookup name m.gauges ≡ some w
    → Grows m (record m { gauges = insert name v m.gauges })
set_gauge-Grows name v w m e = record {
  counters = refl;
  gauges = insert-names name v w m.gauges e;
  counts = λ k n f. (n, f, omega arith);
}

gauge_add-Grows :
    (name : String) (amount : ℤ) (m : Metrics) → Grows m (keep m (gauge_add name amount m))
unfolding gauge_add keep
gauge_add-Grows name amount m = elim (Option-cases (lookup name m.gauges)) [
  | inl e ↦ rw (e, gauge_add, keep) (Grows-refl m)
  | inr (n, e) ↦ rw (e, gauge_add, keep) (set_gauge-Grows name (n +ℤ amount) n m e)
]

gauge_set-Grows :
    (name : String) (value : ℤ) (m : Metrics) → Grows m (keep m (gauge_set name value m))
unfolding gauge_set keep
gauge_set-Grows name value m = elim (Option-cases (lookup name m.gauges)) [
  | inl e ↦ rw (e, gauge_set, keep) (Grows-refl m)
  | inr (n, e) ↦ rw (e, gauge_set, keep) (set_gauge-Grows name value n m e)
]

-- The second count of an observed status.
second-Grows :
    (m t : Metrics) (o : Option String)
    → Grows m t
    → Grows m (
        keep m (elim o as (λ _. Result Error Metrics) [
          | none ↦ ok t
          | some name ↦ increment name (pos 1) t
        ]))
unfolding keep
second-Grows m t none g = g
second-Grows m t (some name) g =
    by_result (increment name (pos 1) t) (Grows-trans g (increment-Grows name (pos 1) t))
  where
    by_result : (r : Result Error Metrics) → Grows m (keep t r) → Grows m (keep m r)
    by_result (ok u) h = h
    by_result (raised e) h = Grows-refl m

observe-Grows : (status : Option ℤ) (m : Metrics) → Grows m (keep m (observe_http_status status m))
unfolding observe_http_status keep
observe-Grows status m =
    by_result (increment "http_requests" (pos 1) m) (increment-Grows "http_requests" (pos 1) m)
  where
    by_result :
        (r : Result Error Metrics)
        → Grows m (keep m r)
        → Grows m (
            keep m (
              r >>= λ t. elim (status_counter status) as (λ _. Result Error Metrics) [
                | none ↦ ok t
                | some name ↦ increment name (pos 1) t
              ]))
    by_result (ok t) g = second-Grows m t (status_counter status) g
    by_result (raised e) g = g

call-Grows : (c : Call) (m : Metrics) → Grows m (keep m (call c m))
unfolding call
call-Grows (increments name amount) m = increment-Grows name amount m
call-Grows (adds name amount) m = gauge_add-Grows name amount m
call-Grows (sets name value) m = gauge_set-Grows name value m
call-Grows (observes status) m = observe-Grows status m

-- Whatever is called, with whatever names and amounts, the registry has the counters and the gauges
-- that it had, in their order, and each counter is at least as high as it was.
pub run-Grows : (calls : List Call) (m : Metrics) → Grows m (run calls m)
unfolding run
run-Grows [] m = Grows-refl m
run-Grows (c ∷ calls) m = Grows-trans (call-Grows c m) (run-Grows calls (keep m (call c m)))

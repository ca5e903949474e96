-- ===== src/Metrics/Reports.antt =====
-- The report of host/core/metrics.py.
use rkcockpit.Common.{
  Bool, Bool-cases, List, String, [], any, arith, inl, inr, refl, some, str_eq, subst, sym, true, ℕ,
  ◌&&◌, ◌∷◌, ◌≡◌,
}
use rkcockpit.Common.Dict.{Dict, lookup, insert}
use rkcockpit.Common.Int.{ℤ}
use rkcockpit.Metrics.{init, counter_fields, gauge_fields, collect, snapshot, zeros}
use rkcockpit.Metrics.Names.{Call, run, names_of, run-Grows}

-- The names that the fields ask for are among these.
unfoldable knows : List String → Dict String → Bool
knows names [] = true
knows names ((field, name) ∷ fields) = any (λ n. str_eq n name) names && knows names fields

lookup-known {ℓ} :
    {A : Type ℓ} (name : String) (d : Dict A)
    → any (λ n. str_eq n name) (names_of d) ≡ true
    → (v : A) × (lookup name d ≡ some v)
unfolding lookup
lookup-known name [] h = absurd (ground arith)
lookup-known name ((k, v) ∷ d) h = elim (Bool-cases (str_eq k name)) [
  | inl e ↦ (v, rw e refl)
  | inr e ↦ let (w, f) = lookup-known name d (ground arith) in (w, rw e f)
]

-- Every field shows the value of its name.
abbrev pub Shows : {A : Type 0} → Dict String → Dict A → Dict A → Type 0
Shows [] values [] = Unit
Shows [] values (_ ∷ _) = ⊥
Shows (_ ∷ _) values [] = ⊥
Shows ((field, name) ∷ fields) values ((shown, v) ∷ report) =
    (shown ≡ field) × (lookup name values ≡ some v) × Shows fields values report

collect-Shows :
    {A : Type 0} (fields : Dict String) (values : Dict A)
    → knows (names_of values) fields ≡ true
    → (report : Dict A) × (collect fields values ≡ some report) × Shows fields values report
unfolding knows collect
collect-Shows [] values h = ([], refl, tt)
collect-Shows ((field, name) ∷ fields) values h =
    let (v, e) = lookup-known name values (ground arith) in
    let (report, f, shows) = collect-Shows fields values (ground arith) in
    ((field, v) ∷ report, rw (e, f) refl, (refl, e, shows))

counters_known : knows (names_of init.counters) counter_fields ≡ true
unfolding init knows zeros insert
counters_known = refl

gauges_known : knows (names_of init.gauges) gauge_fields ≡ true
unfolding init knows zeros insert
gauges_known = refl

-- After any calls the report of a registry that started with its names is complete: no name is
-- missing, and each field shows the present value of its counter or gauge.
snapshot-Shows :
    (calls : List Call)
    → let m = run calls init in
      ((report : Dict ℕ) × ((snapshot m).0 ≡ some report) × Shows counter_fields m.counters report)
      × ((report : Dict ℤ) × ((snapshot m).1 ≡ some report) × Shows gauge_fields m.gauges report)
unfolding snapshot
snapshot-Shows calls =
    let m = run calls init in
    let g = run-Grows calls init in
    (
      collect-Shows counter_fields m.counters
          (subst (λ ns. knows ns counter_fields ≡ true) (sym g.counters) counters_known),
      collect-Shows gauge_fields m.gauges
          (subst (λ ns. knows ns gauge_fields ≡ true) (sym g.gauges) gauges_known),
    )

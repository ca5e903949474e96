-- ===== src/Audit/Tallies.antt =====
-- What the statistics of host/audit/recorder.py count.
use rkcockpit.Common.{
  Bool-cases, List, String, [], ap₂, arith, count, eq_iff, if◌then◌else◌, inl, inr, length, map,
  refl, str_eq, sym, ℕ, ◌+◌, ◌∷◌, ◌≡◌,
}
use rkcockpit.Common.Dict.{Dict, lookup, insert, lookup-insert}
use rkcockpit.Common.Int.{ℤ}
use rkcockpit.Audit.History.{
  Ev, Window, action_of, bump, by_dates, count_of, iter_events, max_stats, stats, sum_values, tally,
}
use rkcockpit.Audit.Queries.{scanned, iter_events-scanned}

sum_values-insert :
    (k : String) (v : ℕ) (d : Dict ℕ)
    → sum_values (insert k v d) + count_of (lookup k d) ≡ sum_values d + v
unfolding sum_values insert lookup count_of
sum_values-insert k v [] = omega arith
sum_values-insert k v ((j, n) ∷ d) = elim (Bool-cases (str_eq j k)) [
  | inl same ↦ rw same (omega arith)
  | inr other ↦ rw other (omega (arith, sum_values-insert k v d))
]

sum_values-tally :
    (key : Ev → String) (es : List Ev) (d : Dict ℕ)
    → sum_values (tally key es d) ≡ length es + sum_values d
unfolding tally bump
sum_values-tally key [] d = omega arith
sum_values-tally key (e ∷ es) d =
    let n = count_of (lookup (key e) d) + 1 in
    omega (arith, sum_values-tally key es (insert (key e) n d), sum_values-insert (key e) n d)

all_counted : (key : Ev → String) (es : List Ev) → sum_values (tally key es []) ≡ length es
unfolding sum_values
all_counted key es = omega (arith, sum_values-tally key es [])

bump-count :
    (j k : String) (d : Dict ℕ)
    → count_of (lookup k (bump j d)) ≡ (if str_eq j k then 1 else 0) + count_of (lookup k d)
unfolding bump count_of
bump-count j k d = elim (Bool-cases (str_eq j k)) [
  | inl same ↦ ground (arith, lookup-insert j k (count_of (lookup j d) + 1) d, (eq_iff j k).0 same)
  | inr other ↦ ground (arith, lookup-insert j k (count_of (lookup j d) + 1) d)
]

tally-lookup :
    (key : Ev → String) (k : String) (es : List Ev) (d : Dict ℕ)
    → count_of (lookup k (tally key es d))
      ≡ count (λ e. str_eq (key e) k) es + count_of (lookup k d)
unfolding tally
tally-lookup key k [] d = omega arith
tally-lookup key k (e ∷ es) d =
    omega (arith, tally-lookup key k es (bump (key e) d), bump-count (key e) k d)

tally-none :
    (key : Ev → String) (k : String) (es : List Ev)
    → count_of (lookup k (tally key es [])) ≡ count (λ e. str_eq (key e) k) es
unfolding lookup count_of
tally-none key k es = omega (arith, tally-lookup key k es [])

by_dates-map :
    (key : Ev → String) (es : List Ev) (dates : List String)
    → by_dates (tally key es []) dates
      ≡ map (λ date. (date, count (λ e. str_eq (key e) date) es)) dates
unfolding by_dates
by_dates-map key es [] = refl
by_dates-map key es (date ∷ dates) =
    ap₂ (λ n rest. (date, n) ∷ rest) (tally-none key date es) (by_dates-map key es dates)

-- What `stats` counts of the first 20000 events of the scan: for each action, and for each date that it
-- lists, the events of that one, and in total the events.
stats-counts :
    (date_of : ℤ → String) (w : Window) (dates : List String) (ring : List Ev)
    (days : List (List Ev))
    → let events = scanned max_stats w ring days in
      let s = stats date_of w dates ring days in
      ((action : String)
        → count_of (lookup action s.by_action) ≡ count (λ e. str_eq (action_of e) action) events)
      × (s.by_day ≡ map (λ date. (date, count (λ e. str_eq (date_of e.ts) date) events)) dates)
      × (s.total ≡ length events)
unfolding stats
stats-counts date_of w dates ring days =
    let same = sym (iter_events-scanned max_stats w ring days) in
    rw same (
      λ action. tally-none action_of action (iter_events max_stats w ring days),
      by_dates-map (λ e. date_of e.ts) (iter_events max_stats w ring days) dates,
      all_counted (λ e. date_of e.ts) (iter_events max_stats w ring days),
    )

-- ===== src/Audit/Queries.antt =====
-- What a query of host/audit/recorder.py finds.
use mathlib.Core.List.{reverse}
use rkcockpit.Common.{
  Bool-cases, List, String, [], ap, append-nil, append_assoc, arith, drop, false, filter,
  if◌then◌else◌, inl, inr, leb, length, length-take, max, not, refl, suc, sym, take, true, zero, ℕ,
  ◌++◌, ◌+◌, ◌-◌, ◌∙◌, ◌∷◌, ◌≡◌, ◌≤◌, ◌||◌,
}
use rkcockpit.Common.Int.{ℤ, pos, negsuc}
use rkcockpit.Audit.History.{
  Ev, Filters, Scan, Window, in_window, is_seen, iter_events, limit_of, matches, max_scan, no_scan,
  offset_of, page, query, visit, visit_all, visit_days,
}

-- The events in the order of the scan: the ring's latest first, then day by day, each day's latest first.
unfoldable pub in_order : List Ev → List (List Ev) → List Ev
in_order ring [] = reverse ring
in_order ring (file ∷ days) = reverse ring ++ in_order file days

-- Each event whose id no earlier event has.
unfoldable pub distinct : List String → List Ev → List Ev
distinct seen [] = []
distinct seen (e ∷ es) =
    let others = distinct seen es in
    let rest = e ∷ distinct (e.id ∷ seen) es in if is_seen e.id seen then others else rest

-- The first `most` events of the window, one for each id; at least one is taken.
unfoldable pub scanned : ℕ → Window → List Ev → List (List Ev) → List Ev
unfolding in_order distinct
scanned most w ring days =
    take (max 1 most) (distinct [] (filter (in_window w) (in_order ring days)))

visit_all-append :
    (most : ℕ) (w : Window) (xs ys : List Ev) (s : Scan)
    → visit_all most w (xs ++ ys) s ≡ visit_all most w ys (visit_all most w xs s)
unfolding visit_all
visit_all-append most w [] ys s = refl
visit_all-append most w (x ∷ xs) ys s = visit_all-append most w xs ys (visit most w x s)

visit_days-all :
    (most : ℕ) (w : Window) (ring : List Ev) (days : List (List Ev)) (s : Scan)
    → visit_days most w days (visit_all most w (reverse ring) s)
      ≡ visit_all most w (in_order ring days) s
unfolding visit_days in_order
visit_days-all most w ring [] s = refl
visit_days-all most w ring (file ∷ days) s =
    visit_days-all most w file days (visit_all most w (reverse ring) s)
    ∙ sym (visit_all-append most w (reverse ring) (in_order file days) s)

visit-skip :
    (most : ℕ) (w : Window) (e : Ev) (s : Scan)
    → (s.full || not (in_window w e) || is_seen e.id s.seen) ≡ true
    → visit most w e s ≡ s
unfolding visit
visit-skip most w e s h = rw h refl

full-stays :
    (most : ℕ) (w : Window) (es : List Ev) (s : Scan) → s.full ≡ true → visit_all most w es s ≡ s
unfolding visit_all
full-stays most w [] s h = refl
full-stays most w (e ∷ es) s h =
    rw (visit-skip most w e s (ground arith)) (full-stays most w es s h)

visit_all-skip :
    (most : ℕ) (w : Window) (e : Ev) (es : List Ev) (s : Scan)
    → (s.full || not (in_window w e) || is_seen e.id s.seen) ≡ true
    → visit_all most w (e ∷ es) s ≡ visit_all most w es s
unfolding visit_all
visit_all-skip most w e es s h = ap (visit_all most w es) (visit-skip most w e s h)

-- The generator once it has yielded an event.
abbrev yielded : ℕ → Ev → Scan → Scan
yielded most e s = record {
  seen = e.id ∷ s.seen;
  out = s.out ++ e ∷ [];
  full = leb most (length s.seen + 1);
}

visit-new :
    (most : ℕ) (w : Window) (e : Ev) (s : Scan)
    → s.full ≡ false
    → in_window w e ≡ true
    → is_seen e.id s.seen ≡ false
    → visit most w e s ≡ yielded most e s
unfolding visit
visit-new most w e s going inside fresh = rw (going, inside, fresh) refl

take-full : (n m : ℕ) (s : Scan) (xs : List Ev) → n ≤ m → s.out ≡ s.out ++ take (n - m) xs
take-full n m s xs h = let e : n - m ≡ 0 = omega arith in rw e (sym (append-nil s.out))

take-more :
    (n m : ℕ) (out : List Ev) (e : Ev) (xs : List Ev)
    → suc m ≤ n
    → (out ++ e ∷ []) ++ take (n - suc m) xs ≡ out ++ take (n - m) (e ∷ xs)
take-more n m out e xs h =
    let more : n - m ≡ suc (n - suc m) = omega arith in
    rw more (append_assoc out (e ∷ []) (take (n - suc m) xs))

-- The generator's state tells whether it has yielded all that it may.
visit_all-take :
    (most : ℕ) (w : Window) (es : List Ev) (s : Scan)
    → s.full ≡ leb (max 1 most) (length s.seen)
    → (visit_all most w es s).out
      ≡ s.out ++ take (max 1 most - length s.seen) (distinct s.seen (filter (in_window w) es))
unfolding visit_all distinct
visit_all-take most w [] s h = nothing (max 1 most - length s.seen)
  where
    nothing : (n : ℕ) → s.out ≡ s.out ++ take n []
    nothing zero = sym (append-nil s.out)
    nothing (suc n) = sym (append-nil s.out)
visit_all-take most w (e ∷ es) s h = elim (Bool-cases s.full) [
  | inl full ↦
      ap (λ t. t.out) (full-stays most w (e ∷ es) s full)
      ∙ take-full (max 1 most) (length s.seen) s _ (ground arith)
  | inr going ↦ elim (Bool-cases (in_window w e)) [
    | inr outside ↦
        ap (λ t. t.out) (visit_all-skip most w e es s (ground arith))
        ∙ rw outside (visit_all-take most w es s h)
    | inl inside ↦ elim (Bool-cases (is_seen e.id s.seen)) [
      | inl again ↦
          ap (λ t. t.out) (visit_all-skip most w e es s (ground arith))
          ∙ rw (inside, again) (visit_all-take most w es s h)
      | inr fresh ↦
          ap (λ t. (visit_all most w es t).out) (visit-new most w e s going inside fresh)
          ∙ visit_all-take most w es (yielded most e s) (ground arith)
          ∙ rw (inside, fresh)
              (take-more (max 1 most) (length s.seen) s.out e
                (distinct (e.id ∷ s.seen) (filter (in_window w) es)) (ground arith))
    ]
  ]
]

pub iter_events-scanned :
    (most : ℕ) (w : Window) (ring : List Ev) (days : List (List Ev))
    → iter_events most w ring days ≡ scanned most w ring days
unfolding iter_events scanned
iter_events-scanned most w ring days =
    ap (λ s. s.out) (visit_days-all most w ring days no_scan)
    ∙ visit_all-take most w (in_order ring days) no_scan (ground arith)
    ∙ ap (λ n. take n (distinct [] (filter (in_window w) (in_order ring days)))) (omega arith)

page_size : (limit : ℤ) → (1 ≤ limit_of limit) × (limit_of limit ≤ 2000)
unfolding limit_of
page_size (pos n) = ground arith
page_size (negsuc n) = ground arith

-- A page of a query is the part from its offset, at most 2000 events, of all that match among the first
-- 5000 events of the scan: those of the window, the ring's before the files', file by file from the
-- earliest day, the latest of each first, and one for each id. The total is the number of all that match.
pub page-scanned :
    (f : Filters) (limit offset : ℤ) (ring : List Ev) (days : List (List Ev))
    → let found = filter (matches f) (scanned max_scan f.window ring days) in
      let (events, total) = page f limit offset ring days in
      (events ≡ take (limit_of limit) (drop (offset_of offset) found))
      × (total ≡ length found)
      × (length events ≤ 2000)
unfolding page query
page-scanned f limit offset ring days =
    let same = ap (filter (matches f)) (iter_events-scanned max_scan f.window ring days) in
    (
      ap (λ events. take (limit_of limit) (drop (offset_of offset) events)) same,
      ap length same,
      omega (
        arith,
        page_size limit,
        length-take (limit_of limit) (drop (offset_of offset) (query f ring days)),
      ),
    )

-- ===== src/Audit/QueryExamples.antt =====
-- Queries of host/audit/recorder.py after a restart, when the ring has one event.
use rkcockpit.Common.{List, String, [], drop, filter, length, none, refl, take, ℕ, ◌∷◌, ◌≡◌, ◌≤◌}
use rkcockpit.Common.Int.{pos}
use rkcockpit.Audit.History.{
  Ev, Filters, Window, iter_events, limit_of, matches, max_scan, offset_of, page,
}
use rkcockpit.Audit.Queries.{scanned, page-scanned}

abbrev at : String → ℕ → Ev
at id ts = record { id = id; ts = pos ts; action = "fs.rm"; device = "a"; result = "ok" }

abbrev ring : List Ev
ring = at "e5" 205 ∷ []

abbrev days : List (List Ev)
days = (at "e1" 101 ∷ at "e2" 102 ∷ []) ∷ (at "e3" 203 ∷ at "e4" 204 ∷ at "e5" 205 ∷ []) ∷ []

abbrev always : Window
always = record { from_ms = none; to_ms = none }

-- With room for four the scan leaves out an event of the later day, not of the earlier.
earlier_day_first :
    iter_events 4 always ring days ≡ at "e5" 205 ∷ at "e2" 102 ∷ at "e1" 101 ∷ at "e4" 204 ∷ []
unfolding iter_events
earlier_day_first = refl

abbrev filters : Filters
filters = record { window = always; action = "fs.rm"; device = ""; result = "" }

page-scanned_example :
    let found = filter (matches filters) (scanned max_scan always ring days) in
    let (events, total) = page filters (pos 2) (pos 1) ring days in
    (events ≡ take (limit_of (pos 2)) (drop (offset_of (pos 1)) found))
    × (total ≡ length found)
    × (length events ≤ 2000)
page-scanned_example = page-scanned filters (pos 2) (pos 1) ring days

-- ===== src/Audit/History.antt =====
-- Reading the audit log: `query`, `stats` and `_iter_events` of host/audit/recorder.py, and `query` of
-- host/service/audit.py. The days of the window that have a file are given with what `_read_file` reads of
-- them, the earliest first, and so is the date of a time. Every event has its time, which a line of a file
-- that is not the recorder's may lack.
use mathlib.Core.List.{reverse}
use rkcockpit.Common.{
  Bool, List, Option, String, [], drop, false, filter, if◌then◌else◌, leb, length, min, none, not,
  some, str_eq, take, ℕ, ◌&&◌, ◌++◌, ◌+◌, ◌==◌, ◌||◌, ◌∷◌,
}
use rkcockpit.Common.Int.{ℤ, pos, negsuc, lt_int}
use rkcockpit.Common.Dict.{Dict, lookup, insert}

-- The entries of an event by which it is found; `device` is the id of its target.
pub record Ev : Type 0 where
  pub id : String
  pub ts : ℤ
  pub action : String
  pub device : String
  pub result : String

pub record Window : Type 0 where
  pub from_ms : Option ℤ
  pub to_ms : Option ℤ

unfoldable pub is_before : Ev → Option ℤ → Bool
is_before e none = false
is_before e (some from) = lt_int e.ts from

unfoldable pub is_after : Ev → Option ℤ → Bool
is_after e none = false
is_after e (some to) = lt_int to e.ts

unfoldable pub in_window : Window → Ev → Bool
unfolding is_before is_after lt_int
in_window w e = not (is_before e w.from_ms) && not (is_after e w.to_ms)

unfoldable pub is_seen : String → List String → Bool
is_seen id [] = false
is_seen id (x ∷ seen) = str_eq x id || is_seen id seen

-- The generator: the ids in `seen`, what was yielded, and whether it has returned.
pub record Scan : Type 0 where
  pub seen : List String
  pub out : List Ev
  pub full : Bool

unfoldable pub visit : ℕ → Window → Ev → Scan → Scan
unfolding in_window is_seen
visit cap w e s =
    if s.full || not (in_window w e) || is_seen e.id s.seen
    then s
    else record { seen = e.id ∷ s.seen; out = s.out ++ e ∷ []; full = leb cap (length s.seen + 1) }

unfoldable pub visit_all : ℕ → Window → List Ev → Scan → Scan
unfolding visit
visit_all cap w [] s = s
visit_all cap w (e ∷ es) s = visit_all cap w es (visit cap w e s)

unfoldable pub visit_days : ℕ → Window → List (List Ev) → Scan → Scan
unfolding visit_all
visit_days cap w [] s = s
visit_days cap w (file ∷ days) s = visit_days cap w days (visit_all cap w (reverse file) s)

abbrev pub no_scan : Scan
no_scan = record { seen = []; out = []; full = false }

unfoldable pub iter_events : ℕ → Window → List Ev → List (List Ev) → List Ev
unfolding visit_all visit_days
iter_events cap w ring days = (visit_days cap w days (visit_all cap w (reverse ring) no_scan)).out

-- The filters of a query; an empty one is none.
pub record Filters : Type 0 where
  pub window : Window
  pub action : String
  pub device : String
  pub result : String

unfoldable pub agrees : String → String → Bool
agrees wanted value = str_eq wanted "" || str_eq value wanted

unfoldable pub matches : Filters → Ev → Bool
unfolding agrees
matches f e = agrees f.action e.action && agrees f.device e.device && agrees f.result e.result

abbrev pub max_scan : ℕ
max_scan = 5000

unfoldable pub query : Filters → List Ev → List (List Ev) → List Ev
unfolding iter_events matches
query f ring days = filter (matches f) (iter_events max_scan f.window ring days)

-- `min(max(int(limit or 100), 1), 2000)`
unfoldable pub limit_of : ℤ → ℕ
limit_of (pos n) = if n == 0 then 100 else min n 2000
limit_of (negsuc n) = 1

-- `max(int(offset or 0), 0)`
unfoldable pub offset_of : ℤ → ℕ
offset_of (pos n) = n
offset_of (negsuc n) = 0

-- `AuditService.query`: the page and the total.
unfoldable pub page : Filters → ℤ → ℤ → List Ev → List (List Ev) → List Ev × ℕ
unfolding query limit_of offset_of
page f limit offset ring days =
    let events = query f ring days in
    (take (limit_of limit) (drop (offset_of offset) events), length events)

unfoldable pub count_of : Option ℕ → ℕ
count_of none = 0
count_of (some n) = n

-- `by_key[k] = by_key.get(k, 0) + 1`
unfoldable pub bump : String → Dict ℕ → Dict ℕ
unfolding count_of
bump k d = insert k (count_of (lookup k d) + 1) d

-- The loop of `stats` for one of its dictionaries.
unfoldable pub tally : (Ev → String) → List Ev → Dict ℕ → Dict ℕ
unfolding bump
tally key [] d = d
tally key (e ∷ es) d = tally key es (bump (key e) d)

unfoldable pub sum_values : Dict ℕ → ℕ
sum_values [] = 0
sum_values ((k, n) ∷ d) = n + sum_values d

pub record Stats : Type 0 where
  pub by_action : Dict ℕ
  pub by_day : List (String × ℕ)
  pub total : ℕ

-- `[{"date": d, "count": by_day.get(d, 0)} for d in dates]`
unfoldable pub by_dates : Dict ℕ → List String → List (String × ℕ)
unfolding count_of
by_dates d [] = []
by_dates d (date ∷ dates) = (date, count_of (lookup date d)) ∷ by_dates d dates

unfoldable pub action_of : Ev → String
action_of e = if str_eq e.action "" then "unknown" else e.action

abbrev pub max_stats : ℕ
max_stats = 20000

-- `stats` on a window, with the dates of its days; `date_of` is the date of a time.
unfoldable pub stats : (ℤ → String) → Window → List String → List Ev → List (List Ev) → Stats
unfolding tally sum_values by_dates action_of iter_events
stats date_of w dates ring days =
    let events = iter_events max_stats w ring days in
    let by_day = tally (λ e. date_of e.ts) events [] in
    record {
      by_action = tally action_of events [];
      by_day = by_dates by_day dates;
      total = sum_values by_day;
    }

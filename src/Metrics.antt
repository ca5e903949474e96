-- ===== src/Metrics.antt =====
-- `RuntimeMetrics` in host/core/metrics.py: counters and gauges with a closed set of names. What /proc
-- says of the process and the clock are not modelled: `snapshot` only adds them to the values.
mod Examples
pub mod Names
pub mod Reports
use rkcockpit.Common.{List, Option, String, [], if◌then◌else◌, none, some, ℕ, ◌+◌, ◌/◌, ◌==◌, ◌∷◌}
use rkcockpit.Common.Dict.{Dict, lookup, insert}
use rkcockpit.Common.Int.{ℤ, pos, negsuc, ◌+ℤ◌}
use rkcockpit.Common.Result.{Result, ok, raised, ◌>>=◌}

abbrev pub counter_names : List String
counter_names =
    "http_requests" ∷ "http_rejected" ∷ "http_status_2xx" ∷ "http_status_3xx" ∷ "http_status_4xx"
    ∷ "http_status_5xx" ∷ "sse_accepted" ∷ "sse_rejected" ∷ "sse_write_timeout" ∷ "ssh_mux_eligible"
    ∷ "ssh_reused_hint" ∷ "ssh_password" ∷ "ssh_fail" ∷ "poll_legacy" ∷ "poll_delta"
    ∷ "poll_wire_bytes_saved" ∷ "audit_enqueued" ∷ "audit_fallback" ∷ "audit_write_failure" ∷ []

abbrev pub gauge_names : List String
gauge_names =
    "http_active" ∷ "http_max_workers" ∷ "sse_active" ∷ "audit_queue_depth" ∷ "audit_degraded" ∷ []

pub record Metrics : Type 0 where
  pub counters : Dict ℕ
  pub gauges : Dict ℤ

-- KeyErrors for unknown names, and the ValueError of a negative increment.
pub data Error : Type 0 where
  unknown_counter unknown_gauge negative_amount : Error

-- `{name: 0 for name in names}`
unfoldable pub zeros {ℓ} : {A : Type ℓ} → A → List String → Dict A
unfolding insert
zeros z [] = []
zeros z (n ∷ names) = insert n z (zeros z names)

unfoldable pub init : Metrics
unfolding zeros
init = record { counters = zeros 0 counter_names; gauges = zeros (pos 0) gauge_names }

abbrev set_counter : String → ℕ → Metrics → Metrics
set_counter name n m = record m { counters = insert name n m.counters }

abbrev set_gauge : String → ℤ → Metrics → Metrics
set_gauge name n m = record m { gauges = insert name n m.gauges }

unfoldable pub increment : String → ℤ → Metrics → Result Error Metrics
increment name amount m = elim (lookup name m.counters) [
  | none ↦ raised unknown_counter
  | some n ↦ elim amount [
    | pos k ↦ ok (set_counter name (n + k) m)
    | negsuc _ ↦ raised negative_amount
  ]
]

unfoldable pub gauge_add : String → ℤ → Metrics → Result Error Metrics
gauge_add name amount m = elim (lookup name m.gauges) [
  | none ↦ raised unknown_gauge
  | some n ↦ ok (set_gauge name (n +ℤ amount) m)
]

unfoldable pub gauge_set : String → ℤ → Metrics → Result Error Metrics
gauge_set name value m = elim (lookup name m.gauges) [
  | none ↦ raised unknown_gauge
  | some _ ↦ ok (set_gauge name value m)
]

-- `"http_status_%dxx" % group` for the groups that are counted.
unfoldable pub group_counter : ℕ → Option String
group_counter group =
    if group == 2
    then some "http_status_2xx"
    else if group == 3
    then some "http_status_3xx"
    else if group == 4
    then some "http_status_4xx"
    else if group == 5
    then some "http_status_5xx"
    else none

-- The counter of a status; a negative one has a negative group.
unfoldable pub status_counter : Option ℤ → Option String
unfolding group_counter
status_counter none = none
status_counter (some (pos s)) = group_counter (s / 100)
status_counter (some (negsuc _)) = none

-- A status that `int` does not take is `none`.
unfoldable pub observe_http_status : Option ℤ → Metrics → Result Error Metrics
unfolding increment status_counter
observe_http_status status m = do
  t ← increment "http_requests" (pos 1) m
  elim (status_counter status) [ none ↦ ok t | some name ↦ increment name (pos 1) t ]

-- `snapshot`: each field of the report, by its place in the JSON, and the counter that it shows.
abbrev pub counter_fields : Dict String
counter_fields =
    ("http.requests_total", "http_requests")
    ∷ ("http.rejected_total", "http_rejected")
    ∷ ("http.status.2xx", "http_status_2xx")
    ∷ ("http.status.3xx", "http_status_3xx")
    ∷ ("http.status.4xx", "http_status_4xx")
    ∷ ("http.status.5xx", "http_status_5xx")
    ∷ ("sse.accepted_total", "sse_accepted")
    ∷ ("sse.rejected_total", "sse_rejected")
    ∷ ("sse.write_timeout_total", "sse_write_timeout")
    ∷ ("ssh.mux_eligible_total", "ssh_mux_eligible")
    ∷ ("ssh.reused_hint_total", "ssh_reused_hint")
    ∷ ("ssh.password_total", "ssh_password")
    ∷ ("ssh.fail_total", "ssh_fail")
    ∷ ("poll.legacy_total", "poll_legacy")
    ∷ ("poll.delta_total", "poll_delta")
    ∷ ("poll.wire_bytes_saved_total", "poll_wire_bytes_saved")
    ∷ ("audit.enqueued_total", "audit_enqueued")
    ∷ ("audit.fallback_total", "audit_fallback")
    ∷ ("audit.write_failure_total", "audit_write_failure")
    ∷ []

-- The gauges of the report; `audit.degraded` is shown as a truth value.
abbrev pub gauge_fields : Dict String
gauge_fields =
    ("http.active", "http_active")
    ∷ ("http.max_workers", "http_max_workers")
    ∷ ("sse.active", "sse_active")
    ∷ ("audit.queue_depth", "audit_queue_depth")
    ∷ ("audit.degraded", "audit_degraded")
    ∷ []

abbrev pub with_field {ℓ} : {A : Type ℓ} → String → Option A → Option (Dict A) → Option (Dict A)
with_field field none rest = none
with_field field (some v) none = none
with_field field (some v) (some rest) = some ((field, v) ∷ rest)

-- The values of the fields; a name that is missing is a KeyError, `none`.
unfoldable pub collect {ℓ} : {A : Type ℓ} → Dict String → Dict A → Option (Dict A)
unfolding lookup
collect [] values = some []
collect ((field, name) ∷ fields) values =
    with_field field (lookup name values) (collect fields values)

unfoldable pub snapshot : Metrics → Option (Dict ℕ) × Option (Dict ℤ)
unfolding collect
snapshot m = (collect counter_fields m.counters, collect gauge_fields m.gauges)

-- ===== src/Metrics/Examples.antt =====
-- The metrics of host/core/metrics.py at concrete calls.
use rkcockpit.Common.{List, [], none, refl, some, ◌∷◌, ◌≡◌}
use rkcockpit.Common.Dict.{lookup, insert}
use rkcockpit.Common.Int.{pos, negsuc, ◌+ℤ◌}
use rkcockpit.Metrics.{init, zeros}
use rkcockpit.Metrics.Names.{Call, increments, adds, observes, run}

abbrev calls : List Call
calls =
    observes (some (pos 204))
    ∷ observes none
    ∷ observes (some (negsuc 3))
    ∷ increments "sse_accepted" (negsuc 0)
    ∷ increments "device_9" (pos 1)
    ∷ adds "http_active" (pos 2)
    ∷ adds "http_active" (negsuc 0)
    ∷ []

-- Three requests, one of them with a counted status; the bad calls change nothing.
calls-counters :
    (lookup "http_requests" (run calls init).counters ≡ some 3)
    × (lookup "http_status_2xx" (run calls init).counters ≡ some 1)
    × (lookup "sse_accepted" (run calls init).counters ≡ some 0)
    × (lookup "http_active" (run calls init).gauges ≡ some (pos 1))
unfolding run init lookup insert zeros ◌+ℤ◌
calls-counters = (refl, refl, refl, refl)

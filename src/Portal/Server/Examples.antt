-- ===== src/Portal/Server/Examples.antt =====
-- The worker pool of portal/server.py with two workers.
use rkcockpit.Common.{List, [], false, length, refl, some, true, ◌+◌, ◌↔◌, ◌∷◌, ◌≡◌, ◌≤◌}
use rkcockpit.Common.Dict.{lookup, insert}
use rkcockpit.Common.Int.{pos}
use rkcockpit.Metrics
use rkcockpit.Metrics.{Metrics, zeros, gauge_set}
use rkcockpit.Portal.Server.{Server, or_same, init, is_drained}
use rkcockpit.Portal.Server.Slots.{Event, request, takes, finishes, run, run-active_requests}

abbrev fresh : Server
fresh = record {
  max_workers = 2;
  free_slots = 2;
  active_requests = 0;
  work = [];
  handled = [];
  closing = false;
  metrics = or_same Metrics.init (gauge_set "http_max_workers" (pos 2) Metrics.init);
}

started : init 2 Metrics.init ≡ some fresh
unfolding init
started = refl

starts_idle : lookup "http_active" Metrics.init.gauges ≡ some (pos 0)
unfolding Metrics.init zeros lookup insert
starts_idle = refl

abbrev rush : List Event
rush = request true 7 ∷ takes ∷ request false 8 ∷ request true 9 ∷ request true 10 ∷ finishes 7 ∷ []

rush-work : ((run rush fresh).work ≡ 9 ∷ []) × ((run rush fresh).active_requests ≡ 1)
unfolding run
rush-work = (refl, refl)

run-active_requests_example :
    let t = run rush fresh in
    (t.active_requests ≡ length t.work + length t.handled)
    × (t.active_requests ≤ 2)
    × (lookup "http_active" t.metrics.gauges ≡ some (pos t.active_requests))
    × ((is_drained t ≡ true) ↔ (length t.work + length t.handled ≡ 0))
run-active_requests_example = run-active_requests 2 Metrics.init fresh rush started starts_idle

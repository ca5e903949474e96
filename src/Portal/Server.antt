-- ===== src/Portal/Server.antt =====
-- `BoundedThreadingHTTPServer` in portal/server.py: requests are admitted to a fixed number of worker
-- slots, and any other gets a 503. Requests are numbers. Locked stretches and the calls of METRICS
-- are single steps. The sockets and the handlers of requests are not modelled.
mod Examples
pub mod Slots
use rkcockpit.Common.{
  Bool, List, Option, [], false, if◌then◌else◌, length, ltb, none, not, some, true, ℕ, ◌&&◌, ◌++◌,
  ◌+◌, ◌-◌, ◌==◌, ◌||◌, ◌∷◌,
}
use rkcockpit.Common.Int.{ℤ, pos, negsuc}
use rkcockpit.Common.Result.{Result, ok, raised}
use rkcockpit.Metrics.{Metrics, gauge_add, gauge_set, increment, observe_http_status}

pub record Server : Type 0 where
  pub max_workers : ℕ
  pub free_slots : ℕ
  pub active_requests : ℕ
  -- `_work`, and the requests that the workers handle
  pub work : List ℕ
  pub handled : List ℕ
  pub closing : Bool
  pub metrics : Metrics

-- METRICS never raises here: its names are those of the registry.
unfoldable pub or_same {ℓ κ} : {E : Type κ} {A : Type ℓ} → A → Result E A → A
or_same a (ok b) = b
or_same a (raised _) = a

unfoldable pub gauge : ℤ → Metrics → Metrics
unfolding or_same
gauge amount m = or_same m (gauge_add "http_active" amount m)

-- The constructor; `none` is its ValueError for no workers.
unfoldable pub init : ℕ → Metrics → Option Server
unfolding or_same
init max_workers m =
    if ltb max_workers 1
    then none
    else some (record {
      max_workers = max_workers;
      free_slots = max_workers;
      active_requests = 0;
      work = [];
      handled = [];
      closing = false;
      metrics = or_same m (gauge_set "http_max_workers" (pos max_workers) m);
    })

-- What becomes of a request: it waits for a worker, it is turned away with a 503, or the error of
-- `settimeout` or `put_nowait` escapes.
pub data Answer : Type 0 where
  admitted busy failed : Answer

unfoldable pub admit : Server → Server
unfolding gauge
admit s = record s {
  free_slots = s.free_slots - 1;
  active_requests = s.active_requests + 1;
  metrics = gauge (pos 1) s.metrics;
}

-- The `except` branch of `process_request`, and the `finally` of `process_request_thread`.
unfoldable pub give_back : Server → Server
unfolding gauge
give_back s = record s {
  free_slots = s.free_slots + 1;
  active_requests = s.active_requests - 1;
  metrics = gauge (negsuc 0) s.metrics;
}

unfoldable pub reject : Server → Server
unfolding or_same
reject s =
    let m = or_same s.metrics (increment "http_rejected" (pos 1) s.metrics) in
    record s { metrics = or_same m (observe_http_status (some (pos 503)) m) }

-- `timed` tells whether `request.settimeout` returns; `put_nowait` raises where the queue is full.
unfoldable pub process_request : Bool → ℕ → Server → Answer × Server
unfolding admit give_back reject
process_request timed request s =
    let t = admit s in
    if not s.closing && ltb 0 s.free_slots
    then if timed && ltb (length t.work) t.max_workers
      then (admitted, record t { work = t.work ++ request ∷ [] })
      else (failed, give_back t)
    else (busy, reject s)

-- A worker's `self._work.get`.
unfoldable pub take_work : List ℕ → Server → Server
take_work [] s = s
take_work (request ∷ work) s = record s { work = work; handled = s.handled ++ request ∷ [] }

unfoldable pub remove_one : ℕ → List ℕ → List ℕ
remove_one x [] = []
remove_one x (y ∷ ys) = let rest = remove_one x ys in if y == x then ys else y ∷ rest

unfoldable pub is_handled : ℕ → List ℕ → Bool
is_handled x [] = false
is_handled x (y ∷ ys) = y == x || is_handled x ys

-- A worker's handler returns or raises: the `finally` of `process_request_thread`.
unfoldable pub finish : ℕ → Server → Server
unfolding give_back remove_one is_handled
finish request s =
    if is_handled request s.handled
    then give_back (record s { handled = remove_one request s.handled })
    else s

-- `server_close`, but for the closing of the socket.
unfoldable pub server_close : Server → Server
server_close s = record s { closing = true }

-- The waits of `drain`: no admitted request is left.
unfoldable pub is_drained : Server → Bool
is_drained s = s.active_requests == 0

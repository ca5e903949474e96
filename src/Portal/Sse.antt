-- ===== src/Portal/Sse.antt =====
-- `SseHub` and `SseConn` in portal/sse.py: the open event streams, within a total and a cap for each
-- kind. Connections are objects with an `id`; while one is in the hub, its flags are those of the
-- hub's entry. What the socket makes of a write is an argument. The text of the frames is not
-- modelled. Clocks count whole milliseconds.
mod Examples
pub mod Books
pub mod Calls
use rkcockpit.Common.{
  Bool, List, Option, String, [], false, if◌then◌else◌, leb, length, ltb, none, not, some, str_eq,
  true, ℕ, ◌&&◌, ◌*◌, ◌++◌, ◌+◌, ◌-◌, ◌==◌, ◌||◌, ◌∷◌,
}
use rkcockpit.Common.Dict.{Dict, lookup, insert, erase}
use rkcockpit.Scheduler.Tally.{get, bump}

abbrev pub max_connections : ℕ
max_connections = 16

abbrev pub kind_caps : Dict ℕ
kind_caps = ("monitor", 8) ∷ ("logcenter", 8) ∷ ("agent", 4) ∷ []

abbrev pub heartbeat_ms : ℕ
heartbeat_ms = 15 * 1000

pub record Conn : Type 0 where
  pub id : ℕ
  pub last_write : ℕ
  pub kind : String
  pub reject_reason : String
  pub write_timed_out : Bool
  pub timeout_reported : Bool

abbrev pub new_conn : ℕ → ℕ → Conn
new_conn id now = record {
  id = id;
  last_write = now;
  kind = "generic";
  reject_reason = "";
  write_timed_out = false;
  timeout_reported = false;
}

-- What `wfile.write` and `flush` do: return, raise a timeout, or raise anything else.
pub data Written : Type 0 where
  done timed_out broken : Written

-- `_emit`
unfoldable pub emit : ℕ → Written → Conn → Bool × Conn
emit now done c = (true, record c { last_write = now })
emit now timed_out c = (false, record c { write_timed_out = true })
emit now broken c = (false, c)

unfoldable pub ping_if_stale : ℕ → Written → Conn → Bool × Conn
unfolding emit
ping_if_stale now w c = if leb heartbeat_ms (now - c.last_write) then emit now w c else (true, c)

pub record Hub : Type 0 where
  pub limit : ℕ
  pub caps : Dict ℕ
  pub conns : List Conn
  pub by_kind : Dict ℕ
  pub accepted : ℕ
  pub rejected : ℕ
  pub rejected_by_kind : Dict ℕ
  pub write_timeouts : ℕ

abbrev pub new_hub : ℕ → Dict ℕ → Hub
new_hub limit caps = record {
  limit = limit;
  caps = caps;
  conns = [];
  by_kind = [];
  accepted = 0;
  rejected = 0;
  rejected_by_kind = [];
  write_timeouts = 0;
}

-- `str(kind or "generic")`, and "generic" for what is not in KINDS.
unfoldable pub kind_of : String → String
kind_of kind =
    if str_eq kind "monitor" || str_eq kind "logcenter" || str_eq kind "agent"
    then kind
    else "generic"

unfoldable pub contains : ℕ → List Conn → Bool
contains id [] = false
contains id (c ∷ cs) = c.id == id || contains id cs

-- `cap is not None and count >= cap`
abbrev pub at_cap : Option ℕ → ℕ → Bool
at_cap none n = false
at_cap (some cap) n = leb cap n

-- The reason for which a connection is refused, empty where it is not.
unfoldable pub reason : String → Hub → String
reason kind h =
    if leb h.limit (length h.conns)
    then "total"
    else if at_cap (lookup kind h.caps) (get kind h.by_kind)
    then "kind"
    else ""

unfoldable pub add : Conn → String → Hub → Bool × (Conn × Hub)
unfolding kind_of contains reason
add c given h =
    let kind = kind_of given in
    let why = reason kind h in
    let kept = record c { kind = kind; reject_reason = "" } in
    if contains c.id h.conns
    then (true, (c, h))
    else if str_eq why ""
    then (
      true,
      (
        kept,
        record h {
          conns = h.conns ++ kept ∷ [];
          by_kind = bump kind h.by_kind;
          accepted = h.accepted + 1;
        },
      ),
    )
    else (
      false,
      (
        record c { kind = kind; reject_reason = why },
        record h { rejected = h.rejected + 1; rejected_by_kind = bump kind h.rejected_by_kind },
      ),
    )

unfoldable pub find : ℕ → List Conn → Option Conn
find id [] = none
find id (c ∷ cs) = let rest = find id cs in if c.id == id then some c else rest

unfoldable pub without : ℕ → List Conn → List Conn
without id [] = []
without id (c ∷ cs) = let rest = without id cs in if c.id == id then cs else c ∷ rest

-- `count = get(kind, 0) - 1`, which stays as the entry where it is positive.
unfoldable pub drop_one : String → Dict ℕ → Dict ℕ
drop_one kind d = if ltb 1 (get kind d) then insert kind (get kind d - 1) d else erase kind d

abbrev pub reports : Conn → Bool
reports c = c.write_timed_out && not c.timeout_reported

abbrev pub reported : Conn → Conn
reported c = record c { timeout_reported = c.timeout_reported || reports c }

-- `remove`, with the connection that has left the hub.
unfoldable pub remove : ℕ → Hub → Option Conn × Hub
unfolding find without drop_one
remove id h = elim (find id h.conns) [
  | none ↦ (none, h)
  | some c ↦ (
    some (reported c),
    record h {
      conns = without id h.conns;
      by_kind = drop_one c.kind h.by_kind;
      write_timeouts = h.write_timeouts + (if reports c then 1 else 0);
    },
  )
]

-- The writes of `broadcast` and `heartbeat`: the connections after them, and the ids of those whose
-- write failed.
unfoldable pub write_all : (Conn → Bool × Conn) → List Conn → List Conn × List ℕ
write_all f [] = ([], [])
write_all f (c ∷ cs) =
    let (rest, dead) = write_all f cs in ((f c).1 ∷ rest, if (f c).0 then dead else c.id ∷ dead)

-- `for c in dead: self.remove(c)`
unfoldable pub remove_all : List ℕ → Hub → Hub
unfolding remove
remove_all [] h = h
remove_all (id ∷ ids) h = remove_all ids (remove id h).1

abbrev sweep : (Conn → Bool × Conn) → Hub → Hub × ℕ
sweep f h =
    let (conns, dead) = write_all f h.conns in
    (remove_all dead (record h { conns = conns }), length dead)

unfoldable pub broadcast : ℕ → (ℕ → Written) → Hub → Hub
unfolding emit write_all remove_all
broadcast now outcome h = (sweep (λ c. emit now (outcome c.id) c) h).0

-- `heartbeat`, with the number of dead connections.
unfoldable pub heartbeat : ℕ → (ℕ → Written) → Hub → Hub × ℕ
unfolding ping_if_stale write_all remove_all
heartbeat now outcome h = sweep (λ c. ping_if_stale now (outcome c.id) c) h

-- A stream's own write to its connection.
unfoldable pub write : ℕ → Written → ℕ → List Conn → List Conn
unfolding emit
write now w id [] = []
write now w id (c ∷ cs) =
    let rest = write now w id cs in if c.id == id then (emit now w c).1 ∷ cs else c ∷ rest

unfoldable pub active_of : String → Hub → ℕ
active_of kind h = get kind h.by_kind

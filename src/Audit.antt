-- ===== src/Audit.antt =====
-- `AuditRecorder` of host/audit/recorder.py: events are accepted, queued and written by one thread, or by
-- their caller when the queue is full. Frozen events are values of any type; a disk write succeeds or not
-- as the caller says. The files' names, their pruning and queries are not modelled.
mod Examples
pub mod Steps
pub mod Books
pub mod Writes
pub mod History
pub mod Queries
pub mod Tallies
mod QueryExamples
pub mod Runs
use rkcockpit.Common.{
  Bool, List, Option, [], drop, false, if◌then◌else◌, is_nonempty, length, ltb, max, none, not,
  some, suc, true, zero, ℕ, ◌&&◌, ◌++◌, ◌+◌, ◌-◌, ◌==◌, ◌||◌, ◌∷◌,
}

-- `_metrics`
pub record Metrics : Type 0 where
  pub enqueued : ℕ
  pub fallback : ℕ
  pub written : ℕ
  pub write_failure : ℕ
  pub unpersisted : ℕ
  pub invalid : ℕ
  pub degraded : Bool

-- The recorder, with the events that a caller has accepted and not yet queued (`hands`), those that a
-- caller writes itself (`falling`) and the one that the writer has taken (`writing`). `disk` is what was
-- written; `lost` and `taken` are the events that were given up and those that were ever accepted.
pub record Recorder (A : Type 0) : Type 0 where
  pub max_ring : ℕ
  pub capacity : ℕ
  pub ring : List A
  pub seq : ℕ
  pub queue : List A
  pub hands : List A
  pub falling : List A
  pub writing : Option A
  pub pending : ℕ
  pub accepting : Bool
  pub stop : Bool
  pub exited : Bool
  pub metrics : Metrics
  pub disk : List A
  pub lost : List A
  pub taken : List A

-- What `record` finds of an event: no action, a time that is no integer or out of range, no JSON form, or
-- the frozen event, which may have the recorder's number in its id.
pub data Given (A : Type 0) : Type 0 where
  no_action bad_time not_json : Given A
  event : (ℕ → A) → Given A

abbrev no_metrics : Metrics
no_metrics = record {
  enqueued = 0;
  fallback = 0;
  written = 0;
  write_failure = 0;
  unpersisted = 0;
  invalid = 0;
  degraded = false;
}

module _ {A : Type 0} where
  unfoldable pub init : ℕ → ℕ → Recorder A
  init max_ring queue_size = record {
    max_ring = max_ring;
    capacity = max 1 queue_size;
    ring = [];
    seq = 0;
    queue = [];
    hands = [];
    falling = [];
    writing = none;
    pending = 0;
    accepting = true;
    stop = false;
    exited = false;
    metrics = no_metrics;
    disk = [];
    lost = [];
    taken = [];
  }

  unfoldable pub count_invalid : Recorder A → Recorder A
  count_invalid r = record r { metrics = record (r.metrics) { invalid = r.metrics.invalid + 1 } }

  -- `_ring.append` on a `deque(maxlen=max_ring)`.
  unfoldable pub push_ring : ℕ → A → List A → List A
  push_ring max_ring a ring = let longer = ring ++ a ∷ [] in drop (length longer - max_ring) longer

  -- `record` up to the event's acceptance.
  unfoldable pub take_in : A → Recorder A → Recorder A
  unfolding push_ring
  take_in a r = record r {
    seq = r.seq + 1;
    ring = push_ring r.max_ring a r.ring;
    pending = r.pending + 1;
    hands = r.hands ++ a ∷ [];
    taken = r.taken ++ a ∷ [];
  }

  unfoldable pub accept : Given A → Recorder A → Recorder A
  unfolding count_invalid take_in
  accept no_action r = r
  accept bad_time r = count_invalid r
  accept not_json r = if r.accepting then count_invalid (record r { seq = r.seq + 1 }) else r
  accept (event freeze) r = if r.accepting then take_in (freeze (r.seq + 1)) r else r

  -- The element at a place, and the others.
  unfoldable pub pull : ℕ → List A → Option (A × List A)
  pull i [] = none
  pull zero (x ∷ xs) = some (x, xs)
  pull (suc i) (x ∷ xs) = elim (pull i xs) [ none ↦ none | some (a, rest) ↦ some (a, x ∷ rest) ]

  -- `put_nowait`, or the way of a full queue.
  unfoldable pub offer : A → List A → Recorder A → Recorder A
  offer a rest r =
      if ltb (length r.queue) r.capacity
      then record r {
        hands = rest;
        queue = r.queue ++ a ∷ [];
        metrics = record (r.metrics) { enqueued = r.metrics.enqueued + 1 };
      }
      else record r {
        hands = rest;
        falling = r.falling ++ a ∷ [];
        metrics = record (r.metrics) { fallback = r.metrics.fallback + 1 };
      }

  -- `_write_once`, where it succeeds.
  unfoldable pub write_once : A → Recorder A → Recorder A
  write_once a r = record r {
    disk = r.disk ++ a ∷ [];
    metrics = record (r.metrics) {
      written = r.metrics.written + 1;
      degraded = if r.metrics.unpersisted == 0 then false else r.metrics.degraded;
    };
  }

  unfoldable pub mark_write_failure : Recorder A → Recorder A
  mark_write_failure r = record r {
    metrics = record (r.metrics) { write_failure = r.metrics.write_failure + 1; degraded = true };
  }

  -- `_metric_add("unpersisted")` for an event that is given up.
  unfoldable pub give_up : A → Recorder A → Recorder A
  give_up a r = record r {
    lost = r.lost ++ a ∷ [];
    metrics = record (r.metrics) { unpersisted = r.metrics.unpersisted + 1 };
  }

  unfoldable pub finish_pending : Recorder A → Recorder A
  finish_pending r = record r { pending = r.pending - 1 }

  -- `_write_fallback_once` and `_finish_pending`.
  unfoldable pub fall_back : Bool → A → List A → Recorder A → Recorder A
  unfolding write_once mark_write_failure give_up finish_pending
  fall_back true a rest r = finish_pending (write_once a (record r { falling = rest }))
  fall_back false a rest r =
      finish_pending (give_up a (mark_write_failure (record r { falling = rest })))

  -- A try of the writer; it keeps an event that it could not write.
  unfoldable pub try_write : Bool → A → Recorder A → Recorder A
  unfolding write_once mark_write_failure finish_pending
  try_write true a r = finish_pending (write_once a (record r { writing = none }))
  try_write false a r = mark_write_failure r

  unfoldable pub is_idle : Recorder A → Bool
  is_idle r = elim r.writing [ none ↦ true | some _ ↦ false ]

  -- `queue.get` of the writer.
  unfoldable pub get : List A → Recorder A → Recorder A
  get [] r = r
  get (a ∷ rest) r = record r { queue = rest; writing = some a }

  -- What `close` returns: every event left, the writer ended, and none was given up.
  unfoldable pub is_clean : Recorder A → Bool
  is_clean r = r.stop && r.exited && r.metrics.unpersisted == 0

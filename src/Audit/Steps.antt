-- ===== src/Audit/Steps.antt =====
-- The recorder of host/audit/recorder.py under any order of its callers, the writer and `close`: one step for
-- each stretch under a lock.
use rkcockpit.Common.{
  Bool, List, Option, [], false, if◌then◌else◌, none, not, some, true, ℕ, ◌&&◌, ◌==◌, ◌∷◌,
}
use rkcockpit.Audit.{Recorder, Given, accept, pull, offer, fall_back, try_write, is_idle, get}

pub data Step (A : Type 0) : Type 0 where
  records : Given A → Step A
  -- a caller queues the event at a place of `hands`
  queues : ℕ → Step A
  -- a caller writes the event at a place of `falling`, with or without success
  falls : ℕ → Bool → Step A
  takes exits closes drains : Step A
  writes : Bool → Step A

module _ {A : Type 0} where
  unfoldable pub queue_at : ℕ → Recorder A → Recorder A
  unfolding offer pull
  queue_at i r = elim (pull i r.hands) [ none ↦ r | some (a, rest) ↦ offer a rest r ]

  unfoldable pub fall_at : ℕ → Bool → Recorder A → Recorder A
  unfolding fall_back pull
  fall_at i good r = elim (pull i r.falling) [ none ↦ r | some (a, rest) ↦ fall_back good a rest r ]

  unfoldable pub write_on : Bool → Option A → Recorder A → Recorder A
  unfolding try_write
  write_on good none r = r
  write_on good (some a) r = try_write good a r

  -- `close` stops the acceptance, ends its wait when nothing is pending, and then tells the writer, which
  -- goes when nothing is pending.
  unfoldable pub step : Step A → Recorder A → Recorder A
  unfolding accept queue_at fall_at write_on get is_idle
  step (records given) r = accept given r
  step (queues i) r = queue_at i r
  step (falls i good) r = fall_at i good r
  step takes r = if not r.exited && is_idle r then get r.queue r else r
  step (writes good) r = write_on good r.writing r
  step closes r = record r { accepting = false }
  step drains r = if not r.accepting && r.pending == 0 then record r { stop = true } else r
  step exits r = if r.stop && r.pending == 0 && is_idle r then record r { exited = true } else r

  unfoldable pub run : List (Step A) → Recorder A → Recorder A
  unfolding step
  run [] r = r
  run (s ∷ steps) r = run steps (step s r)

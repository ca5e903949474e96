-- ===== src/ExecJob/Examples.antt =====
-- Runs of the command jobs of host/task/execjob.py, with a decoder that holds nothing back.
use rkcockpit.Common.{
  List, [], arith, count, false, length, none, refl, slice, some, true, ℕ, ◌+◌, ◌∷◌, ◌≡◌, ◌≤◌,
}
use rkcockpit.Common.Int.{pos}
use rkcockpit.Common.Result.{ok}
use rkcockpit.OutputBuffer.{Utf8, OutputBuffer, init, append, visible_len, continues_at, truncated}
use rkcockpit.OutputBuffer.Stream.{IsTail}
use rkcockpit.OutputBuffer.Cursor.{IsCursor}
use rkcockpit.ExecJob.{
  Job, Store, poll, find, timeout_of, max_output, max_jobs, max_concurrent, new_output,
}
use rkcockpit.ExecJob.Slots.{
  System, Event, start, opens, reads, ends, closes, other_takes, run, initial, is_running,
  run-slots,
}
use rkcockpit.ExecJob.Polling.{poll-ended}

abbrev latin : Utf8
latin = record {
  Text = List ℕ;
  decode = λ bs. bs;
  held_back = λ bs. 0;
  held_back_le = λ bs. omega arith;
}

abbrev work : List Event
work =
    start 1000 "ls" none
    ∷ other_takes
    ∷ start 1001 "ps" (some (pos 9999))
    ∷ opens 1
    ∷ reads 1 (104 ∷ 105 ∷ [])
    ∷ ends 2000 1 (some (pos 0))
    ∷ []

abbrev worked : System
worked = run latin work initial

-- Two of the eight slots are taken at the end: one elsewhere, and one by the second job.
worked_counts : (worked.free ≡ 6) × (count is_running worked.store.jobs ≡ 1)
unfolding run
worked_counts = (refl, refl)

new_output-init : init max_output ≡ some new_output
unfolding init
new_output-init = refl

run-slots_example :
    (worked.free + worked.elsewhere + count is_running worked.store.jobs ≡ max_concurrent)
    × (length worked.store.jobs ≤ max_jobs)
run-slots_example = run-slots latin work

abbrev open_store : Store
open_store = record { jobs = []; seq = 4; closed = false }

abbrev shut : System
shut = run latin (closes ∷ []) worked

shut_closed : shut.store.closed ≡ true
unfolding run
shut_closed = refl

abbrev said : OutputBuffer
said = record {
  limit = max_output;
  bytes = 104 ∷ 105 ∷ [];
  base_offset = 0;
  end_offset = 2;
  pending_len = 0;
}

abbrev first : Job
first = record {
  id = 1;
  cmd = "ls";
  running = false;
  exit_code = some (pos 0);
  output = said;
  started_ms = 1000;
  ended_ms = 2000;
  timeout = 120;
  slot_released = true;
  has_proc = true;
}

first_found : find 1 worked.store.jobs ≡ some first
unfolding run find append timeout_of
first_found = refl

said-IsTail : IsTail (104 ∷ 105 ∷ []) said
said-IsTail = record {
  end = refl;
  base_le = omega arith;
  kept = refl;
  fits = omega arith;
  pending_le = omega arith;
}

said-IsCursor : IsCursor latin 1 true said
unfolding visible_len continues_at
said-IsCursor = (omega arith, omega arith, λ h. refl)

poll-ended_example :
    poll latin 1 (some 1) worked.store
    ≡ ok (record {
      shown = record {
        text = slice 1 2 (104 ∷ 105 ∷ []);
        next_offset = 2;
        base = 0;
        reset = false;
      };
      is_running = false;
      code = some (pos 0);
      is_truncated = truncated said;
      began_ms = 1000;
    })
poll-ended_example =
    poll-ended latin (104 ∷ 105 ∷ []) 1 1 worked.store first first_found refl said-IsTail
      said-IsCursor

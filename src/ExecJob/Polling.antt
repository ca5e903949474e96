-- ===== src/ExecJob/Polling.antt =====
-- What `poll` of host/task/execjob.py shows of a job's output.
use rkcockpit.Common.{List, ap, arith, false, length, length-drop, refl, slice, some, true, ℕ, ◌≡◌}
use rkcockpit.Common.Result.{ok}
use rkcockpit.OutputBuffer.{Utf8, OutputBuffer, visible_len, truncated}
use rkcockpit.OutputBuffer.Stream.{IsTail}
use rkcockpit.OutputBuffer.Cursor.{IsCursor, visible_end, snapshot-Shows}
use rkcockpit.ExecJob.{Job, Store, poll, poll_of, find}

visible_end-final :
    (u : Utf8) (stream : List ℕ) (b : OutputBuffer)
    → IsTail stream b
    → visible_end u true b ≡ length stream
unfolding visible_len
visible_end-final u stream b h =
    omega (arith, h.base_le, ap (length {A = ℕ}) h.kept, length-drop b.base_offset stream)

-- Polling a job of the store that has ended, from a cursor at which a character begins, shows all
-- the stream that its buffer holds the tail of from there on, whatever the decoder would hold back, with
-- the exit code and the cursor at the end of the output.
pub poll-ended :
    (u : Utf8) (stream : List ℕ) (id offset : ℕ) (s : Store) (j : Job)
    → find id s.jobs ≡ some j
    → j.running ≡ false
    → IsTail stream j.output
    → IsCursor u offset true j.output
    → poll u id (some offset) s
      ≡ ok (record {
        shown = record {
          text = u.decode (slice offset (length stream) stream);
          next_offset = length stream;
          base = j.output.base_offset;
          reset = false;
        };
        is_running = false;
        code = j.exit_code;
        is_truncated = truncated j.output;
        began_ms = j.started_ms;
      })
unfolding poll
poll-ended u stream id offset s j found stopped tail cursor =
    let shows = snapshot-Shows u stream j.output true offset tail cursor in
    rw (found, poll, stopped, poll_of, shows, visible_end-final u stream j.output tail, stopped)
      refl

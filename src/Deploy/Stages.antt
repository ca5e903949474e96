-- ===== src/Deploy/Stages.antt =====
-- The loop of `_run` in host/task/deployjob.py, with `_upload` and `_run_exec`.
use rkcockpit.Common.{
  Bool, List, Option, [], drop, false, get_elem?, if◌then◌else◌, length, ltb, none, not, some, true,
  zero, ℕ, ◌&&◌, ◌++◌, ◌+◌, ◌-◌, ◌/◌, ◌||◌, ◌∷◌,
}
use rkcockpit.Common.Int.{ℤ, pos}
use rkcockpit.Common.Result.{Result, ok, raised, ◌>>=◌}
use rkcockpit.Deploy.{
  File, Plan, Name, upload, chmod, exec, restart, StageState, done, skipped, failed, Error,
  cancelled_error, upload_failed, said, exec_failed, exec_timeout, index_error, Detail, uploaded,
  mode_set, exited, stub, error, taken_back, Stage, still_running, finished, cancelled, Chmod,
  changed, unsupported, refused, Poll, late, store_error, ended, Turn, in_stage, exit_code,
  Progress,
}

-- `_upload`: what it adds to the bytes, or its error. The wait has ended: the transfer is not running or
-- the run is cancelled.
unfoldable pub upload_end : Bool → Turn → Result Error ℕ
upload_end true t = raised cancelled_error
upload_end false t = elim t.transfer [
  | still_running ↦ raised cancelled_error
  | cancelled ↦ raised cancelled_error
  | failed none ↦ raised upload_failed
  | failed (some text) ↦ raised (said text)
  | finished ↦ ok t.transferred
]

unfoldable pub upload_file : Bool → Turn → Result Error ℕ
unfolding upload_end
upload_file true t = raised cancelled_error
upload_file false t = elim t.upload_error [ some e ↦ raised e | none ↦ upload_end t.during t ]

abbrev pub output_limit : ℕ
output_limit = 4096

-- `_run_exec`: the exit code, the last 4096 characters of the output, and whether that is not all of it.
unfoldable pub run_exec : ℕ → Poll → Result Error (ℤ × List ℕ × Bool)
run_exec timeout late = raised (exec_timeout timeout)
run_exec timeout (store_error e) = raised e
run_exec timeout (ended none out cut) = raised (exec_failed out)
run_exec timeout (ended (some rc) out cut) =
    ok (rc, drop (length out - output_limit) out, cut || ltb output_limit (length out))

unfoldable pub is_zero : ℤ → Bool
is_zero (pos zero) = true
is_zero _ = false

-- What a stage that raises nothing leaves: its state, its detail, what the run keeps, and the exit code.
abbrev pub Work : Type 0
Work = StageState × Detail × Progress × Option ℤ

unfoldable pub upload_stage : Option File → Turn → Progress → Result Error Work
unfolding upload_file
upload_stage none t p = raised index_error
upload_stage (some f) t p = upload_file t.entering t >>= λ n.
    ok (done, uploaded n f.dest, record p { bytes_done = p.bytes_done + n }, none)

unfoldable pub chmod_stage : Option File → Chmod → Progress → Result Error Work
chmod_stage none answer p = raised index_error
chmod_stage (some f) changed p = ok (done, mode_set f.mode, p, none)
chmod_stage (some f) (unsupported text) p = ok (skipped, error (said text), p, none)
chmod_stage (some f) (refused e) p = raised e

unfoldable pub exec_stage : ℕ → Poll → Progress → Result Error Work
unfolding run_exec is_zero
exec_stage timeout answer p = run_exec timeout answer >>= λ r.
    let kept = record p { exit = some r.0; output_tail = r.1; truncated = r.2 } in
    ok (
      if is_zero r.0
      then (done, exited r.0, kept, some r.0)
      else (failed, exited r.0, record kept { fail_msg = some (exit_code r.0) }, some r.0))

-- The body of the `try`: stages 2k and 2k + 1 are those of the file k.
unfoldable pub work : Plan → ℕ → Name → Turn → Progress → Result Error Work
unfolding upload_stage chmod_stage exec_stage
work plan i upload t p = upload_stage (get_elem? plan.files (i / 2)) t p
work plan i chmod t p = chmod_stage (get_elem? plan.files ((i - 1) / 2)) t.chmod_answer p
work plan i exec t p = exec_stage plan.timeout t.poll p
work plan i restart t p = ok (skipped, stub, p, none)

unfoldable pub is_failed : StageState → Bool
is_failed failed = true
is_failed _ = false

unfoldable pub log_stage : Name → StageState → Option ℤ → Progress → Progress
unfolding is_failed
log_stage name state rc p = record p { audit = p.audit ++ (name, not (is_failed state), rc) ∷ [] }

-- One stage after the check at the loop's head: its `except`, and `_audit_stage`.
unfoldable pub settle : Stage → Turn → Progress → Result Error Work → Stage × Progress
unfolding log_stage
settle st t p (ok (state, detail, q, rc)) = (
  record st { state = state; detail = detail },
  log_stage st.name state rc (record q { asked = q.asked || t.entering || t.during || t.after }),
)
settle st t p (raised e) =
    if t.entering || t.during || t.after
    then (
      record st { state = failed; detail = taken_back },
      log_stage st.name failed none (record p { asked = true; cancelled = true }),
    )
    else (
      record st { state = failed; detail = error e },
      log_stage st.name failed none (record p { fail_msg = some (in_stage st.name e) }),
    )

unfoldable pub run_stage : Plan → ℕ → Stage → Turn → Progress → Stage × Progress
unfolding work settle
run_stage plan i st t p = settle st t p (work plan i st.name t p)

-- The loop of `_run`.
unfoldable pub run_stages : Plan → (ℕ → Turn) → ℕ → List Stage → Progress → List Stage × Progress
unfolding run_stage is_failed
run_stages plan turns i [] p = ([], p)
run_stages plan turns i (st ∷ stages) p =
    let (ran, q) = run_stage plan i st (turns i) p in
    let (rest, r) = run_stages plan turns (i + 1) stages q in
    if p.asked || (turns i).before
    then (st ∷ stages, record p { asked = true; cancelled = true })
    else if is_failed ran.state && not q.cancelled
    then (ran ∷ stages, q)
    else (ran ∷ rest, r)

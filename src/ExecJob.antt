-- ===== src/ExecJob.antt =====
-- `ExecJobStore` in host/task/execjob.py: shell commands that run in the background, with their
-- output. The slots of the module's semaphore are an argument of the methods that take or return
-- one. Job ids are the numbers of "e1", "e2", …; clocks count whole milliseconds, and one reading
-- stands for those that a method takes in a row. The threads that read and that end a process are
-- modelled by their locked stretches; sending signals is not.
mod Examples
pub mod Slots
pub mod Polling
use rkcockpit.Common.{
  Bool, List, Option, String, [], any, false, filter, if◌then◌else◌, leb, length, min, none, not,
  some, true, ℕ, ◌&&◌, ◌*◌, ◌++◌, ◌+◌, ◌-◌, ◌==◌, ◌||◌, ◌∷◌,
}
use rkcockpit.Common.Int.{ℤ, pos, negsuc}
use rkcockpit.Common.Result.{Result, ok, raised}
use rkcockpit.OutputBuffer.{Utf8, OutputBuffer, Snapshot, append, snapshot, truncated}
use rkcockpit.OutputBuffer as Buffer

abbrev pub max_concurrent : ℕ
max_concurrent = 8

abbrev pub max_output : ℕ
max_output = 512 * 1024

abbrev pub keep_ms : ℕ
keep_ms = 60 * 1000

abbrev pub max_jobs : ℕ
max_jobs = 100

pub record Job : Type 0 where
  pub id : ℕ
  pub cmd : String
  pub running : Bool
  pub exit_code : Option ℤ
  pub output : OutputBuffer
  pub started_ms : ℕ
  pub ended_ms : ℕ
  pub timeout : ℕ
  pub slot_released : Bool
  pub has_proc : Bool

pub record Store : Type 0 where
  pub jobs : List Job
  pub seq : ℕ
  pub closed : Bool

abbrev pub new_store : Store
new_store = record { jobs = []; seq = 0; closed = false }

-- The three reasons of an ExecQueueFull.
pub data QueueFull : Type 0 where
  no_slot closing history_full : QueueFull

-- What the locked part of `run` leaves behind: the free slots and the store, with the new job.
pub data Admission : Type 0 where
  admitted : Job → ℕ → Store → Admission
  refused : QueueFull → ℕ → Store → Admission

-- `min(max(int(timeout or 120), 1), 3600)`
unfoldable pub timeout_of : Option ℤ → ℕ
timeout_of none = 120
timeout_of (some (pos n)) = if n == 0 then 120 else min n 3600
timeout_of (some (negsuc n)) = 1

-- `OutputBuffer(MAX_OUTPUT)`
abbrev pub new_output : OutputBuffer
new_output = record {
  limit = max_output;
  bytes = [];
  base_offset = 0;
  end_offset = 0;
  pending_len = 0;
}

-- A job that the pruning in `run` leaves in the store.
unfoldable pub keeps : ℕ → Job → Bool
keeps now j = j.running || leb (now - j.ended_ms) keep_ms

abbrev pub new_job : ℕ → ℕ → String → Option ℤ → Job
new_job now id cmd timeout = record {
  id = id;
  cmd = cmd;
  running = true;
  exit_code = none;
  output = new_output;
  started_ms = now;
  ended_ms = 0;
  timeout = timeout_of timeout;
  slot_released = false;
  has_proc = false;
}

-- `run` up to the end of its locked part. `free` are the semaphore's slots; a refusal after one was
-- taken gives it back.
unfoldable pub admit : ℕ → ℕ → String → Option ℤ → Store → Admission
unfolding keeps
admit now free cmd timeout s =
    let taken = free - 1 in
    let kept = filter (keeps now) s.jobs in
    let job = new_job now (s.seq + 1) cmd timeout in
    if free == 0
    then refused no_slot free s
    else if s.closed
    then refused closing (taken + 1) s
    else if leb max_jobs (length kept)
    then refused history_full (taken + 1) (record s { jobs = kept })
    else admitted job taken (record s { jobs = kept ++ job ∷ []; seq = s.seq + 1 })

-- `release_slot_locked`: the job, and the slots given back.
unfoldable pub release_slot : Job → Job × ℕ
release_slot j = if j.slot_released then (j, 0) else (record j { slot_released = true }, 1)

-- A locked stretch of one job's threads: the jobs, and the slots given back.
unfoldable pub change : (Job → Job × ℕ) → ℕ → List Job → List Job × ℕ
change f id [] = ([], 0)
change f id (j ∷ js) =
    let (rest, n) = change f id js in if j.id == id then ((f j).0 ∷ js, (f j).1) else (j ∷ rest, n)

-- The `finally` of `reader`: the process has ended.
unfoldable pub ended : ℕ → Option ℤ → Job → Job × ℕ
unfolding release_slot
ended now code j = release_slot (record j { running = false; exit_code = code; ended_ms = now })

-- `job["proc"] = proc`
unfoldable pub opened : Job → Job × ℕ
opened j = (record j { has_proc = true }, 0)

module _ (u : Utf8) where
  -- The `except` branch where the command cannot be opened; `message` are the bytes of the error.
  unfoldable pub open_failed : ℕ → List ℕ → Job → Job × ℕ
  unfolding release_slot
  open_failed now message j =
      release_slot
        (record j { running = false; ended_ms = now; output = append u message j.output })

  -- The loop body of `reader`.
  unfoldable pub has_read : List ℕ → Job → Job × ℕ
  has_read chunk j = (record j { output = append u chunk j.output }, 0)

-- `self._jobs.get(jid)`
unfoldable pub find : ℕ → List Job → Option Job
find id [] = none
find id (j ∷ js) = let rest = find id js in if j.id == id then some j else rest

pub data Error : Type 0 where
  missing_job : Error
  bad_cursor : Buffer.Error → Error

pub record Poll (u : Utf8) : Type 0 where
  pub shown : Snapshot u
  pub is_running : Bool
  pub code : Option ℤ
  pub is_truncated : Bool
  pub began_ms : ℕ

module _ (u : Utf8) where
  abbrev pub poll_of : Job → Result Buffer.Error (Snapshot u) → Result Error (Poll u)
  poll_of j (raised e) = raised (bad_cursor e)
  poll_of j (ok shown) = ok (record {
    shown = shown;
    is_running = j.running;
    code = j.exit_code;
    is_truncated = truncated j.output;
    began_ms = j.started_ms;
  })

  unfoldable pub poll : ℕ → Option ℕ → Store → Result Error (Poll u)
  unfolding find
  poll id offset s = elim (find id s.jobs) [
    | none ↦ raised missing_job
    | some j ↦ poll_of j (snapshot u offset (not j.running) j.output)
  ]

-- The start of `kill`: whether there is a process that gets a signal.
unfoldable pub kill : ℕ → Store → Result Error Bool
unfolding find
kill id s = elim (find id s.jobs) [ none ↦ raised missing_job | some j ↦ ok j.has_proc ]

-- The first locked part of `close`: the jobs whose processes get SIGTERM, and the closed store.
unfoldable pub close : Store → List Job × Store
close s = (filter (λ j. j.running && j.has_proc) s.jobs, record s { closed = true })

-- `not any(job["running"] for job in self._jobs.values())`, which ends the waits of `close` and is
-- its answer.
unfoldable pub is_clean : Store → Bool
is_clean s = not (any (λ j. j.running) s.jobs)

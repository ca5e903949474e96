-- ===== src/Transfer.antt =====
-- `TransferJobStore` and the progress wrappers in host/task/transfer.py: file transfers that run on
-- a pool of threads. `_jobs` is a list in insertion order, its keys the jobs' ids; an id is the
-- number that `_seq` makes unique. Clocks count whole milliseconds, and one reading stands for those
-- that a method takes in a row. Sending signals and the waits of `close` are not modelled.
mod Examples
pub mod Registry
pub mod Jobs
pub mod Lifecycle
use rkcockpit.Common.{
  Bool, List, Option, String, [], count, drop, false, filter, if◌then◌else◌, leb, length, ltb, map,
  none, not, some, true, ℕ, ◌&&◌, ◌*◌, ◌++◌, ◌+◌, ◌-◌, ◌==◌, ◌||◌, ◌∷◌,
}
use rkcockpit.Common.Result.{Result, ok, raised}

abbrev pub max_running : ℕ
max_running = 4

abbrev pub max_keep : ℕ
max_keep = 50

abbrev pub keep_ms : ℕ
keep_ms = 600 * 1000

pub data Status : Type 0 where
  running done failed cancelled : Status

unfoldable pub is_running : Status → Bool
is_running running = true
is_running done = false
is_running failed = false
is_running cancelled = false

-- What a transfer is about: `device`, `action`, `name`, `src` and `dest`.
pub record Request : Type 0 where
  pub device : String
  pub action : String
  pub name : String
  pub src : String
  pub dest : String
  pub has_cleanup : Bool

pub record Job : Type 0 where
  pub id : ℕ
  pub request : Request
  pub bytes_total : ℕ
  pub bytes_done : ℕ
  pub status : Status
  pub error : Option String
  pub is_cancelled : Bool
  pub has_proc : Bool
  pub started_ms : ℕ
  pub updated_ms : ℕ

-- `futures` are the keys of `_futures`.
pub record Store : Type 0 where
  pub jobs : List Job
  pub order : List ℕ
  pub futures : List ℕ
  pub seq : ℕ
  pub closed : Bool

abbrev pub new_store : Store
new_store = record { jobs = []; order = []; futures = []; seq = 0; closed = false }

-- TransportErrors of `submit` and of the wrappers, KeyErrors, and the executor's own error.
pub data Error : Type 0 where
  closing too_many_running task_cancelled missing_job not_accepted : Error

abbrev pub id_of : Job → ℕ
id_of j = j.id

abbrev pub is_live : Job → Bool
is_live j = is_running j.status

unfoldable pub contains : ℕ → List ℕ → Bool
contains id [] = false
contains id (i ∷ ids) = i == id || contains id ids

-- `list.remove`: the first item that is equal.
unfoldable pub remove : ℕ → List ℕ → List ℕ
remove id [] = []
remove id (i ∷ ids) = let rest = remove id ids in if i == id then ids else i ∷ rest

-- `self._jobs.get(id)`
unfoldable pub find : ℕ → List Job → Option Job
find id [] = none
find id (j ∷ js) = let rest = find id js in if j.id == id then some j else rest

-- `self._jobs.pop(id, None)`
unfoldable pub without : ℕ → List Job → List Job
without id js = filter (λ j. not (j.id == id)) js

-- The test of `_trim_locked` for one job.
unfoldable pub keeps : ℕ → Job → Bool
keeps now j = is_running j.status || ltb (now - j.started_ms) keep_ms

abbrev pub select_one : Option Job → (Job → Bool) → ℕ → Option (List ℕ) → Option (List ℕ)
select_one none p id rest = none
select_one (some j) p id none = none
select_one (some j) p id (some ids) = some (if p j then id ∷ ids else ids)

-- The comprehension of `_trim_locked`; an id without a job is a KeyError, `none`.
unfoldable pub select : (Job → Bool) → List Job → List ℕ → Option (List ℕ)
unfolding find
select p jobs [] = some []
select p jobs (id ∷ ids) = select_one (find id jobs) p id (select p jobs ids)

-- `keep[-self.MAX_KEEP:]`
abbrev pub newest {ℓ} : {A : Type ℓ} → List A → List A
newest xs = drop (length xs - max_keep) xs

abbrev pub with_order : Store → Option (List ℕ) → Option Store
with_order s none = none
with_order s (some keep) =
    some (record s { order = newest keep; jobs = filter (λ j. contains j.id (newest keep)) s.jobs })

-- `_trim_locked`
unfoldable pub trim : ℕ → Store → Option Store
unfolding select keeps contains
trim now s = with_order s (select (keeps now) s.jobs s.order)

abbrev pub new_job : ℕ → ℕ → Request → Job
new_job now id request = record {
  id = id;
  request = request;
  bytes_total = 0;
  bytes_done = 0;
  status = running;
  error = none;
  is_cancelled = false;
  has_proc = false;
  started_ms = now;
  updated_ms = now;
}

pub data Submission : Type 0 where
  submitted : Job → Store → Submission
  refused : Error → Store → Submission

-- The `try` of `submit`, after the trim: the executor accepts the job or raises.
unfoldable pub hand_over : Bool → Job → Store → Submission
unfolding without remove
hand_over accepted j s =
    if accepted
    then submitted j (record s { futures = s.futures ++ j.id ∷ [] })
    else refused not_accepted (record s { jobs = without j.id s.jobs; order = remove j.id s.order })

abbrev pub after_trim : Bool → Job → Store → Option Store → Submission
after_trim accepted j listed none = refused missing_job listed
after_trim accepted j listed (some t) = hand_over accepted j t

-- `submit`. `accepted` tells whether the executor takes the job.
unfoldable pub submit : ℕ → Bool → Request → Store → Submission
unfolding trim
submit now accepted request s =
    let job = new_job now (s.seq + 1) request in
    let listed = record s {
      seq = s.seq + 1;
      jobs = s.jobs ++ job ∷ [];
      order = s.order ++ job.id ∷ [];
    } in
    if s.closed
    then refused closing s
    else if leb max_running (count is_live s.jobs)
    then refused too_many_running s
    else after_trim accepted job listed (trim now listed)

-- Changes the job with an id, if it is still in `_jobs`.
unfoldable pub change : (Job → Job) → ℕ → List Job → List Job
change f id [] = []
change f id (j ∷ js) = let rest = change f id js in if j.id == id then f j ∷ js else j ∷ rest

-- `_run` after `fn` returned, and after it raised.
unfoldable pub returned : Job → Job
returned j =
    if j.is_cancelled
    then record j { status = cancelled; error = none }
    else record j { status = done }

unfoldable pub has_raised : String → Job → Job
has_raised message j =
    if j.is_cancelled
    then record j { status = cancelled; error = some "已取消" }
    else record j { status = failed; error = some message }

-- The end of the `finally` of `_run`.
unfoldable pub settle : ℕ → ℕ → Store → Store
unfolding change
settle now id s = record s {
  jobs = change (λ j. record j { has_proc = false; updated_ms = now }) id s.jobs;
  futures = filter (λ i. not (i == id)) s.futures;
}

unfoldable pub cancel_job : ℕ → Job → Job
cancel_job now j =
    if is_running j.status then record j { is_cancelled = true; updated_ms = now } else j

-- `cancel`, but for the signal to the job's process.
unfoldable pub cancel : ℕ → ℕ → Store → Result Error Store
unfolding find change cancel_job
cancel now id s = elim (find id s.jobs) [
  | none ↦ raised missing_job
  | some j ↦ ok (record s { jobs = change (cancel_job now) id s.jobs })
]

-- The loop body of `close` for one job. `revoked` tells whether `future.cancel()` succeeds.
unfoldable pub close_job : ℕ → (ℕ → Bool) → List ℕ → Job → Job
unfolding contains
close_job now revoked futures j =
    if is_running j.status
    then if contains j.id futures && revoked j.id
      then record j {
        is_cancelled = true;
        status = cancelled;
        error = some "已取消";
        updated_ms = now;
      }
      else record j { is_cancelled = true }
    else j

-- A future that the first part of `close` leaves in `_futures`.
unfoldable pub keeps_future : (ℕ → Bool) → List Job → ℕ → Bool
unfolding find
keeps_future revoked jobs i = elim (find i jobs) [
  | none ↦ true
  | some j ↦ not (is_running j.status && revoked i)
]

-- The first locked part of `close`.
unfoldable pub close : ℕ → (ℕ → Bool) → Store → Store
unfolding close_job keeps_future
close now revoked s = record s {
  closed = true;
  jobs = map (close_job now revoked s.futures) s.jobs;
  futures = filter (keeps_future revoked s.jobs) s.futures;
}

abbrev add_bytes : ℕ → ℕ → Job → Job
add_bytes now n j = record j { bytes_done = j.bytes_done + n; updated_ms = now }

-- `ProgressReader.read` of `n` bytes, and `ProgressWriter.write` of them.
unfoldable pub read : ℕ → ℕ → Job → Result Error Job
read now n j =
    if j.is_cancelled then raised task_cancelled else ok (if n == 0 then j else add_bytes now n j)

unfoldable pub write : ℕ → ℕ → Job → Result Error Job
write now n j = if j.is_cancelled then raised task_cancelled else ok (add_bytes now n j)

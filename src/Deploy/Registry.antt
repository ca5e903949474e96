-- ===== src/Deploy/Registry.antt =====
-- The plans, jobs and history of `DeployJobStore` in host/task/deployjob.py, under any calls and ends of
-- runs. Locked stretches are single steps; a run's end is one step too.
use rkcockpit.Common.{
  Bool, List, Option, String, [], false, filter, if◌then◌else◌, ltb, none, not, some, str_eq, take,
  true, ℕ, ◌+◌, ◌-◌, ◌==◌, ◌||◌, ◌∷◌,
}
use rkcockpit.Common.Dict.{Dict, lookup, insert, erase}
use rkcockpit.Common.Result.{Result, ok, raised}
use rkcockpit.Deploy.{Plan, Turn, build_stages}
use rkcockpit.Deploy.Runs.{Job, JobState, run}

abbrev pub keep_jobs : ℕ
keep_jobs = 20

pub record Store : Type 0 where
  pub plans : Dict Plan
  pub jobs : Dict Job
  pub history : List String
  -- `_progs`: whether `cancel` was asked for
  pub progs : Dict Bool

unfoldable pub empty_store : Store
empty_store = record { plans = []; jobs = []; history = []; progs = [] }

-- KeyError and the ValueErrors of `start`.
pub data Refusal : Type 0 where
  missing_key already_running source_deleted source_changed no_device : Refusal

unfoldable pub is_running : JobState → Bool
is_running JobState.running = true
is_running _ = false

unfoldable pub contains : String → List String → Bool
contains k [] = false
contains k (x ∷ xs) = str_eq x k || contains k xs

-- The times are whole nanoseconds, of which a source's may have moved by 10 000 000 at most; the source's
-- floating-point numbers round them.
unfoldable pub check_sizes : (String → Option (ℕ × ℕ)) → List (String × (ℕ × ℕ)) → Option Refusal
check_sizes stat [] = none
check_sizes stat ((src, (size, mtime)) ∷ sizes) =
    let rest = check_sizes stat sizes in
    elim (stat src) [
      | none ↦ some source_deleted
      | some (now_size, now_mtime) ↦
          if not (now_size == size) || ltb 10000000 (now_mtime - mtime + (mtime - now_mtime))
          then some source_changed
          else rest
    ]

unfoldable pub total_size : List (String × (ℕ × ℕ)) → ℕ
total_size [] = 0
total_size ((src, (size, mtime)) ∷ sizes) = size + total_size sizes

unfoldable pub is_job_running : Option Job → Bool
unfolding is_running
is_job_running none = false
is_job_running (some job) = is_running job.state

unfoldable pub is_other_device : Option String → String → Bool
is_other_device none device_id = false
is_other_device (some did) device_id = not (str_eq did device_id)

-- `del self._history[KEEP_JOBS:]`, after the plan was moved to the front.
unfoldable pub to_front : String → List String → List String
to_front k history = take keep_jobs (k ∷ filter (λ x. not (str_eq x k)) history)

-- The jobs that are listed or still run.
unfoldable pub prune : List String → Dict Job → Dict Job
unfolding contains is_running
prune history jobs = filter (λ e. contains e.0 history || is_running e.1.state) jobs

unfoldable pub new_job : (String → String) → Plan → Job
unfolding build_stages total_size
new_job label plan = record {
  id = plan.plan_id;
  device_id = plan.device_id;
  state = JobState.running;
  stages = build_stages label plan;
  bytes_total = total_size plan.sizes;
  bytes_done = 0;
  exit = none;
  output_tail = [];
  truncated = false;
  job_error = none;
  audit = [];
}

unfoldable pub enter : (String → String) → String → Plan → Store → Store
unfolding to_front prune new_job
enter label k plan s =
    let history = to_front k s.history in
    record s {
      jobs = prune history (insert k (new_job label plan) s.jobs);
      history = history;
      progs = insert k false s.progs;
    }

-- `start`; `known` tells whether the host has the device, `stat` the size and time of a file.
module _ (label : String → String) (known : String → Bool) (stat : String → Option (ℕ × ℕ)) where
  unfoldable pub start_plan : String → Option String → Plan → Store → Result Refusal Store
  unfolding is_other_device is_job_running check_sizes enter
  start_plan k did plan s =
      if is_other_device did plan.device_id
      then raised missing_key
      else if is_job_running (lookup k s.jobs)
      then raised already_running
      else if not (known plan.device_id)
      then raised no_device
      else elim (check_sizes stat plan.sizes) [
        | some e ↦ raised e
        | none ↦ ok (enter label k plan s)
      ]

  unfoldable pub start : String → Option String → Store → Result Refusal Store
  unfolding start_plan
  start k did s = elim (lookup k s.plans) [
    | none ↦ raised missing_key
    | some plan ↦ start_plan k did plan s
  ]

-- `cancel`: whether the run was told to stop; the running transfer is cancelled by its own store.
unfoldable pub ask : String → Store → Store
ask k s = elim (lookup k s.progs) [ none ↦ s | some _ ↦ record s { progs = insert k true s.progs } ]

unfoldable pub cancel_job : String → Option String → Job → Store → Result Refusal (Bool × Store)
unfolding is_other_device is_running ask
cancel_job k did job s =
    if is_other_device did job.device_id
    then raised missing_key
    else if not (is_running job.state)
    then ok (false, s)
    else ok (true, ask k s)

unfoldable pub cancel : String → Option String → Store → Result Refusal (Bool × Store)
unfolding cancel_job
cancel k did s = elim (lookup k s.jobs) [
  | none ↦ raised missing_key
  | some job ↦ cancel_job k did job s
]

unfoldable pub get : String → Option String → Store → Result Refusal Job
unfolding is_other_device
get k did s = elim (lookup k s.jobs) [
  | none ↦ raised missing_key
  | some job ↦ if is_other_device did job.device_id then raised missing_key else ok job
]

-- The jobs of these ids, without those that are gone: `list` for the history.
unfoldable pub listed : Dict Job → List String → List Job
listed jobs [] = []
listed jobs (k ∷ history) =
    let rest = listed jobs history in elim (lookup k jobs) [ none ↦ rest | some job ↦ job ∷ rest ]

-- The end of the run of a started job; only a run that had a transport forgets its `_progs`.
unfoldable pub run_ends : Bool → Option String → (ℕ → Turn) → String → Store → Store
run_ends asked trouble turns k s = elim (lookup k s.plans) [
  | none ↦ s
  | some plan ↦ elim (lookup k s.jobs) [
    | none ↦ s
    | some job ↦ record s {
      jobs = insert k (run plan asked trouble turns job) s.jobs;
      progs = elim trouble [ none ↦ erase k s.progs | some _ ↦ s.progs ];
    }
  ]
]

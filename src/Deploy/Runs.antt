-- ===== src/Deploy/Runs.antt =====
-- The end of `_run` in host/task/deployjob.py, `_abort`, and the whole of a run.
use rkcockpit.Common.{
  Bool, List, Option, String, [], false, if◌then◌else◌, none, some, true, ℕ, ◌∷◌,
}
use rkcockpit.Common.Int.{ℤ}
use rkcockpit.Deploy.{
  Plan, StageState, pending, skipped, failed, Detail, not_reached, not_deployed, dropped, Stage,
  Turn, Failure, Progress,
}
use rkcockpit.Deploy.Stages.{run_stages}

pub data JobState : Type 0 where
  running done error cancelled : JobState

pub data JobError : Type 0 where
  cancelled_job : JobError
  stage_failure : Failure → JobError
  no_transport : String → JobError

pub record Job : Type 0 where
  pub id : String
  pub device_id : String
  pub state : JobState
  pub stages : List Stage
  pub bytes_total : ℕ
  pub bytes_done : ℕ
  pub exit : Option ℤ
  pub output_tail : List ℕ
  pub truncated : Bool
  pub job_error : Option JobError
  -- the entry of `_audit_start`: whether the deployment went well
  pub audit : List Bool

-- The stages that were not reached get a state and a detail; the first argument is the stage's state.
unfoldable pub fill_one : StageState → StageState → Detail → Stage → Stage
fill_one pending state detail st = record st { state = state; detail = detail }
fill_one _ state detail st = st

unfoldable pub fill : StageState → Detail → List Stage → List Stage
unfolding fill_one
fill state detail [] = []
fill state detail (st ∷ stages) = fill_one st.state state detail st ∷ fill state detail stages

unfoldable pub finish : List Stage → Progress → Job → Job
unfolding fill
finish stages p job =
    let kept = record job {
      bytes_done = p.bytes_done;
      exit = p.exit;
      output_tail = p.output_tail;
      truncated = p.truncated;
    } in
    if p.cancelled
    then record kept {
      state = JobState.cancelled;
      job_error = some cancelled_job;
      stages = fill skipped dropped stages;
      audit = true ∷ [];
    }
    else elim p.fail_msg [
      | some e ↦ record kept {
        state = JobState.error;
        job_error = some (stage_failure e);
        stages = fill failed not_reached stages;
        audit = false ∷ [];
      }
      | none ↦ record kept { state = JobState.done; stages = stages; audit = true ∷ [] }
    ]

unfoldable pub new_progress : Bool → Progress
new_progress asked = record {
  asked = asked;
  bytes_done = 0;
  exit = none;
  output_tail = [];
  truncated = false;
  fail_msg = none;
  cancelled = false;
  audit = [];
}

-- `_abort`: the transport could not be made.
unfoldable pub abort : String → Job → Job
unfolding fill
abort text job = record job {
  state = JobState.error;
  job_error = some (no_transport text);
  stages = fill failed not_deployed job.stages;
  audit = false ∷ [];
}

-- `_run`: `asked` tells whether `cancel` came before the run began; the transport's error, if any, and the
-- turns of the stages.
unfoldable pub run : Plan → Bool → Option String → (ℕ → Turn) → Job → Job
unfolding run_stages finish new_progress abort
run plan asked (some text) turns job = abort text job
run plan asked none turns job =
    let (stages, p) = run_stages plan turns 0 job.stages (new_progress asked) in finish stages p job

-- ===== src/Deploy.antt =====
-- `DeployJobStore` of host/task/deployjob.py: the stages of a deployment and the course of one run. The
-- transport, the transfer store and the command store answer as the caller says (`Turn`); times, log
-- entries' texts and the polls of the two waits are not modelled.
mod Examples
pub mod Paths
pub mod Plans
pub mod Dests
pub mod Stages
pub mod Runs
pub mod Course
pub mod Ends
pub mod Registry
pub mod History
pub mod Listing
use rkcockpit.Common.{
  Bool, List, Option, String, [], false, none, not, some, str_eq, true, ℕ, ◌++◌, ◌∷◌,
}
use rkcockpit.Common.Int.{ℤ}

pub record File : Type 0 where
  pub src : String
  pub dest : String
  pub mode : String

pub record Plan : Type 0 where
  pub plan_id : String
  pub device_id : String
  pub files : List File
  pub cmd : String
  pub timeout : ℕ
  pub restart : Bool
  -- `_sizes`: each source with its size and the time of its last change
  pub sizes : List (String × (ℕ × ℕ))

pub data Name : Type 0 where
  upload chmod exec restart : Name

pub data StageState : Type 0 where
  pending running done skipped failed : StageState

-- The exceptions of the stages, by what they say.
pub data Error : Type 0 where
  cancelled_error : Error
  upload_failed : Error
  said : String → Error
  exec_failed : List ℕ → Error
  exec_timeout : ℕ → Error
  index_error : Error

-- The texts of `detail`.
pub data Detail : Type 0 where
  empty : Detail
  uploaded : ℕ → String → Detail
  mode_set : String → Detail
  exited : ℤ → Detail
  stub : Detail
  dropped : Detail
  error : Error → Detail
  taken_back : Detail
  not_reached : Detail
  not_deployed : Detail

pub record Stage : Type 0 where
  pub name : Name
  pub file : Option String
  pub state : StageState
  pub detail : Detail

-- `label dest` is `os.path.basename(dest.rstrip("/")) or dest`.
unfoldable pub file_stages : (String → String) → List File → List Stage
file_stages label [] = []
file_stages label (f ∷ files) =
    record { name = upload; file = some (label f.dest); state = pending; detail = empty }
    ∷ record { name = chmod; file = some (label f.dest); state = pending; detail = empty }
    ∷ file_stages label files

unfoldable pub one_stage : Bool → Name → List Stage
one_stage true name = record { name = name; file = none; state = pending; detail = empty } ∷ []
one_stage false name = []

unfoldable pub build_stages : (String → String) → Plan → List Stage
unfolding file_stages one_stage
build_stages label plan =
    file_stages label plan.files
    ++ (one_stage (not (str_eq plan.cmd "")) exec ++ one_stage plan.restart restart)

pub data TransferState : Type 0 where
  still_running finished cancelled : TransferState
  failed : Option String → TransferState

-- What `transport.chmod` does; `unsupported` is a TransportError that says so.
pub data Chmod : Type 0 where
  changed : Chmod
  unsupported : String → Chmod
  refused : Error → Chmod

-- The last poll of the command: not ended by the deadline, an error of the store, or the job's end.
pub data Poll : Type 0 where
  late : Poll
  store_error : Error → Poll
  ended : Option ℤ → List ℕ → Bool → Poll

-- What happens around one stage: whether `cancel` comes before it, as it begins, while it works and before
-- its handler runs, an error that the transfer store or the file system raises, how the wait for the upload ended,
-- and what the other two calls answered.
pub record Turn : Type 0 where
  pub before : Bool
  pub entering : Bool
  pub during : Bool
  pub after : Bool
  pub upload_error : Option Error
  pub transfer : TransferState
  pub transferred : ℕ
  pub chmod_answer : Chmod
  pub poll : Poll

-- What a run keeps: the `cancelled` and `bytes_done` of `prog`, the job's result, the first failure (the
-- stage and the error, or the exit code of `exec`), and the local `cancelled`.
pub data Failure : Type 0 where
  in_stage : Name → Error → Failure
  exit_code : ℤ → Failure

pub record Progress : Type 0 where
  pub asked : Bool
  pub bytes_done : ℕ
  pub exit : Option ℤ
  pub output_tail : List ℕ
  pub truncated : Bool
  pub fail_msg : Option Failure
  pub cancelled : Bool
  -- the entries of `_audit_stage`: the stage, whether it went well, and the exit code
  pub audit : List (Name × Bool × Option ℤ)

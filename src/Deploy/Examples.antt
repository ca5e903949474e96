-- ===== src/Deploy/Examples.antt =====
-- A plan of one file, its run and its listing, with texts that Python's `strip` leaves as they are.
use rkcockpit.Common.{
  All, List, Option, String, [], false, if◌then◌else◌, length, none, refl, some, str_eq, true, ℕ,
  ◌∷◌, ◌≡◌, ◌≤◌,
}
use rkcockpit.Common.Dict.{lookup, insert}
use rkcockpit.Common.Int.{pos}
use rkcockpit.Common.Result.{ok, raised}
use rkcockpit.Deploy.{Plan, Turn, finished, ended, unsupported}
use rkcockpit.Deploy.Runs.{Job, JobState, run}
use rkcockpit.Deploy.Ends.{IsSettled, IsOrdered, Agrees, run-Agrees}
use rkcockpit.Deploy.Plans.{RawFile, int, plan, dangerous_dest, check_dest, is_mode}
use rkcockpit.Deploy.Dests.{IsSafe, plan-IsSafe}
use rkcockpit.Deploy.Registry.{
  Store, empty_store, enter, keep_jobs, listed, new_job, run_ends, start, check_sizes,
  already_running,
}
use rkcockpit.Deploy.History.{IsDistinct}
use rkcockpit.Deploy.Listing.{Event, plans, starts, ends, run_events, LeadsIfOk, run-listed}

abbrev same : String → String
same s = s

abbrev base : String → String
base s = "app"

abbrev stat : String → Option (ℕ × ℕ)
stat s = if str_eq s "/src/app" then some (5, 1000) else none

abbrev asked : List RawFile
asked = record { src = "/src/app"; dest = "/opt/"; mode = "0755" } ∷ []

abbrev made : Plan
made = record {
  plan_id = "p1";
  device_id = "d1";
  files = record { src = "/src/app"; dest = "/opt/app"; mode = "0755" } ∷ [];
  cmd = "run";
  timeout = 60;
  restart = false;
  sizes = ("/src/app", (5, 1000)) ∷ [];
}

asked-made : plan same base stat "p1" "d1" asked "run" (int (pos 60)) false ≡ ok made
unfolding plan insert
asked-made = refl

outside : check_dest same base stat "/etc/passwd" ≡ raised (dangerous_dest "/etc/passwd")
unfolding check_dest
outside = refl

-- Dots lead out of a directory, and slashes and dots that say nothing go.
dots :
    (check_dest same base stat "/usr/bin/../../etc/passwd"
      ≡ raised (dangerous_dest "/usr/bin/../../etc/passwd"))
    × (check_dest same base stat "/opt//app/./x/../y" ≡ ok "/opt/app/y")
unfolding check_dest
dots = (refl, refl)

not_below : check_dest same base stat "/usr/bin2" ≡ raised (dangerous_dest "/usr/bin2")
unfolding check_dest
not_below = refl

modes :
    (is_mode "755" ≡ true)
    × (is_mode "0755" ≡ true)
    × (is_mode "1755" ≡ false)
    × (is_mode "78" ≡ false)
unfolding is_mode
modes = (refl, refl, refl, refl)

plan-IsSafe_example :
    (length made.files ≡ length asked)
    × (1 ≤ length made.files)
    × ((1 ≤ made.timeout) × (made.timeout ≤ 3600))
    × All (λ f. IsSafe f.dest) made.files
    × (check_sizes stat made.sizes ≡ none)
plan-IsSafe_example =
    plan-IsSafe same base stat "p1" "d1" asked "run" (int (pos 60)) false made asked-made

-- The upload ends well, the mode cannot be set there, and the command answers with the exit code 1.
abbrev turn : Turn
turn = record {
  before = false;
  entering = false;
  during = false;
  after = false;
  upload_error = none;
  transfer = finished;
  transferred = 5;
  chmod_answer = unsupported "no chmod here";
  poll = ended (some (pos 1)) (111 ∷ 107 ∷ []) false;
}

abbrev job : Job
job = new_job base made

run-Agrees_example :
    let j = run made false none (λ i. turn) job in
    (All IsSettled j.stages × IsOrdered j.stages) × Agrees j
unfolding new_job
run-Agrees_example = run-Agrees base made false none (λ i. turn) job refl refl

run-failed : (run made false none (λ i. turn) job).state ≡ JobState.error
unfolding run new_job
run-failed = refl

abbrev events : List Event
events = plans "p1" made ∷ starts "p1" none ∷ ends false none (λ i. turn) "p1" ∷ []

abbrev before : Store
before = run_events base (λ d. true) stat events empty_store

abbrev after : Store
after = enter base "p1" made before

again : start base (λ d. true) stat "p1" none before ≡ ok after
unfolding start run_events empty_store lookup run_ends insert run
again = refl

run-listed_example :
    (length before.history ≤ keep_jobs)
    × IsDistinct before.history
    × (length (listed before.jobs before.history) ≡ length before.history)
    × LeadsIfOk "p1" (start base (λ d. true) stat "p1" none before)
run-listed_example = run-listed base (λ d. true) stat events "p1" none

twice : start base (λ d. true) stat "p1" none after ≡ raised already_running
unfolding start run_events empty_store lookup run_ends insert
twice = refl

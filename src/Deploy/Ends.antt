-- ===== src/Deploy/Ends.antt =====
-- The end of every run of host/task/deployjob.py: the states of the stages and of the job agree.
use rkcockpit.Common.{
  All, All-append, All-mono, Bool, Bool-cases, List, Option, Option-cases, String, [], any, ap,
  false, inl, inr, is_nonempty, none, not, refl, some, str_eq, subst, sym, true, ℕ, ◌++◌, ◌||◌, ◌∙◌,
  ◌∷◌, ◌≡◌, ◌⊎◌,
}
use rkcockpit.Deploy.{
  File, Plan, StageState, skipped, failed, Stage, Turn, Progress, Failure, Detail, build_stages,
  file_stages, one_stage, Name, exec, restart, dropped, not_reached, not_deployed,
}
use rkcockpit.Deploy.Stages.{is_failed}
use rkcockpit.Deploy.Runs.{Job, JobState, run, finish, fill, fill_one, abort, new_progress}
use rkcockpit.Deploy.Course.{
  IsPending, IsPassed, Ended, complete, passed, broke, taken_back, stopped, run_stages-Ended,
}

-- Done, skipped or failed.
abbrev pub IsSettled : Stage → Type 0
IsSettled st = IsPassed st.state ⊎ (st.state ≡ failed)

abbrev IsNotDone : Stage → Type 0
IsNotDone st = (st.state ≡ failed) ⊎ (st.state ≡ skipped)

-- No stage is done after one that failed.
abbrev pub IsOrdered : List Stage → Type 0
IsOrdered [] = Unit
IsOrdered (st ∷ rest) = (IsPassed st.state ⊎ All IsNotDone rest) × IsOrdered rest

abbrev IsFiller : StageState → Type 0
IsFiller s = (s ≡ failed) ⊎ (s ≡ skipped)

not_done-Settled : (st : Stage) → IsNotDone st → IsSettled st
not_done-Settled st (inl e) = inr e
not_done-Settled st (inr e) = inl (inr e)

not_done-IsOrdered : (stages : List Stage) → All IsNotDone stages → IsOrdered stages
not_done-IsOrdered [] h = tt
not_done-IsOrdered (st ∷ stages) h = (inr h.1, not_done-IsOrdered stages h.1)

passed-IsOrdered : (stages : List Stage) → All (λ st. IsPassed st.state) stages → IsOrdered stages
passed-IsOrdered [] h = tt
passed-IsOrdered (st ∷ stages) h = (inl h.0, passed-IsOrdered stages h.1)

-- A stage that waits takes the new state, any other keeps its own.
fill-pending :
    (s : StageState) (d : Detail) (stages : List Stage)
    → IsFiller s
    → All IsPending stages
    → All IsNotDone (fill s d stages)
unfolding fill fill_one
fill-pending s d [] f h = tt
fill-pending s d (st ∷ stages) f h = rw h.0 (f, fill-pending s d stages f h.1)

fill-passed :
    (s : StageState) (d : Detail) (st : Stage) (rest : List Stage)
    → IsPassed st.state
    → fill s d (st ∷ rest) ≡ st ∷ fill s d rest
unfolding fill fill_one
fill-passed s d st rest (inl e) = ap (λ c. fill_one c s d st ∷ fill s d rest) e
fill-passed s d st rest (inr e) = ap (λ c. fill_one c s d st ∷ fill s d rest) e

fill-failed :
    (s : StageState) (d : Detail) (st : Stage) (rest : List Stage)
    → st.state ≡ failed
    → fill s d (st ∷ rest) ≡ st ∷ fill s d rest
unfolding fill fill_one
fill-failed s d st rest e = ap (λ c. fill_one c s d st ∷ fill s d rest) e

some≢none : (why : Failure) → ◌≡◌ {A = Option Failure} (some why) none → ⊥
some≢none why e = cc

true≢false : ◌≡◌ {A = Bool} true false → ⊥
true≢false e = cc

or-right : (a b : Bool) → b ≡ true → (a || b) ≡ true
or-right true b e = refl
or-right false b e = e

abbrev IsFine : List Stage → Type 0
IsFine stages = All IsSettled stages × IsOrdered stages

waiting-IsFine :
    (s : StageState) (d : Detail) (stages : List Stage)
    → IsFiller s
    → All IsPending stages
    → IsFine (fill s d stages)
waiting-IsFine s d stages f waits =
    let h = fill-pending s d stages f waits in
    (All-mono not_done-Settled (fill s d stages) h, not_done-IsOrdered (fill s d stages) h)

failed-IsFine :
    (s : StageState) (d : Detail) (st : Stage) (rest : List Stage)
    → IsFiller s
    → st.state ≡ failed
    → All IsPending rest
    → IsFine (fill s d (st ∷ rest))
failed-IsFine s d st rest f bad waits =
    let (settled, ordered) = waiting-IsFine s d rest f waits in
    subst IsFine (sym (fill-failed s d st rest bad))
      ((inr bad, settled), (inr (fill-pending s d rest f waits), ordered))

-- All that a run's end may leave, whatever fills the stages that were not reached.
Ended-IsFine :
    (p : Progress) (s : StageState) (d : Detail) (stages : List Stage)
    → IsFiller s
    → Ended p stages
    → IsFine (fill s d stages)
unfolding fill
Ended-IsFine p s d _ f (complete clean kept) = (tt, tt)
Ended-IsFine p s d (st ∷ rest) f (passed good e) =
    let (settled, ordered) = Ended-IsFine p s d rest f e in
    subst IsFine (sym (fill-passed s d st rest good)) ((inl good, settled), (inl good, ordered))
Ended-IsFine p s d (st ∷ rest) f (broke why bad says kept waits) =
    failed-IsFine s d st rest f bad waits
Ended-IsFine p s d (st ∷ rest) f (taken_back bad over waits) = failed-IsFine s d st rest f bad waits
Ended-IsFine p s d rest f (stopped over waits) = waiting-IsFine s d rest f waits

Ended-IsPassed :
    (p : Progress) (stages : List Stage)
    → Ended p stages
    → p.fail_msg ≡ none
    → p.cancelled ≡ false
    → All (λ st. IsPassed st.state) stages
Ended-IsPassed p _ (complete clean kept) n c = tt
Ended-IsPassed p (st ∷ rest) (passed good e) n c = (good, Ended-IsPassed p rest e n c)
Ended-IsPassed p (st ∷ rest) (broke why bad says kept waits) n c =
    absurd (some≢none why (sym says ∙ n))
Ended-IsPassed p (st ∷ rest) (taken_back bad over waits) n c = absurd (true≢false (sym over ∙ c))
Ended-IsPassed p rest (stopped over waits) n c = absurd (true≢false (sym over ∙ c))

abbrev pub has_failed : List Stage → Bool
has_failed stages = any (λ st. is_failed st.state) stages

Ended-has_failed :
    (p : Progress) (why : Failure) (d : Detail) (stages : List Stage)
    → Ended p stages
    → p.fail_msg ≡ some why
    → p.cancelled ≡ false
    → has_failed (fill failed d stages) ≡ true
unfolding is_failed
Ended-has_failed p why d _ (complete clean kept) n c = absurd (some≢none why (sym n ∙ clean))
Ended-has_failed p why d (st ∷ rest) (passed good e) n c =
    rw (fill-passed failed d st rest good) (or-right _ _ (Ended-has_failed p why d rest e n c))
Ended-has_failed p why d (st ∷ rest) (broke other bad says kept waits) n c =
    rw (fill-failed failed d st rest bad)
      (ap (λ s. is_failed s || has_failed (fill failed d rest)) bad)
Ended-has_failed p why d (st ∷ rest) (taken_back bad over waits) n c =
    absurd (true≢false (sym over ∙ c))
Ended-has_failed p why d rest (stopped over waits) n c = absurd (true≢false (sym over ∙ c))

-- What the end of a run says: the job is done and every stage passed, it failed and so did a stage, or
-- it was cancelled.
abbrev pub Agrees : Job → Type 0
Agrees j =
    ((j.state ≡ JobState.done) × (All (λ st. IsPassed st.state) j.stages))
    ⊎ ((j.state ≡ JobState.error) × (has_failed j.stages ≡ true))
    ⊎ (j.state ≡ JobState.cancelled)

finish-Agrees :
    (stages : List Stage) (p : Progress) (job : Job)
    → Ended p stages
    → IsFine (finish stages p job).stages × Agrees (finish stages p job)
unfolding finish
finish-Agrees stages p job e = elim (Bool-cases p.cancelled) [
  | inl over ↦
      rw (over, finish) (Ended-IsFine p skipped dropped stages (inr refl) e, inr (inr refl))
  | inr kept ↦ elim (Option-cases p.fail_msg) [
    | inl clean ↦
        let good = Ended-IsPassed p stages e clean kept in
        rw (kept, clean, finish)
          ((All-mono (λ st g. inl g) stages good, passed-IsOrdered stages good), inl (refl, good))
    | inr (why, says) ↦
        rw (kept, says, finish)
          (
            Ended-IsFine p failed not_reached stages (inl refl) e,
            inr (inl (refl, Ended-has_failed p why not_reached stages e says kept)),
          )
  ]
]

file_stages-IsPending :
    (label : String → String) (files : List File) → All IsPending (file_stages label files)
unfolding file_stages
file_stages-IsPending label [] = tt
file_stages-IsPending label (f ∷ files) = (refl, (refl, file_stages-IsPending label files))

one_stage-IsPending : (b : Bool) (name : Name) → All IsPending (one_stage b name)
unfolding one_stage
one_stage-IsPending true name = (refl, tt)
one_stage-IsPending false name = tt

build_stages-IsPending :
    (label : String → String) (plan : Plan) → All IsPending (build_stages label plan)
unfolding build_stages
build_stages-IsPending label plan =
    All-append IsPending (file_stages label plan.files) _ (file_stages-IsPending label plan.files) (
      All-append IsPending (one_stage (not (str_eq plan.cmd "")) exec)
        (one_stage plan.restart restart) (one_stage-IsPending _ exec)
        (one_stage-IsPending plan.restart restart))

build_stages-fill :
    (label : String → String) (plan : Plan) (d : Detail)
    → is_nonempty plan.files ≡ true
    → has_failed (fill failed d (build_stages label plan)) ≡ true
unfolding build_stages fill fill_one file_stages is_failed
build_stages-fill label plan d h = first plan.files _ h
  where
    first :
        (files : List File) (rest : List Stage)
        → is_nonempty files ≡ true
        → has_failed (fill failed d (file_stages label files ++ rest)) ≡ true
    first [] rest h = absurd (true≢false (sym h))
    first (f ∷ files) rest h = refl

new_progress-clean :
    (asked : Bool)
    → ((new_progress asked).fail_msg ≡ none) × ((new_progress asked).cancelled ≡ false)
unfolding new_progress
new_progress-clean asked = (refl, refl)

-- Any run of a plan with files, whatever the transport, the stores and `cancel` do, ends with every stage
-- done, skipped or failed and none done after a failed one. It is done with every stage done or skipped,
-- or an error with a failed stage, or cancelled.
pub run-Agrees :
    (label : String → String) (plan : Plan) (asked : Bool) (trouble : Option String)
    (turns : ℕ → Turn) (job : Job)
    → is_nonempty plan.files ≡ true
    → job.stages ≡ build_stages label plan
    → let j = run plan asked trouble turns job in
      (All IsSettled j.stages × IsOrdered j.stages) × Agrees j
unfolding run abort
run-Agrees label plan asked (some text) turns job full e =
    let waits = subst (All IsPending) (sym e) (build_stages-IsPending label plan) in
    (
      waiting-IsFine failed not_deployed job.stages (inl refl) waits,
      inr (
          inl (
            refl,
            ap (λ s. has_failed (fill failed not_deployed s)) e
                ∙ build_stages-fill label plan not_deployed full,
          )),
    )
run-Agrees label plan asked none turns job full e =
    let waits = subst (All IsPending) (sym e) (build_stages-IsPending label plan) in
    finish-Agrees _ _ job (
      run_stages-Ended plan turns 0 job.stages (new_progress asked) waits
        (new_progress-clean asked))

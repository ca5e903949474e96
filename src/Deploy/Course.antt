-- ===== src/Deploy/Course.antt =====
-- The states of the stages after a run of host/task/deployjob.py, whatever the devices answer.
use rkcockpit.Common.{
  All, Bool-cases, List, Option, [], ap, false, get_elem?, if◌then◌else◌, inl, inr, none, not, refl,
  some, subst, sym, true, ℕ, ◌&&◌, ◌+◌, ◌-◌, ◌/◌, ◌||◌, ◌∷◌, ◌≡◌, ◌⊎◌,
}
use rkcockpit.Common.Result.{Result, ok, raised, ◌>>=◌}
use rkcockpit.Deploy.{
  File, Plan, Chmod, changed, unsupported, refused, Poll, late, store_error, ended, upload, chmod,
  exec, restart, uploaded, exit_code, StageState, pending, done, skipped, failed, Name, Error,
  Stage, Turn, Progress, Failure, in_stage,
}
use rkcockpit.Deploy.Stages.{
  run_stages, run_stage, settle, work, upload_stage, chmod_stage, exec_stage, is_failed, log_stage,
  Work, upload_file, run_exec, is_zero,
}

abbrev pub IsPending : Stage → Type 0
IsPending st = st.state ≡ pending

-- A stage that let the next one run.
abbrev pub IsPassed : StageState → Type 0
IsPassed s = (s ≡ done) ⊎ (s ≡ skipped)

-- How the loop ends, for the stages and for what the run keeps.
pub data Ended (p : Progress) : List Stage → Type 0 where
  complete : p.fail_msg ≡ none → p.cancelled ≡ false → Ended p []
  passed : {st : Stage} {rest : List Stage} → IsPassed st.state → Ended p rest → Ended p (st ∷ rest)
  broke :
      {st : Stage} {rest : List Stage} (e : Failure)
      → st.state ≡ failed
      → p.fail_msg ≡ some e
      → p.cancelled ≡ false
      → All IsPending rest
      → Ended p (st ∷ rest)
  taken_back :
      {st : Stage} {rest : List Stage}
      → st.state ≡ failed
      → p.cancelled ≡ true
      → All IsPending rest
      → Ended p (st ∷ rest)
  stopped : {rest : List Stage} → p.cancelled ≡ true → All IsPending rest → Ended p rest

-- What one stage leaves, when the run was not asked to stop before it: it passed, it broke the run, or it
-- was taken back.
abbrev IsOver : Stage → Progress → Type 0
IsOver st p =
    (IsPassed st.state × (p.fail_msg ≡ none) × (p.cancelled ≡ false))
    ⊎ ((st.state ≡ failed) × ((e : Failure) × (p.fail_msg ≡ some e)) × (p.cancelled ≡ false))
    ⊎ ((st.state ≡ failed) × (p.cancelled ≡ true) × (p.asked ≡ true))

abbrev IsRunnable : Progress → Type 0
IsRunnable p = (p.fail_msg ≡ none) × (p.cancelled ≡ false)

-- What the work of a stage may leave when it raises nothing.
abbrev IsWork : Result Error Work → Type 0
IsWork (raised e) = Unit
IsWork (ok (state, detail, q, rc)) =
    (q.cancelled ≡ false)
    × ((IsPassed state × (q.fail_msg ≡ none))
        ⊎ ((state ≡ failed) × ((e : Failure) × (q.fail_msg ≡ some e))))

uploaded-IsWork :
    (f : File) (p : Progress) (r : Result Error ℕ)
    → IsRunnable p
    → IsWork
        (r >>= λ n. ok (done, uploaded n f.dest, record p { bytes_done = p.bytes_done + n }, none))
uploaded-IsWork f p (ok n) h = (h.1, inl (inl refl, h.0))
uploaded-IsWork f p (raised e) h = tt

upload_stage-IsWork :
    (f : Option File) (t : Turn) (p : Progress) → IsRunnable p → IsWork (upload_stage f t p)
unfolding upload_stage
upload_stage-IsWork none t p h = tt
upload_stage-IsWork (some f) t p h = uploaded-IsWork f p (upload_file t.entering t) h

chmod_stage-IsWork :
    (f : Option File) (answer : Chmod) (p : Progress)
    → IsRunnable p
    → IsWork (chmod_stage f answer p)
unfolding chmod_stage
chmod_stage-IsWork none answer p h = tt
chmod_stage-IsWork (some f) changed p h = (h.1, inl (inl refl, h.0))
chmod_stage-IsWork (some f) (unsupported text) p h = (h.1, inl (inr refl, h.0))
chmod_stage-IsWork (some f) (refused e) p h = tt

exec_stage-IsWork :
    (timeout : ℕ) (answer : Poll) (p : Progress)
    → IsRunnable p
    → IsWork (exec_stage timeout answer p)
unfolding exec_stage run_exec
exec_stage-IsWork timeout late p h = tt
exec_stage-IsWork timeout (store_error e) p h = tt
exec_stage-IsWork timeout (ended none out cut) p h = tt
exec_stage-IsWork timeout (ended (some rc) out cut) p h = elim (Bool-cases (is_zero rc)) [
  | inl zero_ ↦ rw zero_ (h.1, inl (inl refl, h.0))
  | inr other ↦ rw other (h.1, inr (refl, (exit_code rc, refl)))
]

work-IsWork :
    (plan : Plan) (i : ℕ) (name : Name) (t : Turn) (p : Progress)
    → IsRunnable p
    → IsWork (work plan i name t p)
unfolding work
work-IsWork plan i upload t p h = upload_stage-IsWork (get_elem? plan.files (i / 2)) t p h
work-IsWork plan i chmod t p h =
    chmod_stage-IsWork (get_elem? plan.files ((i - 1) / 2)) t.chmod_answer p h
work-IsWork plan i exec t p h = exec_stage-IsWork plan.timeout t.poll p h
work-IsWork plan i restart t p h = (h.1, inl (inr refl, h.0))

settle-IsOver :
    (st : Stage) (t : Turn) (p : Progress) (r : Result Error Work)
    → IsRunnable p
    → IsWork r
    → let (ran, q) = settle st t p r in IsOver ran q
unfolding settle log_stage
settle-IsOver st t p (ok (state, detail, q, rc)) h (kept, inl (good, clean)) =
    inl (good, clean, kept)
settle-IsOver st t p (ok (state, detail, q, rc)) h (kept, inr (bad, why)) =
    inr (inl (bad, why, kept))
settle-IsOver st t p (raised e) h w = elim (Bool-cases (t.entering || t.during || t.after)) [
  | inl asked ↦ rw asked (inr (inr (refl, refl, refl)))
  | inr going ↦ rw going (inr (inl (refl, (in_stage st.name e, refl), h.1)))
]

run_stages-asked :
    (plan : Plan) (turns : ℕ → Turn) (i : ℕ) (stages : List Stage) (p : Progress)
    → p.asked ≡ true
    → p.cancelled ≡ true
    → let (rest, q) = run_stages plan turns i stages p in (rest ≡ stages) × (q.cancelled ≡ true)
unfolding run_stages
run_stages-asked plan turns i [] p a c = (refl, c)
run_stages-asked plan turns i (st ∷ stages) p a c = rw a (refl, refl)

-- The loop after one stage that was run, given how the rest of it ends.
next-Ended :
    (ran : Stage) (q r : Progress) (stages rest : List Stage)
    → All IsPending stages
    → IsOver ran q
    → (IsRunnable q → Ended r rest)
    → (q.asked ≡ true → q.cancelled ≡ true → (rest ≡ stages) × (r.cancelled ≡ true))
    → let (all_ran, last) =
        if◌then◌else◌ {A = List Stage × Progress}
          (is_failed ran.state && not q.cancelled)
          (ran ∷ stages, q)
          (ran ∷ rest, r) in
      Ended last all_ran
unfolding is_failed
next-Ended ran q r stages rest all (inl (inl e, clean, kept)) go stop =
    rw (ap is_failed e) (passed (inl e) (go (clean, kept)))
next-Ended ran q r stages rest all (inl (inr e, clean, kept)) go stop =
    rw (ap is_failed e) (passed (inr e) (go (clean, kept)))
next-Ended ran q r stages rest all (inr (inl (e, (why, says), kept))) go stop =
    rw (ap is_failed e, ap not kept) (broke why e says kept all)
next-Ended ran q r stages rest all (inr (inr (e, c, a))) go stop =
    let (same, over) = stop a c in
    rw (ap is_failed e, ap not c) (taken_back e over (subst (All IsPending) (sym same) all))

pub run_stages-Ended :
    (plan : Plan) (turns : ℕ → Turn) (i : ℕ) (stages : List Stage) (p : Progress)
    → All IsPending stages
    → IsRunnable p
    → let (ran, q) = run_stages plan turns i stages p in Ended q ran
unfolding run_stages run_stage
run_stages-Ended plan turns i [] p all h = complete h.0 h.1
run_stages-Ended plan turns i (st ∷ stages) p all h =
    let q = (run_stage plan i st (turns i) p).1 in
    let over = settle-IsOver st (turns i) p _ h (work-IsWork plan i st.name (turns i) p h) in
    let go = run_stages-Ended plan turns (i + 1) stages q all.1 in
    elim (Bool-cases (p.asked || (turns i).before)) [
      | inl asked ↦ rw asked (stopped refl all)
      | inr going ↦
          rw going
            (next-Ended _ q _ stages _ all.1 over go (run_stages-asked plan turns (i + 1) stages q))
    ]

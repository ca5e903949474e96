-- ===== src/ExecJob/Slots.antt =====
-- The slots and the jobs of host/task/execjob.py under any order of the calls and threads. The
-- semaphore is shared by the stores of all devices: `elsewhere` are the slots that others hold.
use rkcockpit.Common.{
  All, All-append, Bool, List, Option, String, [], any, arith, count, count-append, false, filter,
  if◌then◌else◌, length, length-append, not, refl, true, ℕ, ◌++◌, ◌+◌, ◌-◌, ◌<◌, ◌==◌, ◌↔◌, ◌∷◌,
  ◌≡◌, ◌≤◌,
}
use rkcockpit.Common.Int.{ℤ}
use rkcockpit.OutputBuffer.{Utf8}
use rkcockpit.ExecJob.{
  Job, Store, Admission, admitted, refused, admit, keeps, new_store, new_job, change, ended, opened,
  open_failed, has_read, release_slot, close, max_concurrent, max_jobs, QueueFull, is_clean,
}

pub record System : Type 0 where
  pub free : ℕ
  pub elsewhere : ℕ
  pub store : Store

pub data Event : Type 0 where
  start : ℕ → String → Option ℤ → Event
  open_fails : ℕ → (id : ℕ) → List ℕ → Event
  opens : (id : ℕ) → Event
  reads : (id : ℕ) → List ℕ → Event
  ends : ℕ → (id : ℕ) → Option ℤ → Event
  closes : Event
  other_takes other_returns : Event

abbrev pub initial : System
initial = record { free = max_concurrent; elsewhere = 0; store = new_store }

abbrev pub after_admit : Admission → System → System
after_admit (admitted _ free store) s = record s { free = free; store = store }
after_admit (refused _ free store) s = record s { free = free; store = store }

abbrev pub after_change : (Job → Job × ℕ) → ℕ → System → System
after_change f id s =
    let (jobs, n) = change f id s.store.jobs in
    record s { free = s.free + n; store = record s.store { jobs = jobs } }

abbrev pub is_running : Job → Bool
is_running j = j.running

abbrev pub holds_slot : Job → Bool
holds_slot j = not j.slot_released

-- A job holds its slot exactly while it runs.
abbrev pub IsPaired : Job → Type 0
IsPaired j = j.running ≡ not j.slot_released

module _ (u : Utf8) where
  unfoldable pub step : Event → System → System
  unfolding admit change ended opened open_failed has_read close
  step (start now cmd timeout) s = after_admit (admit now s.free cmd timeout s.store) s
  step (open_fails now id message) s = after_change (open_failed u now message) id s
  step (opens id) s = after_change opened id s
  step (reads id chunk) s = after_change (has_read u chunk) id s
  step (ends now id code) s = after_change (ended now code) id s
  step closes s = record s { store = (close s.store).1 }
  step other_takes s =
      if s.free == 0 then s else record s { free = s.free - 1; elsewhere = s.elsewhere + 1 }
  step other_returns s =
      if s.elsewhere == 0 then s else record s { free = s.free + 1; elsewhere = s.elsewhere - 1 }

  unfoldable pub run : List Event → System → System
  unfolding step
  run [] s = s
  run (e ∷ events) s = run events (step e s)

pub record IsSound (s : System) : Type 0 where
  pub slots : s.free + s.elsewhere + count holds_slot s.store.jobs ≡ max_concurrent
  pub paired : All IsPaired s.store.jobs
  pub bounded : length s.store.jobs ≤ max_jobs

kept-slots :
    (now : ℕ) (js : List Job)
    → All IsPaired js
    → (count holds_slot (filter (keeps now) js) ≡ count holds_slot js)
      × All IsPaired (filter (keeps now) js)
      × (length (filter (keeps now) js) ≤ length js)
unfolding keeps
kept-slots now [] h = (refl, tt, omega arith)
kept-slots now (j ∷ js) (p, h) = ground (arith, kept-slots now js h)

count_running : (js : List Job) → All IsPaired js → count is_running js ≡ count holds_slot js
count_running [] h = refl
count_running (j ∷ js) (p, h) = ground (arith, count_running js h)

-- A stretch of a thread that gives back the slot that the job held, if it ends the job.
pub record Gives (f : Job → Job × ℕ) : Type 0 where
  pub gives :
      (j : Job) → IsPaired j → (f j).1 + count holds_slot ((f j).0 ∷ []) ≡ count holds_slot (j ∷ [])
  pub pairs : (j : Job) → IsPaired j → IsPaired (f j).0

change-slots :
    (f : Job → Job × ℕ) (id : ℕ) (js : List Job)
    → Gives f
    → All IsPaired js
    → ((change f id js).1 + count holds_slot (change f id js).0 ≡ count holds_slot js)
      × All IsPaired (change f id js).0
      × (length (change f id js).0 ≡ length js)
unfolding change
change-slots f id [] g h = (refl, tt, refl)
change-slots f id (j ∷ js) g (p, h) =
    ground (arith, change-slots f id js g h, g.gives j p, g.pairs j p)

admit-IsSound :
    (now : ℕ) (cmd : String) (timeout : Option ℤ) (s : System)
    → IsSound s
    → IsSound (after_admit (admit now s.free cmd timeout s.store) s)
unfolding admit
admit-IsSound now cmd timeout s h =
    let kept = filter (keeps now) s.store.jobs in
    let job = new_job now (s.store.seq + 1) cmd timeout in
    let (slots, paired, le) = kept-slots now s.store.jobs h.paired in
    ground (
      arith,
      h.slots,
      h.paired,
      h.bounded,
      slots,
      paired,
      le,
      count-append holds_slot kept (job ∷ []),
      length-append kept (job ∷ []),
      All-append IsPaired kept (job ∷ []) paired (refl, tt),
    )

change-IsSound :
    (f : Job → Job × ℕ) (id : ℕ) (s : System) → Gives f → IsSound s → IsSound (after_change f id s)
change-IsSound f id s g h =
    let (slots, paired, same) = change-slots f id s.store.jobs g h.paired in
    record {
      slots = omega (arith, h.slots, slots);
      paired = paired;
      bounded = omega (arith, h.bounded, same);
    }

module _ (u : Utf8) where
  opened-Gives : Gives opened
  unfolding opened
  opened-Gives = record { gives = λ j p. omega arith; pairs = λ j p. p }

  has_read-Gives : (chunk : List ℕ) → Gives (has_read u chunk)
  unfolding has_read
  has_read-Gives chunk = record { gives = λ j p. omega arith; pairs = λ j p. p }

  ended-Gives : (now : ℕ) (code : Option ℤ) → Gives (ended now code)
  unfolding ended release_slot
  ended-Gives now code = record { gives = λ j p. ground arith; pairs = λ j p. ground arith }

  open_failed-Gives : (now : ℕ) (message : List ℕ) → Gives (open_failed u now message)
  unfolding open_failed release_slot
  open_failed-Gives now message = record {
    gives = λ j p. ground arith;
    pairs = λ j p. ground arith;
  }

  step-IsSound : (e : Event) (s : System) → IsSound s → IsSound (step u e s)
  unfolding step close
  step-IsSound (start now cmd timeout) s h = admit-IsSound now cmd timeout s h
  step-IsSound (open_fails now id message) s h =
      change-IsSound _ id s (open_failed-Gives now message) h
  step-IsSound (opens id) s h = change-IsSound _ id s opened-Gives h
  step-IsSound (reads id chunk) s h = change-IsSound _ id s (has_read-Gives chunk) h
  step-IsSound (ends now id code) s h = change-IsSound _ id s (ended-Gives now code) h
  step-IsSound closes s h = record { slots = h.slots; paired = h.paired; bounded = h.bounded }
  step-IsSound other_takes s h = ground (arith, h.slots, h.paired, h.bounded)
  step-IsSound other_returns s h = ground (arith, h.slots, h.paired, h.bounded)

  run-IsSound : (events : List Event) (s : System) → IsSound s → IsSound (run u events s)
  unfolding run
  run-IsSound [] s h = h
  run-IsSound (e ∷ events) s h = run-IsSound events (step u e s) (step-IsSound e s h)

  initial-IsSound : IsSound initial
  initial-IsSound = record { slots = refl; paired = tt; bounded = omega arith }

  -- From a new store with all slots free, after any sequence of calls of `run` and `close`, of
  -- stretches of the jobs' threads (in any order, also repeated) and of slots that others take and
  -- return: the free slots, those of others and the running jobs are eight together, and the store
  -- has at most a hundred jobs.
  pub run-slots :
      (events : List Event)
      → let s = run u events initial in
        (s.free + s.elsewhere + count is_running s.store.jobs ≡ max_concurrent)
        × (length s.store.jobs ≤ max_jobs)
  run-slots events =
      let s = run u events initial in
      let h = run-IsSound events initial initial-IsSound in
      (omega (arith, h.slots, count_running s.store.jobs h.paired), h.bounded)

-- `run` admits a command exactly when a slot is free, the store is open, and it keeps fewer than a
-- hundred jobs after the pruning. The new job then takes one slot and is added, with the next id, to
-- the jobs that are kept. A refused call leaves as many slots free as before.
admit_iff :
    (now free : ℕ) (cmd : String) (timeout : Option ℤ) (s : Store)
    → let kept = filter (keeps now) s.jobs in
      let job = new_job now (s.seq + 1) cmd timeout in
      (((0 < free) × (s.closed ≡ false) × (length kept < max_jobs)) ↔ (
        admit now free cmd timeout s
        ≡ admitted job (free - 1) (record s { jobs = kept ++ job ∷ []; seq = s.seq + 1 })))
      × ((why : QueueFull) (left : ℕ) (t : Store)
          → admit now free cmd timeout s ≡ refused why left t
          → left ≡ free)
unfolding admit
admit_iff now free cmd timeout s = (
  (λ h. ground arith, λ h. (ground arith, ground arith, ground arith)),
  λ why left t e. ground arith,
)

kept-running :
    (now : ℕ) (js : List Job) → count is_running (filter (keeps now) js) ≡ count is_running js
unfolding keeps
kept-running now [] = refl
kept-running now (j ∷ js) = ground (arith, kept-running now js)

is_clean_iff : (s : Store) → (is_clean s ≡ true) ↔ (count is_running s.jobs ≡ 0)
unfolding is_clean
is_clean_iff s = none_runs s.jobs
  where
    none_runs : (js : List Job) → (not (any (λ j. j.running) js) ≡ true) ↔ (count is_running js ≡ 0)
    none_runs [] = (λ e. refl, λ e. refl)
    none_runs (j ∷ js) = ground (arith, none_runs js)

-- A stretch of a thread starts no job.
abbrev Ends : (Job → Job × ℕ) → Type 0
Ends f = (j : Job) → (f j).0.running ≡ true → j.running ≡ true

change-running :
    (f : Job → Job × ℕ) (id : ℕ) (js : List Job)
    → Ends f
    → count is_running (change f id js).0 ≤ count is_running js
unfolding change
change-running f id [] h = omega arith
change-running f id (j ∷ js) h = ground (arith, change-running f id js h, h j)

module _ (u : Utf8) where
  step-drains :
      (e : Event) (s : System)
      → s.store.closed ≡ true
      → ((step u e s).store.closed ≡ true)
        × (count is_running (step u e s).store.jobs ≤ count is_running s.store.jobs)
  unfolding step admit close
  step-drains (start now cmd timeout) s h = ground (arith, h, kept-running now s.store.jobs)
  step-drains (open_fails now id message) s h =
      (h, change-running _ id s.store.jobs (λ j. ground arith))
  step-drains (opens id) s h = (h, change-running _ id s.store.jobs (λ j. ground arith))
  step-drains (reads id chunk) s h = (h, change-running _ id s.store.jobs (λ j. ground arith))
  step-drains (ends now id code) s h = (h, change-running _ id s.store.jobs (λ j. ground arith))
  step-drains closes s h = (refl, omega arith)
  step-drains other_takes s h = ground (arith, h)
  step-drains other_returns s h = ground (arith, h)

  -- After `close`, whatever follows, the store stays closed and never has more running jobs than it
  -- had then, and it is clean exactly when none is left.
  pub close-drains :
      (events : List Event) (s : System)
      → s.store.closed ≡ true
      → let t = run u events s in
        (t.store.closed ≡ true)
        × (count is_running t.store.jobs ≤ count is_running s.store.jobs)
        × ((is_clean t.store ≡ true) ↔ (count is_running t.store.jobs ≡ 0))
  unfolding run
  close-drains [] s h = (h, omega arith, is_clean_iff s.store)
  close-drains (e ∷ events) s h =
      let (closed, le) = step-drains e s h in
      let (closed', le', clean) = close-drains events (step u e s) closed in
      (closed', omega (arith, le, le'), clean)

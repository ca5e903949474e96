-- ===== src/Transfer/Lifecycle.antt =====
-- Transfers of host/task/transfer.py under any order of the calls and of the jobs' threads.
use rkcockpit.Common.{
  All, All-append, All-filter, All-mono, Bool, Bool-cases, List, Option-cases, String, [], ap,
  arith, count, count-append, false, filter, inl, inr, leb, leb→lt, length, length-drop,
  length-filter-le, map, not, refl, some, subst, sym, true, ℕ, ◌++◌, ◌+◌, ◌-◌, ◌<◌, ◌==◌, ◌∙◌, ◌∷◌,
  ◌≡◌, ◌≤◌, ◌⊎◌,
}
use rkcockpit.Transfer.{
  Job, Store, Request, is_running, is_live, keeps, without, remove, newest, trim, new_job,
  new_store, id_of, max_keep, max_running, Submission, submitted, refused, hand_over, after_trim,
  submit, closing, too_many_running, change, returned, has_raised, settle, cancel, close_job, close,
  read, write, find,
}
use rkcockpit.Transfer.Registry.{
  IsGrowing, IsGrowing-filter, IsGrowing-snoc, ids-snoc, remove-without, trim-newest,
}
use rkcockpit.Transfer.Jobs.{
  or_same, IsSound, IsSettled, returned-IsTame, has_raised-IsTame, cancel_job-IsTame,
  close_job-IsTame, read-IsTame, write-IsTame, settled-IsTame, All-drop, count-drop-le,
  count-filter-le, ids-filter, ids-drop, same_ids-IsSound, change-IsSound, map-ids, map-live,
  map-IsSettled,
}

pub data Event : Type 0 where
  submits : ℕ → Bool → Request → Event
  returns : (id : ℕ) → Event
  raises : (id : ℕ) → String → Event
  settles : ℕ → (id : ℕ) → Event
  cancels : ℕ → (id : ℕ) → Event
  closes : ℕ → (ℕ → Bool) → Event
  reads writes : ℕ → ℕ → (id : ℕ) → Event

abbrev pub after_submit : Submission → Store
after_submit (submitted _ s) = s
after_submit (refused _ s) = s

abbrev pub change_store : (Job → Job) → ℕ → Store → Store
change_store f id s = record s { jobs = change f id s.jobs }

unfoldable pub step : Event → Store → Store
unfolding submit change returned has_raised settle cancel close read write
step (submits now accepted request) s = after_submit (submit now accepted request s)
step (returns id) s = change_store returned id s
step (raises id message) s = change_store (has_raised message) id s
step (settles now id) s = settle now id s
step (cancels now id) s = or_same s (cancel now id s)
step (closes now revoked) s = close now revoked s
step (reads now n id) s = change_store (λ j. or_same j (read now n j)) id s
step (writes now n id) s = change_store (λ j. or_same j (write now n j)) id s

unfoldable pub run : List Event → Store → Store
unfolding step
run [] s = s
run (e ∷ events) s = run events (step e s)

-- The jobs that a submit leaves: the newest of those that it keeps, with the new one.
abbrev listed_jobs : ℕ → Request → Store → List Job
listed_jobs now request s = s.jobs ++ new_job now (s.seq + 1) request ∷ []

abbrev left_jobs : ℕ → Request → Store → List Job
left_jobs now request s = newest (filter (keeps now) (listed_jobs now request s))

listed_store : ℕ → Request → Store → Store
listed_store now request s = record s {
  seq = s.seq + 1;
  jobs = listed_jobs now request s;
  order = s.order ++ (s.seq + 1) ∷ [];
}

All-mono_le : (n : ℕ) (ids : List ℕ) → All (λ i. i ≤ n) ids → All (λ i. i < n + 1) ids
All-mono_le n [] h = tt
All-mono_le n (i ∷ ids) (le, h) = (omega arith, All-mono_le n ids h)

listed-IsGrowing :
    (now : ℕ) (request : Request) (s : Store) → IsSound s → IsGrowing 0 (listed_jobs now request s)
listed-IsGrowing now request s h =
    IsGrowing-snoc 0 s.jobs (new_job now (s.seq + 1) request) h.growing (omega arith)
      (All-mono_le s.seq (map id_of s.jobs) h.below)

-- The trim in a submit.
submit_trim :
    (now : ℕ) (request : Request) (s : Store)
    → IsSound s
    → (trim now (listed_store now request s)
        ≡ some (record (listed_store now request s) {
          jobs = left_jobs now request s;
          order = map id_of (left_jobs now request s);
        }))
      × IsGrowing 0 (left_jobs now request s)
unfolding listed_store
submit_trim now request s h = trim-newest now (listed_store now request s) (record {
  listed =
      ap (λ ids. ids ++ (s.seq + 1) ∷ []) h.listed
      ∙ sym (ids-snoc s.jobs (new_job now (s.seq + 1) request));
  growing = listed-IsGrowing now request s h;
})

ids-below :
    (now : ℕ) (request : Request) (s : Store)
    → IsSound s
    → All (λ i. i ≤ s.seq + 1) (map id_of (listed_jobs now request s))
ids-below now request s h =
    subst (All (λ i. i ≤ s.seq + 1)) (sym (ids-snoc s.jobs (new_job now (s.seq + 1) request))) (
      All-append (λ i. i ≤ s.seq + 1) (map id_of s.jobs) ((s.seq + 1) ∷ [])
        (All-mono (λ i le. omega arith) (map id_of s.jobs) h.below) (omega arith, tt))

left-IsSound :
    (now : ℕ) (request : Request) (s : Store)
    → IsSound s
    → count is_live s.jobs < max_running
    → IsSound (record (listed_store now request s) {
      jobs = left_jobs now request s;
      order = map id_of (left_jobs now request s);
    })
unfolding listed_store is_running
left-IsSound now request s h room =
    let job = new_job now (s.seq + 1) request in
    let listed = listed_jobs now request s in
    let kept = filter (keeps now) listed in
    let n = length kept - max_keep in
    record {
      listed = refl;
      growing = (submit_trim now request s h).1;
      below =
          ids-drop (λ i. i ≤ s.seq + 1) n kept
            (ids-filter (λ i. i ≤ s.seq + 1) (keeps now) listed (ids-below now request s h));
      bounded = omega (arith, length-drop n kept);
      live = omega (
        arith,
        room,
        count-drop-le is_live n kept,
        count-filter-le is_live (keeps now) listed,
        count-append is_live s.jobs (job ∷ []),
      );
      settled = All-drop IsSettled n kept (
          All-filter IsSettled (keeps now) listed
            (All-append IsSettled s.jobs (job ∷ []) h.settled (tt, tt)));
    }

hand_over-IsSound :
    (accepted : Bool) (j : Job) (s : Store)
    → IsSound s
    → IsSound (after_submit (hand_over accepted j s))
unfolding hand_over without
hand_over-IsSound true j s h = record {
  listed = h.listed;
  growing = h.growing;
  below = h.below;
  bounded = h.bounded;
  live = h.live;
  settled = h.settled;
}
hand_over-IsSound false j s h =
    let p : Job → Bool = λ k. not (k.id == j.id) in
    record {
      listed = ap (remove j.id) h.listed ∙ remove-without j.id 0 s.jobs h.growing;
      growing = IsGrowing-filter p 0 s.jobs h.growing;
      below = ids-filter (λ i. i ≤ s.seq) p s.jobs h.below;
      bounded = omega (arith, h.bounded, length-filter-le p s.jobs);
      live = omega (arith, h.live, count-filter-le is_live p s.jobs);
      settled = All-filter IsSettled p s.jobs h.settled;
    }

submit-closed :
    (now : ℕ) (accepted : Bool) (request : Request) (s : Store)
    → s.closed ≡ true
    → submit now accepted request s ≡ refused closing s
unfolding submit
submit-closed now accepted request s shut = ground arith

submit-full :
    (now : ℕ) (accepted : Bool) (request : Request) (s : Store)
    → s.closed ≡ false
    → leb max_running (count is_live s.jobs) ≡ true
    → submit now accepted request s ≡ refused too_many_running s
unfolding submit
submit-full now accepted request s free full = ground arith

submit-room :
    (now : ℕ) (accepted : Bool) (request : Request) (s : Store)
    → IsSound s
    → s.closed ≡ false
    → leb max_running (count is_live s.jobs) ≡ false
    → submit now accepted request s
      ≡ hand_over accepted (new_job now (s.seq + 1) request) (record (listed_store now request s) {
        jobs = left_jobs now request s;
        order = map id_of (left_jobs now request s);
      })
unfolding submit listed_store
submit-room now accepted request s h free room =
    simp (free, room) refl
    ∙ ap (after_trim accepted (new_job now (s.seq + 1) request) (listed_store now request s))
        (submit_trim now request s h).0

submit-IsSound :
    (now : ℕ) (accepted : Bool) (request : Request) (s : Store)
    → IsSound s
    → IsSound (after_submit (submit now accepted request s))
unfolding submit
submit-IsSound now accepted request s h =
    by_test (Bool-cases s.closed) (Bool-cases (leb max_running (count is_live s.jobs)))
  where
    Sound : Submission → Type 0
    Sound r = IsSound (after_submit r)

    by_test :
        (s.closed ≡ true) ⊎ (s.closed ≡ false)
        → (leb max_running (count is_live s.jobs) ≡ true)
          ⊎ (leb max_running (count is_live s.jobs) ≡ false)
        → Sound (submit now accepted request s)
    by_test (inl shut) _ = subst Sound (sym (submit-closed now accepted request s shut)) h
    by_test (inr free) (inl full) =
        subst Sound (sym (submit-full now accepted request s free full)) h
    by_test (inr free) (inr room) =
        subst Sound (sym (submit-room now accepted request s h free room)) (
          hand_over-IsSound accepted _ _
            (left-IsSound now request s h (leb→lt max_running (count is_live s.jobs) room)))

step-IsSound : (e : Event) (s : Store) → IsSound s → IsSound (step e s)
unfolding step settle cancel close
step-IsSound (submits now accepted request) s h = submit-IsSound now accepted request s h
step-IsSound (returns id) s h = change-IsSound returned id s s.futures returned-IsTame h
step-IsSound (raises id message) s h = change-IsSound _ id s s.futures (has_raised-IsTame message) h
step-IsSound (settles now id) s h = change-IsSound _ id s _ (settled-IsTame now) h
step-IsSound (cancels now id) s h = elim (Option-cases (find id s.jobs)) [
  | inl e ↦ rw (e, cancel) h
  | inr (j, e) ↦ rw (e, cancel) (change-IsSound _ id s s.futures (cancel_job-IsTame now) h)
]
step-IsSound (closes now revoked) s h =
    let f = close_job now revoked s.futures in
    let t = close_job-IsTame now revoked s.futures in
    same_ids-IsSound s (map f s.jobs) _ true h (map-ids f s.jobs t) (map-live f s.jobs t)
      (map-IsSettled f s.jobs t h.settled)
step-IsSound (reads now n id) s h = change-IsSound _ id s s.futures (read-IsTame now n) h
step-IsSound (writes now n id) s h = change-IsSound _ id s s.futures (write-IsTame now n) h

run-IsSound : (events : List Event) (s : Store) → IsSound s → IsSound (run events s)
unfolding run
run-IsSound [] s h = h
run-IsSound (e ∷ events) s h = run-IsSound events (step e s) (step-IsSound e s h)

-- From a new store, after any sequence of submissions, calls and stretches of the jobs' threads: at
-- most four jobs of the registry run and at most fifty are listed, `_order` lists exactly the jobs
-- of the registry, and a job that has ended is "cancelled" exactly when it was cancelled.
pub run-bounds :
    (events : List Event)
    → let s = run events new_store in
      (count is_live s.jobs ≤ max_running)
      × (length s.jobs ≤ max_keep)
      × (s.order ≡ map id_of s.jobs)
      × All IsSettled s.jobs
run-bounds events =
    let h = run-IsSound events new_store (record {
      listed = refl;
      growing = tt;
      below = tt;
      bounded = omega arith;
      live = omega arith;
      settled = tt;
    }) in
    (h.live, h.bounded, h.listed, h.settled)

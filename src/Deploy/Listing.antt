-- ===== src/Deploy/Listing.antt =====
-- What `list` shows of the jobs of host/task/deployjob.py after any calls and ends of runs.
use rkcockpit.Common.{
  All, suc, eq_refl, Bool, Bool-cases, List, Option, Option-cases, String, [], ap, arith, inl, inr,
  length, refl, some, subst, sym, take, true, ℕ, ◌||◌, ◌∙◌, ◌∷◌, ◌≡◌, ◌≤◌, ◌⊎◌,
}
use rkcockpit.Common.Dict.{Dict, lookup, insert, NodupKeys, lookup-insert}
use rkcockpit.Common.Result.{Result, ok, raised}
use rkcockpit.Deploy.{Plan, Turn}
use rkcockpit.Deploy.Runs.{Job, run}
use rkcockpit.Deploy.Registry.{
  new_job, Store, empty_store, Refusal, is_running, contains, to_front, prune, new_job, enter,
  start, start_plan, cancel, cancel_job, ask, listed, run_ends, keep_jobs, is_job_running,
  is_other_device, check_sizes, missing_key, already_running, no_device,
}
use rkcockpit.Deploy.History.{
  prune-lookup, IsSound, IsDistinct, enter-IsSound, replaced-IsSound, filter-All,
}

-- Calls and ends of runs; `plans` stores a checked plan.
pub data Event : Type 0 where
  plans : String → Plan → Event
  starts : String → Option String → Event
  cancels : String → Option String → Event
  ends : Bool → Option String → (ℕ → Turn) → String → Event

-- The store after a call, unchanged where the call raises.
or_kept : Store → Result Refusal Store → Store
or_kept s (ok t) = t
or_kept s (raised _) = s

after_cancel : Store → Result Refusal (Bool × Store) → Store
after_cancel s (ok (_, t)) = t
after_cancel s (raised _) = s

cancel-keeps :
    (k : String) (did : Option String) (s : Store)
    → let t = after_cancel s (cancel k did s) in (t.jobs ≡ s.jobs) × (t.history ≡ s.history)
unfolding after_cancel cancel cancel_job ask
cancel-keeps k did s = (ground arith, ground arith)

same-IsSound : (s t : Store) → (t.jobs ≡ s.jobs) × (t.history ≡ s.history) → IsSound s → IsSound t
same-IsSound s t (jobs, history) h = record {
  short = omega (arith, ap length history, h.short);
  distinct = subst IsDistinct (sym history) h.distinct;
  nodup = subst NodupKeys (sym jobs) h.nodup;
  backed = λ k c.
      subst (λ d. (j : Job) × (lookup k d ≡ some j)) (sym jobs)
        (h.backed k (sym (ap (contains k) history) ∙ c));
}

contains_self : (k : String) (history : List String) → contains k (to_front k history) ≡ true
unfolding to_front contains
contains_self k history = ground (arith, eq_refl k)

take-to_front : (k : String) (history : List String) → take 1 (to_front k history) ≡ k ∷ []
unfolding to_front
take-to_front k history = refl

length-listed :
    (jobs : Dict Job) (history : List String)
    → ((k : String) → contains k history ≡ true → (j : Job) × (lookup k jobs ≡ some j))
    → length (listed jobs history) ≡ length history
unfolding listed contains
length-listed jobs [] h = refl
length-listed jobs (k ∷ history) h =
    let (job, there) = h k (ground (arith, eq_refl k)) in
    rw (there, listed) (ap suc (length-listed jobs history (λ j c. h j (ground (arith, c)))))

empty_store-IsSound : IsSound empty_store
unfolding empty_store contains
empty_store-IsSound = record {
  short = omega arith;
  distinct = tt;
  nodup = tt;
  backed = λ k c. absurd (ground arith);
}

-- The plan is listed first with a running job, and every job is listed or runs.
abbrev pub Leads : String → Store → Type 0
Leads k t =
    (take 1 t.history ≡ k ∷ [])
    × (is_job_running (lookup k t.jobs) ≡ true)
    × All (λ e. (contains e.0 t.history || is_running e.1.state) ≡ true) t.jobs

-- What a start leaves.
abbrev pub LeadsIfOk : String → Result Refusal Store → Type 0
LeadsIfOk k (ok t) = Leads k t
LeadsIfOk k (raised _) = Unit

enter-Leads :
    (label : String → String) (k : String) (plan : Plan) (s : Store)
    → Leads k (enter label k plan s)
unfolding enter is_job_running new_job prune is_running
enter-Leads label k plan s =
    let history = to_front k s.history in
    let jobs = insert k (new_job label plan) s.jobs in
    (
      take-to_front k s.history,
      rw
          (
            prune-lookup k history jobs (contains_self k s.history),
            lookup-insert k k (new_job label plan) s.jobs,
            eq_refl k,
          )
          refl,
      filter-All (λ e. contains e.0 history || is_running e.1.state) jobs,
    )

module _ (label : String → String) (known : String → Bool) (stat : String → Option (ℕ × ℕ)) where
  unfoldable pub step : Event → Store → Store
  unfolding or_kept after_cancel
  step (plans k plan) s = record s { plans = insert k plan s.plans }
  step (starts k did) s = or_kept s (start label known stat k did s)
  step (cancels k did) s = after_cancel s (cancel k did s)
  step (ends asked trouble turns k) s = run_ends asked trouble turns k s

  unfoldable pub run_events : List Event → Store → Store
  unfolding step
  run_events [] s = s
  run_events (e ∷ events) s = run_events events (step e s)

  plan-enter :
      (k : String) (did : Option String) (plan : Plan) (s : Store)
      → ((e : Refusal) × (start_plan label known stat k did plan s ≡ raised e))
        ⊎ (start_plan label known stat k did plan s ≡ ok (enter label k plan s))
  unfolding start_plan
  plan-enter k did plan s = elim (Bool-cases (is_other_device did plan.device_id)) [
    | inl other ↦ inl (missing_key, rw other refl)
    | inr same ↦ elim (Bool-cases (is_job_running (lookup k s.jobs))) [
      | inl busy ↦ inl (already_running, rw (same, busy) refl)
      | inr idle ↦ elim (Bool-cases (known plan.device_id)) [
        | inr unknown ↦ inl (no_device, rw (same, idle, unknown) refl)
        | inl there ↦ elim (Option-cases (check_sizes stat plan.sizes)) [
          | inl good ↦ inr (rw (same, idle, there, good) refl)
          | inr (e, bad) ↦ inl (e, rw (same, idle, there, bad) refl)
        ]
      ]
    ]
  ]

  -- A start enters the plan of its key or is refused.
  start-enter :
      (k : String) (did : Option String) (s : Store)
      → ((e : Refusal) × (start label known stat k did s ≡ raised e))
        ⊎ ((plan : Plan) × (lookup k s.plans ≡ some plan)
            × (start label known stat k did s ≡ ok (enter label k plan s)))
  unfolding start
  start-enter k did s = elim (Option-cases (lookup k s.plans)) [
    | inl missing ↦ inl (missing_key, rw (missing, start) refl)
    | inr (plan, own) ↦ elim (plan-enter k did plan s) [
      | inl (e, bad) ↦ inl (e, rw (own, start) bad)
      | inr good ↦ inr (plan, own, rw (own, start) good)
    ]
  ]

  starts-IsSound :
      (k : String) (did : Option String) (s : Store) → IsSound s → IsSound (step (starts k did) s)
  unfolding step or_kept
  starts-IsSound k did s h = elim (start-enter k did s) [
    | inl (e, not_so) ↦ subst (λ r. IsSound (or_kept s r)) (sym not_so) h
    | inr (plan, own, goes) ↦
        subst (λ r. IsSound (or_kept s r)) (sym goes) (enter-IsSound label k plan s h)
  ]

  ends-IsSound :
      (asked : Bool) (trouble : Option String) (turns : ℕ → Turn) (k : String) (s : Store)
      → IsSound s
      → IsSound (run_ends asked trouble turns k s)
  unfolding run_ends
  ends-IsSound asked trouble turns k s h = elim (Option-cases (lookup k s.plans)) [
    | inl missing ↦ rw (missing, run_ends) h
    | inr (plan, own) ↦ elim (Option-cases (lookup k s.jobs)) [
      | inl gone ↦ rw (own, gone, run_ends) h
      | inr (job, there) ↦
          rw (own, there, run_ends) (replaced-IsSound k (run plan asked trouble turns job) s _ h)
    ]
  ]

  cancels-IsSound :
      (k : String) (did : Option String) (s : Store) → IsSound s → IsSound (step (cancels k did) s)
  unfolding step
  cancels-IsSound k did s h = same-IsSound s _ (cancel-keeps k did s) h

  step-IsSound : (e : Event) (s : Store) → IsSound s → IsSound (step e s)
  unfolding step
  step-IsSound (plans k plan) s h = same-IsSound s _ (refl, refl) h
  step-IsSound (starts k did) s h = starts-IsSound k did s h
  step-IsSound (cancels k did) s h = cancels-IsSound k did s h
  step-IsSound (ends asked trouble turns k) s h = ends-IsSound asked trouble turns k s h

  run_events-IsSound : (events : List Event) (s : Store) → IsSound s → IsSound (run_events events s)
  unfolding run_events
  run_events-IsSound [] s h = h
  run_events-IsSound (e ∷ events) s h = run_events-IsSound events (step e s) (step-IsSound e s h)

  -- After any calls and ends of runs at most 20 plans are listed, each once, and each has its job. Any
  -- start, where it succeeds, then lists its plan first, with a running job, and every job that is kept is
  -- listed or runs.
  pub run-listed :
      (events : List Event) (k : String) (did : Option String)
      → let s = run_events events empty_store in
        (length s.history ≤ keep_jobs)
        × IsDistinct s.history
        × (length (listed s.jobs s.history) ≡ length s.history)
        × LeadsIfOk k (start label known stat k did s)
  run-listed events k did =
      let s = run_events events empty_store in
      let h = run_events-IsSound events empty_store empty_store-IsSound in
      (
        h.short,
        h.distinct,
        length-listed s.jobs s.history h.backed,
        elim (start-enter k did s) [
          | inl (r, not_so) ↦ subst (LeadsIfOk k) (sym not_so) tt
          | inr (plan, own, goes) ↦ subst (LeadsIfOk k) (sym goes) (enter-Leads label k plan s)
        ],
      )

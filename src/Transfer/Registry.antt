-- ===== src/Transfer/Registry.antt =====
-- The registry of host/task/transfer.py: `_order` lists the ids of `_jobs`, and the trim keeps the
-- newest of those that it may keep.
use rkcockpit.Common.{
  All, Bool, Bool-cases, List, [], ap, arith, drop, false, filter, inl, inr, length, map, refl,
  some, subst, suc, sym, true, zero, ℕ, ◌++◌, ◌-◌, ◌<◌, ◌∙◌, ◌∷◌, ◌≡◌, ◌≤◌, ◌⊎◌,
}
use rkcockpit.Transfer.{
  Job, Store, keeps, find, without, remove, contains, select, newest, trim, with_order, id_of,
  max_keep,
}

-- The ids grow, from above `b`.
abbrev pub IsGrowing : ℕ → List Job → Type 0
IsGrowing b [] = Unit
IsGrowing b (j ∷ js) = (b < j.id) × IsGrowing j.id js

abbrev pub Above : ℕ → ℕ → Type 0
Above b i = b < i

IsGrowing-weaken : (a b : ℕ) (js : List Job) → a ≤ b → IsGrowing b js → IsGrowing a js
IsGrowing-weaken a b [] le h = tt
IsGrowing-weaken a b (j ∷ js) le (lt, h) = (omega arith, h)

IsGrowing-Above : (b : ℕ) (js : List Job) → IsGrowing b js → All (Above b) (map id_of js)
IsGrowing-Above b [] h = tt
IsGrowing-Above b (j ∷ js) (lt, h) =
    (lt, IsGrowing-Above b js (IsGrowing-weaken b j.id js (omega arith) h))

pub IsGrowing-filter :
    (p : Job → Bool) (b : ℕ) (js : List Job) → IsGrowing b js → IsGrowing b (filter p js)
IsGrowing-filter p b [] h = tt
IsGrowing-filter p b (j ∷ js) (lt, h) = elim (Bool-cases (p j)) [
  | inl passes ↦ rw passes (lt, IsGrowing-filter p j.id js h)
  | inr fails ↦
      rw fails (IsGrowing-weaken b j.id (filter p js) (omega arith) (IsGrowing-filter p j.id js h))
]

pub IsGrowing-drop : (n b : ℕ) (js : List Job) → IsGrowing b js → IsGrowing b (drop n js)
IsGrowing-drop zero b js h = h
IsGrowing-drop (suc n) b [] h = tt
IsGrowing-drop (suc n) b (j ∷ js) (lt, h) =
    IsGrowing-drop n b js (IsGrowing-weaken b j.id js (omega arith) h)

contains-Above : (b : ℕ) (ids : List ℕ) → All (Above b) ids → contains b ids ≡ false
unfolding contains
contains-Above b [] h = refl
contains-Above b (i ∷ ids) (lt, h) = ground (arith, contains-Above b ids h)

-- An id below all others: what is asked of the others does not depend on it.
contains-below :
    (b : ℕ) (ids : List ℕ) (js : List Job)
    → All (Above b) (map id_of js)
    → filter (λ j. contains j.id (b ∷ ids)) js ≡ filter (λ j. contains j.id ids) js
unfolding contains
contains-below b ids [] h = refl
contains-below b ids (j ∷ js) (lt, h) = ground (arith, contains-below b ids js h)

filter-passes :
    (p : Job → Bool) (j : Job) (js : List Job) → p j ≡ true → filter p (j ∷ js) ≡ j ∷ filter p js
filter-passes p j js e = rw e refl

filter-fails :
    (p : Job → Bool) (j : Job) (js : List Job) → p j ≡ false → filter p (j ∷ js) ≡ filter p js
filter-fails p j js e = rw e refl

contains_head : (i : ℕ) (ids : List ℕ) → contains i (i ∷ ids) ≡ true
unfolding contains
contains_head i ids = ground arith

-- Keeping the jobs whose ids are among the newest of the kept ones leaves those jobs.
filter-kept :
    (p : Job → Bool) (n b : ℕ) (js : List Job)
    → IsGrowing b js
    → filter (λ j. contains j.id (map id_of (drop n (filter p js)))) js ≡ drop n (filter p js)
filter-kept p zero b [] h = refl
filter-kept p (suc n) b [] h = refl
filter-kept p n b (j ∷ js) (lt, h) = by_test n (Bool-cases (p j)) (λ k. filter-kept p k j.id js h)
  where
    -- The goal for what the filter leaves.
    Leaves : ℕ → List Job → List Job → Type 0
    Leaves k ks js' = filter (λ i. contains i.id (map id_of (drop k ks))) js' ≡ drop k ks

    older : (k : ℕ) → contains j.id (map id_of (drop k (filter p js))) ≡ false
    older k =
        contains-Above j.id _
          (IsGrowing-Above j.id _ (IsGrowing-drop k j.id _ (IsGrowing-filter p j.id js h)))

    head_kept :
        filter (λ i. contains i.id (j.id ∷ map id_of (filter p js))) js ≡ filter p js
        → Leaves 0 (j ∷ filter p js) (j ∷ js)
    head_kept e = rw (contains_head j.id (map id_of (filter p js))) (ap (◌∷◌ j) e)

    by_test :
        (k : ℕ)
        → (p j ≡ true) ⊎ (p j ≡ false)
        → ((k : ℕ) → Leaves k (filter p js) js)
        → Leaves k (filter p (j ∷ js)) (j ∷ js)
    by_test k (inr fails) later =
        subst (λ ks. Leaves k ks (j ∷ js)) (sym (filter-fails p j js fails))
          (rw (older k) (later k))
    by_test (suc k) (inl passes) later =
        subst (λ ks. Leaves (suc k) ks (j ∷ js)) (sym (filter-passes p j js passes))
          (rw (older k) (later k))
    by_test zero (inl passes) later =
        subst (λ ks. Leaves 0 ks (j ∷ js)) (sym (filter-passes p j js passes))
          (head_kept (
            contains-below j.id (map id_of (filter p js)) js (IsGrowing-Above j.id js h) ∙ later 0))

-- The selected ids are those of the jobs that pass.
abbrev IsFound : List Job → Job → Type 0
IsFound jobs j = find j.id jobs ≡ some j

IsFound-later :
    (j : Job) (js ks : List Job)
    → All (Above j.id) (map id_of ks)
    → All (IsFound js) ks
    → All (IsFound (j ∷ js)) ks
unfolding find
IsFound-later j js [] above h = tt
IsFound-later j js (k ∷ ks) (lt, above) (f, h) = (ground arith, IsFound-later j js ks above h)

IsGrowing-IsFound : (b : ℕ) (js : List Job) → IsGrowing b js → All (IsFound js) js
unfolding find
IsGrowing-IsFound b [] h = tt
IsGrowing-IsFound b (j ∷ js) (lt, h) =
    (ground arith, IsFound-later j js js (IsGrowing-Above j.id js h) (IsGrowing-IsFound j.id js h))

select-found :
    (p : Job → Bool) (jobs js : List Job)
    → All (IsFound jobs) js
    → select p jobs (map id_of js) ≡ some (map id_of (filter p js))
unfolding select
select-found p jobs [] h = refl
select-found p jobs (j ∷ js) (f, h) = elim (Bool-cases (p j)) [
  | inl passes ↦ rw (f, select-found p jobs js h, passes) refl
  | inr fails ↦ rw (f, select-found p jobs js h, fails) refl
]

pub length_ids : (js : List Job) → length (map id_of js) ≡ length js
length_ids [] = refl
length_ids (j ∷ js) = omega (arith, length_ids js)

drop_ids : (n : ℕ) (js : List Job) → drop n (map id_of js) ≡ map id_of (drop n js)
drop_ids zero js = refl
drop_ids (suc n) [] = refl
drop_ids (suc n) (j ∷ js) = drop_ids n js

newest_ids : (js : List Job) → newest (map id_of js) ≡ map id_of (newest js)
newest_ids js = rw (length_ids js) (drop_ids (length js - max_keep) js)

-- `_order` lists the ids of `_jobs`, which grow.
pub record IsListed (s : Store) : Type 0 where
  pub listed : s.order ≡ map id_of s.jobs
  pub growing : IsGrowing 0 s.jobs

-- The trim of a registry whose order lists its jobs raises nothing. It leaves the newest fifty of
-- the jobs that run or are young enough, in their order, and the order lists them.
pub trim-newest :
    (now : ℕ) (s : Store)
    → IsListed s
    → let kept = newest (filter (keeps now) s.jobs) in
      (trim now s ≡ some (record s { jobs = kept; order = map id_of kept })) × IsGrowing 0 kept
unfolding trim
trim-newest now s h =
    let kept = filter (keeps now) s.jobs in
    let n = length kept - max_keep in
    (
      ap (with_order s) (
            ap (select (keeps now) s.jobs) h.listed
            ∙ select-found (keeps now) s.jobs s.jobs (IsGrowing-IsFound 0 s.jobs h.growing))
          ∙ ap
              (λ ids.
                some (record s { order = ids; jobs = filter (λ j. contains j.id ids) s.jobs }))
              (newest_ids kept)
          ∙ ap (λ jobs. some (record s { order = map id_of (newest kept); jobs = jobs }))
              (filter-kept (keeps now) n 0 s.jobs h.growing),
      IsGrowing-drop n 0 kept (IsGrowing-filter (keeps now) 0 s.jobs h.growing),
    )

without-Above : (b : ℕ) (js : List Job) → All (Above b) (map id_of js) → without b js ≡ js
unfolding without
without-Above b [] h = refl
without-Above b (j ∷ js) (lt, h) = ground (arith, without-Above b js h)

-- Removing an id from the order, and its job from the registry.
pub remove-without :
    (i b : ℕ) (js : List Job) → IsGrowing b js → remove i (map id_of js) ≡ map id_of (without i js)
unfolding remove without
remove-without i b [] h = refl
remove-without i b (j ∷ js) (lt, h) =
    ground (arith, remove-without i j.id js h, without-Above j.id js (IsGrowing-Above j.id js h))

pub IsGrowing-snoc :
    (b : ℕ) (js : List Job) (j : Job)
    → IsGrowing b js
    → b < j.id
    → All (λ i. i < j.id) (map id_of js)
    → IsGrowing b (js ++ j ∷ [])
IsGrowing-snoc b [] j h lt below = (lt, tt)
IsGrowing-snoc b (k ∷ js) j (kt, h) lt (below, rest) = (kt, IsGrowing-snoc k.id js j h below rest)

pub ids-snoc : (js : List Job) (j : Job) → map id_of (js ++ j ∷ []) ≡ map id_of js ++ j.id ∷ []
ids-snoc [] j = refl
ids-snoc (k ∷ js) j = ap (◌∷◌ k.id) (ids-snoc js j)

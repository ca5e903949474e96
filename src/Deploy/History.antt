-- ===== src/Deploy/History.antt =====
-- The history and the jobs that a start of host/task/deployjob.py leaves.
use rkcockpit.Common.{
  All, Bool, Bool-cases, List, String, [], ap, arith, eq_iff, eq_refl, false, filter, if◌then◌else◌,
  inl, inr, length, length-take, not, refl, some, str_eq, subst, suc, sym, take, true, zero, ℕ,
  ◌&&◌, ◌||◌, ◌∙◌, ◌∷◌, ◌≡◌, ◌≤◌, ◌⊎◌,
}
use rkcockpit.Common.Dict.{
  Dict, lookup, insert, NodupKeys, lookup-insert, filter-NodupKeys, insert-NodupKeys,
}
use rkcockpit.Deploy.{Plan}
use rkcockpit.Deploy.Runs.{Job}
use rkcockpit.Deploy.Registry.{Store, contains, to_front, prune, new_job, enter, keep_jobs}

contains-filter :
    (j k : String) (xs : List String)
    → contains k (filter (λ x. not (str_eq x j)) xs) ≡ (not (str_eq j k) && contains k xs)
unfolding contains
contains-filter j k [] = ground arith
contains-filter j k (x ∷ xs) =
    ground (arith, contains-filter j k xs, eq_iff x j, eq_iff x k, eq_iff j k)

contains-take :
    (n : ℕ) (k : String) (xs : List String) → contains k (take n xs) ≡ true → contains k xs ≡ true
unfolding contains
contains-take zero k xs h = absurd (ground arith)
contains-take (suc n) k [] h = h
contains-take (suc n) k (x ∷ xs) h = ground (arith, contains-take n k xs)

abbrev pub IsDistinct : List String → Type 0
IsDistinct [] = Unit
IsDistinct (k ∷ ks) = (contains k ks ≡ false) × IsDistinct ks

take-IsDistinct : (n : ℕ) (xs : List String) → IsDistinct xs → IsDistinct (take n xs)
take-IsDistinct zero xs h = tt
take-IsDistinct (suc n) [] h = tt
take-IsDistinct (suc n) (x ∷ xs) h =
    (ground (arith, contains-take n x xs, h.0), take-IsDistinct n xs h.1)

filter-IsDistinct :
    (j : String) (xs : List String) → IsDistinct xs → IsDistinct (filter (λ x. not (str_eq x j)) xs)
filter-IsDistinct j [] h = tt
filter-IsDistinct j (x ∷ xs) h =
    ground (arith, contains-filter j x xs, h.0, filter-IsDistinct j xs h.1)

-- A key that the filter keeps, whatever its value, keeps its value.
lookup-filter {ℓ} :
    {V : Type ℓ} (p : String × V → Bool) (k : String) (d : Dict V)
    → ((v : V) → p (k, v) ≡ true)
    → lookup k (filter p d) ≡ lookup k d
unfolding lookup
lookup-filter p k [] h = refl
lookup-filter p k ((j, v) ∷ d) h = elim (Bool-cases (str_eq j k)) [
  | inl same ↦
      let keeps : p (j, v) ≡ true = ap (λ x. p (x, v)) ((eq_iff j k).0 same) ∙ h v in
      rw (keeps, same) refl
  | inr other ↦ ground (arith, lookup-filter p k d h)
]

-- What the filter keeps passes.
pub filter-All {ℓ} : {A : Type ℓ} (p : A → Bool) (xs : List A) → All (λ x. p x ≡ true) (filter p xs)
filter-All p [] = tt
filter-All p (x ∷ xs) = elim (Bool-cases (p x)) [
  | inl passes ↦ rw passes (passes, filter-All p xs)
  | inr fails ↦ rw fails (filter-All p xs)
]

-- The jobs and the history after any calls.
pub record IsSound (s : Store) : Type 0 where
  pub short : length s.history ≤ keep_jobs
  pub distinct : IsDistinct s.history
  pub nodup : NodupKeys s.jobs
  pub backed : (k : String) → contains k s.history ≡ true → (j : Job) × (lookup k s.jobs ≡ some j)

pub to_front-backed :
    (k j : String) (history : List String)
    → contains j (to_front k history) ≡ true
    → (str_eq k j ≡ true) ⊎ (contains j history ≡ true)
unfolding to_front contains
to_front-backed k j history h =
    let whole = contains-take keep_jobs j (k ∷ filter (λ x. not (str_eq x k)) history) h in
    ground (arith, whole, contains-filter k j history)

or-left : (a b : Bool) → a ≡ true → (a || b) ≡ true
or-left true b e = refl
or-left false b e = absurd (ground arith)

pub prune-lookup :
    (j : String) (history : List String) (jobs : Dict Job)
    → contains j history ≡ true
    → lookup j (prune history jobs) ≡ lookup j jobs
unfolding prune
prune-lookup j history jobs h = lookup-filter _ j jobs (λ v. or-left (contains j history) _ h)

to_front-short : (k : String) (history : List String) → length (to_front k history) ≤ keep_jobs
unfolding to_front
to_front-short k history =
    omega (arith, length-take keep_jobs (k ∷ filter (λ x. not (str_eq x k)) history))

to_front-IsDistinct :
    (k : String) (history : List String) → IsDistinct history → IsDistinct (to_front k history)
unfolding to_front
to_front-IsDistinct k history h =
    take-IsDistinct keep_jobs (k ∷ filter (λ x. not (str_eq x k)) history)
      (ground (arith, contains-filter k k history, eq_refl k), filter-IsDistinct k history h)

prune-NodupKeys :
    (history : List String) (jobs : Dict Job) → NodupKeys jobs → NodupKeys (prune history jobs)
unfolding prune
prune-NodupKeys history jobs h = filter-NodupKeys _ jobs h

pub enter-IsSound :
    (label : String → String) (k : String) (plan : Plan) (s : Store)
    → IsSound s
    → IsSound (enter label k plan s)
unfolding enter
enter-IsSound label k plan s h = record {
  short = to_front-short k s.history;
  distinct = to_front-IsDistinct k s.history h.distinct;
  nodup =
      prune-NodupKeys (to_front k s.history) _
        (insert-NodupKeys k (new_job label plan) s.jobs h.nodup);
  backed = λ j c.
      subst (λ o. (job : Job) × (o ≡ some job))
        (sym (
          prune-lookup j (to_front k s.history) (insert k (new_job label plan) s.jobs) c
          ∙ lookup-insert k j (new_job label plan) s.jobs))
        (found j (Bool-cases (str_eq k j)) (to_front-backed k j s.history c));
}
  where
    found :
        (j : String)
        → (str_eq k j ≡ true) ⊎ (str_eq k j ≡ false)
        → (str_eq k j ≡ true) ⊎ (contains j s.history ≡ true)
        → (job : Job) × ((if str_eq k j then some (new_job label plan) else lookup j s.jobs)
            ≡ some job)
    found j (inl same) o = (new_job label plan, rw same refl)
    found j (inr other) (inl same) = absurd (ground arith)
    found j (inr other) (inr c) = rw other (h.backed j c)

-- A new job for a key that has one.
pub replaced-IsSound :
    (k : String) (job : Job) (s : Store) (progs : Dict Bool)
    → IsSound s
    → IsSound (record s { jobs = insert k job s.jobs; progs = progs })
replaced-IsSound k job s progs h = record {
  short = h.short;
  distinct = h.distinct;
  nodup = insert-NodupKeys k job s.jobs h.nodup;
  backed = λ j c.
      subst (λ o. (job : Job) × (o ≡ some job)) (sym (lookup-insert k j job s.jobs))
        (found j (Bool-cases (str_eq k j)) c);
}
  where
    found :
        (j : String)
        → (str_eq k j ≡ true) ⊎ (str_eq k j ≡ false)
        → contains j s.history ≡ true
        → (own : Job) × ((if str_eq k j then some job else lookup j s.jobs) ≡ some own)
    found j (inl same) c = (job, rw same refl)
    found j (inr other) c = rw other (h.backed j c)

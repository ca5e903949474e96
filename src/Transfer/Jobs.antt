-- ===== src/Transfer/Jobs.antt =====
-- The invariant of the registry in host/task/transfer.py, and what the calls and threads do to one
-- job.
use rkcockpit.Common.{
  All, All-if, Bool, Bool-cases, List, String, [], ap, ap₂, arith, count, drop, false, filter, inl,
  inr, length, map, refl, subst, suc, sym, true, zero, ℕ, ◌&&◌, ◌<◌, ◌==◌, ◌∙◌, ◌∷◌, ◌≡◌, ◌≤◌,
}
use rkcockpit.Common.Result.{Result, ok, raised}
use rkcockpit.Transfer.{
  Job, Store, Status, running, done, failed, cancelled, is_running, is_live, contains, id_of,
  max_keep, max_running, change, returned, has_raised, cancel_job, close_job, read, write, Error,
}
use rkcockpit.Transfer.Registry.{IsGrowing, length_ids}

-- The state after a call that may raise.
abbrev pub or_same {ℓ} : {A : Type ℓ} → A → Result Error A → A
or_same a (ok b) = b
or_same a (raised _) = a

-- A job that has ended is "cancelled" exactly when it was cancelled.
abbrev pub Agrees : Status → Bool → Type 0
Agrees running b = Unit {0}
Agrees done b = b ≡ false
Agrees failed b = b ≡ false
Agrees cancelled b = b ≡ true

abbrev pub IsSettled : Job → Type 0
IsSettled j = Agrees j.status j.is_cancelled

pub record IsSound (s : Store) : Type 0 where
  pub listed : s.order ≡ map id_of s.jobs
  pub growing : IsGrowing 0 s.jobs
  pub below : All (λ i. i ≤ s.seq) (map id_of s.jobs)
  pub bounded : length s.jobs ≤ max_keep
  pub live : count is_live s.jobs ≤ max_running
  pub settled : All IsSettled s.jobs

-- What the threads and calls do to one job.
pub record IsTame (f : Job → Job) : Type 0 where
  pub same_id : (j : Job) → (f j).id ≡ j.id
  pub starts_none : (j : Job) → is_live (f j) ≡ true → is_live j ≡ true
  pub settles : (j : Job) → IsSettled j → IsSettled (f j)

change-ids :
    (f : Job → Job) (id : ℕ) (js : List Job) → IsTame f → map id_of (change f id js) ≡ map id_of js
unfolding change
change-ids f id [] h = refl
change-ids f id (j ∷ js) h = ground (arith, change-ids f id js h, h.same_id j)

change-live :
    (f : Job → Job) (id : ℕ) (js : List Job)
    → IsTame f
    → count is_live (change f id js) ≤ count is_live js
unfolding change
change-live f id [] h = omega arith
change-live f id (j ∷ js) h = ground (arith, change-live f id js h, h.starts_none j)

change-IsSettled :
    (f : Job → Job) (id : ℕ) (js : List Job)
    → IsTame f
    → All IsSettled js
    → All IsSettled (change f id js)
unfolding change
change-IsSettled f id [] h a = tt
change-IsSettled f id (j ∷ js) h (p, a) =
    All-if IsSettled (j.id == id) (f j ∷ js) (j ∷ change f id js) (h.settles j p, a)
      (p, change-IsSettled f id js h a)

-- Growing, said of the ids alone.
abbrev Grows : ℕ → List ℕ → Type 0
Grows b [] = Unit
Grows b (i ∷ ids) = (b < i) × Grows i ids

Grows-of_jobs : (b : ℕ) (js : List Job) → IsGrowing b js → Grows b (map id_of js)
Grows-of_jobs b [] h = tt
Grows-of_jobs b (j ∷ js) (lt, h) = (lt, Grows-of_jobs j.id js h)

IsGrowing-of_ids : (b : ℕ) (js : List Job) → Grows b (map id_of js) → IsGrowing b js
IsGrowing-of_ids b [] h = tt
IsGrowing-of_ids b (j ∷ js) (lt, h) = (lt, IsGrowing-of_ids j.id js h)

-- Jobs that keep their ids, start none and stay settled keep the invariant.
pub same_ids-IsSound :
    (s : Store) (js : List Job) (futures : List ℕ) (closed : Bool)
    → IsSound s
    → map id_of js ≡ map id_of s.jobs
    → count is_live js ≤ count is_live s.jobs
    → All IsSettled js
    → IsSound (record s { jobs = js; futures = futures; closed = closed })
same_ids-IsSound s js futures closed h ids live settled = record {
  listed = h.listed ∙ sym ids;
  growing = IsGrowing-of_ids 0 js (subst (Grows 0) (sym ids) (Grows-of_jobs 0 s.jobs h.growing));
  below = subst (All (λ i. i ≤ s.seq)) (sym ids) h.below;
  bounded = omega (arith, h.bounded, length_ids js, length_ids s.jobs, ap (length {A = ℕ}) ids);
  live = omega (arith, h.live, live);
  settled = settled;
}

pub change-IsSound :
    (f : Job → Job) (id : ℕ) (s : Store) (futures : List ℕ)
    → IsTame f
    → IsSound s
    → IsSound (record s { jobs = change f id s.jobs; futures = futures })
change-IsSound f id s futures t h =
    same_ids-IsSound s (change f id s.jobs) futures s.closed h (change-ids f id s.jobs t)
      (change-live f id s.jobs t) (change-IsSettled f id s.jobs t h.settled)

pub map-ids : (f : Job → Job) (js : List Job) → IsTame f → map id_of (map f js) ≡ map id_of js
map-ids f [] h = refl
map-ids f (j ∷ js) h = ap₂ ◌∷◌ (h.same_id j) (map-ids f js h)

pub map-live :
    (f : Job → Job) (js : List Job) → IsTame f → count is_live (map f js) ≤ count is_live js
map-live f [] h = omega arith
map-live f (j ∷ js) h = ground (arith, map-live f js h, h.starts_none j)

pub map-IsSettled :
    (f : Job → Job) (js : List Job) → IsTame f → All IsSettled js → All IsSettled (map f js)
map-IsSettled f [] h a = tt
map-IsSettled f (j ∷ js) h (p, a) = (h.settles j p, map-IsSettled f js h a)

Agrees-of_running : (st : Status) (b : Bool) → is_running st ≡ true → Agrees st b
unfolding is_running
Agrees-of_running running b h = tt
Agrees-of_running done b h = absurd (ground arith)
Agrees-of_running failed b h = absurd (ground arith)
Agrees-of_running cancelled b h = absurd (ground arith)

pub returned-IsTame : IsTame returned
unfolding returned is_running
returned-IsTame = record {
  same_id = λ j. ground arith;
  starts_none = λ j. ground arith;
  settles = λ j p. elim (Bool-cases j.is_cancelled) [
    | inl e ↦ rw (e, returned) refl
    | inr e ↦ rw (e, returned) refl
  ];
}

pub has_raised-IsTame : (message : String) → IsTame (has_raised message)
unfolding has_raised is_running
has_raised-IsTame message = record {
  same_id = λ j. ground arith;
  starts_none = λ j. ground arith;
  settles = λ j p. elim (Bool-cases j.is_cancelled) [
    | inl e ↦ rw (e, has_raised) refl
    | inr e ↦ rw (e, has_raised) refl
  ];
}

pub cancel_job-IsTame : (now : ℕ) → IsTame (cancel_job now)
unfolding cancel_job is_running
cancel_job-IsTame now = record {
  same_id = λ j. ground arith;
  starts_none = λ j. ground arith;
  settles = λ j p. elim (Bool-cases (is_running j.status)) [
    | inl e ↦ rw (e, cancel_job) (Agrees-of_running j.status true e)
    | inr e ↦ rw (e, cancel_job) p
  ];
}

pub close_job-IsTame :
    (now : ℕ) (revoked : ℕ → Bool) (futures : List ℕ) → IsTame (close_job now revoked futures)
unfolding close_job is_running
close_job-IsTame now revoked futures = record {
  same_id = λ j. ground arith;
  starts_none = λ j. ground arith;
  settles = λ j p. elim (Bool-cases (is_running j.status)) [
    | inl e ↦ elim (Bool-cases (contains j.id futures && revoked j.id)) [
      | inl c ↦ rw (e, c, close_job) refl
      | inr c ↦ rw (e, c, close_job) (Agrees-of_running j.status true e)
    ]
    | inr e ↦ rw (e, close_job) p
  ];
}

pub read-IsTame : (now n : ℕ) → IsTame (λ j. or_same j (read now n j))
unfolding read
read-IsTame now n = record {
  same_id = λ j. ground arith;
  starts_none = λ j. ground arith;
  settles = λ j p. ground arith;
}

pub write-IsTame : (now n : ℕ) → IsTame (λ j. or_same j (write now n j))
unfolding write
write-IsTame now n = record {
  same_id = λ j. ground arith;
  starts_none = λ j. ground arith;
  settles = λ j p. ground arith;
}

pub settled-IsTame : (now : ℕ) → IsTame (λ j. record j { has_proc = false; updated_ms = now })
settled-IsTame now = record { same_id = λ j. refl; starts_none = λ j h. h; settles = λ j p. p }

pub All-drop {ℓ κ} :
    {A : Type ℓ} (P : A → Type κ) (n : ℕ) (xs : List A) → All P xs → All P (drop n xs)
All-drop P zero xs h = h
All-drop P (suc n) [] h = tt
All-drop P (suc n) (x ∷ xs) (p, h) = All-drop P n xs h

pub count-drop-le {ℓ} :
    {A : Type ℓ} (p : A → Bool) (n : ℕ) (xs : List A) → count p (drop n xs) ≤ count p xs
count-drop-le p zero xs = omega arith
count-drop-le p (suc n) [] = omega arith
count-drop-le p (suc n) (x ∷ xs) = ground (arith, count-drop-le p n xs)

pub count-filter-le {ℓ} :
    {A : Type ℓ} (p q : A → Bool) (xs : List A) → count p (filter q xs) ≤ count p xs
count-filter-le p q [] = omega arith
count-filter-le p q (x ∷ xs) = ground (arith, count-filter-le p q xs)

pub ids-filter :
    (P : ℕ → Type 0) (p : Job → Bool) (js : List Job)
    → All P (map id_of js)
    → All P (map id_of (filter p js))
ids-filter P p [] h = tt
ids-filter P p (j ∷ js) (q, h) = elim (Bool-cases (p j)) [
  | inl e ↦ rw e (q, ids-filter P p js h)
  | inr e ↦ rw e (ids-filter P p js h)
]

pub ids-drop :
    (P : ℕ → Type 0) (n : ℕ) (js : List Job) → All P (map id_of js) → All P (map id_of (drop n js))
ids-drop P zero js h = h
ids-drop P (suc n) [] h = tt
ids-drop P (suc n) (j ∷ js) (q, h) = ids-drop P n js h

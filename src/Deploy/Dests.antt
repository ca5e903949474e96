-- ===== src/Deploy/Dests.antt =====
-- The plans that `plan` of host/task/deployjob.py accepts.
use Prim.Native.Char.{Char, code}
use Prim.Native.String
use text.Mathlib.Text.{starts_with}
use text.Mathlib.TextEquality.{starts_with_iff, Char-path}
use text.Mathlib.TextLemmas.{nil-append, cons-append, append_assoc as text_assoc}
use rkcockpit.Common.{
  All, Bool, Bool-cases, List, Option, String, any, [], if◌then◌else◌, inl, inr, none, not, refl,
  some, str_eq, true, eq_iff, suc, length, ℕ, ◌==◌, ◌||◌, ◌∷◌, ◌+◌, ◌≡◌, ◌≢◌, ◌⊎◌, ◌≤◌, ap, sym,
  subst, arith, ◌∙◌,
}
use rkcockpit.Common.Int.{pos, negsuc}
use rkcockpit.Common.Dict.{Dict, insert}
use rkcockpit.Common.Result.{Result, ok, raised, first_ok}
use rkcockpit.Deploy.{File, Plan}
use rkcockpit.Deploy.Paths.{IsPlainPath, normpath, normpath-IsPlainPath}
use rkcockpit.Deploy.Registry.{check_sizes}
use rkcockpit.Deploy.Plans.{
  dest_exact, dest_top, PlanError, lstrip_slash, first_part, is_below, check_normal, check_dest,
  RawFile, Timeout, absent, not_int, int, timeout_of, plan_file, source_of, plan_files, plan,
  is_mode, full_dest, bad_mode,
}

-- The path of a directory, or of something below it.
abbrev pub IsWithin : String → String → Type 0
IsWithin d dir = (d ≡ dir) ⊎ ((rest : String) × (d ≡ String.◌++◌ dir (String.◌++◌ "/" rest)))

abbrev pub Any : (String → Type 0) → List String → Type 0
Any P [] = ⊥
Any P (x ∷ xs) = P x ⊎ Any P xs

abbrev pub AllSlash : String → Type 0
AllSlash String.[] = Unit
AllSlash (String.◌∷◌ c s) = (code c ≡ b'/') × AllSlash s

-- A path with a slash first, other than the root, that is or begins with one of the two directories for
-- programs or, after the slashes that lead it, one of the six top directories.
abbrev pub IsAllowed : String → Type 0
IsAllowed d =
    (starts_with d "/" ≡ true)
    × (d ≢ "/")
    × (Any (IsWithin d) dest_exact
        ⊎ ((lead : String) × AllSlash lead
            × Any (λ top. IsWithin d (String.◌++◌ lead top)) dest_top))

-- Such a path whose names lead down: none is empty, a dot, or two dots.
abbrev pub IsSafe : String → Type 0
IsSafe d = IsAllowed d × IsPlainPath d

-- A character with the code of a slash, and a text after it.
slash-append :
    (c : Char) (s : String) → (code c == b'/') ≡ true → String.◌∷◌ c s ≡ String.◌++◌ "/" s
slash-append c s e =
    ap (λ d. String.◌∷◌ d s) (Char-path c "/" (ground arith))
    ∙ sym (cons-append "/" String.[] s ∙ ap (λ r. String.◌∷◌ "/" r) (nil-append s))

cons-split :
    (c : Char) (s lead rest : String)
    → s ≡ String.◌++◌ lead rest
    → String.◌∷◌ c s ≡ String.◌++◌ (String.◌∷◌ c lead) rest
cons-split c s lead rest e = ap (λ r. String.◌∷◌ c r) e ∙ sym (cons-append c lead rest)

lstrip-split :
    (s : String) → (lead : String) × AllSlash lead × (s ≡ String.◌++◌ lead (lstrip_slash s))
unfolding lstrip_slash
lstrip-split String.[] = (String.[], tt, sym (nil-append ""))
lstrip-split (String.◌∷◌ c s) = elim (Bool-cases (code c == b'/')) [
  | inl slash ↦
      let (lead, all, e) = lstrip-split s in
      rw slash (String.◌∷◌ c lead, (ground arith, all), cons-split c s lead (lstrip_slash s) e)
  | inr other ↦ rw other (String.[], tt, sym (nil-append _))
]

cons-IsWithin :
    (c : Char) (s dir : String) → IsWithin s dir → IsWithin (String.◌∷◌ c s) (String.◌∷◌ c dir)
cons-IsWithin c s dir (inl e) = inl (ap (λ r. String.◌∷◌ c r) e)
cons-IsWithin c s dir (inr (rest, e)) = inr (rest, cons-split c s dir (String.◌++◌ "/" rest) e)

first_part-IsWithin : (s : String) → IsWithin s (first_part s)
unfolding first_part
first_part-IsWithin String.[] = inl refl
first_part-IsWithin (String.◌∷◌ c s) = elim (Bool-cases (code c == b'/')) [
  | inl slash ↦ rw slash (inr (s, slash-append c s slash ∙ sym (nil-append _)))
  | inr other ↦ rw other (cons-IsWithin c s (first_part s) (first_part-IsWithin s))
]

append-IsWithin :
    (lead s dir : String) → IsWithin s dir → IsWithin (String.◌++◌ lead s) (String.◌++◌ lead dir)
append-IsWithin lead s dir (inl e) = inl (ap (String.◌++◌ lead) e)
append-IsWithin lead s dir (inr (rest, e)) =
    inr (rest, ap (String.◌++◌ lead) e ∙ sym (text_assoc lead dir (String.◌++◌ "/" rest)))

is_below-IsWithin : (d wl : String) → is_below d wl ≡ true → IsWithin d wl
unfolding is_below
is_below-IsWithin d wl h = elim (Bool-cases (str_eq d wl)) [
  | inl same ↦ inl ((eq_iff d wl).0 same)
  | inr other ↦
      let (rest, e) =
        (starts_with_iff d (String.◌++◌ wl "/")).0
          (subst (λ b. (b || starts_with d (String.◌++◌ wl "/")) ≡ true) other h) in
      inr (rest, sym e ∙ text_assoc wl "/" rest)
]

any-Any :
    (p : String → Bool) (P : String → Type 0) (f : (x : String) → p x ≡ true → P x)
    (xs : List String)
    → any p xs ≡ true
    → Any P xs
any-Any p P f [] h = absurd (ground arith)
any-Any p P f (x ∷ xs) h = elim (Bool-cases (p x)) [
  | inl here ↦ inl (f x here)
  | inr other ↦ inr (any-Any p P f xs (subst (λ b. (b || any p xs) ≡ true) other h))
]

top-IsWithin :
    (d lead : String)
    → d ≡ String.◌++◌ lead (lstrip_slash d)
    → (top : String) → str_eq (first_part (lstrip_slash d)) top ≡ true
    → IsWithin d (String.◌++◌ lead top)
top-IsWithin d lead e top h =
    subst (λ t. IsWithin d (String.◌++◌ lead t)) ((eq_iff (first_part (lstrip_slash d)) top).0 h)
      (subst (λ s. IsWithin s (String.◌++◌ lead (first_part (lstrip_slash d)))) (sym e)
        (append-IsWithin lead (lstrip_slash d) _ (first_part-IsWithin (lstrip_slash d))))

ok-raised : (e : PlanError) (d : String) → ◌≡◌ {A = Result PlanError String} (raised e) (ok d) → ⊥
ok-raised e d h = cc

ok-same : (c d : String) → ◌≡◌ {A = Result PlanError String} (ok c) (ok d) → c ≡ d
ok-same c d h = cc

check_normal-IsAllowed :
    (dest d out : String) → check_normal dest d ≡ ok out → (d ≡ out) × IsAllowed d
unfolding check_normal
check_normal-IsAllowed dest d out h = elim (Bool-cases (not (starts_with d "/") || str_eq d "/")) [
  | inl bad ↦ absurd (ok-raised _ out (rw bad at h))
  | inr good ↦
      let starts : starts_with d "/" ≡ true = ground arith in
      let other : d ≢ "/" = ground (arith, eq_iff d "/") in
      elim (Bool-cases (any (λ wl. is_below d wl) dest_exact)) [
        | inl exact ↦ (
          ok-same d out (rw (good, exact) at h),
          (
            starts,
            other,
            inl (any-Any (λ wl. is_below d wl) (IsWithin d) (is_below-IsWithin d) dest_exact exact),
          ),
        )
        | inr outside ↦
            elim (Bool-cases (any (λ top. str_eq (first_part (lstrip_slash d)) top) dest_top)) [
              | inl inside ↦
                  let (lead, all, e) = lstrip-split d in
                  (
                    ok-same d out (rw (good, outside, inside) at h),
                    (
                      starts,
                      other,
                      inr (
                        lead,
                        all,
                        any-Any _ (λ top. IsWithin d (String.◌++◌ lead top)) (top-IsWithin d lead e)
                            dest_top inside,
                      ),
                    ),
                  )
              | inr nowhere ↦ absurd (ok-raised _ out (rw (good, outside, nowhere) at h))
            ]
      ]
]

timeout-range : (t : Timeout) (n : ℕ) → timeout_of t ≡ ok n → (1 ≤ n) × (n ≤ 3600)
unfolding timeout_of
timeout-range absent n h = ground arith
timeout-range not_int n h = absurd (ground arith)
timeout-range (int (negsuc k)) n h = absurd (ground arith)
timeout-range (int (pos k)) n h = ground arith

module _ (strip : String → String) (basename : String → String)
    (stat : String → Option (ℕ × ℕ)) where
  -- The sizes that were taken are those of the sources.
  abbrev IsTaken : Dict (ℕ × ℕ) → Type 0
  IsTaken sizes = All (λ e. stat e.0 ≡ some e.1) sizes

  insert-IsTaken :
      (src : String) (st : ℕ × ℕ) (sizes : Dict (ℕ × ℕ))
      → stat src ≡ some st
      → IsTaken sizes
      → IsTaken (insert src st sizes)
  unfolding insert
  insert-IsTaken src st [] e h = (e, tt)
  insert-IsTaken src st ((k, v) ∷ sizes) e h = elim (Bool-cases (str_eq k src)) [
    | inl same ↦ rw same (e, h.1)
    | inr other ↦ rw other (h.0, insert-IsTaken src st sizes e h.1)
  ]

  source_of-stat :
      (i : ℕ) (src : String) (st : ℕ × ℕ)
      → source_of strip basename stat i src ≡ ok st
      → stat src ≡ some st
  unfolding source_of
  source_of-stat i src st h = ground arith

  entry-dest :
      (i : ℕ) (src dest mode : String) (f : File)
      → (if◌then◌else◌ {A = Result PlanError File}
          (is_mode mode)
          (ok (record { src = src; dest = dest; mode = mode }))
          (raised (bad_mode (i + 1))))
        ≡ ok f
      → dest ≡ f.dest
  entry-dest i src dest mode f h = ground arith

  plan_file-IsSafe :
      (i : ℕ) (src : String) (raw : RawFile) (f : File)
      → plan_file strip basename stat i src raw ≡ ok f
      → IsSafe f.dest
  unfolding plan_file check_dest
  plan_file-IsSafe i src raw f h =
      let asked = strip (full_dest strip basename stat src (strip raw.dest)) in
      let (dest, good, made) =
        first_ok _
          (check_dest strip basename stat (full_dest strip basename stat src (strip raw.dest))) _
          h in
      let (same, safe) =
        check_normal-IsAllowed (full_dest strip basename stat src (strip raw.dest)) (normpath asked)
          dest good in
      subst IsSafe (same ∙ entry-dest i src dest (strip raw.mode) f made)
        (safe, normpath-IsPlainPath asked safe.0)

  abbrev Made : List RawFile → List File × Dict (ℕ × ℕ) → Type 0
  Made raws r = (length r.0 ≡ length raws) × All (λ f. IsSafe f.dest) r.0 × IsTaken r.1

  plan_files-Made :
      (i : ℕ) (raws : List RawFile) (sizes : Dict (ℕ × ℕ)) (r : List File × Dict (ℕ × ℕ))
      → IsTaken sizes
      → plan_files strip basename stat i raws sizes ≡ ok r
      → Made raws r
  unfolding plan_files
  plan_files-Made i [] sizes r t h =
      let same : ◌≡◌ {A = List File × Dict (ℕ × ℕ)} ([], sizes) r = ground arith in
      subst (Made []) same (refl, tt, t)
  plan_files-Made i (raw ∷ raws) sizes r t h =
      let (st, there, rest) = first_ok _ (source_of strip basename stat i (strip raw.src)) _ h in
      let (f, good, more) =
        first_ok _ (plan_file strip basename stat i (strip raw.src) raw) _ rest in
      let (q, all, made) =
        first_ok _ (plan_files strip basename stat (i + 1) raws (insert (strip raw.src) st sizes)) _
          more in
      let taken =
        insert-IsTaken (strip raw.src) st sizes (source_of-stat i (strip raw.src) st there) t in
      let (long, safe, kept) =
        plan_files-Made (i + 1) raws (insert (strip raw.src) st sizes) q taken all in
      let same : ◌≡◌ {A = List File × Dict (ℕ × ℕ)} (f ∷ q.0, q.1) r = ground arith in
      subst (Made (raw ∷ raws)) same
        (ap suc long, (plan_file-IsSafe i (strip raw.src) raw f good, safe), kept)

  check_sizes-taken : (sizes : Dict (ℕ × ℕ)) → IsTaken sizes → check_sizes stat sizes ≡ none
  unfolding check_sizes
  check_sizes-taken [] t = refl
  check_sizes-taken ((src, (size, mtime)) ∷ sizes) t =
      rw (t.0, check_sizes) (ground (arith, check_sizes-taken sizes t.1))

  -- A plan that is accepted has an entry for each file of the request and a timeout from 1 to 3600
  -- seconds. Each destination begins with the path of one of the two directories for programs or, after its
  -- leading slashes, of one of the six top directories, and is that path or goes on with a slash. It is one
  -- or two slashes and names with a slash between them, none of which is empty, a dot or two dots, so it
  -- lies in or below that directory. If no source changes, the check of the sources by `start` passes.
  pub plan-IsSafe :
      (plan_id device_id : String) (raws : List RawFile) (cmd : String) (timeout : Timeout)
      (restart : Bool) (p : Plan)
      → plan strip basename stat plan_id device_id raws cmd timeout restart ≡ ok p
      → (length p.files ≡ length raws)
        × (1 ≤ length p.files)
        × ((1 ≤ p.timeout) × (p.timeout ≤ 3600))
        × All (λ f. IsSafe f.dest) p.files
        × (check_sizes stat p.sizes ≡ none)
  unfolding plan
  plan-IsSafe plan_id device_id [] cmd timeout restart p h = absurd (ground arith)
  plan-IsSafe plan_id device_id (raw ∷ raws) cmd timeout restart p h =
      let (seconds, in_range, rest) = first_ok _ (timeout_of timeout) _ h in
      let (r, all, made) = first_ok _ (plan_files strip basename stat 0 (raw ∷ raws) []) _ rest in
      let (long, safe, taken) = plan_files-Made 0 (raw ∷ raws) [] r tt all in
      let files : r.0 ≡ p.files = ground arith in
      let seconds_same : seconds ≡ p.timeout = ground arith in
      let sizes : r.1 ≡ p.sizes = ground arith in
      let range = timeout-range timeout seconds in_range in
      (
        ap length (sym files) ∙ long,
        omega (arith, ap length files, long),
        (omega (arith, range.0, seconds_same), omega (arith, range.1, seconds_same)),
        subst (All (λ f. IsSafe f.dest)) files safe,
        subst (λ d. check_sizes stat d ≡ none) sizes (check_sizes-taken r.1 taken),
      )

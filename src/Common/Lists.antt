-- ===== src/Common/Lists.antt =====
-- Lists measured and indexed by native numbers, and predicates on lists by recursion.
use Prim.Native.Nat.{ℕ, zero, suc, ◌+◌, ◌-◌, ◌≤◌, min}
use mathlib.Core.Path.{◌≡◌, refl, ap, ap₂, ◌∙◌}
use mathlib.Core.List.{List, [], ◌∷◌, ◌++◌}
use mathlib.Core.Option.{Option, none, some}
use mathlib.Core.Bool.{Bool, true, false, ◌||◌}
use native.Mathlib.Omega.{arith}
use rkcockpit.Common.Tests.{if◌then◌else◌}

module _ {ℓ} {A : Type ℓ} where
  abbrev pub length : List A → ℕ
  length [] = 0
  length (x ∷ xs) = suc (length xs)

  abbrev pub get_elem? : List A → ℕ → Option A
  get_elem? [] i = none
  get_elem? (x ∷ xs) zero = some x
  get_elem? (x ∷ xs) (suc i) = get_elem? xs i

  abbrev pub take : ℕ → List A → List A
  take zero xs = []
  take (suc n) [] = []
  take (suc n) (x ∷ xs) = x ∷ take n xs

  abbrev pub drop : ℕ → List A → List A
  drop zero xs = xs
  drop (suc n) [] = []
  drop (suc n) (x ∷ xs) = drop n xs

  -- The elements that pass a test, in order: `[x for x in xs if p(x)]`.
  abbrev pub filter : (A → Bool) → List A → List A
  filter p [] = []
  filter p (x ∷ xs) = let rest = filter p xs in if p x then x ∷ rest else rest

  -- How many elements pass a test.
  abbrev pub count : (A → Bool) → List A → ℕ
  count p [] = 0
  count p (x ∷ xs) = (if p x then 1 else 0) + count p xs

  abbrev pub any : (A → Bool) → List A → Bool
  any p [] = false
  any p (x ∷ xs) = p x || any p xs

  abbrev pub is_nonempty : List A → Bool
  is_nonempty [] = false
  is_nonempty (x ∷ xs) = true

  abbrev pub All {κ} : (A → Type κ) → List A → Type κ
  All P [] = Unit
  All P (x ∷ xs) = P x × All P xs

suc_add : (n m : ℕ) → suc n + m ≡ suc (n + m)
suc_add n m = omega arith

module _ {ℓ} {A : Type ℓ} where
  pub length-append : (xs ys : List A) → length (xs ++ ys) ≡ length xs + length ys
  length-append [] ys = omega arith
  length-append (x ∷ xs) ys = omega (arith, length-append xs ys)

  pub length-drop : (n : ℕ) (xs : List A) → length (drop n xs) ≡ length xs - n
  length-drop zero xs = omega arith
  length-drop (suc n) [] = omega arith
  length-drop (suc n) (x ∷ xs) = omega (arith, length-drop n xs)

  pub length-take : (n : ℕ) (xs : List A) → length (take n xs) ≡ min n (length xs)
  length-take zero xs = omega arith
  length-take (suc n) [] = omega arith
  length-take (suc n) (x ∷ xs) = omega (arith, length-take n xs)

  pub take-append-drop : (n : ℕ) (xs : List A) → take n xs ++ drop n xs ≡ xs
  take-append-drop zero xs = refl
  take-append-drop (suc n) [] = refl
  take-append-drop (suc n) (x ∷ xs) = ap (λ r. x ∷ r) (take-append-drop n xs)

  pub length-filter-le : (p : A → Bool) (xs : List A) → length (filter p xs) ≤ length xs
  length-filter-le p [] = omega arith
  length-filter-le p (x ∷ xs) = ground (arith, length-filter-le p xs)

  pub count-append : (p : A → Bool) (xs ys : List A) → count p (xs ++ ys) ≡ count p xs + count p ys
  count-append p [] ys = omega arith
  count-append p (x ∷ xs) ys = omega (arith, count-append p xs ys)

  pub any-append : (p : A → Bool) (xs ys : List A) → any p (xs ++ ys) ≡ (any p xs || any p ys)
  any-append p [] ys = refl
  any-append p (x ∷ xs) ys = ground (arith, any-append p xs ys)

  pub All-append {κ} : (P : A → Type κ) (xs ys : List A) → All P xs → All P ys → All P (xs ++ ys)
  All-append P [] ys hx hy = hy
  All-append P (x ∷ xs) ys hx hy = (hx.0, All-append P xs ys hx.1 hy)

  pub All-mono {κ μ} :
      {P : A → Type κ} {Q : A → Type μ} (f : (a : A) → P a → Q a) (xs : List A)
      → All P xs
      → All Q xs
  All-mono f [] h = tt
  All-mono f (x ∷ xs) h = (f x h.0, All-mono f xs h.1)

  pub All-if {κ} :
      (P : A → Type κ) (b : Bool) (xs ys : List A)
      → All P xs
      → All P ys
      → All P (if b then xs else ys)
  All-if P true xs ys hx hy = hx
  All-if P false xs ys hx hy = hy

  pub All-filter {κ} :
      (P : A → Type κ) (p : A → Bool) (xs : List A) → All P xs → All P (filter p xs)
  All-filter P p [] h = tt
  All-filter P p (x ∷ xs) h =
      let rest = All-filter P p xs h.1 in
      All-if P (p x) (x ∷ filter p xs) (filter p xs) (h.0, rest) rest

  pub drop-nil : (n : ℕ) → drop {A = A} n [] ≡ []
  drop-nil zero = refl
  drop-nil (suc n) = refl

  take-nil : (n : ℕ) → take {A = A} n [] ≡ []
  take-nil zero = refl
  take-nil (suc n) = refl

  -- The elements from position `i` up to position `j`: `xs[i:j]`.
  abbrev pub slice : ℕ → ℕ → List A → List A
  slice i j xs = drop i (take j xs)

  pub drop-drop : (m n : ℕ) (xs : List A) → drop m (drop n xs) ≡ drop (n + m) xs
  drop-drop m zero xs = ap (λ k. drop k xs) (omega arith)
  drop-drop m (suc n) [] = rw (suc_add n m) (drop-nil m)
  drop-drop m (suc n) (x ∷ xs) = rw (suc_add n m) (drop-drop m n xs)

  pub drop-append : (n : ℕ) (xs ys : List A) → n ≤ length xs → drop n (xs ++ ys) ≡ drop n xs ++ ys
  drop-append zero xs ys h = refl
  drop-append (suc n) [] ys h = absurd (omega arith)
  drop-append (suc n) (x ∷ xs) ys h = drop-append n xs ys (omega arith)

  pub take-append : (n : ℕ) (xs ys : List A) → n ≤ length xs → take n (xs ++ ys) ≡ take n xs
  take-append zero xs ys h = refl
  take-append (suc n) [] ys h = absurd (omega arith)
  take-append (suc n) (x ∷ xs) ys h = ap (λ r. x ∷ r) (take-append n xs ys (omega arith))

  pub drop-length : (xs : List A) → drop (length xs) xs ≡ []
  drop-length [] = refl
  drop-length (x ∷ xs) = drop-length xs

  -- A slice of what follows `base` is a slice of the whole.
  pub slice-drop :
      (base i j : ℕ) (xs : List A) → slice i j (drop base xs) ≡ slice (base + i) (base + j) xs
  slice-drop zero i j xs = ap₂ (λ a b. slice a b xs) (omega arith) (omega arith)
  slice-drop (suc base) i j [] =
      rw (suc_add base i, suc_add base j) (ap (drop i) (take-nil j) ∙ drop-nil i)
  slice-drop (suc base) i j (x ∷ xs) = rw (suc_add base i, suc_add base j) (slice-drop base i j xs)

  -- Two slices that meet are one.
  pub slice-append-slice :
      (i j k : ℕ) (xs : List A) → i ≤ j → j ≤ k → slice i j xs ++ slice j k xs ≡ slice i k xs
  slice-append-slice zero zero k xs p q = refl
  slice-append-slice zero (suc j) zero xs p q = absurd (omega arith)
  slice-append-slice zero (suc j) (suc k) [] p q = refl
  slice-append-slice zero (suc j) (suc k) (x ∷ xs) p q =
      ap (λ r. x ∷ r) (slice-append-slice zero j k xs (omega arith) (omega arith))
  slice-append-slice (suc i) zero k xs p q = absurd (omega arith)
  slice-append-slice (suc i) (suc j) zero xs p q = absurd (omega arith)
  slice-append-slice (suc i) (suc j) (suc k) [] p q = refl
  slice-append-slice (suc i) (suc j) (suc k) (x ∷ xs) p q =
      slice-append-slice i j k xs (omega arith) (omega arith)

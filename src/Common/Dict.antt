-- ===== src/Common/Dict.antt =====
-- Python's `dict` with text keys, in insertion order, as an association list.
use Prim.Native.String.{String}
use mathlib.Core.Path.{◌≡◌, refl, subst}
use mathlib.Core.Option.{Option, none, some}
use mathlib.Core.List.{List, [], ◌∷◌}
use native.Mathlib.Omega.{arith}
use text.Mathlib.Text.{◌==◌ as str_eq}
use text.Mathlib.TextEquality.{eq_iff}
use rkcockpit.Common.Tests.{if◌then◌else◌, Bool-cases}
use rkcockpit.Common.Lists.{filter, length, All}
use Prim.Native.Nat.{suc, ◌≤◌}
use mathlib.Core.Bool.{Bool}
use mathlib.Core.Logic.{inl, inr}
use mathlib.Core.List.{◌++◌}

abbrev pub Dict {ℓ} : Type ℓ → Type ℓ
Dict V = List (String × V)

module _ {ℓ} {V : Type ℓ} where
  -- d.get(k)
  unfoldable pub lookup : String → Dict V → Option V
  lookup k [] = none
  lookup k ((j, v) ∷ d) = if str_eq j k then some v else lookup k d

  -- d[k] = v
  unfoldable pub insert : String → V → Dict V → Dict V
  insert k v [] = (k, v) ∷ []
  insert k v ((j, w) ∷ d) = if str_eq j k then (k, v) ∷ d else (j, w) ∷ insert k v d

  -- d.pop(k, None)
  unfoldable pub erase : String → Dict V → Dict V
  erase k [] = []
  erase k ((j, w) ∷ d) = let rest = erase k d in if str_eq j k then rest else (j, w) ∷ rest

  abbrev pub NodupKeys : Dict V → Type ℓ
  NodupKeys [] = Unit
  NodupKeys ((k, v) ∷ d) = (lookup k d ≡ none) × NodupKeys d

  pub lookup-insert :
      (k j : String) (v : V) (d : Dict V)
      → lookup j (insert k v d) ≡ (if str_eq k j then some v else lookup j d)
  unfolding lookup insert
  lookup-insert k j v [] = refl
  lookup-insert k j v ((i, w) ∷ d) =
      ground (arith, eq_iff k j, eq_iff i k, eq_iff i j, lookup-insert k j v d)

  pub lookup-erase :
      (k j : String) (d : Dict V) → lookup j (erase k d) ≡ (if str_eq k j then none else lookup j d)
  unfolding lookup erase
  lookup-erase k j [] = ground arith
  lookup-erase k j ((i, w) ∷ d) =
      ground (arith, eq_iff k j, eq_iff i k, eq_iff i j, lookup-erase k j d)

  pub insert-NodupKeys : (k : String) (v : V) (d : Dict V) → NodupKeys d → NodupKeys (insert k v d)
  unfolding insert lookup
  insert-NodupKeys k v [] h = (refl, tt)
  insert-NodupKeys k v ((i, w) ∷ d) h =
      ground (arith, insert-NodupKeys k v d h.1, lookup-insert k i v d, eq_iff i k, eq_iff k i)

  pub erase-NodupKeys : (k : String) (d : Dict V) → NodupKeys d → NodupKeys (erase k d)
  unfolding erase
  erase-NodupKeys k [] h = tt
  erase-NodupKeys k ((i, w) ∷ d) h =
      ground (arith, erase-NodupKeys k d h.1, lookup-erase k i d, eq_iff k i)

  lookup-filter-none :
      (p : String × V → Bool) (k : String) (d : Dict V)
      → lookup k d ≡ none
      → lookup k (filter p d) ≡ none
  unfolding lookup
  lookup-filter-none p k [] h = refl
  lookup-filter-none p k ((j, v) ∷ d) h = ground (arith, lookup-filter-none p k d, eq_iff j k)

  pub filter-NodupKeys : (p : String × V → Bool) (d : Dict V) → NodupKeys d → NodupKeys (filter p d)
  filter-NodupKeys p [] h = tt
  filter-NodupKeys p ((j, v) ∷ d) h =
      ground (arith, lookup-filter-none p j d, h.0, filter-NodupKeys p d h.1)

  pub lookup-append :
      (k : String) (d e : Dict V)
      → lookup k (d ++ e) ≡ elim (lookup k d) [ none ↦ lookup k e | some v ↦ some v ]
  unfolding lookup
  lookup-append k [] e = refl
  lookup-append k ((j, v) ∷ d) e = ground (arith, lookup-append k d e, eq_iff j k)

  -- A new key at the end.
  pub append-NodupKeys :
      (k : String) (v : V) (d : Dict V)
      → lookup k d ≡ none
      → NodupKeys d
      → NodupKeys (d ++ (k, v) ∷ [])
  unfolding lookup
  append-NodupKeys k v [] absent h = (refl, tt)
  append-NodupKeys k v ((j, w) ∷ d) absent h = ground (
    arith,
    lookup-append j d ((k, v) ∷ []),
    eq_iff j k,
    eq_iff k j,
    append-NodupKeys k v d,
    h.0,
    h.1,
  )

  pub length-erase-le : (k : String) (d : Dict V) → length (erase k d) ≤ length d
  unfolding erase
  length-erase-le k [] = omega arith
  length-erase-le k ((j, w) ∷ d) = ground (arith, length-erase-le k d)

  -- A key that is there goes.
  pub length-erase-lt :
      (k : String) (v : V) (d : Dict V) → lookup k d ≡ some v → suc (length (erase k d)) ≤ length d
  unfolding lookup erase
  length-erase-lt k v [] h = absurd (ground arith)
  length-erase-lt k v ((j, w) ∷ d) h = ground (arith, length-erase-le k d, length-erase-lt k v d)

  pub erase-All {κ} :
      (P : String × V → Type κ) (k : String) (d : Dict V) → All P d → All P (erase k d)
  unfolding erase
  erase-All P k [] h = tt
  erase-All P k ((j, w) ∷ d) h = elim (Bool-cases (str_eq j k)) [
    | inl same ↦ rw same (erase-All P k d h.1)
    | inr other ↦ rw other (h.0, erase-All P k d h.1)
  ]

  pub insert-All {κ} :
      (P : String × V → Type κ) (k : String) (v : V) (d : Dict V)
      → P (k, v)
      → All P d
      → All P (insert k v d)
  unfolding insert
  insert-All P k v [] new h = (new, tt)
  insert-All P k v ((j, w) ∷ d) new h = elim (Bool-cases (str_eq j k)) [
    | inl same ↦ rw same (new, h.1)
    | inr other ↦ rw other (h.0, insert-All P k v d new h.1)
  ]

  pub lookup-All {κ} :
      (P : String × V → Type κ) (k : String) (v : V) (d : Dict V)
      → lookup k d ≡ some v
      → All P d
      → P (k, v)
  unfolding lookup
  lookup-All P k v [] e h = absurd (ground arith)
  lookup-All P k v ((j, w) ∷ d) e h = elim (Bool-cases (str_eq j k)) [
    | inl same ↦
        let pair : ◌≡◌ {A = String × V} (j, w) (k, v) = ground (arith, eq_iff j k) in
        subst P pair h.0
    | inr other ↦ lookup-All P k v d (ground arith) h.1
  ]

  -- A missing key takes nothing with it.
  pub erase-absent : (k : String) (d : Dict V) → lookup k d ≡ none → erase k d ≡ d
  unfolding erase lookup
  erase-absent k [] absent = refl
  erase-absent k ((j, w) ∷ d) absent = ground (arith, erase-absent k d)

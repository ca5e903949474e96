-- ===== src/PathGuard/Examples.antt =====
-- host/core/pathguard.py on a kernel that keeps a list of the open descriptors.
use rkcockpit.Common.{
  All, Bool, List, String, [], arith, false, filter, max, none, not, refl, str_eq, suc, true, ℕ,
  ◌&&◌, ◌==◌, ◌∷◌, ◌≡◌, ◌≤◌, ◌||◌,
}
use rkcockpit.Common.Result.{Result, ok, raised}
use rkcockpit.PathGuard.{
  Errno, Kernel, mkdirs, not_found, open_dir, parent, rooted_components, leaves_root,
}
use rkcockpit.PathGuard.Names.{IsName}
use rkcockpit.PathGuard.Descriptors.{IsKernel, Opens, rooted-Opens}

unfoldable holds : ℕ → List ℕ → Bool
holds m [] = false
holds m (x ∷ xs) = m == x || holds m xs

unfoldable fresh : List ℕ → ℕ
fresh [] = 0
fresh (x ∷ xs) = suc (max x (fresh xs))

fresh-holds : (m : ℕ) (xs : List ℕ) → fresh xs ≤ m → holds m xs ≡ false
unfolding holds fresh
fresh-holds m [] h = refl
fresh-holds m (x ∷ xs) h = ground (arith, fresh-holds m xs)

unfoldable give : Bool → List ℕ → Result Errno ℕ × List ℕ
unfolding fresh
give true k = (ok (fresh k), fresh k ∷ k)
give false k = (raised not_found, k)

-- A kernel in which every name but one is a directory.
abbrev kernel : Kernel (List ℕ)
kernel = record {
  open_at = λ item fd k. give (not (str_eq item "missing")) k;
  dup = λ fd k. give true k;
  close = λ fd k. filter (λ x. not (x == fd)) k;
  mkdir_at = λ item fd k. (none, k);
}

give-Opens : (found : Bool) (k : List ℕ) → Opens holds k (give found k)
unfolding give holds
give-Opens true k = (fresh-holds (fresh k) k (omega arith), λ m. refl)
give-Opens false k = λ m. refl

holds-filter :
    (fd m : ℕ) (k : List ℕ) → holds m (filter (λ x. not (x == fd)) k) ≡ (not (m == fd) && holds m k)
unfolding holds
holds-filter fd m [] = ground arith
holds-filter fd m (x ∷ k) = ground (arith, holds-filter fd m k)

kernel-IsKernel : IsKernel kernel holds
kernel-IsKernel = record {
  opens = λ item fd k. give-Opens (not (str_eq item "missing")) k;
  dups = λ fd k. give-Opens true k;
  closes = λ fd m k. holds-filter fd m k;
  makes = λ item fd m k. refl;
}

abbrev same : String → String
same t = t

abbrev names : List String
names = "logs" ∷ "missing" ∷ "today" ∷ []

accepted : rooted_components same "/logs/./missing//today" ≡ ok names
unfolding rooted_components
accepted = refl

refused : rooted_components same "/logs/../etc" ≡ raised leaves_root
unfolding rooted_components
refused = refl

-- The second name is not there, and no descriptor is left open.
opened : open_dir kernel 0 names (0 ∷ []) ≡ (raised not_found, 0 ∷ [])
unfolding open_dir give
opened = refl

rooted-Opens_example :
    All IsName names
    × Opens holds (0 ∷ []) (open_dir kernel 0 names (0 ∷ []))
    × Opens holds (0 ∷ []) (parent kernel 0 false names (0 ∷ []))
    × ((m : ℕ) → holds m (mkdirs kernel 0 names (0 ∷ [])).1 ≡ holds m (0 ∷ []))
rooted-Opens_example =
    rooted-Opens kernel holds kernel-IsKernel same "/logs/./missing//today" names accepted 0 false
      (0 ∷ [])

-- ===== src/PathGuard.antt =====
-- host/core/pathguard.py: paths as lists of names, and the descriptors below a trusted directory. The kernel
-- is a record of its calls; Python's `str.strip` is a parameter. `local_components`, which works on
-- `os.path`, is not modelled.
mod Examples
pub mod Names
pub mod Descriptors
use Prim.Native.Char.{Char, code}
use Prim.Native.String
use rkcockpit.Common.{
  Bool, List, Option, String, [], false, if◌then◌else◌, none, some, str_eq, ℕ, ◌==◌, ◌||◌, ◌∷◌,
}
use rkcockpit.Common.Result.{Result, ok, raised, ◌>>=◌}

-- The ValueErrors of `_parts`.
pub data Fault : Type 0 where
  leaves_root has_nul : Fault

unfoldable pub push : Char → List String → List String
push c [] = String.◌∷◌ c "" ∷ []
push c (w ∷ ws) = String.◌∷◌ c w ∷ ws

-- `path.split(os.sep)`
unfoldable pub split : String → List String
unfolding push
split String.[] = "" ∷ []
split (String.◌∷◌ c s) = let rest = split s in if code c == b'/' then "" ∷ rest else push c rest

-- The code of a character in a text.
unfoldable pub contains : ℕ → String → Bool
contains n String.[] = false
contains n (String.◌∷◌ c s) = code c == n || contains n s

-- The loop of `_parts`.
unfoldable pub keep_names : List String → Result Fault (List String)
unfolding contains
keep_names [] = ok []
keep_names (item ∷ items) =
    let rest = keep_names items in
    if str_eq item "" || str_eq item "."
    then rest
    else if str_eq item ".."
    then raised leaves_root
    else if contains 0 item
    then raised has_nul
    else rest >>= (λ names. ok (item ∷ names))

unfoldable pub parts : String → Result Fault (List String)
unfolding split keep_names
parts path = keep_names (split path)

-- `path.lstrip(os.sep)`
unfoldable pub lstrip_sep : String → String
lstrip_sep String.[] = String.[]
lstrip_sep (String.◌∷◌ c s) =
    let rest = lstrip_sep s in if code c == b'/' then rest else String.◌∷◌ c s

unfoldable pub rooted_components : (String → String) → String → Result Fault (List String)
unfolding parts lstrip_sep
rooted_components strip path =
    let p = strip path in
    if str_eq p "" || str_eq p "~" || str_eq p "/" then ok [] else parts (lstrip_sep p)

-- Why a call of the kernel fails: FileNotFoundError, FileExistsError, or another OSError.
pub data Errno : Type 0 where
  not_found exists other : Errno

-- The kernel's calls on descriptors, which are numbers: `open` with O_NOFOLLOW of a name in a directory,
-- `dup`, `close` and `mkdir`.
pub record Kernel (K : Type 0) : Type 0 where
  pub open_at : String → ℕ → K → Result Errno ℕ × K
  pub dup : ℕ → K → Result Errno ℕ × K
  pub close : ℕ → K → K
  pub mkdir_at : String → ℕ → K → Option Errno × K

module _ {K : Type 0} (kernel : Kernel K) where
  -- From a descriptor to the next, which closes the first in any case.
  unfoldable pub hand_over :
      (ℕ → K → Result Errno ℕ × K) → ℕ → Result Errno ℕ × K → Result Errno ℕ × K
  hand_over next fd (ok nxt, k) = next nxt (kernel.close fd k)
  hand_over next fd (raised e, k) = (raised e, kernel.close fd k)

  -- The loop of `open_dir`.
  unfoldable pub walk : List String → ℕ → K → Result Errno ℕ × K
  unfolding hand_over
  walk [] fd k = (ok fd, k)
  walk (item ∷ items) fd k = hand_over (walk items) fd (kernel.open_at item fd k)

  unfoldable pub from_dup : (ℕ → K → Result Errno ℕ × K) → Result Errno ℕ × K → Result Errno ℕ × K
  from_dup next (ok fd, k) = next fd k
  from_dup next (raised e, k) = (raised e, k)

  unfoldable pub open_dir : ℕ → List String → K → Result Errno ℕ × K
  unfolding walk from_dup
  open_dir root items k = from_dup (walk items) (kernel.dup root k)

  unfoldable pub open_made : String → ℕ → Option Errno × K → Result Errno ℕ × K
  open_made item fd (some e, k) = (raised e, k)
  open_made item fd (none, k) = kernel.open_at item fd k

  -- The `try` of `parent`'s loop, which may make the directory.
  unfoldable pub retry : Bool → String → ℕ → Result Errno ℕ × K → Result Errno ℕ × K
  unfolding open_made
  retry create item fd (raised not_found, k) =
      if create then open_made item fd (kernel.mkdir_at item fd k) else (raised not_found, k)
  retry create item fd (r, k) = (r, k)

  -- The loop of `parent` over all components but the last.
  unfoldable pub descend : Bool → String → List String → ℕ → K → Result Errno ℕ × K
  unfolding hand_over retry
  descend create item [] fd k = (ok fd, k)
  descend create item (leaf ∷ items) fd k =
      hand_over (descend create leaf items) fd (retry create item fd (kernel.open_at item fd k))

  unfoldable pub last : String → List String → String
  last item [] = item
  last item (leaf ∷ items) = last leaf items

  unfoldable pub parent : ℕ → Bool → List String → K → Result Errno ℕ × K
  unfolding descend from_dup
  parent root create [] k = kernel.dup root k
  parent root create (item ∷ items) k = from_dup (descend create item items) (kernel.dup root k)

  -- The leaf that `parent` returns with the descriptor.
  unfoldable pub leaf_of : List String → String
  unfolding last
  leaf_of [] = ""
  leaf_of (item ∷ items) = last item items

  unfoldable pub enter_made : String → ℕ → Option Errno × K → Result Errno ℕ × K
  enter_made item fd (none, k) = kernel.open_at item fd k
  enter_made item fd (some exists, k) = kernel.open_at item fd k
  enter_made item fd (some e, k) = (raised e, k)

  -- The loop of `mkdirs`.
  unfoldable pub make_all : List String → ℕ → K → Result Errno ℕ × K
  unfolding hand_over enter_made
  make_all [] fd k = (ok fd, k)
  make_all (item ∷ items) fd k =
      hand_over (make_all items) fd (enter_made item fd (kernel.mkdir_at item fd k))

  unfoldable pub close_last : Result Errno ℕ × K → Option Errno × K
  close_last (ok fd, k) = (none, kernel.close fd k)
  close_last (raised e, k) = (some e, k)

  unfoldable pub mkdirs : ℕ → List String → K → Option Errno × K
  unfolding make_all from_dup close_last
  mkdirs root items k = close_last (from_dup (make_all items) (kernel.dup root k))

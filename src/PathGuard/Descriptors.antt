-- ===== src/PathGuard/Descriptors.antt =====
-- Which descriptors the calls of host/core/pathguard.py leave open.
use rkcockpit.PathGuard.Names.{IsName, rooted_components-IsName}
use rkcockpit.Common.{
  All, Bool, List, Option, String, [], arith, false, none, not, some, sym, true, ℕ, ◌&&◌, ◌==◌, ◌∙◌,
  ◌∷◌, ◌≡◌, ◌||◌,
}
use rkcockpit.Common.Result.{Result, ok, raised}
use rkcockpit.PathGuard.{
  Errno, Kernel, close_last, descend, enter_made, exists, from_dup, hand_over, make_all, mkdirs,
  not_found, open_dir, open_made, other, parent, retry, rooted_components, walk,
}

-- A call that gives a descriptor leaves the others as they were; one that raises changes none.
abbrev pub Opens : {K : Type 0} → (ℕ → K → Bool) → K → Result Errno ℕ × K → Type 0
Opens is_open k (ok fd, after) =
    (is_open fd k ≡ false) × ((m : ℕ) → is_open m after ≡ (m == fd || is_open m k))
Opens is_open k (raised e, after) = (m : ℕ) → is_open m after ≡ is_open m k

-- What the kernel says of `open`, `dup`, `close` and `mkdir`.
pub record IsKernel {K : Type 0} (kernel : Kernel K) (is_open : ℕ → K → Bool) : Type 0 where
  pub opens : (item : String) (fd : ℕ) (k : K) → Opens is_open k (kernel.open_at item fd k)
  pub dups : (fd : ℕ) (k : K) → Opens is_open k (kernel.dup fd k)
  pub closes : (fd m : ℕ) (k : K) → is_open m (kernel.close fd k) ≡ (not (m == fd) && is_open m k)
  pub makes :
      (item : String) (fd m : ℕ) (k : K) → is_open m (kernel.mkdir_at item fd k).1 ≡ is_open m k

module _ {K : Type 0} (kernel : Kernel K) (is_open : ℕ → K → Bool)
    (law : IsKernel kernel is_open) where
  -- `k` has the one descriptor more.
  abbrev Has : ℕ → K → K → Type 0
  Has fd before k = Opens is_open before (ok fd, k)

  hand_over-Opens :
      (next : ℕ → K → Result Errno ℕ × K) (fd : ℕ) (before k : K) (end : Result Errno ℕ × K)
      → ((nxt : ℕ) (k' : K) → Has nxt before k' → Opens is_open before (next nxt k'))
      → Has fd before k
      → Opens is_open k end
      → Opens is_open before (hand_over kernel next fd end)
  unfolding hand_over
  hand_over-Opens next fd before k (ok nxt, k') more (unused, rest) (fresh, opened) =
      more nxt (kernel.close fd k') (
        ground (arith, rest nxt),
        λ m. ground (arith, law.closes fd m k', opened m, rest m, rest nxt, rest fd),
      )
  hand_over-Opens next fd before k (raised e, k') more (unused, rest) same =
      λ m. ground (arith, law.closes fd m k', same m, rest m)

  shift-Opens :
      (before k : K) (end : Result Errno ℕ × K)
      → ((m : ℕ) → is_open m k ≡ is_open m before)
      → Opens is_open k end
      → Opens is_open before end
  shift-Opens before k (ok fd, after) same (unused, rest) =
      (sym (same fd) ∙ unused, λ m. ground (arith, rest m, same m))
  shift-Opens before k (raised e, after) same rest = λ m. rest m ∙ same m

  open_made-Opens :
      (item : String) (fd : ℕ) (before : K) (end : Option Errno × K)
      → ((m : ℕ) → is_open m end.1 ≡ is_open m before)
      → Opens is_open before (open_made kernel item fd end)
  unfolding open_made
  open_made-Opens item fd before (none, k) same = shift-Opens before k _ same (law.opens item fd k)
  open_made-Opens item fd before (some e, k) same = same

  retry-Opens :
      (create : Bool) (item : String) (fd : ℕ) (before : K) (end : Result Errno ℕ × K)
      → Opens is_open before end
      → Opens is_open before (retry kernel create item fd end)
  unfolding retry
  retry-Opens create item fd before (ok nxt, k) h = h
  retry-Opens true item fd before (raised not_found, k) h =
      open_made-Opens item fd before (kernel.mkdir_at item fd k) (λ m. law.makes item fd m k ∙ h m)
  retry-Opens false item fd before (raised not_found, k) h = h
  retry-Opens create item fd before (raised exists, k) h = h
  retry-Opens create item fd before (raised other, k) h = h

  enter_made-Opens :
      (item : String) (fd : ℕ) (before : K) (end : Option Errno × K)
      → ((m : ℕ) → is_open m end.1 ≡ is_open m before)
      → Opens is_open before (enter_made kernel item fd end)
  unfolding enter_made
  enter_made-Opens item fd before (none, k) same = shift-Opens before k _ same (law.opens item fd k)
  enter_made-Opens item fd before (some exists, k) same =
      shift-Opens before k _ same (law.opens item fd k)
  enter_made-Opens item fd before (some not_found, k) same = same
  enter_made-Opens item fd before (some other, k) same = same

  walk-Opens :
      (items : List String) (fd : ℕ) (before k : K)
      → Has fd before k
      → Opens is_open before (walk kernel items fd k)
  unfolding walk
  walk-Opens [] fd before k h = h
  walk-Opens (item ∷ items) fd before k h =
      hand_over-Opens (walk kernel items) fd before k _
        (λ nxt k' g. walk-Opens items nxt before k' g) h (law.opens item fd k)

  descend-Opens :
      (create : Bool) (item : String) (items : List String) (fd : ℕ) (before k : K)
      → Has fd before k
      → Opens is_open before (descend kernel create item items fd k)
  unfolding descend
  descend-Opens create item [] fd before k h = h
  descend-Opens create item (leaf ∷ items) fd before k h =
      hand_over-Opens (descend kernel create leaf items) fd before k _
        (λ nxt k' g. descend-Opens create leaf items nxt before k' g) h
        (retry-Opens create item fd k _ (law.opens item fd k))

  make_all-Opens :
      (items : List String) (fd : ℕ) (before k : K)
      → Has fd before k
      → Opens is_open before (make_all kernel items fd k)
  unfolding make_all
  make_all-Opens [] fd before k h = h
  make_all-Opens (item ∷ items) fd before k h =
      hand_over-Opens (make_all kernel items) fd before k _
        (λ nxt k' g. make_all-Opens items nxt before k' g) h
        (enter_made-Opens item fd k _ (λ m. law.makes item fd m k))

  from_dup-Opens :
      (next : ℕ → K → Result Errno ℕ × K) (before : K) (end : Result Errno ℕ × K)
      → ((fd : ℕ) (k : K) → Has fd before k → Opens is_open before (next fd k))
      → Opens is_open before end
      → Opens is_open before (from_dup kernel next end)
  unfolding from_dup
  from_dup-Opens next before (ok fd, k) more h = more fd k h
  from_dup-Opens next before (raised e, k) more h = h

  close_last-same :
      (before : K) (end : Result Errno ℕ × K)
      → Opens is_open before end
      → (m : ℕ) → is_open m (close_last kernel end).1 ≡ is_open m before
  unfolding close_last
  close_last-same before (ok fd, k) (unused, rest) =
      λ m. ground (arith, law.closes fd m k, rest m, unused)
  close_last-same before (raised e, k) h = h

  open_dir-Opens :
      (root : ℕ) (items : List String) (k : K) → Opens is_open k (open_dir kernel root items k)
  unfolding open_dir
  open_dir-Opens root items k =
      from_dup-Opens (walk kernel items) k _ (λ fd k' h. walk-Opens items fd k k' h)
        (law.dups root k)

  parent-Opens :
      (root : ℕ) (create : Bool) (items : List String) (k : K)
      → Opens is_open k (parent kernel root create items k)
  unfolding parent
  parent-Opens root create [] k = law.dups root k
  parent-Opens root create (item ∷ items) k =
      from_dup-Opens (descend kernel create item items) k _
        (λ fd k' h. descend-Opens create item items fd k k' h) (law.dups root k)

  mkdirs-same :
      (root : ℕ) (items : List String) (k : K) (m : ℕ)
      → is_open m (mkdirs kernel root items k).1 ≡ is_open m k
  unfolding mkdirs
  mkdirs-same root items k = close_last-same k _ (
      from_dup-Opens (make_all kernel items) k _ (λ fd k' h. make_all-Opens items fd k k' h)
        (law.dups root k))

  -- On a kernel whose calls open and close the descriptors that they say, a path that is accepted gives
  -- names: no one is empty, a dot, two dots, or has a slash or a NUL. For these `open_dir` and `parent` give
  -- a new descriptor or raise, and `mkdirs` gives none; the other descriptors are open as before.
  pub rooted-Opens :
      (strip : String → String) (path : String) (items : List String)
      → rooted_components strip path ≡ ok items
      → (root : ℕ) (create : Bool) (k : K)
      → All IsName items
        × Opens is_open k (open_dir kernel root items k)
        × Opens is_open k (parent kernel root create items k)
        × ((m : ℕ) → is_open m (mkdirs kernel root items k).1 ≡ is_open m k)
  rooted-Opens strip path items accepted root create k = (
    rooted_components-IsName strip path items accepted,
    open_dir-Opens root items k,
    parent-Opens root create items k,
    mkdirs-same root items k,
  )

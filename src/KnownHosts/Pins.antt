-- ===== src/KnownHosts/Pins.antt =====
-- What the file of host/transport/ssh_known_hosts.py holds after any pins.
use rkcockpit.Common.{
  All, All-append, Bool, Bool-cases, List, Option, Option-cases, String, [], ap, arith, eq_iff,
  false, inl, inr, ltb, none, refl, some, str_eq, true, ℕ, ◌++◌, ◌∙◌, ◌∷◌, ◌≡◌, ◌||◌,
}
use Prim.Native.Char.{Char}
use rkcockpit.KnownHosts.{
  has_entry, lines_of, has_newline, File, Line, Request, add_to, append, checked, found, has_token,
  host_token, is_key_type, line_of, lists, pin_key, run,
}

-- No host has two lines.
abbrev pub Distinct : List Line → Type 0
Distinct [] = Unit
Distinct (l ∷ lines) = All (λ t. has_token t lines ≡ false) l.hosts × Distinct lines

has_token-append :
    (t u : String) (r : Request) (lines : List Line)
    → has_token t (lines ++ line_of u r ∷ []) ≡ (has_token t lines || str_eq u t)
unfolding has_token line_of lists
has_token-append t u r [] = ground arith
has_token-append t u r (l ∷ lines) = ground (arith, has_token-append t u r lines)

lists-apart :
    (t : String) (hosts : List String)
    → lists t hosts ≡ false
    → (u : String) → lists u hosts ≡ true
    → str_eq t u ≡ false
unfolding lists
lists-apart t [] unlisted u listed = absurd (ground arith)
lists-apart t (h ∷ hosts) unlisted u listed =
    ground (arith, lists-apart t hosts, eq_iff h t, eq_iff h u, eq_iff t u)

hosts-append :
    (t : String) (r : Request) (lines : List Line) (hosts : List String)
    → lists t hosts ≡ false
    → All (λ u. has_token u lines ≡ false) hosts
    → All (λ u. has_token u (lines ++ line_of t r ∷ []) ≡ false) hosts
unfolding lists
hosts-append t r lines [] unlisted h = tt
hosts-append t r lines (u ∷ hosts) unlisted h = (
  ground (arith, has_token-append u t r lines, h.0, eq_iff t u, eq_iff u t),
  hosts-append t r lines hosts (ground arith) h.1,
)

append-Distinct :
    (t : String) (r : Request) (lines : List Line)
    → has_token t lines ≡ false
    → Distinct lines
    → Distinct (lines ++ line_of t r ∷ [])
unfolding has_token line_of
append-Distinct t r [] absent h = ((refl, tt), tt)
append-Distinct t r (l ∷ lines) absent h = (
  hosts-append t r lines l.hosts (ground arith) h.0,
  append-Distinct t r lines (ground arith) h.1,
)

module _ (fingerprint : String → Option String) (is_space : Char → Bool) (printed : ℕ → String)
    (size : List Line → ℕ) (Q : Request → Type 0) where
  -- The line is the key of such a request, whose fingerprint was the expected one.
  abbrev pub Verified : Line → Type 0
  Verified line =
      (r : Request) × (t : String) × Q r
      × (fingerprint r.key ≡ some r.expected)
      × (is_key_type r.kind ≡ true)
      × (has_newline r.kind ≡ false)
      × (host_token fingerprint is_space printed size r.host r.port ≡ some t)
      × (line ≡ line_of t r)

  abbrev pub IsPinned : File fingerprint is_space printed size → Type 0
  IsPinned none = Unit
  IsPinned (some lines) = Distinct lines × All Verified lines

  append-IsPinned :
      (written : Bool) (r : Request) (lines : List Line) (file : Option (List Line)) (t : String)
      → has_newline r.kind ≡ false
      → Verified (line_of t r)
      → has_token t lines ≡ false
      → Distinct lines × All Verified lines
      → IsPinned file
      → IsPinned (append fingerprint is_space printed size written r lines file (some t)).1
  unfolding append lines_of
  append-IsPinned true r lines file t plain new absent (distinct, all) h = rw plain (
    append-Distinct t r lines absent distinct,
    All-append Verified lines (line_of t r ∷ []) all (new, tt),
  )
  append-IsPinned false r lines file t plain new absent parts h = h

  found-IsPinned :
      (written : Bool) (r : Request) (lines : List Line) (t : String)
      → has_newline r.kind ≡ false
      → Verified (line_of t r)
      → Distinct lines × All Verified lines
      → IsPinned (found fingerprint is_space printed size written r lines (some t)).1
  unfolding found
  found-IsPinned written r lines t plain new h = elim (Bool-cases (has_token t lines)) [
    | inl there ↦ elim (Bool-cases (has_entry t r lines)) [
      | inl same ↦ rw (there, same, found) h
      | inr other ↦ rw (there, other, found) h
    ]
    | inr absent ↦
        rw (absent, found) (append-IsPinned written r lines (some lines) t plain new absent h h)
  ]

  add_to-IsPinned :
      (written : Bool) (r : Request) (file : Option (List Line))
      → Q r
      → fingerprint r.key ≡ some r.expected
      → is_key_type r.kind ≡ true
      → has_newline r.kind ≡ false
      → IsPinned file
      → IsPinned (add_to fingerprint is_space printed size written r file).1
  unfolding add_to has_token
  add_to-IsPinned written r none q known typed plain h =
      elim (Option-cases (host_token fingerprint is_space printed size r.host r.port)) [
        | inl bad ↦ rw (bad, add_to, append) tt
        | inr (t, named) ↦
            rw (named, add_to)
              (append-IsPinned written r [] none t plain (r, t, q, known, typed, plain, named, refl)
                refl (tt, tt) tt)
      ]
  add_to-IsPinned written r (some lines) q known typed plain h =
      elim (Bool-cases (ltb 1048576 (size lines))) [
        | inl large ↦ rw (large, add_to) h
        | inr fits ↦
            elim (Option-cases (host_token fingerprint is_space printed size r.host r.port)) [
              | inl bad ↦ rw (fits, bad, add_to, found) h
              | inr (t, named) ↦
                  rw (fits, named, add_to)
                    (found-IsPinned written r lines t plain
                      (r, t, q, known, typed, plain, named, refl) h)
            ]
      ]

  pin_key-IsPinned :
      (private_enough written : Bool) (r : Request) (file : Option (List Line))
      → Q r
      → has_newline r.kind ≡ false
      → IsPinned file
      → IsPinned (pin_key fingerprint is_space printed size private_enough written r file).1
  unfolding pin_key checked
  pin_key-IsPinned private_enough written r file q plain h =
      elim (Option-cases (fingerprint r.key)) [
        | inl bad ↦ rw (bad, checked) h
        | inr (actual, known) ↦ elim (Bool-cases (str_eq actual r.expected)) [
          | inr other ↦ rw (known, other, checked) h
          | inl same ↦ elim (Bool-cases (is_key_type r.kind)) [
            | inr untyped ↦ rw (known, same, untyped, checked) h
            | inl typed ↦ elim (Bool-cases private_enough) [
              | inr shared ↦ rw (known, same, typed, shared, checked) h
              | inl closed ↦
                  rw (known, same, typed, closed, checked)
                    (add_to-IsPinned written r file q
                      (known ∙ ap some ((eq_iff actual r.expected).0 same)) typed plain h)
            ]
          ]
        ]
      ]

  run-IsPinned_from :
      (requests : List (Bool × Bool × Request)) (file : Option (List Line))
      → All (λ e. Q e.2) requests
      → All (λ e. has_newline e.2.kind ≡ false) requests
      → IsPinned file
      → IsPinned (run fingerprint is_space printed size requests file)
  unfolding run
  run-IsPinned_from [] file q plain h = h
  run-IsPinned_from ((private_enough, written, r) ∷ requests) file q plain h =
      run-IsPinned_from requests _ q.1 plain.1
        (pin_key-IsPinned private_enough written r file q.0 plain.0 h)

  -- Where no file was, after any pins one by one of requests whose types have no line feed, no host has two
  -- lines, and each line is the key of one of the requests, for its host and port, with the fingerprint
  -- that the request expected and a type that begins and goes on as the types of OpenSSH's keys do.
  pub run-IsPinned :
      (requests : List (Bool × Bool × Request))
      → All (λ e. Q e.2) requests
      → All (λ e. has_newline e.2.kind ≡ false) requests
      → IsPinned (run fingerprint is_space printed size requests none)
  run-IsPinned requests q plain = run-IsPinned_from requests none q plain tt

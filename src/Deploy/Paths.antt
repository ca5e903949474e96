-- ===== src/Deploy/Paths.antt =====
-- `os.path.normpath` of Python on POSIX, which `check_dest` of host/task/deployjob.py calls.
use Prim.Native.Char.{code}
use Prim.Native.String
use text.Mathlib.Text.{starts_with}
use text.Mathlib.TextEquality.{starts_with_iff}
use text.Mathlib.TextLemmas.{nil-append, cons-append}
use rkcockpit.Common.{
  ◌⊎◌, subst, All, All-append, Bool, Bool-cases, List, Option, Option-cases, String, [], ap, arith,
  false, if◌then◌else◌, inl, inr, none, not, refl, some, str_eq, sym, true, ◌&&◌, ◌++◌, ◌==◌, ◌||◌,
  ◌∙◌, ◌∷◌, ◌≡◌,
}
use rkcockpit.PathGuard.{contains, split}
use rkcockpit.PathGuard.Names.{split-IsPart}

unfoldable pub last? : List String → Option String
last? [] = none
last? (c ∷ []) = some c
last? (c ∷ d ∷ cs) = last? (d ∷ cs)

unfoldable pub drop_last : List String → List String
drop_last [] = []
drop_last (c ∷ []) = []
drop_last (c ∷ d ∷ cs) = c ∷ drop_last (d ∷ cs)

-- A `..` that stays: at the start of a relative path, or behind another one.
unfoldable pub stays : Bool → Option String → Bool
stays rooted none = not rooted
stays rooted (some c) = str_eq c ".."

unfoldable pub add_comp : Bool → String → List String → List String
unfolding last? drop_last stays
add_comp rooted comp comps =
    if str_eq comp "" || str_eq comp "."
    then comps
    else if not (str_eq comp "..") || stays rooted (last? comps)
    then comps ++ comp ∷ []
    else drop_last comps

unfoldable pub add_comps : Bool → List String → List String → List String
unfolding add_comp
add_comps rooted [] comps = comps
add_comps rooted (comp ∷ more) comps = add_comps rooted more (add_comp rooted comp comps)

-- "/".join(comps)
unfoldable pub join : List String → String
join [] = ""
join (c ∷ []) = c
join (c ∷ d ∷ cs) = String.◌++◌ c (String.◌++◌ "/" (join (d ∷ cs)))

unfoldable pub starts_slash : String → Bool
starts_slash String.[] = false
starts_slash (String.◌∷◌ c s) = code c == b'/'

-- None, one, or the two slashes that POSIX keeps.
unfoldable pub lead_of : String → String
lead_of s =
    if starts_with s "//" && not (starts_with s "///")
    then "//"
    else if starts_slash s
    then "/"
    else ""

unfoldable pub normpath : String → String
unfolding starts_slash add_comps join lead_of split
normpath s =
    let comps = add_comps (starts_slash s) (split s) [] in
    let d = String.◌++◌ (if starts_slash s then lead_of s else "") (join comps) in
    if str_eq d "" then "." else d

-- A name with no slash in it.
abbrev IsItem : String → Type 0
IsItem c = (str_eq c "" ≡ false) × (contains b'/' c ≡ false)

-- One that leads below its directory.
abbrev pub IsPlain : String → Type 0
IsPlain c =
    (str_eq c "" ≡ false)
    × (str_eq c "." ≡ false)
    × (str_eq c ".." ≡ false)
    × (contains b'/' c ≡ false)

-- One or two slashes, and such names with a slash between them.
abbrev pub IsPlainPath : String → Type 0
IsPlainPath d =
    (items : List String) × All IsPlain items
    × ((d ≡ String.◌++◌ "/" (join items)) ⊎ (d ≡ String.◌++◌ "//" (join items)))

drop_last-All : (P : String → Type 0) (cs : List String) → All P cs → All P (drop_last cs)
unfolding drop_last
drop_last-All P [] h = tt
drop_last-All P (c ∷ []) h = tt
drop_last-All P (c ∷ d ∷ cs) h = (h.0, drop_last-All P (d ∷ cs) h.1)

last-All :
    (P : String → Type 0) (cs : List String) (c : String) → last? cs ≡ some c → All P cs → P c
unfolding last?
last-All P [] c e h = absurd (ground arith)
last-All P (b ∷ []) c e h = let same : b ≡ c = cc in subst P same h.0
last-All P (b ∷ d ∷ cs) c e h = last-All P (d ∷ cs) c e h.1

-- On an absolute path no `..` stays.
falls : (comps : List String) → All IsPlain comps → stays true (last? comps) ≡ false
unfolding stays
falls comps h = elim (Option-cases (last? comps)) [
  | inl empty ↦ rw (empty, stays) refl
  | inr (c, e) ↦ rw (e, stays) (last-All IsPlain comps c e h).2
]

add_comp-IsPlain :
    (comp : String) (comps : List String)
    → contains b'/' comp ≡ false
    → All IsPlain comps
    → All IsPlain (add_comp true comp comps)
unfolding add_comp
add_comp-IsPlain comp comps part h = elim (Bool-cases (str_eq comp "" || str_eq comp ".")) [
  | inl skipped ↦ rw skipped h
  | inr named ↦ elim (Bool-cases (str_eq comp "..")) [
    | inl up ↦ rw (named, up, falls comps h) (drop_last-All IsPlain comps h)
    | inr plain ↦
        rw (named, plain)
          (All-append IsPlain comps (comp ∷ []) h ((ground arith, ground arith, plain, part), tt))
  ]
]

add_comps-IsPlain :
    (more comps : List String)
    → All (λ c. contains b'/' c ≡ false) more
    → All IsPlain comps
    → All IsPlain (add_comps true more comps)
unfolding add_comps
add_comps-IsPlain [] comps parts h = h
add_comps-IsPlain (comp ∷ more) comps parts h =
    add_comps-IsPlain more (add_comp true comp comps) parts.1
      (add_comp-IsPlain comp comps parts.0 h)

add_comp-items :
    (comp : String) (comps : List String)
    → contains b'/' comp ≡ false
    → All IsItem comps
    → All IsItem (add_comp false comp comps)
unfolding add_comp
add_comp-items comp comps part h = elim (Bool-cases (str_eq comp "" || str_eq comp ".")) [
  | inl skipped ↦ rw skipped h
  | inr named ↦ elim (Bool-cases (not (str_eq comp "..") || stays false (last? comps))) [
    | inl added ↦
        rw (named, added) (All-append IsItem comps (comp ∷ []) h ((ground arith, part), tt))
    | inr popped ↦ rw (named, popped) (drop_last-All IsItem comps h)
  ]
]

add_comps-items :
    (more comps : List String)
    → All (λ c. contains b'/' c ≡ false) more
    → All IsItem comps
    → All IsItem (add_comps false more comps)
unfolding add_comps
add_comps-items [] comps parts h = h
add_comps-items (comp ∷ more) comps parts h =
    add_comps-items more (add_comp false comp comps) parts.1 (add_comp-items comp comps parts.0 h)

item-starts : (c rest : String) → IsItem c → starts_slash (String.◌++◌ c rest) ≡ false
unfolding contains starts_slash
item-starts String.[] rest h = absurd (ground arith)
item-starts (String.◌∷◌ a s) rest h = rw (cons-append a s rest) (ground arith)

join-starts : (comps : List String) → All IsItem comps → starts_slash (join comps) ≡ false
unfolding join starts_slash contains
join-starts [] h = refl
join-starts (String.[] ∷ []) h = refl
join-starts ((String.◌∷◌ a s) ∷ []) h = ground arith
join-starts (c ∷ d ∷ cs) h = item-starts c _ h.0

starts_with-slash : (s : String) → starts_with s "/" ≡ true → starts_slash s ≡ true
unfolding starts_slash
starts_with-slash s h =
    let (rest, e) = (starts_with_iff s "/").0 h in
    ap starts_slash (sym e ∙ cons-append "/" String.[] rest)

dot_starts : starts_with "." "/" ≡ true → ⊥
dot_starts h = ground arith

absolute-rooted : (s : String) → starts_with (normpath s) "/" ≡ true → starts_slash s ≡ true
unfolding normpath
absolute-rooted s h = elim (Bool-cases (starts_slash s)) [
  | inl rooted ↦ rooted
  | inr relative ↦
      let d = join (add_comps false (split s) []) in
      let none_starts : starts_slash d ≡ false =
        join-starts _ (add_comps-items (split s) [] (split-IsPart s) tt) in
      elim (Bool-cases (str_eq d "")) [
        | inl empty ↦ absurd (dot_starts (rw (relative, nil-append d, empty) at h))
        | inr some_left ↦
            let starts = starts_with-slash d (rw (relative, nil-append d, some_left) at h) in
            absurd (ground (arith, starts, none_starts))
      ]
]

-- What `normpath` leaves of an absolute path has no empty name, no dot and no two dots.
pub normpath-IsPlainPath :
    (s : String) → starts_with (normpath s) "/" ≡ true → IsPlainPath (normpath s)
unfolding normpath lead_of
normpath-IsPlainPath s h =
    let rooted = absolute-rooted s h in
    let comps = add_comps true (split s) [] in
    let plain : All IsPlain comps = add_comps-IsPlain (split s) [] (split-IsPart s) tt in
    elim (Bool-cases (starts_with s "//" && not (starts_with s "///"))) [
      | inl two ↦ elim (Bool-cases (str_eq (String.◌++◌ "//" (join comps)) "")) [
        | inl empty ↦ absurd (dot_starts (rw (rooted, two, empty) at h))
        | inr some_left ↦ rw (rooted, two, some_left) (comps, plain, inr refl)
      ]
      | inr one ↦ elim (Bool-cases (str_eq (String.◌++◌ "/" (join comps)) "")) [
        | inl empty ↦ absurd (dot_starts (rw (rooted, one, empty) at h))
        | inr some_left ↦ rw (rooted, one, some_left) (comps, plain, inl refl)
      ]
    ]

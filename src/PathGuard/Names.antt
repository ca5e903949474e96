-- ===== src/PathGuard/Names.antt =====
-- The names that `_parts` of host/core/pathguard.py lets through.
use Prim.Native.Char.{Char, code}
use rkcockpit.Common.{
  All, Bool-cases, List, String, [], arith, false, inl, inr, refl, str_eq, subst, ◌==◌, ◌∷◌, ◌≡◌,
  ◌||◌,
}
use rkcockpit.Common.Result.{ok, first_ok, ok_injective}
use rkcockpit.PathGuard.{contains, keep_names, lstrip_sep, parts, push, rooted_components, split}

-- A text that names an entry of a directory, and that directory's.
pub record IsName (item : String) : Type 0 where
  pub full : str_eq item "" ≡ false
  pub not_here : str_eq item "." ≡ false
  pub not_up : str_eq item ".." ≡ false
  pub no_nul : contains 0 item ≡ false
  pub no_slash : contains b'/' item ≡ false

abbrev pub IsPart : String → Type 0
IsPart item = contains b'/' item ≡ false

push-IsPart :
    (c : Char) (ws : List String)
    → (code c == b'/') ≡ false
    → All IsPart ws
    → All IsPart (push c ws)
unfolding push contains
push-IsPart c [] other h = (rw other refl, tt)
push-IsPart c (w ∷ ws) other h = (rw (other, h.0) refl, h.1)

pub split-IsPart : (s : String) → All IsPart (split s)
unfolding split contains
split-IsPart String.[] = (refl, tt)
split-IsPart (String.◌∷◌ c s) = elim (Bool-cases (code c == b'/')) [
  | inl slash ↦ rw (slash, split) (refl, split-IsPart s)
  | inr other ↦ rw (other, split) (push-IsPart c (split s) other (split-IsPart s))
]

keep_names-IsName :
    (items names : List String) → All IsPart items → keep_names items ≡ ok names → All IsName names
unfolding keep_names
keep_names-IsName [] names h e = subst (All IsName) (ok_injective [] names e) tt
keep_names-IsName (item ∷ items) names h e = elim (Bool-cases (str_eq item "" || str_eq item ".")) [
  | inl skipped ↦ keep_names-IsName items names h.1 (rw skipped at e)
  | inr named ↦ elim (Bool-cases (str_eq item "..")) [
    | inl up ↦ absurd (ground arith)
    | inr below ↦ elim (Bool-cases (contains 0 item)) [
      | inl nul ↦ absurd (ground arith)
      | inr clean ↦
          let (rest, kept, end) =
            first_ok _ (keep_names items) names (rw (named, below, clean) at e) in
          subst (All IsName) (ok_injective (item ∷ rest) names end) (
            record {
              full = ground arith;
              not_here = ground arith;
              not_up = below;
              no_nul = clean;
              no_slash = h.0;
            },
            keep_names-IsName items rest h.1 kept,
          )
    ]
  ]
]

pub rooted_components-IsName :
    (strip : String → String) (path : String) (items : List String)
    → rooted_components strip path ≡ ok items
    → All IsName items
unfolding rooted_components parts
rooted_components-IsName strip path items e =
    let p = strip path in
    elim (Bool-cases (str_eq p "" || str_eq p "~" || str_eq p "/")) [
      | inl root ↦ subst (All IsName) (ok_injective [] items (rw root at e)) tt
      | inr below ↦ keep_names-IsName _ items (split-IsPart (lstrip_sep p)) (rw below at e)
    ]

-- ===== src/Devices/Keys.antt =====
-- `KeyStore` of host/device/keys.py. The file keys.json is the field `saved`; the files of the keys
-- themselves are not modelled.
use rkcockpit.Common.{
  Bool, List, Option, String, [], if◌then◌else◌, none, some, str_eq, false, ℕ, ◌||◌, ◌∷◌,
}
use rkcockpit.Common.Dict.{Dict, lookup, insert, erase}
use rkcockpit.Devices.{
  KeyPath, Error, missing, is_referenced, bad_name, bad_kind, keygen_failed, not_written,
  still_drawing, is_empty,
}

pub record Key : Type 0 where
  pub id : String
  pub name : String
  pub kind : String
  pub public : String
  pub fingerprint : String
  pub created_at : ℕ

pub record KeyStore : Type 0 where
  pub keys : Dict Key
  pub saved : Dict Key

unfoldable pub save : Bool → KeyStore → KeyStore × Option Error
save written s = if written then (record s { saved = s.keys }, none) else (s, some not_written)

-- The first of the drawn ids that no key has, if one of them is so.
unfoldable pub fresh_id : List String → Dict Key → Option String
fresh_id [] keys = none
fresh_id (id ∷ ids) keys = elim (lookup id keys) [ none ↦ some id | some _ ↦ fresh_id ids keys ]

-- What `ssh-keygen` and the reading of its public key gave: an error, or the key and its fingerprint.
pub data Keygen : Type 0 where
  failed : Keygen
  made : String → String → Keygen

-- The name, stripped, and the type, stripped and in lower case, which is ed25519 by default.
pub record Wanted : Type 0 where
  pub name : String
  pub kind : String

unfoldable pub checked : Wanted → Option Error
unfolding is_empty
checked w =
    if is_empty w.name
    then some bad_name
    else if str_eq w.kind "ed25519" || str_eq w.kind "rsa"
    then none
    else some bad_kind

unfoldable pub enter : Bool → ℕ → String → Wanted → Keygen → KeyStore → KeyStore × Option Error
unfolding save
enter written now id w failed s = (s, some keygen_failed)
enter written now id w (made public fingerprint) s = save written (record s {
  keys =
      insert id
        (record {
          id = id;
          name = w.name;
          kind = w.kind;
          public = public;
          fingerprint = fingerprint;
          created_at = now;
        })
        s.keys;
})

-- `generate`; the ids are those that are drawn until one is free.
unfoldable pub generate :
    Bool → ℕ → List String → Wanted → Keygen → KeyStore → KeyStore × Option Error
unfolding checked enter fresh_id
generate written now ids w keygen s = elim (checked w) [
  | some e ↦ (s, some e)
  | none ↦ elim (fresh_id ids s.keys) [
    | none ↦ (s, some still_drawing)
    | some id ↦ enter written now id w keygen s
  ]
]

unfoldable pub get_path : String → Dict Key → Option KeyPath
get_path id keys = elim (lookup id keys) [
  | none ↦ none
  | some k ↦ some (record { key_id = id; kind = k.kind })
]

-- `key_id in refs`
unfoldable pub is_ref : String → List String → Bool
is_ref id [] = false
is_ref id (r ∷ refs) = str_eq r id || is_ref id refs

unfoldable pub delete : Bool → String → List String → KeyStore → KeyStore × Option Error
unfolding save is_ref
delete written id refs s = elim (lookup id s.keys) [
  | none ↦ (s, some missing)
  | some _ ↦
      if is_ref id refs
      then (s, some is_referenced)
      else save written (record s { keys = erase id s.keys })
]

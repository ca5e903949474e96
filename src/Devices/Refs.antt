-- ===== src/Devices/Refs.antt =====
-- The keys that the devices of host/device/store.py name, and the keys of host/device/keys.py.
use rkcockpit.Common.{
  All, Bool-cases, List, Option, Option-cases, String, [], arith, eq_iff, false, inl, inr, none,
  refl, some, str_eq, sym, ◌∙◌, ◌∷◌, ◌≡◌, ◌||◌, ◌⊎◌, subst,
}
use rkcockpit.Common.Dict.{Dict, erase, insert, lookup, lookup-erase, lookup-insert}
use rkcockpit.Devices.{Device, Fields, KeyPath, is_empty, or_none}
use rkcockpit.Devices.Keys.{Key, fresh_id, get_path, is_ref}
use rkcockpit.Devices.Edits.{resolve, set_fields, set_key_ref, set_password, set_ref}
use rkcockpit.Devices.Calls.{ref_of, refs_of}

-- A device with the path of a key names a key that is there, and the path is that key's.
abbrev pub HasKey : Dict Key → Device → Type 0
HasKey keys d =
    (d.key_path ≡ none)
    ⊎ ((ref : String) × (p : KeyPath) × (d.key_path ≡ some p)
        × (d.fields.key_ref ≡ some ref)
        × (is_empty ref ≡ false)
        × (get_path ref keys ≡ some p))

abbrev pub AllHaveKeys : Dict Key → Dict Device → Type 0
AllHaveKeys keys devices = All (λ e. HasKey keys e.1) devices

pub resolve-HasKey :
    (keys : Dict Key) (ref : Option String) (d : Device)
    → d.fields.key_ref ≡ ref
    → d.key_path ≡ resolve ref keys
    → HasKey keys d
unfolding resolve
resolve-HasKey keys none d named path = inl path
resolve-HasKey keys (some ref) d named path = elim (Bool-cases (is_empty ref)) [
  | inl empty ↦ inl (path ∙ rw empty refl)
  | inr full ↦ elim (Option-cases (get_path ref keys)) [
    | inl absent ↦ inl (path ∙ rw (full, absent) refl)
    | inr (p, found) ↦ inr (ref, p, path ∙ rw full found, named, full, found)
  ]
]

set_ref-HasKey :
    (keys : Dict Key) (ref : Option String) (d : Device)
    → HasKey keys d
    → HasKey keys (set_ref keys ref d).0
unfolding set_ref
set_ref-HasKey keys none d h = inl refl
set_ref-HasKey keys (some ref) d h = elim (Option-cases (resolve (some ref) keys)) [
  | inl absent ↦ rw (absent, set_ref) h
  | inr (p, found) ↦
      rw (found, set_ref)
        (resolve-HasKey keys (some ref)
          (record d { fields = record (d.fields) { key_ref = some ref }; key_path = some p }) refl
          (sym found))
]

pub set_key_ref-HasKey :
    (keys : Dict Key) (given : Option String) (d : Device)
    → HasKey keys d
    → HasKey keys (set_key_ref keys given d).0
unfolding set_key_ref
set_key_ref-HasKey keys none d h = h
set_key_ref-HasKey keys (some t) d h = set_ref-HasKey keys (or_none (some t)) d h

pub set_password-HasKey :
    (keys : Dict Key) (given : Option String) (d : Device)
    → HasKey keys d
    → HasKey keys (set_password given d)
unfolding set_password
set_password-HasKey keys none d h = h
set_password-HasKey keys (some t) d h = h

pub fields-HasKey :
    (keys : Dict Key) (f : Fields → Fields) (d : Device)
    → (f d.fields).key_ref ≡ d.fields.key_ref
    → HasKey keys d
    → HasKey keys (set_fields f d)
unfolding set_fields
fields-HasKey keys f d same (inl path) = inl path
fields-HasKey keys f d same (inr (ref, p, path, named, full, found)) =
    inr (ref, p, path, same ∙ named, full, found)

get_path-same :
    (ref : String) (keys others : Dict Key)
    → lookup ref others ≡ lookup ref keys
    → get_path ref others ≡ get_path ref keys
unfolding get_path
get_path-same ref keys others e = rw (e, get_path) refl

-- Keys that come and go, where the device's own key stays.
other-HasKey :
    (keys others : Dict Key) (d : Device)
    → ((ref : String)
        → d.fields.key_ref ≡ some ref
        → is_empty ref ≡ false
        → (p : KeyPath) → get_path ref keys ≡ some p
        → lookup ref others ≡ lookup ref keys)
    → HasKey keys d
    → HasKey others d
other-HasKey keys others d same (inl path) = inl path
other-HasKey keys others d same (inr (ref, p, path, named, full, found)) =
    inr (
      ref,
      p,
      path,
      named,
      full,
      get_path-same ref keys others (same ref named full p found) ∙ found,
    )

unused-ref :
    (id ref : String) (named : Option String) (refs : List String)
    → is_ref id (ref_of named refs) ≡ false
    → named ≡ some ref
    → is_empty ref ≡ false
    → str_eq id ref ≡ false
unfolding is_ref ref_of
unused-ref id ref none refs unused e full = absurd (ground arith)
unused-ref id ref (some other) refs unused e full =
    let same : other ≡ ref = ground arith in
    let apart : (str_eq ref id || is_ref id refs) ≡ false = rw (same, full) at unused in
    ground (arith, eq_iff id ref, eq_iff ref id)

unused-later :
    (id : String) (named : Option String) (refs : List String)
    → is_ref id (ref_of named refs) ≡ false
    → is_ref id refs ≡ false
unfolding is_ref ref_of
unused-later id none refs unused = unused
unused-later id (some ref) refs unused = elim (Bool-cases (is_empty ref)) [
  | inl empty ↦ rw empty at unused
  | inr full ↦
      let both : (str_eq ref id || is_ref id refs) ≡ false = rw full at unused in ground arith
]

pub erase-HaveKeys :
    (id : String) (keys : Dict Key) (devices : Dict Device)
    → is_ref id (refs_of devices) ≡ false
    → AllHaveKeys keys devices
    → AllHaveKeys (erase id keys) devices
unfolding refs_of
erase-HaveKeys id keys [] unused h = tt
erase-HaveKeys id keys ((j, d) ∷ devices) unused h = (
  other-HasKey keys (erase id keys) d
      (λ ref named full p found.
        lookup-erase id ref keys
        ∙ rw (unused-ref id ref d.fields.key_ref (refs_of devices) unused named full) refl)
      h.0,
  erase-HaveKeys id keys devices (unused-later id d.fields.key_ref (refs_of devices) unused) h.1,
)

pub fresh_id-absent :
    (ids : List String) (keys : Dict Key) (id : String)
    → fresh_id ids keys ≡ some id
    → lookup id keys ≡ none
unfolding fresh_id
fresh_id-absent [] keys id e = absurd (ground arith)
fresh_id-absent (j ∷ ids) keys id e = elim (Option-cases (lookup j keys)) [
  | inl absent ↦ let same : j ≡ id = ground arith in subst (λ i. lookup i keys ≡ none) same absent
  | inr (k, there) ↦ fresh_id-absent ids keys id (ground arith)
]

pub insert-HaveKeys :
    (id : String) (k : Key) (keys : Dict Key) (devices : Dict Device)
    → lookup id keys ≡ none
    → AllHaveKeys keys devices
    → AllHaveKeys (insert id k keys) devices
unfolding get_path
insert-HaveKeys id k keys [] absent h = tt
insert-HaveKeys id k keys ((j, d) ∷ devices) absent h = (
  other-HasKey keys (insert id k keys) d
      (λ ref named full p found. ground (arith, lookup-insert id ref k keys, eq_iff id ref)) h.0,
  insert-HaveKeys id k keys devices absent h.1,
)

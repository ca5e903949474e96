-- ===== src/Devices/Stuck.antt =====
-- The calls of host/device/store.py on a store that holds a password as bytes, which it cannot write.
use rkcockpit.Common.{
  Bool, Bool-cases, List, Option, Option-cases, String, [], arith, eq_iff, false, inl, inr, none,
  refl, some, str_eq, true, ℕ, ◌∙◌, ◌∷◌, ◌≡◌, ◌⊎◌,
}
use rkcockpit.Common.Dict.{Dict, erase, insert, lookup, lookup-erase, lookup-insert}
use rkcockpit.Common.Result.{Result, ok, raised, ◌>>=◌}
use rkcockpit.Devices.{Data, Device, Error, Row, bytes, no_encode, or_else, or_none}
use rkcockpit.Devices.Keys.{Key}
use rkcockpit.Devices.Edits.{
  Change, edit, new_device, set_key_ref, resolve, set_fields, set_password, set_ref,
}
use rkcockpit.Devices.Changes.{edit-kept, new_device-facts}
use rkcockpit.Devices.Saving.{Store, add, delete, encoded, put_back, row_of, rows_of, save, update}

-- A password that was read from the file.
abbrev pub HasBytes : Device → Type 0
HasBytes d = (b : ℕ) × (bs : List ℕ) × (d.password ≡ bytes (b ∷ bs))

unfoldable pub is_raised : Option Error → Bool
is_raised none = false
is_raised (some e) = true

set_ref-HasBytes :
    (keys : Dict Key) (ref : Option String) (d : Device)
    → HasBytes d
    → HasBytes (set_ref keys ref d).0
unfolding set_ref
set_ref-HasBytes keys none d h = h
set_ref-HasBytes keys (some ref) d h = elim (Option-cases (resolve (some ref) keys)) [
  | inl absent ↦ rw (absent, set_ref) h
  | inr (p, found) ↦ rw (found, set_ref) h
]

ref-HasBytes :
    (keys : Dict Key) (given : Option String) (d : Device)
    → HasBytes d
    → HasBytes (set_key_ref keys given d).0
unfolding set_key_ref
ref-HasBytes keys none d h = h
ref-HasBytes keys (some t) d h = set_ref-HasBytes keys (or_none (some t)) d h

module _ (pack : String → Option String) where
  row_of-HasBytes : (d : Device) → HasBytes d → row_of pack d ≡ raised no_encode
  unfolding row_of encoded
  row_of-HasBytes d (b, bs, e) = rw e refl

  rows_of-HasBytes :
      (id : String) (d : Device) (devices : Dict Device)
      → lookup id devices ≡ some d
      → HasBytes d
      → (e : Error) × (rows_of pack devices ≡ raised e)
  unfolding rows_of lookup
  rows_of-HasBytes id d [] e h = absurd (ground arith)
  rows_of-HasBytes id d ((j, x) ∷ devices) e h = elim (Bool-cases (str_eq j id)) [
    | inl same ↦
        let found : x ≡ d = ground arith in (no_encode, rw (found, row_of-HasBytes d h) refl)
    | inr other ↦
        let (why, rest) = rows_of-HasBytes id d devices (ground arith) h in
        later (row_of pack x) why rest
  ]
    where
      later :
          (r : Result Error Row) (why : Error)
          → rows_of pack devices ≡ raised why
          → (e' : Error) × ((r >>= (λ row. rows_of pack devices >>= (λ rows. ok (row ∷ rows))))
              ≡ raised e')
      later (raised first) why rest = (first, refl)
      later (ok row) why rest = (why, rw rest refl)

  -- The store after a call that met the bytes, and its error.
  pub record Stuck (id : String) (file : List Row) (end : Store × Option Error) : Type 0 where
    pub same_file : end.0.file ≡ file
    pub fails : is_raised end.1 ≡ true
    pub stays : (d : Device) × (lookup id end.0.devices ≡ some d) × HasBytes d

  save-Stuck :
      (written : Bool) (s : Store) (id : String) (d : Device)
      → lookup id s.devices ≡ some d
      → HasBytes d
      → Stuck id s.file (save pack written s)
  unfolding save is_raised
  save-Stuck written s id d there h =
      let (why, e) = rows_of-HasBytes id d s.devices there h in
      rw (e, save) (record { same_file = refl; fails = refl; stays = (d, there, h) })

  pub delete-Stuck :
      (written : Bool) (other : String) (s : Store) (id : String) (d : Device)
      → str_eq other id ≡ false
      → lookup id s.devices ≡ some d
      → HasBytes d
      → Stuck id s.file (delete pack written other s)
  unfolding delete is_raised
  delete-Stuck written other s id d apart there h = elim (Option-cases (lookup other s.devices)) [
    | inl absent ↦
        rw (absent, delete) (record { same_file = refl; fails = refl; stays = (d, there, h) })
    | inr (x, found) ↦
        rw (found, delete)
          (save-Stuck written
            (record s { devices = erase other s.devices; states = erase other s.states }) id d
            (lookup-erase other id s.devices ∙ rw apart there) h)
  ]

  insert-stays :
      (other : String) (x : Device) (devices : Dict Device) (id : String) (d : Device)
      → (str_eq other id ≡ true → HasBytes x)
      → lookup id devices ≡ some d
      → HasBytes d
      → (d' : Device) × (lookup id (insert other x devices) ≡ some d') × HasBytes d'
  insert-stays other x devices id d changed there h = elim (Bool-cases (str_eq other id)) [
    | inl same ↦ (x, lookup-insert other id x devices ∙ rw same refl, changed same)
    | inr apart ↦ (d, lookup-insert other id x devices ∙ rw apart there, h)
  ]

  module _ (strip lower : String → String) (make_root : String → Option String)
      (demo_root : String) where
    pub add-Stuck :
        (written : Bool) (drawn : String) (now : ℕ) (given : Data) (s : Store) (id : String)
        (d : Device)
        → str_eq (or_else given.id drawn) id ≡ false
        → lookup id s.devices ≡ some d
        → HasBytes d
        → Stuck id s.file (add pack strip lower make_root demo_root written drawn now given s)
    unfolding add is_raised
    add-Stuck written drawn now given s id d apart there h =
        made (new_device strip lower make_root demo_root s.key_store.keys drawn now given) refl
      where
        made :
            (r : Result Error Device)
            → new_device strip lower make_root demo_root s.key_store.keys drawn now given ≡ r
            → Stuck id s.file (add pack strip lower make_root demo_root written drawn now given s)
        made (raised e) made_it =
            rw (made_it, add) (record { same_file = refl; fails = refl; stays = (d, there, h) })
        made (ok x) made_it =
            let facts =
              new_device-facts strip lower make_root demo_root _ drawn now given x made_it in
            rw (made_it, add)
              (save-Stuck written (record s { devices = insert x.fields.id x s.devices }) id d
                (lookup-insert x.fields.id id x s.devices ∙ rw (facts.0, apart) there) h)

    put_back-Stuck :
        (written : Bool) (other : String) (now : ℕ) (c : Change) (s : Store) (id : String)
        (d : Device)
        → (str_eq other id ≡ true → HasBytes c.0)
        → lookup id s.devices ≡ some d
        → HasBytes d
        → Stuck id s.file (put_back pack strip lower make_root demo_root written other now c s)
    unfolding put_back is_raised
    put_back-Stuck written other now (x, some e) s id d changed there h = record {
      same_file = refl;
      fails = refl;
      stays = insert-stays other x s.devices id d changed there h;
    }
    put_back-Stuck written other now (x, none) s id d changed there h =
        let y : Device = record x { fields = record (x.fields) { updated_at = now } } in
        let (z, found, bytes_left) = insert-stays other y s.devices id d changed there h in
        save-Stuck written (record s { devices = insert other y s.devices }) id z found bytes_left

    edit-HasBytes :
        (keys : Dict Key) (given : Data) (d : Device)
        → given.password ≡ none
        → HasBytes d
        → HasBytes (edit strip lower make_root keys given d).0
    unfolding set_fields set_password
    edit-HasBytes keys given d untouched h =
        edit-kept HasBytes (λ f x same y. y) strip lower make_root keys given d
          (λ x y. rw untouched y) (λ x y. ref-HasBytes keys given.key_ref x y) h

    pub update-Stuck :
        (written : Bool) (other : String) (now : ℕ) (given : Data) (s : Store) (id : String)
        (d : Device)
        → (str_eq other id ≡ false) ⊎ (given.password ≡ none)
        → lookup id s.devices ≡ some d
        → HasBytes d
        → Stuck id s.file (update pack strip lower make_root demo_root written other now given s)
    unfolding update is_raised
    update-Stuck written other now given s id d spared there h =
        elim (Option-cases (lookup other s.devices)) [
          | inl absent ↦
              rw (absent, update) (record { same_file = refl; fails = refl; stays = (d, there, h) })
          | inr (x, found) ↦
              rw (found, update)
                (put_back-Stuck written other now
                  (edit strip lower make_root s.key_store.keys given x) s id d
                  (λ same. changed x found same spared) there h)
        ]
      where
        changed :
            (x : Device)
            → lookup other s.devices ≡ some x
            → str_eq other id ≡ true
            → (str_eq other id ≡ false) ⊎ (given.password ≡ none)
            → HasBytes (edit strip lower make_root s.key_store.keys given x).0
        changed x found same (inl apart) = absurd (ground arith)
        changed x found same (inr untouched) =
            let equal : x ≡ d = ground (arith, eq_iff other id) in
            edit-HasBytes s.key_store.keys given x untouched (rw equal h)

-- ===== src/Devices/Sharing.antt =====
-- The stores of host/device/ under any calls: which keys their devices name.
use rkcockpit.Common.{
  Bool, Bool-cases, List, Option, Option-cases, String, [], ap, arith, false, inl, inr, none, refl,
  some, sym, true, ℕ, ◌∷◌, ◌≡◌, subst,
}
use rkcockpit.Common.Dict.{Dict, erase, erase-All, insert, insert-All, lookup, lookup-All}
use rkcockpit.Common.Result.{Result, ok, raised, first_ok, ok_injective}
use rkcockpit.Devices.{Data, Device, Error, Row, is_empty, or_none}
use rkcockpit.Devices.Keys.{
  Key, KeyStore, Keygen, Wanted, checked, enter, failed, fresh_id, generate, get_path, is_ref, made,
}
use rkcockpit.Devices.Keys
use rkcockpit.Devices.Edits.{Change, edit, key_of, new_device}
use rkcockpit.Devices.Changes.{edit-kept, new_device-facts, load-All}
use rkcockpit.Devices.Saving.{
  Store, add, delete, load, load_row, put_back, rows_of, read_password, save, update,
}
use rkcockpit.Devices.Calls.{
  Event, adds, updates, deletes, sets_state, generates, deletes_key, refs_of, run, step,
}
use rkcockpit.Devices.Refs.{
  AllHaveKeys, HasKey, resolve-HasKey, set_password-HasKey, set_key_ref-HasKey, fields-HasKey,
  erase-HaveKeys, insert-HaveKeys, fresh_id-absent,
}

-- The pair of stores, with the error of the call.
abbrev Kept : Store × Option Error → Type 0
Kept end = AllHaveKeys end.0.key_store.keys end.0.devices

save-Kept :
    (pack : String → Option String) (written : Bool) (s : Store)
    → AllHaveKeys s.key_store.keys s.devices
    → Kept (save pack written s)
unfolding save
save-Kept pack written s h = saved (rows_of pack s.devices) refl
  where
    saved : (r : Result Error (List Row)) → rows_of pack s.devices ≡ r → Kept (save pack written s)
    saved (raised why) e = rw (e, save) h
    saved (ok rows) e = elim (Bool-cases written) [
      | inl fine ↦ rw (e, fine, save) h
      | inr broken ↦ rw (e, broken, save) h
    ]

keys-save-same : (written : Bool) (s : KeyStore) → (Keys.save written s).0.keys ≡ s.keys
unfolding Keys.save
keys-save-same true s = refl
keys-save-same false s = refl

delete_key-Kept :
    (written : Bool) (id : String) (s : KeyStore) (devices : Dict Device)
    → AllHaveKeys s.keys devices
    → AllHaveKeys (Keys.delete written id (refs_of devices) s).0.keys devices
unfolding Keys.delete
delete_key-Kept written id s devices h = elim (Option-cases (lookup id s.keys)) [
  | inl absent ↦ rw (absent, Keys.delete) h
  | inr (k, there) ↦ elim (Bool-cases (is_ref id (refs_of devices))) [
    | inl used ↦ rw (there, used, Keys.delete) h
    | inr unused ↦
        rw (there, unused, Keys.delete)
          (subst (λ keys. AllHaveKeys keys devices)
            (sym (keys-save-same written (record s { keys = erase id s.keys })))
            (erase-HaveKeys id s.keys devices unused h))
  ]
]

enter-Kept :
    (written : Bool) (now : ℕ) (id : String) (w : Wanted) (keygen : Keygen) (s : KeyStore)
    (devices : Dict Device)
    → lookup id s.keys ≡ none
    → AllHaveKeys s.keys devices
    → AllHaveKeys (enter written now id w keygen s).0.keys devices
unfolding enter
enter-Kept written now id w failed s devices absent h = h
enter-Kept written now id w (made public fingerprint) s devices absent h =
    subst (λ keys. AllHaveKeys keys devices) (sym (keys-save-same written _))
      (insert-HaveKeys id _ s.keys devices absent h)

generate-Kept :
    (written : Bool) (now : ℕ) (ids : List String) (w : Wanted) (keygen : Keygen) (s : KeyStore)
    (devices : Dict Device)
    → AllHaveKeys s.keys devices
    → AllHaveKeys (generate written now ids w keygen s).0.keys devices
unfolding generate
generate-Kept written now ids w keygen s devices h = elim (Option-cases (checked w)) [
  | inr (e, bad) ↦ rw (bad, generate) h
  | inl fine ↦ elim (Option-cases (fresh_id ids s.keys)) [
    | inl taken ↦ rw (fine, taken, generate) h
    | inr (id, free) ↦
        rw (fine, free, generate)
          (enter-Kept written now id w keygen s devices (fresh_id-absent ids s.keys id free) h)
  ]
]

module _ (pack : String → Option String) (strip lower : String → String)
    (make_root : String → Option String) (demo_root : String) where
  delete-Kept :
      (written : Bool) (id : String) (s : Store)
      → AllHaveKeys s.key_store.keys s.devices
      → Kept (delete pack written id s)
  unfolding delete
  delete-Kept written id s h = elim (Option-cases (lookup id s.devices)) [
    | inl absent ↦ rw (absent, delete) h
    | inr (d, there) ↦
        rw (there, delete)
          (save-Kept pack written
            (record s { devices = erase id s.devices; states = erase id s.states })
            (erase-All (λ e. HasKey s.key_store.keys e.1) id s.devices h))
  ]

  put-HaveKeys :
      (id : String) (d : Device) (s : Store)
      → HasKey s.key_store.keys d
      → AllHaveKeys s.key_store.keys s.devices
      → AllHaveKeys s.key_store.keys (insert id d s.devices)
  put-HaveKeys id d s new h = insert-All (λ e. HasKey s.key_store.keys e.1) id d s.devices new h

  key_of-HasKey :
      (keys : Dict Key) (given : Option String) (d : Device)
      → d.fields.key_ref ≡ or_none given
      → key_of strip lower make_root keys (or_none given) ≡ ok d.key_path
      → HasKey keys d
  unfolding key_of or_none
  key_of-HasKey keys none d named keyed = inl (sym (ok_injective none d.key_path keyed))
  key_of-HasKey keys (some t) d named keyed = elim (Bool-cases (is_empty t)) [
    | inl empty ↦ inl (sym (ok_injective none d.key_path (rw empty at keyed)))
    | inr full ↦ elim (Option-cases (get_path t keys)) [
      | inl absent ↦ absurd (ground arith)
      | inr (p, found) ↦
          let path : d.key_path ≡ some p =
            sym (ok_injective {E = Error} (some p) d.key_path (ground arith)) in
          let name : d.fields.key_ref ≡ some t = ground arith in inr (t, p, path, name, full, found)
    ]
  ]

  add-Kept :
      (written : Bool) (drawn : String) (now : ℕ) (given : Data) (s : Store)
      → AllHaveKeys s.key_store.keys s.devices
      → Kept (add pack strip lower make_root demo_root written drawn now given s)
  unfolding add
  add-Kept written drawn now given s h =
      added (new_device strip lower make_root demo_root s.key_store.keys drawn now given) refl
    where
      added :
          (r : Result Error Device)
          → new_device strip lower make_root demo_root s.key_store.keys drawn now given ≡ r
          → Kept (add pack strip lower make_root demo_root written drawn now given s)
      added (raised why) e = rw (e, add) h
      added (ok d) e =
          let (_, named, keyed) =
            new_device-facts strip lower make_root demo_root _ drawn now given d e in
          rw (e, add)
            (save-Kept pack written (record s { devices = insert d.fields.id d s.devices })
              (put-HaveKeys d.fields.id d s (key_of-HasKey _ given.key_ref d named keyed) h))

  put_back-Kept :
      (written : Bool) (id : String) (now : ℕ) (c : Change) (s : Store)
      → HasKey s.key_store.keys c.0
      → AllHaveKeys s.key_store.keys s.devices
      → Kept (put_back pack strip lower make_root demo_root written id now c s)
  unfolding put_back
  put_back-Kept written id now (d, some e) s new h = put-HaveKeys id d s new h
  put_back-Kept written id now (d, none) s new h =
      let later : Device = record d { fields = record (d.fields) { updated_at = now } } in
      save-Kept pack written (record s { devices = insert id later s.devices })
        (put-HaveKeys id later s new h)

  update-Kept :
      (written : Bool) (id : String) (now : ℕ) (given : Data) (s : Store)
      → AllHaveKeys s.key_store.keys s.devices
      → Kept (update pack strip lower make_root demo_root written id now given s)
  unfolding update
  update-Kept written id now given s h = elim (Option-cases (lookup id s.devices)) [
    | inl absent ↦ rw (absent, update) h
    | inr (d, there) ↦
        let keys = s.key_store.keys in
        rw (there, update)
          (put_back-Kept written id now (edit strip lower make_root keys given d) s
            (edit-kept (HasKey keys) (fields-HasKey keys) strip lower make_root keys given d
              (set_password-HasKey keys given.password) (set_key_ref-HasKey keys given.key_ref)
              (lookup-All (λ e. HasKey keys e.1) id d s.devices there h))
            h)
  ]

  step-Kept :
      (e : Event) (s : Store)
      → AllHaveKeys s.key_store.keys s.devices
      → Kept (step pack strip lower make_root demo_root e s)
  unfolding step
  step-Kept (adds written drawn now given) s h = add-Kept written drawn now given s h
  step-Kept (updates written id now given) s h = update-Kept written id now given s h
  step-Kept (deletes written id) s h = delete-Kept written id s h
  step-Kept (sets_state id state) s h = h
  step-Kept (generates written now ids w keygen) s h =
      generate-Kept written now ids w keygen s.key_store s.devices h
  step-Kept (deletes_key written id) s h = delete_key-Kept written id s.key_store s.devices h

  run-Kept :
      (events : List Event) (s : Store)
      → AllHaveKeys s.key_store.keys s.devices
      → let t = run pack strip lower make_root demo_root events s in
        AllHaveKeys t.key_store.keys t.devices
  unfolding run
  run-Kept [] s h = h
  run-Kept (e ∷ events) s h =
      run-Kept events (step pack strip lower make_root demo_root e s).0 (step-Kept e s h)

  load_row-HasKey :
      (unpack : String → Option (List ℕ)) (keys : Dict Key) (row : Row) (d : Device)
      → load_row unpack keys row ≡ ok d
      → HasKey keys d
  unfolding load_row
  load_row-HasKey unpack keys row d e =
      let (p, read, end) = first_ok _ (read_password unpack row.password_b64) d e in
      let same = sym (ok_injective _ d end) in
      resolve-HasKey keys row.fields.key_ref d (ap (λ x. x.fields.key_ref) same)
        (ap (λ x. x.key_path) same)

  -- A store is made of its files, and any calls follow one by one. Then each device that has the path of a
  -- key names a key that is there, and the path is that key's.
  pub run-HaveKeys :
      (unpack : String → Option (List ℕ)) (key_store : KeyStore) (file : List Row) (s : Store)
      → load unpack key_store file ≡ ok s
      → (events : List Event)
      → let t = run pack strip lower make_root demo_root events s in
        AllHaveKeys t.key_store.keys t.devices
  run-HaveKeys unpack key_store file s loaded events =
      let (all, own_keys, own_file) =
        load-All unpack (HasKey key_store.keys) key_store
          (λ row d e. load_row-HasKey unpack key_store.keys row d e) file s loaded in
      run-Kept events s (subst (λ k. AllHaveKeys k.keys s.devices) (sym own_keys) all)

-- ===== src/Devices/Passwords.antt =====
-- What host/device/store.py does once it has read a password: its bytes cannot be written again.
use rkcockpit.Common.{
  All, List, Option, String, [], arith, false, ap, none, refl, some, str_eq, true, ℕ, ◌∙◌, ◌∷◌, ◌≡◌,
  ◌⊎◌,
}
use rkcockpit.Common.Dict.{Dict, lookup, lookup-All}
use rkcockpit.Common.Result.{ok, first_ok, ok_injective}
use rkcockpit.Devices.{Device, Error, Password, Row, bytes, is_set, no_password, or_else, text}
use rkcockpit.Devices.Keys.{Key, KeyStore}
use rkcockpit.Devices.Changes.{load-All}
use rkcockpit.Devices.Saving.{Store, load, bytes_of, load_row, read_password}
use rkcockpit.Devices.Calls.{
  Event, adds, updates, deletes, sets_state, generates, deletes_key, run, step,
}
use rkcockpit.Devices.Stuck.{HasBytes, is_raised, add-Stuck, delete-Stuck, update-Stuck}

-- No call sets the device's password, deletes it, or adds one under its id.
abbrev pub Spares : String → Event → Type 0
Spares id (adds written drawn now given) = str_eq (or_else given.id drawn) id ≡ false
Spares id (updates written other now given) = (str_eq other id ≡ false) ⊎ (given.password ≡ none)
Spares id (deletes written other) = str_eq other id ≡ false
Spares id _ = Unit

-- A call that writes the devices raises.
abbrev pub Refuses : Event → Option Error → Type 0
Refuses (adds written drawn now given) e = is_raised e ≡ true
Refuses (updates written id now given) e = is_raised e ≡ true
Refuses (deletes written id) e = is_raised e ≡ true
Refuses _ e = Unit

module _ (unpack : String → Option (List ℕ)) where
  read_password-bytes :
      (b64 : String) (p : Password)
      → read_password unpack b64 ≡ ok p
      → is_set p ≡ true
      → (b : ℕ) × (bs : List ℕ) × (p ≡ bytes (b ∷ bs))
  unfolding read_password bytes_of is_set
  read_password-bytes b64 no_password e h = absurd (ground arith)
  read_password-bytes b64 (text t) e h = absurd (ground arith)
  read_password-bytes b64 (bytes []) e h = absurd (ground arith)
  read_password-bytes b64 (bytes (b ∷ bs)) e h = (b, bs, refl)

  load_row-HasBytes :
      (keys : Dict Key) (row : Row) (d : Device)
      → load_row unpack keys row ≡ ok d
      → is_set d.password ≡ true
      → HasBytes d
  unfolding load_row
  load_row-HasBytes keys row d e h =
      let (p, read, end) = first_ok _ (read_password unpack row.password_b64) d e in
      let same = ok_injective _ d end in
      read_password-bytes row.password_b64 d.password (read ∙ ap (λ x. ok x.password) same) h

module _ (pack : String → Option String) (strip lower : String → String)
    (make_root : String → Option String) (demo_root : String) where
  -- One call on a store with a device whose password was read.
  step-Stuck :
      (e : Event) (s : Store) (id : String) (d : Device)
      → Spares id e
      → lookup id s.devices ≡ some d
      → HasBytes d
      → let (t, error) = step pack strip lower make_root demo_root e s in
        (t.file ≡ s.file)
        × Refuses e error
        × ((d' : Device) × (lookup id t.devices ≡ some d') × HasBytes d')
  unfolding step
  step-Stuck (adds written drawn now given) s id d spared there h =
      let stuck =
        add-Stuck pack strip lower make_root demo_root written drawn now given s id d spared there
          h in
      (stuck.same_file, stuck.fails, stuck.stays)
  step-Stuck (updates written other now given) s id d spared there h =
      let stuck =
        update-Stuck pack strip lower make_root demo_root written other now given s id d spared
          there h in
      (stuck.same_file, stuck.fails, stuck.stays)
  step-Stuck (deletes written other) s id d spared there h =
      let stuck = delete-Stuck pack written other s id d spared there h in
      (stuck.same_file, stuck.fails, stuck.stays)
  step-Stuck (sets_state other state) s id d spared there h = (refl, tt, (d, there, h))
  step-Stuck (generates written now ids wanted keygen) s id d spared there h =
      (refl, tt, (d, there, h))
  step-Stuck (deletes_key written key) s id d spared there h = (refl, tt, (d, there, h))

  -- Every call of `events` that writes the devices raises.
  abbrev pub AllRefused : List Event → Store → Type 0
  AllRefused [] s = Unit
  AllRefused (e ∷ events) s =
      let (t, error) = step pack strip lower make_root demo_root e s in
      Refuses e error × AllRefused events t

  run-Stuck :
      (events : List Event) (s : Store) (id : String) (d : Device)
      → All (Spares id) events
      → lookup id s.devices ≡ some d
      → HasBytes d
      → AllRefused events s × ((run pack strip lower make_root demo_root events s).file ≡ s.file)
  unfolding run
  run-Stuck [] s id d spared there h = (tt, refl)
  run-Stuck (e ∷ events) s id d spared there h =
      let (same, refused, (d', there', h')) = step-Stuck e s id d spared.0 there h in
      let (rest, same') = run-Stuck events _ id d' spared.1 there' h' in
      ((refused, rest), same' ∙ same)

  -- A store is made of its files, and one of its devices has a password. While no call sets that password,
  -- deletes that device or adds one under its id, every call that adds, changes or deletes a device raises,
  -- and devices.json stays as it was.
  pub run-refuses :
      (unpack : String → Option (List ℕ)) (key_store : KeyStore) (file : List Row) (s : Store)
      → load unpack key_store file ≡ ok s
      → (id : String) (d : Device) → lookup id s.devices ≡ some d
      → is_set d.password ≡ true
      → (events : List Event) → All (Spares id) events
      → AllRefused events s × ((run pack strip lower make_root demo_root events s).file ≡ file)
  run-refuses unpack key_store file s loaded id d there has events spared =
      let (read, own_keys, own_file) =
        load-All unpack (λ x. is_set x.password ≡ true → HasBytes x) key_store
          (λ row x e h. load_row-HasBytes unpack key_store.keys row x e h) file s loaded in
      let (refused, same) = run-Stuck events s id d spared there (
        lookup-All (λ x. is_set x.1.password ≡ true → HasBytes x.1) id d s.devices there read
          has) in
      (refused, same ∙ own_file)

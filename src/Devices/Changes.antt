-- ===== src/Devices/Changes.antt =====
-- What the changes of host/device/store.py keep of a device, and the devices that `load` makes.
use rkcockpit.Common.{
  All, Bool-cases, List, Option, Option-cases, String, [], inl, inr, none, refl, ap, sym, subst,
  ◌∙◌, some, str_eq, ℕ, ◌∷◌, ◌≡◌,
}
use rkcockpit.Common.Dict.{Dict, insert, insert-All}
use rkcockpit.Common.Result.{Result, ok, raised, first_ok, ok_injective}
use rkcockpit.Devices.{
  Data, Device, Error, Fields, Port, Row, absent, number, spelled, is_empty, or_else, or_none,
}
use rkcockpit.Devices.Keys.{Key, KeyStore}
use rkcockpit.Devices.Edits.{
  given_name, Change, then_change, set_fields, set_text, set_port, port_of, or_22, pass_on,
  set_password, set_key_ref, set_root, check, validate, edit, new_device, key_of, root_of,
}
use rkcockpit.Devices.Saving.{Store, load_row, load_rows, load}

module _ (P : Device → Type 0)
    (keep : (f : Fields → Fields) (d : Device)
      → (f d.fields).key_ref ≡ d.fields.key_ref
      → P d
      → P (set_fields f d)) where
  then-kept :
      (c : Change) (f : Device → Change)
      → ((d : Device) → P d → P (f d).0)
      → P c.0
      → P (then_change c f).0
  unfolding then_change
  then-kept (d, some e) f more h = h
  then-kept (d, none) f more h = more d h

  text-kept :
      (f : String → Fields → Fields)
      → ((t : String) (x : Fields) → (f t x).key_ref ≡ x.key_ref)
      → (given : Option String) (d : Device) → P d
      → P (set_text f given d)
  unfolding set_text
  text-kept f same none d h = h
  text-kept f same (some t) d h = keep (f t) d (same t d.fields) h

  port-kept : (given : Port) (d : Device) → P d → P (set_port given d).0
  unfolding set_port port_of
  port-kept absent d h = h
  port-kept (number n) d h = keep (λ x. record x { port = or_22 n }) d refl h
  port-kept (spelled none) d h = h
  port-kept (spelled (some n)) d h = keep (λ x. record x { port = n }) d refl h

  module _ (strip lower : String → String) (make_root : String → Option String) where
    root-kept :
        (wanted : Option String) (d : Device) → P d → P (set_root strip lower make_root wanted d).0
    unfolding set_root
    root-kept none d h = h
    root-kept (some wanted) d h = elim (Bool-cases (str_eq d.fields.kind "local")) [
      | inr other ↦ rw other h
      | inl here ↦ elim (Option-cases (make_root wanted)) [
        | inl failed ↦ rw (here, failed) h
        | inr (root, made) ↦
            rw (here, made) (keep (λ x. record x { local_root = some root }) d refl h)
      ]
    ]

    check-kept : (d : Device) → P d → P (check strip lower make_root d).0
    unfolding check pass_on
    check-kept d h =
        passed (validate strip lower make_root (some d.fields.kind) d.fields.name d.fields.host)
      where
        passed : (r : Result Error String) → P (pass_on d r).0
        passed (ok _) = h
        passed (raised e) = h

    -- What every change of a field but the key keeps, and the setting of a password and of a key.
    pub edit-kept :
        (keys : Dict Key) (given : Data) (d : Device)
        → ((x : Device) → P x → P (set_password given.password x))
        → ((x : Device) → P x → P (set_key_ref keys given.key_ref x).0)
        → P d
        → P (edit strip lower make_root keys given d).0
    unfolding edit
    edit-kept keys given d keep_password keep_ref h =
        let named =
          text-kept (λ t x. record x { name = strip t }) (λ t x. refl) (given_name given) d h in
        let typed =
          text-kept (λ t x. record x { kind = lower t }) (λ t x. refl) given.kind _ named in
        let hosted =
          text-kept (λ t x. record x { host = strip t }) (λ t x. refl) given.host _ typed in
        then-kept (set_port given.port _) _
          (λ ported at_port.
            let used =
              text-kept (λ t x. record x { user = strip (or_else (some t) "root") }) (λ t x. refl)
                given.user ported at_port in
            let authed =
              text-kept (λ t x. record x { auth = or_else (some t) "key" }) (λ t x. refl) given.auth
                _ used in
            let noted =
              text-kept (λ t x. record x { remark = strip t }) (λ t x. refl) given.remark _
                authed in
            then-kept (set_root strip lower make_root (or_none given.local_root) _) _
              (λ rooted at_root.
                then-kept (set_key_ref keys given.key_ref (set_password given.password rooted)) _
                  check-kept (keep_ref _ (keep_password rooted at_root)))
              (root-kept (or_none given.local_root) _ noted))
          (port-kept given.port _ hosted)

-- The device that `add` makes.
pub new_device-facts :
    (strip lower : String → String) (make_root : String → Option String) (demo_root : String)
    (keys : Dict Key) (drawn : String) (now : ℕ) (given : Data) (d : Device)
    → new_device strip lower make_root demo_root keys drawn now given ≡ ok d
    → (d.fields.id ≡ or_else given.id drawn)
      × (d.fields.key_ref ≡ or_none given.key_ref)
      × (key_of strip lower make_root keys (or_none given.key_ref) ≡ ok d.key_path)
unfolding new_device
new_device-facts strip lower make_root demo_root keys drawn now given d made =
    let (typ, valid, from_typ) =
      first_ok _ (validate strip lower make_root given.kind _ _) d made in
    let (port, ported, from_port) = first_ok _ (port_of given.port) d from_typ in
    let (root, rooted, from_root) =
      first_ok _ (root_of strip lower make_root demo_root typ given.local_root) d from_port in
    let (path, keyed, end) =
      first_ok _ (key_of strip lower make_root keys (or_none given.key_ref)) d from_root in
    let same = sym (ok_injective _ d end) in
    (
      ap (λ x. x.fields.id) same,
      ap (λ x. x.fields.key_ref) same,
      keyed ∙ ap (λ x. ok x.key_path) (sym same),
    )

module _ (unpack : String → Option (List ℕ)) (P : Device → Type 0) (key_store : KeyStore) where
  module _ (each : (row : Row) (d : Device) → load_row unpack key_store.keys row ≡ ok d → P d) where
    load_rows-All :
        (rows : List Row) (from to : Dict Device)
        → load_rows unpack key_store.keys rows from ≡ ok to
        → All (λ e. P e.1) from
        → All (λ e. P e.1) to
    unfolding load_rows
    load_rows-All [] from to e h = subst (All (λ x. P x.1)) (ok_injective from to e) h
    load_rows-All (row ∷ rows) from to e h = elim (Bool-cases (is_empty row.fields.id)) [
      | inl nameless ↦ load_rows-All rows from to (rw nameless at e) h
      | inr named ↦
          let (d, loaded, rest) =
            first_ok _ (load_row unpack key_store.keys row) to (rw named at e) in
          load_rows-All rows (insert row.fields.id d from) to rest
            (insert-All (λ x. P x.1) row.fields.id d from (each row d loaded) h)
    ]

    -- What each row gives holds of the devices of a store that is made of the files.
    pub load-All :
        (file : List Row) (s : Store)
        → load unpack key_store file ≡ ok s
        → All (λ e. P e.1) s.devices × (s.key_store ≡ key_store) × (s.file ≡ file)
    unfolding load
    load-All file s e =
        let (devices, loaded, end) = first_ok _ (load_rows unpack key_store.keys file []) s e in
        let same = ok_injective _ s end in
        (
          subst (λ t. All (λ x. P x.1) t.devices) same (load_rows-All file [] devices loaded tt),
          ap (λ t. t.key_store) (sym same),
          ap (λ t. t.file) (sym same),
        )

-- ===== src/Devices/Saving.antt =====
-- How host/device/store.py reads and writes devices.json, and its calls `add`, `update` and `delete`.
use rkcockpit.Common.{
  Bool, List, Option, String, [], arith, if◌then◌else◌, ltb, none, some, ℕ, ◌*◌, ◌+◌, ◌∷◌, ◌≡◌, ◌≤◌,
}
use rkcockpit.Common.Dict.{Dict, lookup, insert, erase}
use rkcockpit.Common.Result.{Result, ok, raised, ◌>>=◌}
use rkcockpit.Devices.{
  Data, Device, DeviceState, Error, Password, Row, bad_base64, bytes, is_empty, is_set, missing,
  no_encode, no_password, no_text, not_written, text,
}
use rkcockpit.Devices.Keys.{Key, KeyStore}
use rkcockpit.Devices.Edits.{new_device, edit, resolve}

-- `DeviceStore`, with the rows of its file.
pub record Store : Type 0 where
  pub devices : Dict Device
  pub states : Dict DeviceState
  pub key_store : KeyStore
  pub file : List Row

-- `time.time() - state["checked_ms"] < 5`: seconds less milliseconds, here in milliseconds.
unfoldable pub is_fresh : ℕ → DeviceState → Bool
is_fresh now state = ltb now (5000 + 1000 * state.checked_ms)

-- The state that `public` shows, if it is not "unknown".
unfoldable pub state_of : ℕ → Option DeviceState → Option DeviceState
unfolding is_fresh
state_of now none = none
state_of now (some state) = if is_fresh now state then some state else none

-- A state is shown for as many seconds as its time has milliseconds.
state_of-stays :
    (now : ℕ) (state : DeviceState)
    → now ≤ 1000 * state.checked_ms
    → state_of now (some state) ≡ some state
unfolding state_of is_fresh
state_of-stays now state h = ground arith

unfoldable pub bytes_of : Option (List ℕ) → Result Error Password
bytes_of none = raised bad_base64
bytes_of (some bs) = ok (bytes bs)

-- `unpack` is `b64decode`.
module _ (unpack : String → Option (List ℕ)) where
  -- `base64.b64decode(d.pop("_password_b64")) if d.get("_password_b64") else None`
  unfoldable pub read_password : String → Result Error Password
  unfolding is_empty bytes_of
  read_password b64 = if is_empty b64 then ok no_password else bytes_of (unpack b64)

  unfoldable pub load_row : Dict Key → Row → Result Error Device
  unfolding resolve read_password
  load_row keys row = read_password row.password_b64 >>= (λ password. ok (record {
    fields = row.fields;
    password = password;
    key_path = resolve row.fields.key_ref keys;
  }))

  -- The loop of `_load` on the objects that have an id.
  unfoldable pub load_rows : Dict Key → List Row → Dict Device → Result Error (Dict Device)
  unfolding load_row is_empty
  load_rows keys [] d = ok d
  load_rows keys (row ∷ rows) d =
      if is_empty row.fields.id
      then load_rows keys rows d
      else load_row keys row >>= (λ device. load_rows keys rows (insert row.fields.id device d))

  -- A store that is made of the two files.
  unfoldable pub load : KeyStore → List Row → Result Error Store
  unfolding load_rows
  load key_store file = load_rows key_store.keys file [] >>= (λ devices.
      ok (record { devices = devices; states = []; key_store = key_store; file = file }))

-- `pack` is `b64encode` of the UTF-8 of a text, which a lone surrogate does not have.
module _ (pack : String → Option String) where
  -- `base64.b64encode(pw.encode("utf-8"))` if there is a password.
  unfoldable pub encoded : Password → Result Error String
  unfolding is_empty
  encoded no_password = ok ""
  encoded (text t) =
      if is_empty t then ok "" else elim (pack t) [ none ↦ raised no_text | some b64 ↦ ok b64 ]
  encoded (bytes []) = ok ""
  encoded (bytes (b ∷ bs)) = raised no_encode

  unfoldable pub row_of : Device → Result Error Row
  unfolding encoded is_set
  row_of d = encoded d.password >>= (λ b64. ok (record {
    fields = record (d.fields) { has_password = is_set d.password };
    password_b64 = b64;
  }))

  unfoldable pub rows_of : Dict Device → Result Error (List Row)
  unfolding row_of
  rows_of [] = ok []
  rows_of ((id, d) ∷ devices) = row_of d >>= (λ row. rows_of devices >>= (λ rows. ok (row ∷ rows)))

  -- `save`; `written` tells whether the new file could be put in place.
  unfoldable pub save : Bool → Store → Store × Option Error
  unfolding rows_of
  save written s = elim (rows_of s.devices) [
    | raised e ↦ (s, some e)
    | ok rows ↦ if written then (record s { file = rows }, none) else (s, some not_written)
  ]

  unfoldable pub delete : Bool → String → Store → Store × Option Error
  unfolding save
  delete written id s = elim (lookup id s.devices) [
    | none ↦ (s, some missing)
    | some _ ↦ save written (record s { devices = erase id s.devices; states = erase id s.states })
  ]

  module _ (strip lower : String → String) (make_root : String → Option String)
      (demo_root : String) where
    unfoldable pub add : Bool → String → ℕ → Data → Store → Store × Option Error
    unfolding save new_device
    add written drawn now given s =
        elim (new_device strip lower make_root demo_root s.key_store.keys drawn now given) [
          | raised e ↦ (s, some e)
          | ok d ↦ save written (record s { devices = insert d.fields.id d s.devices })
        ]

    -- `d["updated_at"] = ...` and `save`, if the change went through.
    unfoldable pub put_back :
        Bool → String → ℕ → Device × Option Error → Store → Store × Option Error
    unfolding save
    put_back written id now (d, some e) s = (record s { devices = insert id d s.devices }, some e)
    put_back written id now (d, none) s = save written (record s {
      devices = insert id (record d { fields = record (d.fields) { updated_at = now } }) s.devices;
    })

    -- The device is changed where it is, also by a change that is refused.
    unfoldable pub update : Bool → String → ℕ → Data → Store → Store × Option Error
    unfolding put_back edit
    update written id now given s = elim (lookup id s.devices) [
      | none ↦ (s, some missing)
      | some d ↦ put_back written id now (edit strip lower make_root s.key_store.keys given d) s
    ]

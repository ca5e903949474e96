-- ===== src/Devices/Calls.antt =====
-- The stores of host/device/ under any calls; a key's deletion is that of host/api/handlers/keys.py, which
-- lists the devices first, as one step.
use rkcockpit.Common.{Bool, List, Option, String, [], if◌then◌else◌, none, some, ℕ, ◌∷◌}
use rkcockpit.Common.Dict.{Dict, insert}
use rkcockpit.Devices.{Data, Device, DeviceState, Error, is_empty}
use rkcockpit.Devices.Keys.{KeyStore, Keygen, Wanted, generate}
use rkcockpit.Devices.Saving.{Store, add, update, delete}
use rkcockpit.Devices.Keys

pub data Event : Type 0 where
  adds : Bool → String → ℕ → Data → Event
  updates : Bool → String → ℕ → Data → Event
  deletes : Bool → String → Event
  sets_state : String → DeviceState → Event
  generates : Bool → ℕ → List String → Wanted → Keygen → Event
  deletes_key : Bool → String → Event

-- `if d.get("key_ref"): refs[d["key_ref"]] = ...`
unfoldable pub ref_of : Option String → List String → List String
unfolding is_empty
ref_of none refs = refs
ref_of (some ref) refs = if is_empty ref then refs else ref ∷ refs

-- The keys of `refs` in `keys_delete`.
unfoldable pub refs_of : Dict Device → List String
unfolding ref_of
refs_of [] = []
refs_of ((id, d) ∷ devices) = ref_of d.fields.key_ref (refs_of devices)

abbrev pub with_keys : Store → KeyStore × Option Error → Store × Option Error
with_keys s (keys, e) = (record s { key_store = keys }, e)

module _ (pack : String → Option String) (strip lower : String → String)
    (make_root : String → Option String) (demo_root : String) where
  unfoldable pub step : Event → Store → Store × Option Error
  unfolding add update delete generate Keys.delete refs_of
  step (adds written drawn now given) s =
      add pack strip lower make_root demo_root written drawn now given s
  step (updates written id now given) s =
      update pack strip lower make_root demo_root written id now given s
  step (deletes written id) s = delete pack written id s
  step (sets_state id state) s = (record s { states = insert id state s.states }, none)
  step (generates written now ids wanted keygen) s =
      with_keys s (generate written now ids wanted keygen s.key_store)
  step (deletes_key written id) s =
      with_keys s (Keys.delete written id (refs_of s.devices) s.key_store)

  unfoldable pub run : List Event → Store → Store
  unfolding step
  run [] s = s
  run (e ∷ events) s = run events (step e s).0

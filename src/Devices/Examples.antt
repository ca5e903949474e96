-- ===== src/Devices/Examples.antt =====
-- The stores of host/device/ on a file with one password and one key.
use rkcockpit.Common.{
  All, List, Option, String, [], false, inl, none, refl, some, true, ℕ, ◌∷◌, ◌≡◌,
}
use rkcockpit.Common.Dict.{lookup, insert}
use rkcockpit.Common.Result.{ok}
use rkcockpit.Devices.{Data, Device, Fields, Row, bytes, is_set, or_else, no_password, number}
use rkcockpit.Devices.Keys.{Key, KeyStore}
use rkcockpit.Devices.Saving.{Store, load}
use rkcockpit.Devices.Calls.{Event, adds, updates, deletes, deletes_key, run}
use rkcockpit.Devices.Passwords.{AllRefused, Spares, run-refuses}
use rkcockpit.Devices.Refs.{AllHaveKeys}
use rkcockpit.Devices.Sharing.{run-HaveKeys}

abbrev same : String → String
same t = t

abbrev decoded : String → Option (List ℕ)
decoded t = some (112 ∷ 119 ∷ [])

abbrev board : Fields
board = record {
  id = "a";
  name = "board";
  kind = "ssh";
  host = "10.0.0.2";
  port = 22;
  user = "root";
  auth = "password";
  remark = "";
  created_at = 1;
  updated_at = 1;
  local_root = none;
  has_password = true;
  key_ref = none;
}

abbrev keyed : Fields
keyed = record board { id = "b"; has_password = false; key_ref = some "k" }

abbrev file : List Row
file =
    record { fields = board; password_b64 = "cHc=" }
    ∷ record { fields = keyed; password_b64 = "" }
    ∷ []

abbrev key : Key
key = record {
  id = "k";
  name = "lab";
  kind = "rsa";
  public = "ssh-rsa";
  fingerprint = "";
  created_at = 0;
}

abbrev key_store : KeyStore
key_store = record { keys = ("k", key) ∷ []; saved = ("k", key) ∷ [] }

abbrev first : Device
first = record { fields = board; password = bytes (112 ∷ 119 ∷ []); key_path = none }

abbrev second : Device
second = record {
  fields = keyed;
  password = no_password;
  key_path = some (record { key_id = "k"; kind = "rsa" });
}

abbrev store : Store
store = record {
  devices = ("a", first) ∷ ("b", second) ∷ [];
  states = [];
  key_store = key_store;
  file = file;
}

loaded : load decoded key_store file ≡ ok store
unfolding load insert lookup
loaded = refl

abbrev wanted : Data
wanted = record {
  id = none;
  name = some "new";
  kind = some "ssh";
  host = some "10.0.0.3";
  port = number 0;
  user = none;
  auth = none;
  remark = none;
  local_root = none;
  password = some "pw";
  key_ref = none;
  is_name_null = false;
}

abbrev calls : List Event
calls =
    adds true "c" 5 wanted
    ∷ updates true "b" 6 wanted
    ∷ deletes true "b"
    ∷ deletes_key true "k"
    ∷ []

first_found : lookup "a" store.devices ≡ some first
unfolding lookup
first_found = refl

first_set : is_set first.password ≡ true
unfolding is_set
first_set = refl

calls-Spares : All (Spares "a") calls
unfolding or_else
calls-Spares = (refl, (inl refl, (refl, (tt, tt))))

run-refuses_example :
    AllRefused some same same some "/demo" calls store
    × ((run some same same some "/demo" calls store).file ≡ file)
run-refuses_example =
    run-refuses some same same some "/demo" decoded key_store file store loaded "a" first
      first_found first_set calls calls-Spares

run-HaveKeys_example :
    let t = run some same same some "/demo" calls store in AllHaveKeys t.key_store.keys t.devices
run-HaveKeys_example =
    run-HaveKeys some same same some "/demo" decoded key_store file store loaded calls

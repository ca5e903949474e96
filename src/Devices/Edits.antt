-- ===== src/Devices/Edits.antt =====
-- How host/device/store.py makes a device of a request, and changes one in place.
use rkcockpit.Common.{
  Bool, List, Option, String, [], if◌then◌else◌, none, not, some, str_eq, ℕ, ◌&&◌, ◌++◌, ◌==◌, ◌||◌,
  ◌∷◌,
}
use rkcockpit.Common.Dict.{Dict}
use rkcockpit.Common.Result.{Result, ok, raised, ◌>>=◌}
use rkcockpit.Devices.{
  Data, Device, Error, Fault, Fields, KeyPath, Port, absent, bad_port, bad_type, invalid, is_empty,
  is_set, missing_ref, no_adb_host, no_name, no_root, no_ssh_host, number, or_else, or_none,
  password_of, spelled,
}
use rkcockpit.Devices.Keys.{Key, get_path}

abbrev no_faults : Bool → Fault → List Fault
no_faults fine fault = if fine then [] else fault ∷ []

-- The faults of a type in lower case, a name and a host, in order.
unfoldable pub faults : String → String → String → List Fault
unfolding is_empty
faults kind name host =
    no_faults (str_eq kind "ssh" || str_eq kind "adb" || str_eq kind "local") bad_type
    ++ no_faults (not (is_empty name)) no_name
    ++ no_faults (not (str_eq kind "ssh" && is_empty host)) no_ssh_host
    ++ no_faults (not (str_eq kind "adb" && is_empty host)) no_adb_host

unfoldable pub fail_on : List Fault → Result Error String → Result Error String
fail_on [] r = r
fail_on (fault ∷ more) r = raised (invalid (fault ∷ more))

unfoldable pub or_22 : ℕ → ℕ
or_22 n = if n == 0 then 22 else n

-- `int(data.get("port") or 22)`
unfoldable pub port_of : Port → Result Error ℕ
unfolding or_22
port_of absent = ok 22
port_of (number n) = ok (or_22 n)
port_of (spelled none) = raised bad_port
port_of (spelled (some n)) = ok n

-- A device that is changed in place, and the exception that ended its change.
abbrev pub Change : Type 0
Change = Device × Option Error

unfoldable pub then_change : Change → (Device → Change) → Change
then_change (d, some e) f = (d, some e)
then_change (d, none) f = f d

unfoldable pub set_fields : (Fields → Fields) → Device → Device
set_fields f d = record d { fields = f d.fields }

-- `str(data["name"])`, which is "None" for null.
unfoldable pub given_name : Data → Option String
given_name given = if given.is_name_null then some "None" else given.name

-- `if key in data`
unfoldable pub set_text : (String → Fields → Fields) → Option String → Device → Device
unfolding set_fields
set_text f none d = d
set_text f (some t) d = set_fields (f t) d

unfoldable pub set_port : Port → Device → Change
unfolding port_of set_fields
set_port absent d = (d, none)
set_port (number n) d = elim (port_of (number n)) [
  | ok m ↦ (set_fields (λ x. record x { port = m }) d, none)
  | raised e ↦ (d, some e)
]
set_port (spelled n) d = elim (port_of (spelled n)) [
  | ok m ↦ (set_fields (λ x. record x { port = m }) d, none)
  | raised e ↦ (d, some e)
]

unfoldable pub set_password : Option String → Device → Device
unfolding password_of is_set
set_password none d = d
set_password (some t) d = record d {
  fields = record (d.fields) { has_password = is_set (password_of (some t)) };
  password = password_of (some t);
}

-- `self._resolve_key_path(ref)`
unfoldable pub resolve : Option String → Dict Key → Option KeyPath
unfolding get_path is_empty
resolve none keys = none
resolve (some ref) keys = if is_empty ref then none else get_path ref keys

unfoldable pub set_ref : Dict Key → Option String → Device → Change
unfolding resolve
set_ref keys none d =
    (record d { fields = record (d.fields) { key_ref = none }; key_path = none }, none)
set_ref keys (some ref) d = elim (resolve (some ref) keys) [
  | none ↦ (d, some missing_ref)
  | some p ↦
      (record d { fields = record (d.fields) { key_ref = some ref }; key_path = some p }, none)
]

unfoldable pub set_key_ref : Dict Key → Option String → Device → Change
unfolding set_ref or_none
set_key_ref keys none d = (d, none)
set_key_ref keys (some t) d = set_ref keys (or_none (some t)) d

unfoldable pub pass_on : Device → Result Error String → Change
pass_on d (ok _) = (d, none)
pass_on d (raised e) = (d, some e)

-- `strip` and `lower` are Python's; `make_root` is `abspath(expanduser(...))` with `makedirs`, which may
-- fail.
module _ (strip lower : String → String) (make_root : String → Option String) where
  unfoldable pub validate : Option String → String → String → Result Error String
  unfolding faults fail_on or_else
  validate kind name host =
      let typ = lower (or_else kind "") in fail_on (faults typ name host) (ok typ)

  -- The new device's root, if it is a local one.
  unfoldable pub root_of : String → String → Option String → Result Error (Option String)
  unfolding or_else
  root_of demo_root typ wanted =
      if str_eq typ "local"
      then elim (make_root (or_else wanted demo_root)) [
        | none ↦ raised no_root
        | some root ↦ ok (some root)
      ]
      else ok none

  unfoldable pub key_of : Dict Key → Option String → Result Error (Option KeyPath)
  unfolding get_path
  key_of keys none = ok none
  key_of keys (some ref) = elim (get_path ref keys) [
    | none ↦ raised missing_ref
    | some p ↦ ok (some p)
  ]

  -- The device that `add` puts into the store; `drawn` is the id of `gen_id`.
  unfoldable pub new_device : String → Dict Key → String → ℕ → Data → Result Error Device
  unfolding validate port_of root_of key_of or_else or_none password_of is_set
  new_device demo_root keys drawn now given =
      validate given.kind (or_else given.name "") (or_else given.host "") >>= (λ typ.
        port_of given.port >>= (λ port. root_of demo_root typ given.local_root >>= (λ root.
          key_of keys (or_none given.key_ref) >>= (λ path. ok (record {
            fields = record {
              id = or_else given.id drawn;
              name = strip (or_else given.name "");
              kind = typ;
              host = strip (or_else given.host "");
              port = port;
              user = strip (or_else given.user "root");
              auth = or_else given.auth "key";
              remark = strip (or_else given.remark "");
              created_at = now;
              updated_at = now;
              local_root = root;
              has_password = is_set (password_of given.password);
              key_ref = or_none given.key_ref;
            };
            password = password_of given.password;
            key_path = path;
          })))))

  -- `if data.get("local_root") and d["type"] == "local"`
  unfoldable pub set_root : Option String → Device → Change
  set_root none d = (d, none)
  set_root (some wanted) d =
      if str_eq d.fields.kind "local"
      then elim (make_root wanted) [
        | none ↦ (d, some no_root)
        | some root ↦ (set_fields (λ x. record x { local_root = some root }) d, none)
      ]
      else (d, none)

  unfoldable pub check : Device → Change
  unfolding validate pass_on
  check d = pass_on d (validate (some d.fields.kind) d.fields.name d.fields.host)

  -- `update` up to the check, in the order of the source.
  unfoldable pub edit : Dict Key → Data → Device → Change
  unfolding given_name set_text set_port set_root set_password set_key_ref check then_change or_else
      or_none
  edit keys given d =
      let named = set_text (λ t x. record x { name = strip t }) (given_name given) d in
      let typed = set_text (λ t x. record x { kind = lower t }) given.kind named in
      let hosted = set_text (λ t x. record x { host = strip t }) given.host typed in
      then_change (set_port given.port hosted) (λ ported.
        let used =
          set_text (λ t x. record x { user = strip (or_else (some t) "root") }) given.user ported in
        let authed = set_text (λ t x. record x { auth = or_else (some t) "key" }) given.auth used in
        let noted = set_text (λ t x. record x { remark = strip t }) given.remark authed in
        then_change (set_root (or_none given.local_root) noted) (λ rooted.
          then_change (set_key_ref keys given.key_ref (set_password given.password rooted)) check))

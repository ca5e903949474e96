-- ===== src/Devices.antt =====
-- The device and key stores of host/device/store.py and host/device/keys.py, with the calls of
-- host/api/handlers/keys.py. White space and lower case of texts, base64 with UTF-8, `ssh-keygen`, clocks
-- and disks are parameters or arguments. Requests whose fields are no texts, and key files, are not
-- modelled.
mod Examples
pub mod Keys
pub mod Edits
pub mod Saving
pub mod Calls
pub mod Changes
pub mod Refs
pub mod Sharing
pub mod Stuck
pub mod Passwords
use rkcockpit.Common.{
  Bool, List, Option, String, false, if◌then◌else◌, is_nonempty, none, not, some, str_eq, ℕ,
}

-- `os.path.join(keys_dir, key_id, "id_" + type)`
pub record KeyPath : Type 0 where
  pub key_id : String
  pub kind : String

-- What `_password` holds: None, the text of a request, or the bytes that `b64decode` gave.
pub data Password : Type 0 where
  no_password : Password
  text : String → Password
  bytes : List ℕ → Password

-- The entries of a device's dictionary that are also written to the file.
pub record Fields : Type 0 where
  pub id : String
  pub name : String
  pub kind : String
  pub host : String
  pub port : ℕ
  pub user : String
  pub auth : String
  pub remark : String
  pub created_at : ℕ
  pub updated_at : ℕ
  pub local_root : Option String
  pub has_password : Bool
  pub key_ref : Option String

pub record Device : Type 0 where
  pub fields : Fields
  pub password : Password
  pub key_path : Option KeyPath

-- An object in devices.json; `_password_b64` is empty where it is missing.
pub record Row : Type 0 where
  pub fields : Fields
  pub password_b64 : String

pub record DeviceState : Type 0 where
  pub shown : String
  pub checked_ms : ℕ

-- What `_validate` finds.
pub data Fault : Type 0 where
  bad_type no_name no_ssh_host no_adb_host : Fault

-- KeyError, the ValueErrors, and what `str.encode`, bytes without `encode`, `makedirs` and the disk raise;
-- `still_drawing` stands for a call that draws ids until one is free.
pub data Error : Type 0 where
  missing missing_ref bad_port bad_base64 is_referenced bad_name bad_kind keygen_failed : Error
  invalid : List Fault → Error
  no_encode no_text no_root not_written still_drawing : Error

-- A port: absent, a number (0 also for what Python takes as false), or what `int` makes of a text.
pub data Port : Type 0 where
  absent : Port
  number : ℕ → Port
  spelled : Option ℕ → Port

-- The fields of a request that are there; null is as an empty text, and a name that is null is told apart.
pub record Data : Type 0 where
  pub id : Option String
  pub name : Option String
  pub kind : Option String
  pub host : Option String
  pub port : Port
  pub user : Option String
  pub auth : Option String
  pub remark : Option String
  pub local_root : Option String
  pub password : Option String
  pub key_ref : Option String
  pub is_name_null : Bool

unfoldable pub is_empty : String → Bool
is_empty t = str_eq t ""

-- Python's `x or default`.
unfoldable pub or_else : Option String → String → String
unfolding is_empty
or_else none default = default
or_else (some t) default = if is_empty t then default else t

-- Python's `x or None`.
unfoldable pub or_none : Option String → Option String
unfolding is_empty
or_none none = none
or_none (some t) = if is_empty t then none else some t

-- `data.get("password") or None`
unfoldable pub password_of : Option String → Password
unfolding is_empty
password_of none = no_password
password_of (some t) = if is_empty t then no_password else text t

-- `bool(d["_password"])`
unfoldable pub is_set : Password → Bool
unfolding is_empty
is_set no_password = false
is_set (text t) = not (is_empty t)
is_set (bytes bs) = is_nonempty bs

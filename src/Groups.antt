-- ===== src/Groups.antt =====
-- `GroupStore` in host/device/groups.py: named groups of device ids. The parameter `strip` is
-- `str.strip`, whose white space is a table of Unicode. `saved` is what the last `_save` wrote, which
-- `remove_device` calls once it has let go of the lock; before the first one the file is what `_load` read.
-- The sorted listing and failures of the disk are not modelled.
mod Examples
pub mod Members
pub mod Saved
use rkcockpit.Common.{
  Bool, List, Option, String, [], false, filter, if◌then◌else◌, none, not, some, str_eq, ℕ, ◌++◌,
  ◌||◌, ◌∷◌,
}
use rkcockpit.Common.Dict.{Dict, lookup, insert, erase}
use rkcockpit.Common.Int.{ℤ, pos}
use rkcockpit.Common.Result.{Result, ok, raised, ◌>>=◌}

pub record Group : Type 0 where
  pub name : String
  pub device_ids : List String
  pub created_at : ℤ

pub record GroupStore : Type 0 where
  pub groups : Dict Group
  pub saved : Option (Dict Group)

-- KeyError, the ValueErrors of `create`, and what `int` raises for a time in the file.
pub data Error : Type 0 where
  missing_group no_name name_taken bad_time : Error

-- A group as the file has it: its device ids as texts, if they are a list, and its time as
-- `int(... or 0)`, if that raises nothing.
pub record RawGroup : Type 0 where
  pub device_ids : Option (List String)
  pub created_at : Option ℤ

-- `s in ids`
unfoldable pub lists : String → List String → Bool
lists d [] = false
lists d (x ∷ ids) = str_eq x d || lists d ids

unfoldable pub save : GroupStore → GroupStore
save s = record s { saved = some s.groups }

unfoldable pub get : String → GroupStore → Result Error Group
get name s = elim (lookup name s.groups) [ none ↦ raised missing_group | some g ↦ ok g ]

abbrev pub or_empty : Option String → String
or_empty none = ""
or_empty (some t) = t

abbrev pub with_ids : List String → Group → Group
with_ids ids g = record g { device_ids = ids }

unfoldable pub delete : String → GroupStore → Result Error GroupStore
unfolding save
delete name s = elim (lookup name s.groups) [
  | none ↦ raised missing_group
  | some _ ↦ ok (save (record s { groups = erase name s.groups }))
]

unfoldable pub without_id : String → List String → List String
without_id did ids = filter (λ x. not (str_eq x did)) ids

unfoldable pub forget : String → Dict Group → Dict Group
unfolding lists without_id
forget did [] = []
forget did ((name, g) ∷ groups) =
    let rest = forget did groups in
    if lists did g.device_ids
    then (name, with_ids (without_id did g.device_ids) g) ∷ rest
    else (name, g) ∷ rest

-- `changed`: some group lists the device.
unfoldable pub any_lists : String → Dict Group → Bool
unfolding lists
any_lists did [] = false
any_lists did ((name, g) ∷ groups) = lists did g.device_ids || any_lists did groups

unfoldable pub remove_device : String → GroupStore → GroupStore
unfolding forget any_lists save
remove_device did s =
    let t = record s { groups = forget did s.groups } in
    if any_lists did s.groups then save t else t

module _ (strip : String → String) where
  -- The loop of `_clean_ids`, with the ids that are out already.
  unfoldable pub clean_from : List String → List String → List String
  unfolding lists
  clean_from out [] = out
  clean_from out (x ∷ ids) =
      let s = strip x in clean_from (if str_eq s "" || lists s out then out else out ++ s ∷ []) ids

  -- `_clean_ids`; `none` is a value that is no list.
  unfoldable pub clean_ids : Option (List String) → List String
  unfolding clean_from
  clean_ids none = []
  clean_ids (some ids) = clean_from [] ids

  -- `_load`, on the file's object, or on none where there is no file, no JSON, or no object. An entry that
  -- is no object is left out.
  unfoldable pub load_entries :
      List (String × Option RawGroup) → Dict Group → Result Error (Dict Group)
  unfolding clean_ids
  load_entries [] groups = ok groups
  load_entries ((name, none) ∷ raws) groups = load_entries raws groups
  load_entries ((name, some g) ∷ raws) groups = elim g.created_at [
    | none ↦ raised bad_time
    | some at ↦ load_entries raws (
        insert name (record { name = name; device_ids = clean_ids g.device_ids; created_at = at })
          groups)
  ]

  -- The constructor: the store that `_load` leaves, with no `_save` yet.
  unfoldable pub load : List (String × Option RawGroup) → Result Error GroupStore
  unfolding load_entries
  load raws = load_entries raws [] >>= λ groups. ok (record { groups = groups; saved = none })

  -- `create` at the clock `now`, in milliseconds.
  unfoldable pub create :
      ℕ → Option String → Option (List String) → GroupStore → Result Error (Group × GroupStore)
  unfolding clean_ids save
  create now given device_ids s =
      let name = strip (or_empty given) in
      let g : Group = record {
        name = name;
        device_ids = clean_ids device_ids;
        created_at = pos now;
      } in
      if str_eq name "" then raised no_name else elim (lookup name s.groups) [
        | some _ ↦ raised name_taken
        | none ↦ ok (g, save (record s { groups = insert name g s.groups }))
      ]

  unfoldable pub update :
      String → Option (List String) → GroupStore → Result Error (Group × GroupStore)
  unfolding clean_ids save
  update name device_ids s = elim (lookup name s.groups) [
    | none ↦ raised missing_group
    | some g ↦
        let h = with_ids (clean_ids device_ids) g in
        ok (h, save (record s { groups = insert name h s.groups }))
  ]

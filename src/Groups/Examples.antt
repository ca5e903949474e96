-- ===== src/Groups/Examples.antt =====
-- Runs of the groups of host/device/groups.py, on texts without white space.
use rkcockpit.Common.{◌⊎◌, Option, List, String, [], none, refl, some, ◌∷◌, ◌≡◌}
use rkcockpit.Common.Dict.{lookup, insert, erase}
use rkcockpit.Common.Int.{pos}
use rkcockpit.Common.Result.{ok}
use rkcockpit.Groups.{Group, GroupStore, RawGroup, load}
use rkcockpit.Groups.Members.{IsSound}
use rkcockpit.Groups.Saved.{Event, creates, updates, deletes, removes_device, run, run-IsSound}

abbrev unchanged : String → String
unchanged t = t

abbrev calls : List Event
calls =
    creates 5 (some "lab") (some ("a" ∷ "b" ∷ "" ∷ "a" ∷ []))
    ∷ creates 6 (some "lab") none
    ∷ creates 7 (some "") none
    ∷ updates "attic" none
    ∷ creates 8 (some "attic") none
    ∷ removes_device "a"
    ∷ deletes "attic"
    ∷ []

abbrev lab : Group
lab = record { name = "lab"; device_ids = "a" ∷ "b" ∷ []; created_at = pos 5 }

-- A file with a group that lists a device twice, and with an entry that is no group.
abbrev raws : List (String × Option RawGroup)
raws =
    ("roof", some (record { device_ids = some ("c" ∷ "" ∷ "c" ∷ []); created_at = some (pos 1) }))
    ∷ ("x", none)
    ∷ []

abbrev roof : Group
roof = record { name = "roof"; device_ids = "c" ∷ []; created_at = pos 1 }

abbrev started : GroupStore
started = record { groups = ("roof", roof) ∷ []; saved = none }

calls-groups :
    (run unchanged calls started).groups
    ≡ ("roof", roof) ∷ ("lab", record lab { device_ids = "b" ∷ [] }) ∷ []
unfolding run lookup insert erase
calls-groups = refl

raws_read : load unchanged raws ≡ ok started
unfolding load insert
raws_read = refl

run-IsSound_example :
    let s = run unchanged calls started in
    IsSound s.groups × ((s.saved ≡ none) × (s.groups ≡ started.groups) ⊎ (s.saved ≡ some s.groups))
run-IsSound_example = run-IsSound unchanged raws started calls raws_read

-- ===== src/Groups/Members.antt =====
-- The groups of host/device/groups.py under any calls.
use rkcockpit.Common.{
  List, String, [], ap, arith, eq_iff, false, if◌then◌else◌, not, refl, some, str_eq, ◌&&◌, ◌++◌,
  ◌||◌, ◌∙◌, ◌∷◌, ◌≡◌,
}
use rkcockpit.Common.Dict.{Dict, lookup, insert, erase}
use rkcockpit.Groups.{
  Group, GroupStore, lists, save, without_id, forget, any_lists, remove_device, with_ids,
}

-- No id is empty, and none is there twice.
abbrev pub IsClean : List String → Type 0
IsClean [] = Unit
IsClean (x ∷ ids) = (str_eq x "" ≡ false) × (lists x ids ≡ false) × IsClean ids

lists-append : (d : String) (xs ys : List String) → lists d (xs ++ ys) ≡ (lists d xs || lists d ys)
unfolding lists
lists-append d [] ys = refl
lists-append d (x ∷ xs) ys = ground (arith, lists-append d xs ys)

pub IsClean-snoc :
    (xs : List String) (s : String)
    → IsClean xs
    → str_eq s "" ≡ false
    → lists s xs ≡ false
    → IsClean (xs ++ s ∷ [])
unfolding lists
IsClean-snoc [] s h e n = (e, refl, tt)
IsClean-snoc (x ∷ xs) s (a, b, c) e n = (
  a,
  ground (arith, b, n, lists-append x xs (s ∷ []), eq_iff x s, eq_iff s x),
  IsClean-snoc xs s c e (ground (arith, n)),
)

-- Each group stands under its own name, with clean ids.
abbrev pub IsSound : Dict Group → Type 0
IsSound [] = Unit
IsSound ((name, g) ∷ groups) = (g.name ≡ name) × IsClean g.device_ids × IsSound groups

without-lists :
    (d x : String) (ids : List String)
    → lists x (without_id d ids) ≡ (lists x ids && not (str_eq x d))
unfolding lists without_id
without-lists d x [] = refl
without-lists d x (y ∷ ids) =
    ground (arith, without-lists d x ids, eq_iff y d, eq_iff y x, eq_iff x d)

forgetting : String → Group → Group
forgetting did g = if lists did g.device_ids then with_ids (without_id did g.device_ids) g else g

lookup-forget :
    (did name : String) (groups : Dict Group) (g : Group)
    → lookup name groups ≡ some g
    → lookup name (forget did groups) ≡ some (forgetting did g)
unfolding lookup forget forgetting
lookup-forget did name [] g e = absurd (ground arith)
lookup-forget did name ((k, h) ∷ groups) g e = ground (arith, lookup-forget did name groups g)

forgetting-lists :
    (did d : String) (g : Group)
    → lists d (forgetting did g).device_ids ≡ (lists d g.device_ids && not (str_eq d did))
unfolding forgetting
forgetting-lists did d g = ground (arith, without-lists did d g.device_ids, eq_iff d did)

forgetting-name : (did : String) (g : Group) → (forgetting did g).name ≡ g.name
unfolding forgetting
forgetting-name did g = ground arith

remove_device-groups :
    (did : String) (s : GroupStore) → (remove_device did s).groups ≡ forget did s.groups
unfolding remove_device save
remove_device-groups did s = ground arith

-- For a group that stands under a name: after the removal of a device a group of that name still
-- stands there, and it lists an id exactly when the group listed it before and it is not the device.
remove_device-lists :
    (did : String) (s : GroupStore) (name : String) (g : Group)
    → lookup name s.groups ≡ some g
    → (h : Group) × (lookup name (remove_device did s).groups ≡ some h)
      × (h.name ≡ g.name)
      × ((d : String) → lists d h.device_ids ≡ (lists d g.device_ids && not (str_eq d did)))
remove_device-lists did s name g e = (
  forgetting did g,
  ap (lookup name) (remove_device-groups did s) ∙ lookup-forget did name s.groups g e,
  forgetting-name did g,
  λ d. forgetting-lists did d g,
)

pub forget-none :
    (did : String) (groups : Dict Group) → any_lists did groups ≡ false → forget did groups ≡ groups
unfolding forget any_lists
forget-none did [] h = refl
forget-none did ((k, g) ∷ groups) h = ground (arith, forget-none did groups)

without-IsClean : (d : String) (ids : List String) → IsClean ids → IsClean (without_id d ids)
unfolding without_id
without-IsClean d [] h = tt
without-IsClean d (x ∷ ids) (a, b, c) =
    ground (arith, a, b, without-IsClean d ids c, without-lists d x ids)

forgetting-IsClean :
    (did : String) (g : Group) → IsClean g.device_ids → IsClean (forgetting did g).device_ids
unfolding forgetting
forgetting-IsClean did g h = ground (arith, h, without-IsClean did g.device_ids h)

pub forget-IsSound :
    (did : String) (groups : Dict Group) → IsSound groups → IsSound (forget did groups)
unfolding forget
forget-IsSound did [] h = tt
forget-IsSound did ((k, g) ∷ groups) (a, b, c) =
    ground (arith, a, b, forget-IsSound did groups c, without-IsClean did g.device_ids b)

pub insert-IsSound :
    (g : Group) (groups : Dict Group)
    → IsClean g.device_ids
    → IsSound groups
    → IsSound (insert g.name g groups)
unfolding insert
insert-IsSound g [] c h = (refl, c, tt)
insert-IsSound g ((k, j) ∷ groups) c (a, b, h) =
    ground (arith, a, b, h, c, insert-IsSound g groups c h)

pub erase-IsSound :
    (name : String) (groups : Dict Group) → IsSound groups → IsSound (erase name groups)
unfolding erase
erase-IsSound name [] h = tt
erase-IsSound name ((k, j) ∷ groups) (a, b, h) = ground (arith, a, b, erase-IsSound name groups h)

pub lookup-name :
    (name : String) (g : Group) (groups : Dict Group)
    → IsSound groups
    → lookup name groups ≡ some g
    → g.name ≡ name
unfolding lookup
lookup-name name g [] h e = absurd (ground arith)
lookup-name name g ((k, j) ∷ groups) (a, b, h) e =
    ground (arith, a, eq_iff k name, lookup-name name g groups h)

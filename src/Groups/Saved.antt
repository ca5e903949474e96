-- ===== src/Groups/Saved.antt =====
-- The invariant of host/device/groups.py and its file, under any sequence of calls.
use rkcockpit.Common.{
  ap, Bool-cases, List, Option, Option-cases, String, [], arith, false, if◌then◌else◌, inl, inr,
  none, refl, some, str_eq, subst, sym, true, ℕ, ◌++◌, ◌||◌, ◌∙◌, ◌∷◌, ◌≡◌, ◌⊎◌,
}
use rkcockpit.Common.Dict.{Dict, lookup, insert}
use rkcockpit.Common.Result.{ok_injective, first_ok, Result, ok, raised}
use rkcockpit.Groups.{
  pos, bad_time, load_entries, load, RawGroup, Group, GroupStore, Error, lists, save, delete,
  any_lists, remove_device, clean_from, clean_ids, create, update, with_ids, or_empty,
}
use rkcockpit.Groups.Members.{
  IsClean, IsClean-snoc, IsSound, insert-IsSound, erase-IsSound, forget-IsSound, lookup-name,
  forget-none,
}

pub data Event : Type 0 where
  creates : ℕ → Option String → Option (List String) → Event
  updates : String → Option (List String) → Event
  deletes : String → Event
  removes_device : String → Event

abbrev pub after_pair : GroupStore → Result Error (Group × GroupStore) → GroupStore
after_pair s (ok (g, t)) = t
after_pair s (raised _) = s

abbrev pub after_call : GroupStore → Result Error GroupStore → GroupStore
after_call s (ok t) = t
after_call s (raised _) = s

raised≢ok : (e : Error) (d : Dict Group) → ◌≡◌ {A = Result Error (Dict Group)} (raised e) (ok d) → ⊥
raised≢ok e d h = cc

module _ (strip : String → String) where
  unfoldable pub step : Event → GroupStore → GroupStore
  unfolding create update delete remove_device
  step (creates now name ids) s = after_pair s (create strip now name ids s)
  step (updates name ids) s = after_pair s (update strip name ids s)
  step (deletes name) s = after_call s (delete name s)
  step (removes_device did) s = remove_device did s

  unfoldable pub run : List Event → GroupStore → GroupStore
  unfolding step
  run [] s = s
  run (e ∷ events) s = run events (step e s)

  clean_from-IsClean : (ids out : List String) → IsClean out → IsClean (clean_from strip out ids)
  unfolding clean_from
  clean_from-IsClean [] out h = h
  clean_from-IsClean (x ∷ ids) out h =
      clean_from-IsClean ids _ (by_test (Bool-cases (str_eq (strip x) "" || lists (strip x) out)))
    where
      by_test :
          ((str_eq (strip x) "" || lists (strip x) out) ≡ true)
            ⊎ ((str_eq (strip x) "" || lists (strip x) out) ≡ false)
          → IsClean
              (if str_eq (strip x) "" || lists (strip x) out then out else out ++ strip x ∷ [])
      by_test (inl skipped) = rw skipped h
      by_test (inr added) = rw added (IsClean-snoc out (strip x) h (ground arith) (ground arith))

  -- `_clean_ids` gives ids none of which is empty and none of which is there twice.
  clean_ids-IsClean : (ids : Option (List String)) → IsClean (clean_ids strip ids)
  unfolding clean_ids
  clean_ids-IsClean none = tt
  clean_ids-IsClean (some ids) = clean_from-IsClean ids [] tt

  -- Since the groups `loaded`: sound, and either saved as they are or as they were loaded.
  pub record IsKept (loaded : Dict Group) (s : GroupStore) : Type 0 where
    pub sound : IsSound s.groups
    pub same : (s.saved ≡ none) × (s.groups ≡ loaded) ⊎ (s.saved ≡ some s.groups)

  create-IsKept :
      (loaded : Dict Group) (now : ℕ) (name : Option String) (ids : Option (List String))
      (s : GroupStore)
      → IsKept loaded s
      → IsKept loaded (after_pair s (create strip now name ids s))
  unfolding create save
  create-IsKept loaded now name ids s h =
      by_test (Bool-cases (str_eq n "")) (Option-cases (lookup n s.groups))
    where
      n : String
      n = strip (or_empty name)

      by_test :
          (str_eq n "" ≡ true) ⊎ (str_eq n "" ≡ false)
          → (lookup n s.groups ≡ none) ⊎ ((g : Group) × (lookup n s.groups ≡ some g))
          → IsKept loaded (after_pair s (create strip now name ids s))
      by_test (inl empty) _ = rw (empty, create) h
      by_test (inr named) (inr (g, e)) = rw (named, e, create) h
      by_test (inr named) (inl e) =
          rw (named, e, create)
            (record {
              sound =
                  insert-IsSound
                    (record { name = n; device_ids = clean_ids strip ids; created_at = pos now })
                    s.groups (clean_ids-IsClean ids) h.sound;
              same = inr refl;
            })

  update-IsKept :
      (loaded : Dict Group) (name : String) (ids : Option (List String)) (s : GroupStore)
      → IsKept loaded s
      → IsKept loaded (after_pair s (update strip name ids s))
  unfolding update save
  update-IsKept loaded name ids s h = elim (Option-cases (lookup name s.groups)) [
    | inl e ↦ rw (e, update) h
    | inr (g, e) ↦
        rw (e, update)
          (record {
            sound =
                subst (λ k. IsSound (insert k (with_ids (clean_ids strip ids) g) s.groups))
                  (lookup-name name g s.groups h.sound e)
                  (insert-IsSound (with_ids (clean_ids strip ids) g) s.groups
                    (clean_ids-IsClean ids) h.sound);
            same = inr refl;
          })
  ]

  step-IsKept :
      (loaded : Dict Group) (e : Event) (s : GroupStore)
      → IsKept loaded s
      → IsKept loaded (step e s)
  unfolding step delete save
  step-IsKept loaded (creates now name ids) s h = create-IsKept loaded now name ids s h
  step-IsKept loaded (updates name ids) s h = update-IsKept loaded name ids s h
  step-IsKept loaded (deletes name) s h = elim (Option-cases (lookup name s.groups)) [
    | inl e ↦ rw (e, delete) h
    | inr (g, e) ↦
        rw (e, delete) (record { sound = erase-IsSound name s.groups h.sound; same = inr refl })
  ]
  step-IsKept loaded (removes_device did) s h = elim (Bool-cases (any_lists did s.groups)) [
    | inl some_do ↦
        rw (some_do, remove_device)
          (record { sound = forget-IsSound did s.groups h.sound; same = inr refl })
    | inr none_does ↦
        rw (none_does, remove_device)
          (record {
            sound = forget-IsSound did s.groups h.sound;
            same = elim h.same [
              | inl (unsaved, own) ↦ inl (unsaved, forget-none did s.groups none_does ∙ own)
              | inr saved ↦ inr (saved ∙ ap some (sym (forget-none did s.groups none_does)))
            ];
          })
  ]

  run-IsKept :
      (loaded : Dict Group) (events : List Event) (s : GroupStore)
      → IsKept loaded s
      → IsKept loaded (run events s)
  unfolding run
  run-IsKept loaded [] s h = h
  run-IsKept loaded (e ∷ events) s h =
      run-IsKept loaded events (step e s) (step-IsKept loaded e s h)

  load_entries-IsSound :
      (raws : List (String × Option RawGroup)) (groups d : Dict Group)
      → load_entries strip raws groups ≡ ok d
      → IsSound groups
      → IsSound d
  unfolding load_entries
  load_entries-IsSound [] groups d e h = subst IsSound (ok_injective groups d e) h
  load_entries-IsSound ((name, none) ∷ raws) groups d e h = load_entries-IsSound raws groups d e h
  load_entries-IsSound ((name, some g) ∷ raws) groups d e h = elim (Option-cases g.created_at) [
    | inl bad ↦ absurd (raised≢ok bad_time d (rw bad at e))
    | inr (at, good) ↦
        let new : Group = record {
          name = name;
          device_ids = clean_ids strip g.device_ids;
          created_at = at;
        } in
        load_entries-IsSound raws (insert name new groups) d (rw good at e)
          (insert-IsSound new groups (clean_ids-IsClean g.device_ids) h)
  ]

  load-IsKept :
      (raws : List (String × Option RawGroup)) (s : GroupStore)
      → load strip raws ≡ ok s
      → IsKept s.groups s
  unfolding load
  load-IsKept raws s e =
      let (groups, made, end) = first_ok _ (load_entries strip raws []) s e in
      let same = ok_injective _ s end in
      subst (λ t. IsKept t.groups t) same
        (record { sound = load_entries-IsSound raws [] groups made tt; same = inl (refl, refl) })

  -- A store is made of any file that it can read. After any calls that create, update and delete groups
  -- and that remove devices, whatever their arguments, each group stands under its own name, and its device
  -- ids are not empty and each is there once; and either no call has saved and the groups are those that
  -- were read, or the file holds the groups of the store.
  pub run-IsSound :
      (raws : List (String × Option RawGroup)) (start : GroupStore) (events : List Event)
      → load strip raws ≡ ok start
      → let s = run events start in
        IsSound s.groups
        × ((s.saved ≡ none) × (s.groups ≡ start.groups) ⊎ (s.saved ≡ some s.groups))
  run-IsSound raws start events e =
      let h = run-IsKept start.groups events start (load-IsKept raws start e) in (h.sound, h.same)

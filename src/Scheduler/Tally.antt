-- ===== src/Scheduler/Tally.antt =====
-- The counters that host/transport/scheduler.py keeps in a dict, one for each device: a count of 0
-- has no entry. `IsTally` ties the entries to the total that the scheduler keeps beside them.
use mathlib.Core.Option.{some-injective}
use rkcockpit.Common.{
  Option, String, [], arith, eq_iff, if◌then◌else◌, none, refl, some, str_eq, subst, suc, sym, zero,
  ℕ, ◌+◌, ◌-◌, ◌<◌, ◌==◌, ◌∙◌, ◌∷◌, ◌≡◌, ◌≤◌,
}
use rkcockpit.Common.Dict.{
  Dict, NodupKeys, lookup, insert, erase, lookup-insert, lookup-erase, insert-NodupKeys,
  erase-NodupKeys,
}

abbrev or_zero : Option ℕ → ℕ
or_zero none = 0
or_zero (some n) = n

-- `d.get(k, 0)`
unfoldable pub get : String → Dict ℕ → ℕ
get k d = or_zero (lookup k d)

-- `d[k] = d.get(k, 0) + 1`
unfoldable pub bump : String → Dict ℕ → Dict ℕ
bump k d = insert k (get k d + 1) d

-- `remaining = d[k] - 1`, then `d[k] = remaining`, or `del d[k]` where nothing remains. A missing
-- key raises (`none`). The entries are positive (`IsTally`), so the subtraction is exact.
unfoldable pub take_one : String → Dict ℕ → Option (Dict ℕ)
take_one k d = elim (lookup k d) [
  | none ↦ none
  | some n ↦
      let remaining = n - 1 in some (if remaining == 0 then erase k d else insert k remaining d)
]

-- `sum(d.values())`
unfoldable pub total : Dict ℕ → ℕ
total [] = 0
total ((k, n) ∷ d) = n + total d

abbrev pub Positive : Dict ℕ → Type 0
Positive [] = Unit
Positive ((k, n) ∷ d) = (0 < n) × Positive d

pub record IsTally (d : Dict ℕ) (n : ℕ) : Type 0 where
  pub nodup : NodupKeys d
  pub positive : Positive d
  pub sum : total d ≡ n

total-insert :
    (k : String) (n : ℕ) (d : Dict ℕ) → NodupKeys d → total (insert k n d) + get k d ≡ total d + n
unfolding total insert get lookup
total-insert k n [] h = omega arith
total-insert k n ((j, m) ∷ d) h = ground (arith, total-insert k n d h.1)

total-erase : (k : String) (d : Dict ℕ) → NodupKeys d → total (erase k d) + get k d ≡ total d
unfolding total erase get lookup
total-erase k [] h = omega arith
total-erase k ((j, m) ∷ d) h = ground (arith, total-erase k d h.1, eq_iff j k)

insert-Positive : (k : String) (n : ℕ) (d : Dict ℕ) → 0 < n → Positive d → Positive (insert k n d)
unfolding insert
insert-Positive k n [] h p = (h, tt)
insert-Positive k n ((j, m) ∷ d) h p = ground (arith, insert-Positive k n d h p.1)

erase-Positive : (k : String) (d : Dict ℕ) → Positive d → Positive (erase k d)
unfolding erase
erase-Positive k [] p = tt
erase-Positive k ((j, m) ∷ d) p = ground (arith, erase-Positive k d p.1)

pub get-le-total : (k : String) (d : Dict ℕ) → get k d ≤ total d
unfolding total get lookup
get-le-total k [] = omega arith
get-le-total k ((j, m) ∷ d) = ground (arith, get-le-total k d)

pub get-bump :
    (k j : String) (d : Dict ℕ) → get j (bump k d) ≡ (if str_eq k j then get k d + 1 else get j d)
unfolding get bump
get-bump k j d = ground (arith, lookup-insert k j (get k d + 1) d)

pub get-erase :
    (k j : String) (d : Dict ℕ) → get j (erase k d) ≡ (if str_eq k j then 0 else get j d)
unfolding get
get-erase k j d = ground (arith, lookup-erase k j d)

pub bump-IsTally : (k : String) (d : Dict ℕ) (n : ℕ) → IsTally d n → IsTally (bump k d) (n + 1)
unfolding bump
bump-IsTally k d n h = record {
  nodup = insert-NodupKeys k _ d h.nodup;
  positive = insert-Positive k _ d (omega arith) h.positive;
  sum = omega (arith, total-insert k (get k d + 1) d h.nodup, h.sum);
}

pub erase-IsTally :
    (k : String) (d : Dict ℕ) (n : ℕ) → IsTally d n → IsTally (erase k d) (n - get k d)
erase-IsTally k d n h = record {
  nodup = erase-NodupKeys k d h.nodup;
  positive = erase-Positive k d h.positive;
  sum = omega (arith, total-erase k d h.nodup, h.sum);
}

-- What `take_one` gives where the device has an entry.
pub record Taken (k : String) (d d' : Dict ℕ) (n : ℕ) : Type 0 where
  pub tally : IsTally d' (n - 1)
  pub counts : (j : String) → get j d' ≡ (if str_eq k j then get k d - 1 else get j d)

insert-Taken :
    (k : String) (m : ℕ) (d : Dict ℕ) (n : ℕ)
    → lookup k d ≡ some (suc (suc m))
    → IsTally d n
    → Taken k d (insert k (suc m) d) n
unfolding get
insert-Taken k m d n e h = record {
  tally = record {
    nodup = insert-NodupKeys k _ d h.nodup;
    positive = insert-Positive k _ d (omega arith) h.positive;
    sum = ground (arith, total-insert k (suc m) d h.nodup, h.sum);
  };
  counts = λ j. ground (arith, lookup-insert k j (suc m) d);
}

erase-Taken :
    (k : String) (d : Dict ℕ) (n : ℕ) → lookup k d ≡ some 1 → IsTally d n → Taken k d (erase k d) n
unfolding get
erase-Taken k d n e h = record {
  tally = record {
    nodup = erase-NodupKeys k d h.nodup;
    positive = erase-Positive k d h.positive;
    sum = ground (arith, total-erase k d h.nodup, h.sum);
  };
  counts = λ j. ground (arith, lookup-erase k j d);
}

-- A device with a positive count has an entry, and taking one from it raises nothing.
pub take_one-Taken :
    (k : String) (d : Dict ℕ) (n : ℕ)
    → IsTally d n
    → 0 < get k d
    → (d' : Dict ℕ) × (take_one k d ≡ some d') × Taken k d d' n
unfolding take_one get
take_one-Taken k d n h p = by_entry (lookup k d) refl
  where
    by_entry :
        (o : Option ℕ) → lookup k d ≡ o → (d' : Dict ℕ) × (take_one k d ≡ some d') × Taken k d d' n
    by_entry none e = absurd (ground arith)
    by_entry (some zero) e = absurd (ground arith)
    by_entry (some (suc zero)) e = (erase k d, ground arith, erase-Taken k d n e h)
    by_entry (some (suc (suc m))) e = (insert k (suc m) d, ground arith, insert-Taken k m d n e h)

-- Lines 280-282 and 287-290 of the source: an entry of 1 is deleted, any other goes down by one.
unfoldable pub lower : String → ℕ → Dict ℕ → Dict ℕ
lower k current d = if current == 1 then erase k d else insert k (current - 1) d

take_one-eq-lower :
    (k : String) (d : Dict ℕ) → 0 < get k d → take_one k d ≡ some (lower k (get k d) d)
unfolding take_one lower get
take_one-eq-lower k d p = by_entry (lookup k d) refl
  where
    by_entry : (o : Option ℕ) → lookup k d ≡ o → take_one k d ≡ some (lower k (get k d) d)
    by_entry none e = absurd (ground arith)
    by_entry (some zero) e = absurd (ground arith)
    by_entry (some (suc zero)) e = ground arith
    by_entry (some (suc (suc m))) e = ground arith

pub lower-Taken :
    (k : String) (d : Dict ℕ) (n : ℕ)
    → IsTally d n
    → 0 < get k d
    → Taken k d (lower k (get k d) d) n
lower-Taken k d n h p =
    let (d', e, taken) = take_one-Taken k d n h p in
    subst (λ x. Taken k d x n) (some-injective d' _ (sym e ∙ take_one-eq-lower k d p)) taken

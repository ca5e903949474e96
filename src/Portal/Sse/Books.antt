-- ===== src/Portal/Sse/Books.antt =====
-- The books of the hub in portal/sse.py.
use rkcockpit.Common.{
  Bool, Bool-cases, List, Option, Option-cases, String, [], arith, count, count-append, eq_iff,
  false, if◌then◌else◌, inl, inr, leb, leb→lt, length, length-append, none, not, refl, some, str_eq,
  subst, true, ℕ, ◌&&◌, ◌++◌, ◌+◌, ◌-◌, ◌<◌, ◌==◌, ◌||◌, ◌∷◌, ◌≡◌, ◌≤◌, ◌⊎◌,
}
use rkcockpit.Common.Dict.{Dict, lookup, lookup-insert, lookup-erase}
use rkcockpit.Scheduler.Tally.{get, bump, get-bump}
use rkcockpit.Portal.Sse.{
  Conn, Hub, kind_of, contains, at_cap, reason, add, find, without, drop_one, reports, remove,
}

abbrev pub is_kind : String → Conn → Bool
is_kind kind c = str_eq c.kind kind

abbrev pub IsDistinct : List Conn → Type 0
IsDistinct [] = Unit
IsDistinct (c ∷ cs) = (contains c.id cs ≡ false) × IsDistinct cs

-- No kind is above its cap.
abbrev pub Within : Option ℕ → ℕ → Type 0
Within none n = Unit
Within (some cap) n = n ≤ cap

pub record IsSound (h : Hub) : Type 0 where
  pub distinct : IsDistinct h.conns
  pub kinds : (k : String) → get k h.by_kind ≡ count (is_kind k) h.conns
  pub total : length h.conns ≤ h.limit
  pub capped : (k : String) → Within (lookup k h.caps) (count (is_kind k) h.conns)
  pub timeouts : h.write_timeouts + length h.conns ≤ h.accepted

get-drop_one :
    (k j : String) (d : Dict ℕ)
    → get j (drop_one k d) ≡ (if str_eq k j then get j d - 1 else get j d)
unfolding get drop_one
get-drop_one k j d =
    ground (arith, eq_iff k j, lookup-insert k j (get k d - 1) d, lookup-erase k j d)

contains-append :
    (id : ℕ) (xs ys : List Conn) → contains id (xs ++ ys) ≡ (contains id xs || contains id ys)
unfolding contains
contains-append id [] ys = refl
contains-append id (x ∷ xs) ys = ground (arith, contains-append id xs ys)

IsDistinct-snoc :
    (xs : List Conn) (c : Conn)
    → IsDistinct xs
    → contains c.id xs ≡ false
    → IsDistinct (xs ++ c ∷ [])
unfolding contains
IsDistinct-snoc [] c h n = (refl, tt)
IsDistinct-snoc (x ∷ xs) c (a, h) n = (
  ground (arith, contains-append x.id xs (c ∷ []), a, n),
  IsDistinct-snoc xs c h (ground (arith, n)),
)

pub contains-without :
    (id j : ℕ) (cs : List Conn)
    → IsDistinct cs
    → contains j (without id cs) ≡ (contains j cs && not (j == id))
unfolding contains without
contains-without id j [] h = refl
contains-without id j (c ∷ cs) (a, h) = ground (arith, a, contains-without id j cs h)

IsDistinct-without : (id : ℕ) (cs : List Conn) → IsDistinct cs → IsDistinct (without id cs)
unfolding without
IsDistinct-without id [] h = tt
IsDistinct-without id (c ∷ cs) (a, h) =
    ground (arith, a, h, contains-without id c.id cs h, IsDistinct-without id cs h)

count-without :
    (p : Conn → Bool) (id : ℕ) (c : Conn) (cs : List Conn)
    → find id cs ≡ some c
    → count p (without id cs) + (if p c then 1 else 0) ≡ count p cs
unfolding find without
count-without p id c [] e = absurd (ground arith)
count-without p id c (x ∷ cs) e = elim (Bool-cases (x.id == id)) [
  | inl own ↦ rw own (
      subst (λ y. count p cs + (if p y then 1 else 0) ≡ (if p x then 1 else 0) + count p cs)
        (found own) (omega arith))
  | inr other ↦ rw other (omega (arith, count-without p id c cs (later other)))
]
  where
    found : (x.id == id) ≡ true → x ≡ c
    found own = ground arith

    later : (x.id == id) ≡ false → find id cs ≡ some c
    later other = ground arith

length-without :
    (id : ℕ) (c : Conn) (cs : List Conn)
    → find id cs ≡ some c
    → length (without id cs) + 1 ≡ length cs
unfolding find without
length-without id c [] e = absurd (ground arith)
length-without id c (x ∷ cs) e = ground (arith, length-without id c cs)

Within-le : (cap : Option ℕ) (m n : ℕ) → Within cap n → m ≤ n → Within cap m
Within-le none m n h le = tt
Within-le (some cap) m n h le = omega arith

Within-next : (cap : Option ℕ) (n : ℕ) → at_cap cap n ≡ false → Within cap (n + 1)
Within-next none n h = tt
Within-next (some cap) n h = ground arith

reason-tests :
    (full capped : Bool)
    → str_eq (if full then "total" else if capped then "kind" else "") "" ≡ true
    → (full ≡ false) × (capped ≡ false)
reason-tests true capped e = cc
reason-tests false true e = cc
reason-tests false false e = (refl, refl)

free_room :
    (kind : String) (h : Hub)
    → str_eq (reason kind h) "" ≡ true
    → (length h.conns < h.limit) × (at_cap (lookup kind h.caps) (get kind h.by_kind) ≡ false)
unfolding reason
free_room kind h e =
    let (room, below) =
      reason-tests (leb h.limit (length h.conns)) (at_cap (lookup kind h.caps) (get kind h.by_kind))
        e in
    (leb→lt _ _ room, below)

pub add-IsSound : (c : Conn) (given : String) (h : Hub) → IsSound h → IsSound (add c given h).1.1
unfolding add
add-IsSound c given h s = elim (Bool-cases (contains c.id h.conns)) [
  | inl there ↦ rw (there, add) s
  | inr new ↦ elim (Bool-cases (str_eq (reason (kind_of given) h) "")) [
    | inl free ↦
        rw (new, free, add)
          (joined (record c { kind = kind_of given; reject_reason = "" }) new
            (free_room (kind_of given) h free))
    | inr full ↦
        rw (new, full, add)
          (record {
            distinct = s.distinct;
            kinds = s.kinds;
            total = s.total;
            capped = s.capped;
            timeouts = s.timeouts;
          })
  ]
]
  where
    joined :
        (k : Conn)
        → contains k.id h.conns ≡ false
        → (length h.conns < h.limit)
          × (at_cap (lookup k.kind h.caps) (get k.kind h.by_kind) ≡ false)
        → IsSound (record h {
          conns = h.conns ++ k ∷ [];
          by_kind = bump k.kind h.by_kind;
          accepted = h.accepted + 1;
        })
    joined k new (room, below) = record {
      distinct = IsDistinct-snoc h.conns k s.distinct new;
      kinds = λ j. ground (
        arith,
        get-bump k.kind j h.by_kind,
        s.kinds j,
        s.kinds k.kind,
        count-append (is_kind j) h.conns (k ∷ []),
        eq_iff k.kind j,
      );
      total = omega (arith, room, length-append h.conns (k ∷ []));
      capped = λ j. capped_at j (Bool-cases (str_eq k.kind j));
      timeouts = omega (arith, s.timeouts, length-append h.conns (k ∷ []));
    }
      where
        more :
            (j : String)
            → count (is_kind j) (h.conns ++ k ∷ [])
              ≡ count (is_kind j) h.conns + count (is_kind j) (k ∷ [])
        more j = count-append (is_kind j) h.conns (k ∷ [])

        capped_at :
            (j : String)
            → (str_eq k.kind j ≡ true) ⊎ (str_eq k.kind j ≡ false)
            → Within (lookup j h.caps) (count (is_kind j) (h.conns ++ k ∷ []))
        capped_at j (inl own) =
            subst (λ i. Within (lookup i h.caps) (count (is_kind i) (h.conns ++ k ∷ [])))
              ((eq_iff k.kind j).0 own)
              (Within-le (lookup k.kind h.caps) _ _
                (Within-next (lookup k.kind h.caps) (get k.kind h.by_kind) below)
                (ground (arith, more k.kind, s.kinds k.kind)))
        capped_at j (inr other) =
            Within-le (lookup j h.caps) _ _ (s.capped j) (ground (arith, more j))

pub remove-IsSound : (id : ℕ) (h : Hub) → IsSound h → IsSound (remove id h).1
unfolding remove
remove-IsSound id h s = elim (Option-cases (find id h.conns)) [
  | inl e ↦ rw (e, remove) s
  | inr (c, e) ↦ rw (e, remove) (gone c e)
]
  where
    gone :
        (c : Conn)
        → find id h.conns ≡ some c
        → IsSound (record h {
          conns = without id h.conns;
          by_kind = drop_one c.kind h.by_kind;
          write_timeouts = h.write_timeouts + (if reports c then 1 else 0);
        })
    gone c e = record {
      distinct = IsDistinct-without id h.conns s.distinct;
      kinds = λ k. ground (
        arith,
        get-drop_one c.kind k h.by_kind,
        s.kinds k,
        count-without (is_kind k) id c h.conns e,
      );
      total = omega (arith, s.total, length-without id c h.conns e);
      capped = λ k.
          Within-le (lookup k h.caps) _ _ (s.capped k)
            (omega (arith, count-without (is_kind k) id c h.conns e));
      timeouts = ground (arith, s.timeouts, length-without id c h.conns e);
    }

-- ===== src/Portal/Sse/Calls.antt =====
-- The hub of portal/sse.py under any calls.
use rkcockpit.Common.{
  Bool, Bool-cases, List, Option, Option-cases, String, [], ap, arith, count, false, inl, inr,
  length, none, not, refl, some, subst, sym, true, ℕ, ◌&&◌, ◌+◌, ◌==◌, ◌||◌, ◌∙◌, ◌∷◌, ◌≡◌, ◌≤◌,
}
use rkcockpit.Common.Dict.{Dict, lookup}
use rkcockpit.Scheduler.Tally.{get}
use rkcockpit.Portal.Sse.{
  Conn, Hub, Written, emit, ping_if_stale, contains, add, find, remove, write_all, remove_all,
  broadcast, heartbeat, write, done, timed_out, broken, new_hub, active_of,
}
use rkcockpit.Portal.Sse.Books.{
  is_kind, IsDistinct, Within, IsSound, add-IsSound, remove-IsSound, contains-without,
}

pub data Call : Type 0 where
  adds : Conn → String → Call
  removes : ℕ → Call
  writes : ℕ → Written → ℕ → Call
  broadcasts beats : ℕ → (ℕ → Written) → Call

unfoldable pub step : Call → Hub → Hub
unfolding add remove write broadcast heartbeat
step (adds c kind) h = (add c kind h).1.1
step (removes id) h = (remove id h).1
step (writes now w id) h = record h { conns = write now w id h.conns }
step (broadcasts now outcome) h = broadcast now outcome h
step (beats now outcome) h = (heartbeat now outcome h).0

unfoldable pub run : List Call → Hub → Hub
unfolding step
run [] h = h
run (c ∷ calls) h = run calls (step c h)

-- A write changes neither what a connection is nor its kind.
abbrev Keeps : (Conn → Bool × Conn) → Type 0
Keeps f = (c : Conn) → ((f c).1.id ≡ c.id) × ((f c).1.kind ≡ c.kind)

emit-Keeps : (now : ℕ) (w : Conn → Written) → Keeps (λ c. emit now (w c) c)
unfolding emit
emit-Keeps now w c = by_outcome (w c)
  where
    by_outcome : (o : Written) → ((emit now o c).1.id ≡ c.id) × ((emit now o c).1.kind ≡ c.kind)
    by_outcome done = (refl, refl)
    by_outcome timed_out = (refl, refl)
    by_outcome broken = (refl, refl)

ping-Keeps : (now : ℕ) (w : Conn → Written) → Keeps (λ c. ping_if_stale now (w c) c)
unfolding ping_if_stale
ping-Keeps now w c = ground (arith, emit-Keeps now w c)

-- The same connections, with other flags.
pub record SameBooks (cs ds : List Conn) : Type 0 where
  pub ids : (id : ℕ) → contains id ds ≡ contains id cs
  pub kinds : (k : String) → count (is_kind k) ds ≡ count (is_kind k) cs
  pub total : length ds ≡ length cs
  pub distinct : IsDistinct cs → IsDistinct ds

SameBooks-cons :
    (c d : Conn) (cs ds : List Conn)
    → d.id ≡ c.id
    → d.kind ≡ c.kind
    → SameBooks cs ds
    → SameBooks (c ∷ cs) (d ∷ ds)
unfolding contains
SameBooks-cons c d cs ds same_id same_kind s = record {
  ids = λ id. ground (arith, same_id, s.ids id);
  kinds = λ k. ground (arith, same_kind, s.kinds k);
  total = omega (arith, s.total);
  distinct = λ (a, h). (ap (λ i. contains i ds) same_id ∙ s.ids c.id ∙ a, s.distinct h);
}

SameBooks-refl : (cs : List Conn) → SameBooks cs cs
SameBooks-refl cs = record { ids = λ id. refl; kinds = λ k. refl; total = refl; distinct = λ h. h }

write_all-SameBooks :
    (f : Conn → Bool × Conn) (cs : List Conn) → Keeps f → SameBooks cs (write_all f cs).0
unfolding write_all
write_all-SameBooks f [] h = SameBooks-refl []
write_all-SameBooks f (c ∷ cs) h =
    SameBooks-cons c (f c).1 cs (write_all f cs).0 (h c).0 (h c).1 (write_all-SameBooks f cs h)

write-SameBooks :
    (now : ℕ) (w : Written) (id : ℕ) (cs : List Conn) → SameBooks cs (write now w id cs)
unfolding write
write-SameBooks now w id [] = SameBooks-refl []
write-SameBooks now w id (c ∷ cs) =
    let k = emit-Keeps now (λ _. w) c in
    elim (Bool-cases (c.id == id)) [
      | inl own ↦ rw own (SameBooks-cons c (emit now w c).1 cs cs k.0 k.1 (SameBooks-refl cs))
      | inr other ↦
          rw other
            (SameBooks-cons c c cs (write now w id cs) refl refl (write-SameBooks now w id cs))
    ]

SameBooks-IsSound :
    (h : Hub) (ds : List Conn)
    → SameBooks h.conns ds
    → IsSound h
    → IsSound (record h { conns = ds })
SameBooks-IsSound h ds b s = record {
  distinct = b.distinct s.distinct;
  kinds = λ k. s.kinds k ∙ sym (b.kinds k);
  total = omega (arith, s.total, b.total);
  capped = λ k. subst (Within (lookup k h.caps)) (sym (b.kinds k)) (s.capped k);
  timeouts = omega (arith, s.timeouts, b.total);
}

remove_all-IsSound : (ids : List ℕ) (h : Hub) → IsSound h → IsSound (remove_all ids h)
unfolding remove_all
remove_all-IsSound [] h s = s
remove_all-IsSound (id ∷ ids) h s = remove_all-IsSound ids (remove id h).1 (remove-IsSound id h s)

sweep-IsSound :
    (f : Conn → Bool × Conn) (h : Hub)
    → Keeps f
    → IsSound h
    → IsSound (remove_all (write_all f h.conns).1 (record h { conns = (write_all f h.conns).0 }))
sweep-IsSound f h k s =
    remove_all-IsSound (write_all f h.conns).1 (record h { conns = (write_all f h.conns).0 })
      (SameBooks-IsSound h (write_all f h.conns).0 (write_all-SameBooks f h.conns k) s)

step-IsSound : (c : Call) (h : Hub) → IsSound h → IsSound (step c h)
unfolding step broadcast heartbeat
step-IsSound (adds c kind) h s = add-IsSound c kind h s
step-IsSound (removes id) h s = remove-IsSound id h s
step-IsSound (writes now w id) h s =
    SameBooks-IsSound h (write now w id h.conns) (write-SameBooks now w id h.conns) s
step-IsSound (broadcasts now outcome) h s =
    sweep-IsSound (λ c. emit now (outcome c.id) c) h (emit-Keeps now (λ c. outcome c.id)) s
step-IsSound (beats now outcome) h s =
    sweep-IsSound (λ c. ping_if_stale now (outcome c.id) c) h (ping-Keeps now (λ c. outcome c.id)) s

run-IsSound : (calls : List Call) (h : Hub) → IsSound h → IsSound (run calls h)
unfolding run
run-IsSound [] h s = s
run-IsSound (c ∷ calls) h s = run-IsSound calls (step c h) (step-IsSound c h s)

new_hub-IsSound : (limit : ℕ) (caps : Dict ℕ) → IsSound (new_hub limit caps)
unfolding get lookup
new_hub-IsSound limit caps = record {
  distinct = tt;
  kinds = λ k. refl;
  total = omega arith;
  capped = λ k. Within_zero (lookup k caps);
  timeouts = omega arith;
}
  where
    Within_zero : (o : Option ℕ) → Within o 0
    Within_zero none = tt
    Within_zero (some cap) = omega arith

remove-limits :
    (id : ℕ) (h : Hub) → ((remove id h).1.limit ≡ h.limit) × ((remove id h).1.caps ≡ h.caps)
unfolding remove
remove-limits id h = ground arith

remove_all-limits :
    (ids : List ℕ) (h : Hub)
    → ((remove_all ids h).limit ≡ h.limit) × ((remove_all ids h).caps ≡ h.caps)
unfolding remove_all
remove_all-limits [] h = (refl, refl)
remove_all-limits (id ∷ ids) h =
    let (a, b) = remove_all-limits ids (remove id h).1 in
    let (a', b') = remove-limits id h in (a ∙ a', b ∙ b')

sweep-limits :
    (f : Conn → Bool × Conn) (h : Hub)
    → let g = remove_all (write_all f h.conns).1 (record h { conns = (write_all f h.conns).0 }) in
      (g.limit ≡ h.limit) × (g.caps ≡ h.caps)
sweep-limits f h =
    remove_all-limits (write_all f h.conns).1 (record h { conns = (write_all f h.conns).0 })

step-limits : (c : Call) (h : Hub) → ((step c h).limit ≡ h.limit) × ((step c h).caps ≡ h.caps)
unfolding step add remove write broadcast heartbeat
step-limits (adds c kind) h = ground arith
step-limits (removes id) h = ground arith
step-limits (writes now w id) h = (refl, refl)
step-limits (broadcasts now outcome) h = sweep-limits (λ c. emit now (outcome c.id) c) h
step-limits (beats now outcome) h = sweep-limits (λ c. ping_if_stale now (outcome c.id) c) h

run-limits :
    (calls : List Call) (h : Hub) → ((run calls h).limit ≡ h.limit) × ((run calls h).caps ≡ h.caps)
unfolding run
run-limits [] h = (refl, refl)
run-limits (c ∷ calls) h =
    let (a, b) = run-limits calls (step c h) in let (a', b') = step-limits c h in (a ∙ a', b ∙ b')

-- From a new hub with any limit and caps, after any connections that come and go, writes, broadcasts
-- and heartbeats with any outcomes: the connections are within the limit, the count that the hub
-- keeps of each kind is the number of its connections and within its cap, if it has one, and the
-- timeouts counted and the open connections are together no more than those accepted.
pub run-Within :
    (limit : ℕ) (caps : Dict ℕ) (calls : List Call)
    → let h = run calls (new_hub limit caps) in
      (length h.conns ≤ limit)
      × ((k : String)
          → (active_of k h ≡ count (is_kind k) h.conns) × Within (lookup k caps) (active_of k h))
      × (h.write_timeouts + length h.conns ≤ h.accepted)
unfolding active_of
run-Within limit caps calls =
    let h = run calls (new_hub limit caps) in
    let s = run-IsSound calls (new_hub limit caps) (new_hub-IsSound limit caps) in
    let (same, caps') = run-limits calls (new_hub limit caps) in
    (
      omega (arith, s.total, same),
      (λ k. (
        s.kinds k,
        subst (Within (lookup k caps)) (sym (s.kinds k))
            (subst (λ d. Within (lookup k d) (count (is_kind k) h.conns)) caps' (s.capped k)),
      )),
      s.timeouts,
    )

abbrev pub member : ℕ → List ℕ → Bool
member id [] = false
member id (i ∷ ids) = i == id || member id ids

find-none : (id : ℕ) (cs : List Conn) → find id cs ≡ none → contains id cs ≡ false
unfolding find contains
find-none id [] e = refl
find-none id (c ∷ cs) e = ground (arith, find-none id cs)

remove-contains :
    (id j : ℕ) (h : Hub)
    → IsSound h
    → contains j (remove id h).1.conns ≡ (contains j h.conns && not (j == id))
unfolding remove
remove-contains id j h s = elim (Option-cases (find id h.conns)) [
  | inl e ↦ rw (e, remove) (ground (arith, find-none id h.conns e))
  | inr (c, e) ↦ rw (e, remove) (contains-without id j h.conns s.distinct)
]

remove_all-contains :
    (ids : List ℕ) (j : ℕ) (h : Hub)
    → IsSound h
    → contains j (remove_all ids h).conns ≡ (contains j h.conns && not (member j ids))
unfolding remove_all
remove_all-contains [] j h s = ground arith
remove_all-contains (id ∷ ids) j h s = ground (
  arith,
  remove_all-contains ids j (remove id h).1 (remove-IsSound id h s),
  remove-contains id j h s,
)

write_all-dead :
    (f : Conn → Bool × Conn) (good : ℕ → Bool) (j : ℕ) (cs : List Conn)
    → ((c : Conn) → (f c).0 ≡ good c.id)
    → member j (write_all f cs).1 ≡ (contains j cs && not (good j))
unfolding write_all contains
write_all-dead f good j [] h = refl
write_all-dead f good j (c ∷ cs) h = ground (arith, h c, write_all-dead f good j cs h)

abbrev is_done : Written → Bool
is_done done = true
is_done timed_out = false
is_done broken = false

emit-is_done : (now : ℕ) (w : Written) (c : Conn) → (emit now w c).0 ≡ is_done w
unfolding emit
emit-is_done now done c = refl
emit-is_done now timed_out c = refl
emit-is_done now broken c = refl

-- A broadcast in a hub whose books are in order leaves a connection in the hub exactly when it was
-- there and the write to it returned.
broadcast-contains :
    (now : ℕ) (outcome : ℕ → Written) (j : ℕ) (h : Hub)
    → IsSound h
    → contains j (broadcast now outcome h).conns ≡ (contains j h.conns && is_done (outcome j))
unfolding broadcast
broadcast-contains now outcome j h s =
    let f : Conn → Bool × Conn = λ c. emit now (outcome c.id) c in
    let same = write_all-SameBooks f h.conns (emit-Keeps now (λ c. outcome c.id)) in
    let after = SameBooks-IsSound h (write_all f h.conns).0 same s in
    ground (
      arith,
      same.ids j,
      remove_all-contains (write_all f h.conns).1 j (record h { conns = (write_all f h.conns).0 })
          after,
      write_all-dead f (λ i. is_done (outcome i)) j h.conns
          (λ c. emit-is_done now (outcome c.id) c),
    )

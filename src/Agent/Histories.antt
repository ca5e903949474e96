-- ===== src/Agent/Histories.antt =====
-- The histories of the sessions of host/api/handlers/agent.py and agent_stream.py, under any requests.
use rkcockpit.Common.{
  All-mono, Bool, Option, ◌⊎◌, ◌||◌, true, false, All, All-append, All-filter, Bool-cases, List,
  Option-cases, String, [], ap, arith, if◌then◌else◌, inl, inr, length, length-append,
  length-filter-le, ltb, ltb→le, none, not, refl, some, ℕ, ◌+◌, ◌∙◌, ◌∷◌, ◌≡◌, ◌≤◌, eq_refl, str_eq,
}
use rkcockpit.Common.Dict.{
  lookup, insert, erase, NodupKeys, filter-NodupKeys, insert-NodupKeys, erase-NodupKeys,
  append-NodupKeys, lookup-erase, length-erase-le, length-erase-lt, erase-All, insert-All,
  lookup-All,
}
use rkcockpit.Agent.Chats.{Session, Request, chat_locked}
use rkcockpit.Agent.Replies.{IsKept, chat_locked-IsDone}
use rkcockpit.Agent.Stream.{Ending, left, left_in_tools, hub_full, refused, finished, IsLeft}
use rkcockpit.Agent.Requests.{StreamRequest, stream_locked, stream_locked-IsLeft, stream_locked-id}
use rkcockpit.Agent.Ids.{chat_locked-id}
use rkcockpit.Agent.Sessions.{
  Sessions, max_sessions, ttl_ms, sweep, move_to_end, evict_sessions, create, chat, read, stream,
  Event, creates, lists, deletes, reads, chats, streams, step, run,
}

-- The id of a session whose client was gone at an event about a tool's call, before the others.
abbrev mark : String → Option Ending → List String → List String
mark id (some left_in_tools) ids = id ∷ ids
mark id _ ids = ids

abbrev mark_event : Event → Sessions → List String → List String
mark_event (streams id r) d ids = mark id (stream id r d).1 ids
mark_event _ d ids = ids

-- The ids of the sessions that a stream left so, after those in `ids`.
unfoldable pub left_ids : List Event → Sessions → List String → List String
unfolding step stream
left_ids [] d ids = ids
left_ids (e ∷ events) d ids = left_ids events (step e d) (mark_event e d ids)

abbrev pub contains : String → List String → Bool
contains id [] = false
contains id (x ∷ ids) = str_eq x id || contains id ids

-- A session under its own id, with its history in order unless a stream left it.
abbrev pub IsOwn : List String → String × Session → Type 0
IsOwn ids (id, s) = (s.id ≡ id) × ((contains id ids ≡ true) ⊎ IsKept s)

pub record IsSound (ids : List String) (d : Sessions) : Type 0 where
  pub few : length d ≤ max_sessions
  pub distinct : NodupKeys d
  pub own : All (IsOwn ids) d

sweep-IsSound :
    (ids : List String) (now : ℕ) (d : Sessions) → IsSound ids d → IsSound ids (sweep now d)
unfolding sweep
sweep-IsSound ids now d h = record {
  few = omega (arith, h.few, length-filter-le (λ e. not (ltb (e.1.updated_ms + ttl_ms) now)) d);
  distinct = filter-NodupKeys _ d h.distinct;
  own = All-filter (IsOwn ids) _ d h.own;
}

move-IsSound :
    (ids : List String) (id : String) (old s : Session) (d : Sessions)
    → lookup id d ≡ some old
    → IsOwn ids (id, s)
    → IsSound ids d
    → IsSound ids (move_to_end id s d)
unfolding move_to_end
move-IsSound ids id old s d there good h = record {
  few =
      omega
        (arith, h.few, length-erase-lt id old d there, length-append (erase id d) ((id, s) ∷ []));
  distinct =
      append-NodupKeys id s (erase id d)
        (lookup-erase id id d ∙ ap (λ b. if b then none else lookup id d) (eq_refl id))
        (erase-NodupKeys id d h.distinct);
  own =
      All-append (IsOwn ids) (erase id d) ((id, s) ∷ []) (erase-All (IsOwn ids) id d h.own)
        (good, tt);
}

evict_sessions-IsSound :
    (ids : List String) (d : Sessions)
    → NodupKeys d
    → All (IsOwn ids) d
    → IsSound ids (evict_sessions d)
unfolding evict_sessions
evict_sessions-IsSound ids [] distinct own = record { few = omega arith; distinct = tt; own = tt }
evict_sessions-IsSound ids (e ∷ d) distinct own =
    elim (Bool-cases (ltb max_sessions (length (e ∷ d)))) [
      | inl many ↦ rw many (evict_sessions-IsSound ids d distinct.1 own.1)
      | inr few ↦ rw few (record { few = ltb→le _ _ few; distinct = distinct; own = own })
    ]

create-IsSound :
    (ids : List String) (id device : String) (now : ℕ) (d : Sessions)
    → IsSound ids d
    → IsSound ids (create id device now d)
unfolding create
create-IsSound ids id device now d h =
    let swept = sweep-IsSound ids now d h in
    evict_sessions-IsSound ids (insert id _ (sweep now d))
      (insert-NodupKeys id _ (sweep now d) swept.distinct)
      (insert-All (IsOwn ids) id _ (sweep now d)
        (refl, inr record { tidy = tt; begins = tt; bounded = inl (omega arith); counted = refl })
        swept.own)

read-IsSound :
    (ids : List String) (id : String) (d : Sessions) → IsSound ids d → IsSound ids (read id d)
unfolding read
read-IsSound ids id d h = elim (Option-cases (lookup id d)) [
  | inl absent ↦ rw (absent, read) h
  | inr (s, there) ↦
      rw (there, read)
        (move-IsSound ids id s s d there (lookup-All (IsOwn ids) id s d there h.own) h)
]

chat-IsSound :
    (ids : List String) (id : String) (r : Request) (d : Sessions)
    → IsSound ids d
    → IsSound ids (chat id r d).0
unfolding chat
chat-IsSound ids id r d h = elim (Option-cases (lookup id d)) [
  | inl absent ↦ rw (absent, chat) h
  | inr (old, there) ↦ elim (Option-cases (lookup id (sweep r.now d))) [
    | inl gone ↦ rw (there, gone, chat) (sweep-IsSound ids r.now d h)
    | inr (s, stays) ↦
        let swept = sweep-IsSound ids r.now d h in
        let (own, kept) = lookup-All (IsOwn ids) id s (sweep r.now d) stays swept.own in
        let after : IsOwn ids (id, (chat_locked r s).0.session) = (
          chat_locked-id r s ∙ own,
          elim kept [
            | inl left_so ↦ inl left_so
            | inr tidy ↦ inr (chat_locked-IsDone r s tidy).kept
          ],
        ) in
        rw (there, stays, chat)
          (move-IsSound ids id s (chat_locked r s).0.session (sweep r.now d) stays after swept)
  ]
]

-- More ids ask less.
marked-IsSound :
    (ids : List String) (id : String) (d : Sessions) → IsSound ids d → IsSound (id ∷ ids) d
marked-IsSound ids id d h = record {
  few = h.few;
  distinct = h.distinct;
  own =
      All-mono {P = IsOwn ids} {Q = IsOwn (id ∷ ids)}
        (λ e own. (own.0, elim own.1 [ inl there ↦ inl (ground arith) | inr kept ↦ inr kept ])) d
        h.own;
}

mark-IsSound :
    (ids : List String) (id : String) (ending : Option Ending) (d : Sessions)
    → IsSound ids d
    → IsSound (mark id ending ids) d
mark-IsSound ids id none d h = h
mark-IsSound ids id (some left_in_tools) d h = marked-IsSound ids id d h
mark-IsSound ids id (some left) d h = h
mark-IsSound ids id (some hub_full) d h = h
mark-IsSound ids id (some (refused why)) d h = h
mark-IsSound ids id (some (finished text)) d h = h

-- The session of a stream is in order, or marked.
left-IsOwn :
    (ids : List String) (id : String) (s : Session) (ending : Ending)
    → s.id ≡ id
    → IsLeft s ending
    → IsOwn (mark id (some ending) ids) (id, s)
left-IsOwn ids id s left_in_tools own h = (own, inl (ground (arith, eq_refl id)))
left-IsOwn ids id s left own h = (own, inr h)
left-IsOwn ids id s hub_full own h = (own, inr h)
left-IsOwn ids id s (refused why) own h = (own, inr h)
left-IsOwn ids id s (finished text) own h = (own, inr h)

mark-contains :
    (ids : List String) (id j : String) (ending : Option Ending)
    → contains j ids ≡ true
    → contains j (mark id ending ids) ≡ true
mark-contains ids id j none h = h
mark-contains ids id j (some left_in_tools) h = ground arith
mark-contains ids id j (some left) h = h
mark-contains ids id j (some hub_full) h = h
mark-contains ids id j (some (refused why)) h = h
mark-contains ids id j (some (finished text)) h = h

stream-IsSound :
    (ids : List String) (id : String) (r : StreamRequest) (d : Sessions)
    → IsSound ids d
    → IsSound (mark id (stream id r d).1 ids) (stream id r d).0
unfolding stream
stream-IsSound ids id r d h = elim (Option-cases (lookup id d)) [
  | inl absent ↦ rw (absent, stream) h
  | inr (old, there) ↦ elim (Option-cases (lookup id (sweep r.now d))) [
    | inl gone ↦ rw (there, gone, stream) (sweep-IsSound ids r.now d h)
    | inr (s, stays) ↦
        let swept = sweep-IsSound ids r.now d h in
        let (own, kept) = lookup-All (IsOwn ids) id s (sweep r.now d) stays swept.own in
        let (after, ending) = stream_locked r s in
        let same : (stream_locked r s).0.id ≡ id = stream_locked-id r s ∙ own in
        let next : IsOwn (mark id (some (stream_locked r s).1) ids) (id, (stream_locked r s).0) =
          elim kept [
            | inl left_so ↦
                (same, inl (mark-contains ids id id (some (stream_locked r s).1) left_so))
            | inr tidy ↦
                left-IsOwn ids id (stream_locked r s).0 (stream_locked r s).1 same
                  (stream_locked-IsLeft r s tidy)
          ] in
        rw (there, stays, stream)
          (move-IsSound _ id s (stream_locked r s).0 (sweep r.now d) stays next
            (mark-IsSound ids id (some (stream_locked r s).1) (sweep r.now d) swept))
  ]
]

step-IsSound :
    (ids : List String) (e : Event) (d : Sessions)
    → IsSound ids d
    → IsSound (mark_event e d ids) (step e d)
unfolding step
step-IsSound ids (creates id device now) d h = create-IsSound ids id device now d h
step-IsSound ids (lists now) d h = sweep-IsSound ids now d h
step-IsSound ids (deletes id) d h = record {
  few = omega (arith, h.few, length-erase-le id d);
  distinct = erase-NodupKeys id d h.distinct;
  own = erase-All (IsOwn ids) id d h.own;
}
step-IsSound ids (reads id) d h = read-IsSound ids id d h
step-IsSound ids (chats id r) d h = chat-IsSound ids id r d h
step-IsSound ids (streams id r) d h = stream-IsSound ids id r d h

run-IsSound_from :
    (events : List Event) (ids : List String) (d : Sessions)
    → IsSound ids d
    → IsSound (left_ids events d ids) (run events d)
unfolding run left_ids
run-IsSound_from [] ids d h = h
run-IsSound_from (e ∷ events) ids d h =
    run-IsSound_from events (mark_event e d ids) (step e d) (step-IsSound ids e d h)

-- After any requests, chats and streams included, there are at most 32 sessions, each once and under its own
-- id. The history of each is in order, unless the client of a stream on a session of that id was gone at an
-- event about a tool's call: it starts with the user, each call of an assistant is answered before anything
-- else, it has at most 200 messages or one round, and its length is the count that is shown.
pub run-sessions : (events : List Event) → IsSound (left_ids events [] []) (run events [])
run-sessions events =
    run-IsSound_from events [] [] (record { few = omega arith; distinct = tt; own = tt })

-- ===== src/Agent/Sessions.antt =====
-- The sessions of host/api/handlers/agent.py under any requests, with those of
-- host/api/handlers/agent_stream.py. A request is one step; what others do while a chat waits for the language model is not modelled, and
-- neither is a stream's thread that still runs ten seconds after its request has ended.
use rkcockpit.Common.{
  Option, List, String, [], filter, if◌then◌else◌, length, ltb, none, not, some, ℕ, ◌*◌, ◌++◌, ◌+◌,
  ◌∷◌, str_eq,
}
use rkcockpit.Common.Dict.{Dict, lookup, insert, erase}
use rkcockpit.Agent.Chats.{Session, Request, Reply, missing, chat_locked}
use rkcockpit.Agent.Stream.{Ending}
use rkcockpit.Agent.Requests.{StreamRequest, stream_locked}

abbrev pub max_sessions : ℕ
max_sessions = 32

abbrev pub ttl_ms : ℕ
ttl_ms = 24 * 3600 * 1000

-- `_SESSIONS`, oldest use first.
abbrev pub Sessions : Type 0
Sessions = Dict Session

unfoldable pub sweep : ℕ → Sessions → Sessions
sweep now d = filter (λ e. not (ltb (e.1.updated_ms + ttl_ms) now)) d

unfoldable pub move_to_end : String → Session → Sessions → Sessions
move_to_end id s d = erase id d ++ (id, s) ∷ []

-- `popitem(last=False)` while there are too many.
unfoldable pub evict_sessions : Sessions → Sessions
evict_sessions [] = []
evict_sessions (e ∷ d) =
    let fewer = evict_sessions d in if ltb max_sessions (length (e ∷ d)) then fewer else e ∷ d

-- `_sessions_create`; the id is drawn by the caller.
unfoldable pub create : String → String → ℕ → Sessions → Sessions
unfolding sweep evict_sessions
create id device now d = evict_sessions (
    insert id
      (record {
        id = id;
        device_id = if str_eq device "" then "local" else device;
        messages = [];
        created_ms = now;
        updated_ms = now;
        message_count = 0;
      })
      (sweep now d))

-- The session of a chat is written where it is found.
unfoldable pub chat : String → Request → Sessions → Sessions × Reply
unfolding sweep move_to_end
chat id r d = elim (lookup id d) [
  | none ↦ (d, missing)
  | some _ ↦ elim (lookup id (sweep r.now d)) [
    | none ↦ (sweep r.now d, missing)
    | some s ↦
        let (after, reply) = chat_locked r s in
        (move_to_end id after.session (sweep r.now d), reply)
  ]
]

-- `_messages` moves the session that it reads to the end.
unfoldable pub read : String → Sessions → Sessions
unfolding move_to_end
read id d = elim (lookup id d) [ none ↦ d | some s ↦ move_to_end id s d ]

-- `_stream` on the sessions; `none` is a 404.
unfoldable pub stream : String → StreamRequest → Sessions → Sessions × Option Ending
unfolding sweep move_to_end
stream id r d = elim (lookup id d) [
  | none ↦ (d, none)
  | some _ ↦ elim (lookup id (sweep r.now d)) [
    | none ↦ (sweep r.now d, none)
    | some s ↦
        let (after, ending) = stream_locked r s in
        (move_to_end id after (sweep r.now d), some ending)
  ]
]

pub data Event : Type 0 where
  creates : String → String → ℕ → Event
  lists : ℕ → Event
  deletes reads : String → Event
  chats : String → Request → Event
  streams : String → StreamRequest → Event

unfoldable pub step : Event → Sessions → Sessions
unfolding create sweep chat read stream
step (creates id device now) d = create id device now d
step (lists now) d = sweep now d
step (deletes id) d = erase id d
step (reads id) d = read id d
step (chats id r) d = (chat id r d).0
step (streams id r) d = (stream id r d).0

unfoldable pub run : List Event → Sessions → Sessions
unfolding step
run [] d = d
run (e ∷ events) d = run events (step e d)

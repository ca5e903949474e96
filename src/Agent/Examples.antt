-- ===== src/Agent/Examples.antt =====
-- A chat with one tool call, its history sent within a budget, and a stream whose client leaves.
use rkcockpit.Common.{
  List, Option, [], arith, count, false, inl, is_nonempty, refl, some, true, zero, suc, ℕ, ◌∷◌, ◌≡◌,
  ◌≤◌, ◌⊎◌,
}
use rkcockpit.Common.Dict.{lookup, insert, erase}
use rkcockpit.Agent.{
  none, Call, Message, system, user, assistant, is_user, ToolResult, estimate_tokens, trim_history,
  max_tool_iter,
}
use rkcockpit.Agent.Rounds.{IsTidy, IsEnd}
use rkcockpit.Agent.Budget.{trim_history-fits}
use rkcockpit.Agent.Chats
use rkcockpit.Agent.Chats.{Session, Request, Reply, replied, chat_locked, extend}
use rkcockpit.Agent.Replies.{IsKept, IsDone, chat_locked-IsDone}
use rkcockpit.Agent.Sessions
use rkcockpit.Agent.Requests.{StreamRequest, stream_locked}
use rkcockpit.Agent.Histories
use rkcockpit.Agent.Histories.{left_ids}
use rkcockpit.Agent.Sessions.{Event, creates, chats, reads, streams, create}
use rkcockpit.Agent.Stream
use rkcockpit.Agent.Stream.{Streamed, IsLeft, left_in_tools, run_loop, run_loop-IsLeft}

abbrev kill : Call
kill = record { id = "c1"; name = "exec_kill"; arguments = "{}" }

abbrev check : Call
check = record { id = "c2"; name = "device_check"; arguments = "{}" }

abbrev fine : ToolResult
fine = record { ok = true; text = "ok" }

-- One round with two tools, then the reply.
abbrev turns : ℕ → Chats.Turn
turns i = Chats.said "done" (if_first i) 50
  where
    if_first : ℕ → Chats.Results
    if_first zero = (kill, fine) ∷ (check, fine) ∷ []
    if_first (suc i) = []

abbrev request : Request
request = record {
  message = "stop it";
  device = some "d1";
  now = 40;
  readable = true;
  later = 90;
  turns = turns;
}

abbrev session : Session
session = record {
  id = "s1";
  device_id = "local";
  messages = user "hello" ∷ assistant "hi" [] ∷ [];
  created_ms = 1;
  updated_ms = 2;
  message_count = 2;
}

session-IsKept : IsKept session
unfolding is_user
session-IsKept = record { tidy = tt; begins = refl; bounded = inl (omega arith); counted = refl }

chat_locked-IsDone_example :
    let (after, reply) = chat_locked request session in IsDone "s1" max_tool_iter after reply
chat_locked-IsDone_example = chat_locked-IsDone request session session-IsKept

-- The tool that writes is logged, the one that reads is not.
chat-logged :
    (chat_locked request session).0.audit
    ≡ record { action = "agent.exec.kill"; tool_name = "exec_kill"; ok = true } ∷ []
unfolding chat_locked lookup
chat-logged = refl

chat-reply : (chat_locked request session).1 ≡ replied "done" ((kill, fine) ∷ (check, fine) ∷ []) 7
unfolding chat_locked
chat-reply = refl

abbrev size : Message → Option ℕ
size m = some 40

abbrev history : List Message
history = user "a" ∷ assistant "b" [] ∷ user "c" ∷ []

-- Forty characters are ten tokens; the prompt and one message fit.
history-cut : trim_history size 25 (system "s" ∷ history) ≡ system "s" ∷ user "c" ∷ []
unfolding trim_history
history-cut = refl

trim_history-fits_example :
    (rest : List Message) × (trim_history size 25 (system "s" ∷ history) ≡ system "s" ∷ rest)
    × IsTidy [] rest
    × IsEnd rest history
    × ((history ≡ []) ⊎ (is_nonempty rest ≡ true))
    × ((estimate_tokens size (system "s" ∷ rest) ≤ 25) ⊎ (count is_user rest ≤ 1))
unfolding is_user
trim_history-fits_example = trim_history-fits size 25 "s" history tt refl

-- The client reads the call and is gone at the result.
abbrev leaving : ℕ → Stream.Turn
leaving i =
    Stream.said "done" (record { call = kill; result = fine; sent = true; shown = false } ∷ []) 50

run_loop-IsLeft_example :
    let (after, ending) = run_loop true true 90 leaving session in IsLeft after ending
run_loop-IsLeft_example = run_loop-IsLeft true true 90 leaving session session-IsKept refl

stream-left : (run_loop true true 90 leaving session).1 ≡ left_in_tools
unfolding run_loop
stream-left = refl

-- A stream that breaks a history, which no later chat mends.
abbrev watched : StreamRequest
watched = record {
  message = "stop it";
  device = none;
  now = 60;
  is_taken = true;
  has_head = true;
  opened = true;
  readable = true;
  later = 90;
  turns = leaving;
}

abbrev requests : List Event
requests =
    creates "s1" "" 5
    ∷ creates "s2" "d2" 6
    ∷ chats "s1" request
    ∷ streams "s2" watched
    ∷ reads "s1"
    ∷ []

requests-left : left_ids requests [] [] ≡ "s2" ∷ []
unfolding left_ids create insert lookup erase stream_locked
requests-left = refl

run-sessions_example : Histories.IsSound (left_ids requests [] []) (Sessions.run requests [])
run-sessions_example = Histories.run-sessions requests

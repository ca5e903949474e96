-- ===== src/Agent.antt =====
-- The chats of host/api/handlers/agent.py: the history of a session, its trimming by rounds, and the loop of
-- `_chat_locked`. The language model, the tools and the clock answer as the caller says (`Turn`); texts of
-- the system prompt and of error messages are not modelled.
mod Examples
pub mod Rounds
pub mod Budget
pub mod Chats
pub mod Replies
pub mod Sessions
pub mod Stream
pub mod Requests
pub mod Ids
pub mod Histories
use rkcockpit.Common.{
  Bool, List, Option, String, [], any, false, if◌then◌else◌, is_nonempty, leb, length, ltb, max,
  none, not, some, str_eq, suc, true, zero, ℕ, ◌||◌, ◌++◌, ◌+◌, ◌/◌, ◌∷◌,
}
use rkcockpit.Common.Dict.{Dict, lookup}

pub record Call : Type 0 where
  pub id : String
  pub name : String
  pub arguments : String

-- A message by its role; an assistant's message with no `tool_calls` has the empty list.
pub data Message : Type 0 where
  system user : String → Message
  assistant : String → List Call → Message
  tool : String → String → Message

abbrev pub max_messages : ℕ
max_messages = 200

abbrev pub max_tool_iter : ℕ
max_tool_iter = 8

unfoldable pub is_user : Message → Bool
is_user (user _) = true
is_user _ = false

-- The messages from the next of the user on.
unfoldable pub next_user : List Message → List Message
unfolding is_user
next_user [] = []
next_user (m ∷ ms) = let rest = next_user ms in if is_user m then m ∷ ms else rest

-- What follows the round of the first message of the user.
unfoldable pub after_first : List Message → List Message
unfolding next_user
after_first [] = []
after_first (m ∷ ms) = let rest = after_first ms in if is_user m then next_user ms else rest

unfoldable pub tail : List Message → List Message
tail [] = []
tail (m ∷ ms) = ms

unfoldable pub drop_oldest_round : List Message → List Message
unfolding after_first tail
drop_oldest_round ms = if any is_user ms then after_first ms else tail ms

-- The loops that drop the oldest round until a history fits; its length is fuel enough.
unfoldable pub drop_rounds : (List Message → Bool) → ℕ → List Message → List Message
unfolding drop_oldest_round
drop_rounds fits zero ms = ms
drop_rounds fits (suc fuel) ms =
    let dropped = drop_oldest_round ms in
    let rest = drop_rounds fits fuel dropped in
    if fits ms
    then ms
    else if not (is_nonempty dropped) || leb (length ms) (length dropped)
    then ms
    else rest

unfoldable pub trim_session : List Message → List Message
unfolding drop_rounds
trim_session ms = drop_rounds (λ r. leb (length r) max_messages) (length ms) ms

-- `estimate_tokens` of host/service/llm.py: `size` is the length of a message in JSON, if it has one.
unfoldable pub estimate_tokens : (Message → Option ℕ) → List Message → ℕ
estimate_tokens size [] = 0
estimate_tokens size (m ∷ ms) =
    elim (size m) [ none ↦ 1 | some n ↦ max 1 (n / 4) ] + estimate_tokens size ms

-- The first loop: the leading system messages, and the rest.
unfoldable pub split_head : List Message → List Message × List Message
split_head (system text ∷ ms) = let (head, rest) = split_head ms in (system text ∷ head, rest)
split_head ms = ([], ms)

unfoldable pub trim_history : (Message → Option ℕ) → ℕ → List Message → List Message
unfolding drop_rounds split_head estimate_tokens
trim_history size budget ms =
    let (head, rest) = split_head ms in
    head
    ++ drop_rounds (λ r. not (is_nonempty r) || leb (estimate_tokens size (head ++ r)) budget)
        (length rest) rest

-- The tiers of host/agent/tools.py and the actions of `_WRITE_ACTION`.
pub data Tier : Type 0 where
  read write : Tier

abbrev pub tools : Dict Tier
tools =
    ("device_list", read)
    ∷ ("device_check", read)
    ∷ ("device_sysinfo", read)
    ∷ ("diag", read)
    ∷ ("monitor", read)
    ∷ ("fs_list", read)
    ∷ ("exec_run", write)
    ∷ ("exec_kill", write)
    ∷ ("fs_write", write)
    ∷ ("fs_act", write)
    ∷ ("deploy_start", write)
    ∷ ("process_signal", write)
    ∷ []

abbrev pub write_action : Dict String
write_action =
    ("exec_run", "agent.exec.run")
    ∷ ("exec_kill", "agent.exec.kill")
    ∷ ("fs_write", "agent.fs.write")
    ∷ ("fs_act", "agent.fs.act")
    ∷ ("deploy_start", "agent.deploy.start")
    ∷ ("process_signal", "agent.signal")
    ∷ []

-- A tool's result: its `ok` (false where it is no object), and its text in JSON.
pub record ToolResult : Type 0 where
  pub ok : Bool
  pub text : String

-- An entry of the audit log: the action, the tool, and whether it went well.
pub record Entry : Type 0 where
  pub action : String
  pub tool_name : String
  pub ok : Bool

unfoldable pub audit_action : String → ToolResult → Option String → List Entry
audit_action name result none = []
audit_action name result (some action) =
    record { action = action; tool_name = name; ok = result.ok } ∷ []

unfoldable pub audit_tier : String → ToolResult → Option Tier → List Entry
unfolding audit_action
audit_tier name result (some write) = audit_action name result (lookup name write_action)
audit_tier name result _ = []

-- `_audit_tool`: the entries that it records.
unfoldable pub audit_tool : Call → ToolResult → List Entry
unfolding audit_tier
audit_tool call result = audit_tier call.name result (lookup call.name tools)

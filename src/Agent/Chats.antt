-- ===== src/Agent/Chats.antt =====
-- `_chat_locked` of host/api/handlers/agent.py, on its session.
use rkcockpit.Common.{
  Bool, List, Option, String, [], if◌then◌else◌, length, none, some, suc, zero, ℕ, ◌++◌, ◌+◌, ◌∷◌,
}
use rkcockpit.Agent.{
  Call, Message, user, assistant, tool, trim_session, max_tool_iter, ToolResult, Entry, audit_tool,
}

pub record Session : Type 0 where
  pub id : String
  pub device_id : String
  pub messages : List Message
  pub created_ms : ℕ
  pub updated_ms : ℕ
  pub message_count : ℕ

-- Calls with the results that the tools gave.
abbrev pub Results : Type 0
Results = List (Call × ToolResult)

-- One round: no slot is free, the model fails with a code, or it answers, and the time when the round's
-- messages were added.
pub data Turn : Type 0 where
  busy : Turn
  failed : String → Turn
  said : String → Results → ℕ → Turn

-- The request after its checks: a device that is named, the time, whether the settings can be read, the
-- time at the end of a chat that runs out of rounds, and the rounds.
pub record Request : Type 0 where
  pub message : String
  pub device : Option String
  pub now : ℕ
  pub readable : Bool
  pub later : ℕ
  pub turns : ℕ → Turn

-- What is sent back: a 404, an error code, or the reply with the results of the tools.
pub data Reply : Type 0 where
  missing : Reply
  refused : String → Reply
  replied : String → Results → ℕ → Reply

unfoldable pub calls_of : Results → List Call
calls_of [] = []
calls_of ((call, result) ∷ rs) = call ∷ calls_of rs

unfoldable pub answers_of : Results → List Message
answers_of [] = []
answers_of ((call, result) ∷ rs) = tool call.id result.text ∷ answers_of rs

unfoldable pub audit_of : Results → List Entry
unfolding audit_tool
audit_of [] = []
audit_of ((call, result) ∷ rs) = audit_tool call result ++ audit_of rs

-- `sess["messages"]` with more messages, then `_trim_session` and `_touch`.
unfoldable pub extend : ℕ → List Message → Session → Session
unfolding trim_session
extend now ms s =
    let kept = trim_session (s.messages ++ ms) in
    record s { messages = kept; updated_ms = now; message_count = length kept }

abbrev pub limit_reply : String
limit_reply = "已达 8 轮工具调用上限仍无法给出最终回答；请简化问题或补充信息。"

-- What a chat has done: the session, the results and the entries of the audit so far, and how often the
-- language model was asked.
pub record Chat : Type 0 where
  pub session : Session
  pub results : Results
  pub audit : List Entry
  pub asked : ℕ

unfoldable pub answer : ℕ → String → Chat → Chat × Reply
unfolding extend
answer now text c =
    let s = extend now (assistant text [] ∷ []) c.session in
    (record c { session = s }, replied text c.results (length s.messages))

unfoldable pub use_tools : ℕ → String → Results → Chat → Chat
unfolding extend calls_of answers_of audit_of
use_tools now text rs c = record {
  session = extend now (assistant text (calls_of rs) ∷ answers_of rs) c.session;
  results = c.results ++ rs;
  audit = c.audit ++ audit_of rs;
  asked = c.asked;
}

-- The loop over the rounds that are left, from round `i`.
unfoldable pub run_turns : ℕ → ℕ → Request → Chat → Chat × Reply
unfolding answer use_tools
run_turns zero i r c = answer r.later limit_reply c
run_turns (suc left) i r c = elim (r.turns i) [
  | busy ↦ (c, refused "agent_busy")
  | failed code ↦ (record c { asked = c.asked + 1 }, refused code)
  | said text [] now ↦ answer now text (record c { asked = c.asked + 1 })
  | said text (one ∷ rs) now ↦
      run_turns left (i + 1) r (use_tools now text (one ∷ rs) (record c { asked = c.asked + 1 }))
]

unfoldable pub rename : Option String → Session → Session
rename none s = s
rename (some device) s = record s { device_id = device }

unfoldable pub chat_locked : Request → Session → Chat × Reply
unfolding run_turns extend rename
chat_locked r s =
    let opened = extend r.now (user r.message ∷ []) (rename r.device s) in
    let c : Chat = record { session = opened; results = []; audit = []; asked = 0 } in
    if r.readable then run_turns max_tool_iter 0 r c else (c, refused "unreachable")

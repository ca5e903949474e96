-- ===== src/Agent/Ids.antt =====
-- A chat of host/api/handlers/agent.py keeps the id of its session.
use rkcockpit.Common.{Bool-cases, String, [], inl, inr, refl, suc, zero, ℕ, ◌+◌, ◌∙◌, ◌∷◌, ◌≡◌}
use rkcockpit.Agent.{max_tool_iter}
use rkcockpit.Agent.Chats.{
  Session, Results, Turn, busy, failed, said, Request, Reply, refused, extend, Chat, answer,
  use_tools, run_turns, chat_locked, limit_reply,
}
use rkcockpit.Agent.Replies.{rename-same}

answer-id : (now : ℕ) (text : String) (c : Chat) → (answer now text c).0.session.id ≡ c.session.id
unfolding answer extend
answer-id now text c = refl

use_tools-id :
    (now : ℕ) (text : String) (rs : Results) (c : Chat)
    → (use_tools now text rs c).session.id ≡ c.session.id
unfolding use_tools extend
use_tools-id now text rs c = refl

-- A chat keeps the session's id, whatever its history.
run_turns-id :
    (left i : ℕ) (r : Request) (c : Chat) → (run_turns left i r c).0.session.id ≡ c.session.id
unfolding run_turns
run_turns-id zero i r c = answer-id r.later limit_reply c
run_turns-id (suc left) i r c = one (λ d. run_turns-id left (i + 1) r d) (r.turns i)
  where
    one :
        ((d : Chat) → (run_turns left (i + 1) r d).0.session.id ≡ d.session.id)
        → (t : Turn)
        → (let turned : Chat × Reply = elim t [
          | busy ↦ (c, refused "agent_busy")
          | failed code ↦ (record c { asked = c.asked + 1 }, refused code)
          | said text [] now ↦ answer now text (record c { asked = c.asked + 1 })
          | said text (one ∷ rs) now ↦
              run_turns left
                (i + 1)
                r
                (use_tools now text (one ∷ rs) (record c { asked = c.asked + 1 }))
        ] in
            turned.0.session.id)
          ≡ c.session.id
    one rest busy = refl
    one rest (failed code) = refl
    one rest (said text [] now) = answer-id now text (record c { asked = c.asked + 1 })
    one rest (said text (x ∷ rs) now) =
        rest (use_tools now text (x ∷ rs) (record c { asked = c.asked + 1 }))
        ∙ use_tools-id now text (x ∷ rs) (record c { asked = c.asked + 1 })

pub chat_locked-id : (r : Request) (s : Session) → (chat_locked r s).0.session.id ≡ s.id
unfolding chat_locked extend
chat_locked-id r s = elim (Bool-cases r.readable) [
  | inl good ↦
      rw (good, chat_locked) (run_turns-id max_tool_iter 0 r _ ∙ (rename-same r.device s).1)
  | inr bad ↦ rw (bad, chat_locked) (rename-same r.device s).1
]

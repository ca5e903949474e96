-- ===== src/Agent/Requests.antt =====
-- `_stream_locked` of host/api/handlers/agent_stream.py, on its session.
use rkcockpit.Common.{
  Option, ◌∙◌, Bool, Bool-cases, List, String, [], false, if◌then◌else◌, inl, inr, refl, true, zero,
  suc, ℕ, ◌+◌, ◌∷◌, ◌≡◌,
}
use rkcockpit.Agent.{user, assistant, max_tool_iter}
use rkcockpit.Agent.Chats.{Session, extend, rename}
use rkcockpit.Agent.Replies.{opened-IsKept, rename-same, IsKept}
use rkcockpit.Agent.Stream.{
  Turn, Ending, left, left_in_tools, hub_full, Streamed, IsLeft, run_turns, run_loop,
  run_loop-IsLeft, calls_of, answer_calls, add_round, busy, left_early, failed, said, refused,
  finished,
}

-- A request after its checks: whether the hub takes the connection, whether the response's head can be
-- written, and the rest as in `run_loop`.
pub record StreamRequest : Type 0 where
  pub message : String
  pub device : Option String
  pub now : ℕ
  pub is_taken : Bool
  pub has_head : Bool
  pub opened : Bool
  pub readable : Bool
  pub later : ℕ
  pub turns : ℕ → Turn

-- `_stream_locked` once the session is found.
unfoldable pub stream_locked : StreamRequest → Session → Session × Ending
unfolding extend rename run_loop
stream_locked r s =
    let opened = extend r.now (user r.message ∷ []) (rename r.device s) in
    let ran = run_loop r.opened r.readable r.later r.turns opened in
    if r.is_taken then if r.has_head then ran else (opened, left) else (opened, hub_full)

pub stream_locked-IsLeft :
    (r : StreamRequest) (s : Session)
    → IsKept s
    → let (after, ending) = stream_locked r s in IsLeft after ending
unfolding stream_locked
stream_locked-IsLeft r s h =
    let (kept, full, own) = opened-IsKept r.now r.message r.device s h in
    elim (Bool-cases r.is_taken) [
      | inr rejected ↦ rw (rejected, stream_locked) kept
      | inl taken ↦ elim (Bool-cases r.has_head) [
        | inr gone ↦ rw (taken, gone, stream_locked) kept
        | inl answered ↦
            rw (taken, answered, stream_locked)
              (run_loop-IsLeft r.opened r.readable r.later r.turns _ kept full)
      ]
    ]

run_turns-id :
    (rounds i later : ℕ) (turns : ℕ → Turn) (s : Session)
    → (run_turns rounds i later turns s).0.id ≡ s.id
unfolding run_turns extend add_round
run_turns-id zero i later turns s = refl
run_turns-id (suc rounds) i later turns s =
    one (λ r. run_turns-id rounds (i + 1) later turns r) (turns i)
  where
    Rest : Type 0
    Rest = (r : Session) → (run_turns rounds (i + 1) later turns r).0.id ≡ r.id

    tools :
        Rest
        → (text : String) (ts : List Streamed) (now : ℕ) (b : Bool)
        → (let turned : Session × Ending = elim b [
          | false ↦ (add_round text ts s, left_in_tools)
          | true ↦
              run_turns rounds
                (i + 1)
                later
                turns
                (extend now (assistant text (calls_of ts) ∷ (answer_calls ts).0) s)
        ] in
            turned.0.id)
          ≡ s.id
    tools rest text ts now false = refl
    tools rest text ts now true = rest _

    one :
        Rest
        → (t : Turn)
        → (let turned : Session × Ending = elim t [
          | busy ↦ (s, refused "agent_busy")
          | left_early ↦ (s, left)
          | failed code ↦ (s, refused code)
          | said text [] now ↦ (extend now (assistant text [] ∷ []) s, finished text)
          | said text (t ∷ ts) now ↦ elim ((answer_calls (t ∷ ts)).1) [
            | false ↦ (add_round text (t ∷ ts) s, left_in_tools)
            | true ↦
                run_turns rounds
                  (i + 1)
                  later
                  turns
                  (extend now (assistant text (calls_of (t ∷ ts)) ∷ (answer_calls (t ∷ ts)).0) s)
          ]
        ] in
            turned.0.id)
          ≡ s.id
    one rest busy = refl
    one rest left_early = refl
    one rest (failed code) = refl
    one rest (said text [] now) = refl
    one rest (said text (t ∷ ts) now) = tools rest text (t ∷ ts) now _

run_loop-id :
    (opened readable : Bool) (later : ℕ) (turns : ℕ → Turn) (s : Session)
    → (run_loop opened readable later turns s).0.id ≡ s.id
unfolding run_loop
run_loop-id false readable later turns s = refl
run_loop-id true false later turns s = refl
run_loop-id true true later turns s = run_turns-id max_tool_iter 0 later turns s

-- A stream keeps the session's id, whatever its history.
pub stream_locked-id : (r : StreamRequest) (s : Session) → (stream_locked r s).0.id ≡ s.id
unfolding stream_locked extend
stream_locked-id r s =
    let own = (rename-same r.device s).1 in
    elim (Bool-cases r.is_taken) [
      | inr rejected ↦ rw (rejected, stream_locked) own
      | inl taken ↦ elim (Bool-cases r.has_head) [
        | inr gone ↦ rw (taken, gone, stream_locked) own
        | inl answered ↦
            rw (taken, answered, stream_locked)
              (run_loop-id r.opened r.readable r.later r.turns _ ∙ own)
      ]
    ]

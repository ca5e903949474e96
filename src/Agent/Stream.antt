-- ===== src/Agent/Stream.antt =====
-- `_stream_locked` and `_run_loop` of host/api/handlers/agent_stream.py: a chat whose events are written to a
-- connection. Each
-- write may find the client gone.
use rkcockpit.Common.{
  Bool, Bool-cases, List, String, [], arith, false, if◌then◌else◌, inl, inr, is_nonempty, refl,
  true, zero, suc, ℕ, ◌++◌, ◌+◌, ◌∷◌, ◌≡◌,
}
use rkcockpit.Agent.{Call, Message, system, user, assistant, tool, max_tool_iter, ToolResult}
use rkcockpit.Agent.Rounds.{IsTidy}
use rkcockpit.Agent.Chats.{Session, extend, limit_reply}
use rkcockpit.Agent.Replies.{IsKept, append-Begins, extend-IsKept, extend-nonempty, nonempty-left}

-- A call, the tool's result, and whether the two events about it could be written.
pub record Streamed : Type 0 where
  pub call : Call
  pub result : ToolResult
  pub sent : Bool
  pub shown : Bool

-- One round: no slot is free, the model fails, the client goes while the text is written, or the model
-- answers with calls, and the time when the round's messages were added.
pub data Turn : Type 0 where
  busy left_early : Turn
  failed : String → Turn
  said : String → List Streamed → ℕ → Turn

pub data Ending : Type 0 where
  left left_in_tools hub_full : Ending
  refused : String → Ending
  finished : String → Ending

unfoldable pub calls_of : List Streamed → List Call
calls_of [] = []
calls_of (t ∷ ts) = t.call ∷ calls_of ts

-- The loop over the calls of a round: the answers that are added, and whether all was written.
unfoldable pub answer_calls : List Streamed → List Message × Bool
answer_calls [] = ([], true)
answer_calls (t ∷ ts) =
    let (more, written) = answer_calls ts in
    if t.sent
    then if t.shown then (tool t.call.id t.result.text ∷ more, written) else ([], false)
    else ([], false)

-- The messages that a round with calls adds, before any trimming.
unfoldable pub add_round : String → List Streamed → Session → Session
unfolding calls_of answer_calls
add_round text ts s = record s {
  messages = s.messages ++ assistant text (calls_of ts) ∷ (answer_calls ts).0;
}

unfoldable pub run_turns : ℕ → ℕ → ℕ → (ℕ → Turn) → Session → Session × Ending
unfolding add_round extend answer_calls
run_turns zero i later turns s =
    (extend later (assistant limit_reply [] ∷ []) s, finished limit_reply)
run_turns (suc rounds) i later turns s = elim (turns i) [
  | busy ↦ (s, refused "agent_busy")
  | left_early ↦ (s, left)
  | failed code ↦ (s, refused code)
  | said text [] now ↦ (extend now (assistant text [] ∷ []) s, finished text)
  | said text (t ∷ ts) now ↦ elim ((answer_calls (t ∷ ts)).1) [
    | false ↦ (add_round text (t ∷ ts) s, left_in_tools)
    | true ↦
        run_turns rounds (i + 1) later turns
          (extend now (assistant text (calls_of (t ∷ ts)) ∷ (answer_calls (t ∷ ts)).0) s)
  ]
]

-- `opened` tells whether the first event was written, `readable` whether the settings could be read.
unfoldable pub run_loop : Bool → Bool → ℕ → (ℕ → Turn) → Session → Session × Ending
unfolding run_turns
run_loop opened readable later turns s =
    let ran = run_turns max_tool_iter 0 later turns s in
    if opened then if readable then ran else (s, refused "unreachable") else (s, left)

-- The answers fit the calls exactly when all was written.
answered-IsTidy :
    (ts : List Streamed) → (answer_calls ts).1 ≡ true → IsTidy (calls_of ts) (answer_calls ts).0
unfolding calls_of answer_calls
answered-IsTidy [] h = tt
answered-IsTidy (t ∷ ts) h = elim (Bool-cases t.sent) [
  | inr unsent ↦ absurd (ground arith)
  | inl sent ↦ elim (Bool-cases t.shown) [
    | inr unshown ↦ absurd (ground arith)
    | inl shown ↦ rw (sent, shown) (refl, answered-IsTidy ts (rw (sent, shown) at h))
  ]
]

unanswered :
    (ts : List Streamed)
    → (answer_calls ts).1 ≡ false
    → IsTidy (calls_of ts) (answer_calls ts).0
    → ⊥
unfolding calls_of answer_calls
unanswered [] h tidy = ground arith
unanswered (t ∷ ts) h tidy = elim (Bool-cases t.sent) [
  | inr unsent ↦ rw unsent at tidy
  | inl sent ↦ elim (Bool-cases t.shown) [
    | inr unshown ↦ rw (sent, unshown) at tidy
    | inl shown ↦ unanswered ts (rw (sent, shown) at h) (rw (sent, shown) at tidy).1
  ]
]

-- The end of a history in order is in order behind what the front leaves open.
IsTidy-cut :
    (calls : List Call) (xs ys : List Message)
    → IsTidy calls xs
    → IsTidy calls (xs ++ ys)
    → IsTidy [] ys
IsTidy-cut [] [] ys h k = k
IsTidy-cut (call ∷ calls) [] ys h k = absurd h
IsTidy-cut [] (system text ∷ xs) ys h k = IsTidy-cut [] xs ys h k
IsTidy-cut [] (user text ∷ xs) ys h k = IsTidy-cut [] xs ys h k
IsTidy-cut [] (assistant text calls ∷ xs) ys h k = IsTidy-cut calls xs ys h k
IsTidy-cut [] (tool id text ∷ xs) ys h k = absurd h
IsTidy-cut (call ∷ calls) (tool id text ∷ xs) ys h k = IsTidy-cut calls xs ys h.1 k.1
IsTidy-cut (call ∷ calls) (system text ∷ xs) ys h k = absurd h
IsTidy-cut (call ∷ calls) (user text ∷ xs) ys h k = absurd h
IsTidy-cut (call ∷ calls) (assistant text more ∷ xs) ys h k = absurd h

-- The history at an ending: broken if the client left in the tools, in order at any other.
abbrev pub IsLeft : Session → Ending → Type 0
IsLeft s left_in_tools = IsTidy [] s.messages → ⊥
IsLeft s _ = IsKept s

run_turns-IsLeft :
    (rounds i later : ℕ) (turns : ℕ → Turn) (s : Session)
    → IsKept s
    → is_nonempty s.messages ≡ true
    → let (after, ending) = run_turns rounds i later turns s in IsLeft after ending
unfolding run_turns add_round
run_turns-IsLeft zero i later turns s h full =
    extend-IsKept later (assistant limit_reply [] ∷ []) s h.tidy tt
      (append-Begins s.messages _ h.begins full)
run_turns-IsLeft (suc rounds) i later turns s h full =
    one (run_turns-IsLeft rounds (i + 1) later turns) (turns i)
  where
    Rest : Type 0
    Rest =
        (r : Session)
        → IsKept r
        → is_nonempty r.messages ≡ true
        → let (after, ending) = run_turns rounds (i + 1) later turns r in IsLeft after ending

    round : String → List Streamed → List Message
    round text ts = assistant text (calls_of ts) ∷ (answer_calls ts).0

    tools :
        Rest
        → (text : String) (ts : List Streamed) (now : ℕ) (b : Bool) → (answer_calls ts).1 ≡ b
        → let (after, ending) : Session × Ending = elim b [
          | false ↦ (add_round text ts s, left_in_tools)
          | true ↦
              run_turns rounds
                (i + 1)
                later
                turns
                (extend now (assistant text (calls_of ts) ∷ (answer_calls ts).0) s)
        ] in
          IsLeft after ending
    tools rest text ts now false e =
        λ tidy. unanswered ts e (IsTidy-cut [] s.messages (round text ts) h.tidy tidy)
    tools rest text ts now true e =
        let begins = append-Begins s.messages (round text ts) h.begins full in
        rest (extend now (round text ts) s)
          (extend-IsKept now (round text ts) s h.tidy (answered-IsTidy ts e) begins)
          (extend-nonempty now (round text ts) s h.tidy (answered-IsTidy ts e) begins
            (nonempty-left s.messages (round text ts) full)).0

    one :
        Rest
        → (t : Turn)
        → let (after, ending) : Session × Ending = elim t [
          | busy ↦ (s, refused "agent_busy")
          | left_early ↦ (s, left)
          | failed code ↦ (s, refused code)
          | said text [] now ↦ (extend now (assistant text [] ∷ []) s, finished text)
          | said text (t ∷ ts) now ↦ elim ((answer_calls (t ∷ ts)).1) [
            | false ↦ (add_round text (t ∷ ts) s, left_in_tools)
            | true ↦
                run_turns rounds
                  (i + 1)
                  later
                  turns
                  (extend now (assistant text (calls_of (t ∷ ts)) ∷ (answer_calls (t ∷ ts)).0) s)
          ]
        ] in
          IsLeft after ending
    one rest busy = h
    one rest left_early = h
    one rest (failed code) = h
    one rest (said text [] now) =
        extend-IsKept now (assistant text [] ∷ []) s h.tidy tt
          (append-Begins s.messages _ h.begins full)
    one rest (said text (t ∷ ts) now) = tools rest text (t ∷ ts) now _ refl

-- A streamed chat on a history in order that is not empty keeps it in order, unless the client is gone at
-- one of the two events about a tool's call: then the history is out of order, a call without its answer.
pub run_loop-IsLeft :
    (opened readable : Bool) (later : ℕ) (turns : ℕ → Turn) (s : Session)
    → IsKept s
    → is_nonempty s.messages ≡ true
    → let (after, ending) = run_loop opened readable later turns s in IsLeft after ending
unfolding run_loop
run_loop-IsLeft false readable later turns s h full = h
run_loop-IsLeft true false later turns s h full = h
run_loop-IsLeft true true later turns s h full =
    run_turns-IsLeft max_tool_iter 0 later turns s h full

-- ===== src/Agent/Replies.antt =====
-- What a chat of host/api/handlers/agent.py leaves of its session, and what it answers.
use rkcockpit.Common.{
  Bool-cases, List, Option, String, [], ap, append_assoc, arith, count, inl, inr, is_nonempty, leb,
  leb→le, length, none, refl, some, subst, suc, sym, true, zero, ℕ, ◌++◌, ◌+◌, ◌∙◌, ◌∷◌, ◌≡◌, ◌≤◌,
  ◌⊎◌,
}
use rkcockpit.Agent.{
  Call, Message, system, user, assistant, tool, is_user, max_messages, max_tool_iter, audit_tool,
}
use rkcockpit.Agent.Rounds.{IsTidy, Begins, IsEnd, trim_session-Trimmed}
use rkcockpit.Agent.Chats.{
  Session, Results, Turn, busy, failed, said, Request, Reply, missing, refused, replied, calls_of,
  answers_of, audit_of, extend, Chat, answer, use_tools, run_turns, rename, chat_locked,
  limit_reply,
}

-- The history of a session between two requests.
pub record IsKept (s : Session) : Type 0 where
  pub tidy : IsTidy [] s.messages
  pub begins : Begins s.messages
  pub bounded : (length s.messages ≤ max_messages) ⊎ (count is_user s.messages ≤ 1)
  pub counted : s.message_count ≡ length s.messages

pub append-IsTidy :
    (calls : List Call) (xs ys : List Message)
    → IsTidy calls xs
    → IsTidy [] ys
    → IsTidy calls (xs ++ ys)
append-IsTidy [] [] ys h k = k
append-IsTidy (call ∷ calls) [] ys h k = absurd h
append-IsTidy [] (system text ∷ xs) ys h k = append-IsTidy [] xs ys h k
append-IsTidy [] (user text ∷ xs) ys h k = append-IsTidy [] xs ys h k
append-IsTidy [] (assistant text calls ∷ xs) ys h k = append-IsTidy calls xs ys h k
append-IsTidy [] (tool id text ∷ xs) ys h k = absurd h
append-IsTidy (call ∷ calls) (tool id text ∷ xs) ys h k = (h.0, append-IsTidy calls xs ys h.1 k)
append-IsTidy (call ∷ calls) (system text ∷ xs) ys h k = absurd h
append-IsTidy (call ∷ calls) (user text ∷ xs) ys h k = absurd h
append-IsTidy (call ∷ calls) (assistant text more ∷ xs) ys h k = absurd h

answers-IsTidy : (rs : Results) → IsTidy (calls_of rs) (answers_of rs)
unfolding calls_of answers_of
answers-IsTidy [] = tt
answers-IsTidy ((call, result) ∷ rs) = (refl, answers-IsTidy rs)

pub append-Begins : (xs ys : List Message) → Begins xs → is_nonempty xs ≡ true → Begins (xs ++ ys)
append-Begins [] ys h full = absurd (ground arith)
append-Begins (x ∷ xs) ys h full = h

audit_of-append : (xs ys : Results) → audit_of (xs ++ ys) ≡ audit_of xs ++ audit_of ys
unfolding audit_of
audit_of-append [] ys = refl
audit_of-append ((call, result) ∷ xs) ys =
    ap (λ r. audit_tool call result ++ r) (audit_of-append xs ys)
    ∙ sym (append_assoc (audit_tool call result) (audit_of xs) (audit_of ys))

pub nonempty-append : (xs : List Message) (m : Message) → is_nonempty (xs ++ m ∷ []) ≡ true
nonempty-append [] m = refl
nonempty-append (x ∷ xs) m = refl

-- An end of a list that is not empty has the list's last element.
IsEnd-last :
    (front rest xs : List Message) (m : Message)
    → xs ++ m ∷ [] ≡ front ++ rest
    → is_nonempty rest ≡ true
    → IsEnd (m ∷ []) rest
IsEnd-last [] rest xs m e full = (xs, sym e)
IsEnd-last (y ∷ front) rest (x ∷ xs) m e full = IsEnd-last front rest xs m (cc) full
IsEnd-last (y ∷ front) rest [] m e full = absurd (hollow front rest (cc) full)
  where
    hollow : (xs ys : List Message) → [] ≡ xs ++ ys → is_nonempty ys ≡ true → ⊥
    hollow [] [] e full = ground arith
    hollow [] (y ∷ ys) e full = cc
    hollow (x ∷ xs) ys e full = cc

module _ (now : ℕ) (ms : List Message) (s : Session) where
  pub extend-IsKept :
      IsTidy [] s.messages → IsTidy [] ms → Begins (s.messages ++ ms) → IsKept (extend now ms s)
  unfolding extend
  extend-IsKept old new begins =
      let t =
        trim_session-Trimmed (s.messages ++ ms) (append-IsTidy [] s.messages ms old new) begins in
      record { tidy = t.tidy; begins = t.begins; bounded = bound _ t.fitted; counted = refl }
    where
      bound :
          (kept : List Message)
          → (leb (length kept) max_messages ≡ true) ⊎ (count is_user kept ≤ 1)
          → (length kept ≤ max_messages) ⊎ (count is_user kept ≤ 1)
      bound kept (inl fit) = inl (leb→le _ _ fit)
      bound kept (inr one) = inr one

  pub extend-nonempty :
      IsTidy [] s.messages
      → IsTidy [] ms
      → Begins (s.messages ++ ms)
      → is_nonempty (s.messages ++ ms) ≡ true
      → (is_nonempty (extend now ms s).messages ≡ true)
        × IsEnd (extend now ms s).messages (s.messages ++ ms)
  unfolding extend
  extend-nonempty old new begins full =
      let t =
        trim_session-Trimmed (s.messages ++ ms) (append-IsTidy [] s.messages ms old new) begins in
      (t.kept full, t.end)

-- What a reply tells of the chat: the results of its tools, the length of the history, and its last message.
abbrev pub Says : Chat → Reply → Type 0
Says c missing = ⊥
Says c (refused code) = Unit
Says c (replied text rs n) =
    (rs ≡ c.results)
    × (n ≡ length c.session.messages)
    × IsEnd (assistant text [] ∷ []) c.session.messages

-- A chat that asked the language model at most `most` times, and logged the tools that it ran.
pub record IsDone (id : String) (most : ℕ) (c : Chat) (reply : Reply) : Type 0 where
  pub kept : IsKept c.session
  pub logged : c.audit ≡ audit_of c.results
  pub few : c.asked ≤ most
  pub same : c.session.id ≡ id
  pub says : Says c reply

record IsRunning (id : String) (c : Chat) : Type 0 where
  kept : IsKept c.session
  full : is_nonempty c.session.messages ≡ true
  logged : c.audit ≡ audit_of c.results
  same : c.session.id ≡ id

answer-IsDone :
    (id : String) (most now : ℕ) (text : String) (c : Chat)
    → IsRunning id c
    → c.asked ≤ most
    → let (after, reply) = answer now text c in IsDone id most after reply
unfolding answer extend
answer-IsDone id most now text c h few =
    let begins = append-Begins c.session.messages (assistant text [] ∷ []) h.kept.begins h.full in
    let (full, end) =
      extend-nonempty now (assistant text [] ∷ []) c.session h.kept.tidy tt begins
        (nonempty-append c.session.messages (assistant text [])) in
    record {
      kept = extend-IsKept now (assistant text [] ∷ []) c.session h.kept.tidy tt begins;
      logged = h.logged;
      few = few;
      same = h.same;
      says = (refl, refl, IsEnd-last end.0 _ c.session.messages (assistant text []) end.1 full);
    }

pub nonempty-left : (xs ys : List Message) → is_nonempty xs ≡ true → is_nonempty (xs ++ ys) ≡ true
nonempty-left [] ys h = absurd (ground arith)
nonempty-left (x ∷ xs) ys h = refl

use_tools-IsRunning :
    (id : String) (now : ℕ) (text : String) (rs : Results) (c : Chat)
    → IsRunning id c
    → IsRunning id (use_tools now text rs c)
unfolding use_tools extend
use_tools-IsRunning id now text rs c h =
    let more = assistant text (calls_of rs) ∷ answers_of rs in
    let begins = append-Begins c.session.messages more h.kept.begins h.full in
    record {
      kept = extend-IsKept now more c.session h.kept.tidy (answers-IsTidy rs) begins;
      full =
          (extend-nonempty now more c.session h.kept.tidy (answers-IsTidy rs) begins
            (nonempty-left c.session.messages more h.full)).0;
      logged = ap (λ a. a ++ audit_of rs) h.logged ∙ sym (audit_of-append c.results rs);
      same = h.same;
    }

use_tools-asked :
    (now : ℕ) (text : String) (rs : Results) (c : Chat) → (use_tools now text rs c).asked ≡ c.asked
unfolding use_tools
use_tools-asked now text rs c = refl

stop-IsDone :
    (id code : String) (most : ℕ) (c : Chat)
    → IsRunning id c
    → c.asked ≤ most
    → IsDone id most c (refused code)
stop-IsDone id code most c h few = record {
  kept = h.kept;
  logged = h.logged;
  few = few;
  same = h.same;
  says = tt;
}

run_turns-IsDone :
    (id : String) (most left i : ℕ) (r : Request) (c : Chat)
    → IsRunning id c
    → c.asked + left ≤ most
    → let (after, reply) = run_turns left i r c in IsDone id most after reply
unfolding run_turns
run_turns-IsDone id most zero i r c h few =
    answer-IsDone id most r.later limit_reply c h (omega arith)
run_turns-IsDone id most (suc left) i r c h few =
    one (run_turns-IsDone id most left (i + 1) r) (r.turns i)
  where
    asked : Chat
    asked = record c { asked = c.asked + 1 }

    running : IsRunning id asked
    running = record { kept = h.kept; full = h.full; logged = h.logged; same = h.same }

    Rest : Type 0
    Rest =
        (d : Chat)
        → IsRunning id d
        → d.asked + left ≤ most
        → let (after, reply) = run_turns left (i + 1) r d in IsDone id most after reply

    one :
        Rest
        → (t : Turn)
        → let (after, reply) : Chat × Reply = elim t [
          | busy ↦ (c, refused "agent_busy")
          | failed code ↦ (asked, refused code)
          | said text [] now ↦ answer now text asked
          | said text (first ∷ rs) now ↦
              run_turns left (i + 1) r (use_tools now text (first ∷ rs) asked)
        ] in
          IsDone id most after reply
    one rest busy = stop-IsDone id "agent_busy" most c h (omega arith)
    one rest (failed code) = stop-IsDone id code most asked running (omega arith)
    one rest (said text [] now) = answer-IsDone id most now text asked running (omega arith)
    one rest (said text (first ∷ rs) now) =
        rest (use_tools now text (first ∷ rs) asked)
          (use_tools-IsRunning id now text (first ∷ rs) asked running)
          (omega (arith, use_tools-asked now text (first ∷ rs) asked))

extend-id : (now : ℕ) (ms : List Message) (s : Session) → (extend now ms s).id ≡ s.id
unfolding extend
extend-id now ms s = refl

opens : (text : String) (ms : List Message) → Begins ms → Begins (ms ++ user text ∷ [])
unfolding is_user
opens text [] h = refl
opens text (m ∷ ms) h = h

pub rename-same :
    (device : Option String) (s : Session)
    → ((rename device s).messages ≡ s.messages) × ((rename device s).id ≡ s.id)
unfolding rename
rename-same none s = (refl, refl)
rename-same (some device) s = (refl, refl)

-- The user's message keeps a history in order, which is then not empty.
pub opened-IsKept :
    (now : ℕ) (message : String) (device : Option String) (s : Session)
    → IsKept s
    → let t = extend now (user message ∷ []) (rename device s) in
      IsKept t × (is_nonempty t.messages ≡ true) × (t.id ≡ s.id)
opened-IsKept now message device s h =
    let (same, own) = rename-same device s in
    let tidy = subst (IsTidy []) (sym same) h.tidy in
    let begins =
      subst (λ ms. Begins (ms ++ user message ∷ [])) (sym same)
        (opens message s.messages h.begins) in
    (
      extend-IsKept now (user message ∷ []) (rename device s) tidy tt begins,
      (extend-nonempty now (user message ∷ []) (rename device s) tidy tt begins
          (nonempty-append (rename device s).messages (user message))).0,
      extend-id now (user message ∷ []) (rename device s) ∙ own,
    )

-- A chat on a session whose history is in order asks the language model at most eight times and keeps the
-- history in order: it starts with the user, each call of an assistant is answered before anything else,
-- and it has at most 200 messages or one round. The audit has the entries of the tools that ran, in order;
-- a reply gives their results and is the last message.
pub chat_locked-IsDone :
    (r : Request) (s : Session)
    → IsKept s
    → let (after, reply) = chat_locked r s in IsDone s.id max_tool_iter after reply
unfolding chat_locked audit_of
chat_locked-IsDone r s h =
    let (kept, full, own) = opened-IsKept r.now r.message r.device s h in
    let c : Chat = record {
      session = extend r.now (user r.message ∷ []) (rename r.device s);
      results = [];
      audit = [];
      asked = 0;
    } in
    let running : IsRunning s.id c = record {
      kept = kept;
      full = full;
      logged = refl;
      same = own;
    } in
    elim (Bool-cases r.readable) [
      | inl good ↦
          rw good (run_turns-IsDone s.id max_tool_iter max_tool_iter 0 r c running (omega arith))
      | inr bad ↦ rw bad (stop-IsDone s.id "unreachable" max_tool_iter c running (omega arith))
    ]

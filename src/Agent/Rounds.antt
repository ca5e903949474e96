-- ===== src/Agent/Rounds.antt =====
-- What the trimming of host/api/handlers/agent.py leaves of a history.
use rkcockpit.Common.{
  Bool, Bool-cases, List, [], ap, arith, count, false, inl, inr, is_nonempty, leb, length,
  length-append, refl, suc, sym, true, zero, ℕ, ◌++◌, ◌∙◌, ◌∷◌, ◌≡◌, ◌≤◌, ◌<◌, ◌⊎◌, append_assoc,
}
use rkcockpit.Agent.{
  Call, Message, system, user, assistant, tool, is_user, next_user, after_first, drop_oldest_round,
  drop_rounds, trim_session, max_messages,
}

-- A history in order: the calls of an assistant are answered one by one, before anything else is said.
-- The first argument is the calls that wait for their answer.
abbrev pub IsTidy : List Call → List Message → Type 0
IsTidy [] [] = Unit
IsTidy (call ∷ calls) [] = ⊥
IsTidy [] (system text ∷ ms) = IsTidy [] ms
IsTidy [] (user text ∷ ms) = IsTidy [] ms
IsTidy [] (assistant text calls ∷ ms) = IsTidy calls ms
IsTidy [] (tool id text ∷ ms) = ⊥
IsTidy (call ∷ calls) (tool id text ∷ ms) = (id ≡ call.id) × IsTidy calls ms
IsTidy (call ∷ calls) (_ ∷ ms) = ⊥

-- A history starts with the user.
abbrev pub Begins : List Message → Type 0
Begins [] = Unit
Begins (m ∷ ms) = is_user m ≡ true

next_user-IsTidy :
    (calls : List Call) (ms : List Message) → IsTidy calls ms → IsTidy [] (next_user ms)
unfolding next_user
next_user-IsTidy [] [] h = tt
next_user-IsTidy (call ∷ calls) [] h = absurd h
next_user-IsTidy [] (system text ∷ ms) h = next_user-IsTidy [] ms h
next_user-IsTidy [] (user text ∷ ms) h = h
next_user-IsTidy [] (assistant text calls ∷ ms) h = next_user-IsTidy calls ms h
next_user-IsTidy [] (tool id text ∷ ms) h = absurd h
next_user-IsTidy (call ∷ calls) (tool id text ∷ ms) h = next_user-IsTidy calls ms h.1
next_user-IsTidy (call ∷ calls) (system text ∷ ms) h = absurd h
next_user-IsTidy (call ∷ calls) (user text ∷ ms) h = absurd h
next_user-IsTidy (call ∷ calls) (assistant text more ∷ ms) h = absurd h

next_user-Begins : (ms : List Message) → Begins (next_user ms)
unfolding next_user
next_user-Begins [] = tt
next_user-Begins (m ∷ ms) = elim (Bool-cases (is_user m)) [
  | inl here ↦ rw here here
  | inr other ↦ rw other (next_user-Begins ms)
]

-- `rest` is the end of `ms`.
abbrev pub IsEnd : List Message → List Message → Type 0
IsEnd rest ms = (front : List Message) × (ms ≡ front ++ rest)

next_user-IsEnd : (ms : List Message) → IsEnd (next_user ms) ms
unfolding next_user
next_user-IsEnd [] = ([], refl)
next_user-IsEnd (m ∷ ms) = elim (Bool-cases (is_user m)) [
  | inl here ↦ rw here ([], refl)
  | inr other ↦ let (front, e) = next_user-IsEnd ms in rw other (m ∷ front, ap (λ r. m ∷ r) e)
]

next_user-count : (ms : List Message) → count is_user (next_user ms) ≡ count is_user ms
unfolding next_user
next_user-count [] = refl
next_user-count (m ∷ ms) = elim (Bool-cases (is_user m)) [
  | inl here ↦ rw here (rw here refl)
  | inr other ↦ rw other (next_user-count ms ∙ omega arith)
]

-- On a history that starts with the user the oldest round is the first message and what follows it up to
-- the next of the user.
drop_oldest_round-user :
    (m : Message) (ms : List Message) → is_user m ≡ true → drop_oldest_round (m ∷ ms) ≡ next_user ms
unfolding drop_oldest_round after_first
drop_oldest_round-user m ms h = rw h refl

pub record Trimmed (fits : List Message → Bool) (ms rest : List Message) : Type 0 where
  pub tidy : IsTidy [] rest
  pub begins : Begins rest
  pub end : IsEnd rest ms
  pub kept : is_nonempty ms ≡ true → is_nonempty rest ≡ true
  pub fitted : (fits rest ≡ true) ⊎ (count is_user rest ≤ 1)

whole-Trimmed :
    (fits : List Message → Bool) (ms : List Message)
    → IsTidy [] ms
    → Begins ms
    → (fits ms ≡ true) ⊎ (count is_user ms ≤ 1)
    → Trimmed fits ms ms
whole-Trimmed fits ms tidy begins fitted = record {
  tidy = tidy;
  begins = begins;
  end = ([], refl);
  kept = λ h. h;
  fitted = fitted;
}

later-Trimmed :
    (fits : List Message → Bool) (m : Message) (ms rest : List Message)
    → is_nonempty (next_user ms) ≡ true
    → Trimmed fits (next_user ms) rest
    → Trimmed fits (m ∷ ms) rest
later-Trimmed fits m ms rest more h =
    let (front, e) = next_user-IsEnd ms in
    let (back, e') = h.end in
    record {
      tidy = h.tidy;
      begins = h.begins;
      end = (
        m ∷ (front ++ back),
        ap (λ r. m ∷ r) (e ∙ ap (λ r. front ++ r) e' ∙ sym (append_assoc front back rest)),
      );
      kept = λ _. h.kept more;
      fitted = h.fitted;
    }

user-IsTidy :
    (m : Message) (ms : List Message) → is_user m ≡ true → IsTidy [] (m ∷ ms) → IsTidy [] ms
unfolding is_user
user-IsTidy (user text) ms e h = h
user-IsTidy (system text) ms e h = h
user-IsTidy (assistant text calls) ms e h = absurd (ground arith)
user-IsTidy (tool id text) ms e h = absurd (ground arith)

length-next_user : (ms : List Message) → length (next_user ms) ≤ length ms
length-next_user ms =
    let (front, e) = next_user-IsEnd ms in
    omega (arith, ap length e, length-append front (next_user ms))

last-round :
    (m : Message) (ms : List Message)
    → is_nonempty (next_user ms) ≡ false
    → count is_user (m ∷ ms) ≤ 1
last-round m ms none_left = ground (arith, next_user-count ms, empty (next_user ms) none_left)
  where
    empty : (l : List Message) → is_nonempty l ≡ false → count is_user l ≡ 0
    empty [] e = refl
    empty (x ∷ l) e = absurd (ground arith)

shorter : (a b : ℕ) → b < a → leb a b ≡ false
shorter a b h = ground arith

pub drop_rounds-Trimmed :
    (fits : List Message → Bool) (fuel : ℕ) (ms : List Message)
    → length ms ≤ fuel
    → IsTidy [] ms
    → Begins ms
    → Trimmed fits ms (drop_rounds fits fuel ms)
unfolding drop_rounds
drop_rounds-Trimmed fits zero [] enough tidy begins =
    whole-Trimmed fits [] tt tt (inr (omega arith))
drop_rounds-Trimmed fits zero (m ∷ ms) enough tidy begins = absurd (omega arith)
drop_rounds-Trimmed fits (suc fuel) [] enough tidy begins =
    let all_of_it = whole-Trimmed fits [] tt tt (inr (omega arith)) in
    elim (Bool-cases (fits [])) [ inl fit ↦ rw fit all_of_it | inr wide ↦ rw wide all_of_it ]
drop_rounds-Trimmed fits (suc fuel) (m ∷ ms) enough tidy begins =
    let next = drop_oldest_round-user m ms begins in
    elim (Bool-cases (fits (m ∷ ms))) [
      | inl fit ↦ rw fit (whole-Trimmed fits (m ∷ ms) tidy begins (inl fit))
      | inr wide ↦ elim (Bool-cases (is_nonempty (next_user ms))) [
        | inr last ↦
            rw (wide, next, last)
              (whole-Trimmed fits (m ∷ ms) tidy begins (inr (last-round m ms last)))
        | inl more ↦
            rw
              (
                wide,
                next,
                more,
                shorter (length (m ∷ ms)) (length (next_user ms))
                    (omega (arith, length-next_user ms)),
              )
              (later-Trimmed fits m ms _ more (
                drop_rounds-Trimmed fits fuel (next_user ms) (omega (arith, length-next_user ms))
                  (next_user-IsTidy [] ms (user-IsTidy m ms begins tidy)) (next_user-Begins ms)))
      ]
    ]

-- After `_trim_session` a history still ends as before, and has at most 200 messages or one round.
pub trim_session-Trimmed :
    (ms : List Message)
    → IsTidy [] ms
    → Begins ms
    → Trimmed (λ r. leb (length r) max_messages) ms (trim_session ms)
unfolding trim_session
trim_session-Trimmed ms tidy begins = drop_rounds-Trimmed _ (length ms) ms (omega arith) tidy begins

-- ===== src/Agent/Budget.antt =====
-- What `_trim_history` of host/api/handlers/agent.py sends to the language model.
use rkcockpit.Common.{
  Bool, List, Option, String, [], ap, arith, count, inl, inr, is_nonempty, leb, leb→le, length, not,
  refl, true, ℕ, ◌++◌, ◌∷◌, ◌≡◌, ◌≤◌, ◌⊎◌, ◌||◌,
}
use rkcockpit.Agent.{
  Message, system, user, assistant, tool, is_user, drop_rounds, estimate_tokens, split_head,
  trim_history,
}
use rkcockpit.Agent.Rounds.{IsTidy, Begins, IsEnd, drop_rounds-Trimmed}

split_head-Begins :
    (text : String) (ms : List Message)
    → Begins ms
    → split_head (system text ∷ ms) ≡ (system text ∷ [], ms)
unfolding split_head is_user
split_head-Begins text [] h = refl
split_head-Begins text (user said ∷ ms) h = refl
split_head-Begins text (system said ∷ ms) h = absurd (ground arith)
split_head-Begins text (assistant said calls ∷ ms) h = refl
split_head-Begins text (tool id said ∷ ms) h = refl

-- The system prompt and a history in order that starts with the user are sent as the prompt and an end of
-- the history, which is in order, is not empty unless the history was, and fits the budget of tokens with
-- the prompt or is one round.
pub trim_history-fits :
    (size : Message → Option ℕ) (budget : ℕ) (text : String) (ms : List Message)
    → IsTidy [] ms
    → Begins ms
    → (rest : List Message) × (trim_history size budget (system text ∷ ms) ≡ system text ∷ rest)
      × IsTidy [] rest
      × IsEnd rest ms
      × ((ms ≡ []) ⊎ (is_nonempty rest ≡ true))
      × ((estimate_tokens size (system text ∷ rest) ≤ budget) ⊎ (count is_user rest ≤ 1))
unfolding trim_history
trim_history-fits size budget text ms tidy begins =
    let fits : List Message → Bool =
      λ r. not (is_nonempty r) || leb (estimate_tokens size ((system text ∷ []) ++ r)) budget in
    let t = drop_rounds-Trimmed fits (length ms) ms (omega arith) tidy begins in
    (
      drop_rounds fits (length ms) ms,
      ap
          (λ (p : List Message × List Message).
            p.0
            ++ drop_rounds
                (λ r. not (is_nonempty r) || leb (estimate_tokens size (p.0 ++ r)) budget)
                (length p.1) p.1)
          (split_head-Begins text ms begins),
      t.tidy,
      t.end,
      full ms (drop_rounds fits (length ms) ms) t.kept,
      within (drop_rounds fits (length ms) ms) t.fitted,
    )
  where
    full :
        (whole r : List Message)
        → (is_nonempty whole ≡ true → is_nonempty r ≡ true)
        → (whole ≡ []) ⊎ (is_nonempty r ≡ true)
    full [] r h = inl refl
    full (m ∷ whole) r h = inr (h refl)

    within :
        (r : List Message)
        → ((not (is_nonempty r) || leb (estimate_tokens size (system text ∷ r)) budget) ≡ true)
          ⊎ (count is_user r ≤ 1)
        → (estimate_tokens size (system text ∷ r) ≤ budget) ⊎ (count is_user r ≤ 1)
    within r (inr one) = inr one
    within [] (inl fit) = inr (omega arith)
    within (m ∷ r) (inl fit) = inl (leb→le _ _ fit)

-- ===== src/Auth/Logins.antt =====
-- The limit on failed logins in host/core/auth.py, against the whole history of logins.
use rkcockpit.Common.{
  Bool, List, String, [], ap, arith, count, count-append, eq_iff, false, filter, if◌then◌else◌,
  length, ltb, refl, str_eq, true, ℕ, ◌&&◌, ◌++◌, ◌+◌, ◌∙◌, ◌∷◌, ◌≡◌, ◌≤◌,
}
use rkcockpit.Common.Dict.{lookup, lookup-insert, lookup-erase}
use rkcockpit.Auth.{
  TokenAuth, client_key, is_recent, failures_of, login_allowed, record_login, login_max_failures,
}

-- What happened, each with its time: a test whether a client may try, a login that failed, and one
-- that succeeded.
pub data Event : Type 0 where
  asks fails succeeds : ℕ → String → Event

abbrev pub time_of : Event → ℕ
time_of (asks t c) = t
time_of (fails t c) = t
time_of (succeeds t c) = t

unfoldable pub step : Event → TokenAuth → TokenAuth
unfolding login_allowed record_login
step (asks t c) auth = (login_allowed t c auth).1
step (fails t c) auth = record_login t c false auth
step (succeeds t c) auth = record_login t c true auth

-- The state after a history, which has the newest event first.
unfoldable pub after : List Event → TokenAuth → TokenAuth
unfolding step
after [] auth = auth
after (e ∷ history) auth = step e (after history auth)

-- The failures of a client that count at `now`: those in the window, since its last success.
unfoldable pub counted : ℕ → String → List Event → ℕ
unfolding client_key is_recent
counted now key [] = 0
counted now key (asks t c ∷ history) = counted now key history
counted now key (fails t c ∷ history) =
    let rest = counted now key history in
    if str_eq (client_key c) key && is_recent now t then rest + 1 else rest
counted now key (succeeds t c ∷ history) =
    let rest = counted now key history in if str_eq (client_key c) key then 0 else rest

-- The times of a history do not decrease, and none is after `now`.
abbrev pub IsHistory : ℕ → List Event → Type 0
IsHistory now [] = Unit {0}
IsHistory now (e ∷ history) = (time_of e ≤ now) × IsHistory (time_of e) history

IsHistory-later :
    (t now : ℕ) (history : List Event) → t ≤ now → IsHistory t history → IsHistory now history
IsHistory-later t now [] le h = tt
IsHistory-later t now (e ∷ history) le (lt, h) = (omega arith, h)

-- Failures that count later count earlier.
pruned-count :
    (t now : ℕ) (stamps : List ℕ)
    → t ≤ now
    → count (is_recent now) (filter (is_recent t) stamps) ≡ count (is_recent now) stamps
unfolding is_recent
pruned-count t now [] le = refl
pruned-count t now (x ∷ stamps) le = ground (arith, pruned-count t now stamps le)

stored : ℕ → String → TokenAuth → ℕ
stored now key auth = count (is_recent now) (failures_of key auth)

step-asks :
    (t now : ℕ) (c key : String) (auth : TokenAuth)
    → t ≤ now
    → stored now key (step (asks t c) auth) ≡ stored now key auth
unfolding step stored failures_of
step-asks t now c key auth le = ground (
  arith,
  eq_iff (client_key c) key,
  lookup-insert (client_key c) key (filter (is_recent t) (failures_of (client_key c) auth))
      auth.login_failures,
  pruned-count t now (failures_of key auth) le,
)

step-fails :
    (t now : ℕ) (c key : String) (auth : TokenAuth)
    → stored now key (step (fails t c) auth) ≡ (
        if str_eq (client_key c) key && is_recent now t
        then stored now key auth + 1
        else stored now key auth)
unfolding step stored failures_of
step-fails t now c key auth = ground (
  arith,
  eq_iff (client_key c) key,
  lookup-insert (client_key c) key (failures_of (client_key c) auth ++ t ∷ []) auth.login_failures,
  count-append (is_recent now) (failures_of key auth) (t ∷ []),
)

step-succeeds :
    (t now : ℕ) (c key : String) (auth : TokenAuth)
    → stored now key (step (succeeds t c) auth)
      ≡ (if str_eq (client_key c) key then 0 else stored now key auth)
unfolding step stored failures_of
step-succeeds t now c key auth = ground (arith, lookup-erase (client_key c) key auth.login_failures)

stored-counted :
    (now : ℕ) (key : String) (history : List Event) (auth : TokenAuth)
    → failures_of key auth ≡ []
    → IsHistory now history
    → stored now key (after history auth) ≡ counted now key history
unfolding after counted stored
stored-counted now key [] auth none_yet h = ap (count (is_recent now)) none_yet
stored-counted now key (e ∷ history) auth none_yet (le, h) =
    by_event e le
      (stored-counted now key history auth none_yet (IsHistory-later (time_of e) now history le h))
  where
    by_event :
        (e : Event)
        → time_of e ≤ now
        → stored now key (after history auth) ≡ counted now key history
        → stored now key (step e (after history auth)) ≡ counted now key (e ∷ history)
    by_event (asks t c) le ih = step-asks t now c key (after history auth) le ∙ ih
    by_event (fails t c) le ih = rw⁻¹ ih (step-fails t now c key (after history auth))
    by_event (succeeds t c) le ih = rw⁻¹ ih (step-succeeds t now c key (after history auth))

length-filter-count : (p : ℕ → Bool) (xs : List ℕ) → length (filter p xs) ≡ count p xs
length-filter-count p [] = refl
length-filter-count p (x ∷ xs) = ground (arith, length-filter-count p xs)

no_failures :
    (key : String) (auth : TokenAuth) → auth.login_failures ≡ [] → failures_of key auth ≡ []
unfolding failures_of lookup
no_failures key auth e = rw e refl

-- After any history of tests, failed and successful logins of any clients, on a clock that does not
-- go back, a client may try at `now` exactly when it has fewer than five failures in the last five
-- minutes since its last success. A client without an address counts as "unknown", and the pruning
-- of old failures by earlier tests never changes the answer.
pub login_allowed-counted :
    (now : ℕ) (client : String) (history : List Event) (auth : TokenAuth)
    → auth.login_failures ≡ []
    → IsHistory now history
    → (login_allowed now client (after history auth)).0
      ≡ ltb (counted now (client_key client) history) login_max_failures
unfolding login_allowed stored
login_allowed-counted now client history auth none_yet h =
    let key = client_key client in
    ap (λ n. ltb n login_max_failures)
      (length-filter-count (is_recent now) (failures_of key (after history auth))
        ∙ stored-counted now key history auth (no_failures key auth none_yet) h)

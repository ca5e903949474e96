-- ===== src/Auth/Examples.antt =====
-- Sessions and logins of host/core/auth.py at concrete inputs, on a platform that writes numbers in
-- unary and signs everything alike.
use rkcockpit.Common.{
  ◌↔◌, All, List, [], ap, arith, false, leb, length, ltb, refl, some, suc, true, zero, ℕ, ◌&&◌, ◌+◌,
  ◌==◌, ◌∷◌, ◌≡◌,
}
use rkcockpit.Common.Dict.{lookup, insert, erase}
use rkcockpit.Common.Int.{pos}
use rkcockpit.Common.Result.{ok, raised}
use rkcockpit.Auth.{
  Platform, TokenAuth, verify_token, not_ascii, verify_session, session, session_seconds,
  login_allowed, client_key, login_max_failures, dot,
}
use rkcockpit.Auth.Sessions.{IsOwnSession, verify_session-session, verify_session-IsIssued}
use rkcockpit.Auth.Logins.{
  Event, asks, fails, succeeds, after, counted, IsHistory, login_allowed-counted,
}

abbrev ones : ℕ → List ℕ
ones zero = []
ones (suc n) = 49 ∷ ones n

ones_no_dot : (n : ℕ) → All (λ c. (c == dot) ≡ false) (ones n)
ones_no_dot zero = tt
ones_no_dot (suc n) = (refl, ones_no_dot n)

length-ones : (n : ℕ) → length (ones n) ≡ n
length-ones zero = refl
length-ones (suc n) = omega (arith, length-ones n)

abbrev unary : Platform
unary = record {
  mac = λ token issued. ones 3;
  mac_ascii = λ token issued. (refl, (refl, (refl, tt)));
  show = ones;
  int_of = λ cs. some (pos (length cs));
  show_no_dot = ones_no_dot;
  int_of_show = λ n. ap (λ k. some (pos k)) (length-ones n);
}

abbrev secret : List ℕ
secret = 7 ∷ 8 ∷ 9 ∷ []

abbrev guarded : TokenAuth
guarded = record { token = some secret; login_failures = [] }

verify_session-session_example :
    verify_session unary 5 (session unary 3 secret) guarded
    ≡ ok (leb 3 (5 + 60) && leb 5 (3 + session_seconds))
verify_session-session_example = verify_session-session unary secret guarded 3 5 refl

verify_session-IsIssued_example :
    (verify_session unary 5 (49 ∷ dot ∷ ones 3) guarded ≡ ok true)
    ↔ IsOwnSession unary 5 (49 ∷ dot ∷ ones 3) guarded
verify_session-IsIssued_example = verify_session-IsIssued unary 5 (49 ∷ dot ∷ ones 3) guarded

-- The answers at a good candidate, at a wrong one, and at one that is not ASCII.
session_answers :
    (verify_session unary 5 (49 ∷ dot ∷ ones 3) guarded ≡ ok true)
    × (verify_session unary 5 (49 ∷ dot ∷ ones 2) guarded ≡ ok false)
    × (verify_session unary 5 (49 ∷ dot ∷ 233 ∷ []) guarded ≡ raised not_ascii)
    × (verify_token (233 ∷ []) guarded ≡ raised not_ascii)
unfolding verify_session verify_token
session_answers = (refl, refl, refl, refl)

abbrev attempts : List Event
attempts =
    fails 9000 ""
    ∷ asks 8500 ""
    ∷ fails 8000 ""
    ∷ fails 7000 ""
    ∷ succeeds 6500 "10.0.0.2"
    ∷ fails 6000 ""
    ∷ fails 5000 ""
    ∷ fails 4000 "10.0.0.2"
    ∷ []

attempts-IsHistory : IsHistory 10000 attempts
attempts-IsHistory = (
  omega arith,
  (
    omega arith,
    (omega arith, (omega arith, (omega arith, (omega arith, (omega arith, (omega arith, tt)))))),
  ),
)

attempts_refused : (login_allowed 10000 "" (after attempts guarded)).0 ≡ false
unfolding after login_allowed lookup insert erase
attempts_refused = refl

login_allowed-counted_example :
    (login_allowed 10000 "" (after attempts guarded)).0
    ≡ ltb (counted 10000 (client_key "") attempts) login_max_failures
login_allowed-counted_example =
    login_allowed-counted 10000 "" attempts guarded refl attempts-IsHistory

-- ===== src/Auth.antt =====
-- `TokenAuth` in host/core/auth.py: one administrator's token, sessions signed with it, and a limit
-- on failed logins. Texts are lists of code points. HMAC, `int` and "%d" are parameters. The reading
-- of the token's file and the parsing of headers and cookies are not modelled. `now` is the clock:
-- whole seconds for sessions, as `int(self._clock())`, and milliseconds for logins.
mod Examples
pub mod Sessions
pub mod Logins
use rkcockpit.Common.{
  All, Bool, List, Option, String, [], false, filter, if◌then◌else◌, length, ltb, none, not, some,
  str_eq, true, ℕ, ◌&&◌, ◌*◌, ◌++◌, ◌+◌, ◌-◌, ◌==◌, ◌||◌, ◌∷◌, ◌≡◌,
}
use rkcockpit.Common.Dict.{Dict, lookup, insert, erase}
use rkcockpit.Common.Result.{Result, ok, raised}
use rkcockpit.Common.Int.{ℤ, pos, negsuc}

abbrev pub session_seconds : ℕ
session_seconds = 8 * 60 * 60

abbrev pub login_window_ms : ℕ
login_window_ms = 5 * 60 * 1000

abbrev pub login_max_failures : ℕ
login_max_failures = 5

abbrev pub dot : ℕ
dot = 46

-- `mac token issued` is the hexadecimal digest of `_session_mac`, `show` is "%d", and `int_of` is
-- `int` with a ValueError as `none`. Digests are ASCII, printed numbers have no dot, and `int` reads them
-- back.
pub record Platform : Type 0 where
  pub mac : List ℕ → ℤ → List ℕ
  pub show : ℕ → List ℕ
  pub int_of : List ℕ → Option ℤ
  pub mac_ascii : (token : List ℕ) (issued : ℤ) → All (λ c. ltb c 128 ≡ true) (mac token issued)
  pub show_no_dot : (n : ℕ) → All (λ c. (c == dot) ≡ false) (show n)
  pub int_of_show : (n : ℕ) → int_of (show n) ≡ some (pos n)

-- `_login_failures` holds, for each client, the times of its failed logins.
pub record TokenAuth : Type 0 where
  pub token : Option (List ℕ)
  pub login_failures : Dict (List ℕ)

-- The TypeError of `hmac.compare_digest` for a text that is not ASCII.
pub data Fault : Type 0 where
  not_ascii : Fault

unfoldable pub is_ascii : List ℕ → Bool
is_ascii [] = true
is_ascii (c ∷ cs) = ltb c 128 && is_ascii cs

unfoldable pub same_text : List ℕ → List ℕ → Bool
same_text [] [] = true
same_text [] (b ∷ bs) = false
same_text (a ∷ as_) [] = false
same_text (a ∷ as_) (b ∷ bs) = a == b && same_text as_ bs

-- `hmac.compare_digest` on two texts.
unfoldable pub compare_digest : List ℕ → List ℕ → Result Fault Bool
unfolding is_ascii same_text
compare_digest a b = if is_ascii a && is_ascii b then ok (same_text a b) else raised not_ascii

unfoldable pub verify_token : List ℕ → TokenAuth → Result Fault Bool
unfolding compare_digest
verify_token candidate auth = elim auth.token [
  | none ↦ ok false
  | some token ↦ compare_digest candidate token
]

-- `candidate.partition(".")`: what stands before the first dot, whether there is one, and the rest.
unfoldable pub partition : List ℕ → List ℕ × (Bool × List ℕ)
partition [] = ([], (false, []))
partition (c ∷ cs) =
    let (before, (sep, after)) = partition cs in
    if c == dot then ([], (true, cs)) else (c ∷ before, (sep, after))

-- `issued > now + 60`
unfoldable pub is_early : ℕ → ℤ → Bool
is_early now (pos issued) = ltb (now + 60) issued
is_early now (negsuc n) = false

-- `now - issued > SESSION_SECONDS`
unfoldable pub is_late : ℕ → ℤ → Bool
is_late now (pos issued) = ltb (issued + session_seconds) now
is_late now (negsuc n) = ltb session_seconds (now + n + 1)

module _ (p : Platform) where
  open p use {mac, show, int_of}

  -- The end of `verify_session`.
  unfoldable pub is_signed : ℕ → List ℕ → Bool → List ℕ → Option ℤ → Result Fault Bool
  unfolding is_early is_late compare_digest
  is_signed now token sep supplied none = ok false
  is_signed now token sep supplied (some issued) =
      if not sep || is_early now issued || is_late now issued
      then ok false
      else compare_digest supplied (mac token issued)

  unfoldable pub verify_session : ℕ → List ℕ → TokenAuth → Result Fault Bool
  unfolding partition is_signed
  verify_session now candidate auth = elim auth.token [
    | none ↦ ok false
    | some token ↦
        let (issued_raw, (sep, supplied)) = partition candidate in
        is_signed now token sep supplied (int_of issued_raw)
  ]

  -- The session of `login_cookie`, "%d.%s".
  unfoldable pub session : ℕ → List ℕ → List ℕ
  session issued token = show issued ++ dot ∷ mac token (pos issued)

-- `client_ip or "unknown"`
unfoldable pub client_key : String → String
client_key client = if str_eq client "" then "unknown" else client

-- `now - stamp < LOGIN_WINDOW_SECONDS`
unfoldable pub is_recent : ℕ → ℕ → Bool
is_recent now stamp = ltb (now - stamp) login_window_ms

abbrev pub or_nil : Option (List ℕ) → List ℕ
or_nil none = []
or_nil (some xs) = xs

unfoldable pub failures_of : String → TokenAuth → List ℕ
failures_of key auth = or_nil (lookup key auth.login_failures)

unfoldable pub login_allowed : ℕ → String → TokenAuth → Bool × TokenAuth
unfolding client_key is_recent failures_of
login_allowed now client auth =
    let key = client_key client in
    let recent = filter (is_recent now) (failures_of key auth) in
    (
      ltb (length recent) login_max_failures,
      record auth { login_failures = insert key recent auth.login_failures },
    )

unfoldable pub record_login : ℕ → String → Bool → TokenAuth → TokenAuth
unfolding client_key failures_of
record_login now client success auth =
    let key = client_key client in
    if success
    then record auth { login_failures = erase key auth.login_failures }
    else record auth {
      login_failures = insert key (failures_of key auth ++ now ∷ []) auth.login_failures;
    }

-- ===== src/KnownHosts/Examples.antt =====
-- host/transport/ssh_known_hosts.py on two boards; a key is its own fingerprint.
use rkcockpit.Common.{Bool, List, Option, String, [], false, none, refl, some, true, ℕ, ◌∷◌, ◌≡◌}
use Prim.Native.Char.{Char}
use rkcockpit.KnownHosts.{
  has_newline, Line, Request, host_token, is_key_type, pin_key, refused, other_key, run,
}
use rkcockpit.KnownHosts.Pins.{IsPinned, run-IsPinned}

abbrev own : String → Option String
own k = some k

abbrev no_space : Char → Bool
no_space c = false

abbrev high_port : ℕ → String
high_port n = "2222"

abbrev small : List Line → ℕ
small lines = 0

abbrev board : Request
board = record { host = "board"; port = 22; kind = "ssh-rsa"; key = "AAAA"; expected = "AAAA" }

abbrev requests : List (Bool × Bool × Request)
requests =
    (true, true, board)
    ∷ (true, true, record board { key = "BBBB"; expected = "BBBB" })
    ∷ (true, true, record board { port = 2222 })
    ∷ (true, true, record board { port = 2223; expected = "CCCC" })
    ∷ []

-- The second key of a host and the unexpected fingerprint are refused.
requests-lines :
    run own no_space high_port small requests none
    ≡ some (
        record { hosts = "board" ∷ []; rest = "ssh-rsa AAAA" }
        ∷ record { hosts = "[board]:2222" ∷ []; rest = "ssh-rsa AAAA" }
        ∷ [])
unfolding run
requests-lines = refl

-- Two places with one name.
one_token :
    host_token own no_space high_port small "[board]:2222" 22
    ≡ host_token own no_space high_port small "board" 2222
unfolding host_token
one_token = refl

-- The last newline passes the check of the type.
newline_type : is_key_type "ssh-rsa\n" ≡ true
unfolding is_key_type
newline_type = refl

-- It then breaks the entry, and the same request is refused the next time.
abbrev broken : Request
broken = record board { kind = "ssh-rsa\n" }

broken_entry :
    run own no_space high_port small ((true, true, broken) ∷ []) none
    ≡ some (
        record { hosts = "board" ∷ []; rest = "ssh-rsa" }
        ∷ record { hosts = "AAAA" ∷ []; rest = "" }
        ∷ [])
unfolding run
broken_entry = refl

broken_again :
    (pin_key own no_space high_port small true true broken
      (run own no_space high_port small ((true, true, broken) ∷ []) none)).0
    ≡ refused other_key
unfolding run pin_key
broken_again = refl

run-IsPinned_example :
    IsPinned own no_space high_port small
      (λ r. Unit)
      (run own no_space high_port small requests none)
unfolding has_newline
run-IsPinned_example =
    run-IsPinned own no_space high_port small (λ r. Unit) requests (tt, (tt, (tt, (tt, tt))))
      (refl, (refl, (refl, (refl, tt))))

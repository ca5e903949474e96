-- ===== src/KnownHosts.antt =====
-- host/transport/ssh_known_hosts.py: the names of hosts and the pinning of their keys. The fingerprint of a
-- key, white space, the printing of a port and the size of a file are parameters; the modes of the file and
-- its directory, and whether the new file could be put in place, are what the caller says.
mod Examples
pub mod Pins
use Prim.Native.Char.{Char, code}
use Prim.Native.String
use rkcockpit.Common.{
  Bool, List, Option, String, [], any, false, if◌then◌else◌, leb, ltb, none, not, some, str_eq,
  true, ℕ, ◌&&◌, ◌++◌, ◌+◌, ◌==◌, ◌||◌, ◌∷◌,
}

-- A line of the file: the hosts of its first field, and what follows it.
pub record Line : Type 0 where
  pub hosts : List String
  pub rest : String

pub record Request : Type 0 where
  pub host : String
  pub port : ℕ
  pub kind : String
  pub key : String
  pub expected : String

-- The ValueErrors, and the OSError of the disk.
pub data Why : Type 0 where
  bad_key mismatch bad_type not_private too_large bad_host other_key not_written : Why

pub data Outcome : Type 0 where
  pinned already : Outcome
  refused : Why → Outcome

unfoldable pub any_char : (Char → Bool) → String → Bool
any_char p String.[] = false
any_char p (String.◌∷◌ c s) = p c || any_char p s

unfoldable pub char_count : String → ℕ
char_count String.[] = 0
char_count (String.◌∷◌ c s) = char_count s + 1

-- One of `,*?!|`.
unfoldable pub is_pattern : Char → Bool
is_pattern c =
    code c == b',' || code c == b'*' || code c == b'?' || code c == b'!' || code c == b'|'

unfoldable pub is_between : ℕ → ℕ → Char → Bool
is_between low high c = leb low (code c) && leb (code c) high

-- `[A-Za-z0-9@._+-]`
unfoldable pub is_word : Char → Bool
unfolding is_between
is_word c =
    is_between b'A' b'Z' c
    || is_between b'a' b'z' c
    || is_between b'0' b'9' c
    || code c == b'@'
    || code c == b'.'
    || code c == b'_'
    || code c == b'+'
    || code c == b'-'

-- Such characters up to the end, where `$` also takes the place before a last newline.
unfoldable pub words_to_end : String → Bool
unfolding is_word
words_to_end String.[] = true
words_to_end (String.◌∷◌ c s) = (is_word c && words_to_end s) || (code c == 10 && str_eq s "")

unfoldable pub some_word : String → Bool
unfolding is_word words_to_end
some_word String.[] = false
some_word (String.◌∷◌ c s) = is_word c && words_to_end s

unfoldable pub after_prefix : String → String → Option String
after_prefix String.[] s = some s
after_prefix (String.◌∷◌ p ps) String.[] = none
after_prefix (String.◌∷◌ p ps) (String.◌∷◌ c s) =
    let rest = after_prefix ps s in if code p == code c then rest else none

unfoldable pub matches_after : String → String → Bool
unfolding after_prefix some_word
matches_after s prefix = elim (after_prefix prefix s) [ none ↦ false | some rest ↦ some_word rest ]

-- `_KEY_TYPE_RE.match`
unfoldable pub is_key_type : String → Bool
unfolding matches_after
is_key_type s = any (matches_after s) ("ssh-" ∷ "ecdsa-" ∷ "sk-" ∷ [])

-- `token in fields[0].split(",")`
unfoldable pub lists : String → List String → Bool
lists t [] = false
lists t (h ∷ hosts) = str_eq h t || lists t hosts

unfoldable pub has_token : String → List Line → Bool
unfolding lists
has_token t [] = false
has_token t (l ∷ lines) = lists t l.hosts || has_token t lines

unfoldable pub line_of : String → Request → Line
line_of t r = record { hosts = t ∷ []; rest = String.◌++◌ r.kind (String.◌++◌ " " r.key) }

-- A line feed, which `_KEY_TYPE_RE` lets pass at the end of a type.
unfoldable pub has_newline : String → Bool
unfolding any_char
has_newline s = any_char (λ c. code c == 10) s

unfoldable pub before_newline : String → String
before_newline String.[] = String.[]
before_newline (String.◌∷◌ c s) =
    let rest = String.◌∷◌ c (before_newline s) in if code c == 10 then String.[] else rest

-- The lines of "%s %s %s\n": a type with a line feed breaks it, and the key begins a line of its own, in
-- which it stands where the hosts are. A key is base64, so it has no comma.
unfoldable pub lines_of : String → Request → List Line
unfolding line_of has_newline before_newline
lines_of t r =
    if has_newline r.kind
    then record { hosts = t ∷ []; rest = before_newline r.kind }
      ∷ record { hosts = if str_eq r.key "" then [] else r.key ∷ []; rest = "" }
      ∷ []
    else line_of t r ∷ []

unfoldable pub is_line : String → Line → Line → Bool
is_line t l line = elim l.hosts [
  | [] ↦ false
  | h ∷ [] ↦ str_eq h t && str_eq l.rest line.rest
  | h ∷ j ∷ hosts ↦ false
]

-- `line.encode("ascii") in existing.splitlines()`
unfoldable pub has_line : String → Line → List Line → Bool
unfolding is_line
has_line t line [] = false
has_line t line (l ∷ lines) = is_line t l line || has_line t line lines

-- The same for the whole text of a request, which is no line if it has a line feed.
unfoldable pub has_entry : String → Request → List Line → Bool
unfolding has_line line_of has_newline
has_entry t r lines = not (has_newline r.kind) && has_line t (line_of t r) lines

module _ (fingerprint : String → Option String) (is_space : Char → Bool) (printed : ℕ → String)
    (size : List Line → ℕ) where
  unfoldable pub is_bad_host : String → Bool
  unfolding any_char char_count is_pattern
  is_bad_host host =
      str_eq host ""
      || ltb 253 (char_count host)
      || any_char (λ c. is_space c || ltb (code c) 33) host
      || any_char is_pattern host
      || any_char (λ c. ltb 127 (code c)) host

  -- A port that is negative is as 0.
  unfoldable pub host_token : String → ℕ → Option String
  unfolding is_bad_host
  host_token host port =
      if is_bad_host host || not (leb 1 port && leb port 65535)
      then none
      else if port == 22
      then some host
      else some (String.◌++◌ "[" (String.◌++◌ host (String.◌++◌ "]:" (printed port))))

  abbrev pub File : Type 0
  File = Option (List Line)

  unfoldable pub append : Bool → Request → List Line → File → Option String → Outcome × File
  unfolding lines_of
  append written r lines file none = (refused bad_host, file)
  append written r lines file (some t) =
      if written then (pinned, some (lines ++ lines_of t r)) else (refused not_written, file)

  unfoldable pub found : Bool → Request → List Line → Option String → Outcome × File
  unfolding append has_token has_entry
  found written r lines none = (refused bad_host, some lines)
  found written r lines (some t) =
      if has_token t lines
      then if has_entry t r lines then (already, some lines) else (refused other_key, some lines)
      else append written r lines (some lines) (some t)

  unfoldable pub add_to : Bool → Request → File → Outcome × File
  unfolding append found host_token
  add_to written r none = append written r [] none (host_token r.host r.port)
  add_to written r (some lines) =
      if ltb 1048576 (size lines)
      then (refused too_large, some lines)
      else found written r lines (host_token r.host r.port)

  unfoldable pub checked : Bool → Bool → Request → File → Option String → Outcome × File
  unfolding add_to is_key_type
  checked private_enough written r file none = (refused bad_key, file)
  checked private_enough written r file (some actual) =
      if not (str_eq actual r.expected)
      then (refused mismatch, file)
      else if not (is_key_type r.kind)
      then (refused bad_type, file)
      else if not private_enough
      then (refused not_private, file)
      else add_to written r file

  unfoldable pub pin_key : Bool → Bool → Request → File → Outcome × File
  unfolding checked
  pin_key private_enough written r file = checked private_enough written r file (fingerprint r.key)

  -- Pins one by one.
  unfoldable pub run : List (Bool × Bool × Request) → File → File
  unfolding pin_key
  run [] file = file
  run ((private_enough, written, r) ∷ requests) file =
      run requests (pin_key private_enough written r file).1

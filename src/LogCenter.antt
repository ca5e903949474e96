-- ===== src/LogCenter.antt =====
-- host/service/logcenter.py: the bounded buffer of followed lines, one round of a follower that polls a
-- file, and the tail of a file. A text is a list of characters, which are numbers; the clock and the
-- transport's answers are arguments. The journal's follower is not modelled.
mod Examples
pub mod Lines
pub mod Polling
pub mod Center
use rkcockpit.Common.{
  Bool, List, Option, [], drop, filter, if◌then◌else◌, length, ltb, max, min, none, some, take, ℕ,
  ◌++◌, ◌+◌, ◌-◌, ◌==◌, ◌∷◌,
}

abbrev pub max_line_bytes : ℕ
max_line_bytes = 8192

abbrev pub max_new_per_tick : ℕ
max_new_per_tick = 2000

pub record Line : Type 0 where
  pub ts : ℕ
  pub text : List ℕ

-- `_LineBuffer`; `_bytes` counts the characters.
pub record LineBuffer : Type 0 where
  pub max_lines : ℕ
  pub max_bytes : ℕ
  pub buf : List Line
  pub bytes : ℕ
  pub seq : ℕ

unfoldable pub init : ℕ → ℕ → LineBuffer
init max_lines max_bytes = record {
  max_lines = max_lines;
  max_bytes = max_bytes;
  buf = [];
  bytes = 0;
  seq = 0;
}

-- `append` of a `deque(maxlen=max_lines)`: a full deque drops its oldest.
unfoldable pub append : Line → LineBuffer → List Line
append line b = let longer = b.buf ++ line ∷ [] in drop (length longer - b.max_lines) longer

-- The loop of `push`: what is left of the lines and of the counter.
unfoldable pub evict : ℕ → List Line → ℕ → List Line × ℕ
evict max_bytes [] bytes = ([], bytes)
evict max_bytes (line ∷ []) bytes = (line ∷ [], bytes)
evict max_bytes (line ∷ next ∷ rest) bytes =
    let fewer = evict max_bytes (next ∷ rest) (bytes - length line.text) in
    if ltb max_bytes bytes then fewer else (line ∷ next ∷ rest, bytes)

unfoldable pub cut : Line → Line
cut line = record line { text = take max_line_bytes line.text }

unfoldable pub push : Line → LineBuffer → LineBuffer
unfolding append evict cut
push line b =
    let (kept, bytes) =
      evict b.max_bytes (append (cut line) b) (b.bytes + length (cut line).text) in
    record b { buf = kept; bytes = bytes; seq = b.seq + 1 }

-- `list(self._buf)[-n:]` for a positive n; `[-0:]` is the whole list.
unfoldable pub snapshot : ℕ → LineBuffer → List Line
snapshot n b = if n == 0 then b.buf else drop (length b.buf - n) b.buf

-- The lines with their numbers, from `start` on.
unfoldable pub enumerate {ℓ} : {A : Type ℓ} → ℕ → List A → List (ℕ × A)
enumerate start [] = []
enumerate start (x ∷ xs) = (start, x) ∷ enumerate (start + 1) xs

unfoldable pub since : ℕ → LineBuffer → ℕ × List (ℕ × Line)
unfolding enumerate
since seq b =
    let start = b.seq - length b.buf + 1 in
    (b.seq, filter (λ e. ltb seq e.0) (enumerate start b.buf))

-- The lines that a follower's filter lets through, pushed in order at the time `now`.
unfoldable pub push_matching : (List ℕ → Bool) → ℕ → List (List ℕ) → LineBuffer → LineBuffer
unfolding push
push_matching is_match now [] b = b
push_matching is_match now (ln ∷ lns) b =
    push_matching is_match now lns
      (if is_match ln then push (record { ts = now; text = ln }) b else b)

-- What `tail -n +first` gives: its lines, an exit code other than 0, or an exception.
pub data Tail : Type 0 where
  printed : List (List ℕ) → Tail
  exit_code : Tail
  raised : Tail

-- The follower's `last` and its buffer.
pub record Follower : Type 0 where
  pub last : ℕ
  pub buffer : LineBuffer

unfoldable pub read_new : (List ℕ → Bool) → ℕ → ℕ → (ℕ → Tail) → Follower → Follower
unfolding push_matching
read_new is_match now total tail_from f =
    let first =
      if ltb max_new_per_tick (total - f.last) then total - max_new_per_tick + 1 else f.last + 1 in
    elim (tail_from first) [
      | printed lns ↦ record f { last = total; buffer = push_matching is_match now lns f.buffer }
      | exit_code ↦ record f { last = total }
      | raised ↦ f
    ]

-- One round of `_run_poll`. The count is `none` where `wc` fails, prints no number or raises.
unfoldable pub tick : (List ℕ → Bool) → ℕ → Option ℕ → (ℕ → Tail) → Follower → Follower
unfolding read_new
tick is_match now none tail_from f = f
tick is_match now (some total) tail_from f =
    let g = if ltb total f.last then record f { last = 0 } else f in
    if ltb g.last total then read_new is_match now total tail_from g else g

-- `tail`: the clamped number of lines, and the last lines of what the transport printed.
unfoldable pub clamp_lines : ℕ → ℕ
clamp_lines lines = max 1 (min lines 5000)

unfoldable pub last_lines : ℕ → List (List ℕ) → List (List ℕ)
last_lines lines lns = drop (length lns - lines) lns

-- ===== src/OutputBuffer.antt =====
-- host/task/output_buffer.py: the newest bytes of a command's output, addressed by absolute cursors.
-- Bytes are numbers. The incremental UTF-8 decoder of the standard library is a parameter: what it
-- holds back of the last four bytes (`pending`) is at most those bytes.
mod Examples
pub mod Stream
pub mod Cursor
use Prim.Native.Nat.{bit_and}
use rkcockpit.Common.{
  Bool, List, Option, [], drop, false, get_elem?, if◌then◌else◌, length, ltb, none, some, take,
  true, ℕ, ◌&&◌, ◌++◌, ◌+◌, ◌-◌, ◌==◌, ◌∷◌, ◌≤◌,
}
use rkcockpit.Common.Result.{Result, ok, raised, ◌>>=◌}

-- `codecs.getincrementaldecoder("utf-8")("replace")`: `held_back bs` is `len(pending)` after
-- `decode(bs, final=False)`, and `decode` is `bytes.decode("utf-8", "replace")`.
pub record Utf8 : Type 1 where
  pub Text : Type 0
  pub decode : List ℕ → Text
  pub held_back : List ℕ → ℕ
  pub held_back_le : (bs : List ℕ) → held_back bs ≤ length bs

pub record OutputBuffer : Type 0 where
  pub limit : ℕ
  pub bytes : List ℕ
  pub base_offset : ℕ
  pub end_offset : ℕ
  pub pending_len : ℕ

pub data Error : Type 0 where
  bad_limit beyond_output off_boundary : Error

-- The constructor raises ValueError unless the limit is positive.
unfoldable pub init : ℕ → Option OutputBuffer
init limit =
    if limit == 0
    then none
    else some
        (record { limit = limit; bytes = []; base_offset = 0; end_offset = 0; pending_len = 0 })

-- `b & 0xC0 == 0x80`: the byte goes on a character that began before it.
unfoldable pub is_continuation : ℕ → Bool
is_continuation b = bit_and b 0xC0 == 0x80

-- The `while` loop of `append`: bytes at the head that go on a lost character, and their number.
unfoldable pub skip_continuation : List ℕ → List ℕ × ℕ
unfolding is_continuation
skip_continuation [] = ([], 0)
skip_continuation (b ∷ bs) =
    let (rest, n) = skip_continuation bs in if is_continuation b then (rest, n + 1) else (b ∷ bs, 0)

-- Lines 41-50: `del self._data[:excess]`, and the loop after it.
unfoldable pub trim : OutputBuffer → OutputBuffer
unfolding skip_continuation
trim b =
    let excess = length b.bytes - b.limit in
    let (rest, skipped) = skip_continuation (drop excess b.bytes) in
    if excess == 0
    then b
    else record b { bytes = rest; base_offset = b.base_offset + excess + skipped }

-- `self._data[-4:]`
unfoldable pub last_four : List ℕ → List ℕ
last_four bs = drop (length bs - 4) bs

unfoldable pub truncated : OutputBuffer → Bool
truncated b = ltb 0 b.base_offset

module _ (u : Utf8) where
  open u use {Text, decode, held_back}

  unfoldable pub append : List ℕ → OutputBuffer → OutputBuffer
  unfolding trim last_four
  append [] b = b
  append (c ∷ cs) b =
      let longer = record b {
        bytes = b.bytes ++ c ∷ cs;
        end_offset = b.end_offset + length (c ∷ cs);
      } in
      let t = trim longer in record t { pending_len = held_back (last_four t.bytes) }

  pub record Snapshot : Type 0 where
    pub text : Text
    pub next_offset : ℕ
    pub base : ℕ
    pub reset : Bool

  unfoldable pub visible_len : Bool → OutputBuffer → ℕ
  visible_len final b = if final then length b.bytes else length b.bytes - b.pending_len

  -- Lines 70-79: where the text starts, whether the cursor was stale, or an error.
  unfoldable pub start_of : Option ℕ → ℕ → ℕ → Result Error (ℕ × Bool)
  start_of none base visible_end = ok (base, false)
  start_of (some offset) base visible_end =
      if ltb offset base
      then ok (base, true)
      else if ltb visible_end offset
      then raised beyond_output
      else ok (offset, false)

  -- `self._data[i] & 0xC0 == 0x80`
  unfoldable pub continues_at : List ℕ → ℕ → Bool
  unfolding is_continuation
  continues_at bs i = elim (get_elem? bs i) [ none ↦ false | some b ↦ is_continuation b ]

  -- Lines 81-87: the text from `start` on.
  unfoldable pub snapshot_from : Bool → OutputBuffer → ℕ × Bool → Result Error Snapshot
  unfolding visible_len continues_at
  snapshot_from final b (start, reset) =
      let rel_start = start - b.base_offset in
      let len = visible_len final b in
      if ltb rel_start len && continues_at b.bytes rel_start
      then raised off_boundary
      else ok (record {
        text = decode (drop rel_start (take len b.bytes));
        next_offset = b.base_offset + len;
        base = b.base_offset;
        reset = reset;
      })

  unfoldable pub snapshot : Option ℕ → Bool → OutputBuffer → Result Error Snapshot
  unfolding visible_len start_of snapshot_from
  snapshot offset final b =
      start_of offset b.base_offset (b.base_offset + visible_len final b) >>= snapshot_from final b

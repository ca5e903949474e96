-- ===== src/OutputBuffer/Examples.antt =====
-- The buffer of host/task/output_buffer.py on small outputs, with a decoder that holds back a last
-- byte which begins a longer character.
use rkcockpit.Common.{
  none, ltb, max, List, [], arith, false, if◌then◌else◌, leb, length, refl, slice, some, ℕ, ◌++◌,
  ◌∷◌, ◌≡◌, ◌≤◌,
}
use mathlib.Core.List.{flatten}
use rkcockpit.Common.Result.{ok}
use rkcockpit.OutputBuffer.{Utf8, OutputBuffer, init, append, snapshot, visible_len, continues_at}
use rkcockpit.OutputBuffer.Stream.{IsTail, append_all, append_all-init}
use rkcockpit.OutputBuffer.Cursor.{
  IsCursor, Shows, visible_end, served, snapshot-served, snapshot_resume,
}

abbrev held_back : List ℕ → ℕ
held_back [] = 0
held_back (b ∷ []) = if leb 0xC2 b then 1 else 0
held_back (b ∷ c ∷ bs) = held_back (c ∷ bs)

held_back_le : (bs : List ℕ) → held_back bs ≤ length bs
held_back_le [] = omega arith
held_back_le (b ∷ []) = ground arith
held_back_le (b ∷ c ∷ bs) = omega (arith, held_back_le (c ∷ bs))

abbrev bytes_only : Utf8
bytes_only = record {
  Text = List ℕ;
  decode = λ bs. bs;
  held_back = held_back;
  held_back_le = held_back_le;
}

abbrev new : OutputBuffer
new = record { limit = 4; bytes = []; base_offset = 0; end_offset = 0; pending_len = 0 }

new_is : init 4 ≡ some new
unfolding init
new_is = refl

abbrev opening : List ℕ
opening = 97 ∷ 0xC3 ∷ []

abbrev more : List ℕ
more = 0xA9 ∷ 98 ∷ []

-- "aé" and then "bcd": the ring drops "a" and with it nothing of "é".
abbrev chunks : List (List ℕ)
chunks = opening ∷ (0xA9 ∷ 98 ∷ []) ∷ []

ring : append_all bytes_only ((99 ∷ 100 ∷ []) ∷ []) (append_all bytes_only chunks new) ≡ record {
  limit = 4;
  bytes = 98 ∷ 99 ∷ 100 ∷ [];
  base_offset = 3;
  end_offset = 6;
  pending_len = 0;
}
unfolding append_all append
ring = refl

first : OutputBuffer
unfolding append
first = append bytes_only opening new

withheld :
    snapshot bytes_only (some 0) false first
    ≡ ok (record { text = 97 ∷ []; next_offset = 1; base = 0; reset = false })
unfolding first snapshot
withheld = refl

append_all-init_example : IsTail (flatten chunks) (append_all bytes_only chunks new)
append_all-init_example = append_all-init bytes_only 4 new chunks new_is

first-IsTail : IsTail opening first
unfolding first
first-IsTail = record {
  end = refl;
  base_le = omega arith;
  kept = refl;
  fits = omega arith;
  pending_le = omega arith;
}

first-IsCursor : IsCursor bytes_only 0 false first
unfolding first visible_len continues_at
first-IsCursor = (omega arith, omega arith, λ h. refl)

next-IsCursor :
    IsCursor bytes_only (visible_end bytes_only false first) false (append bytes_only more first)
unfolding first visible_len continues_at append
next-IsCursor = (omega arith, omega arith, λ h. refl)

snapshot-served_example :
    let end = visible_end bytes_only false first in
    (snapshot bytes_only (some 1) false first
      ≡ served bytes_only opening
          (max 1 first.base_offset)
          end
          first.base_offset
          (ltb 1 first.base_offset))
    × (snapshot bytes_only none false first
        ≡ served bytes_only opening first.base_offset end first.base_offset false)
snapshot-served_example = snapshot-served bytes_only opening first false 1 first-IsTail

snapshot_resume_example :
    let later = append bytes_only more first in
    let next = visible_end bytes_only false first in
    Shows bytes_only opening false first 0 false (snapshot bytes_only (some 0) false first)
    × Shows bytes_only
        (opening ++ more)
        false
        later
        next
        false
        (snapshot bytes_only (some next) false later)
    × (slice 0 next opening ++ slice next (visible_end bytes_only false later) (opening ++ more)
        ≡ slice 0 (visible_end bytes_only false later) (opening ++ more))
snapshot_resume_example =
    snapshot_resume bytes_only opening more first 0 false first-IsTail first-IsCursor next-IsCursor

-- ===== src/OutputBuffer/Cursor.antt =====
-- The cursors of `snapshot` in host/task/output_buffer.py, against the whole stream.
use rkcockpit.Common.{
  Bool, Bool-cases, List, none, [], get_elem?, if◌then◌else◌, max, suc, zero, ◌∷◌, ap, arith, drop,
  false, inl, inr, length, length-drop, ltb, ltb→lt, refl, slice, slice-append-slice, slice-drop,
  some, sym, take-append, true, ℕ, ◌&&◌, ◌++◌, ◌+◌, ◌-◌, ◌<◌, ◌∙◌, ◌≡◌, ◌≤◌, ◌⊎◌,
}
use rkcockpit.Common.Result.{Result, ok, raised}
use rkcockpit.OutputBuffer.{
  Utf8, OutputBuffer, Error, beyond_output, off_boundary, Snapshot, append, visible_len, start_of,
  continues_at, is_continuation, snapshot_from, snapshot,
}
use rkcockpit.OutputBuffer.Stream.{IsTail, append-IsTail}

module _ (u : Utf8) where
  open u use {decode}

  -- The absolute end of what may be shown.
  abbrev pub visible_end : Bool → OutputBuffer → ℕ
  visible_end final b = b.base_offset + visible_len u final b

  -- A cursor that `snapshot` serves: not ahead of the output, and not inside a character.
  abbrev pub IsCursor : ℕ → Bool → OutputBuffer → Type 0
  IsCursor offset final b =
      (b.base_offset ≤ offset)
      × (offset ≤ visible_end final b)
      × ((offset - b.base_offset < visible_len u final b)
          → continues_at u b.bytes (offset - b.base_offset) ≡ false)

  visible_slice :
      (stream : List ℕ) (b : OutputBuffer) (final : Bool) (i : ℕ)
      → IsTail stream b
      → slice i (visible_len u final b) b.bytes
        ≡ slice (b.base_offset + i) (visible_end final b) stream
  visible_slice stream b final i h =
      ap (slice i (visible_len u final b)) h.kept ∙ slice-drop b.base_offset i _ stream

  -- What `snapshot` returns for a start at which a character begins.
  abbrev pub Shows : List ℕ → Bool → OutputBuffer → ℕ → Bool → Result Error (Snapshot u) → Type 0
  Shows stream final b start reset r =
      r
      ≡ ok (record {
        text = decode (slice start (visible_end final b) stream);
        next_offset = visible_end final b;
        base = b.base_offset;
        reset = reset;
      })

  snapshot_from-Shows :
      (stream : List ℕ) (b : OutputBuffer) (final : Bool) (start : ℕ) (reset : Bool)
      → IsTail stream b
      → IsCursor start final b
      → Shows stream final b start reset (snapshot_from u final b (start, reset))
  unfolding snapshot_from
  snapshot_from-Shows stream b final start reset h (lo, hi, boundary) =
      let rel = start - b.base_offset in
      let len = visible_len u final b in
      let whole : b.base_offset + rel ≡ start = omega arith in
      rw (refused (Bool-cases (ltb rel len)), snapshot_from)
        (ap
          (λ bytes. ok (record {
            text = decode bytes;
            next_offset = visible_end final b;
            base = b.base_offset;
            reset = reset;
          }))
          (visible_slice stream b final rel h
            ∙ ap (λ i. slice i (visible_end final b) stream) whole))
    where
      refused :
          (ltb (start - b.base_offset) (visible_len u final b) ≡ true)
            ⊎ (ltb (start - b.base_offset) (visible_len u final b) ≡ false)
          → (ltb (start - b.base_offset) (visible_len u final b)
              && continues_at u b.bytes (start - b.base_offset))
            ≡ false
      refused (inl inside) = rw inside (boundary (ltb→lt _ _ inside))
      refused (inr outside) = rw outside refl

  -- In a buffer that holds the tail of a stream a cursor that is in range and on a character gets the text of
  -- the stream from it to what is complete, and the next cursor.
  pub snapshot-Shows :
      (stream : List ℕ) (b : OutputBuffer) (final : Bool) (offset : ℕ)
      → IsTail stream b
      → IsCursor offset final b
      → Shows stream final b offset false (snapshot u (some offset) final b)
  unfolding snapshot
  snapshot-Shows stream b final offset h c =
      let start : start_of u (some offset) b.base_offset (visible_end final b)
          ≡ ok (offset, false) =
        in_range c in
      rw start (snapshot_from-Shows stream b final offset false h c)
    where
      in_range :
          IsCursor offset final b
          → start_of u (some offset) b.base_offset (visible_end final b) ≡ ok (offset, false)
      in_range (lo, hi, _) = ground arith

  -- What the stream says of a call that starts at `start`, with `end` the end of what may be shown.
  abbrev pub served : List ℕ → ℕ → ℕ → ℕ → Bool → Result Error (Snapshot u)
  served stream start end base reset =
      if ltb end start
      then raised beyond_output
      else if ltb start end && continues_at u stream start
      then raised off_boundary
      else ok (record {
        text = decode (slice start end stream);
        next_offset = end;
        base = base;
        reset = reset;
      })

  get_elem-drop : (xs : List ℕ) (n i : ℕ) → get_elem? (drop n xs) i ≡ get_elem? xs (n + i)
  get_elem-drop xs zero i = ap (get_elem? xs) (omega arith)
  get_elem-drop [] (suc n) i = refl
  get_elem-drop (x ∷ xs) (suc n) i =
      let next : suc (n + i) ≡ suc n + i = omega arith in
      get_elem-drop xs n i ∙ ap (get_elem? (x ∷ xs)) next

  snapshot_from-served :
      (stream : List ℕ) (b : OutputBuffer) (final : Bool) (start : ℕ) (reset : Bool)
      → IsTail stream b
      → b.base_offset ≤ start
      → start ≤ visible_end final b
      → snapshot_from u final b (start, reset)
        ≡ served stream start (visible_end final b) b.base_offset reset
  unfolding snapshot_from continues_at
  snapshot_from-served stream b final start reset h lo hi =
      let rel = start - b.base_offset in
      let len = visible_len u final b in
      let whole : b.base_offset + rel ≡ start = omega arith in
      let beyond : ltb (visible_end final b) start ≡ false = ground arith in
      let inside : ltb rel len ≡ ltb start (visible_end final b) = ground arith in
      let byte : get_elem? b.bytes rel ≡ get_elem? stream start =
        ap (λ l. get_elem? l rel) h.kept
        ∙ get_elem-drop stream b.base_offset rel
        ∙ ap (get_elem? stream) whole in
      let goes_on : continues_at u b.bytes rel ≡ continues_at u stream start =
        ap (λ o. elim o [ none ↦ false | some c ↦ is_continuation c ]) byte in
      let answer : Bool → List ℕ → Result Error (Snapshot u) = λ refused bytes.
        if refused
        then raised off_boundary
        else ok (record {
          text = decode bytes;
          next_offset = visible_end final b;
          base = b.base_offset;
          reset = reset;
        }) in
      rw beyond (
        ap (λ refused. answer refused (slice rel len b.bytes)) (ground (arith, inside, goes_on))
        ∙ ap (answer (ltb start (visible_end final b) && continues_at u stream start)) (
            visible_slice stream b final rel h
            ∙ ap (λ i. slice i (visible_end final b) stream) whole))

  -- A call with any cursor, or none, on a buffer that holds the tail of a stream answers what the whole stream
  -- says: from the cursor, or from the oldest byte that is left if the cursor is behind it or there is none,
  -- the stream up to what is complete, with the next cursor and whether the cursor was behind; an error for a
  -- start beyond that, and another one for a start inside a character.
  pub snapshot-served :
      (stream : List ℕ) (b : OutputBuffer) (final : Bool) (offset : ℕ)
      → IsTail stream b
      → let base = b.base_offset in
        let end = visible_end final b in
        (snapshot u (some offset) final b
          ≡ served stream (max offset base) end base (ltb offset base))
        × (snapshot u none final b ≡ served stream base end base false)
  unfolding snapshot
  snapshot-served stream b final offset h = (
    elim (Bool-cases (ltb offset b.base_offset)) [
      | inl behind ↦
          let oldest : max offset b.base_offset ≡ b.base_offset = ground arith in
          rw (behind, oldest)
            (snapshot_from-served stream b final b.base_offset true h (omega arith) (omega arith))
      | inr in_reach ↦
          let own : max offset b.base_offset ≡ offset = ground arith in
          elim (Bool-cases (ltb (visible_end final b) offset)) [
            | inl beyond ↦ rw (in_reach, own, beyond) refl
            | inr shown ↦
                let reached : b.base_offset ≤ offset = ground arith in
                let on_time : offset ≤ visible_end final b = ground arith in
                rw (in_reach, own, shown)
                  (rw shown at (snapshot_from-served stream b final offset false h reached on_time))
          ]
    ],
    snapshot_from-served stream b final b.base_offset false h (omega arith) (omega arith),
  )

  visible_end-le :
      (stream : List ℕ) (b : OutputBuffer) (final : Bool)
      → IsTail stream b
      → visible_end final b ≤ length stream
  unfolding visible_len
  visible_end-le stream b final h =
      ground (arith, h.base_le, ap (length {A = ℕ}) h.kept, length-drop b.base_offset stream)

  -- Polling: a first call at a cursor, more output, and a call at the cursor that the first one
  -- returned, while the buffer still holds the bytes there. The two calls show adjoining parts of the
  -- output: no byte between the first cursor and the new end is lost or shown twice.
  pub snapshot_resume :
      (stream chunk : List ℕ) (b : OutputBuffer) (offset : ℕ) (final : Bool)
      → IsTail stream b
      → IsCursor offset false b
      → IsCursor (visible_end false b) final (append u chunk b)
      → let later = append u chunk b in
        let next = visible_end false b in
        Shows stream false b offset false (snapshot u (some offset) false b)
        × Shows (stream ++ chunk) final later next false (snapshot u (some next) final later)
        × (slice offset next stream ++ slice next (visible_end final later) (stream ++ chunk)
            ≡ slice offset (visible_end final later) (stream ++ chunk))
  snapshot_resume stream chunk b offset final h c c' =
      let later = append u chunk b in
      let next = visible_end false b in
      let h' = append-IsTail u stream chunk b h in
      (
        snapshot-Shows stream b false offset h c,
        snapshot-Shows (stream ++ chunk) later final next h' c',
        ap (λ l. drop offset l ++ slice next (visible_end final later) (stream ++ chunk))
              (sym (take-append next stream chunk (visible_end-le stream b false h)))
            ∙ slice-append-slice offset next (visible_end final later) (stream ++ chunk) c.1 c'.1,
      )

-- ===== src/OutputBuffer/Stream.antt =====
-- What the buffer of host/task/output_buffer.py holds, against the whole stream that was appended.
use native.Mathlib.Nat.{add_assoc}
use mathlib.Core.List.{flatten}
use native.Mathlib.Numerals.{add-one}
use rkcockpit.Common.{
  Bool-cases, List, [], ap, append-nil, append_assoc, arith, drop, drop-append, drop-drop, false,
  inl, inr, length, length-append, length-drop, refl, some, subst, sym, true, ℕ, ◌++◌, ◌+◌, ◌-◌,
  ◌==◌, ◌∙◌, ◌∷◌, ◌≡◌, ◌≤◌, ◌⊎◌,
}
use rkcockpit.OutputBuffer.{
  Utf8, OutputBuffer, init, is_continuation, skip_continuation, trim, last_four, append,
}

-- The buffer holds the end of `stream`, from `base_offset` on, within its limit.
pub record IsTail (stream : List ℕ) (b : OutputBuffer) : Type 0 where
  pub end : b.end_offset ≡ length stream
  pub base_le : b.base_offset ≤ length stream
  pub kept : b.bytes ≡ drop b.base_offset stream
  pub fits : length b.bytes ≤ b.limit
  pub pending_le : b.pending_len ≤ length b.bytes

-- The loop removes as many bytes as it counts.
skip_continuation-drop :
    (bs : List ℕ)
    → ((skip_continuation bs).0 ≡ drop (skip_continuation bs).1 bs)
      × ((skip_continuation bs).1 ≤ length bs)
unfolding skip_continuation
skip_continuation-drop [] = (refl, omega arith)
skip_continuation-drop (b ∷ bs) =
    let (kept, le) = skip_continuation-drop bs in
    elim (Bool-cases (is_continuation b)) [
      | inl c ↦ rw (c, add-one) (kept, omega (arith, le))
      | inr c ↦ rw c (refl, omega arith)
    ]

-- Dropping bytes at the head keeps the end of the stream.
trim-kept :
    (stream : List ℕ) (b : OutputBuffer)
    → b.base_offset ≤ length stream
    → b.bytes ≡ drop b.base_offset stream
    → ((trim b).base_offset ≤ length stream)
      × ((trim b).bytes ≡ drop (trim b).base_offset stream)
      × (length (trim b).bytes ≤ b.limit)
      × ((trim b).limit ≡ b.limit)
      × ((trim b).end_offset ≡ b.end_offset)
unfolding trim
trim-kept stream b le kept = by_test (Bool-cases (excess == 0))
  where
    excess : ℕ
    excess = length b.bytes - b.limit

    rest : List ℕ
    rest = drop excess b.bytes

    skipped : ℕ
    skipped = (skip_continuation rest).1

    whole : length b.bytes ≡ length stream - b.base_offset
    whole = ap length kept ∙ length-drop b.base_offset stream

    by_test :
        ((excess == 0) ≡ true) ⊎ ((excess == 0) ≡ false)
        → ((trim b).base_offset ≤ length stream)
          × ((trim b).bytes ≡ drop (trim b).base_offset stream)
          × (length (trim b).bytes ≤ b.limit)
          × ((trim b).limit ≡ b.limit)
          × ((trim b).end_offset ≡ b.end_offset)
    by_test (inl fits) = rw (fits, trim) (le, kept, ground arith, refl, refl)
    by_test (inr long) =
        let (e, s_le) = skip_continuation-drop rest in
        let rest_len = length-drop excess b.bytes in
        rw (long, trim)
          (
            omega (arith, s_le, rest_len, whole),
            e
                ∙ drop-drop skipped excess b.bytes
                ∙ ap (drop (excess + skipped)) kept
                ∙ drop-drop (excess + skipped) b.base_offset stream
                ∙ ap (λ n. drop n stream) (sym (add_assoc b.base_offset excess skipped)),
            omega (arith, ap (length {A = ℕ}) e, length-drop skipped rest, rest_len),
            refl,
            refl,
          )

trim-limit : (b : OutputBuffer) → (trim b).limit ≡ b.limit
unfolding trim
trim-limit b = ground arith

length-last_four : (bs : List ℕ) → length (last_four bs) ≤ length bs
unfolding last_four
length-last_four bs = omega (arith, length-drop (length bs - 4) bs)

module _ (u : Utf8) where
  open u use {held_back, held_back_le}

  -- Appending extends the stream, and the buffer still holds its end.
  pub append-IsTail :
      (stream chunk : List ℕ) (b : OutputBuffer)
      → IsTail stream b
      → IsTail (stream ++ chunk) (append u chunk b)
  unfolding append
  append-IsTail stream [] b h = subst (λ s. IsTail s b) (sym (append-nil stream)) h
  append-IsTail stream (c ∷ cs) b h =
      let chunk = c ∷ cs in
      let longer = record b {
        bytes = b.bytes ++ chunk;
        end_offset = b.end_offset + length chunk;
      } in
      let longer_len = length-append stream chunk in
      let (base_le, kept, fits, _, end) =
        trim-kept (stream ++ chunk) longer (omega (arith, h.base_le, longer_len))
          (ap (λ l. l ++ chunk) h.kept ∙ sym (drop-append b.base_offset stream chunk h.base_le)) in
      let bytes = (trim longer).bytes in
      record {
        end = end ∙ omega (arith, h.end, longer_len);
        base_le = base_le;
        kept = kept;
        fits = omega (arith, fits, trim-limit longer);
        pending_le = omega (arith, held_back_le (last_four bytes), length-last_four bytes);
      }

  -- A run of appends.
  unfoldable pub append_all : List (List ℕ) → OutputBuffer → OutputBuffer
  append_all [] b = b
  append_all (chunk ∷ chunks) b = append_all chunks (append u chunk b)

  append_all-IsTail :
      (chunks : List (List ℕ)) (stream : List ℕ) (b : OutputBuffer)
      → IsTail stream b
      → IsTail (stream ++ flatten chunks) (append_all chunks b)
  unfolding append_all flatten
  append_all-IsTail [] stream b h = subst (λ s. IsTail s b) (sym (append-nil stream)) h
  append_all-IsTail (chunk ∷ chunks) stream b h =
      subst (λ s. IsTail s (append_all chunks (append u chunk b)))
        (append_assoc stream chunk (flatten chunks))
        (append_all-IsTail chunks (stream ++ chunk) (append u chunk b)
          (append-IsTail stream chunk b h))

  -- From a new buffer of any accepted limit, after any appends: the buffer holds the bytes of the
  -- whole output from `base_offset` to its end and no others, `end_offset` is the length of the
  -- output, the bytes held are within the limit, and those withheld are among them.
  pub append_all-init :
      (limit : ℕ) (b : OutputBuffer) (chunks : List (List ℕ))
      → init limit ≡ some b
      → IsTail (flatten chunks) (append_all chunks b)
  unfolding init flatten
  append_all-init limit b chunks e = append_all-IsTail chunks [] b (
      subst (IsTail []) new_is (record {
        end = refl;
        base_le = omega arith;
        kept = refl;
        fits = omega arith;
        pending_le = omega arith;
      }))
    where
      new_is :
          ◌≡◌ {A = OutputBuffer}
            (record { limit = limit; bytes = []; base_offset = 0; end_offset = 0; pending_len = 0 })
            b
      new_is = ground arith

-- ===== src/LogCenter/Lines.antt =====
-- What `_LineBuffer` keeps of the lines that were pushed.
use rkcockpit.Common.{
  Bool-cases, List, [], ap, append-nil, append_assoc, ap₂, arith, drop, drop-append, drop-drop,
  drop-length, drop-nil, false, filter, inl, inr, length, length-append, length-drop, ltb, ltb→le,
  lt→ltb, max, refl, subst, suc, sym, take, take-append-drop, zero, ℕ, ◌++◌, ◌+◌, ◌-◌, ◌∙◌, ◌∷◌,
  ◌≡◌, ◌≤◌, ◌⊎◌,
}
use rkcockpit.LogCenter.{Line, LineBuffer, init, append, evict, cut, push, since, enumerate}

unfoldable pub push_all : List Line → LineBuffer → LineBuffer
unfolding push
push_all [] b = b
push_all (l ∷ ls) b = push_all ls (push l b)

-- The characters of the lines.
unfoldable pub size : List Line → ℕ
size [] = 0
size (l ∷ ls) = length l.text + size ls

unfoldable pub cut_all : List Line → List Line
unfolding cut
cut_all [] = []
cut_all (l ∷ ls) = cut l ∷ cut_all ls

size-append : (xs ys : List Line) → size (xs ++ ys) ≡ size xs + size ys
unfolding size
size-append [] ys = omega arith
size-append (x ∷ xs) ys = omega (arith, size-append xs ys)

cut_all-append : (xs ys : List Line) → cut_all (xs ++ ys) ≡ cut_all xs ++ cut_all ys
unfolding cut_all
cut_all-append [] ys = refl
cut_all-append (x ∷ xs) ys = ap (λ r. cut x ∷ r) (cut_all-append xs ys)

-- What `push` took off the head of the lines `xs` with the counter at `n`.
record Evicted (m : ℕ) (xs : List Line) (n : ℕ) (kept : List Line × ℕ) : Type 0 where
  gone : List Line
  whole : xs ≡ gone ++ kept.0
  paid : kept.1 + size gone ≡ n
  fits : (kept.1 ≤ m) ⊎ (length kept.0 ≤ 1)

evict-Evicted : (m : ℕ) (xs : List Line) (n : ℕ) → size xs ≤ n → Evicted m xs n (evict m xs n)
unfolding evict size
evict-Evicted m [] n h = record {
  gone = [];
  whole = refl;
  paid = omega arith;
  fits = inr (omega arith);
}
evict-Evicted m (x ∷ []) n h = record {
  gone = [];
  whole = refl;
  paid = omega arith;
  fits = inr (omega arith);
}
evict-Evicted m (x ∷ y ∷ rest) n h = elim (Bool-cases (ltb m n)) [
  | inr low ↦
      rw (low, evict)
        (record { gone = []; whole = refl; paid = omega arith; fits = inl (ltb→le m n low) })
  | inl high ↦
      rw (high, evict) (more (evict-Evicted m (y ∷ rest) (n - length x.text) (omega (arith, h))))
]
  where
    more :
        Evicted m (y ∷ rest) (n - length x.text) (evict m (y ∷ rest) (n - length x.text))
        → Evicted m (x ∷ y ∷ rest) n (evict m (y ∷ rest) (n - length x.text))
    more e = record {
      gone = x ∷ e.gone;
      whole = ap (λ r. x ∷ r) e.whole;
      paid = omega (arith, e.paid, h);
      fits = e.fits;
    }

-- The lines that the deque drops for a new one, by itself.
unfoldable pub displaced : Line → LineBuffer → List Line
unfolding cut
displaced line b = let longer = b.buf ++ cut line ∷ [] in take (length longer - b.max_lines) longer

append-displaced :
    (line : Line) (b : LineBuffer)
    → displaced line b ++ append (cut line) b ≡ b.buf ++ cut line ∷ []
unfolding displaced append
append-displaced line b =
    take-append-drop (length (b.buf ++ cut line ∷ []) - b.max_lines) (b.buf ++ cut line ∷ [])

-- A buffer whose lines are the last of those pushed, `all`, and whose counter covers them.
pub record IsSound (all : List Line) (b : LineBuffer) : Type 0 where
  pub older : List Line
  pub split : all ≡ older ++ b.buf
  pub counted : b.seq ≡ length all
  pub covered : size b.buf ≤ b.bytes
  pub bounded : length b.buf ≤ b.max_lines

length-append_le : (line : Line) (b : LineBuffer) → length (append line b) ≤ b.max_lines
unfolding append
length-append_le line b =
    omega (arith, length-drop (length (b.buf ++ line ∷ []) - b.max_lines) (b.buf ++ line ∷ []))

size-displaced :
    (line : Line) (b : LineBuffer)
    → size (displaced line b) + size (append (cut line) b) ≡ size b.buf + length (cut line).text
unfolding size
size-displaced line b =
    sym (size-append (displaced line b) (append (cut line) b))
    ∙ ap size (append-displaced line b)
    ∙ size-append b.buf (cut line ∷ [])
    ∙ omega arith

push-Evicted :
    (line : Line) (b : LineBuffer)
    → size b.buf ≤ b.bytes
    → Evicted b.max_bytes
        (append (cut line) b)
        (b.bytes + length (cut line).text)
        ((push line b).buf, (push line b).bytes)
unfolding push
push-Evicted line b h =
    evict-Evicted b.max_bytes (append (cut line) b) (b.bytes + length (cut line).text)
      (omega (arith, size-displaced line b))

push-seq : (line : Line) (b : LineBuffer) → (push line b).seq ≡ b.seq + 1
unfolding push
push-seq line b = refl

push-max : (line : Line) (b : LineBuffer) → (push line b).max_lines ≡ b.max_lines
unfolding push
push-max line b = refl

push_all-limits :
    (lines : List Line) (b : LineBuffer)
    → ((push_all lines b).max_lines ≡ b.max_lines) × ((push_all lines b).max_bytes ≡ b.max_bytes)
unfolding push_all push
push_all-limits [] b = (refl, refl)
push_all-limits (l ∷ lines) b = push_all-limits lines (push l b)

pub push-IsSound :
    (all : List Line) (line : Line) (b : LineBuffer)
    → IsSound all b
    → IsSound (all ++ cut line ∷ []) (push line b)
push-IsSound all line b h = kept (push-Evicted line b h.covered)
  where
    longer : List Line
    longer = append (cut line) b

    kept :
        Evicted b.max_bytes longer
          (b.bytes + length (cut line).text)
          ((push line b).buf, (push line b).bytes)
        → IsSound (all ++ cut line ∷ []) (push line b)
    kept e = record {
      older = h.older ++ (displaced line b ++ e.gone);
      split =
          rw
            (
              h.split,
              append_assoc h.older b.buf (cut line ∷ []),
              sym (append-displaced line b),
              e.whole,
              append_assoc h.older (displaced line b ++ e.gone) (push line b).buf,
              append_assoc (displaced line b) e.gone (push line b).buf,
            )
            refl;
      counted = omega (arith, h.counted, push-seq line b, length-append all (cut line ∷ []));
      covered = omega (
        arith,
        e.paid,
        h.covered,
        size-displaced line b,
        ap size e.whole ∙ size-append e.gone (push line b).buf,
      );
      bounded = omega (
        arith,
        length-append_le (cut line) b,
        ap length e.whole ∙ length-append e.gone (push line b).buf,
        push-max line b,
      );
    }

le→ltb : (s n : ℕ) → n ≤ s → ltb s n ≡ false
le→ltb s n h = ground arith

-- The numbered elements whose number is above `s`.
numbers_above {ℓ} :
    {A : Type ℓ} (s start d : ℕ) (xs : List A)
    → suc s - start ≡ d
    → filter (λ e. ltb s e.0) (enumerate start xs) ≡ enumerate (start + d) (drop d xs)
unfolding enumerate
numbers_above s start d [] e = sym (ap (enumerate (start + d)) (drop-nil d))
numbers_above s start zero (x ∷ xs) e = rw (lt→ltb s start (omega (arith, e))) (
    ap₂ (λ i r. (i, x) ∷ r) (omega arith)
      (numbers_above s (start + 1) 0 xs (omega (arith, e))
        ∙ ap (λ i. enumerate i xs) (omega arith)))
numbers_above s start (suc d) (x ∷ xs) e = rw (le→ltb s start (omega (arith, e))) (
    numbers_above s (start + 1) d xs (omega (arith, e))
    ∙ ap (λ i. enumerate i (drop d xs)) (omega arith))

drop-older :
    (all : List Line) (b : LineBuffer)
    → IsSound all b
    → drop (length all - length b.buf) all ≡ b.buf
drop-older all b h =
    ap₂ drop (omega (arith, ap length h.split, length-append h.older b.buf)) h.split
    ∙ drop-append (length h.older) h.older b.buf (omega arith)
    ∙ ap (λ r. r ++ b.buf) (drop-length h.older)

since-IsSound :
    (all : List Line) (s : ℕ) (b : LineBuffer)
    → IsSound all b
    → let k = max s (length all - length b.buf) in
      since s b ≡ (length all, enumerate (k + 1) (drop k all))
unfolding since
since-IsSound all s b h =
    ap₂ (λ n l. (n, l)) h.counted
      (ap (λ n. filter (λ e. ltb s e.0) (enumerate (n - length b.buf + 1) b.buf)) h.counted
        ∙ numbers_above s (lost + 1) (s - lost) b.buf (omega arith)
        ∙ ap₂ enumerate (omega arith) (
            ap (drop (s - lost)) (sym (drop-older all b h))
            ∙ drop-drop (s - lost) lost all
            ∙ ap (λ n. drop n all) (omega arith)))
  where
    lost : ℕ
    lost = length all - length b.buf

pub push_all-IsSound :
    (all lines : List Line) (b : LineBuffer)
    → IsSound all b
    → IsSound (all ++ cut_all lines) (push_all lines b)
unfolding push_all cut_all
push_all-IsSound all [] b h = rw (append-nil all) h
push_all-IsSound all (l ∷ lines) b h =
    subst (λ xs. IsSound xs (push_all lines (push l b)))
      (append_assoc all (cut l ∷ []) (cut_all lines))
      (push_all-IsSound (all ++ cut l ∷ []) lines (push l b) (push-IsSound all l b h))

init-limits :
    (max_lines max_bytes : ℕ)
    → ((init max_lines max_bytes).max_lines ≡ max_lines)
      × ((init max_lines max_bytes).max_bytes ≡ max_bytes)
unfolding init
init-limits max_lines max_bytes = (refl, refl)

pub init-IsSound : (max_lines max_bytes : ℕ) → IsSound [] (init max_lines max_bytes)
unfolding init size
init-IsSound max_lines max_bytes = record {
  older = [];
  split = refl;
  counted = refl;
  covered = omega arith;
  bounded = omega arith;
}

length-cut_all : (lines : List Line) → length (cut_all lines) ≡ length lines
unfolding cut_all
length-cut_all [] = refl
length-cut_all (l ∷ lines) = ap suc (length-cut_all lines)

-- After any lines were pushed to a new buffer, at most `max_lines` are kept, and `since` gives the
-- number of the last line with every line after the first k, cut and numbered in order: k is the
-- caller's number, or that of the lines that the buffer has lost if it is more.
pub since-numbered :
    (max_lines max_bytes s : ℕ) (lines : List Line)
    → let b = push_all lines (init max_lines max_bytes) in
      let k = max s (length lines - length b.buf) in
      (length b.buf ≤ max_lines)
      × (since s b ≡ (length lines, enumerate (k + 1) (drop k (cut_all lines))))
since-numbered max_lines max_bytes s lines =
    let b = push_all lines (init max_lines max_bytes) in
    let h =
      push_all-IsSound [] lines (init max_lines max_bytes) (init-IsSound max_lines max_bytes) in
    (
      omega (
        arith,
        h.bounded,
        (push_all-limits lines (init max_lines max_bytes)).0,
        (init-limits max_lines max_bytes).0,
      ),
      rw (sym (length-cut_all lines)) (since-IsSound (cut_all lines) s b h),
    )

push-IsSound_bytes :
    (all : List Line) (line : Line) (b : LineBuffer)
    → IsSound all b
    → let c = push line b in
      (c.bytes + size b.buf ≡ size c.buf + b.bytes + size (displaced line b))
      × ((c.bytes ≤ b.max_bytes) ⊎ (length c.buf ≤ 1))
push-IsSound_bytes all line b h =
    let e = push-Evicted line b h.covered in
    (
      omega (
        arith,
        e.paid,
        size-displaced line b,
        h.covered,
        ap size e.whole ∙ size-append e.gone (push line b).buf,
      ),
      e.fits,
    )

-- After any lines were pushed to a new buffer, one more push pays the counter for every line that
-- goes, but not for the line that a full deque drops by itself: its characters stay on the counter.
-- The counter is then within the limit, or one line is left.
pub push-bytes :
    (max_lines max_bytes : ℕ) (lines : List Line) (line : Line)
    → let b = push_all lines (init max_lines max_bytes) in
      let c = push line b in
      (c.bytes + size b.buf ≡ size c.buf + b.bytes + size (displaced line b))
      × ((c.bytes ≤ max_bytes) ⊎ (length c.buf ≤ 1))
push-bytes max_lines max_bytes lines line =
    let fresh = init max_lines max_bytes in
    let h = push_all-IsSound [] lines fresh (init-IsSound max_lines max_bytes) in
    let same : (push_all lines fresh).max_bytes ≡ max_bytes =
      (push_all-limits lines fresh).1 ∙ (init-limits max_lines max_bytes).1 in
    let e = push-IsSound_bytes (cut_all lines) line (push_all lines fresh) h in
    (
      e.0,
      subst
          (λ m.
            ((push line (push_all lines fresh)).bytes ≤ m)
            ⊎ (length (push line (push_all lines fresh)).buf ≤ 1))
          same e.1,
    )

-- ===== src/LogCenter/Polling.antt =====
-- What a follower pushes of a file that grows.
use rkcockpit.Common.{
  Bool, Bool-cases, List, [], ap, append-nil, arith, drop, drop-append, drop-length, filter,
  if◌then◌else◌, inl, inr, length, length-append, ltb, max, refl, some, sym, ℕ, ◌++◌, ◌+◌, ◌-◌, ◌<◌,
  ◌∙◌, ◌∷◌, ◌≡◌, ◌≤◌,
}
use rkcockpit.LogCenter.{
  Line, LineBuffer, Follower, Tail, printed, max_new_per_tick, tick, read_new, push_matching, push,
}
use rkcockpit.LogCenter.Lines.{push_all}

unfoldable pub stamp : ℕ → List (List ℕ) → List Line
stamp now [] = []
stamp now (ln ∷ lns) = record { ts = now; text = ln } ∷ stamp now lns

push_matching-push_all :
    (is_match : List ℕ → Bool) (now : ℕ) (lns : List (List ℕ)) (b : LineBuffer)
    → push_matching is_match now lns b ≡ push_all (stamp now (filter is_match lns)) b
unfolding push_matching push_all stamp
push_matching-push_all is_match now [] b = refl
push_matching-push_all is_match now (ln ∷ lns) b = elim (Bool-cases (is_match ln)) [
  | inl lets ↦
      rw lets (push_matching-push_all is_match now lns (push (record { ts = now; text = ln }) b))
  | inr stops ↦ rw stops (push_matching-push_all is_match now lns b)
]

-- `tail -n +first` on a file with these lines.
unfoldable pub tail_of : List (List ℕ) → ℕ → Tail
tail_of file first = printed (drop (first - 1) file)

-- The lines of a round that starts after the first `from` lines.
unfoldable pub fresh_lines : (List ℕ → Bool) → ℕ → ℕ → List (List ℕ) → List Line
unfolding stamp
fresh_lines is_match now from file = stamp now (filter is_match (drop from file))

first-line :
    (last total : ℕ)
    → (if ltb max_new_per_tick (total - last) then total - max_new_per_tick + 1 else last + 1) - 1
      ≡ max last (total - max_new_per_tick)
first-line last total = ground arith

read_new-lines :
    (is_match : List ℕ → Bool) (now total : ℕ) (file : List (List ℕ)) (f : Follower)
    → read_new is_match now total (tail_of file) f ≡ record f {
      last = total;
      buffer =
          push_all (fresh_lines is_match now (max f.last (total - max_new_per_tick)) file) f.buffer;
    }
unfolding read_new tail_of fresh_lines
read_new-lines is_match now total file f = rw (first-line f.last total) (
    ap (λ b. record f { last = total; buffer = b })
      (push_matching-push_all is_match now (drop (max f.last (total - max_new_per_tick)) file)
        f.buffer))

tick-grown :
    (is_match : List ℕ → Bool) (now total : ℕ) (tail_from : ℕ → Tail) (f : Follower)
    → f.last < total
    → tick is_match now (some total) tail_from f ≡ read_new is_match now total tail_from f
unfolding tick
tick-grown is_match now total tail_from f h = ground (arith, h)

tick-same :
    (is_match : List ℕ → Bool) (now : ℕ) (tail_from : ℕ → Tail) (f : Follower)
    → tick is_match now (some f.last) tail_from f ≡ f
unfolding tick
tick-same is_match now tail_from f = ground arith

drop-late : (file late : List (List ℕ)) → drop (length file) (file ++ late) ≡ late
drop-late file late =
    drop-append (length file) file late (omega arith) ∙ ap (λ r. r ++ late) (drop-length file)

again :
    (is_match : List ℕ → Bool) (later : ℕ) (file late : List (List ℕ)) (g : Follower)
    → g.last ≡ length file
    → length late ≤ max_new_per_tick
    → (tick is_match later (some (length (file ++ late))) (tail_of (file ++ late)) g).buffer
      ≡ push_all (stamp later (filter is_match late)) g.buffer
unfolding stamp push_all fresh_lines
again is_match later file [] g e few =
    ap (λ n. (tick is_match later (some n) (tail_of (file ++ [])) g).buffer)
      (ap length (append-nil file) ∙ sym e)
    ∙ ap (λ t. t.buffer) (tick-same is_match later (tail_of (file ++ [])) g)
again is_match later file (ln ∷ late) g e few =
    let both = file ++ ln ∷ late in
    let more = length-append file (ln ∷ late) in
    ap (λ t. t.buffer)
      (tick-grown is_match later (length both) (tail_of both) g (omega (arith, e, more))
        ∙ read_new-lines is_match later (length both) both g)
    ∙ ap (λ r. push_all (stamp later (filter is_match r)) g.buffer)
        (ap (λ n. drop n both) (omega (arith, e, more, few)) ∙ drop-late file (ln ∷ late))

-- The file has more lines than the follower has read, and gets the lines `late` between its `wc` and
-- its `tail`: that round pushes the matching lines of both after the k that the follower had read or
-- gives up, and the next round, with no other change and at most 2000 late lines, pushes the matching
-- late lines once more.
pub tick-late :
    (is_match : List ℕ → Bool) (now later : ℕ) (file late : List (List ℕ)) (f : Follower)
    → f.last < length file
    → length late ≤ max_new_per_tick
    → let k = max f.last (length file - max_new_per_tick) in
      let both = file ++ late in
      let g = tick is_match now (some (length file)) (tail_of both) f in
      (g.last ≡ length file)
      × (g.buffer ≡ push_all (fresh_lines is_match now k both) f.buffer)
      × ((tick is_match later (some (length both)) (tail_of both) g).buffer
          ≡ push_all (stamp later (filter is_match late)) g.buffer)
tick-late is_match now later file late f h few =
    let both = file ++ late in
    let one =
      tick-grown is_match now (length file) (tail_of both) f h
      ∙ read_new-lines is_match now (length file) both f in
    (
      ap (λ g. g.last) one,
      ap (λ g. g.buffer) one,
      again is_match later file late (tick is_match now (some (length file)) (tail_of both) f)
          (ap (λ g. g.last) one) few,
    )

-- ===== src/Audit/Writes.antt =====
-- What the writes of host/audit/recorder.py, by the writer and by callers, keep of the recorder's books.
use rkcockpit.Common.{
  Bool, List, [], ap, arith, count, count-append, false, length, length-append, none, refl, some,
  true, ℕ, ◌∷◌, ◌≡◌,
}
use rkcockpit.Audit.{Recorder, pull, fall_back, try_write, get}
use rkcockpit.Audit.Books.{IsSound, held, length-flight, count-flight, pull-split}

module _ {A : Type 0} where
  pub fall_back-IsSound :
      (good : Bool) (i : ℕ) (a : A) (rest : List A) (r : Recorder A)
      → pull i r.falling ≡ some (a, rest)
      → IsSound r
      → IsSound (fall_back good a rest r)
  unfolding fall_back
  fall_back-IsSound true i a rest r e h =
      let (long, counts) = pull-split i r.falling rest a e in
      let s = fall_back true a rest r in
      record {
        balance = omega (arith, h.balance, long, length-flight r, length-flight s);
        conserved = λ p. omega (
          arith,
          h.conserved p,
          counts p,
          count-flight p r,
          count-flight p s,
          count-append p r.disk (a ∷ []),
        );
        wrote = omega (arith, h.wrote, length-append r.disk (a ∷ []));
        gave = h.gave;
        bounded = h.bounded;
        shown = h.shown;
        quiet = λ stops. ((h.quiet stops).0, omega (arith, (h.quiet stops).1));
        healthy = λ well. ground (arith, h.healthy);
      }
  fall_back-IsSound false i a rest r e h =
      let (long, counts) = pull-split i r.falling rest a e in
      let s = fall_back false a rest r in
      record {
        balance = omega (arith, h.balance, long, length-flight r, length-flight s);
        conserved = λ p. omega (
          arith,
          h.conserved p,
          counts p,
          count-flight p r,
          count-flight p s,
          count-append p r.lost (a ∷ []),
        );
        wrote = h.wrote;
        gave = omega (arith, h.gave, length-append r.lost (a ∷ []));
        bounded = h.bounded;
        shown = h.shown;
        quiet = λ stops. ((h.quiet stops).0, omega (arith, (h.quiet stops).1));
        healthy = λ well. absurd (ground arith);
      }

  pub try_write-IsSound :
      (good : Bool) (a : A) (r : Recorder A)
      → r.writing ≡ some a
      → IsSound r
      → IsSound (try_write good a r)
  unfolding try_write
  try_write-IsSound true a r e h =
      let s = try_write true a r in
      record {
        balance =
            omega (arith, h.balance, ap (λ o. length (held o)) e, length-flight r, length-flight s);
        conserved = λ p. omega (
          arith,
          h.conserved p,
          ap (λ o. count p (held o)) e,
          count-flight p r,
          count-flight p s,
          count-append p r.disk (a ∷ []),
        );
        wrote = omega (arith, h.wrote, length-append r.disk (a ∷ []));
        gave = h.gave;
        bounded = h.bounded;
        shown = h.shown;
        quiet = λ stops. ((h.quiet stops).0, omega (arith, (h.quiet stops).1));
        healthy = λ well. ground (arith, h.healthy);
      }
  try_write-IsSound false a r e h = record {
    balance = h.balance;
    conserved = h.conserved;
    wrote = h.wrote;
    gave = h.gave;
    bounded = h.bounded;
    shown = h.shown;
    quiet = h.quiet;
    healthy = λ well. absurd (ground arith);
  }

  pub get-IsSound : (r : Recorder A) → r.writing ≡ none → IsSound r → IsSound (get r.queue r)
  unfolding get
  get-IsSound r e h = go r.queue refl
    where
      go : (q : List A) → r.queue ≡ q → IsSound (get q r)
      go [] eq = h
      go (a ∷ rest) eq =
          let s : Recorder A = record r { queue = rest; writing = some a } in
          record {
            balance = omega (
              arith,
              h.balance,
              ap length eq,
              ap (λ o. length (held o)) e,
              length-flight r,
              length-flight s,
            );
            conserved = λ p. omega (
              arith,
              h.conserved p,
              ap (count p) eq,
              ap (λ o. count p (held o)) e,
              count-flight p r,
              count-flight p s,
            );
            wrote = h.wrote;
            gave = h.gave;
            bounded = omega (arith, h.bounded, ap length eq);
            shown = h.shown;
            quiet = h.quiet;
            healthy = h.healthy;
          }

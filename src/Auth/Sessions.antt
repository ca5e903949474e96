-- ===== src/Auth/Sessions.antt =====
-- Sessions of host/core/auth.py.
use rkcockpit.Common.{
  suc, ◌*◌, ◌||◌, ◌≤◌, ◌↔◌, Bool-cases, All, Bool, List, Option, Option-cases, [], ap, arith, false,
  inl, inr, leb, none, refl, some, true, ℕ, ◌&&◌, ◌++◌, ◌+◌, ◌==◌, ◌∙◌, ◌∷◌, ◌≡◌,
}
use rkcockpit.Common.Result.{Result, ok, raised, ok_injective}
use rkcockpit.Common.Int.{ℤ, pos, negsuc}
use rkcockpit.Auth.{
  not, ltb, Platform, TokenAuth, Fault, is_ascii, same_text, compare_digest, partition, is_early,
  is_late, is_signed, verify_session, session, session_seconds, dot,
}

is_ascii-All : (xs : List ℕ) → All (λ c. ltb c 128 ≡ true) xs → is_ascii xs ≡ true
unfolding is_ascii
is_ascii-All [] h = refl
is_ascii-All (x ∷ xs) h = ground (arith, h.0, is_ascii-All xs h.1)

same_text_refl : (xs : List ℕ) → same_text xs xs ≡ true
unfolding same_text
same_text_refl [] = refl
same_text_refl (x ∷ xs) = ground (arith, same_text_refl xs)

same_text-eq : (xs ys : List ℕ) → same_text xs ys ≡ true → xs ≡ ys
unfolding same_text
same_text-eq [] [] h = refl
same_text-eq [] (y ∷ ys) h = absurd (ground arith)
same_text-eq (x ∷ xs) [] h = absurd (ground arith)
same_text-eq (x ∷ xs) (y ∷ ys) h = ground (arith, same_text-eq xs ys)

compare_digest_refl : (xs : List ℕ) → is_ascii xs ≡ true → compare_digest xs xs ≡ ok true
unfolding compare_digest
compare_digest_refl xs h = rw (h, same_text_refl xs) refl

raised≢ok : (e : Fault) (b : Bool) → ◌≡◌ {A = Result Fault Bool} (raised e) (ok b) → ⊥
raised≢ok e b h = cc

compare_digest-eq : (xs ys : List ℕ) → compare_digest xs ys ≡ ok true → xs ≡ ys
unfolding compare_digest
compare_digest-eq xs ys h = elim (Bool-cases (is_ascii xs && is_ascii ys)) [
  | inl plain ↦ same_text-eq xs ys (ok_injective _ _ (rw plain at h))
  | inr other ↦ absurd (raised≢ok _ _ (rw other at h))
]

partition-append :
    (xs ys : List ℕ)
    → All (λ c. (c == dot) ≡ false) xs
    → partition (xs ++ dot ∷ ys) ≡ (xs, (true, ys))
unfolding partition
partition-append [] ys h = refl
partition-append (x ∷ xs) ys (e, h) = rw (e, partition-append xs ys h) refl

partition-back :
    (cs : List ℕ) → (partition cs).1.0 ≡ true → cs ≡ (partition cs).0 ++ dot ∷ (partition cs).1.1
unfolding partition
partition-back [] h = absurd (ground arith)
partition-back (c ∷ cs) h = ground (arith, partition-back cs)

ok_false : ◌≡◌ {A = Result Fault Bool} (ok false) (ok true) → ⊥
ok_false h = absurd (ground (arith, ok_injective {E = Fault} false true h))

is_signed-own :
    (p : Platform) (token : List ℕ) (issued now : ℕ)
    → is_signed p now token true (p.mac token (pos issued)) (some (pos issued))
      ≡ ok (leb issued (now + 60) && leb now (issued + session_seconds))
unfolding is_signed is_early is_late
is_signed-own p token issued now =
    let mac = p.mac token (pos issued) in
    rw (compare_digest_refl mac (is_ascii-All mac (p.mac_ascii token (pos issued)))) (ground arith)

-- The session that a login at `issued` gives is accepted exactly from a minute before that time to
-- eight hours after it, by the clock.
pub verify_session-session :
    (p : Platform) (token : List ℕ) (auth : TokenAuth) (issued now : ℕ)
    → auth.token ≡ some token
    → verify_session p now (session p issued token) auth
      ≡ ok (leb issued (now + 60) && leb now (issued + session_seconds))
unfolding verify_session session
verify_session-session p token auth issued now e =
    rw
      (
        e,
        verify_session,
        session,
        partition-append (p.show issued) (p.mac token (pos issued)) (p.show_no_dot issued),
        p.int_of_show issued,
      )
      (is_signed-own p token issued now)

-- At most a minute ahead of the clock, and at most eight hours behind it.
abbrev pub IsInTime : ℕ → ℤ → Type 0
IsInTime now (pos issued) = (issued ≤ now + 60) × (now ≤ issued + 8 * 3600)
IsInTime now (negsuc n) = now + suc n ≤ 8 * 3600

-- What a candidate that is accepted is: a number, a dot, and the signature of that number.
pub record IsIssued (p : Platform) (now : ℕ) (token candidate : List ℕ) : Type 0 where
  pub raw : List ℕ
  pub issued : ℤ
  pub no_dot : All (λ c. (c == dot) ≡ false) raw
  pub parsed : p.int_of raw ≡ some issued
  pub text : candidate ≡ raw ++ dot ∷ p.mac token issued
  pub in_time : IsInTime now issued

not_late-IsInTime :
    (now : ℕ) (issued : ℤ)
    → (is_early now issued || is_late now issued) ≡ false
    → IsInTime now issued
unfolding is_early is_late
not_late-IsInTime now (pos issued) h = (ground arith, ground arith)
not_late-IsInTime now (negsuc n) h = ground arith

IsInTime-not_late :
    (now : ℕ) (issued : ℤ)
    → IsInTime now issued
    → (is_early now issued || is_late now issued) ≡ false
unfolding is_early is_late
IsInTime-not_late now (pos issued) (early, late) = ground arith
IsInTime-not_late now (negsuc n) h = ground arith

is_signed-parts :
    (p : Platform) (now : ℕ) (token : List ℕ) (sep : Bool) (supplied : List ℕ) (o : Option ℤ)
    → is_signed p now token sep supplied o ≡ ok true
    → (sep ≡ true)
      × ((issued : ℤ) × (o ≡ some issued) × IsInTime now issued × (supplied ≡ p.mac token issued))
unfolding is_signed
is_signed-parts p now token sep supplied none h = absurd (ok_false h)
is_signed-parts p now token sep supplied (some issued) h =
    elim (Bool-cases (not sep || is_early now issued || is_late now issued)) [
      | inl bad ↦ absurd (ok_false (rw bad at h))
      | inr good ↦ (
        ground arith,
        (
          issued,
          refl,
          not_late-IsInTime now issued (ground arith),
          compare_digest-eq supplied (p.mac token issued) (rw good at h),
        ),
      )
    ]

partition-no_dot : (cs : List ℕ) → All (λ c. (c == dot) ≡ false) (partition cs).0
unfolding partition
partition-no_dot [] = tt
partition-no_dot (c ∷ cs) = elim (Bool-cases (c == dot)) [
  | inl here ↦ rw (here, partition) tt
  | inr other ↦ rw (other, partition) (other, partition-no_dot cs)
]

abbrev pub IsOwnSession : Platform → ℕ → List ℕ → TokenAuth → Type 0
IsOwnSession p now candidate auth =
    (token : List ℕ) × (auth.token ≡ some token) × IsIssued p now token candidate

accepted-IsOwnSession :
    (p : Platform) (now : ℕ) (candidate : List ℕ) (auth : TokenAuth)
    → verify_session p now candidate auth ≡ ok true
    → IsOwnSession p now candidate auth
unfolding verify_session
accepted-IsOwnSession p now candidate auth h = elim (Option-cases auth.token) [
  | inl e ↦ absurd (ok_false (rw (e, verify_session) at h))
  | inr (token, e) ↦
      let accepted : is_signed p now token (partition candidate).1.0 (partition candidate).1.1
            (p.int_of (partition candidate).0)
          ≡ ok true =
        rw (e, verify_session) at h in
      let (s, (issued, parsed, in_time, digest)) = is_signed-parts p now token _ _ _ accepted in
      (
        token,
        e,
        record {
          raw = (partition candidate).0;
          issued = issued;
          no_dot = partition-no_dot candidate;
          parsed = parsed;
          text = partition-back candidate s ∙ ap (λ d. (partition candidate).0 ++ dot ∷ d) digest;
          in_time = in_time;
        },
      )
]

IsOwnSession-accepted :
    (p : Platform) (now : ℕ) (candidate : List ℕ) (auth : TokenAuth)
    → IsOwnSession p now candidate auth
    → verify_session p now candidate auth ≡ ok true
unfolding verify_session is_signed
IsOwnSession-accepted p now candidate auth (token, e, i) =
    let mac = p.mac token i.issued in
    rw
      (
        e,
        i.text,
        partition-append i.raw mac i.no_dot,
        i.parsed,
        IsInTime-not_late now i.issued i.in_time,
      )
      (compare_digest_refl mac (is_ascii-All mac (p.mac_ascii token i.issued)))

-- A candidate is accepted exactly when there is a token and the candidate is a text without a dot that
-- `int` reads as a number, a dot, and the signature of that number with the token, and the number is at
-- most 60 seconds ahead of the clock and at most 8 * 3600 seconds behind it.
pub verify_session-IsIssued :
    (p : Platform) (now : ℕ) (candidate : List ℕ) (auth : TokenAuth)
    → (verify_session p now candidate auth ≡ ok true) ↔ IsOwnSession p now candidate auth
verify_session-IsIssued p now candidate auth =
    (accepted-IsOwnSession p now candidate auth, IsOwnSession-accepted p now candidate auth)

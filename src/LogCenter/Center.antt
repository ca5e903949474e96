-- ===== src/LogCenter/Center.antt =====
-- `LogCenter` of host/service/logcenter.py: which followers run, under any calls and any progress of `close`.
-- Followers are numbered as they start; that one was stopped means that `stop` was called on it.
use rkcockpit.Common.{
  Bool, Bool-cases, List, Option, String, [], arith, count, count-append, false, if◌then◌else◌, inl,
  inr, is_nonempty, ltb, none, not, refl, some, str_eq, true, ℕ, ◌&&◌, ◌++◌, ◌+◌, ◌==◌, ◌∷◌, ◌≡◌,
  eq_iff, ap, ◌∙◌, sym, eq_refl,
}
use rkcockpit.Common.Dict.{
  Dict, NodupKeys, append-NodupKeys, erase, erase-NodupKeys, erase-absent, lookup, lookup-erase,
}

abbrev pub journal_source : String
journal_source = "journalctl"

-- `default_source`: the first source that can be read and is a file.
unfoldable pub default_source : List (String × Bool) → Option String
default_source [] = none
default_source ((path, accessible) ∷ sources) =
    let rest = default_source sources in
    if accessible && not (str_eq path journal_source) then some path else rest

-- The state, with the followers that `close` has taken and not yet stopped, those that were stopped, and
-- how many were started.
pub record Center : Type 0 where
  pub followers : Dict ℕ
  pub is_closed : Bool
  pub closing : List ℕ
  pub stopped : List ℕ
  pub started : ℕ

abbrev pub new_center : Center
new_center = record { followers = []; is_closed = false; closing = []; stopped = []; started = 0 }

unfoldable pub stop_old : Option ℕ → List ℕ → List ℕ
stop_old none stopped = stopped
stop_old (some n) stopped = n ∷ stopped

-- `pop(device_id, None)`, and `stop` if there was one.
unfoldable pub unfollow : String → Center → Center
unfolding stop_old
unfollow device c = record c {
  followers = erase device c.followers;
  stopped = stop_old (lookup device c.followers) c.stopped;
}

-- ValueError and RuntimeError.
pub data Refusal : Type 0 where
  no_source closed_service : Refusal

-- The locked part of `follow`.
unfoldable pub start_follower : String → Center → Center × Option Refusal
unfolding unfollow
start_follower device c =
    if c.is_closed
    then (c, some closed_service)
    else let d = unfollow device c in
      (
        record d { followers = d.followers ++ (device, c.started) ∷ []; started = c.started + 1 },
        none,
      )

unfoldable pub with_source : String → Option String → Center → Center × Option Refusal
unfolding start_follower
with_source device none c = (c, some no_source)
with_source device (some source) c = start_follower device c

-- `follow` with the source of the request, if it is not empty, and the sources that the device has.
unfoldable pub follow : String → String → List (String × Bool) → Center → Center × Option Refusal
unfolding with_source default_source
follow device source sources c =
    with_source device (if str_eq source "" then default_source sources else some source) c

unfoldable pub values : Dict ℕ → List ℕ
values [] = []
values ((k, n) ∷ d) = n ∷ values d

-- The locked part of `close`.
unfoldable pub begin_close : Center → Center
unfolding values
begin_close c =
    if c.is_closed
    then c
    else record c { is_closed = true; closing = values c.followers ++ c.closing; followers = [] }

-- The loop of `close` stops one more.
unfoldable pub stop_next : List ℕ → Center → Center
stop_next [] c = c
stop_next (n ∷ rest) c = record c { closing = rest; stopped = n ∷ c.stopped }

pub data Event : Type 0 where
  follows : String → String → List (String × Bool) → Event
  unfollows : String → Event
  closes stops : Event

unfoldable pub step : Event → Center → Center
unfolding follow unfollow begin_close stop_next
step (follows device source sources) c = (follow device source sources c).0
step (unfollows device) c = unfollow device c
step closes c = begin_close c
step stops c = stop_next c.closing c

unfoldable pub run : List Event → Center → Center
unfolding step
run [] c = c
run (e ∷ events) c = run events (step e c)

-- How often a follower is listed, waits to be stopped, or was stopped.
abbrev pub places : ℕ → Center → ℕ
places n c =
    count (λ m. m == n) (values c.followers)
    + count (λ m. m == n) c.closing
    + count (λ m. m == n) c.stopped

pub record IsSound (c : Center) : Type 0 where
  pub once : (n : ℕ) → places n c ≡ (if ltb n c.started then 1 else 0)
  pub distinct : NodupKeys c.followers
  pub silent : (c.is_closed && is_nonempty c.followers) ≡ false

values-append : (d : Dict ℕ) (k : String) (n : ℕ) → values (d ++ (k, n) ∷ []) ≡ values d ++ n ∷ []
unfolding values
values-append [] k n = refl
values-append ((j, m) ∷ d) k n = ap (λ r. m ∷ r) (values-append d k n)

-- What a device loses, its stopped follower gains.
erase-values :
    (n : ℕ) (k : String) (d : Dict ℕ) (stopped : List ℕ)
    → NodupKeys d
    → count (λ m. m == n) (values (erase k d)) + count (λ m. m == n) (stop_old (lookup k d) stopped)
      ≡ count (λ m. m == n) (values d) + count (λ m. m == n) stopped
unfolding values erase lookup stop_old
erase-values n k [] stopped h = refl
erase-values n k ((j, m) ∷ d) stopped h = elim (Bool-cases (str_eq j k)) [
  | inr other ↦ rw other (omega (arith, erase-values n k d stopped h.1))
  | inl same ↦
      let gone : erase k d ≡ d =
        erase-absent k d (ap (λ x. lookup x d) (sym ((eq_iff j k).0 same)) ∙ h.0) in
      rw same (rw gone (omega arith))
]

silent-erase :
    (shut : Bool) (k : String) (d : Dict ℕ)
    → (shut && is_nonempty d) ≡ false
    → (shut && is_nonempty (erase k d)) ≡ false
unfolding erase
silent-erase shut k [] h = h
silent-erase shut k ((j, m) ∷ d) h = ground arith

unfollow-IsSound : (device : String) (c : Center) → IsSound c → IsSound (unfollow device c)
unfolding unfollow erase
unfollow-IsSound device c h = record {
  once = λ n. omega (arith, h.once n, erase-values n device c.followers c.stopped h.distinct);
  distinct = erase-NodupKeys device c.followers h.distinct;
  silent = silent-erase c.is_closed device c.followers h.silent;
}

start_follower-IsSound :
    (device : String) (c : Center) → IsSound c → IsSound (start_follower device c).0
unfolding start_follower unfollow
start_follower-IsSound device c h = elim (Bool-cases c.is_closed) [
  | inl shut ↦ simp (shut) h
  | inr live ↦ simp (live) (
      let rest : IsSound (unfollow device c) = unfollow-IsSound device c h in
      record {
        once = λ n. rw (values-append (erase device c.followers) device c.started) (
            rw (count-append (λ m. m == n) (values (erase device c.followers)) (c.started ∷ []))
              (ground (arith, rest.once n)));
        distinct =
            append-NodupKeys device c.started (erase device c.followers)
              (ground (arith, lookup-erase device device c.followers, eq_refl device))
              rest.distinct;
        silent = ground arith;
      })
]

begin_close-IsSound : (c : Center) → IsSound c → IsSound (begin_close c)
unfolding begin_close values
begin_close-IsSound c h = elim (Bool-cases c.is_closed) [
  | inl shut ↦ simp (shut) h
  | inr live ↦ simp (live) record {
    once = λ n.
        rw (count-append (λ m. m == n) (values c.followers) c.closing) (omega (arith, h.once n));
    distinct = tt;
    silent = refl;
  }
]

stop_next-IsSound :
    (waiting : List ℕ) (c : Center)
    → waiting ≡ c.closing
    → IsSound c
    → IsSound (stop_next waiting c)
unfolding stop_next
stop_next-IsSound [] c e h = h
stop_next-IsSound (n ∷ rest) c e h = record {
  once = λ m. ground (arith, h.once m, ap (count (λ k. k == m)) e);
  distinct = h.distinct;
  silent = h.silent;
}

with_source-IsSound :
    (device : String) (source : Option String) (c : Center)
    → IsSound c
    → IsSound (with_source device source c).0
unfolding with_source
with_source-IsSound device none c h = h
with_source-IsSound device (some source) c h = start_follower-IsSound device c h

step-IsSound : (e : Event) (c : Center) → IsSound c → IsSound (step e c)
unfolding step follow
step-IsSound (follows device source sources) c h = with_source-IsSound device _ c h
step-IsSound (unfollows device) c h = unfollow-IsSound device c h
step-IsSound closes c h = begin_close-IsSound c h
step-IsSound stops c h = stop_next-IsSound c.closing c refl h

run-IsSound : (events : List Event) (c : Center) → IsSound c → IsSound (run events c)
unfolding run
run-IsSound [] c h = h
run-IsSound (e ∷ events) c h = run-IsSound events (step e c) (step-IsSound e c h)

new_center-IsSound : IsSound new_center
unfolding values
new_center-IsSound = record { once = λ n. ground arith; distinct = tt; silent = refl }

-- From a new log centre, after any requests to follow, to unfollow and to close, and any progress of `close`:
-- each follower that was started is in exactly one of three places, listed for its device, waiting to be
-- stopped by `close`, or stopped, and then only once; no number that was not given out is in any; a device has
-- one listed follower at most; and once the centre is closed none is listed.
pub run-followers : (events : List Event) → IsSound (run events new_center)
run-followers events = run-IsSound events new_center new_center-IsSound

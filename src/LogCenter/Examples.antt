-- ===== src/LogCenter/Examples.antt =====
-- A buffer of two lines and ten characters, and a file of three lines.
use rkcockpit.Common.{
  List, [], arith, false, drop, length, max, refl, some, true, ℕ, ◌++◌, ◌+◌, ◌-◌, ◌∷◌, ◌≡◌, ◌≤◌,
  ◌⊎◌,
}
use rkcockpit.LogCenter
use rkcockpit.LogCenter.{
  LineBuffer, Line, Follower, init, push, since, enumerate, tick, max_new_per_tick,
}
use rkcockpit.LogCenter.Lines.{push_all, cut_all, size, displaced, since-numbered, push-bytes}
use rkcockpit.Common.Dict.{erase, lookup}
use rkcockpit.LogCenter.Center
use rkcockpit.LogCenter.Center.{Event, follows, unfollows, closes, stops, new_center, run-followers}
use rkcockpit.LogCenter.Polling.{stamp, fresh_lines, tail_of, tick-late}

abbrev line : ℕ → Line
line ts = record { ts = ts; text = 97 ∷ 98 ∷ 99 ∷ [] }

abbrev lines : List Line
lines = line 1 ∷ line 2 ∷ line 3 ∷ line 4 ∷ []

-- Two lines of three characters fit, but one is kept.
lines-kept : (push_all lines (init 2 10)).buf ≡ line 4 ∷ []
unfolding push_all init push LogCenter.append LogCenter.evict LogCenter.cut
lines-kept = refl

since-numbered_example :
    let b = push_all lines (init 2 10) in
    let k = max 1 (length lines - length b.buf) in
    (length b.buf ≤ 2) × (since 1 b ≡ (length lines, enumerate (k + 1) (drop k (cut_all lines))))
since-numbered_example = since-numbered 2 10 1 lines

push-bytes_example :
    let b = push_all lines (init 2 10) in
    let c = push (line 5) b in
    (c.bytes + size b.buf ≡ size c.buf + b.bytes + size (displaced (line 5) b))
    × ((c.bytes ≤ 10) ⊎ (length c.buf ≤ 1))
push-bytes_example = push-bytes 2 10 lines (line 5)

abbrev file : List (List ℕ)
file = (97 ∷ []) ∷ (98 ∷ []) ∷ (99 ∷ []) ∷ []

abbrev follower : Follower
follower = record { last = 1; buffer = init 5 100 }

tick-late_example :
    let k = max 1 (length file - max_new_per_tick) in
    let both = file ++ (100 ∷ []) ∷ [] in
    let g = tick (λ ln. true) 5 (some (length file)) (tail_of both) follower in
    (g.last ≡ length file)
    × (g.buffer ≡ push_all (fresh_lines (λ ln. true) 5 k both) follower.buffer)
    × ((tick (λ ln. true) 6 (some (length both)) (tail_of both) g).buffer
        ≡ push_all (stamp 6 ((100 ∷ []) ∷ [])) g.buffer)
tick-late_example =
    tick-late (λ ln. true) 5 6 file ((100 ∷ []) ∷ []) follower (omega arith) (omega arith)

-- The second follower of d1 takes the first one's place, d2 has left, and `close` has stopped one of the two left.
abbrev calls : List Event
calls =
    follows "d1" "/var/log/syslog" []
    ∷ follows "d2" "" (("/var/log/syslog", false) ∷ ("/var/log/dmesg", true) ∷ [])
    ∷ follows "d1" "/var/log/dmesg" []
    ∷ follows "d3" "journalctl" []
    ∷ unfollows "d2"
    ∷ closes
    ∷ stops
    ∷ follows "d4" "/var/log/syslog" []
    ∷ []

calls_places :
    let c = Center.run calls new_center in
    (c.closing ≡ 3 ∷ []) × (c.stopped ≡ 2 ∷ 1 ∷ 0 ∷ []) × (c.started ≡ 4)
unfolding Center.run erase lookup
calls_places = (refl, refl, refl)

run-followers_example : Center.IsSound (Center.run calls new_center)
run-followers_example = run-followers calls

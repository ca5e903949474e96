-- ===== src/Portal/Sse/Examples.antt =====
-- The hub of portal/sse.py with room for three streams, one of them an agent's.
use rkcockpit.Common.{
  List, String, [], count, if◌then◌else◌, length, map, refl, ℕ, ◌+◌, ◌==◌, ◌∷◌, ◌≡◌, ◌≤◌,
}
use rkcockpit.Common.Dict.{Dict, lookup, insert}
use rkcockpit.Scheduler.Tally.{get, bump}
use rkcockpit.Portal.Sse.{Conn, Written, done, timed_out, new_conn, new_hub, broadcast, active_of}
use rkcockpit.Portal.Sse.Books.{is_kind, Within}
use rkcockpit.Portal.Sse.Calls.{Call, adds, run, run-Within}

abbrev caps : Dict ℕ
caps = ("agent", 1) ∷ []

abbrev joined : List Call
joined =
    adds (new_conn 1 0) "agent"
    ∷ adds (new_conn 2 0) "agent"
    ∷ adds (new_conn 3 0) "graph"
    ∷ adds (new_conn 4 0) ""
    ∷ adds (new_conn 5 0) "monitor"
    ∷ []

outcome : ℕ → Written
outcome id = if id == 3 then timed_out else done

-- The second agent and the fifth stream are refused, and a write that times out closes the third.
joined-ids :
    (map (λ (c : Conn). c.id) (run joined (new_hub 3 caps)).conns ≡ 1 ∷ 3 ∷ 4 ∷ [])
    × ((run joined (new_hub 3 caps)).rejected ≡ 2)
    × (map (λ (c : Conn). c.id) (broadcast 9 outcome (run joined (new_hub 3 caps))).conns
        ≡ 1 ∷ 4 ∷ [])
    × ((broadcast 9 outcome (run joined (new_hub 3 caps))).write_timeouts ≡ 1)
unfolding run outcome lookup get bump insert
joined-ids = (refl, refl, refl, refl)

run-Within_example :
    let h = run joined (new_hub 3 caps) in
    (length h.conns ≤ 3)
    × ((k : String)
        → (active_of k h ≡ count (is_kind k) h.conns) × Within (lookup k caps) (active_of k h))
    × (h.write_timeouts + length h.conns ≤ h.accepted)
run-Within_example = run-Within 3 caps joined

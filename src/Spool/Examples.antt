-- ===== src/Spool/Examples.antt =====
-- The upload budget of host/task/spool.py at concrete requests.
use rkcockpit.Common.{List, [], refl, some, ◌∷◌, ◌≡◌, ◌≤◌}
use rkcockpit.Spool.{init}
use rkcockpit.Spool.Budget.{
  Event, begin, finish, run, started, outstanding, open_leases, run-within_budget,
}

abbrev uploads : List Event
uploads =
    begin (some 1000) 60 ∷ begin (some 1000) 60 ∷ begin (some 1000) 40 ∷ finish 0 ∷ finish 0 ∷ []

-- The second upload does not fit, and the third lease is released once.
run-uploads :
    (run (started 4 100 10) uploads).limiter
    ≡ record { max_active = 4; max_bytes = 100; min_free_bytes = 10; active = 1; reserved = 60 }
unfolding run init
run-uploads = refl

run-within_budget_example :
    let s = run (started 4 100 10) uploads in
    (s.limiter.reserved ≡ outstanding s.leases)
    × (s.limiter.active ≡ open_leases s.leases)
    × (s.limiter.reserved ≤ 100)
    × (s.limiter.active ≤ 4)
run-within_budget_example = run-within_budget 4 100 10 uploads

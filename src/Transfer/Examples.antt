-- ===== src/Transfer/Examples.antt =====
-- Runs of the transfer registry of host/task/transfer.py.
use rkcockpit.Common.{
  All, List, [], arith, count, false, filter, length, map, refl, some, true, ◌∷◌, ◌≡◌, ◌≤◌,
}
use rkcockpit.Transfer.{
  hand_over, is_running, Job, Store, Request, Status, done, cancelled, is_live, keeps, newest, trim,
  new_job, new_store, id_of, max_keep, max_running,
}
use rkcockpit.Transfer.Registry.{IsGrowing, IsListed, trim-newest}
use rkcockpit.Transfer.Jobs.{IsSettled}
use rkcockpit.Transfer.Lifecycle.{
  Event, submits, returns, raises, settles, cancels, reads, run, run-bounds,
}

abbrev photo : Request
photo = record {
  device = "board";
  action = "upload";
  name = "photo";
  src = "/a";
  dest = "/b";
  has_cleanup = false;
}

abbrev day : List Event
day =
    submits 1000 true photo
    ∷ submits 2000 true photo
    ∷ reads 2500 64 1
    ∷ cancels 3000 2
    ∷ reads 3500 64 2
    ∷ returns 1
    ∷ raises 2 "stopped"
    ∷ settles 4000 1
    ∷ submits 900000 true photo
    ∷ []

status_of : Job → Status
status_of j = j.status

-- The first two transfers end as done and as cancelled, and the last submission forgets them.
day-before :
    map status_of
      (run
        (submits 1000 true photo
          ∷ submits 2000 true photo
          ∷ cancels 3000 2
          ∷ returns 1
          ∷ raises 2 "stopped"
          ∷ [])
        new_store).jobs
    ≡ done ∷ cancelled ∷ []
unfolding run status_of hand_over is_running
day-before = refl

day-order : (run day new_store).order ≡ 3 ∷ []
unfolding run hand_over is_running
day-order = refl

run-bounds_example :
    let s = run day new_store in
    (count is_live s.jobs ≤ max_running)
    × (length s.jobs ≤ max_keep)
    × (s.order ≡ map id_of s.jobs)
    × All IsSettled s.jobs
run-bounds_example = run-bounds day

abbrev two : Store
two = record {
  jobs = new_job 1000 1 photo ∷ record (new_job 2000 2 photo) { status = done } ∷ [];
  order = 1 ∷ 2 ∷ [];
  futures = 1 ∷ [];
  seq = 2;
  closed = false;
}

two-IsListed : IsListed two
two-IsListed = record { listed = refl; growing = (omega arith, (omega arith, tt)) }

trim-newest_example :
    let kept = newest (filter (keeps 900000) two.jobs) in
    (trim 900000 two ≡ some (record two { jobs = kept; order = map id_of kept })) × IsGrowing 0 kept
trim-newest_example = trim-newest 900000 two two-IsListed

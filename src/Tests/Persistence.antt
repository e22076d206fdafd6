-- ===== src/Tests/Persistence.antt =====
-- Instances of the theorems about the worker that stores the observations.
use helter_skelter.Prelude.{◌≡◌, false, codes, List, [], ◌∷◌, ◌++◌, refl, length}
use helter_skelter.Persistence.{
  Job, Event, submitted, awaited, attempted, job_of, spawn, submit, recv, attempt, step, run,
}
use helter_skelter.Persistence.Fifo.{insert_all, taken, waiting, run-stores}
use helter_skelter.Persistence.Drain.{rounds, run-drains}
use helter_skelter.Tests.Policy.{observed}

abbrev first : Job
first = job_of (codes "sim") (codes "m-1") (codes "2026-07-20T18:30:10.000Z") (observed 5 9)

abbrev second : Job
second = job_of (codes "sim") (codes "m-2") (codes "2026-07-20T18:30:11.000Z") (observed 5 8)

-- The first write fails; the second job comes meanwhile.
abbrev outage : List Event
outage = submitted first ∷ awaited ∷ attempted false ∷ submitted second ∷ []

two_wait : waiting (run outage spawn) ≡ first ∷ second ∷ []
unfolding run step submit recv attempt spawn
two_wait = refl

run-stores_example :
    (done : List Job) × (done ++ waiting (run outage spawn) ≡ taken outage spawn)
    × ((run outage spawn).observations ≡ insert_all done [])
run-stores_example = run-stores outage

run-drains_example :
    let p = run outage spawn in
    let p' = run (rounds (length (waiting p))) p in
    (waiting p' ≡ []) × (p'.observations ≡ insert_all (waiting p) p.observations)
run-drains_example = run-drains (run outage spawn)

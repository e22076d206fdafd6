-- ===== src/Persistence/Drain.antt =====
-- Once the database is back, the worker of the observations (core/orchestrator/src/db.rs) stores all that
-- waits.
use mathlib.Core.Path.{subst}
use helter_skelter.Prelude.{
  ℕ, zero, suc, ◌≡◌, refl, sym, ap, ◌∙◌, true, Option, none, some, List, [], ◌∷◌, ◌++◌, length,
}
use helter_skelter.Persistence.{
  Job, Persistence, Event, awaited, attempted, insert_observation, received, recv_held, recv, tried,
  attempt, step, run,
}
use helter_skelter.Persistence.Fifo.{held_jobs, insert_all, waiting}

-- The worker asks for a job and writes it, so many times.
abbrev pub rounds : ℕ → List Event
rounds zero = []
rounds (suc n) = awaited ∷ attempted true ∷ rounds n

-- One job fewer waits, and it is written.
abbrev IsStored : Job → List Job → Persistence → Persistence → Type 0
IsStored job jobs p p' =
    (waiting p' ≡ jobs) × (p'.observations ≡ insert_observation job p.observations)

received-IsStored :
    (c jobs : List Job) (job : Job) (p : Persistence)
    → c ≡ job ∷ jobs
    → IsStored job jobs p (attempt true (received c p))
unfolding attempt
received-IsStored [] jobs job p e = absurd cc
received-IsStored (x ∷ xs) jobs job p e =
    let head : x ≡ job = cc in
    let tail : xs ≡ jobs = cc in (tail, ap (λ j. insert_observation j p.observations) head)

recv_held-IsStored :
    (h : Option Job) (jobs : List Job) (job : Job) (p : Persistence)
    → p.held ≡ h
    → held_jobs h ++ p.channel ≡ job ∷ jobs
    → IsStored job jobs p (attempt true (recv_held h p))
unfolding attempt
recv_held-IsStored none jobs job p same e = received-IsStored p.channel jobs job p e
recv_held-IsStored (some x) jobs job p same e =
    let head : x ≡ job = cc in
    let tail : p.channel ≡ jobs = cc in
    let written : tried true (some x) p ≡ attempt true p = ap (λ h. tried true h p) (sym same) in
    subst (λ q. IsStored job jobs p q) written
      (tail, ap (λ j. insert_observation j p.observations) head)

rounds-store :
    (jobs : List Job) (p : Persistence)
    → waiting p ≡ jobs
    → let p' = run (rounds (length jobs)) p in
      (waiting p' ≡ []) × (p'.observations ≡ insert_all jobs p.observations)
unfolding run step recv
rounds-store [] p e = (e, refl)
rounds-store (job ∷ jobs) p e =
    let (left, written) = recv_held-IsStored p.held jobs job p refl e in
    let (empty, all_written) = rounds-store jobs (attempt true (recv p)) left in
    (empty, all_written ∙ ap (insert_all jobs) written)

-- From any state of the worker on, whatever failed before: once the database works, as many rounds as
-- there are jobs that wait leave none, and write them all, in the order in which they came.
pub run-drains :
    (p : Persistence)
    → let p' = run (rounds (length (waiting p))) p in
      (waiting p' ≡ []) × (p'.observations ≡ insert_all (waiting p) p.observations)
run-drains p = rounds-store (waiting p) p refl

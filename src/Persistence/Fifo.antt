-- ===== src/Persistence/Fifo.antt =====
-- The worker of the observations (core/orchestrator/src/db.rs) stores the jobs that the channel took, in
-- their order and none twice.
use helter_skelter.Prelude.{
  ◌≡◌, refl, sym, ap, ◌∙◌, Bool, true, false, Option, none, some, List, [], ◌∷◌, ◌++◌, append_assoc,
  append-nil, length, ltb, Bool-cases, inl, inr, if◌then◌else◌,
}
use helter_skelter.Persistence.{
  Job, Persistence, Event, submitted, awaited, attempted, buffer_capacity, spawn, submit,
  insert_observation, received, recv_held, recv, tried, attempt, step, run,
}

-- The jobs that the channel takes: those that come while it holds fewer than its capacity.
abbrev pub taken : List Event → Persistence → List Job
taken [] p = []
taken (submitted job ∷ es) p =
    if ltb (length p.channel) buffer_capacity
    then job ∷ taken es (step (submitted job) p)
    else taken es (step (submitted job) p)
taken (awaited ∷ es) p = taken es (step awaited p)
taken (attempted works ∷ es) p = taken es (step (attempted works) p)

-- The table after the jobs are written to it, the first one first.
abbrev pub insert_all : List Job → List Job → List Job
insert_all [] rows = rows
insert_all (job ∷ jobs) rows = insert_all jobs (insert_observation job rows)

abbrev pub held_jobs : Option Job → List Job
held_jobs none = []
held_jobs (some job) = job ∷ []

-- The jobs that are not stored, the oldest first.
abbrev pub waiting : Persistence → List Job
waiting p = held_jobs p.held ++ p.channel

insert_all-append :
    (js ks rows : List Job) → insert_all (js ++ ks) rows ≡ insert_all ks (insert_all js rows)
insert_all-append [] ks rows = refl
insert_all-append (j ∷ js) ks rows = insert_all-append js ks (insert_observation j rows)

-- What is done and what waits make up what was taken.
abbrev IsFifo : List Job → Persistence → Type 0
IsFifo all p = (done : List Job) × (done ++ waiting p ≡ all) × (p.observations ≡ insert_all done [])

submit-IsFifo :
    (job : Job) (all : List Job) (p : Persistence)
    → IsFifo all p
    → IsFifo
        (all ++ (if ltb (length p.channel) buffer_capacity then job ∷ [] else []))
        (submit job p)
unfolding submit
submit-IsFifo job all p (done, parts, rows) =
    elim (Bool-cases (ltb (length p.channel) buffer_capacity)) [
      | inl room ↦ rw room (
        done,
        ap (λ l. done ++ l) (sym (append_assoc (held_jobs p.held) p.channel (job ∷ [])))
            ∙ sym (append_assoc done (waiting p) (job ∷ []))
            ∙ ap (λ l. l ++ (job ∷ [])) parts,
        rows,
      )
      | inr full ↦ rw full (done, parts ∙ sym (append-nil all), rows)
    ]

received-IsFifo :
    (jobs all done : List Job) (p : Persistence)
    → p.held ≡ none
    → p.channel ≡ jobs
    → done ++ jobs ≡ all
    → p.observations ≡ insert_all done []
    → IsFifo all (received jobs p)
received-IsFifo [] all done p idle same parts rows = (
  done,
  ap (λ h. done ++ (held_jobs h ++ p.channel)) idle ∙ ap (λ c. done ++ c) same ∙ parts,
  rows,
)
received-IsFifo (job ∷ jobs) all done p idle same parts rows = (done, parts, rows)

recv_held-IsFifo :
    (h : Option Job) (all : List Job) (p : Persistence)
    → p.held ≡ h
    → IsFifo all p
    → IsFifo all (recv_held h p)
recv_held-IsFifo (some job) all p same v = v
recv_held-IsFifo none all p same (done, parts, rows) =
    received-IsFifo p.channel all done p same refl
      (ap (λ h. done ++ (held_jobs h ++ p.channel)) (sym same) ∙ parts) rows

tried-IsFifo :
    (works : Bool) (h : Option Job) (all : List Job) (p : Persistence)
    → p.held ≡ h
    → IsFifo all p
    → IsFifo all (tried works h p)
tried-IsFifo works none all p same v = v
tried-IsFifo false (some job) all p same v = v
tried-IsFifo true (some job) all p same (done, parts, rows) = (
  done ++ (job ∷ []),
  append_assoc done (job ∷ []) p.channel
      ∙ ap (λ h. done ++ (held_jobs h ++ p.channel)) (sym same)
      ∙ parts,
  ap (insert_observation job) rows ∙ sym (insert_all-append done (job ∷ []) []),
)

run-IsFifo :
    (es : List Event) (all : List Job) (p : Persistence)
    → IsFifo all p
    → IsFifo (all ++ taken es p) (run es p)
unfolding run step recv attempt
run-IsFifo [] all p (done, parts, rows) = (done, parts ∙ sym (append-nil all), rows)
run-IsFifo (submitted job ∷ es) all p v =
    let v' = submit-IsFifo job all p v in
    elim (Bool-cases (ltb (length p.channel) buffer_capacity)) [
      | inl room ↦
          let one : IsFifo (all ++ (job ∷ [])) (submit job p) = rw room at v' in
          let (done, parts, rows) = run-IsFifo es (all ++ (job ∷ [])) (submit job p) one in
          rw room (done, parts ∙ append_assoc all (job ∷ []) (taken es (submit job p)), rows)
      | inr full ↦
          let none_more : IsFifo (all ++ []) (submit job p) = rw full at v' in
          let (done, parts, rows) = run-IsFifo es (all ++ []) (submit job p) none_more in
          rw full (done, parts ∙ ap (λ l. l ++ taken es (submit job p)) (append-nil all), rows)
    ]
run-IsFifo (awaited ∷ es) all p v = run-IsFifo es all _ (recv_held-IsFifo p.held all p refl v)
run-IsFifo (attempted works ∷ es) all p v =
    run-IsFifo es all _ (tried-IsFifo works p.held all p refl v)

-- Whatever is submitted, and however often a write fails: the jobs that the channel takes are split into
-- those that are done and those that wait, the job the worker holds first; and the table is what those
-- that are done leave in an empty one, written in the order in which they came.
pub run-stores :
    (es : List Event)
    → (done : List Job) × (done ++ waiting (run es spawn) ≡ taken es spawn)
      × ((run es spawn).observations ≡ insert_all done [])
run-stores es = run-IsFifo es [] spawn (unfold spawn in ([], refl, refl))

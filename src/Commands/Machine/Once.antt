-- ===== src/Commands/Machine/Once.antt =====
-- A key takes effect at most once, as long as no request arrives whose key is being handled
-- (bridge/openrct2-plugin/src/commands.ts).
use helter_skelter.Prelude.{
  ℕ, zero, suc, ◌+◌, ◌≤◌, ◌≡◌, inl, inr, Bool, true, false, Text, text_eq, text_eq_iff,
  text_eq_refl, if◌then◌else◌, is_some, none, some, List, [], ◌∷◌, Option-cases, arith,
}
use helter_skelter.Protocol.{CommandRequest, CommandResult}
use helter_skelter.Commands.{GameActionResult, to_error_info}
use helter_skelter.Commands.Cache.{Cache, lookup, insert, lookup-insert}
use helter_skelter.Commands.Handler.{start, after_query, after_execute}
use helter_skelter.Commands.Machine.{
  Stage, querying, executing, Task, Call, query, execute, Machine, deliver, resume, pick, Event,
  arrive, answered, step, run,
}

abbrev pub bit : Bool → ℕ
bit true = 1
bit false = 0

abbrev is_executing : Stage → Bool
is_executing querying = false
is_executing executing = true

not-picked :
    (i : ℕ) (ts : List Task) {rest : List Task} {t : Task} (u : Task)
    → pick i ts ≡ none
    → pick (suc i) (u ∷ ts) ≡ some (t, rest)
    → ⊥
unfolding pick
not-picked i ts u missing e = ground arith

picked_behind :
    (i : ℕ) (ts : List Task) {others rest : List Task} {v t : Task} (u : Task)
    → pick i ts ≡ some (v, others)
    → pick (suc i) (u ∷ ts) ≡ some (t, rest)
    → (v ≡ t) × (u ∷ others ≡ rest)
unfolding pick
picked_behind i ts u found e = ground arith

abbrev pub idle : Machine
idle = record { cache = []; waiting = []; calls = []; replies = [] }

module _ (k : Text) where
  -- Executions of the key among the game's calls.
  abbrev pub executions : List Call → ℕ
  executions [] = 0
  executions (query r a ∷ cs) = executions cs
  executions (execute r a ∷ cs) = bit (text_eq r.idempotency_key k) + executions cs

  -- The key's requests in flight, and those among them that execute.
  abbrev pub in_flight : List Task → ℕ
  in_flight [] = 0
  in_flight (t ∷ ts) = bit (text_eq t.request.idempotency_key k) + in_flight ts

  abbrev weight : Task → ℕ
  weight t = if is_executing t.stage then bit (text_eq t.request.idempotency_key k) else 0

  abbrev running : List Task → ℕ
  running [] = 0
  running (t ∷ ts) = weight t + running ts

  abbrev recorded : Cache → ℕ
  recorded c = bit (is_some (lookup k c))

  pub record IsOnce (m : Machine) : Type 0 where
    pub alone : in_flight m.waiting + recorded m.cache ≤ 1
    pub accounted : executions m.calls ≤ running m.waiting + recorded m.cache

  running-le : (ts : List Task) → running ts ≤ in_flight ts
  running-le [] = omega arith
  running-le (t ∷ ts) = ground (arith, running-le ts)

  counted :
      (ts others : List Task) {rest : List Task} {v t : Task} (u : Task)
      → v ≡ t
      → u ∷ others ≡ rest
      → in_flight ts ≡ bit (text_eq v.request.idempotency_key k) + in_flight others
      → running ts ≡ weight v + running others
      → (in_flight (u ∷ ts) ≡ bit (text_eq t.request.idempotency_key k) + in_flight rest)
        × (running (u ∷ ts) ≡ weight t + running rest)
  counted ts others u same behind first second =
      rw (← same) (rw (← behind) (omega (arith, first), omega (arith, second)))

  pick-counts :
      (i : ℕ) (ts rest : List Task) (t : Task)
      → pick i ts ≡ some (t, rest)
      → (in_flight ts ≡ bit (text_eq t.request.idempotency_key k) + in_flight rest)
        × (running ts ≡ weight t + running rest)
  unfolding pick
  pick-counts zero [] rest t e = cc
  pick-counts (suc i) [] rest t e = cc
  pick-counts zero (u ∷ ts) rest t e = ground arith
  pick-counts (suc i) (u ∷ ts) rest t e = elim (Option-cases (pick i ts)) [
    | inl missing ↦ absurd (not-picked i ts u missing e)
    | inr ((v, others), found) ↦
        let (same, behind) = picked_behind i ts u found e in
        let (first, second) = pick-counts i ts others v found in
        counted ts others u same behind first second
  ]

  lookup_after :
      (r : CommandRequest) (v : CommandResult) (c : Cache)
      → recorded (insert r.idempotency_key v c)
        ≡ (if text_eq r.idempotency_key k then 1 else recorded c)
  lookup_after r v c = ground (arith, lookup-insert r.idempotency_key k v c)

  deliver-IsOnce :
      (r : CommandRequest) (m : Machine)
      → IsOnce m
      → (text_eq r.idempotency_key k ≡ true → in_flight m.waiting ≡ 0)
      → IsOnce (deliver r m)
  unfolding deliver start
  deliver-IsOnce r m once free = ground (arith, text_eq_iff r.idempotency_key k)

  resume-IsOnce :
      (t : Task) (result : GameActionResult) (m : Machine)
      → bit (text_eq t.request.idempotency_key k) + in_flight m.waiting + recorded m.cache ≤ 1
      → executions m.calls ≤ weight t + running m.waiting + recorded m.cache
      → IsOnce (resume t result m)
  unfolding resume after_query after_execute
  resume-IsOnce t result m alone accounted = grind (arith, lookup_after, running-le m.waiting)

  -- The key of an arriving request is not in flight.
  abbrev pub IsFree : Event → Machine → Type 0
  IsFree (arrive r) m = text_eq r.idempotency_key k ≡ true → in_flight m.waiting ≡ 0
  IsFree (answered i result) m = Unit {0}

  step-IsOnce : (e : Event) (m : Machine) → IsOnce m → IsFree e m → IsOnce (step e m)
  unfolding step
  step-IsOnce (arrive r) m once free = deliver-IsOnce r m once free
  step-IsOnce (answered i result) m once free = elim (Option-cases (pick i m.waiting)) [
    | inl missing ↦ rw (missing, step) once
    | inr ((t, rest), found) ↦
        let (flying, weighed) = pick-counts i m.waiting rest t found in
        rw (found, step)
          (resume-IsOnce t result (record m { waiting = rest }) (omega (arith, once.alone))
            (omega (arith, once.accounted)))
  ]

  -- No request of the key arrives while another is in flight.
  abbrev pub IsSerial : List Event → Machine → Type 0
  IsSerial [] m = Unit
  IsSerial (e ∷ es) m = IsFree e m × IsSerial es (step e m)

  run-IsOnce : (es : List Event) (m : Machine) → IsOnce m → IsSerial es m → IsOnce (run es m)
  unfolding run
  run-IsOnce [] m once serial = once
  run-IsOnce (e ∷ es) m once (free, serial) =
      run-IsOnce es (step e m) (step-IsOnce e m once free) serial

  -- From a machine without tasks, calls and records, whatever arrives and in whatever order the game
  -- answers: if no request of a key arrives while one of that key is in flight, then the game is asked
  -- at most once to execute for that key.
  pub executions_le_one : (es : List Event) → IsSerial es idle → executions (run es idle).calls ≤ 1
  executions_le_one es serial =
      let end = run-IsOnce es idle (unfold lookup in omega arith) serial in
      omega (arith, end.alone, end.accounted, running-le (run es idle).waiting)

-- Two requests with one key of which no result is on record: if the second arrives before the first
-- is answered, and the game lets both queries pass, it is asked to execute twice for that key.
pub executions_twice :
    (a b : CommandRequest) (m : Machine) (fine : GameActionResult)
    → b.idempotency_key ≡ a.idempotency_key
    → lookup a.idempotency_key m.cache ≡ none
    → to_error_info fine ≡ none
    → executions a.idempotency_key
        (run (arrive a ∷ arrive b ∷ answered 0 fine ∷ answered 1 fine ∷ []) m).calls
      ≡ 2 + executions a.idempotency_key m.calls
unfolding run step deliver start resume after_query pick
executions_twice a b m fine same fresh ok = ground (arith, text_eq_refl a.idempotency_key)

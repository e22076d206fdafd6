-- ===== src/Persistence.antt =====
-- The buffered observations of core/orchestrator/src/db.rs: `Persistence`, and the worker that writes what
-- is submitted to it. The channel is the list of the jobs in it, the oldest first; the table observations
-- is the list of its rows, the newest first, of which `payload` is the snapshot itself. Whether a call of
-- the database works is an argument, and a delay is a number of milliseconds.
pub mod Fifo
pub mod Drain
use helter_skelter.Prelude.{
  ℕ, ◌*◌, ◌+◌, ◌-◌, ◌%◌, ◌^◌, Bool, true, false, ◌||◌, Text, text_eq, Option, none, some, List, [],
  ◌∷◌, ◌++◌, length, ltb, min, if◌then◌else◌,
}
use helter_skelter.Prelude.Int.{ℤ, pos, negsuc}
use helter_skelter.World.{Observed}

abbrev pub buffer_capacity : ℕ
buffer_capacity = 500

abbrev pub initial_retry_delay : ℕ
initial_retry_delay = 500

abbrev pub max_retry_delay : ℕ
max_retry_delay = 30_000

-- core/orchestrator/src/state.rs.
pub data DbState : Type 0 where
  connected cautious : DbState

-- `n as i32`.
unfoldable pub as_i32 : ℕ → ℤ
as_i32 n = let low = n % 2 ^ 32 in if ltb low (2 ^ 31) then pos low else negsuc (2 ^ 32 - (low + 1))

-- `PersistJob::Observation`.
pub record Job : Type 0 where
  pub simulation_id : Text
  pub message_id : Text
  pub recorded_at : Text
  pub payload : Observed
  pub cash : ℤ
  pub guest_count : ℤ
  pub park_rating : ℤ

-- The job for a snapshot.
unfoldable pub job_of : (simulation_id message_id recorded_at : Text) → Observed → Job
job_of simulation_id message_id recorded_at s = record {
  simulation_id = simulation_id;
  message_id = message_id;
  recorded_at = recorded_at;
  payload = s;
  cash = s.cash;
  guest_count = as_i32 s.guest_count;
  park_rating = as_i32 s.park_rating;
}

-- The channel, the job that the worker holds, its next delay, and what the worker writes.
pub record Persistence : Type 0 where
  pub channel : List Job
  pub held : Option Job
  pub delay : ℕ
  pub db_state : DbState
  pub observations : List Job

unfoldable pub spawn : Persistence
spawn = record {
  channel = [];
  held = none;
  delay = initial_retry_delay;
  db_state = connected;
  observations = [];
}

-- `try_send`: a job that finds the channel full is dropped.
unfoldable pub submit : Job → Persistence → Persistence
submit job p =
    if ltb (length p.channel) buffer_capacity
    then record p { channel = p.channel ++ (job ∷ []) }
    else p

unfoldable pub has_message : Text → List Job → Bool
has_message id [] = false
has_message id (row ∷ rows) = text_eq row.message_id id || has_message id rows

-- `ON CONFLICT (message_id) DO NOTHING`.
unfoldable pub insert_observation : Job → List Job → List Job
insert_observation job rows = if has_message job.message_id rows then rows else job ∷ rows

-- `rx.recv()`, where the worker holds no job.
abbrev pub received : List Job → Persistence → Persistence
received [] p = p
received (job ∷ jobs) p = record p { channel = jobs; held = some job; delay = initial_retry_delay }

abbrev pub recv_held : Option Job → Persistence → Persistence
recv_held none p = received p.channel p
recv_held (some job) p = p

unfoldable pub recv : Persistence → Persistence
recv p = recv_held p.held p

-- One round of the loop around `apply_job`; after a failure it sleeps, and doubles the delay.
abbrev pub tried : Bool → Option Job → Persistence → Persistence
tried works none p = p
tried true (some job) p = record p {
  held = none;
  db_state = connected;
  observations = insert_observation job p.observations;
}
tried false (some job) p = record p {
  db_state = cautious;
  delay = min (p.delay * 2) max_retry_delay;
}

unfoldable pub attempt : Bool → Persistence → Persistence
attempt works p = tried works p.held p

pub data Event : Type 0 where
  submitted : Job → Event
  awaited : Event
  attempted : (works : Bool) → Event

unfoldable pub step : Event → Persistence → Persistence
step (submitted job) p = submit job p
step awaited p = recv p
step (attempted works) p = attempt works p

unfoldable pub run : List Event → Persistence → Persistence
run [] p = p
run (e ∷ es) p = run es (step e p)

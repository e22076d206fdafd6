-- ===== src/Health.antt =====
-- core/orchestrator/src/state.rs: the health of the bridge's connection, as the orchestrator keeps it. An
-- `Instant` is a number of nanoseconds, an argument of the methods that read the clock; `elapsed` stops
-- at 0.
pub mod Latest
use helter_skelter.Prelude.{ℕ, ◌-◌, Option, none, some, List, [], ◌∷◌, leb, if◌then◌else◌}

pub data ConnectionState : Type 0 where
  connecting live degraded lost : ConnectionState

pub record ConnectionHealth : Type 0 where
  pub state : ConnectionState
  pub last_heartbeat_at : Option ℕ
  pub last_heartbeat_tick : Option ℕ

abbrev pub degraded_after : ℕ
degraded_after = 3_000_000_000

abbrev pub lost_after : ℕ
lost_after = 10_000_000_000

-- `default` and `on_connect`.
unfoldable pub connected : ConnectionHealth
connected = record { state = connecting; last_heartbeat_at = none; last_heartbeat_tick = none }

unfoldable pub on_hello : ℕ → ConnectionHealth → ConnectionHealth
on_hello now h = record h { state = live; last_heartbeat_at = some now }

unfoldable pub on_heartbeat : ℕ → ℕ → ConnectionHealth → ConnectionHealth
on_heartbeat now tick h = record h {
  state = live;
  last_heartbeat_at = some now;
  last_heartbeat_tick = some tick;
}

unfoldable pub on_disconnect : ConnectionHealth → ConnectionHealth
on_disconnect h = record h { state = lost }

-- The state for the time since the last heartbeat.
abbrev pub grade : ℕ → ConnectionState
grade elapsed =
    if leb lost_after elapsed then lost else if leb degraded_after elapsed then degraded else live

abbrev grade_since : ℕ → Option ℕ → ConnectionState → ConnectionState
grade_since now none state = state
grade_since now (some last) state = grade (now - last)

-- A state that is lost stays so.
abbrev pub checked : ℕ → Option ℕ → ConnectionState → ConnectionState
checked now last lost = lost
checked now last connecting = grade_since now last connecting
checked now last live = grade_since now last live
checked now last degraded = grade_since now last degraded

unfoldable pub tick_check : ℕ → ConnectionHealth → ConnectionHealth
tick_check now h = record h { state = checked now h.last_heartbeat_at h.state }

pub data Event : Type 0 where
  accepted hello check closed : (now : ℕ) → Event
  heartbeat : (now tick : ℕ) → Event

unfoldable pub step : Event → ConnectionHealth → ConnectionHealth
step (accepted now) h = connected
step (hello now) h = on_hello now h
step (check now) h = tick_check now h
step (closed now) h = on_disconnect h
step (heartbeat now tick) h = on_heartbeat now tick h

unfoldable pub run : List Event → ConnectionHealth → ConnectionHealth
run [] h = h
run (e ∷ es) h = run es (step e h)

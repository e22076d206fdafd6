-- ===== src/Connection.antt =====
-- bridge/openrct2-plugin/src/connection.ts and config.ts: the connection to the orchestrator. A method
-- takes what its calls of the outside give, and returns the new state with what it does to the outside.
-- Console output is left out.
pub mod Framing
pub mod Events
pub mod Bounds
pub mod Alive
pub mod Loss
pub mod Doubled
pub mod Outbound
pub mod Delivery
pub mod Backoff
use helter_skelter.Prelude.{
  ℕ, ◌*◌, min, Bool, true, false, Text, codes, if◌then◌else◌, Option, none, some, List, [], ◌∷◌,
  ◌++◌, length, ltb, is_some, ◌&&◌,
}
use helter_skelter.Prelude.Int.{pos}
use helter_skelter.Json.Stringify.{stringify}
use helter_skelter.Protocol.{
  bridge, Payload, hello, heartbeat, observation_snapshot, command_result, Envelope,
  ObservationSnapshot, CommandResult, Status, ok, error,
}
use helter_skelter.Protocol.Write.{envelope_json}
use helter_skelter.Uuid.{random_uuid_v7}
use helter_skelter.Connection.Framing.{Outcome, on_data}

-- config.ts.
pub record BridgeConfig : Type 0 where
  pub host : Text
  pub port : ℕ
  pub heartbeat_interval_ticks : ℕ
  pub snapshot_interval_ticks : ℕ
  pub max_buffered_snapshots : ℕ
  pub initial_reconnect_delay_ms : ℕ
  pub max_reconnect_delay_ms : ℕ

-- The clock and the random numbers at the building of one message: `Date.now()`, the text of
-- `new Date().toISOString()`, and the draws of `Math.random()`.
pub record Moment : Type 0 where
  pub now : ℕ
  pub iso : Text
  pub draw : ℕ → ℕ

unfoldable pub make_envelope : Moment → Text → Payload → Envelope
make_envelope t simulation_id payload = record {
  message_id = random_uuid_v7 t.draw t.now;
  timestamp = t.iso;
  simulation_id = simulation_id;
  correlation_id = none;
  status = none;
  error = none;
  payload = payload;
}

-- A socket is known by a number.
pub record BridgeConnection : Type 0 where
  pub config : BridgeConfig
  pub simulation_id : Text
  pub socket : Option ℕ
  pub connected : Bool
  pub reconnect_delay_ms : ℕ
  pub snapshot_buffer : List Text
  pub inbound_buffer : Text

-- What the plugin does to the outside: opens a connection, writes to a socket, sets a timer that calls
-- `connect` after a delay, or hands received lines on.
pub data Effect : Type 0 where
  connecting : ℕ → Effect
  written : ℕ → Text → Effect
  reconnect_in : ℕ → Effect
  received : List Outcome → Effect

abbrev pub Step : Type 0
Step = BridgeConnection × List Effect

-- What the network does: the socket that `createSocket` gives, if it does not throw; whether the other
-- calls of `connect` succeed; whether a write of a line to a socket succeeds.
pub record Network : Type 0 where
  pub created : Option ℕ
  pub set_up : Bool
  pub accepts : ℕ → Text → Bool

unfoldable pub new : BridgeConfig → Text → BridgeConnection
new config simulation_id = record {
  config = config;
  simulation_id = simulation_id;
  socket = none;
  connected = false;
  reconnect_delay_ms = config.initial_reconnect_delay_ms;
  snapshot_buffer = [];
  inbound_buffer = [];
}

unfoldable pub schedule_reconnect : BridgeConnection → Step
schedule_reconnect c = (
  record c { reconnect_delay_ms = min (c.reconnect_delay_ms * 2) c.config.max_reconnect_delay_ms },
  reconnect_in c.reconnect_delay_ms ∷ [],
)

-- An exception of `createSocket` leaves the socket as it was, a later one finds it assigned.
unfoldable pub connect : Network → BridgeConnection → Step
unfolding schedule_reconnect
connect net c = elim net.created [
  | none ↦ schedule_reconnect c
  | some s ↦
      if net.set_up
      then (record c { socket = some s }, connecting s ∷ [])
      else schedule_reconnect (record c { socket = some s })
]

unfoldable pub start : Network → BridgeConnection → Step
unfolding connect
start net c = connect net c

-- A write that throws is logged and forgotten.
unfoldable pub write_line : Network → Option ℕ → Text → List Effect
write_line net none line = []
write_line net (some s) line = if net.accepts s line then written s (line ++ (10 ∷ [])) ∷ [] else []

unfoldable pub write : Network → BridgeConnection → Envelope → List Effect
unfolding write_line
write net c envelope = write_line net c.socket (stringify (envelope_json envelope))

-- The loop of `flushSnapshotBuffer`: every line is taken off the buffer, and then written.
unfoldable pub flush_lines : Network → Option ℕ → List Text → List Effect
flush_lines net socket [] = []
flush_lines net socket (line ∷ lines) = write_line net socket line ++ flush_lines net socket lines

-- `__OPENRCT2_VERSION__` is put in at build time.
unfoldable pub on_connect : Network → Moment → Text → BridgeConnection → Step
unfolding write flush_lines make_envelope
on_connect net t openrct2_version c =
    let greeting = make_envelope t c.simulation_id (
      hello (record {
        role = bridge;
        bridge_version = codes "0.1.0";
        openrct2_version = openrct2_version;
      })) in
    (
      record c {
        connected = true;
        reconnect_delay_ms = c.config.initial_reconnect_delay_ms;
        snapshot_buffer = [];
      },
      write net c greeting ++ flush_lines net c.socket c.snapshot_buffer,
    )

-- `onClose` and `onError` differ in what they log.
unfoldable pub on_close : BridgeConnection → Step
unfolding schedule_reconnect
on_close c = schedule_reconnect (record c { connected = false; socket = none })

unfoldable pub on_error : BridgeConnection → Step
unfolding schedule_reconnect
on_error c = schedule_reconnect (record c { connected = false; socket = none })

unfoldable pub receive : Text → BridgeConnection → Step
receive input c =
    let d = on_data c.inbound_buffer input in
    (record c { inbound_buffer = d.inbound_buffer }, received d.outcomes ∷ [])

unfoldable pub send_heartbeat : Network → Moment → ℕ → BridgeConnection → Step
unfolding write make_envelope
send_heartbeat net t tick c =
    if c.connected
    then (c, write net c (make_envelope t c.simulation_id (heartbeat (record { tick = pos tick }))))
    else (c, [])

-- `while (buffer.length > max) buffer.shift()`.
unfoldable pub shift_to : ℕ → List Text → List Text
shift_to most [] = []
shift_to most (line ∷ lines) =
    let shorter = shift_to most lines in
    if ltb most (length (line ∷ lines)) then shorter else line ∷ lines

unfoldable pub send_snapshot : Network → Moment → ObservationSnapshot → BridgeConnection → Step
unfolding write_line make_envelope shift_to
send_snapshot net t snapshot c =
    let line =
      stringify (envelope_json (make_envelope t c.simulation_id (observation_snapshot snapshot))) in
    if c.connected && is_some c.socket then (c, write_line net c.socket line) else (
      record c {
        snapshot_buffer =
            shift_to c.config.max_buffered_snapshots (c.snapshot_buffer ++ (line ∷ []));
      },
      [],
    )

abbrev status_of : CommandResult → Status
status_of result = if is_some result.engine_error then error else ok

unfoldable pub send_command_result :
    Network → Moment → Text → CommandResult → BridgeConnection → Step
unfolding write make_envelope
send_command_result net t correlation_id result c =
    let envelope = make_envelope t c.simulation_id (command_result result) in
    (
      c,
      write net c (record envelope {
        correlation_id = some correlation_id;
        status = some (status_of result);
      }),
    )

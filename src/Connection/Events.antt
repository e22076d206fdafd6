-- ===== src/Connection/Events.antt =====
-- The connection of bridge/openrct2-plugin/src/connection.ts over time: what its callers and the host's
-- callbacks do to it, one event after another.
use helter_skelter.Prelude.{ℕ, Text, List, [], ◌∷◌, ◌++◌}
use helter_skelter.Protocol.{ObservationSnapshot, CommandResult}
use helter_skelter.Connection.{
  BridgeConnection, Moment, Network, Step, connect, start, on_connect, on_close, on_error, receive,
  send_heartbeat, send_snapshot, send_command_result,
}

-- A call of each method, with what the network, the clock and the random numbers give it. `timer` is the
-- callback of `scheduleReconnect`.
pub data Event : Type 0 where
  started : Network → Event
  timer : Network → Event
  opened : Network → Moment → Text → Event
  input : Text → Event
  closed : Event
  failed : Event
  tick_heartbeat : Network → Moment → ℕ → Event
  tick_snapshot : Network → Moment → ObservationSnapshot → Event
  answered : Network → Moment → Text → CommandResult → Event

unfoldable pub step : Event → BridgeConnection → Step
step (started net) c = start net c
step (timer net) c = connect net c
step (opened net t version) c = on_connect net t version c
step (input text) c = receive text c
step closed c = on_close c
step failed c = on_error c
step (tick_heartbeat net t tick) c = send_heartbeat net t tick c
step (tick_snapshot net t snapshot) c = send_snapshot net t snapshot c
step (answered net t id result) c = send_command_result net t id result c

-- The events in order, with all that they do to the outside.
unfoldable pub run : List Event → BridgeConnection → Step
run [] c = (c, [])
run (e ∷ es) c = let now = step e c in let later = run es now.0 in (later.0, now.1 ++ later.1)

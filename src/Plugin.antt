-- ===== src/Plugin.antt =====
-- bridge/openrct2-plugin/src/index.ts: what the plugin does at a tick of the game.
pub mod Cadence
pub mod Requests
use helter_skelter.Prelude.{ℕ, ◌%◌, ◌==◌, if◌then◌else◌, List, [], ◌∷◌, ◌++◌, Text}
use helter_skelter.Connection.{
  BridgeConfig, BridgeConnection, Moment, Network, Step, send_heartbeat, send_snapshot, new, start,
}
use helter_skelter.Observation.{Game, build_observation_snapshot}

-- `connection.start()` on a new connection.
unfoldable pub main : Network → BridgeConfig → Text → Step
unfolding start new
main net cfg simulation_id = start net (new cfg simulation_id)

-- What the handler of "interval.tick" meets: `date.ticksElapsed`, the game, the network, and the moments
-- at which its two messages are built.
pub record Tick : Type 0 where
  pub ticks_elapsed : ℕ
  pub game : Game
  pub network : Network
  pub heartbeat_moment : Moment
  pub snapshot_moment : Moment

unfoldable pub heartbeat_due : Tick → BridgeConnection → Step
heartbeat_due k c =
    if k.ticks_elapsed % c.config.heartbeat_interval_ticks == 0
    then send_heartbeat k.network k.heartbeat_moment k.ticks_elapsed c
    else (c, [])

unfoldable pub snapshot_due : Tick → BridgeConnection → Step
snapshot_due k c =
    if k.ticks_elapsed % c.config.snapshot_interval_ticks == 0
    then send_snapshot k.network k.snapshot_moment (build_observation_snapshot k.game) c
    else (c, [])

-- The intervals are positive, and `bridgeConfig` is the configuration of the connection.
unfoldable pub on_tick : Tick → BridgeConnection → Step
on_tick k c =
    let first = heartbeat_due k c in
    let second = snapshot_due k first.0 in (second.0, first.1 ++ second.1)

unfoldable pub run_ticks : List Tick → BridgeConnection → Step
run_ticks [] c = (c, [])
run_ticks (k ∷ ks) c =
    let now = on_tick k c in let later = run_ticks ks now.0 in (later.0, now.1 ++ later.1)

-- ===== src/Tests.antt =====
-- The data of the instances at which the theorems about bridge/openrct2-plugin/src are tried.
pub mod Messages
pub mod Handlers
pub mod Session
pub mod Requests
pub mod Outside
pub mod Policy
pub mod Safety
pub mod Orchestrator
pub mod Persistence
use helter_skelter.Prelude.{ℕ, ◌+◌, true, false, codes, none, some, [], ◌∷◌}
use helter_skelter.Prelude.Int.{pos, negsuc}
use helter_skelter.Json.{Json, num, str, bool, arr, obj, nil, cons, end, member}
use helter_skelter.Protocol.{CommandRequest, set_ride_price, command_request, Envelope}
use helter_skelter.Commands.{GameActionResult, GameAction}
use helter_skelter.Connection.{BridgeConfig, Moment, Network}
use helter_skelter.Connection.Events
use helter_skelter.Connection.Delivery.{Taken}
use helter_skelter.Observation.{Game, build_observation_snapshot}
use helter_skelter.Plugin.{Tick}

abbrev pub request : CommandRequest
request = record {
  action = set_ride_price (pos 4) (pos 15);
  idempotency_key = codes "key-1";
  expiry_tick = pos 900;
}

abbrev pub message : Envelope
message = record {
  message_id = codes "m-1";
  timestamp = codes "2026-07-20T18:30:10.000Z";
  simulation_id = codes "sim";
  correlation_id = none;
  status = none;
  error = none;
  payload = command_request request;
}

abbrev pub value : Json
value = obj (
    member (codes "a") (arr (cons (num (negsuc 11)) (cons (bool true) nil)))
      (member (codes "b") (str (34 ∷ 10 ∷ 55357 ∷ [])) end))

abbrev pub fine : GameActionResult
fine = record { error = none; error_title = none; error_message = none; cost = some (pos 5) }

abbrev pub ask : GameAction → ℕ → GameActionResult
ask action executed = fine

abbrev pub act : GameAction → ℕ → GameActionResult × ℕ
act action executed = (fine, executed + 1)

abbrev pub steady : ℕ → ℕ
steady i = 5

abbrev pub moment : Moment
moment = record { now = 1784572210000; iso = codes "2026-07-20T18:30:10.000Z"; draw = steady }

abbrev pub network : Network
network = record { created = some 7; set_up = true; accepts = λ s line. true }

abbrev pub unreachable : Network
unreachable = record { created = none; set_up = true; accepts = λ s line. false }

abbrev pub config : BridgeConfig
config = record {
  host = codes "127.0.0.1";
  port = 7777;
  heartbeat_interval_ticks = 40;
  snapshot_interval_ticks = 400;
  max_buffered_snapshots = 2;
  initial_reconnect_delay_ms = 500;
  max_reconnect_delay_ms = 3000;
}

abbrev pub game : Game
game = record {
  year = pos 1;
  month = pos 0;
  day = pos 4;
  cash = pos 1000;
  bank_loan = pos 0;
  rating = pos 700;
  guests = pos 12;
  rides =
      (record {
        id = pos 0;
        name = codes "Swings";
        identifier = codes "rct2.swsh1";
        status = codes "simulating";
        price = [];
        downtime = pos 0;
      })
      ∷ [];
  staff_types = codes "mechanic" ∷ codes "handyman" ∷ codes "mechanic" ∷ [];
  weather = codes "blizzard";
}

abbrev pub taken : Taken
taken = (moment, build_observation_snapshot game)

abbrev pub tick : ℕ → Tick
tick n = record {
  ticks_elapsed = n;
  game = game;
  network = unreachable;
  heartbeat_moment = moment;
  snapshot_moment = moment;
}

-- ===== src/Lib.antt =====
-- The bridge plugin of Helter Skelter, bridge/openrct2-plugin/src: a plugin of the game OpenRCT2 that
-- sends observations of the park to an orchestrator over TCP, one JSON message to a line, and carries
-- out the commands that come back.
--
-- The program's parts. At each tick of the game, index.ts asks the connection (connection.ts) to send a
-- heartbeat or a snapshot that observation.ts builds. The connection writes an envelope
-- (protocol/types.ts, its identifier from uuid.ts) as a line of JSON, holds snapshots back while it is
-- offline, reconnects with growing delays, and cuts what it receives into lines. A command.request goes
-- to commands.ts, which asks the game twice, by a query and by an execution, and remembers the result
-- under the request's key.
--
-- The files. Each handler is a function from the state, and from what the clock, the random numbers,
-- the network and the game give it, to the new state and its effects.
--   Prelude            shared names, lists over native numbers, Boolean tests, integers
--   Radix              numbers in a base (`toString(16)` and its like)
--   Json               JSON values; Stringify and Parse are JSON.stringify and JSON.parse, RoundTrip and
--                      Lines relate them
--   Protocol           protocol/types.ts; Write gives the objects of the messages, Read reads them back;
--                      Codec is protocol/codec.ts; Validate is the orchestrator's check of an
--                      envelope, core/common/src/protocol/envelope.rs
--   Uuid               uuid.ts; Pattern and Order
--   Commands           commands.ts: the mapping to game actions; Cache is its Map; Handler is
--                      handleCommandRequest cut at its awaits, Replay runs it in sequence, Machine runs
--                      several at once
--   Connection         connection.ts, and the type of config.ts: a function for each method of
--                      BridgeConnection; Framing is onData and handleLine, Events runs all methods in
--                      any order; Bounds, Backoff, Delivery, Outbound and Alive are about such runs,
--                      Loss and Doubled about what a failure costs
--   Observation        observation.ts over a record of readings of the game
--   Plugin             index.ts: the handler of the ticks; Requests is the whole plugin, with the callback
--                      that joins the connection and the handlers of commands: Conserved, Delivered,
--                      Correlated and Progress follow its requests, Trace and Machine relate it to
--                      Commands.Machine
--   FakeOrchestrator   scripts/dev/fake-orchestrator.js, the stand-in that prints what the bridge sends
--   SeedPrice          scripts/dev/chaos/seed-price.js
--   World              core/world-model/src/lib.rs, and the snapshots it holds
--   Operator           core/orchestrator/src/operator.rs, which proposes price changes; Window is about
--                      the history it reads, Bounds about what the governor makes of its proposals
--   Governor           core/governor/src, which authorizes proposals; History is what it is to decide, Log
--                      and Budget are about runs, Windows counts events in a window of time
--   Safety             the safety state: core/governor/src/safety_state.rs, and the table of its transitions
--                      in core/orchestrator/src/db.rs; Transitions has the startup, the resolve command, the
--                      rollbacks and the heartbeats, Run all processes as events; Held and Released are
--                      about the ways out of Quarantine and Stopped
--   Watchdog           core/orchestrator/src/bin/watchdog.rs and oscillation.rs
--   Orchestrator       core/orchestrator/src/tcp_server.rs and snapshot.rs, with the rows of db.rs: Tables is
--                      the state, Proposals, Rollback and Handler are the handlers; Audit, Audited and Trail
--                      follow the records of what is sent, Gate and Drop the safety state, Counted, Outcome
--                      and Budget the budgets, Ticks, Keys and Distinct the idempotency keys, Once the results;
--                      Preserved carries what a proposal keeps over a run
--   Health             the health of the connection in core/orchestrator/src/state.rs; Latest
--   Persistence        the buffered observations of core/orchestrator/src/db.rs and their worker; Fifo, Drain
--   Tests              instances at concrete data
--
-- The other side of the wire. The orchestrator holds the latest snapshots in a world model, its operator
-- proposes prices from them, and the governor authorizes while the safety state is Normal; what it
-- authorizes comes to the bridge as a command.request, and each step is a row in the database. The
-- watchdog and the rollbacks change the safety state.
--
-- Bounds and fuel. JSON.parse of n units runs on fuel 4 * n + 1, and the loops of onData and of the fake
-- orchestrator on the length of their buffer and one: each round takes at least one unit of the text. The
-- digits of n are written on fuel n + 1. The clock of an identifier is below 16 ^ 12 milliseconds where a
-- theorem asks for it, since the source writes it in twelve digits, and a draw of Math.random is a
-- numerator below 2 ^ 53. An `Instant` of Rust is a number of nanoseconds; the crates' theorems ask that
-- the instants do not run backwards, as `Instant` promises.
--
-- Not modelled. A number is an integer, as the schemas of bridge/protocol ask, and JSON.parse refuses a
-- fraction or an exponent. A text is its UTF-16 units. The text of a timestamp, the configuration that
-- the build puts in and the game's answers are arguments. Console output is left out. A message of the
-- kind command.request that is no request by the types is not followed past the callback of index.ts. The
-- chunks of the fake orchestrator are decoded texts, and its limit is an argument, none where Number gives
-- no limit. In the crates, `f32` and its `<` are parameters, a reason is a value, and sums do not
-- overflow; a tick of 64 bits that is stored as a signed number wraps at 2 ^ 63. What a call of the
-- database, the file system, the socket or the generator of identifiers returns is an argument, a failure
-- being none or false. The rows of state_transitions and of the rollbacks are without their reason and who
-- triggered them. The heartbeat's check of the safety state, which the source spawns, runs at once, and a
-- message is handled in no time. The snapshots that a message submits to Persistence, and db_state, which
-- its worker writes, are modelled apart from the handlers. The endpoint of the health, the reports, the
-- queries that only read for them, and the parsing of a line by serde are left out.
-- bridge/openrct2-plugin/src/types/openrct2.d.ts holds the game's vendored declarations, without code;
-- esbuild.config.mjs is build glue.
pub mod Prelude
pub mod Radix
pub mod Json
pub mod Uuid
pub mod Commands
pub mod Connection
pub mod Protocol
pub mod Observation
pub mod Plugin
pub mod FakeOrchestrator
pub mod SeedPrice
pub mod Governor
pub mod Operator
pub mod Safety
pub mod Watchdog
pub mod World
pub mod Health
pub mod Orchestrator
pub mod Persistence
pub mod Tests

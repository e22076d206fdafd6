-- ===== src/Plugin/Requests.antt =====
-- bridge/openrct2-plugin/src/index.ts as a whole: the connection, the handling of commands, and the
-- callback that joins them. A call of a handler runs to its next await; the continuations that are ready
-- run at the end of the event.
pub mod Conserved
pub mod Serves
pub mod Correlated
pub mod Delivered
pub mod Progress
pub mod Handlers
pub mod Machine
pub mod Trace
use helter_skelter.Prelude.{ℕ, suc, Text, Option, none, some, List, [], ◌∷◌, ◌++◌, map}
use helter_skelter.Json.{Json}
use helter_skelter.Protocol.{Payload, command_request, CommandRequest, CommandResult}
use helter_skelter.Protocol.Read.{as_envelope}
use helter_skelter.Commands.{GameActionResult}
use helter_skelter.Commands.Cache.{Cache}
use helter_skelter.Commands.Handler.{answer, await, start, after_query, after_execute}
use helter_skelter.Commands.Machine.{Stage, querying, executing, Task, Call, query, execute, pick}
use helter_skelter.Connection.{
  BridgeConfig, BridgeConnection, Effect, Moment, Network, new, connect, on_connect, on_close,
  on_error, receive, send_command_result,
}
use helter_skelter.Connection.Framing.{Outcome, dispatched, logged, threw, on_data}
use helter_skelter.Plugin.{Tick, on_tick}

-- A request whose handler awaits the game, with the message that brought it.
abbrev pub Pending : Type 0
Pending = Text × Task

pub record Plugin : Type 0 where
  pub connection : BridgeConnection
  pub cache : Cache
  pub waiting : List Pending

-- What happens: a request is handed to the handler, the game is called, the promise of a request
-- resolves and its result is sent, or the connection does something.
pub data Output : Type 0 where
  accepted : Text → Output
  asked : Text → Call → Output
  resolved : Text → CommandRequest → CommandResult → Output
  network : Effect → Output

abbrev pub Step : Type 0
Step = Plugin × List Output

-- A promise that has resolved, and whose continuation has yet to run.
pub record Reply : Type 0 where
  pub message_id : Text
  pub request : CommandRequest
  pub result : CommandResult

pub record Begun : Type 0 where
  pub plugin : Plugin
  pub outputs : List Output
  pub replies : List Reply

request_in : Text → Payload → Option (Text × CommandRequest)
request_in id (command_request r) = some (id, r)
request_in id _ = none

-- The source casts the object; one that is no request is not followed any further here.
unfoldable pub as_request : Json → Option (Text × CommandRequest)
unfolding request_in
as_request v = elim (as_envelope v) [ none ↦ none | some e ↦ request_in e.message_id e.payload ]

requests_cons :
    Option (Text × CommandRequest) → List (Text × CommandRequest) → List (Text × CommandRequest)
requests_cons none rs = rs
requests_cons (some r) rs = r ∷ rs

-- The requests that the lines of one data event hand on.
unfoldable pub requests_of : List Outcome → List (Text × CommandRequest)
unfolding requests_cons
requests_of [] = []
requests_of (dispatched v ∷ os) = requests_cons (as_request v) (requests_of os)
requests_of (logged ∷ os) = requests_of os
requests_of (threw ∷ os) = requests_of os

-- The callback of `BridgeConnection`, up to the handler's first await.
unfoldable pub begin : Text × CommandRequest → Plugin → Begun
begin (id, request) p = elim (start p.cache request) [
  | answer cache result ↦ record {
    plugin = record p { cache = cache };
    outputs = accepted id ∷ [];
    replies = (record { message_id = id; request = request; result = result }) ∷ [];
  }
  | await action ↦ record {
    plugin = record p {
      waiting = (id, record { request = request; stage = querying }) ∷ p.waiting;
    };
    outputs = accepted id ∷ asked id (query request action) ∷ [];
    replies = [];
  }
]

unfoldable pub begin_all : List (Text × CommandRequest) → Plugin → Begun
begin_all [] p = record { plugin = p; outputs = []; replies = [] }
begin_all (r ∷ rs) p =
    let first = begin r p in
    let rest = begin_all rs first.plugin in
    record {
      plugin = rest.plugin;
      outputs = first.outputs ++ rest.outputs;
      replies = first.replies ++ rest.replies;
    }

-- `.then((result) => connection.sendCommandResult(envelope.message_id, result))`.
unfoldable pub respond : Network → Moment → Reply → Plugin → Step
respond net t r p =
    let sent = send_command_result net t r.message_id r.result p.connection in
    (
      record p { connection = sent.0 },
      resolved r.message_id r.request r.result ∷ map network sent.1,
    )

unfoldable pub respond_all : Network → (ℕ → Moment) → List Reply → Plugin → Step
respond_all net ts [] p = (p, [])
respond_all net ts (r ∷ rs) p =
    let first = respond net (ts 0) r p in
    let rest = respond_all net (λ i. ts (suc i)) rs first.0 in (rest.0, first.1 ++ rest.1)

-- A data event: the lines are handled, and then the continuations that are ready run.
unfoldable pub on_input : Network → (ℕ → Moment) → Text → Plugin → Step
unfolding receive
on_input net ts text p =
    let d = on_data p.connection.inbound_buffer text in
    let got = receive text p.connection in
    let begun = begin_all (requests_of d.outcomes) (record p { connection = got.0 }) in
    let done = respond_all net ts begun.replies begun.plugin in
    (done.0, map network got.1 ++ (begun.outputs ++ done.1))

-- The game has answered the query or the execution of a request that is no longer in `waiting`.
unfoldable pub proceed :
    Network → Moment → Text → Stage → CommandRequest → GameActionResult → Plugin → Step
unfolding respond
proceed net t id querying request result p = elim (after_query p.cache request result) [
  | answer cache refused ↦
      respond net t (record { message_id = id; request = request; result = refused })
        (record p { cache = cache })
  | await action ↦ (
    record p { waiting = (id, record { request = request; stage = executing }) ∷ p.waiting },
    asked id (execute request action) ∷ [],
  )
]
proceed net t id executing request result p =
    let (done, cache) = after_execute p.cache request result in
    respond net t (record { message_id = id; request = request; result = done })
      (record p { cache = cache })

-- An answer to no request that waits does nothing.
unfoldable pub on_game : Network → Moment → ℕ → GameActionResult → Plugin → Step
on_game net t i result p = elim (pick i p.waiting) [
  | none ↦ (p, [])
  | some ((id, task), rest) ↦
      proceed net t id task.stage task.request result (record p { waiting = rest })
]

pub data Event : Type 0 where
  timer : Network → Event
  opened : Network → Moment → Text → Event
  closed failed : Event
  tick : Tick → Event
  input : Network → (ℕ → Moment) → Text → Event
  game : Network → Moment → ℕ → GameActionResult → Event

abbrev pub on_connection : (BridgeConnection → BridgeConnection × List Effect) → Plugin → Step
on_connection f p = let d = f p.connection in (record p { connection = d.0 }, map network d.1)

unfoldable pub step : Event → Plugin → Step
step (timer net) p = on_connection (connect net) p
step (opened net t version) p = on_connection (on_connect net t version) p
step closed p = on_connection on_close p
step failed p = on_connection on_error p
step (tick k) p = on_connection (on_tick k) p
step (input net ts text) p = on_input net ts text p
step (game net t i result) p = on_game net t i result p

unfoldable pub run : List Event → Plugin → Step
run [] p = (p, [])
run (e ∷ es) p = let now = step e p in let later = run es now.0 in (later.0, now.1 ++ later.1)

-- `main` before its `connection.start()`, which does what a timer does.
unfoldable pub init : BridgeConfig → Text → Plugin
unfolding new
init cfg simulation_id = record { connection = new cfg simulation_id; cache = []; waiting = [] }

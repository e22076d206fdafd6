-- ===== src/Commands/Machine.antt =====
-- The handlers of several requests in flight (bridge/openrct2-plugin/src/commands.ts, called by
-- bridge/openrct2-plugin/src/index.ts): each runs up to an await, and the game's answers resume them in
-- any order. `calls` records the game's calls, the last one first.
pub mod Once
pub mod Pick
use helter_skelter.Prelude.{ℕ, zero, suc, Option, none, some, List, [], ◌∷◌}
use helter_skelter.Protocol.{CommandRequest, CommandResult}
use helter_skelter.Commands.{GameActionResult, GameAction}
use helter_skelter.Commands.Cache.{Cache}
use helter_skelter.Commands.Handler.{answer, await, start, after_query, after_execute}

pub data Stage : Type 0 where
  querying executing : Stage

pub record Task : Type 0 where
  pub request : CommandRequest
  pub stage : Stage

pub data Call : Type 0 where
  query execute : CommandRequest → GameAction → Call

pub record Machine : Type 0 where
  pub cache : Cache
  pub waiting : List Task
  pub calls : List Call
  pub replies : List (CommandRequest × CommandResult)

reply : Machine → CommandRequest → Cache → CommandResult → Machine
reply m request cache result = record m { cache = cache; replies = (request, result) ∷ m.replies }

call : Machine → Stage → CommandRequest → Call → Machine
call m stage request c = record m {
  waiting = (record { request = request; stage = stage }) ∷ m.waiting;
  calls = c ∷ m.calls;
}

-- A command.request arrives.
unfoldable pub deliver : CommandRequest → Machine → Machine
unfolding reply call
deliver request m = elim (start m.cache request) [
  | answer cache result ↦ reply m request cache result
  | await action ↦ call m querying request (query request action)
]

unfoldable pub resumed : Stage → CommandRequest → GameActionResult → Machine → Machine
unfolding reply call
resumed querying request result m = elim (after_query m.cache request result) [
  | answer cache refused ↦ reply m request cache refused
  | await action ↦ call m executing request (execute request action)
]
resumed executing request result m =
    let (done, cache) = after_execute m.cache request result in reply m request cache done

-- The game answers a task, which has been taken out of `waiting`.
unfoldable pub resume : Task → GameActionResult → Machine → Machine
unfolding resumed
resume task result m = resumed task.stage task.request result m

-- An element and the others.
unfoldable pub pick {ℓ} : {A : Type ℓ} → ℕ → List A → Option (A × List A)
pick i [] = none
pick zero (t ∷ ts) = some (t, ts)
pick (suc i) (t ∷ ts) = elim (pick i ts) [ none ↦ none | some (u, rest) ↦ some (u, t ∷ rest) ]

pub data Event : Type 0 where
  arrive : CommandRequest → Event
  answered : ℕ → GameActionResult → Event

-- An answer to no waiting task does nothing.
unfoldable pub step : Event → Machine → Machine
step (arrive request) m = deliver request m
step (answered i result) m = elim (pick i m.waiting) [
  | none ↦ m
  | some (task, rest) ↦ resume task result (record m { waiting = rest })
]

unfoldable pub run : List Event → Machine → Machine
run [] m = m
run (e ∷ es) m = run es (step e m)

-- ===== src/Commands/Handler.antt =====
-- `handleCommandRequest` of bridge/openrct2-plugin/src/commands.ts, cut at its two awaits: what it does
-- up to the query, after the query's answer, and after the execution's answer.
use helter_skelter.Prelude.{◌≡◌, ◌⊎◌, inl, inr, refl, Option, none, some, List, [], ◌∷◌}
use helter_skelter.Prelude.Int.{pos}
use helter_skelter.Protocol.{CommandRequest, CommandResult, ErrorInfo}
use helter_skelter.Commands.{GameActionResult, GameAction, to_game_action, to_error_info, otherwise}
use helter_skelter.Commands.Cache.{Cache, lookup, insert}

-- Either the promise resolves, or the next call of the game is awaited.
pub data Progress : Type 0 where
  answer : Cache → CommandResult → Progress
  await : GameAction → Progress

pub Progress-cases :
    (x : Progress)
    → ((cache : Cache) × (result : CommandResult) × (x ≡ answer cache result))
      ⊎ ((action : GameAction) × (x ≡ await action))
Progress-cases (answer cache result) = inl (cache, result, refl)
Progress-cases (await action) = inr (action, refl)

unfoldable pub start : Cache → CommandRequest → Progress
start cache request = elim (lookup request.idempotency_key cache) [
  | some cached ↦ answer cache cached
  | none ↦ await (to_game_action request.action)
]

abbrev pub execute_outcome : GameActionResult → Option ErrorInfo → CommandResult
execute_outcome execute_result (some e) = record { engine_cost = none; engine_error = some e }
execute_outcome execute_result none = record {
  engine_cost = some (otherwise execute_result.cost (pos 0));
  engine_error = none;
}

unfoldable pub after_query : Cache → CommandRequest → GameActionResult → Progress
after_query cache request query_result = elim (to_error_info query_result) [
  | some query_error ↦
      let result : CommandResult = record { engine_cost = none; engine_error = some query_error } in
      answer (insert request.idempotency_key result cache) result
  | none ↦ await (to_game_action request.action)
]

unfoldable pub after_execute : Cache → CommandRequest → GameActionResult → CommandResult × Cache
after_execute cache request execute_result =
    let result = execute_outcome execute_result (to_error_info execute_result) in
    (result, insert request.idempotency_key result cache)

-- The handler with the game's two calls made in place, where nothing else runs at its awaits. A query
-- does not change the game, an execution may.
module _ {World : Type 0} (query : GameAction → World → GameActionResult)
    (execute : GameAction → World → GameActionResult × World) where
  finish : CommandRequest → World → Cache → GameAction → CommandResult × World × Cache
  finish request world cache action =
      let (execute_result, world') = execute action world in
      let (result, cache') = after_execute cache request execute_result in (result, world', cache')

  unfoldable pub handle : CommandRequest → World → Cache → CommandResult × World × Cache
  unfolding start after_query after_execute finish
  handle request world cache = elim (start cache request) [
    | answer cache' cached ↦ (cached, world, cache')
    | await action ↦ elim (after_query cache request (query action world)) [
      | answer cache' refused ↦ (refused, world, cache')
      | await action' ↦ finish request world cache action'
    ]
  ]

  -- Requests handled one after another.
  unfoldable pub handle_all :
      List CommandRequest → World → Cache → List CommandResult × World × Cache
  unfolding handle
  handle_all [] world cache = ([], world, cache)
  handle_all (r ∷ rs) world cache =
      let (result, world', cache') = handle r world cache in
      let (results, world'', cache'') = handle_all rs world' cache' in
      (result ∷ results, world'', cache'')

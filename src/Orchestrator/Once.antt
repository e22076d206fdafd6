-- ===== src/Orchestrator/Once.antt =====
-- A command.result counts once (core/orchestrator/src/tcp_server.rs).
use helter_skelter.Prelude.{
  ◌≡◌, refl, ap, ◌∙◌, Bool, true, false, Text, text_eq, Option, none, some, List, [], ◌∷◌,
  Bool-cases, inl, inr,
}
use helter_skelter.Protocol.{CommandResult, ErrorInfo}
use helter_skelter.Safety.Transitions.{Restoring}
use helter_skelter.Orchestrator.Tables.{PendingAction, Node, get, remove}
use helter_skelter.Orchestrator.Rollback.{roll_back}
use helter_skelter.Orchestrator.Handler.{follow_up, with_result, resolve_action, on_command_result}

get-remove : {A : Type 0} (k : Text) (m : List (Text × A)) → get k (remove k m) ≡ none
unfolding get remove
get-remove k [] = refl
get-remove k ((j, a) ∷ m) = elim (Bool-cases (text_eq j k)) [
  | inl same ↦ rw same (get-remove k m)
  | inr other ↦ rw other (rw other (get-remove k m))
]

module _ {F : Type 0} where
  follow_up-pending :
      (e : Option ErrorInfo) (calls : Restoring) (sim : Text) (pending : PendingAction) (n : Node F)
      → (follow_up e calls sim pending n).pending_actions ≡ n.pending_actions
  unfolding roll_back
  follow_up-pending none calls sim pending n = refl
  follow_up-pending (some e) calls sim pending n = refl

  -- The action is no longer awaited.
  resolved-pending :
      (sim id : Text) (r : CommandResult) (stores : Bool) (calls : Restoring)
      (found : Option PendingAction) (n : Node F)
      → get id n.pending_actions ≡ found
      → get id (resolve_action sim id r stores calls found n).pending_actions ≡ none
  unfolding resolve_action
  resolved-pending sim id r stores calls none n e = e
  resolved-pending sim id r false calls (some pending) n e = get-remove id n.pending_actions
  resolved-pending sim id r true calls (some pending) n e =
      ap (get id) (
        follow_up-pending r.engine_error calls sim pending
          (with_result pending r (record n { pending_actions = remove id n.pending_actions })))
      ∙ get-remove id n.pending_actions

-- A second command.result for the same request changes nothing, whatever it says and whichever calls
-- fail: it stores no result, triggers no rollback and starts no verification.
pub on_command_result-again :
    {F : Type 0} (sim sim' id : Text) (r r' : CommandResult) (stores stores' : Bool)
    (calls calls' : Restoring) (n : Node F)
    → let n' = on_command_result sim (some id) r stores calls n in
      on_command_result sim' (some id) r' stores' calls' n' ≡ n'
unfolding on_command_result resolve_action
on_command_result-again sim sim' id r r' stores stores' calls calls' n =
    let gone = resolved-pending sim id r stores calls _ n refl in rw gone refl

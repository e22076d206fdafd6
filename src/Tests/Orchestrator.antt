-- ===== src/Tests/Orchestrator.antt =====
-- Instances of the theorems about the orchestrator's handling of messages.
use helter_skelter.Prelude.{
  ℕ, ◌≤◌, ◌≡◌, refl, true, Text, text_eq, codes, none, some, List, [], ◌∷◌, length, ltb, arith,
}
use helter_skelter.Prelude.Int.{pos}
use helter_skelter.Radix.{to_string, digits_from, digit}
use helter_skelter.Protocol.{CommandResult}
use helter_skelter.Governor.{
  one_hour, one_day, younger, get_tick, insert_tick, new, authorize, authorize_at,
}
use helter_skelter.Governor.Windows.{in_window}
use helter_skelter.World.{empty, evict, record_snapshot, record_tick}
use helter_skelter.Operator.{
  back, find_ride, recent, all_high, propose_one, propose_each, propose_price_changes,
  price_increase_proposal,
}
use helter_skelter.Safety.{
  normal, quarantine, authorizes_proposals, transition, latest, parse, read_row,
  current_safety_state,
}
use helter_skelter.Safety.State.{state_at, working}
use helter_skelter.Safety.Transitions.{Restoring, recover_from_cautious_on_clean_heartbeat}
use helter_skelter.Safety.Released.{restoring}
use helter_skelter.Orchestrator.Tables.{Database, Node, get, remove, insert, as_u64}
use helter_skelter.Orchestrator.Proposals.{
  Answers, send, act, answered, ask, handle_proposal, ensure_recent_snapshot, latest_snapshot,
}
use helter_skelter.Orchestrator.Rollback.{check_pending_verifications, verify_all}
use helter_skelter.Orchestrator.Handler.{
  Message, Event, handle_all, on_observation, on_heartbeat_message, on_command_result,
  resolve_action, apply, run, start,
}
use helter_skelter.Orchestrator.Audit.{IsAudited}
use helter_skelter.Orchestrator.Trail.{run-IsAudited}
use helter_skelter.Orchestrator.Gate.{IsIdle, handle_proposal-IsIdle}
use helter_skelter.Orchestrator.Drop.{on_observation-sends_nothing}
use helter_skelter.Orchestrator.Budget.{sent_at, run-le_budgets}
use helter_skelter.Orchestrator.Distinct.{IsDistinct, run-IsDistinct}
use helter_skelter.Orchestrator.Once.{on_command_result-again}
use helter_skelter.Tests.Policy.{constitution, proposal, observed}

abbrev simulation : Text
simulation = codes "sim"

abbrev database : Database ℕ
database = record {
  simulations = [];
  proposals = [];
  authorizations = [];
  actions = [];
  results = [];
  snapshots =
      (record {
        id = codes "s-1";
        simulation_id = simulation;
        storage_path = codes "a.park";
        tick = pos 0;
      })
      ∷ [];
  rollbacks = [];
  state_transitions = [];
}

abbrev answers : ℕ → Answers
answers k = record {
  proposal_id = some (codes "p-1");
  access = working;
  finds_snapshots = true;
  script = some (codes "b.park");
  snapshot_id = some (codes "s-2");
  authorization_id = some (codes "z-1");
  action_id = some (codes "a-1");
  message_id = codes "m-1";
  writes = true;
}

abbrev calls : ℕ → Restoring
calls k = restoring

abbrev at : ℕ → Message → Event
at now m = record { now = now; simulation_id = simulation; message = m }

abbrev fine : CommandResult
fine = record { engine_cost = some (pos 0); engine_error = none }

abbrev events : List Event
events =
    at 1 Message.accepted
    ∷ at 2 (Message.hello true)
    ∷ at 3 (Message.heartbeat 40 working true)
    ∷ at 4 (Message.observation_snapshot (observed 5 9) calls answers)
    ∷ at 5 (Message.observation_snapshot (observed 5 8) calls answers)
    ∷ at 6 (Message.command_result (some (codes "m-1")) fine true restoring)
    ∷ []

abbrev after : Node ℕ
after = run ltb 80 events (start constitution database)

-- One request is sent, its result is recorded, and it awaits its verification.
one_is_sent :
    (length after.sent ≡ 1)
    × (length after.db.results ≡ 1)
    × (after.pending_actions ≡ [])
    × (length after.pending_verifications ≡ 1)
unfolding run apply on_observation handle_all handle_proposal ask answered act send
    ensure_recent_snapshot latest_snapshot authorize authorize_at new younger get_tick insert_tick
    propose_price_changes propose_each propose_one price_increase_proposal back recent find_ride
    all_high evict record_snapshot record_tick current_safety_state read_row latest text_eq
    authorizes_proposals on_command_result resolve_action on_heartbeat_message as_u64 get remove
    insert recover_from_cautious_on_clean_heartbeat check_pending_verifications verify_all to_string
    digits_from digit empty
one_is_sent = (refl, refl, refl, refl)

run-IsAudited_example : IsAudited constitution after
unfolding new
run-IsAudited_example =
    run-IsAudited constitution ltb 80 events (start constitution database) (refl, tt, tt, tt)

run-le_budgets_example :
    (in_window sent_at one_hour 100 after.sent ≤ 2) × (in_window sent_at one_day 100 after.sent ≤ 3)
run-le_budgets_example = run-le_budgets constitution ltb 80 database events 100 (omega arith)

run-IsDistinct_example : IsDistinct after.sent
run-IsDistinct_example =
    run-IsDistinct constitution ltb 80 database events (omega arith) (omega arith)

abbrev quarantined : Node ℕ
quarantined =
    start constitution
      (record database { state_transitions = transition none normal quarantine none ∷ [] })

handle_proposal-IsIdle_example :
    IsIdle quarantined (
      handle_proposal
        (answers 0)
        simulation
        40
        (proposal 0 (pos 5) 80)
        7
        (pos 1000)
        ltb
        quarantined)
handle_proposal-IsIdle_example =
    handle_proposal-IsIdle (answers 0) simulation 40 (proposal 0 (pos 5) 80) 7 (pos 1000) ltb
      quarantined (unfold state_at latest parse text_eq authorizes_proposals in refl)

-- An action is awaited from before which the cash was 5000; now it is 1000, and 1000 less is allowed.
abbrev waiting : Node ℕ
waiting = record (start constitution database) {
  pending_verifications =
      (codes "a-1", record { snapshot_id = codes "s-1"; cash_before = pos 5000 }) ∷ [];
}

on_observation-sends_nothing_example :
    let n' = on_observation ltb 80 7 simulation (observed 5 9) calls answers waiting in
    (n'.sent ≡ waiting.sent)
    × (n'.pending_actions ≡ waiting.pending_actions)
    × (n'.shared.governor ≡ waiting.shared.governor)
unfolding record_snapshot evict back empty new
on_observation-sends_nothing_example =
    on_observation-sends_nothing ltb 80 7 simulation (observed 5 9) calls answers waiting refl
      (λ k. refl) (omega arith) (omega arith)

on_command_result-again_example :
    let n' = on_command_result simulation (some (codes "m-1")) fine true restoring after in
    on_command_result simulation (some (codes "m-1")) fine true restoring n' ≡ n'
on_command_result-again_example =
    on_command_result-again simulation simulation (codes "m-1") fine fine true true restoring
      restoring after

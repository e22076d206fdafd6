-- ===== src/Orchestrator/Handler.antt =====
-- `apply` of core/orchestrator/src/tcp_server.rs, with the loop of the connections around it.
use helter_skelter.Prelude.{
  ℕ, suc, Bool, Text, Option, none, some, List, [], ◌∷◌, if◌then◌else◌, text_eq,
}
use helter_skelter.Prelude.Int.{ℤ, pos}
use helter_skelter.Protocol.{CommandResult, ErrorInfo}
use helter_skelter.Governor.{Constitution, Proposal, new}
use helter_skelter.World.{Observed, record_snapshot, record_tick, empty}
use helter_skelter.Health.{connected, on_hello, on_heartbeat, on_disconnect}
use helter_skelter.Operator.{back, propose_price_changes}
use helter_skelter.Safety.{Access}
use helter_skelter.Safety.Transitions.{Restoring, recover_from_cautious_on_clean_heartbeat}
use helter_skelter.Orchestrator.Tables.{
  ResultRow, Database, PendingAction, Node, get, remove, insert,
}
use helter_skelter.Orchestrator.Proposals.{Answers, handle_proposal}
use helter_skelter.Orchestrator.Rollback.{roll_back, check_pending_verifications}

-- A connection that is accepted or that ends, and the payloads with a handler. `calls` and `answers`
-- are, for the k-th verification and the k-th proposal, what the calls return.
pub data Message : Type 0 where
  accepted closed unhandled : Message
  hello : (starts : Bool) → Message
  heartbeat : (tick : ℕ) → Access → (settles : Bool) → Message
  observation_snapshot : Observed → (calls : ℕ → Restoring) → (answers : ℕ → Answers) → Message
  command_result :
      (correlation_id : Option Text)
      → CommandResult
      → (stores : Bool) → (calls : Restoring) → Message

pub record Event : Type 0 where
  pub now : ℕ
  pub simulation_id : Text
  pub message : Message

-- `world.tick().unwrap_or(0)`.
abbrev pub or_zero : Option ℕ → ℕ
or_zero none = 0
or_zero (some tick) = tick

abbrev pub cash_of : Option Observed → ℤ
cash_of none = pos 0
cash_of (some s) = s.cash

-- `ON CONFLICT (id) DO NOTHING`.
unfoldable pub insert_simulation_start : Text → List Text → List Text
insert_simulation_start sim [] = sim ∷ []
insert_simulation_start sim (s ∷ sims) =
    let rest = insert_simulation_start sim sims in if text_eq s sim then s ∷ sims else s ∷ rest

abbrev pub result_row : PendingAction → CommandResult → ResultRow
result_row pending r = record {
  action_id = pending.action_id;
  engine_cost = r.engine_cost;
  engine_error = r.engine_error;
}

module _ {F : Type 0} where
  unfoldable pub on_heartbeat_message : ℕ → Text → ℕ → Access → Bool → Node F → Node F
  on_heartbeat_message now sim tick access settles n =
      let shared = n.shared in
      let (count, ledger) =
        recover_from_cautious_on_clean_heartbeat access settles sim tick
          shared.governor.constitution.cautious_recovery_heartbeats
          shared.clean_heartbeats_since_cautious n.db.state_transitions in
      record n {
        db = record n.db { state_transitions = ledger };
        shared = record shared {
          health = on_heartbeat now tick shared.health;
          world = record_tick tick shared.world;
          clean_heartbeats_since_cautious = count;
        };
      }

  abbrev pub with_result : PendingAction → CommandResult → Node F → Node F
  with_result pending r n = record n {
    db = record n.db { results = result_row pending r ∷ n.db.results };
  }

  -- After the insertion of the result: a rollback on an error, else a verification is awaited.
  abbrev pub follow_up : Option ErrorInfo → Restoring → Text → PendingAction → Node F → Node F
  follow_up (some e) calls sim pending n =
      roll_back calls sim pending.snapshot_id (or_zero n.shared.world.tick) n
  follow_up none calls sim pending n = record n {
    pending_verifications =
        insert pending.action_id
          (record { snapshot_id = pending.snapshot_id; cash_before = pending.cash_before })
          n.pending_verifications;
  }

  unfoldable pub resolve_action :
      Text → Text → CommandResult → Bool → Restoring → Option PendingAction → Node F → Node F
  resolve_action sim id r stores calls none n = n
  resolve_action sim id r stores calls (some pending) n =
      let n' = record n { pending_actions = remove id n.pending_actions } in
      if stores then follow_up r.engine_error calls sim pending (with_result pending r n') else n'

  unfoldable pub on_command_result :
      Text → Option Text → CommandResult → Bool → Restoring → Node F → Node F
  unfolding resolve_action
  on_command_result sim none r stores calls n = n
  on_command_result sim (some id) r stores calls n =
      resolve_action sim id r stores calls (get id n.pending_actions) n

  module _ (below : F → F → Bool) (confidence : F) where
    unfoldable pub handle_all :
        ℕ → Text → ℕ → ℤ → (ℕ → Answers) → ℕ → List (Proposal F) → Node F → Node F
    handle_all now sim tick cash answers k [] n = n
    handle_all now sim tick cash answers k (p ∷ ps) n =
        handle_all now sim tick cash answers (suc k) ps
          (handle_proposal (answers k) sim tick p now cash below n)

    unfoldable pub on_observation :
        ℕ → Text → Observed → (ℕ → Restoring) → (ℕ → Answers) → Node F → Node F
    on_observation now sim s calls answers n =
        let world = record_snapshot s n.shared.world in
        let constitution = n.shared.governor.constitution in
        let tick = or_zero world.tick in
        let cash = cash_of (back world.history) in
        let seen = record n { shared = record n.shared { world = world } } in
        let verified =
          check_pending_verifications calls sim tick cash constitution.max_unexpected_cash_drop
            seen in
        handle_all now sim tick cash answers 0
          (propose_price_changes confidence constitution tick world.history) verified

    unfoldable pub apply : ℕ → Text → Message → Node F → Node F
    apply now sim accepted n = record n {
      shared = record n.shared { health = connected };
      pending_actions = [];
      pending_verifications = [];
    }
    apply now sim closed n = record n {
      shared = record n.shared { health = on_disconnect n.shared.health };
    }
    apply now sim unhandled n = n
    apply now sim (hello starts) n = record n {
      shared = record n.shared { health = on_hello now n.shared.health };
      db = record n.db {
        simulations =
            if starts then insert_simulation_start sim n.db.simulations else n.db.simulations;
      };
    }
    apply now sim (heartbeat tick access settles) n =
        on_heartbeat_message now sim tick access settles n
    apply now sim (observation_snapshot s calls answers) n =
        on_observation now sim s calls answers n
    apply now sim (command_result id r stores calls) n = on_command_result sim id r stores calls n

    unfoldable pub run : List Event → Node F → Node F
    run [] n = n
    run (e ∷ es) n = run es (apply e.now e.simulation_id e.message n)

-- The orchestrator's start, on the tables that it finds.
abbrev pub start : {F : Type 0} → Constitution F → Database F → Node F
start c db = record {
  db = db;
  shared = record {
    health = connected;
    world = empty;
    governor = new c;
    clean_heartbeats_since_cautious = 0;
  };
  pending_actions = [];
  pending_verifications = [];
  sent = [];
}

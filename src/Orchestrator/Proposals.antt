-- ===== src/Orchestrator/Proposals.antt =====
-- `handle_proposal` of core/orchestrator/src/tcp_server.rs, a function for each of its stages, and
-- `ensure_recent_snapshot` of core/orchestrator/src/snapshot.rs.
use helter_skelter.Prelude.{
  ℕ, ◌-◌, Bool, Text, codes, Option, none, some, List, [], ◌∷◌, ◌++◌, leb, if◌then◌else◌, text_eq,
}
use helter_skelter.Prelude.Int.{ℤ, pos}
use helter_skelter.Radix.{to_string}
use helter_skelter.Json.{Json, num, str, obj, member, end}
use helter_skelter.Protocol.{set_ride_price, CommandRequest}
use helter_skelter.Governor.{
  Governor, Proposal, Authorization, Decision, authorized, rejected, authorize,
}
use helter_skelter.Safety.{
  SafetyState, Access, Ledger, authorizes_proposals, as_i64, current_safety_state,
}
use helter_skelter.Orchestrator.Tables.{
  as_u32, as_u64, ProposalRow, AuthorizationRow, ActionRow, Why, policy, state_is,
  no_recent_snapshot, SnapshotRow, Outbound, Node, insert,
}

-- What the calls return: the identifiers of the rows that are inserted, that of the message, the path
-- that the snapshot script prints, and whether the line is serialized and written.
pub record Answers : Type 0 where
  pub proposal_id : Option Text
  pub access : Access
  pub finds_snapshots : Bool
  pub script : Option Text
  pub snapshot_id : Option Text
  pub authorization_id : Option Text
  pub action_id : Option Text
  pub message_id : Text
  pub writes : Bool

-- `latest_snapshot`.
unfoldable pub latest_snapshot : Text → List SnapshotRow → Option SnapshotRow
latest_snapshot sim [] = none
latest_snapshot sim (row ∷ rows) =
    if text_eq row.simulation_id sim then some row else latest_snapshot sim rows

abbrev pub idempotency_key_of : Text → ℕ → ℕ → Text
idempotency_key_of sim ride tick =
    codes "operator-sim"
    ++ sim
    ++ codes "-ride"
    ++ to_string 10 ride
    ++ codes "-tick"
    ++ to_string 10 tick

abbrev pub command_of : ℕ → ℤ → Json
command_of ride price = obj (
    member (codes "action") (str (codes "set_ride_price")) (
      member (codes "params")
        (obj (member (codes "ride_id") (num (pos ride)) (member (codes "price") (num price) end)))
        end))

abbrev pub snapshot_row : Text → ℕ → Text → Text → SnapshotRow
snapshot_row sim tick path id = record {
  id = id;
  simulation_id = sim;
  storage_path = path;
  tick = as_i64 tick;
}

module _ {F : Type 0} (a : Answers) (sim : Text) (tick : ℕ) where
  abbrev pub with_snapshot : Text → Text → Node F → Node F
  with_snapshot path id n = record n {
    db = record n.db { snapshots = snapshot_row sim tick path id ∷ n.db.snapshots };
  }

  abbrev pub stored : Option Text → Option Text → Node F → Option Text × Node F
  stored none id n = (none, n)
  stored (some path) none n = (none, n)
  stored (some path) (some id) n = (some id, with_snapshot path id n)

  -- The script, and the row of its snapshot.
  unfoldable pub take_snapshot : Node F → Option Text × Node F
  take_snapshot n = stored a.script a.snapshot_id n

  abbrev pub recent_or : ℕ → Option SnapshotRow → Node F → Option Text × Node F
  recent_or max_age none n = take_snapshot n
  recent_or max_age (some row) n =
      if leb (tick - as_u64 row.tick) max_age then (some row.id, n) else take_snapshot n

  unfoldable pub ensure_recent_snapshot : ℕ → Node F → Option Text × Node F
  unfolding take_snapshot
  ensure_recent_snapshot max_age n =
      if a.finds_snapshots
      then recent_or max_age (latest_snapshot sim n.db.snapshots) n
      else (none, n)

module _ {F : Type 0} where
  abbrev pub proposal_row : Text → Proposal F → Text → ProposalRow F
  proposal_row sim p id = record {
    id = id;
    simulation_id = sim;
    agent = p.agent;
    assumptions = p.assumptions;
    predicted_effect = p.predicted_effect;
    confidence = p.confidence;
    cost_envelope = p.cost_envelope;
    expiry_tick = as_i64 p.expiry_tick;
  }

  abbrev pub with_proposal : Text → Proposal F → Text → Node F → Node F
  with_proposal sim p id n = record n {
    db = record n.db { proposals = proposal_row sim p id ∷ n.db.proposals };
  }

  abbrev pub authorization_row : Text → Text → Decision → Why F → Text → AuthorizationRow F
  authorization_row id proposal_id decision reason policy_version = record {
    id = id;
    proposal_id = proposal_id;
    decision = decision;
    reason = reason;
    policy_version = policy_version;
  }

  abbrev pub with_authorization : AuthorizationRow F → Node F → Node F
  with_authorization row n = record n {
    db = record n.db { authorizations = row ∷ n.db.authorizations };
  }

  abbrev pub action_row : Text → ℕ → Proposal F → Text → Text → ActionRow
  action_row sim tick p id authorization_id = record {
    id = id;
    authorization_id = authorization_id;
    command = command_of p.ride_id p.proposed_price;
    idempotency_key = idempotency_key_of sim p.ride_id tick;
    expiry_tick = as_i64 p.expiry_tick;
    tick = as_i64 tick;
  }

  abbrev pub with_action : ActionRow → Node F → Node F
  with_action row n = record n { db = record n.db { actions = row ∷ n.db.actions } }

  abbrev pub with_governor : Governor F → Node F → Node F
  with_governor g n = record n { shared = record n.shared { governor = g } }

  abbrev pub with_transitions : Ledger → Node F → Node F
  with_transitions ledger n = record n { db = record n.db { state_transitions = ledger } }

  -- The request of an authorized proposal.
  abbrev pub request_of : Text → ℕ → Proposal F → CommandRequest
  request_of sim tick p = record {
    action = set_ride_price (pos p.ride_id) (pos (as_u32 p.proposed_price));
    idempotency_key = idempotency_key_of sim p.ride_id tick;
    expiry_tick = pos p.expiry_tick;
  }

module _ {F : Type 0} (a : Answers) (sim : Text) (tick : ℕ) (p : Proposal F) where
  -- The insertion of a rejection, whose failure is only logged.
  abbrev pub rejected_with : Option Text → Text → Why F → Node F → Node F
  rejected_with none proposal_id reason n = n
  rejected_with (some id) proposal_id reason n =
      with_authorization
        (authorization_row id proposal_id rejected reason
          n.shared.governor.constitution.policy_version)
        n

  unfoldable pub reject_with : Text → Why F → Node F → Node F
  reject_with proposal_id reason n = rejected_with a.authorization_id proposal_id reason n

  module _ (now : ℕ) (cash : ℤ) where
    abbrev pub outbound : Outbound
    outbound = record {
      message_id = a.message_id;
      timestamp = now;
      simulation_id = sim;
      request = request_of sim tick p;
    }

    -- The line is written, and its result is awaited.
    unfoldable pub send : (action_id snapshot_id : Text) → Node F → Node F
    send action_id snapshot_id n =
        if a.writes
        then record n {
          sent = outbound ∷ n.sent;
          pending_actions =
              insert a.message_id
                (record { action_id = action_id; snapshot_id = snapshot_id; cash_before = cash })
                n.pending_actions;
        }
        else n

    -- From the insertion of the action.
    abbrev pub acted : Option Text → (authorization_id snapshot_id : Text) → Node F → Node F
    acted none authorization_id snapshot_id n = n
    acted (some id) authorization_id snapshot_id n =
        send id snapshot_id (with_action (action_row sim tick p id authorization_id) n)

    unfoldable pub act : (authorization_id snapshot_id : Text) → Node F → Node F
    act authorization_id snapshot_id n = acted a.action_id authorization_id snapshot_id n

    abbrev pub go_on : Decision → (authorization_id snapshot_id : Text) → Node F → Node F
    go_on authorized authorization_id snapshot_id n = act authorization_id snapshot_id n
    go_on rejected authorization_id snapshot_id n = n

    -- From the governor's answer.
    abbrev pub answered_with :
        Option Text → (proposal_id snapshot_id : Text) → Authorization F → Node F → Node F
    answered_with none proposal_id snapshot_id auth n = n
    answered_with (some id) proposal_id snapshot_id auth n = go_on auth.decision id snapshot_id (
        with_authorization
          (authorization_row id proposal_id auth.decision (policy auth.reason) auth.policy_version)
          n)

    unfoldable pub answered : (proposal_id snapshot_id : Text) → Authorization F → Node F → Node F
    answered proposal_id snapshot_id auth n =
        answered_with a.authorization_id proposal_id snapshot_id auth n

    module _ (below : F → F → Bool) where
      -- From the governor's question.
      unfoldable pub ask : (proposal_id snapshot_id : Text) → Node F → Node F
      ask proposal_id snapshot_id n =
          let (auth, g) = authorize below now p tick n.shared.governor in
          answered proposal_id snapshot_id auth (with_governor g n)

      abbrev pub snapshotted : (proposal_id : Text) → Option Text × Node F → Node F
      snapshotted proposal_id (none, n) = reject_with proposal_id no_recent_snapshot n
      snapshotted proposal_id (some snapshot_id, n) = ask proposal_id snapshot_id n

      -- From the reading of the safety state.
      abbrev pub gate : (proposal_id : Text) → Option SafetyState → Node F → Node F
      gate proposal_id none n = n
      gate proposal_id (some state) n =
          if authorizes_proposals state
          then snapshotted proposal_id (
              ensure_recent_snapshot a sim tick
                n.shared.governor.constitution.snapshot_max_age_ticks n)
          else reject_with proposal_id (state_is state) n

      abbrev pub proposed : Option Text → Node F → Node F
      proposed none n = n
      proposed (some id) n =
          let (state, ledger) =
            current_safety_state a.access (some sim) tick n.db.state_transitions in
          gate id state (with_transitions ledger (with_proposal sim p id n))

      unfoldable pub handle_proposal : Node F → Node F
      handle_proposal n = proposed a.proposal_id n

-- ===== src/Orchestrator/Rollback.antt =====
-- The rollbacks of core/orchestrator/src/tcp_server.rs: `trigger_automatic_rollback` with
-- `restore_snapshot` of core/orchestrator/src/snapshot.rs, and `check_pending_verifications`.
use helter_skelter.Prelude.{
  ℕ, suc, Bool, Text, Option, none, some, List, [], ◌∷◌, is_some, if◌then◌else◌, text_eq,
}
use helter_skelter.Prelude.Int.{ℤ, pos, ltbℤ, ◌-ℤ◌}
use helter_skelter.Safety.Transitions.{Restoring, trigger_automatic_rollback}
use helter_skelter.Orchestrator.Tables.{SnapshotRow, RollbackRow, PendingVerification, Node}

unfoldable pub find_snapshot : Text → List SnapshotRow → Option SnapshotRow
find_snapshot id [] = none
find_snapshot id (row ∷ rows) = if text_eq row.id id then some row else find_snapshot id rows

abbrev pub rollback_row : SnapshotRow → RollbackRow
rollback_row row = record { simulation_id = row.simulation_id; snapshot_id = row.id }

-- `works`: the copy of the file, and the calls of the database.
abbrev pub recorded : Bool → Option SnapshotRow → Option RollbackRow
recorded works none = none
recorded works (some row) = if works then some (rollback_row row) else none

unfoldable pub restore_snapshot : Bool → Text → List SnapshotRow → Option RollbackRow
restore_snapshot works id rows = recorded works (find_snapshot id rows)

abbrev pub with_row : Option RollbackRow → List RollbackRow → List RollbackRow
with_row none rows = rows
with_row (some row) rows = row ∷ rows

-- `delta < -max_unexpected_cash_drop`.
abbrev pub is_bad : (cash most : ℤ) → PendingVerification → Bool
is_bad cash most v = ltbℤ (cash -ℤ v.cash_before) (pos 0 -ℤ most)

module _ {F : Type 0} where
  -- The rollback of a simulation to a snapshot.
  unfoldable pub roll_back : Restoring → (sim snapshot_id : Text) → (tick : ℕ) → Node F → Node F
  roll_back calls sim snapshot_id tick n =
      let row = restore_snapshot calls.restores snapshot_id n.db.snapshots in
      record n {
        db = record n.db {
          rollbacks = with_row row n.db.rollbacks;
          state_transitions =
              trigger_automatic_rollback (record calls { restores = is_some row }) sim
                n.shared.governor.constitution.conservation_ticks tick n.db.state_transitions;
        };
      }

  module _ (calls : ℕ → Restoring) (sim : Text) (tick : ℕ) (cash most : ℤ) where
    unfoldable pub verify : ℕ → PendingVerification → Node F → Node F
    verify k v n = if is_bad cash most v then roll_back (calls k) sim v.snapshot_id tick n else n

    unfoldable pub verify_all : ℕ → List (Text × PendingVerification) → Node F → Node F
    verify_all k [] n = n
    verify_all k ((id, v) ∷ vs) n = verify_all (suc k) vs (verify k v n)

    -- `drain` takes every entry out first.
    unfoldable pub check_pending_verifications : Node F → Node F
    check_pending_verifications n =
        verify_all 0 n.pending_verifications (record n { pending_verifications = [] })

-- ===== src/Orchestrator/Tables.antt =====
-- The rows that core/orchestrator/src/db.rs writes, and the state of core/orchestrator/src/tcp_server.rs
-- and state.rs, without db_state. Of a rollback, the reason and who triggered it are left out.
use helter_skelter.Prelude.{
  ℕ, ◌+◌, ◌-◌, ◌%◌, ◌^◌, Text, Option, none, some, List, [], ◌∷◌, if◌then◌else◌, text_eq,
}
use helter_skelter.Prelude.Int.{ℤ, pos, negsuc}
use helter_skelter.Json.{Json}
use helter_skelter.Protocol.{CommandRequest, ErrorInfo}
use helter_skelter.Governor.{Governor, Decision, Reason}
use helter_skelter.Health.{ConnectionHealth}
use helter_skelter.World.{WorldModel}
use helter_skelter.Safety.{SafetyState, Ledger}

-- `n as u64`, of a signed number of 64 bits, and `n as u32`.
unfoldable pub as_u64 : ℤ → ℕ
as_u64 (pos n) = n
as_u64 (negsuc n) = 2 ^ 64 - (n + 1)

unfoldable pub as_u32 : ℤ → ℕ
as_u32 (pos n) = n % 2 ^ 32
as_u32 (negsuc n) = 2 ^ 32 - (n % 2 ^ 32 + 1)

-- The ride and the price of a proposal have no column.
pub record ProposalRow (F : Type 0) : Type 0 where
  pub id : Text
  pub simulation_id : Text
  pub agent : Text
  pub assumptions : Json
  pub predicted_effect : Json
  pub confidence : F
  pub cost_envelope : Json
  pub expiry_tick : ℤ

-- The reason, as the value it is formatted from.
pub data Why (F : Type 0) : Type 0 where
  policy : Reason F → Why F
  state_is : SafetyState → Why F
  no_recent_snapshot : Why F

pub record AuthorizationRow (F : Type 0) : Type 0 where
  pub id : Text
  pub proposal_id : Text
  pub decision : Decision
  pub reason : Why F
  pub policy_version : Text

pub record ActionRow : Type 0 where
  pub id : Text
  pub authorization_id : Text
  pub command : Json
  pub idempotency_key : Text
  pub expiry_tick : ℤ
  pub tick : ℤ

pub record ResultRow : Type 0 where
  pub action_id : Text
  pub engine_cost : Option ℤ
  pub engine_error : Option ErrorInfo

pub record SnapshotRow : Type 0 where
  pub id : Text
  pub simulation_id : Text
  pub storage_path : Text
  pub tick : ℤ

pub record RollbackRow : Type 0 where
  pub simulation_id : Text
  pub snapshot_id : Text

pub record Database (F : Type 0) : Type 0 where
  pub simulations : List Text
  pub proposals : List (ProposalRow F)
  pub authorizations : List (AuthorizationRow F)
  pub actions : List ActionRow
  pub results : List ResultRow
  pub snapshots : List SnapshotRow
  pub rollbacks : List RollbackRow
  pub state_transitions : Ledger

pub record SharedState (F : Type 0) : Type 0 where
  pub health : ConnectionHealth
  pub world : WorldModel
  pub governor : Governor F
  pub clean_heartbeats_since_cautious : ℕ

pub record PendingAction : Type 0 where
  pub action_id : Text
  pub snapshot_id : Text
  pub cash_before : ℤ

pub record PendingVerification : Type 0 where
  pub snapshot_id : Text
  pub cash_before : ℤ

-- The envelope of a `command.request`.
pub record Outbound : Type 0 where
  pub message_id : Text
  pub timestamp : ℕ
  pub simulation_id : Text
  pub request : CommandRequest

-- The database, the shared state, the maps of the connection, and what was sent on any connection.
pub record Node (F : Type 0) : Type 0 where
  pub db : Database F
  pub shared : SharedState F
  pub pending_actions : List (Text × PendingAction)
  pub pending_verifications : List (Text × PendingVerification)
  pub sent : List Outbound

module _ {A : Type 0} where
  unfoldable pub get : Text → List (Text × A) → Option A
  get k [] = none
  get k ((j, a) ∷ m) = if text_eq j k then some a else get k m

  unfoldable pub remove : Text → List (Text × A) → List (Text × A)
  remove k [] = []
  remove k ((j, a) ∷ m) = let rest = remove k m in if text_eq j k then rest else (j, a) ∷ rest

  unfoldable pub insert : Text → A → List (Text × A) → List (Text × A)
  unfolding remove
  insert k a m = (k, a) ∷ remove k m

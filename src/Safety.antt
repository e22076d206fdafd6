-- ===== src/Safety.antt =====
-- The safety state of the system: core/governor/src/safety_state.rs, and the functions of
-- core/orchestrator/src/db.rs that keep it in the table state_transitions. The table is the list of its
-- rows, the newest first; of a row, the reason and who triggered it are left out, which nothing reads
-- back. Each call of the database may fail: whether it does is an argument, and a failure is none.
pub mod State
pub mod Transitions
pub mod Run
pub mod Kept
pub mod Manual
pub mod Held
pub mod Released
use helter_skelter.Prelude.{
  ℕ, ◌+◌, ◌-◌, ◌^◌, Bool, true, false, not, Text, codes, text_eq, Option, none, some, List, [], ◌∷◌,
  ltb, if◌then◌else◌,
}
use helter_skelter.Prelude.Int.{ℤ, pos, negsuc, ltbℤ}

pub data SafetyState : Type 0 where
  normal cautious conservation quarantine rollback stopped : SafetyState

unfoldable pub authorizes_proposals : SafetyState → Bool
authorizes_proposals normal = true
authorizes_proposals _ = false

unfoldable pub requires_manual_resolution : SafetyState → Bool
requires_manual_resolution quarantine = true
requires_manual_resolution stopped = true
requires_manual_resolution _ = false

-- `==`.
abbrev pub is_state : SafetyState → SafetyState → Bool
is_state normal normal = true
is_state cautious cautious = true
is_state conservation conservation = true
is_state quarantine quarantine = true
is_state rollback rollback = true
is_state stopped stopped = true
is_state _ _ = false

abbrev pub as_str : SafetyState → Text
as_str normal = codes "normal"
as_str cautious = codes "cautious"
as_str conservation = codes "conservation"
as_str quarantine = codes "quarantine"
as_str rollback = codes "rollback"
as_str stopped = codes "stopped"

unfoldable pub parse : Text → Option SafetyState
unfolding text_eq
parse s =
    if text_eq s (codes "normal")
    then some normal
    else if text_eq s (codes "cautious")
    then some cautious
    else if text_eq s (codes "conservation")
    then some conservation
    else if text_eq s (codes "quarantine")
    then some quarantine
    else if text_eq s (codes "rollback")
    then some rollback
    else if text_eq s (codes "stopped")
    then some stopped
    else none

-- `n as i64`, of an unsigned number of 64 bits.
unfoldable pub as_i64 : ℕ → ℤ
as_i64 n = if ltb n (2 ^ 63) then pos n else negsuc (2 ^ 64 - (n + 1))

pub record Transition : Type 0 where
  pub simulation_id : Option Text
  pub from_state : Text
  pub to_state : Text
  pub expires_at_tick : Option ℤ

abbrev pub Ledger : Type 0
Ledger = List Transition

abbrev pub expiry_of : Option ℕ → Option ℤ
expiry_of none = none
expiry_of (some tick) = some (as_i64 tick)

-- The row of `insert_state_transition`.
abbrev pub transition : Option Text → SafetyState → SafetyState → Option ℕ → Transition
transition sim from_state to_state expires_at_tick = record {
  simulation_id = sim;
  from_state = as_str from_state;
  to_state = as_str to_state;
  expires_at_tick = expiry_of expires_at_tick;
}

unfoldable pub insert_state_transition :
    Bool → Option Text → SafetyState → SafetyState → Option ℕ → Ledger → Option Ledger
insert_state_transition works sim from_state to_state expires_at_tick ledger =
    if works then some (transition sim from_state to_state expires_at_tick ∷ ledger) else none

-- The two conditions of the WHERE clauses.
abbrev pub is_for : Option Text → Option Text → Bool
is_for none none = true
is_for none (some s) = false
is_for (some sim) none = true
is_for (some sim) (some s) = text_eq s sim

unfoldable pub latest : Option Text → Ledger → Option Transition
latest sim [] = none
latest sim (row ∷ rows) = if is_for sim row.simulation_id then some row else latest sim rows

-- `SafetyState::parse(..).unwrap_or(SafetyState::Stopped)`.
abbrev pub or_stopped : Option SafetyState → SafetyState
or_stopped none = stopped
or_stopped (some s) = s

abbrev pub has_passed : ℕ → Option ℤ → Bool
has_passed tick none = false
has_passed tick (some expires_at_tick) = not (ltbℤ (as_i64 tick) expires_at_tick)

-- A conservation window that has passed.
abbrev pub is_expired : ℕ → SafetyState → Option ℤ → Bool
is_expired tick conservation expires_at_tick = has_passed tick expires_at_tick
is_expired tick _ expires_at_tick = false

-- Which calls of the database work: the query, and the insertion of a recovery.
pub record Access : Type 0 where
  pub selects : Bool
  pub inserts : Bool

abbrev pub Reading : Type 0
Reading = Option SafetyState × Ledger

unfoldable pub settled : Option Ledger → Ledger → Reading
settled none ledger = (none, ledger)
settled (some ledger') ledger = (some normal, ledger')

unfoldable pub read_row : Bool → Option Text → ℕ → Ledger → Option Transition → Reading
unfolding insert_state_transition settled
read_row works sim tick ledger none = (some normal, ledger)
read_row works sim tick ledger (some row) =
    let state = or_stopped (parse row.to_state) in
    if is_expired tick state row.expires_at_tick
    then settled (insert_state_transition works sim conservation normal none ledger) ledger
    else (some state, ledger)

unfoldable pub current_safety_state : Access → Option Text → ℕ → Ledger → Reading
unfolding read_row
current_safety_state db sim tick ledger =
    if db.selects then read_row db.inserts sim tick ledger (latest sim ledger) else (none, ledger)

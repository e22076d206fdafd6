-- ===== src/Safety/Transitions.antt =====
-- Who changes the safety state: the startup (core/orchestrator/src/startup.rs), the resolve command
-- (main.rs), the heartbeats and the rollbacks (tcp_server.rs).
use helter_skelter.Prelude.{ℕ, ◌+◌, Bool, Text, Option, none, some, leb, if◌then◌else◌}
use helter_skelter.Safety.{
  SafetyState, normal, cautious, conservation, rollback, requires_manual_resolution, Ledger, Access,
  Reading, insert_state_transition, current_safety_state,
}

-- The ledger after an insertion whose failure is only logged.
abbrev pub logged_or : Ledger → Option Ledger → Ledger
logged_or ledger none = ledger
logged_or ledger (some ledger') = ledger'

-- `reconcile_on_startup`: `?` leaves it on the first failure; none is `Err`.
unfoldable pub entered : Bool → Reading → Option Ledger × Ledger
entered works (none, ledger) = (none, ledger)
entered works (some from_state, ledger) =
    let done = insert_state_transition works none from_state cautious none ledger in
    (done, logged_or ledger done)

pub record Startup : Type 0 where
  pub finds_in_flight : Bool
  pub access : Access
  pub enters : Bool

unfoldable pub reconcile_on_startup : Startup → Ledger → Option Ledger × Ledger
unfolding entered
reconcile_on_startup db ledger =
    if db.finds_in_flight
    then entered db.enters (current_safety_state db.access none 0 ledger)
    else (none, ledger)

-- `orchestrator resolve`.
unfoldable pub resolve_from : Bool → Reading → Ledger
resolve_from works (none, ledger) = ledger
resolve_from works (some from_state, ledger) =
    if requires_manual_resolution from_state
    then logged_or ledger (insert_state_transition works none from_state normal none ledger)
    else ledger

unfoldable pub resolve : Access → Bool → Ledger → Ledger
unfolding resolve_from
resolve db works ledger = resolve_from works (current_safety_state db none 0 ledger)

-- Which calls of `trigger_automatic_rollback` work; `restores` is `snapshot::restore_snapshot`.
pub record Restoring : Type 0 where
  pub access : Access
  pub enters : Bool
  pub restores : Bool
  pub leaves : Bool

abbrev pub or_normal : Option SafetyState → SafetyState
or_normal none = normal
or_normal (some s) = s

unfoldable pub trigger_automatic_rollback : Restoring → Text → ℕ → ℕ → Ledger → Ledger
trigger_automatic_rollback db sim conservation_ticks current_tick ledger =
    let (from_state, ledger') = current_safety_state db.access (some sim) current_tick ledger in
    let entered =
      logged_or ledger' (
        insert_state_transition db.enters (some sim) (or_normal from_state) rollback none
          ledger') in
    if db.restores
    then logged_or entered (
        insert_state_transition db.leaves (some sim) rollback conservation
          (some (current_tick + conservation_ticks)) entered)
    else entered

-- `recover_from_cautious_on_clean_heartbeat`: the counter of clean heartbeats, and the ledger.
abbrev pub counted : ℕ → Ledger → Option Ledger → ℕ × Ledger
counted count ledger none = (count, ledger)
counted count ledger (some ledger') = (0, ledger')

abbrev pub recovered : Bool → Text → ℕ → ℕ → Reading → ℕ × Ledger
recovered works sim needed count (none, ledger) = (count, ledger)
recovered works sim needed count (some cautious, ledger) =
    if leb needed (count + 1)
    then counted (count + 1) ledger
        (insert_state_transition works (some sim) cautious normal none ledger)
    else (count + 1, ledger)
recovered works sim needed count (some _, ledger) = (0, ledger)

unfoldable pub recover_from_cautious_on_clean_heartbeat :
    Access → Bool → Text → ℕ → ℕ → ℕ → Ledger → ℕ × Ledger
recover_from_cautious_on_clean_heartbeat db works sim current_tick needed count ledger =
    recovered works sim needed count (current_safety_state db (some sim) current_tick ledger)

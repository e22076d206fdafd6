-- ===== src/Safety/Run.antt =====
-- The processes that share the table state_transitions (core/orchestrator/src and its watchdog), as
-- events on one state. A handler that the source spawns is taken to run at once.
use helter_skelter.Prelude.{ℕ, Bool, Text, Option, none, List, [], ◌∷◌}
use helter_skelter.Governor.{Constitution}
use helter_skelter.Safety.{Ledger, Access, current_safety_state}
use helter_skelter.Safety.Transitions.{
  Startup, reconcile_on_startup, resolve, Restoring, trigger_automatic_rollback,
  recover_from_cautious_on_clean_heartbeat,
}
use helter_skelter.Watchdog.{Round, watch}

-- The table, the orchestrator's counter of clean heartbeats, and the watchdog's `db_unreachable_since`.
pub record Guard : Type 0 where
  pub ledger : Ledger
  pub clean_heartbeats : ℕ
  pub unreachable_since : Option ℕ

-- A start of the orchestrator, the resolve command, a rollback of a simulation, a reading, a heartbeat of
-- a simulation, and a round of the watchdog.
pub data Event : Type 0 where
  started : Startup → Event
  resolved : Access → Bool → Event
  rolled_back : Restoring → (sim : Text) → (tick : ℕ) → Event
  looked : Access → Option Text → (tick : ℕ) → Event
  beat : Access → Bool → (sim : Text) → (tick : ℕ) → Event
  watched : Round → Event

unfoldable pub init : Guard
init = record { ledger = []; clean_heartbeats = 0; unreachable_since = none }

module _ {F : Type 0} (c : Constitution F) where
  unfoldable pub step : Event → Guard → Guard
  step (started db) g = record g {
    ledger = (reconcile_on_startup db g.ledger).1;
    clean_heartbeats = 0;
  }
  step (resolved db works) g = record g { ledger = resolve db works g.ledger }
  step (rolled_back db sim tick) g = record g {
    ledger = trigger_automatic_rollback db sim c.conservation_ticks tick g.ledger;
  }
  step (looked db sim tick) g = record g { ledger = (current_safety_state db sim tick g.ledger).1 }
  step (beat db works sim tick) g =
      let (count, ledger) =
        recover_from_cautious_on_clean_heartbeat db works sim tick c.cautious_recovery_heartbeats
          g.clean_heartbeats g.ledger in
      record g { ledger = ledger; clean_heartbeats = count }
  step (watched r) g =
      let (since, ledger) = watch c r g.unreachable_since g.ledger in
      record g { ledger = ledger; unreachable_since = since }

  unfoldable pub run : List Event → Guard → Guard
  run [] g = g
  run (e ∷ es) g = run es (step e g)

-- ===== src/Tests/Safety.antt =====
-- Instances of the theorems about the safety state of the orchestrator.
use helter_skelter.Prelude.{◌≡◌, refl, true, Text, codes, none, some, List, [], ◌∷◌, arith}
use helter_skelter.Safety.{normal, cautious, quarantine, Ledger, transition}
use helter_skelter.Safety.State.{state_at, working}
use helter_skelter.Watchdog.{Round}
use helter_skelter.Safety.Run.{Guard, Event, started, looked, beat, watched, run}
use helter_skelter.Safety.Released.{beats, starting, startup-releases}
use helter_skelter.Tests.Policy.{constitution}

abbrev simulation : Text
simulation = codes "sim"

-- Thirty actions in a minute, where twenty are allowed.
abbrev busy : Round
busy = record {
  now = 100;
  reachable = true;
  access = λ k. (working, true);
  simulation = some (some simulation);
  actions = some 30;
  price_changes = some [];
}

abbrev calm_events : List Event
calm_events =
    beat working true simulation 40 ∷ looked working (some simulation) 80 ∷ watched busy ∷ []

abbrev quarantined : Ledger
quarantined = transition none normal quarantine none ∷ []

abbrev held : Guard
held = record { ledger = quarantined; clean_heartbeats = 0; unreachable_since = none }

startup-releases_example :
    (state_at
        (some simulation)
        100
        (run constitution (started starting ∷ beats 1 simulation 100) held).ledger
      ≡ cautious)
    × (state_at
          (some simulation)
          100
          (run constitution (started starting ∷ beats 2 simulation 100) held).ledger
        ≡ normal)
startup-releases_example =
    startup-releases constitution simulation 100 100 1 1 held refl (omega arith)

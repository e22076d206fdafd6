-- ===== src/Tests/Policy.antt =====
-- Instances of the theorems about the crates of core; a confidence is a number of hundredths.
use helter_skelter.Prelude.{ℕ, ◌≤◌, ◌≡◌, refl, codes, List, [], ◌∷◌, length, All, ltb, arith}
use helter_skelter.Prelude.Int.{ℤ, pos}
use helter_skelter.Json.{null}
use helter_skelter.Governor.{Constitution, Proposal, one_hour, one_day, new}
use helter_skelter.Governor.History.{Request, decide_all, authorize_all}
use helter_skelter.Governor.Log.{authorize_all-refines}
use helter_skelter.Governor.Budget.{granted, in_window, authorize_all-le_budgets}
use helter_skelter.Protocol.{opened, sunny}
use helter_skelter.World.{ObservedRide, Observed, empty}
use helter_skelter.Operator.{
  back, find_ride, recent, all_high, propose_one, propose_each, propose_price_changes,
}
use helter_skelter.Operator.Window.{record_all, record_all-propose_price_changes}
use helter_skelter.Operator.Bounds.{IsLeftToBudgets, propose_price_changes-IsLeftToBudgets}
use helter_skelter.Health.{
  lost, Event, accepted, hello, check, heartbeat, run, connected, tick_check,
}
use helter_skelter.Health.Latest.{state_at, heard_all, silent, run-tick_check}

abbrev pub constitution : Constitution ℕ
constitution = record {
  policy_version = codes "0.1.0";
  daily_action_budget = 3;
  max_actions_per_hour = 2;
  min_confidence = 60;
  price_bounds = record { min = pos 0; max = pos 10 };
  per_ride_cooldown_ticks = 1000;
  queue_length_high_threshold = 5;
  queue_length_low_threshold = 0;
  consecutive_snapshots_required = 2;
  price_step = pos 1;
  snapshot_max_age_ticks = 2000;
  max_unexpected_cash_drop = pos 1000;
  conservation_ticks = 4000;
  cautious_recovery_heartbeats = 2;
  oscillation_window_ticks = 5000;
  oscillation_max_reversals = 3;
  db_unreachable_stopped_after_secs = 60;
  watchdog_poll_interval_secs = 5;
  action_rate_stopped_threshold_per_minute = 20;
}

abbrev pub proposal : ℕ → ℤ → ℕ → Proposal ℕ
proposal ride price confidence = record {
  agent = codes "The Operator";
  assumptions = null;
  predicted_effect = null;
  confidence = confidence;
  cost_envelope = null;
  expiry_tick = 10_000;
  ride_id = ride;
  proposed_price = price;
}

abbrev requests : List (Request ℕ)
requests =
    (record { time = 5; tick = 0; proposal = proposal 0 (pos 5) 80 })
    ∷ (record { time = 6; tick = 500; proposal = proposal 0 (pos 6) 80 })
    ∷ (record { time = 7; tick = 500; proposal = proposal 1 (pos 6) 80 })
    ∷ (record { time = 8; tick = 1500; proposal = proposal 0 (pos 6) 80 })
    ∷ []

authorize_all-refines_example :
    authorize_all ltb requests (new constitution) ≡ decide_all ltb constitution requests []
authorize_all-refines_example = authorize_all-refines ltb constitution requests (omega arith)

authorize_all-le_budgets_example :
    let log = granted requests (authorize_all ltb requests (new constitution)) [] in
    (in_window one_hour 100 log ≤ 2) × (in_window one_day 100 log ≤ 3)
authorize_all-le_budgets_example =
    authorize_all-le_budgets ltb constitution requests 100 (omega arith)

abbrev observed_ride : ℕ → ℕ → ObservedRide
observed_ride price queue = record {
  id = 0;
  name = codes "Carousel";
  kind = codes "merry_go_round";
  status = opened;
  price = price;
  queue_length = queue;
  downtime = 0;
}

abbrev pub observed : ℕ → ℕ → Observed
observed price queue = record {
  park_date = record { year = pos 1; month = pos 3; day = pos 12 };
  cash = pos 1000;
  loan = 0;
  park_rating = 700;
  guest_count = 12;
  rides = observed_ride price queue ∷ [];
  staff_counts = record {
    handyman = pos 1;
    mechanic = pos 1;
    security = pos 0;
    entertainer = pos 0;
  };
  weather = sunny;
}

abbrev pub snapshots : List Observed
snapshots = observed 5 9 ∷ observed 5 8 ∷ []

one_proposal : length (propose_price_changes 80 constitution 100 snapshots) ≡ 1
unfolding propose_price_changes propose_each propose_one back recent find_ride all_high
one_proposal = refl

record_all-propose_price_changes_example :
    propose_price_changes 80 constitution 100 (record_all snapshots empty).history
    ≡ propose_price_changes 80 constitution 100 snapshots
record_all-propose_price_changes_example =
    record_all-propose_price_changes 80 constitution 100 snapshots (omega arith)

propose_price_changes-IsLeftToBudgets_example :
    All
      (IsLeftToBudgets ltb 7 100 (new constitution))
      (propose_price_changes 80 constitution 100 snapshots)
unfolding new
propose_price_changes-IsLeftToBudgets_example =
    propose_price_changes-IsLeftToBudgets ltb 80 snapshots 7 100 (new constitution) refl
      (unfold back in ((refl, refl), tt)) refl

abbrev health_events : List Event
health_events = accepted 0 ∷ hello 1 ∷ heartbeat 1_000_000_000 40 ∷ check 9_000_000_000 ∷ []

run-tick_check_example :
    (tick_check 12_000_000_000 (run health_events connected)).state
    ≡ state_at 12_000_000_000 (heard_all health_events silent)
run-tick_check_example = run-tick_check health_events 12_000_000_000 (omega arith)

lost_at_last : (tick_check 12_000_000_000 (run health_events connected)).state ≡ lost
lost_at_last = run-tick_check_example

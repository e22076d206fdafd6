-- ===== src/Operator.antt =====
-- core/orchestrator/src/operator.rs: the rule that proposes price changes from the snapshots held. The
-- confidence 0.8, an `f32`, is a parameter. The members of an object stand in the order of the source.
pub mod Window
pub mod Bounds
use mathlib.Core.List.{reverse}
use helter_skelter.Prelude.{
  ℕ, ◌+◌, Bool, true, ◌&&◌, ◌||◌, Text, codes, Option, none, some, List, [], ◌∷◌, length, take, ltb,
  leb, ◌==◌, if◌then◌else◌,
}
use helter_skelter.Prelude.Int.{ℤ, pos, ltbℤ, ◌+ℤ◌, ◌-ℤ◌}
use helter_skelter.Json.{Json, num, str, obj, member, end}
use helter_skelter.World.{ObservedRide, Observed}
use helter_skelter.Governor.{Constitution, Proposal}

abbrev pub expiry_window_ticks : ℕ
expiry_window_ticks = 2000

-- `snapshot.rides.iter().find(|r| r.id == ride.id)`.
unfoldable pub find_ride : ℕ → List ObservedRide → Option ObservedRide
find_ride id [] = none
find_ride id (r ∷ rides) = if r.id == id then some r else find_ride id rides

-- The ride in each snapshot that has it.
unfoldable pub recent : ℕ → List Observed → List ObservedRide
recent id [] = []
recent id (s ∷ ss) = elim (find_ride id s.rides) [ none ↦ recent id ss | some r ↦ r ∷ recent id ss ]

unfoldable pub all_high : ℕ → List ObservedRide → Bool
all_high threshold [] = true
all_high threshold (r ∷ rides) = ltb threshold r.queue_length && all_high threshold rides

unfoldable pub all_low : ℕ → List ObservedRide → Bool
all_low threshold [] = true
all_low threshold (r ∷ rides) = leb r.queue_length threshold && all_low threshold rides

-- `history.back()`.
unfoldable pub back {ℓ} : {A : Type ℓ} → List A → Option A
back [] = none
back (x ∷ []) = some x
back (x ∷ y ∷ xs) = back (y ∷ xs)

module _ {F : Type 0} (confidence : F) (c : Constitution F) (current_tick : ℕ) where
  abbrev assume : Text → Text → ℕ → ObservedRide → Json
  assume rule threshold_name threshold ride = obj (
      member (codes "rule") (str rule) (
        member (codes "ride_id") (num (pos ride.id)) (
          member (codes "ride_name") (str ride.name) (
            member threshold_name (num (pos threshold)) (
              member (codes "consecutive_snapshots_required")
                (num (pos c.consecutive_snapshots_required))
                (member (codes "current_price") (num (pos ride.price)) end))))))

  unfoldable pub price_increase_proposal : ObservedRide → ℤ → Proposal F
  price_increase_proposal ride proposed_price = record {
    agent = codes "The Operator";
    assumptions =
        assume (codes "queue_too_long") (codes "queue_length_high_threshold")
          c.queue_length_high_threshold ride;
    predicted_effect = obj (
        member (codes "queue_length")
          (str (codes "expected to decrease as demand-priced guests self-select out")) end);
    confidence = confidence;
    cost_envelope = obj (member (codes "max_price_delta") (num c.price_step) end);
    expiry_tick = current_tick + expiry_window_ticks;
    ride_id = ride.id;
    proposed_price = proposed_price;
  }

  unfoldable pub price_decrease_proposal : ObservedRide → ℤ → Proposal F
  price_decrease_proposal ride proposed_price = record {
    agent = codes "The Operator";
    assumptions =
        assume (codes "queue_empty") (codes "queue_length_low_threshold")
          c.queue_length_low_threshold ride;
    predicted_effect = obj (
        member (codes "guest_count")
          (str (codes "expected to increase as a lower price attracts more riders")) end);
    confidence = confidence;
    cost_envelope = obj (member (codes "max_price_delta") (num c.price_step) end);
    expiry_tick = current_tick + expiry_window_ticks;
    ride_id = ride.id;
    proposed_price = proposed_price;
  }

  -- What the loop's body pushes for a ride, given the ride in the snapshots of the window.
  unfoldable pub propose_one : ObservedRide → List ObservedRide → Option (Proposal F)
  propose_one ride rides =
      let higher = pos ride.price +ℤ c.price_step in
      let lower = pos ride.price -ℤ c.price_step in
      if ltb (length rides) c.consecutive_snapshots_required
      then none
      else if all_high c.queue_length_high_threshold rides
      then (if ltbℤ c.price_bounds.max higher
          then none
          else some (price_increase_proposal ride higher))
      else if all_low c.queue_length_low_threshold rides
      then (if ltbℤ lower c.price_bounds.min
          then none
          else some (price_decrease_proposal ride lower))
      else none

  -- The loop over the rides of the latest snapshot.
  unfoldable pub propose_each : List Observed → List ObservedRide → List (Proposal F)
  propose_each window [] = []
  propose_each window (ride ∷ rides) = elim (propose_one ride (recent ride.id window)) [
    | none ↦ propose_each window rides
    | some p ↦ p ∷ propose_each window rides
  ]

  unfoldable pub propose_price_changes : List Observed → List (Proposal F)
  propose_price_changes history =
      let n = c.consecutive_snapshots_required in
      elim (back history) [
        | none ↦ []
        | some latest ↦
            if n == 0 || ltb (length history) n
            then []
            else propose_each (take n (reverse history)) latest.rides
      ]

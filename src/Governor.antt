-- ===== src/Governor.antt =====
-- core/governor/src: the policy that authorizes a proposal. A number of Rust is a natural number or an
-- integer within its width; only comparisons and differences that stop at 0 are taken of it. An `Instant`
-- is a number of nanoseconds, and `duration_since` stops at 0. The type `f32` and its `<` are parameters.
-- The reason of an answer is kept as a value, and not as the text that is formatted from it.
pub mod Windows
pub mod History
pub mod Log
pub mod Budget
use helter_skelter.Prelude.{
  ℕ, ◌-◌, Bool, false, ◌||◌, Text, Option, none, some, List, [], ◌∷◌, ◌++◌, length, ltb, leb, ◌==◌,
  if◌then◌else◌,
}
use helter_skelter.Prelude.Int.{ℤ, ltbℤ}
use helter_skelter.Json.{Json}

pub data Decision : Type 0 where
  authorized rejected : Decision

pub record PriceBounds : Type 0 where
  pub min : ℤ
  pub max : ℤ

pub record Constitution (F : Type 0) : Type 0 where
  pub policy_version : Text
  pub daily_action_budget : ℕ
  pub max_actions_per_hour : ℕ
  pub min_confidence : F
  pub price_bounds : PriceBounds
  pub per_ride_cooldown_ticks : ℕ
  pub queue_length_high_threshold : ℕ
  pub queue_length_low_threshold : ℕ
  pub consecutive_snapshots_required : ℕ
  pub price_step : ℤ
  pub snapshot_max_age_ticks : ℕ
  pub max_unexpected_cash_drop : ℤ
  pub conservation_ticks : ℕ
  pub cautious_recovery_heartbeats : ℕ
  pub oscillation_window_ticks : ℕ
  pub oscillation_max_reversals : ℕ
  pub db_unreachable_stopped_after_secs : ℕ
  pub watchdog_poll_interval_secs : ℕ
  pub action_rate_stopped_threshold_per_minute : ℕ

pub record Proposal (F : Type 0) : Type 0 where
  pub agent : Text
  pub assumptions : Json
  pub predicted_effect : Json
  pub confidence : F
  pub cost_envelope : Json
  pub expiry_tick : ℕ
  pub ride_id : ℕ
  pub proposed_price : ℤ

pub data Reason (F : Type 0) : Type 0 where
  low_confidence : (confidence min_confidence : F) → Reason F
  outside_bounds : (price : ℤ) (bounds : PriceBounds) → Reason F
  on_cooldown : (ride_id elapsed required : ℕ) → Reason F
  hour_full : (max_actions_per_hour : ℕ) → Reason F
  day_full : (daily_action_budget : ℕ) → Reason F
  within_all : Reason F

pub record Authorization (F : Type 0) : Type 0 where
  pub decision : Decision
  pub reason : Reason F
  pub policy_version : Text

-- `per_ride_last_authorized_tick` is the list of its entries.
pub record Governor (F : Type 0) : Type 0 where
  pub constitution : Constitution F
  pub authorized_at : List ℕ
  pub per_ride_last_authorized_tick : List (ℕ × ℕ)

abbrev pub one_hour : ℕ
one_hour = 3600_000_000_000

abbrev pub one_day : ℕ
one_day = 86400_000_000_000

unfoldable pub get_tick : ℕ → List (ℕ × ℕ) → Option ℕ
get_tick ride [] = none
get_tick ride ((r, tick) ∷ m) = if r == ride then some tick else get_tick ride m

unfoldable pub insert_tick : ℕ → ℕ → List (ℕ × ℕ) → List (ℕ × ℕ)
insert_tick ride tick [] = (ride, tick) ∷ []
insert_tick ride tick ((r, old) ∷ m) =
    if r == ride then (ride, tick) ∷ m else (r, old) ∷ insert_tick ride tick m

-- The instants that are younger than a duration.
unfoldable pub younger : ℕ → ℕ → List ℕ → List ℕ
younger duration now [] = []
younger duration now (t ∷ ts) =
    if ltb (now - t) duration then t ∷ younger duration now ts else younger duration now ts

-- `elapsed < per_ride_cooldown_ticks`, where there is an earlier tick.
abbrev pub is_cooling : ℕ → ℕ → Option ℕ → Bool
is_cooling required tick none = false
is_cooling required tick (some last) = ltb (tick - last) required

abbrev pub elapsed_of : ℕ → Option ℕ → ℕ
elapsed_of tick none = 0
elapsed_of tick (some last) = tick - last

module _ {F : Type 0} where
  unfoldable pub new : Constitution F → Governor F
  new c = record { constitution = c; authorized_at = []; per_ride_last_authorized_tick = [] }

  unfoldable pub reject : Governor F → Reason F → Authorization F
  reject g reason = record {
    decision = rejected;
    reason = reason;
    policy_version = g.constitution.policy_version;
  }

  -- The part of `authorize` that reads the clock.
  unfoldable pub authorize_at : ℕ → Proposal F → ℕ → Governor F → Authorization F × Governor F
  unfolding reject
  authorize_at now p tick g =
      let c = g.constitution in
      let recent = younger one_day now g.authorized_at in
      let g' = record g { authorized_at = recent } in
      if leb c.max_actions_per_hour (length (younger one_hour now recent))
      then (reject g' (hour_full c.max_actions_per_hour), g')
      else if leb c.daily_action_budget (length recent)
      then (reject g' (day_full c.daily_action_budget), g')
      else (
        record { decision = authorized; reason = within_all; policy_version = c.policy_version },
        record g {
          authorized_at = recent ++ (now ∷ []);
          per_ride_last_authorized_tick =
              insert_tick p.ride_id tick g.per_ride_last_authorized_tick;
        },
      )

  module _ (below : F → F → Bool) where
    unfoldable pub authorize : ℕ → Proposal F → ℕ → Governor F → Authorization F × Governor F
    unfolding authorize_at reject
    authorize now p tick g =
        let c = g.constitution in
        let last = get_tick p.ride_id g.per_ride_last_authorized_tick in
        if below p.confidence c.min_confidence
        then (reject g (low_confidence p.confidence c.min_confidence), g)
        else if ltbℤ p.proposed_price c.price_bounds.min || ltbℤ c.price_bounds.max p.proposed_price
        then (reject g (outside_bounds p.proposed_price c.price_bounds), g)
        else if is_cooling c.per_ride_cooldown_ticks tick last
        then (reject g (on_cooldown p.ride_id (elapsed_of tick last) c.per_ride_cooldown_ticks), g)
        else authorize_at now p tick g

-- ===== src/Governor/History.antt =====
-- What the governor of core/governor/src/lib.rs is to decide: the constitution's questions, asked of the
-- whole history of the authorizations.
use helter_skelter.Prelude.{
  ℕ, ◌≤◌, Bool, true, false, not, ◌&&◌, Option, none, some, List, [], ◌∷◌, ltb, ◌==◌, if◌then◌else◌,
}
use helter_skelter.Prelude.Int.{ltbℤ}
use helter_skelter.Governor.{
  Decision, authorized, rejected, Constitution, Proposal, Governor, one_hour, one_day, is_cooling,
  authorize,
}
use helter_skelter.Governor.Windows.{younger_count}

-- A proposal with the instant and the tick at which it is made.
pub record Request (F : Type 0) : Type 0 where
  pub time : ℕ
  pub tick : ℕ
  pub proposal : Proposal F

module _ {F : Type 0} where
  -- The tick of the newest authorization for a ride.
  abbrev pub newest : ℕ → List (Request F) → Option ℕ
  newest ride [] = none
  newest ride (r ∷ log) = if r.proposal.ride_id == ride then some r.tick else newest ride log

  -- How many authorizations are younger than a duration.
  abbrev pub recent : ℕ → ℕ → List (Request F) → ℕ
  recent duration now log = younger_count (λ r. r.time) duration now log

  -- The clock does not run backwards.
  abbrev pub IsOrdered : ℕ → List (Request F) → Type 0
  IsOrdered clock [] = Unit {0}
  IsOrdered clock (r ∷ rs) = (clock ≤ r.time) × IsOrdered r.time rs

abbrev pub decision_for : Bool → Decision
decision_for true = authorized
decision_for false = rejected

module _ {F : Type 0} (below : F → F → Bool) (c : Constitution F) where
  -- What the constitution asks, of the whole history, the newest authorization first.
  abbrev pub is_allowed : Request F → List (Request F) → Bool
  is_allowed r log =
      not (below r.proposal.confidence c.min_confidence)
      && not (ltbℤ r.proposal.proposed_price c.price_bounds.min)
      && not (ltbℤ c.price_bounds.max r.proposal.proposed_price)
      && not (is_cooling c.per_ride_cooldown_ticks r.tick (newest r.proposal.ride_id log))
      && ltb (recent one_hour r.time log) c.max_actions_per_hour
      && ltb (recent one_day r.time log) c.daily_action_budget

  abbrev pub logged : Request F → List (Request F) → List (Request F)
  logged r log = if is_allowed r log then r ∷ log else log

  -- The decisions on requests, one after another, and the history at the end.
  abbrev pub decide_all : List (Request F) → List (Request F) → List Decision
  decide_all [] log = []
  decide_all (r ∷ rs) log = decision_for (is_allowed r log) ∷ decide_all rs (logged r log)

  abbrev pub history : List (Request F) → List (Request F) → List (Request F)
  history [] log = log
  history (r ∷ rs) log = history rs (logged r log)

module _ {F : Type 0} (below : F → F → Bool) where
  unfoldable pub authorize_all : List (Request F) → Governor F → List Decision
  authorize_all [] g = []
  authorize_all (r ∷ rs) g =
      let (answer, g') = authorize below r.time r.proposal r.tick g in
      answer.decision ∷ authorize_all rs g'

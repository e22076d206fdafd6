-- ===== src/Operator/Bounds.antt =====
-- The operator (core/orchestrator/src/operator.rs) before the governor (core/governor/src/lib.rs).
use helter_skelter.Prelude.{
  ℕ, ◌≡◌, refl, ap, ◌∙◌, Bool, true, false, ◌||◌, Bool-cases, inl, inr, ◌⊎◌, Option, none, some,
  Option-cases, List, [], ◌∷◌, length, take, All, All-map, ltb, ◌==◌, arith,
}
use mathlib.Core.List.{reverse}
use helter_skelter.Prelude.Int.{ℤ, pos, negsuc, ltbℤ, ◌+ℤ◌, ◌-ℤ◌}
use helter_skelter.World.{ObservedRide, Observed}
use helter_skelter.Governor.{
  PriceBounds, Constitution, Proposal, Governor, is_cooling, get_tick, authorize_at, authorize,
}
use helter_skelter.Operator.{
  back, recent, price_increase_proposal, price_decrease_proposal, propose_one, propose_each,
  propose_price_changes,
}

abbrev pub IsWithin : PriceBounds → ℤ → Type 0
IsWithin bounds price = (ltbℤ price bounds.min ≡ false) × (ltbℤ bounds.max price ≡ false)

-- The prices of the newest snapshot, if there is one, are within the bounds.
abbrev pub IsPriced : PriceBounds → Option Observed → Type 0
IsPriced bounds none = Unit {0}
IsPriced bounds (some s) = All (λ (r : ObservedRide). IsWithin bounds (pos r.price)) s.rides

ltbℤ-add :
    (a : ℕ) (low step : ℤ)
    → ltbℤ step (pos 0) ≡ false
    → ltbℤ (pos a) low ≡ false
    → ltbℤ (pos a +ℤ step) low ≡ false
ltbℤ-add a (pos l) (pos s) h k = ground arith
ltbℤ-add a (negsuc l) (pos s) h k = refl
ltbℤ-add a low (negsuc s) h k = ground arith

ltbℤ-sub :
    (a : ℕ) (high step : ℤ)
    → ltbℤ step (pos 0) ≡ false
    → ltbℤ high (pos a) ≡ false
    → ltbℤ high (pos a -ℤ step) ≡ false
ltbℤ-sub a (pos l) (pos s) h k = ground arith
ltbℤ-sub a (negsuc l) (pos s) h k = ground arith
ltbℤ-sub a high (negsuc s) h k = ground arith

-- A value, where there is one, satisfies the predicate.
abbrev IsAny {ℓ κ} : {A : Type ℓ} → (A → Type κ) → Option A → Type κ
IsAny P none = Unit
IsAny P (some x) = P x

module _ {F : Type 0} (confidence : F) (c : Constitution F) (current_tick : ℕ) where
  -- The governor's first two questions have the answer yes.
  abbrev IsOffer : Proposal F → Type 0
  IsOffer p = IsWithin c.price_bounds p.proposed_price × (p.confidence ≡ confidence)

  propose_one-IsOffer :
      (ride : ObservedRide) (rides : List ObservedRide)
      → ltbℤ c.price_step (pos 0) ≡ false
      → IsWithin c.price_bounds (pos ride.price)
      → IsAny IsOffer (propose_one confidence c current_tick ride rides)
  unfolding propose_one price_increase_proposal price_decrease_proposal
  propose_one-IsOffer ride rides up (low, high) =
      let raised = ltbℤ-add ride.price c.price_bounds.min c.price_step up low in
      let cut = ltbℤ-sub ride.price c.price_bounds.max c.price_step up high in ground arith

  propose_each-IsOffer :
      (window : List Observed) (rides : List ObservedRide)
      → ltbℤ c.price_step (pos 0) ≡ false
      → All (λ (r : ObservedRide). IsWithin c.price_bounds (pos r.price)) rides
      → All IsOffer (propose_each confidence c current_tick window rides)
  unfolding propose_each
  propose_each-IsOffer window [] up priced = tt
  propose_each-IsOffer window (ride ∷ rides) up (here, priced) =
      let offered = propose_one-IsOffer ride (recent ride.id window) up here in
      let later = propose_each-IsOffer window rides up priced in
      elim (Option-cases (propose_one confidence c current_tick ride (recent ride.id window))) [
        | inl e ↦ rw (e, propose_each) later
        | inr (p, e) ↦ rw (e, propose_each) ((rw e at offered), later)
      ]

  propose_price_changes-IsOffer :
      (history : List Observed)
      → ltbℤ c.price_step (pos 0) ≡ false
      → IsPriced c.price_bounds (back history)
      → All IsOffer (propose_price_changes confidence c current_tick history)
  unfolding propose_price_changes
  propose_price_changes-IsOffer history up priced =
      let n = c.consecutive_snapshots_required in
      elim (Option-cases (back history)) [
        | inl e ↦ rw (e, propose_price_changes) tt
        | inr (latest, e) ↦
            let rides = rw e at priced in
            elim (Bool-cases (n == 0 || ltb (length history) n)) [
              | inl short ↦ rw (e, propose_price_changes) (rw short tt)
              | inr enough ↦
                  rw (e, propose_price_changes)
                    (rw enough
                      (propose_each-IsOffer (take n (reverse history)) latest.rides up rides))
            ]
      ]

-- What the governor does with a proposal: only the cooldown, or else the clock, decides.
abbrev pub IsLeftToBudgets :
    {F : Type 0} → (F → F → Bool) → ℕ → ℕ → Governor F → Proposal F → Type 0
IsLeftToBudgets below now tick g p =
    (authorize below now p tick g ≡ authorize_at now p tick g)
    ⊎ (is_cooling g.constitution.per_ride_cooldown_ticks tick
          (get_tick p.ride_id g.per_ride_last_authorized_tick)
        ≡ true)

IsOffer-IsLeftToBudgets :
    {F : Type 0} (below : F → F → Bool) (confidence : F) (now tick : ℕ) (g : Governor F)
    (p : Proposal F)
    → below confidence g.constitution.min_confidence ≡ false
    → IsOffer confidence g.constitution tick p
    → IsLeftToBudgets below now tick g p
unfolding authorize
IsOffer-IsLeftToBudgets below confidence now tick g p sure ((low, high), e) =
    elim (Bool-cases (
      is_cooling g.constitution.per_ride_cooldown_ticks tick
        (get_tick p.ride_id g.per_ride_last_authorized_tick))) [
          | inl cooling ↦ inr cooling
          | inr cooled ↦ inl (
              rw (ap (λ x. below x g.constitution.min_confidence) e ∙ sure, authorize)
                (rw (low, authorize) (rw (high, authorize) (rw (cooled, authorize) refl))))
        ]

-- The operator does not ask for what the governor refuses by its price or its confidence: where the
-- prices of the newest snapshot are within the bounds, the price step is not negative and the operator's
-- confidence is not below the least, the governor answers each of the proposals by its budgets alone,
-- unless the ride is on cooldown.
pub propose_price_changes-IsLeftToBudgets :
    {F : Type 0} (below : F → F → Bool) (confidence : F) (history : List Observed) (now tick : ℕ)
    (g : Governor F)
    → ltbℤ g.constitution.price_step (pos 0) ≡ false
    → IsPriced g.constitution.price_bounds (back history)
    → below confidence g.constitution.min_confidence ≡ false
    → All
        (IsLeftToBudgets below now tick g)
        (propose_price_changes confidence g.constitution tick history)
propose_price_changes-IsLeftToBudgets below confidence history now tick g up priced sure =
    All-map (propose_price_changes confidence g.constitution tick history)
      (λ p offer. IsOffer-IsLeftToBudgets below confidence now tick g p sure offer)
      (propose_price_changes-IsOffer confidence g.constitution tick history up priced)

-- ===== src/Governor/Budget.antt =====
-- What the history of a governor's authorizations (core/governor/src/lib.rs) satisfies at any time.
use helter_skelter.Prelude.{
  ℕ, ◌-◌, ◌≤◌, ◌≡◌, refl, ap, ◌∙◌, Bool, true, false, Bool-cases, inl, inr, some, List, [], ◌∷◌,
  arith,
}
use helter_skelter.Prelude.Int.{ltbℤ}
use helter_skelter.Governor.{Decision, authorized, rejected, new, Constitution, one_hour, one_day}
use helter_skelter.Governor.Windows
use helter_skelter.Governor.History.{
  Request, newest, is_allowed, decide_all, history, IsOrdered, authorize_all,
}
use helter_skelter.Governor.Log.{authorize_all-refines}

module _ {F : Type 0} where
  -- The authorizations from the instant `until` back to a duration before it.
  abbrev pub in_window : ℕ → ℕ → List (Request F) → ℕ
  in_window duration until log = Windows.in_window (λ r. r.time) duration until log

  -- The requests that were authorized, the newest first, before those that are given.
  abbrev pub granted : List (Request F) → List Decision → List (Request F) → List (Request F)
  granted [] ds log = log
  granted (r ∷ rs) [] log = log
  granted (r ∷ rs) (authorized ∷ ds) log = granted rs ds (r ∷ log)
  granted (r ∷ rs) (rejected ∷ ds) log = granted rs ds log

  -- Each authorization was for a price within the bounds, and came no sooner after the one before it for
  -- its ride than the cooldown.
  abbrev IsProper : Constitution F → List (Request F) → Type 0
  IsProper c [] = Unit {0}
  IsProper c (r ∷ log) =
      ((ltbℤ r.proposal.proposed_price c.price_bounds.min ≡ false)
        × (ltbℤ c.price_bounds.max r.proposal.proposed_price ≡ false)
        × ((last : ℕ)
            → newest r.proposal.ride_id log ≡ some last
            → c.per_ride_cooldown_ticks ≤ r.tick - last))
      × IsProper c log

module _ {F : Type 0} (below : F → F → Bool) (c : Constitution F) where
  abbrev IsLawful : List (Request F) → Type 0
  IsLawful [] = Unit {0}
  IsLawful (r ∷ log) = (is_allowed below c r log ≡ true) × IsLawful log

  granted-decide_all :
      (rs log : List (Request F))
      → granted rs (decide_all below c rs log) log ≡ history below c rs log
  granted-decide_all [] log = refl
  granted-decide_all (r ∷ rs) log = elim (Bool-cases (is_allowed below c r log)) [
    | inl yes_now ↦ rw yes_now (granted-decide_all rs (r ∷ log))
    | inr not_now ↦ rw not_now (granted-decide_all rs log)
  ]

  history-IsLawful : (rs log : List (Request F)) → IsLawful log → IsLawful (history below c rs log)
  history-IsLawful [] log v = v
  history-IsLawful (r ∷ rs) log v = elim (Bool-cases (is_allowed below c r log)) [
    | inl yes_now ↦ rw yes_now (history-IsLawful rs (r ∷ log) (yes_now, v))
    | inr not_now ↦ rw not_now (history-IsLawful rs log v)
  ]

  last_clock : ℕ → List (Request F) → ℕ
  last_clock clock [] = clock
  last_clock clock (r ∷ rs) = last_clock r.time rs

  history-IsPast :
      (rs log : List (Request F)) (clock : ℕ)
      → IsOrdered clock rs
      → Windows.IsPast (λ (q : Request F). q.time) clock log
      → Windows.IsPast (λ (q : Request F). q.time) (last_clock clock rs) (history below c rs log)
  unfolding last_clock
  history-IsPast [] log clock h v = v
  history-IsPast (r ∷ rs) log clock (now, h) v = elim (Bool-cases (is_allowed below c r log)) [
    | inl yes_now ↦ rw yes_now (
        history-IsPast rs (r ∷ log) r.time h
          (omega arith, Windows.IsPast-later (λ q. q.time) _ _ log now v))
    | inr not_now ↦
        rw not_now
          (history-IsPast rs log r.time h (Windows.IsPast-later (λ q. q.time) _ _ log now v))
  ]

  IsLawful-hour :
      (log : List (Request F))
      → IsLawful log
      → Windows.IsWithin (λ (q : Request F). q.time) one_hour c.max_actions_per_hour log
  IsLawful-hour [] v = tt
  IsLawful-hour (r ∷ log) (allowed, v) = (ground arith, IsLawful-hour log v)

  IsLawful-day :
      (log : List (Request F))
      → IsLawful log
      → Windows.IsWithin (λ (q : Request F). q.time) one_day c.daily_action_budget log
  IsLawful-day [] v = tt
  IsLawful-day (r ∷ log) (allowed, v) = (ground arith, IsLawful-day log v)

  IsLawful-IsProper : (log : List (Request F)) → IsLawful log → IsProper c log
  IsLawful-IsProper [] v = tt
  IsLawful-IsProper (r ∷ log) (allowed, v) =
      ((ground arith, ground arith, λ last e. ground arith), IsLawful-IsProper log v)

-- On requests whose instants do not run backwards, the authorizations of a new governor never exceed its
-- budgets: in whatever hour, of those in it there are at most max_actions_per_hour, and in whatever day
-- at most daily_action_budget.
pub authorize_all-le_budgets :
    {F : Type 0} (below : F → F → Bool) (c : Constitution F) (rs : List (Request F)) (until : ℕ)
    → IsOrdered 0 rs
    → let log = granted rs (authorize_all below rs (new c)) [] in
      (in_window one_hour until log ≤ c.max_actions_per_hour)
      × (in_window one_day until log ≤ c.daily_action_budget)
authorize_all-le_budgets below c rs until h =
    let same =
      ap (λ ds. granted rs ds []) (authorize_all-refines below c rs h)
      ∙ granted-decide_all below c rs [] in
    let log = history below c rs [] in
    let lawful = history-IsLawful below c rs [] tt in
    let past = history-IsPast below c rs [] 0 h tt in
    rw same (
      Windows.in_window-le (λ q. q.time) one_hour until c.max_actions_per_hour _ log past
          (IsLawful-hour below c log lawful),
      Windows.in_window-le (λ q. q.time) one_day until c.daily_action_budget _ log past
          (IsLawful-day below c log lawful),
    )

-- On requests whose instants do not run backwards, every authorization of a new governor is for a price
-- within the bounds, and comes at least the cooldown in ticks after the one before it for its ride, if
-- there is one.
authorize_all-IsProper :
    {F : Type 0} (below : F → F → Bool) (c : Constitution F) (rs : List (Request F))
    → IsOrdered 0 rs
    → IsProper c (granted rs (authorize_all below rs (new c)) [])
authorize_all-IsProper below c rs h =
    let same =
      ap (λ ds. granted rs ds []) (authorize_all-refines below c rs h)
      ∙ granted-decide_all below c rs [] in
    rw same (IsLawful-IsProper below c (history below c rs []) (history-IsLawful below c rs [] tt))

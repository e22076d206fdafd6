-- ===== src/Watchdog.antt =====
-- core/orchestrator/src/bin/watchdog.rs, with core/orchestrator/src/oscillation.rs: the process that
-- watches the orchestrator through the database. What its queries return is an argument, none where one
-- fails; a number that a query counts is a natural number. An `Instant` is a number of nanoseconds. The
-- rides are taken in the order in which they first show.
use helter_skelter.Prelude.{
  ℕ, suc, ◌+◌, ◌-◌, ◌*◌, Bool, Text, Option, none, some, List, [], ◌∷◌, ◌++◌, ltb, leb,
  if◌then◌else◌,
}
use helter_skelter.Prelude.Int.{ℤ, ltbℤ, eqbℤ}
use helter_skelter.Governor.{Constitution}
use helter_skelter.Safety.{
  SafetyState, quarantine, stopped, Ledger, Access, Reading, insert_state_transition,
  current_safety_state, is_state,
}
use helter_skelter.Safety.Transitions.{logged_or}

pub data Direction : Type 0 where
  up level down : Direction

-- `a.cmp(&b)`, of the second to the first.
unfoldable pub direction : ℤ → ℤ → Direction
direction a b = if ltbℤ a b then up else if ltbℤ b a then down else level

abbrev pub reverses : Option Direction → Direction → ℕ
reverses (some up) down = 1
reverses (some down) up = 1
reverses last d = 0

-- The loop over the windows of two, with the last direction; a level pair is skipped.
abbrev pub moved : Option Direction → Direction → Option Direction
moved last level = last
moved last d = some d

unfoldable pub reversals_from : Option Direction → List ℤ → ℕ
reversals_from last [] = 0
reversals_from last (a ∷ []) = 0
reversals_from last (a ∷ b ∷ prices) =
    let d = direction a b in reverses last d + reversals_from (moved last d) (b ∷ prices)

unfoldable pub count_reversals : List ℤ → ℕ
unfolding reversals_from
count_reversals prices = reversals_from none prices

unfoldable pub escalated : Bool → SafetyState → Reading → Ledger
escalated works to_state (none, ledger) = ledger
escalated works to_state (some from_state, ledger) =
    if is_state from_state to_state
    then ledger
    else if is_state from_state stopped
    then ledger
    else logged_or ledger (insert_state_transition works none from_state to_state none ledger)

unfoldable pub escalate : Access → Bool → SafetyState → Ledger → Ledger
unfolding escalated
escalate db works to_state ledger = escalated works to_state (current_safety_state db none 0 ledger)

-- `by_ride.entry(change.ride_id).or_default().push(change.price)`.
unfoldable pub push_price : ℤ → ℤ → List (ℤ × List ℤ) → List (ℤ × List ℤ)
push_price ride price [] = (ride, price ∷ []) ∷ []
push_price ride price ((r, prices) ∷ rides) =
    let rest = push_price ride price rides in
    if eqbℤ ride r then (r, prices ++ (price ∷ [])) ∷ rides else (r, prices) ∷ rest

unfoldable pub group : List (ℤ × ℤ) → List (ℤ × List ℤ) → List (ℤ × List ℤ)
group [] rides = rides
group ((ride, price) ∷ changes) rides = group changes (push_price ride price rides)

-- What a round of the loop meets: the clock, whether the database can be reached, which calls of the
-- escalations work, and what the queries return. A change is a ride and a price.
pub record Round : Type 0 where
  pub now : ℕ
  pub reachable : Bool
  pub access : ℕ → Access × Bool
  pub simulation : Option (Option Text)
  pub actions : Option ℕ
  pub price_changes : Option (List (ℤ × ℤ))

module _ {F : Type 0} (c : Constitution F) where
  unfoldable pub check_action_rate : Access × Bool → Option ℕ → Ledger → Ledger
  check_action_rate (db, works) none ledger = ledger
  check_action_rate (db, works) (some count) ledger =
      if ltb c.action_rate_stopped_threshold_per_minute count
      then escalate db works stopped ledger
      else ledger

  -- The loop over the rides, from the escalation `i` on.
  unfoldable pub check_rides : (ℕ → Access × Bool) → ℕ → List (ℤ × List ℤ) → Ledger → Ledger
  check_rides access i [] ledger = ledger
  check_rides access i ((ride, prices) ∷ rides) ledger =
      let after =
        (if ltb c.oscillation_max_reversals (count_reversals prices)
          then escalate (access i).0 (access i).1 quarantine ledger
          else ledger) in
      check_rides access (suc i) rides after

  unfoldable pub check_oscillation : (ℕ → Access × Bool) → Option (List (ℤ × ℤ)) → Ledger → Ledger
  unfolding check_rides group
  check_oscillation access none ledger = ledger
  check_oscillation access (some changes) ledger = check_rides access 2 (group changes []) ledger

  -- The checks of the latest simulation.
  abbrev pub checked : Round → Option (Option Text) → Ledger → Ledger
  checked r (some (some simulation_id)) ledger =
      check_oscillation r.access r.price_changes (check_action_rate (r.access 1) r.actions ledger)
  checked r _ ledger = ledger

  -- The database is reachable again after an outage.
  unfoldable pub ended : Round → Option ℕ → Ledger → Ledger
  ended r none ledger = ledger
  ended r (some since) ledger =
      if leb (c.db_unreachable_stopped_after_secs * 1_000_000_000) (r.now - since)
      then escalate (r.access 0).0 (r.access 0).1 stopped ledger
      else ledger

  abbrev pub since_or : Option ℕ → ℕ → Option ℕ
  since_or none now = some now
  since_or (some since) now = some since

  -- A round of the loop: `db_unreachable_since`, and the ledger.
  unfoldable pub watch : Round → Option ℕ → Ledger → Option ℕ × Ledger
  unfolding ended check_oscillation check_action_rate
  watch r since ledger =
      if r.reachable
      then (none, checked r r.simulation (ended r since ledger))
      else (since_or since r.now, ledger)

-- ===== src/Safety/State.antt =====
-- The safety state that a ledger tells (core/orchestrator/src/db.rs), and what reading it does.
use helter_skelter.Prelude.{
  ℕ, ◌≡◌, refl, ap, Bool, true, false, Bool-cases, Text, text_eq, Option, none, some, ◌∷◌, ◌⊎◌, inl,
  inr, if◌then◌else◌,
}
use helter_skelter.Prelude.Int.{ℤ}
use helter_skelter.Safety.{
  SafetyState, normal, cautious, conservation, quarantine, rollback, stopped, as_str, parse,
  Transition, Ledger, transition, is_for, latest, or_stopped, is_expired, Access, Reading,
  insert_state_transition, read_row, settled, current_safety_state, is_state,
}

parse-as_str : (s : SafetyState) → parse (as_str s) ≡ some s
unfolding parse text_eq
parse-as_str normal = refl
parse-as_str cautious = refl
parse-as_str conservation = refl
parse-as_str quarantine = refl
parse-as_str rollback = refl
parse-as_str stopped = refl

-- The state of the latest row, expired or not.
abbrev pub written_in : Option Transition → SafetyState
written_in none = normal
written_in (some row) = or_stopped (parse row.to_state)

abbrev pub expires_in : Option Transition → ℕ → Bool
expires_in none tick = false
expires_in (some row) tick = is_expired tick (or_stopped (parse row.to_state)) row.expires_at_tick

unfoldable pub written_state : Option Text → Ledger → SafetyState
written_state sim ledger = written_in (latest sim ledger)

-- The safety state at a tick.
unfoldable pub state_at : Option Text → ℕ → Ledger → SafetyState
state_at sim tick ledger =
    if expires_in (latest sim ledger) tick then normal else written_in (latest sim ledger)

pub written_state-transition :
    (sim sim' : Option Text) (from_state to_state : SafetyState) (e : Option ℕ) (ledger : Ledger)
    → written_state sim (transition sim' from_state to_state e ∷ ledger)
      ≡ (if is_for sim sim' then to_state else written_state sim ledger)
unfolding written_state latest
written_state-transition sim sim' from_state to_state e ledger =
    elim (Bool-cases (is_for sim sim')) [
      | inl h ↦ rw (h, latest) (ap or_stopped (parse-as_str to_state))
      | inr h ↦ rw (h, latest) refl
    ]

conservation_of_expired :
    (tick : ℕ) (s : SafetyState) (e : Option ℤ) → is_expired tick s e ≡ true → s ≡ conservation
conservation_of_expired tick normal e h = cc
conservation_of_expired tick cautious e h = cc
conservation_of_expired tick conservation e h = refl
conservation_of_expired tick quarantine e h = cc
conservation_of_expired tick rollback e h = cc
conservation_of_expired tick stopped e h = cc

-- How a reading that finds a row ends: it fails, or gives the state as it is written, or finds that the
-- window has passed, and logs the recovery.
abbrev pub Ends : Option Text → ℕ → Ledger → Option Transition → Reading → Type 0
Ends sim tick ledger row r =
    (r ≡ (none, ledger))
    ⊎ ((r ≡ (some (written_in row), ledger)) × (expires_in row tick ≡ false))
    ⊎ ((r ≡ (some normal, transition sim conservation normal none ∷ ledger))
        × (written_in row ≡ conservation)
        × (expires_in row tick ≡ true))

read_row-Ends :
    (works : Bool) (sim : Option Text) (tick : ℕ) (ledger : Ledger) (row : Option Transition)
    → Ends sim tick ledger row (read_row works sim tick ledger row)
unfolding read_row insert_state_transition settled
read_row-Ends works sim tick ledger none = inr (inl (refl, refl))
read_row-Ends works sim tick ledger (some row) = elim (Bool-cases (expires_in (some row) tick)) [
  | inr h ↦ inr (inl (rw (h, read_row) refl, h))
  | inl h ↦ elim (Bool-cases works) [
    | inr fails ↦ inl (rw (h, read_row) (rw fails refl))
    | inl works_now ↦ inr (
        inr (
          rw (h, read_row) (rw works_now refl),
          conservation_of_expired tick (or_stopped (parse row.to_state)) row.expires_at_tick h,
          h,
        ))
  ]
]

pub current_safety_state-Ends :
    (db : Access) (sim : Option Text) (tick : ℕ) (ledger : Ledger)
    → Ends sim tick ledger (latest sim ledger) (current_safety_state db sim tick ledger)
unfolding current_safety_state
current_safety_state-Ends db sim tick ledger = elim (Bool-cases db.selects) [
  | inl h ↦
      rw (h, current_safety_state) (read_row-Ends db.inserts sim tick ledger (latest sim ledger))
  | inr h ↦ inl (rw (h, current_safety_state) refl)
]

read_row-works :
    (sim : Option Text) (tick : ℕ) (ledger : Ledger) (row : Option Transition)
    → (read_row true sim tick ledger row).0
      ≡ some (if expires_in row tick then normal else written_in row)
unfolding read_row insert_state_transition settled
read_row-works sim tick ledger none = refl
read_row-works sim tick ledger (some row) = elim (Bool-cases (expires_in (some row) tick)) [
  | inr h ↦ rw (h, read_row) refl
  | inl h ↦ rw (h, read_row) refl
]

-- Where the calls of the database work, a reading gives the state.
pub current_safety_state-state_at :
    (db : Access) (sim : Option Text) (tick : ℕ) (ledger : Ledger)
    → db.selects ≡ true
    → db.inserts ≡ true
    → (current_safety_state db sim tick ledger).0 ≡ some (state_at sim tick ledger)
unfolding current_safety_state state_at
current_safety_state-state_at db sim tick ledger selects inserts =
    rw (selects, current_safety_state)
      (rw inserts (read_row-works sim tick ledger (latest sim ledger)))

never_expired :
    (tick : ℕ) (t : SafetyState) (e : Option ℤ)
    → is_state t conservation ≡ false
    → is_expired tick t e ≡ false
never_expired tick normal e h = refl
never_expired tick cautious e h = refl
never_expired tick conservation e h = cc
never_expired tick quarantine e h = refl
never_expired tick rollback e h = refl
never_expired tick stopped e h = refl

expires_in-written_in :
    (tick : ℕ) (row : Option Transition)
    → is_state (written_in row) conservation ≡ false
    → expires_in row tick ≡ false
expires_in-written_in tick none h = refl
expires_in-written_in tick (some row) h =
    never_expired tick (or_stopped (parse row.to_state)) row.expires_at_tick h

-- A state that is no window is the state at every tick.
pub state_at-written_state :
    (sim : Option Text) (tick : ℕ) (ledger : Ledger)
    → is_state (written_state sim ledger) conservation ≡ false
    → state_at sim tick ledger ≡ written_state sim ledger
unfolding state_at written_state
state_at-written_state sim tick ledger h =
    rw (expires_in-written_in tick (latest sim ledger) h) refl

-- Every call works.
abbrev pub working : Access
working = record { selects = true; inserts = true }

pub current_safety_state-plain :
    (sim : Option Text) (tick : ℕ) (ledger : Ledger)
    → is_state (written_state sim ledger) conservation ≡ false
    → current_safety_state working sim tick ledger ≡ (some (written_state sim ledger), ledger)
unfolding current_safety_state written_state
current_safety_state-plain sim tick ledger h = by_row (latest sim ledger) h
  where
    by_row :
        (row : Option Transition)
        → is_state (written_in row) conservation ≡ false
        → read_row true sim tick ledger row ≡ (some (written_in row), ledger)
    by_row none h = unfold read_row in refl
    by_row (some row) h =
        rw (never_expired tick (or_stopped (parse row.to_state)) row.expires_at_tick h) refl

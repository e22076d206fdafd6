-- ===== src/Safety/Manual.antt =====
-- What keeps a ledger in Quarantine or Stopped (core/governor/src/safety_state.rs): the rows that the
-- processes of core/orchestrator/src write.
use helter_skelter.Prelude.{
  ℕ, ◌+◌, ◌≡◌, refl, Bool, true, false, Bool-cases, Text, text_eq, eq_of_text_eq, Option, none,
  some, ◌∷◌, ◌⊎◌, inl, inr,
}
use helter_skelter.Safety.{
  SafetyState, normal, cautious, conservation, quarantine, rollback, stopped,
  requires_manual_resolution, Ledger, transition, is_for, Access, Reading, insert_state_transition,
  current_safety_state, is_state,
}
use helter_skelter.Safety.State.{written_state, written_state-transition}
use helter_skelter.Safety.Transitions.{
  logged_or, Startup, entered, reconcile_on_startup, resolve_from, resolve, Restoring, or_normal,
  trigger_automatic_rollback,
}
use helter_skelter.Safety.Kept.{IsKept, insert_or, looked-kept}

-- The latest row of all simulations is no conservation window.
abbrev pub IsGlobal : Ledger → Type 0
IsGlobal ledger = is_state (written_state none ledger) conservation ≡ false

-- A simulation is held: its state wants a human.
abbrev pub IsHeld : Text → Ledger → Type 0
IsHeld s ledger =
    (requires_manual_resolution (written_state (some s) ledger) ≡ true) × IsGlobal ledger

not_conservation :
    (t : SafetyState) → requires_manual_resolution t ≡ true → is_state t conservation ≡ false
unfolding requires_manual_resolution
not_conservation normal h = refl
not_conservation cautious h = refl
not_conservation conservation h = cc
not_conservation quarantine h = refl
not_conservation rollback h = refl
not_conservation stopped h = refl

-- A row for another simulation, or of a state that wants a human, or, for the global state, of no window.
abbrev KeepsHeld : Text → Option Text → SafetyState → Type 0
KeepsHeld s sim to_state =
    (is_for (some s) sim ≡ false) ⊎ (requires_manual_resolution to_state ≡ true)

pub transition-IsGlobal :
    (sim : Option Text) (from_state to_state : SafetyState) (e : Option ℕ) (ledger : Ledger)
    → IsGlobal ledger
    → (is_for none sim ≡ false) ⊎ (is_state to_state conservation ≡ false)
    → IsGlobal (transition sim from_state to_state e ∷ ledger)
transition-IsGlobal sim from_state to_state e ledger g (inl other) =
    rw (written_state-transition none sim from_state to_state e ledger) (rw other g)
transition-IsGlobal sim from_state to_state e ledger g (inr fine) =
    rw (written_state-transition none sim from_state to_state e ledger)
      (elim (Bool-cases (is_for none sim)) [ inl here ↦ rw here fine | inr other ↦ rw other g ])

pub transition-IsHeld :
    (s : Text) (sim : Option Text) (from_state to_state : SafetyState) (e : Option ℕ)
    (ledger : Ledger)
    → IsHeld s ledger
    → KeepsHeld s sim to_state
    → (is_for none sim ≡ false) ⊎ (is_state to_state conservation ≡ false)
    → IsHeld s (transition sim from_state to_state e ∷ ledger)
transition-IsHeld s sim from_state to_state e ledger (held, g) (inl other) h = (
  rw (written_state-transition (some s) sim from_state to_state e ledger) (rw other held),
  transition-IsGlobal sim from_state to_state e ledger g h,
)
transition-IsHeld s sim from_state to_state e ledger (held, g) (inr manual) h = (
  rw (written_state-transition (some s) sim from_state to_state e ledger)
      (elim (Bool-cases (is_for (some s) sim)) [
        | inl here ↦ rw here manual
        | inr other ↦ rw other held
      ]),
  transition-IsGlobal sim from_state to_state e ledger g h,
)

pub IsGlobal-IsKept : IsKept IsGlobal
IsGlobal-IsKept = record {
  recovers = λ sim ledger e g. transition-IsGlobal sim conservation normal none ledger g (inr refl);
  escalates = λ from_state to_state ledger manual g.
      transition-IsGlobal none from_state to_state none ledger g
        (inr (not_conservation to_state manual));
  settles =
      λ sim ledger e g. transition-IsGlobal (some sim) cautious normal none ledger g (inr refl);
}

-- A window of this simulation cannot pass while it is held, nor one of all simulations.
foreign :
    (s : Text) (sim : Option Text) (ledger : Ledger) (t : SafetyState)
    → IsHeld s ledger
    → written_state sim ledger ≡ t
    → requires_manual_resolution t ≡ false
    → (is_state t conservation ≡ true) ⊎ (is_for none sim ≡ false)
    → is_for (some s) sim ≡ false
foreign s none ledger t (held, g) e mild (inl window) = cc
foreign s none ledger t (held, g) e mild (inr other) = cc
foreign s (some s') ledger t (held, g) e mild window = elim (Bool-cases (text_eq s' s)) [
  | inr other ↦ other
  | inl here ↦
      let same : s' ≡ s = eq_of_text_eq s' s here in
      let e' : written_state (some s) ledger ≡ t = rw same at e in cc
]

pub IsHeld-IsKept : (s : Text) → IsKept (IsHeld s)
unfolding requires_manual_resolution
IsHeld-IsKept s = record {
  recovers = λ sim ledger e v.
      transition-IsHeld s sim conservation normal none ledger v
        (inl (foreign s sim ledger conservation v e refl (inl refl))) (inr refl);
  escalates = λ from_state to_state ledger manual v.
      transition-IsHeld s none from_state to_state none ledger v (inr manual)
        (inr (not_conservation to_state manual));
  settles = λ sim ledger e v.
      transition-IsHeld s (some sim) cautious normal none ledger v
        (inl (foreign s (some sim) ledger cautious v e refl (inr refl))) (inr refl);
}

pub startup-IsGlobal :
    (db : Startup) (ledger : Ledger) → IsGlobal ledger → IsGlobal (reconcile_on_startup db ledger).1
unfolding reconcile_on_startup
startup-IsGlobal db ledger g = elim (Bool-cases db.finds_in_flight) [
  | inr h ↦ rw (h, reconcile_on_startup) g
  | inl h ↦
      rw (h, reconcile_on_startup)
        (by_reading (current_safety_state db.access none 0 ledger)
          (looked-kept IsGlobal IsGlobal-IsKept db.access none 0 ledger g))
]
  where
    by_reading : (r : Reading) → IsGlobal r.1 → IsGlobal (entered db.enters r).1
    by_reading (none, l) v = v
    by_reading (some from_state, l) v =
        insert_or IsGlobal db.enters none from_state cautious none l v
          (transition-IsGlobal none from_state cautious none l v (inr refl))

pub resolve-IsGlobal :
    (db : Access) (works : Bool) (ledger : Ledger)
    → IsGlobal ledger
    → IsGlobal (resolve db works ledger)
unfolding resolve resolve_from
resolve-IsGlobal db works ledger g =
    by_reading (current_safety_state db none 0 ledger)
      (looked-kept IsGlobal IsGlobal-IsKept db none 0 ledger g)
  where
    by_reading : (r : Reading) → IsGlobal r.1 → IsGlobal (resolve_from works r)
    by_reading (none, l) v = v
    by_reading (some from_state, l) v = elim (Bool-cases (requires_manual_resolution from_state)) [
      | inr h ↦ rw (h, resolve_from) v
      | inl h ↦
          rw (h, resolve_from)
            (insert_or IsGlobal works none from_state normal none l v
              (transition-IsGlobal none from_state normal none l v (inr refl)))
    ]

-- A rollback writes rows of its own simulation only.
pub rollback-kept :
    (P : Ledger → Type 0) (k : IsKept P) (db : Restoring) (sim : Text) (ticks tick : ℕ)
    (ledger : Ledger)
    → ((from_state to_state : SafetyState) (e : Option ℕ) (l : Ledger)
        → P l
        → P (transition (some sim) from_state to_state e ∷ l))
    → P ledger
    → P (trigger_automatic_rollback db sim ticks tick ledger)
unfolding trigger_automatic_rollback
rollback-kept P k db sim ticks tick ledger own v =
    let r = current_safety_state db.access (some sim) tick ledger in
    let from_state = or_normal r.0 in
    let read = looked-kept P k db.access (some sim) tick ledger v in
    let inside =
      insert_or P db.enters (some sim) from_state rollback none r.1 read
        (own from_state rollback none r.1 read) in
    let l =
      logged_or r.1 (insert_state_transition db.enters (some sim) from_state rollback none r.1) in
    elim (Bool-cases db.restores) [
      | inr h ↦ rw (h, trigger_automatic_rollback) inside
      | inl h ↦
          rw (h, trigger_automatic_rollback)
            (insert_or P db.leaves (some sim) rollback conservation (some (tick + ticks)) l inside
              (own rollback conservation (some (tick + ticks)) l inside))
    ]

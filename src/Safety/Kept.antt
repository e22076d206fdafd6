-- ===== src/Safety/Kept.antt =====
-- What the readings of the safety state (core/orchestrator/src/db.rs) and the watchdog leave true of a
-- ledger.
use mathlib.Core.Path.{subst}
use helter_skelter.Prelude.{
  ℕ, suc, ◌+◌, ◌-◌, ◌*◌, ◌≡◌, refl, sym, Bool, true, false, Bool-cases, Text, Option, none, some,
  List, [], ◌∷◌, inl, inr, ltb, leb,
}
use helter_skelter.Prelude.Int.{ℤ}
use helter_skelter.Governor.{Constitution}
use helter_skelter.Safety.{
  SafetyState, normal, cautious, conservation, quarantine, rollback, stopped,
  requires_manual_resolution, Ledger, transition, latest, Access, Reading, insert_state_transition,
  current_safety_state, is_state,
}
use helter_skelter.Safety.State.{written_state, Ends, current_safety_state-Ends}
use helter_skelter.Safety.Transitions.{
  logged_or, recovered, recover_from_cautious_on_clean_heartbeat,
}
use helter_skelter.Watchdog.{
  escalated, escalate, check_rides, check_action_rate, check_oscillation, checked, ended, watch,
  Round, count_reversals, group,
}

abbrev pub IsManual : SafetyState → Type 0
IsManual s = requires_manual_resolution s ≡ true

-- What the readings, the watchdog and the heartbeats keep: they write that a window has passed, for all
-- simulations a state that wants a human, and for a cautious simulation that it is normal.
pub record IsKept (P : Ledger → Type 0) : Type 0 where
  pub recovers :
      (sim : Option Text) (ledger : Ledger)
      → written_state sim ledger ≡ conservation
      → P ledger
      → P (transition sim conservation normal none ∷ ledger)
  pub escalates :
      (from_state to_state : SafetyState) (ledger : Ledger)
      → IsManual to_state
      → P ledger
      → P (transition none from_state to_state none ∷ ledger)
  pub settles :
      (sim : Text) (ledger : Ledger)
      → written_state (some sim) ledger ≡ cautious
      → P ledger
      → P (transition (some sim) cautious normal none ∷ ledger)

-- An insertion that may fail.
pub insert_or :
    (P : Ledger → Type 0) (works : Bool) (sim : Option Text) (from_state to_state : SafetyState)
    (e : Option ℕ) (ledger : Ledger)
    → P ledger
    → P (transition sim from_state to_state e ∷ ledger)
    → P (logged_or ledger (insert_state_transition works sim from_state to_state e ledger))
unfolding insert_state_transition
insert_or P true sim from_state to_state e ledger old new = new
insert_or P false sim from_state to_state e ledger old new = old

module _ (P : Ledger → Type 0) (k : IsKept P) where
  Ends-kept :
      (sim : Option Text) (tick : ℕ) (ledger : Ledger) (r : Reading)
      → Ends sim tick ledger (latest sim ledger) r
      → P ledger
      → P r.1
  unfolding written_state
  Ends-kept sim tick ledger r (inl e) v = subst (λ (x : Reading). P x.1) (sym e) v
  Ends-kept sim tick ledger r (inr (inl (e, h))) v = subst (λ (x : Reading). P x.1) (sym e) v
  Ends-kept sim tick ledger r (inr (inr (e, h, passed))) v =
      subst (λ (x : Reading). P x.1) (sym e) (k.recovers sim ledger h v)

  pub looked-kept :
      (db : Access) (sim : Option Text) (tick : ℕ) (ledger : Ledger)
      → P ledger
      → P (current_safety_state db sim tick ledger).1
  looked-kept db sim tick ledger v =
      Ends-kept sim tick ledger _ (current_safety_state-Ends db sim tick ledger) v

  escalated-kept :
      (works : Bool) (to_state : SafetyState) (r : Reading)
      → IsManual to_state
      → P r.1
      → P (escalated works to_state r)
  unfolding escalated
  escalated-kept works to_state (none, ledger) h v = v
  escalated-kept works to_state (some from_state, ledger) h v =
      elim (Bool-cases (is_state from_state to_state)) [
        | inl already ↦ rw (already, escalated) v
        | inr other ↦ elim (Bool-cases (is_state from_state stopped)) [
          | inl worst ↦ rw (other, escalated) (rw worst v)
          | inr milder ↦
              rw (other, escalated)
                (rw milder (
                  insert_or P works none from_state to_state none ledger v
                    (k.escalates from_state to_state ledger h v)))
        ]
      ]

  escalate-kept :
      (db : Access) (works : Bool) (to_state : SafetyState) (ledger : Ledger)
      → IsManual to_state
      → P ledger
      → P (escalate db works to_state ledger)
  unfolding escalate
  escalate-kept db works to_state ledger h v =
      escalated-kept works to_state (current_safety_state db none 0 ledger) h
        (looked-kept db none 0 ledger v)

  module _ {F : Type 0} (c : Constitution F) where
    check_action_rate-kept :
        (db : Access) (works : Bool) (count : Option ℕ) (ledger : Ledger)
        → P ledger
        → P (check_action_rate c (db, works) count ledger)
    unfolding check_action_rate
    check_action_rate-kept db works none ledger v = v
    check_action_rate-kept db works (some count) ledger v =
        elim (Bool-cases (ltb c.action_rate_stopped_threshold_per_minute count)) [
          | inl over ↦
              rw (over, check_action_rate)
                (escalate-kept db works stopped ledger (unfold requires_manual_resolution in refl)
                  v)
          | inr within ↦ rw (within, check_action_rate) v
        ]

    check_rides-kept :
        (access : ℕ → Access × Bool) (i : ℕ) (rides : List (ℤ × List ℤ)) (ledger : Ledger)
        → P ledger
        → P (check_rides c access i rides ledger)
    unfolding check_rides
    check_rides-kept access i [] ledger v = v
    check_rides-kept access i ((ride, prices) ∷ rides) ledger v =
        elim (Bool-cases (ltb c.oscillation_max_reversals (count_reversals prices))) [
          | inl over ↦
              rw (over, check_rides)
                (check_rides-kept access (suc i) rides _ (
                  escalate-kept (access i).0 (access i).1 quarantine ledger
                    (unfold requires_manual_resolution in refl) v))
          | inr within ↦ rw (within, check_rides) (check_rides-kept access (suc i) rides ledger v)
        ]

    check_oscillation-kept :
        (access : ℕ → Access × Bool) (changes : Option (List (ℤ × ℤ))) (ledger : Ledger)
        → P ledger
        → P (check_oscillation c access changes ledger)
    unfolding check_oscillation
    check_oscillation-kept access none ledger v = v
    check_oscillation-kept access (some changes) ledger v =
        check_rides-kept access 2 (group changes []) ledger v

    checked-kept :
        (r : Round) (sim : Option (Option Text)) (ledger : Ledger)
        → P ledger
        → P (checked c r sim ledger)
    checked-kept r none ledger v = v
    checked-kept r (some none) ledger v = v
    checked-kept r (some (some sim)) ledger v =
        check_oscillation-kept r.access r.price_changes _
          (check_action_rate-kept (r.access 1).0 (r.access 1).1 r.actions ledger v)

    ended-kept :
        (r : Round) (since : Option ℕ) (ledger : Ledger) → P ledger → P (ended c r since ledger)
    unfolding ended
    ended-kept r none ledger v = v
    ended-kept r (some since) ledger v =
        elim (Bool-cases
          (leb (c.db_unreachable_stopped_after_secs * 1_000_000_000) (r.now - since))) [
            | inl long ↦
                rw (long, ended)
                  (escalate-kept (r.access 0).0 (r.access 0).1 stopped ledger
                    (unfold requires_manual_resolution in refl) v)
            | inr short ↦ rw (short, ended) v
          ]

    pub watch-kept :
        (r : Round) (since : Option ℕ) (ledger : Ledger) → P ledger → P (watch c r since ledger).1
    unfolding watch
    watch-kept r since ledger v = elim (Bool-cases r.reachable) [
      | inl up ↦ rw (up, watch) (checked-kept r r.simulation _ (ended-kept r since ledger v))
      | inr down ↦ rw (down, watch) v
    ]

  settled-kept :
      (works : Bool) (sim : Text) (needed count : ℕ) (ledger : Ledger) (w : SafetyState)
      → written_state (some sim) ledger ≡ w
      → P ledger
      → P (recovered works sim needed count (some w, ledger)).1
  unfolding insert_state_transition
  settled-kept works sim needed count ledger normal e v = v
  settled-kept works sim needed count ledger conservation e v = v
  settled-kept works sim needed count ledger quarantine e v = v
  settled-kept works sim needed count ledger rollback e v = v
  settled-kept works sim needed count ledger stopped e v = v
  settled-kept works sim needed count ledger cautious e v =
      elim (Bool-cases (leb needed (count + 1))) [
        | inr early ↦ rw early v
        | inl enough ↦ elim (Bool-cases works) [
          | inl h ↦ rw enough (rw h (k.settles sim ledger e v))
          | inr h ↦ rw enough (rw h v)
        ]
      ]

  pub beat-kept :
      (db : Access) (works : Bool) (sim : Text) (tick needed count : ℕ) (ledger : Ledger)
      → P ledger
      → P (recover_from_cautious_on_clean_heartbeat db works sim tick needed count ledger).1
  unfolding recover_from_cautious_on_clean_heartbeat written_state
  beat-kept db works sim tick needed count ledger v =
      elim (current_safety_state-Ends db (some sim) tick ledger) [
        | inl e ↦ rw (e, recover_from_cautious_on_clean_heartbeat) v
        | inr (inl (e, h)) ↦
            rw (e, recover_from_cautious_on_clean_heartbeat)
              (settled-kept works sim needed count ledger (written_state (some sim) ledger) refl v)
        | inr (inr (e, h, passed)) ↦
            rw (e, recover_from_cautious_on_clean_heartbeat) (k.recovers (some sim) ledger h v)
      ]

-- ===== src/Safety/Released.antt =====
-- Ways out of Quarantine and Stopped (core/governor/src/safety_state.rs) that no human takes: an automatic
-- rollback (core/orchestrator/src/tcp_server.rs) and a start (core/orchestrator/src/startup.rs).
use mathlib.Core.Option.{some_inj}
use helter_skelter.Prelude.{
  ℕ, zero, suc, ◌+◌, ◌^◌, ◌≤◌, ◌<◌, ◌≡◌, refl, ap, ◌∙◌, true, false, Bool-cases, Text, text_eq_refl,
  none, some, List, [], ◌∷◌, inl, inr, leb, if◌then◌else◌, arith,
}
use helter_skelter.Prelude.Int.{pos}
use helter_skelter.Governor.{Constitution}
use helter_skelter.Safety.{
  SafetyState, normal, cautious, conservation, Ledger, transition, as_i64, Reading,
  insert_state_transition, current_safety_state, is_state,
}
use helter_skelter.Safety.State.{
  written_state, state_at, written_state-transition, current_safety_state-state_at,
  current_safety_state-plain, state_at-written_state, working,
}
use helter_skelter.Safety.Transitions.{
  Startup, entered, reconcile_on_startup, Restoring, recover_from_cautious_on_clean_heartbeat,
}
use helter_skelter.Safety.Run.{Guard, Event, started, beat, step, run}

-- Every call works.
abbrev pub restoring : Restoring
restoring = record { access = working; enters = true; restores = true; leaves = true }

pub as_i64-small : (n : ℕ) → n < 2 ^ 63 → as_i64 n ≡ pos n
unfolding as_i64
as_i64-small n h = ground arith

-- The heartbeats of a cautious simulation.
abbrev pub beats : ℕ → Text → ℕ → List Event
beats zero sim tick = []
beats (suc n) sim tick = beat working true sim tick ∷ beats n sim tick

module _ {F : Type 0} (c : Constitution F) (sim : Text) (tick : ℕ) where
  beat-cautious :
      (g : Guard)
      → written_state (some sim) g.ledger ≡ cautious
      → step c (beat working true sim tick) g ≡ (
          if leb c.cautious_recovery_heartbeats (g.clean_heartbeats + 1)
          then record g {
            ledger = transition (some sim) cautious normal none ∷ g.ledger;
            clean_heartbeats = 0;
          }
          else record g { clean_heartbeats = g.clean_heartbeats + 1 })
  unfolding step recover_from_cautious_on_clean_heartbeat insert_state_transition
  beat-cautious g e =
      let plain : is_state (written_state (some sim) g.ledger) conservation ≡ false = rw e refl in
      let read : current_safety_state working (some sim) tick g.ledger ≡ (some cautious, g.ledger) =
        current_safety_state-plain (some sim) tick g.ledger plain
        ∙ ap (λ w. (some w, g.ledger)) e in
      elim (Bool-cases (leb c.cautious_recovery_heartbeats (g.clean_heartbeats + 1))) [
        | inl enough ↦ rw (read, recover_from_cautious_on_clean_heartbeat) (rw enough refl)
        | inr early ↦ rw (read, recover_from_cautious_on_clean_heartbeat) (rw early refl)
      ]

  -- Before the last of the heartbeats that are needed, the ledger stays as it is.
  beats-cautious :
      (n : ℕ) (g : Guard)
      → written_state (some sim) g.ledger ≡ cautious
      → g.clean_heartbeats + n < c.cautious_recovery_heartbeats
      → run c (beats n sim tick) g ≡ record g { clean_heartbeats = g.clean_heartbeats + n }
  unfolding run
  beats-cautious zero g e h =
      ap (λ (k : ℕ). record g { clean_heartbeats = k }) {x = g.clean_heartbeats}
        {y = g.clean_heartbeats + 0} (omega arith)
  beats-cautious (suc n) g e h =
      let early : leb c.cautious_recovery_heartbeats (g.clean_heartbeats + 1) ≡ false =
        ground arith in
      let one : step c (beat working true sim tick) g
          ≡ record g { clean_heartbeats = g.clean_heartbeats + 1 } =
        beat-cautious g e ∙ rw early refl in
      ap (run c (beats n sim tick)) one
      ∙ beats-cautious n (record g { clean_heartbeats = g.clean_heartbeats + 1 }) e
          (omega (arith, h))
      ∙ ap (λ (k : ℕ). record g { clean_heartbeats = k }) {x = g.clean_heartbeats + 1 + n}
          {y = g.clean_heartbeats + suc n} (omega arith)

  beats-append :
      (n : ℕ) (g : Guard)
      → run c (beats (suc n) sim tick) g
        ≡ step c (beat working true sim tick) (run c (beats n sim tick) g)
  unfolding run
  beats-append zero g = refl
  beats-append (suc n) g = beats-append n (step c (beat working true sim tick) g)

  beats-recover :
      (n : ℕ) (g : Guard)
      → written_state (some sim) g.ledger ≡ cautious
      → g.clean_heartbeats ≡ 0
      → c.cautious_recovery_heartbeats ≡ suc n
      → run c (beats (suc n) sim tick) g ≡ record g {
        ledger = transition (some sim) cautious normal none ∷ g.ledger;
        clean_heartbeats = 0;
      }
  beats-recover n g e fresh needed =
      let counted : run c (beats n sim tick) g
          ≡ record g { clean_heartbeats = g.clean_heartbeats + n } =
        beats-cautious n g e (omega (arith, fresh, needed)) in
      let enough : leb c.cautious_recovery_heartbeats (g.clean_heartbeats + n + 1) ≡ true =
        ground arith in
      beats-append n g
      ∙ ap (step c (beat working true sim tick)) counted
      ∙ beat-cautious (record g { clean_heartbeats = g.clean_heartbeats + n }) e
      ∙ rw enough refl

abbrev pub starting : Startup
starting = record { finds_in_flight = true; access = working; enters = true }

entered_lem :
    (r : Reading) (t : SafetyState)
    → r.0 ≡ some t
    → (entered true r).1 ≡ transition none t cautious none ∷ r.1
unfolding entered insert_state_transition
entered_lem (none, ledger) t e = cc
entered_lem (some t', ledger) t e =
    ap (λ (w : SafetyState). transition none w cautious none ∷ ledger) (some_inj.0 e)

started-cautious :
    (sim : Text) (ledger : Ledger)
    → written_state (some sim) (reconcile_on_startup starting ledger).1 ≡ cautious
unfolding reconcile_on_startup
started-cautious sim ledger =
    let r = current_safety_state working none 0 ledger in
    let t = state_at none 0 ledger in
    ap (written_state (some sim))
      (entered_lem r t (current_safety_state-state_at working none 0 ledger refl refl))
    ∙ written_state-transition (some sim) none t cautious none r.1

-- A start of the orchestrator lets a simulation out of any state, of Quarantine and Stopped too: whatever
-- the ledger, after the start it is cautious, at every tick, up to the last of the clean heartbeats that
-- the constitution asks for, and with that heartbeat in Normal, without a human.
pub startup-releases :
    {F : Type 0} (c : Constitution F) (sim : Text) (tick now m n : ℕ) (g : Guard)
    → c.cautious_recovery_heartbeats ≡ suc n
    → m ≤ n
    → (state_at (some sim) now (run c (started starting ∷ beats m sim tick) g).ledger ≡ cautious)
      × (state_at (some sim) now (run c (started starting ∷ beats (suc n) sim tick) g).ledger
          ≡ normal)
unfolding run
startup-releases c sim tick now m n g needed h =
    let up = step c (started starting) g in
    let low : written_state (some sim) up.ledger ≡ cautious =
      unfold step in started-cautious sim g.ledger in
    let fresh : up.clean_heartbeats ≡ 0 = unfold step in refl in
    let before = beats-cautious c sim tick m up low (omega (arith, fresh, needed, h)) in
    let after = beats-recover c sim tick n up low fresh needed in
    let still : written_state (some sim) (run c (beats m sim tick) up).ledger ≡ cautious =
      ap (λ (x : Guard). written_state (some sim) x.ledger) before ∙ low in
    let back : written_state (some sim) (run c (beats (suc n) sim tick) up).ledger ≡ normal =
      ap (λ (x : Guard). written_state (some sim) x.ledger) after
      ∙ written_state-transition (some sim) (some sim) cautious normal none up.ledger
      ∙ rw (text_eq_refl sim) refl in
    (
      state_at-written_state (some sim) now _ (rw still refl) ∙ still,
      state_at-written_state (some sim) now _ (rw back refl) ∙ back,
    )

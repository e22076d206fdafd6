-- ===== src/Orchestrator/Drop.antt =====
-- An unexpected drop of the cash gates the proposals of the same snapshot
-- (core/orchestrator/src/tcp_server.rs).
use helter_skelter.Prelude.{
  ℕ, suc, ◌+◌, ◌^◌, ◌<◌, ◌≡◌, refl, ap, ◌∙◌, Bool, true, false, ◌||◌, Text, text_eq, text_eq_refl,
  none, some, List, [], ◌∷◌, ◌⊎◌, inl, inr, if◌then◌else◌, arith,
}
use helter_skelter.Prelude.Int.{ℤ}
use helter_skelter.Governor.{Proposal}
use helter_skelter.World.{Observed, record_snapshot}
use helter_skelter.Operator.{back}
use helter_skelter.Safety.{
  SafetyState, conservation, rollback, authorizes_proposals, Ledger, transition,
  insert_state_transition, latest, parse, current_safety_state,
}
use helter_skelter.Safety.State.{state_at}
use helter_skelter.Safety.Transitions.{Restoring, logged_or, or_normal, trigger_automatic_rollback}
use helter_skelter.Safety.Released.{as_i64-small}
use helter_skelter.Orchestrator.Tables.{SharedState, PendingVerification, Node}
use helter_skelter.Orchestrator.Proposals.{Answers, handle_proposal}
use helter_skelter.Orchestrator.Rollback.{
  is_bad, roll_back, verify, verify_all, check_pending_verifications,
}
use helter_skelter.Orchestrator.Handler.{or_zero, cash_of, handle_all, on_observation}
use helter_skelter.Orchestrator.Gate.{IsShut, handle_proposal-IsIdle}

rollback-IsShut :
    (sim : Text) (from_state : SafetyState) (tick : ℕ) (ledger : Ledger)
    → IsShut sim tick (transition (some sim) from_state rollback none ∷ ledger)
unfolding state_at authorizes_proposals latest parse text_eq
rollback-IsShut sim from_state tick ledger = rw (text_eq_refl sim) refl

conservation-IsShut :
    (sim : Text) (tick ticks : ℕ) (ledger : Ledger)
    → 0 < ticks
    → tick + ticks < 2 ^ 63
    → IsShut sim tick (transition (some sim) rollback conservation (some (tick + ticks)) ∷ ledger)
unfolding state_at authorizes_proposals latest parse text_eq
conservation-IsShut sim tick ticks ledger h k =
    rw (text_eq_refl sim) (
      rw (as_i64-small tick (omega (arith, k))) (rw (as_i64-small (tick + ticks) k) (ground arith)))

landed-IsShut :
    (enters restores leaves : Bool) (sim : Text) (from_state : SafetyState) (ticks tick : ℕ)
    (ledger : Ledger)
    → enters ≡ true
    → 0 < ticks
    → tick + ticks < 2 ^ 63
    → let entered =
        logged_or ledger
          (insert_state_transition enters (some sim) from_state rollback none ledger) in
      IsShut sim tick (
        if restores
        then logged_or entered (
            insert_state_transition leaves
              (some sim)
              rollback
              conservation
              (some (tick + ticks))
              entered)
        else entered)
unfolding insert_state_transition
landed-IsShut false restores leaves sim from_state ticks tick ledger enters h k = absurd cc
landed-IsShut true false leaves sim from_state ticks tick ledger enters h k =
    rollback-IsShut sim from_state tick ledger
landed-IsShut true true false sim from_state ticks tick ledger enters h k =
    rollback-IsShut sim from_state tick ledger
landed-IsShut true true true sim from_state ticks tick ledger enters h k =
    conservation-IsShut sim tick ticks _ h k

-- A rollback that is recorded as a state shuts the gate, restored or not.
trigger-IsShut :
    (calls : Restoring) (sim : Text) (ticks tick : ℕ) (ledger : Ledger)
    → calls.enters ≡ true
    → 0 < ticks
    → tick + ticks < 2 ^ 63
    → IsShut sim tick (trigger_automatic_rollback calls sim ticks tick ledger)
unfolding trigger_automatic_rollback
trigger-IsShut calls sim ticks tick ledger enters h k =
    let (from_state, ledger') = current_safety_state calls.access (some sim) tick ledger in
    landed-IsShut calls.enters calls.restores calls.leaves sim (or_normal from_state) ticks tick
      ledger' enters h k

-- Some action that is awaited looks wrong.
abbrev pub any_bad : (cash most : ℤ) → List (Text × PendingVerification) → Bool
any_bad cash most [] = false
any_bad cash most (e ∷ vs) = is_bad cash most e.1 || any_bad cash most vs

split_if :
    {A : Type 0} (P : A → Type 0) (Q : Bool → Type 0) (b : Bool) {x y : A}
    → (Q true → P x)
    → (Q false → P y)
    → Q b
    → P (if b then x else y)
split_if P Q true f g q = f q
split_if P Q false f g q = g q

module _ {F : Type 0} (calls : ℕ → Restoring) (sim : Text) (tick : ℕ) (cash most : ℤ) where
  -- What a verification leaves: the actions that are awaited, what was sent, and the shared state.
  abbrev IsCalm : Node F → Node F → Type 0
  IsCalm n n' =
      (n'.sent ≡ n.sent) × (n'.pending_actions ≡ n.pending_actions) × (n'.shared ≡ n.shared)

  abbrev IsWindow : Node F → Type 0
  IsWindow n =
      let ticks = n.shared.governor.constitution.conservation_ticks in
      (0 < ticks) × (tick + ticks < 2 ^ 63)

  roll_back-IsShut :
      (k : ℕ) (sid : Text) (n : Node F)
      → ((k : ℕ) → (calls k).enters ≡ true)
      → IsWindow n
      → IsShut sim tick (roll_back (calls k) sim sid tick n).db.state_transitions
  unfolding roll_back
  roll_back-IsShut k sid n enters (h, w) =
      trigger-IsShut _ sim n.shared.governor.constitution.conservation_ticks tick
        n.db.state_transitions (enters k) h w

  -- Of the verifications, one that is bad shuts the gate, and it stays shut.
  verify_all-IsShut :
      (k : ℕ) (vs : List (Text × PendingVerification)) (n : Node F)
      → ((k : ℕ) → (calls k).enters ≡ true)
      → IsWindow n
      → (any_bad cash most vs ≡ true) ⊎ IsShut sim tick n.db.state_transitions
      → let n' = verify_all calls sim tick cash most k vs n in
        IsShut sim tick n'.db.state_transitions × IsCalm n n'
  unfolding verify_all verify roll_back
  verify_all-IsShut k [] n enters w (inl bad) = absurd cc
  verify_all-IsShut k [] n enters w (inr shut) = (shut, (refl, refl, refl))
  verify_all-IsShut k ((id, v) ∷ vs) n enters w h =
      split_if
        (λ m.
          let n' = verify_all calls sim tick cash most (suc k) vs m in
          IsShut sim tick n'.db.state_transitions × IsCalm n n')
        (λ b. ((b || any_bad cash most vs) ≡ true) ⊎ IsShut sim tick n.db.state_transitions)
        (is_bad cash most v)
        (λ bad.
          verify_all-IsShut (suc k) vs (roll_back (calls k) sim v.snapshot_id tick n) enters w
            (inr (roll_back-IsShut k v.snapshot_id n enters w)))
        (λ fine. verify_all-IsShut (suc k) vs n enters w fine) h

module _ {F : Type 0} (below : F → F → Bool) (confidence : F) where
  handle_all-calm :
      (now : ℕ) (sim : Text) (tick : ℕ) (cash : ℤ) (answers : ℕ → Answers) (k : ℕ)
      (ps : List (Proposal F)) (n : Node F)
      → IsShut sim tick n.db.state_transitions
      → let n' = handle_all below confidence now sim tick cash answers k ps n in
        (n'.sent ≡ n.sent) × (n'.pending_actions ≡ n.pending_actions) × (n'.shared ≡ n.shared)
  unfolding handle_all
  handle_all-calm now sim tick cash answers k [] n shut = (refl, refl, refl)
  handle_all-calm now sim tick cash answers k (p ∷ ps) n shut =
      let (rows, auths, e) = handle_proposal-IsIdle (answers k) sim tick p now cash below n shut in
      let still : IsShut sim tick
          (handle_proposal (answers k) sim tick p now cash below n).db.state_transitions =
        rw e shut in
      let (same_sent, same_pending, same_shared) =
        handle_all-calm now sim tick cash answers (suc k) ps
          (handle_proposal (answers k) sim tick p now cash below n) still in
      (
        same_sent ∙ ap (λ (x : Node F). x.sent) e,
        same_pending ∙ ap (λ (x : Node F). x.pending_actions) e,
        same_shared ∙ ap (λ (x : Node F). x.shared) e,
      )

-- Where the cash of a snapshot is lower, by more than max_unexpected_cash_drop, than before an action that
-- awaits its verification, and rollbacks are recorded as states, nothing is done on the proposals of that
-- same snapshot: no command.request is sent, no more results are awaited, and the governor's budget is not
-- spent. The conservation window is not empty, and its end fits 63 bits.
pub on_observation-sends_nothing :
    {F : Type 0} (below : F → F → Bool) (confidence : F) (now : ℕ) (sim : Text) (s : Observed)
    (calls : ℕ → Restoring) (answers : ℕ → Answers) (n : Node F)
    → let c = n.shared.governor.constitution in
      let tick = or_zero n.shared.world.tick in
      let cash = cash_of (back (record_snapshot s n.shared.world).history) in
      let n' = on_observation below confidence now sim s calls answers n in
      any_bad cash c.max_unexpected_cash_drop n.pending_verifications ≡ true
      → ((k : ℕ) → (calls k).enters ≡ true)
      → 0 < c.conservation_ticks
      → tick + c.conservation_ticks < 2 ^ 63
      → (n'.sent ≡ n.sent)
        × (n'.pending_actions ≡ n.pending_actions)
        × (n'.shared.governor ≡ n.shared.governor)
unfolding on_observation check_pending_verifications record_snapshot
on_observation-sends_nothing {F = F} below confidence now sim s calls answers n bad enters h k =
    let world = record_snapshot s n.shared.world in
    let cash = cash_of (back world.history) in
    let tick = or_zero n.shared.world.tick in
    let seen = record n {
      shared = record n.shared { world = world };
      pending_verifications = [];
    } in
    let (shut, (same_sent, same_pending, same_shared)) =
      verify_all-IsShut calls sim tick cash n.shared.governor.constitution.max_unexpected_cash_drop
        0 n.pending_verifications seen enters (h, k) (inl bad) in
    let (sent', pending', shared') =
      handle_all-calm below confidence now sim tick cash answers 0 _ _ shut in
    (
      sent' ∙ same_sent,
      pending' ∙ same_pending,
      ap (λ (x : SharedState F). x.governor) (shared' ∙ same_shared),
    )

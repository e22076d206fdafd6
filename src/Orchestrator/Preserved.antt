-- ===== src/Orchestrator/Preserved.antt =====
-- What the handling of a proposal keeps true of the governor and of what is sent, a run of the
-- orchestrator (core/orchestrator/src/tcp_server.rs) keeps.
use helter_skelter.Prelude.{
  ℕ, suc, ◌≤◌, Bool, true, false, Text, Option, none, some, List, [], ◌∷◌, Bool-cases, Option-cases,
  inl, inr,
}
use helter_skelter.Prelude.Int.{ℤ}
use helter_skelter.Protocol.{CommandResult}
use helter_skelter.Governor.{Governor, Proposal}
use helter_skelter.Safety.Transitions.{Restoring}
use helter_skelter.Orchestrator.Tables.{Outbound, PendingAction, PendingVerification, Node}
use helter_skelter.Orchestrator.Proposals.{Answers, handle_proposal}
use helter_skelter.Orchestrator.Rollback.{
  is_bad, roll_back, verify, verify_all, check_pending_verifications,
}
use helter_skelter.Orchestrator.Handler.{
  Message, Event, handle_all, on_observation, on_heartbeat_message, resolve_action,
  on_command_result, apply, run,
}

-- The messages are handled in the order of their instants.
abbrev pub IsOrdered : ℕ → List Event → Type 0
IsOrdered clock [] = Unit {0}
IsOrdered clock (e ∷ es) = (clock ≤ e.now) × IsOrdered e.now es

abbrev pub last_clock : ℕ → List Event → ℕ
last_clock clock [] = clock
last_clock clock (e ∷ es) = last_clock e.now es

module _ {F : Type 0} (P : ℕ → Governor F → List Outbound → Type 0) where
  abbrev pub Holds : ℕ → Node F → Type 0
  Holds clock n = P clock n.shared.governor n.sent

  -- It outlasts the clock and the handling of a proposal.
  pub record IsPreserved (below : F → F → Bool) : Type 0 where
    pub later :
        (clock now : ℕ) (g : Governor F) (sent : List Outbound)
        → clock ≤ now
        → P clock g sent
        → P now g sent
    pub handled :
        (now : ℕ) (a : Answers) (sim : Text) (tick : ℕ) (p : Proposal F) (cash : ℤ) (n : Node F)
        → Holds now n
        → Holds now (handle_proposal a sim tick p now cash below n)

  verify_all-Holds :
      (calls : ℕ → Restoring) (sim : Text) (tick : ℕ) (cash most : ℤ) (k clock : ℕ)
      (vs : List (Text × PendingVerification)) (n : Node F)
      → Holds clock n
      → Holds clock (verify_all calls sim tick cash most k vs n)
  unfolding verify_all verify roll_back
  verify_all-Holds calls sim tick cash most k clock [] n v = v
  verify_all-Holds calls sim tick cash most k clock ((id, pv) ∷ vs) n v =
      verify_all-Holds calls sim tick cash most (suc k) clock vs _
        (elim (Bool-cases (is_bad cash most pv)) [ inl bad ↦ rw bad v | inr fine ↦ rw fine v ])

  resolve_action-Holds :
      (clock : ℕ) (sim id : Text) (r : CommandResult) (stores : Bool) (calls : Restoring)
      (found : Option PendingAction) (n : Node F)
      → Holds clock n
      → Holds clock (resolve_action sim id r stores calls found n)
  unfolding resolve_action roll_back
  resolve_action-Holds clock sim id r stores calls none n v = v
  resolve_action-Holds clock sim id r false calls (some pending) n v = v
  resolve_action-Holds clock sim id r true calls (some pending) n v =
      elim (Option-cases r.engine_error) [ inl e ↦ rw e v | inr (err, e) ↦ rw e v ]

  module _ (below : F → F → Bool) (kept : IsPreserved below) where
    handle_all-Holds :
        (now : ℕ) (confidence : F) (sim : Text) (tick : ℕ) (cash : ℤ) (answers : ℕ → Answers)
        (k : ℕ) (ps : List (Proposal F)) (n : Node F)
        → Holds now n
        → Holds now (handle_all below confidence now sim tick cash answers k ps n)
    unfolding handle_all
    handle_all-Holds now confidence sim tick cash answers k [] n v = v
    handle_all-Holds now confidence sim tick cash answers k (p ∷ ps) n v =
        handle_all-Holds now confidence sim tick cash answers (suc k) ps _
          (kept.handled now (answers k) sim tick p cash n v)

    apply-Holds :
        (confidence : F) (now : ℕ) (sim : Text) (m : Message) (n : Node F)
        → Holds now n
        → Holds now (apply below confidence now sim m n)
    unfolding apply on_heartbeat_message on_observation check_pending_verifications
        on_command_result
    apply-Holds confidence now sim Message.accepted n v = v
    apply-Holds confidence now sim Message.closed n v = v
    apply-Holds confidence now sim Message.unhandled n v = v
    apply-Holds confidence now sim (Message.hello starts) n v = v
    apply-Holds confidence now sim (Message.heartbeat tick access settles) n v = v
    apply-Holds confidence now sim (Message.observation_snapshot s calls answers) n v =
        handle_all-Holds now confidence sim _ _ answers 0 _ _
          (verify_all-Holds calls sim _ _ _ 0 now n.pending_verifications _ v)
    apply-Holds confidence now sim (Message.command_result none r stores calls) n v = v
    apply-Holds confidence now sim (Message.command_result (some id) r stores calls) n v =
        resolve_action-Holds now sim id r stores calls _ n v

    pub run-Holds :
        (confidence : F) (es : List Event) (clock : ℕ) (n : Node F)
        → IsOrdered clock es
        → Holds clock n
        → Holds (last_clock clock es) (run below confidence es n)
    unfolding run
    run-Holds confidence [] clock n h v = v
    run-Holds confidence (e ∷ es) clock n (later, h) v = run-Holds confidence es e.now _ h (
        apply-Holds confidence e.now e.simulation_id e.message n
          (kept.later clock e.now n.shared.governor n.sent later v))

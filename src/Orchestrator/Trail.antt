-- ===== src/Orchestrator/Trail.antt =====
-- The trail of the commands over a run of the orchestrator (core/orchestrator/src/tcp_server.rs).
use mathlib.Core.Path.{subst}
use helter_skelter.Prelude.{
  ℕ, suc, Bool, true, false, Text, Option, none, some, List, [], ◌∷◌, All, Bool-cases, inl, inr,
  ◌≡◌, refl, text_eq,
}
use helter_skelter.Prelude.Int.{ℤ}
use helter_skelter.Protocol.{CommandResult, ErrorInfo}
use helter_skelter.Governor.{Constitution, Proposal}
use helter_skelter.Safety.Transitions.{Restoring}
use helter_skelter.Orchestrator.Tables.{PendingAction, PendingVerification, Node, get}
use helter_skelter.Orchestrator.Proposals.{Answers}
use helter_skelter.Orchestrator.Rollback.{
  roll_back, is_bad, verify, verify_all, check_pending_verifications,
}
use helter_skelter.Orchestrator.Handler.{
  Message, Event, follow_up, handle_all, on_observation, on_heartbeat_message, resolve_action,
  on_command_result, apply, run,
}
use helter_skelter.Orchestrator.Audit.{IsOfSent, IsAudited, All-remove}
use helter_skelter.Orchestrator.Audited.{handle_proposal-IsAudited}

All-get :
    {A : Type 0} (P : A → Type 0) (k : Text) (m : List (Text × A)) (a : A)
    → All (λ e. P e.1) m
    → get k m ≡ some a
    → P a
unfolding get
All-get P k [] a v h = cc
All-get P k ((j, b) ∷ m) a (here, v) h = elim (Bool-cases (text_eq j k)) [
  | inl same ↦ let h' : some b ≡ some a = rw same at h in let e : b ≡ a = cc in subst P e here
  | inr other ↦ let h' : get k m ≡ some a = rw other at h in All-get P k m a v h'
]

module _ {F : Type 0} (c : Constitution F) where
  verify_all-IsAudited :
      (calls : ℕ → Restoring) (sim : Text) (tick : ℕ) (cash most : ℤ) (k : ℕ)
      (vs : List (Text × PendingVerification)) (n : Node F)
      → IsAudited c n
      → IsAudited c (verify_all calls sim tick cash most k vs n)
  unfolding verify_all verify roll_back
  verify_all-IsAudited calls sim tick cash most k [] n v = v
  verify_all-IsAudited calls sim tick cash most k ((id, pv) ∷ vs) n v =
      verify_all-IsAudited calls sim tick cash most (suc k) vs _
        (elim (Bool-cases (is_bad cash most pv)) [ inl bad ↦ rw bad v | inr fine ↦ rw fine v ])

  follow_up-IsAudited :
      (e : Option ErrorInfo) (calls : Restoring) (sim : Text) (pending : PendingAction) (n : Node F)
      → IsAudited c n
      → IsAudited c (follow_up e calls sim pending n)
  unfolding roll_back
  follow_up-IsAudited none calls sim pending n v = v
  follow_up-IsAudited (some e) calls sim pending n v = v

  resolve_action-IsAudited :
      (sim id : Text) (r : CommandResult) (stores : Bool) (calls : Restoring)
      (found : Option PendingAction) (n : Node F)
      → get id n.pending_actions ≡ found
      → IsAudited c n
      → IsAudited c (resolve_action sim id r stores calls found n)
  unfolding resolve_action
  resolve_action-IsAudited sim id r stores calls none n e v = v
  resolve_action-IsAudited sim id r false calls (some pending) n e
        (policy, logged, awaited, answered) =
      (policy, logged, All-remove _ id n.pending_actions awaited, answered)
  resolve_action-IsAudited sim id r true calls (some pending) n e
        (policy, logged, awaited, answered) =
      follow_up-IsAudited r.engine_error calls sim pending _ (
        policy,
        logged,
        All-remove _ id n.pending_actions awaited,
        (
          All-get (λ pa. IsOfSent c n.db.actions n.sent pa.action_id) id n.pending_actions pending
              awaited e,
          answered,
        ),
      )

  module _ (below : F → F → Bool) (confidence : F) where
    handle_all-IsAudited :
        (now : ℕ) (sim : Text) (tick : ℕ) (cash : ℤ) (answers : ℕ → Answers) (k : ℕ)
        (ps : List (Proposal F)) (n : Node F)
        → IsAudited c n
        → IsAudited c (handle_all below confidence now sim tick cash answers k ps n)
    unfolding handle_all
    handle_all-IsAudited now sim tick cash answers k [] n v = v
    handle_all-IsAudited now sim tick cash answers k (p ∷ ps) n v =
        handle_all-IsAudited now sim tick cash answers (suc k) ps _
          (handle_proposal-IsAudited c (answers k) sim tick p now cash below n v)

    apply-IsAudited :
        (now : ℕ) (sim : Text) (m : Message) (n : Node F)
        → IsAudited c n
        → IsAudited c (apply below confidence now sim m n)
    unfolding apply on_heartbeat_message on_observation check_pending_verifications
        on_command_result
    apply-IsAudited now sim Message.accepted n (policy, logged, awaited, answered) =
        (policy, logged, tt, answered)
    apply-IsAudited now sim Message.closed n v = v
    apply-IsAudited now sim Message.unhandled n v = v
    apply-IsAudited now sim (Message.hello starts) n v = v
    apply-IsAudited now sim (Message.heartbeat tick access settles) n v = v
    apply-IsAudited now sim (Message.observation_snapshot s calls answers) n v =
        handle_all-IsAudited now sim _ _ answers 0 _ _
          (verify_all-IsAudited calls sim _ _ _ 0 n.pending_verifications _ v)
    apply-IsAudited now sim (Message.command_result none r stores calls) n v = v
    apply-IsAudited now sim (Message.command_result (some id) r stores calls) n v =
        resolve_action-IsAudited sim id r stores calls _ n refl v

-- Whatever messages come and whichever calls fail: where every command.request sent is that of a recorded
-- action, of a recorded authorization of a recorded proposal, for a price within the bounds, and every
-- action awaited or answered is one whose request was sent, this stays so.
pub run-IsAudited :
    {F : Type 0} (c : Constitution F) (below : F → F → Bool) (confidence : F) (es : List Event)
    (n : Node F)
    → IsAudited c n
    → IsAudited c (run below confidence es n)
unfolding run
run-IsAudited c below confidence [] n v = v
run-IsAudited c below confidence (e ∷ es) n v =
    run-IsAudited c below confidence es _
      (apply-IsAudited c below confidence e.now e.simulation_id e.message n v)

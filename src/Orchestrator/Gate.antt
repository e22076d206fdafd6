-- ===== src/Orchestrator/Gate.antt =====
-- The safety state gates the proposals (core/orchestrator/src/tcp_server.rs).
use helter_skelter.Prelude.{
  ℕ, ◌≡◌, refl, ap, ◌∙◌, Bool, true, false, not, Text, Option, none, some, List, inl, inr, arith,
}
use helter_skelter.Prelude.Int.{ℤ}
use helter_skelter.Governor.{Proposal}
use helter_skelter.Safety.{
  SafetyState, normal, authorizes_proposals, Ledger, Reading, latest, current_safety_state,
}
use helter_skelter.Safety.State.{written_in, state_at, Ends, current_safety_state-Ends}
use helter_skelter.Orchestrator.Tables.{ProposalRow, AuthorizationRow, Why, state_is, Node}
use helter_skelter.Orchestrator.Proposals.{
  Answers, with_proposal, with_transitions, rejected_with, reject_with, gate, proposed,
  handle_proposal,
}

-- The safety state of a simulation at a tick authorizes nothing.
abbrev pub IsShut : Text → ℕ → Ledger → Type 0
IsShut sim tick ledger = authorizes_proposals (state_at (some sim) tick ledger) ≡ false

abbrev shuts : Option SafetyState → Bool
shuts none = true
shuts (some s) = not (authorizes_proposals s)

shut-Ends :
    (sim : Text) (tick : ℕ) (ledger : Ledger) (r : Reading)
    → IsShut sim tick ledger
    → Ends (some sim) tick ledger (latest (some sim) ledger) r
    → (shuts r.0 ≡ true) × (r.1 ≡ ledger)
unfolding state_at authorizes_proposals
shut-Ends sim tick ledger r h (inl e) = (rw e refl, rw e refl)
shut-Ends sim tick ledger r h (inr (inl (e, open_still))) =
    let h' : authorizes_proposals (written_in (latest (some sim) ledger)) ≡ false =
      rw open_still at h in
    (rw (e, shuts) (rw h' refl), rw e refl)
shut-Ends sim tick ledger r h (inr (inr (e, w, passed))) =
    let h' : authorizes_proposals normal ≡ false = rw passed at h in absurd cc

module _ {F : Type 0} where
  -- Two tables alone may have changed: the proposals and the authorizations.
  abbrev pub IsIdle : Node F → Node F → Type 0
  IsIdle n n' =
      (ps : List (ProposalRow F)) × (auths : List (AuthorizationRow F)) × (n'
        ≡ record n { db = record n.db { proposals = ps; authorizations = auths } })

  module _ (a : Answers) (sim : Text) (tick : ℕ) (p : Proposal F) (now : ℕ) (cash : ℤ)
      (below : F → F → Bool) where
    rejected_with-IsIdle :
        (id : Option Text) (pid : Text) (reason : Why F) (n : Node F)
        → IsIdle n (rejected_with a sim tick p id pid reason n)
    rejected_with-IsIdle none pid reason n = (n.db.proposals, n.db.authorizations, refl)
    rejected_with-IsIdle (some id) pid reason n = (n.db.proposals, _, refl)

    gate-IsIdle :
        (pid : Text) (s : Option SafetyState) (n : Node F)
        → shuts s ≡ true
        → IsIdle n (gate a sim tick p now cash below pid s n)
    unfolding reject_with
    gate-IsIdle pid none n h = (n.db.proposals, n.db.authorizations, refl)
    gate-IsIdle pid (some s) n h =
        let shut : authorizes_proposals s ≡ false = grind arith in
        rw shut (rejected_with-IsIdle a.authorization_id pid (state_is s) n)

    proposed-IsIdle :
        (id : Option Text) (n : Node F)
        → IsShut sim tick n.db.state_transitions
        → IsIdle n (proposed a sim tick p now cash below id n)
    proposed-IsIdle none n h = (n.db.proposals, n.db.authorizations, refl)
    proposed-IsIdle (some id) n h =
        let r = current_safety_state a.access (some sim) tick n.db.state_transitions in
        let (shut, same) =
          shut-Ends sim tick _ r h
            (current_safety_state-Ends a.access (some sim) tick n.db.state_transitions) in
        let (ps, auths, e) =
          gate-IsIdle id r.0 (with_transitions r.1 (with_proposal sim p id n)) shut in
        (
          ps,
          auths,
          e
              ∙ ap
                  (λ (ledger : Ledger). record n {
                    db = record n.db {
                      proposals = ps;
                      authorizations = auths;
                      state_transitions = ledger;
                    };
                  })
                  same,
        )

    -- Where the safety state of the simulation is not Normal at the tick, a proposal changes nothing but
    -- the proposals and the authorizations: no snapshot is taken, the governor is not asked, and no
    -- command.request is sent, whichever calls fail.
    pub handle_proposal-IsIdle :
        (n : Node F)
        → IsShut sim tick n.db.state_transitions
        → IsIdle n (handle_proposal a sim tick p now cash below n)
    unfolding handle_proposal
    handle_proposal-IsIdle n h = proposed-IsIdle a.proposal_id n h

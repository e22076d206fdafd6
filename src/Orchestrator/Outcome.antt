-- ===== src/Orchestrator/Outcome.antt =====
-- What handling a proposal (core/orchestrator/src/tcp_server.rs) does to the governor and to the socket.
use helter_skelter.Prelude.{
  ℕ, ◌≡◌, refl, Bool, true, false, Text, Option, none, some, ◌∷◌, Bool-cases, ◌⊎◌, inl, inr,
}
use helter_skelter.Prelude.Int.{ℤ}
use helter_skelter.Governor.{
  Governor, Proposal, Authorization, Decision, authorized, rejected, authorize,
}
use helter_skelter.Safety.{SafetyState, authorizes_proposals, current_safety_state}
use helter_skelter.Orchestrator.Tables.{Why, policy, Outbound, Node}
use helter_skelter.Orchestrator.Proposals.{
  Answers, with_proposal, authorization_row, with_authorization, with_action, action_row,
  with_governor, with_transitions, outbound, rejected_with, reject_with, send, acted, act, go_on,
  answered_with, answered, ask, snapshotted, gate, proposed, handle_proposal,
}
use helter_skelter.Orchestrator.Audited.{ensure_recent_snapshot-kept}

module _ {F : Type 0} where
  -- Neither the governor nor the socket is touched.
  abbrev pub IsUntouched : Node F → Node F → Type 0
  IsUntouched n n' = (n'.shared.governor ≡ n.shared.governor) × (n'.sent ≡ n.sent)

  -- Nothing more than one request is sent.
  abbrev pub IsAtMost : Outbound → Bool → Node F → Node F → Type 0
  IsAtMost o allowed n n' = (n'.sent ≡ n.sent) ⊎ ((n'.sent ≡ o ∷ n.sent) × (allowed ≡ true))

abbrev pub is_authorized : Decision → Bool
is_authorized authorized = true
is_authorized rejected = false

module _ {F : Type 0} (a : Answers) (sim : Text) (tick : ℕ) (p : Proposal F) (now : ℕ) (cash : ℤ)
    (below : F → F → Bool) where
  abbrev answer_of : Node F → Authorization F × Governor F
  answer_of n = authorize below now p tick n.shared.governor

  -- The governor is not asked, or it is asked, and sent is at most the request that it authorized.
  abbrev pub IsOutcome : Node F → Node F → Type 0
  IsOutcome n n' =
      IsUntouched n n'
      ⊎ ((n'.shared.governor ≡ (answer_of n).1)
          × IsAtMost (outbound a sim tick p now cash) (is_authorized (answer_of n).0.decision) n n')

  abbrev IsSent : Node F → Node F → Type 0
  IsSent n n' =
      (n'.shared.governor ≡ n.shared.governor) × IsAtMost (outbound a sim tick p now cash) true n n'

  send-IsSent : (id sid : Text) (n : Node F) → IsSent n (send a sim tick p now cash id sid n)
  unfolding send
  send-IsSent id sid n = elim (Bool-cases a.writes) [
    | inl e ↦ rw e (refl, inr (refl, refl))
    | inr e ↦ rw e (refl, inl refl)
  ]

  acted-IsSent :
      (id : Option Text) (aid sid : Text) (n : Node F)
      → IsSent n (acted a sim tick p now cash id aid sid n)
  acted-IsSent none aid sid n = (refl, inl refl)
  acted-IsSent (some id) aid sid n =
      send-IsSent id sid (with_action (action_row sim tick p id aid) n)

  abbrev IsAnswer : Decision → Node F → Node F → Type 0
  IsAnswer d n n' =
      (n'.shared.governor ≡ n.shared.governor)
      × IsAtMost (outbound a sim tick p now cash) (is_authorized d) n n'

  go_on-IsAnswer :
      (d : Decision) (aid sid : Text) (n : Node F)
      → IsAnswer d n (go_on a sim tick p now cash d aid sid n)
  unfolding act
  go_on-IsAnswer authorized aid sid n = acted-IsSent a.action_id aid sid n
  go_on-IsAnswer rejected aid sid n = (refl, inl refl)

  answered_with-IsAnswer :
      (id : Option Text) (pid sid : Text) (auth : Authorization F) (n : Node F)
      → IsAnswer auth.decision n (answered_with a sim tick p now cash id pid sid auth n)
  answered_with-IsAnswer none pid sid auth n = (refl, inl refl)
  answered_with-IsAnswer (some id) pid sid auth n = go_on-IsAnswer auth.decision id sid (
      with_authorization
        (authorization_row id pid auth.decision (policy auth.reason) auth.policy_version) n)

  rejected_with-IsUntouched :
      (id : Option Text) (pid : Text) (why : Why F) (n : Node F)
      → IsUntouched n (rejected_with a sim tick p id pid why n)
  rejected_with-IsUntouched none pid why n = (refl, refl)
  rejected_with-IsUntouched (some id) pid why n = (refl, refl)

  snapshotted-IsOutcome :
      (pid : Text) (o : Option Text) (n : Node F)
      → IsOutcome n (snapshotted a sim tick p now cash below pid (o, n))
  unfolding ask answered reject_with
  snapshotted-IsOutcome pid none n = inl (rejected_with-IsUntouched a.authorization_id pid _ n)
  snapshotted-IsOutcome pid (some sid) n = inr (
      answered_with-IsAnswer a.authorization_id pid sid (answer_of n).0
        (with_governor (answer_of n).1 n))

  gate-IsOutcome :
      (pid : Text) (s : Option SafetyState) (n : Node F)
      → IsOutcome n (gate a sim tick p now cash below pid s n)
  unfolding reject_with
  gate-IsOutcome pid none n = inl (refl, refl)
  gate-IsOutcome pid (some s) n = elim (Bool-cases (authorizes_proposals s)) [
    | inl open_now ↦ rw open_now (
        ensure_recent_snapshot-kept a sim tick n.shared.governor.constitution.snapshot_max_age_ticks
          n (λ r. IsOutcome n (snapshotted a sim tick p now cash below pid r))
          (λ o rows.
            snapshotted-IsOutcome pid o (record n { db = record n.db { snapshots = rows } })))
    | inr shut ↦ rw shut (inl (rejected_with-IsUntouched a.authorization_id pid _ n))
  ]

  proposed-IsOutcome :
      (id : Option Text) (n : Node F) → IsOutcome n (proposed a sim tick p now cash below id n)
  proposed-IsOutcome none n = inl (refl, refl)
  proposed-IsOutcome (some id) n =
      let (state, ledger) = current_safety_state a.access (some sim) tick n.db.state_transitions in
      gate-IsOutcome id state (with_transitions ledger (with_proposal sim p id n))

  pub handle_proposal-IsOutcome :
      (n : Node F) → IsOutcome n (handle_proposal a sim tick p now cash below n)
  unfolding handle_proposal
  handle_proposal-IsOutcome n = proposed-IsOutcome a.proposal_id n

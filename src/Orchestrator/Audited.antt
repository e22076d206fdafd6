-- ===== src/Orchestrator/Audited.antt =====
-- Every stage of core/orchestrator/src/tcp_server.rs keeps the trail of what it sends.
use mathlib.Core.List.{Mem, mem-cons_self}
use helter_skelter.Prelude.{
  ℕ, ◌-◌, ◌≡◌, refl, sym, ◌∙◌, Bool, false, Text, Option, none, some, List, Bool-cases,
  Option-cases, inl, inr, arith, leb,
}
use helter_skelter.Prelude.Int.{ℤ, ltbℤ}
use helter_skelter.Governor.{
  Constitution, Governor, Proposal, Authorization, Decision, authorized, rejected, authorize,
  authorize_at, reject,
}
use helter_skelter.Safety.{SafetyState, authorizes_proposals, current_safety_state}
use helter_skelter.Orchestrator.Tables.{as_u64, AuthorizationRow, Why, policy, Node, SnapshotRow}
use helter_skelter.Orchestrator.Proposals.{
  Answers, proposal_row, with_proposal, authorization_row, with_authorization, action_row,
  with_governor, with_transitions, outbound, rejected_with, reject_with, acted, answered_with, send,
  act, go_on, answered, ask, snapshotted, gate, proposed, handle_proposal, take_snapshot, stored,
  ensure_recent_snapshot, latest_snapshot,
}
use helter_skelter.Orchestrator.Audit.{
  IsLogged, IsAudited, with_proposal-IsAudited, with_authorization-IsAudited, with_action-IsAudited,
  sent-IsAudited,
}

module _ {F : Type 0} (below : F → F → Bool) where
  -- The constitution stays.
  pub authorize-constitution :
      (now : ℕ) (p : Proposal F) (tick : ℕ) (g : Governor F)
      → (authorize below now p tick g).1.constitution ≡ g.constitution
  unfolding authorize authorize_at
  authorize-constitution now p tick g = ground arith

  -- An authorized price is within the bounds.
  authorize-bounds :
      (now : ℕ) (p : Proposal F) (tick : ℕ) (g : Governor F)
      → (authorize below now p tick g).0.decision ≡ authorized
      → (ltbℤ p.proposed_price g.constitution.price_bounds.min ≡ false)
        × (ltbℤ g.constitution.price_bounds.max p.proposed_price ≡ false)
  unfolding authorize reject
  authorize-bounds now p tick g h = (ground arith, ground arith)

module _ {F : Type 0} (a : Answers) (sim : Text) (tick : ℕ) where
  stored-kept :
      (path id : Option Text) (n : Node F) (P : Option Text × Node F → Type 0)
      → ((o : Option Text) (rows : List SnapshotRow)
          → P (o, record n { db = record n.db { snapshots = rows } }))
      → P (stored a sim tick path id n)
  stored-kept none id n P h = h none n.db.snapshots
  stored-kept (some path) none n P h = h none n.db.snapshots
  stored-kept (some path) (some id) n P h = h (some id) _

  -- The snapshot changes the snapshots alone.
  pub ensure_recent_snapshot-kept :
      (max_age : ℕ) (n : Node F) (P : Option Text × Node F → Type 0)
      → ((o : Option Text) (rows : List SnapshotRow)
          → P (o, record n { db = record n.db { snapshots = rows } }))
      → P (ensure_recent_snapshot a sim tick max_age n)
  unfolding ensure_recent_snapshot take_snapshot
  ensure_recent_snapshot-kept max_age n P h =
      let taken = stored-kept a.script a.snapshot_id n P h in
      elim (Bool-cases a.finds_snapshots) [
        | inl e ↦ rw e (elim (Option-cases (latest_snapshot sim n.db.snapshots)) [
          | inl none_yet ↦ rw none_yet taken
          | inr (row, found) ↦ rw found (elim (Bool-cases (leb (tick - as_u64 row.tick) max_age)) [
            | inl young ↦ rw young (h (some row.id) n.db.snapshots)
            | inr old ↦ rw old taken
          ])
        ])
        | inr e ↦ rw e (h none n.db.snapshots)
      ]

module _ {F : Type 0} (c : Constitution F) (a : Answers) (sim : Text) (tick : ℕ)
    (p : Proposal F) where
  rejected_with-IsAudited :
      (id : Option Text) (pid : Text) (reason : Why F) (n : Node F)
      → IsAudited c n
      → IsAudited c (rejected_with a sim tick p id pid reason n)
  rejected_with-IsAudited none pid reason n v = v
  rejected_with-IsAudited (some id) pid reason n v = with_authorization-IsAudited c _ n v

  module _ (now : ℕ) (cash : ℤ) where
    send-IsAudited :
        (id aid sid : Text) (n : Node F)
        → IsLogged c n.db.proposals n.db.authorizations n.db.actions
            (outbound a sim tick p now cash)
        → Mem (action_row sim tick p id aid) n.db.actions
        → IsAudited c n
        → IsAudited c (send a sim tick p now cash id sid n)
    unfolding send
    send-IsAudited id aid sid n new m v = elim (Bool-cases a.writes) [
      | inl e ↦ rw e (
          sent-IsAudited c _ a.message_id _ n new
            (record {
              action = action_row sim tick p id aid;
              outbound = outbound a sim tick p now cash;
              has_action = m;
              has_outbound = mem-cons_self;
              same_id = refl;
              same_key = refl;
            })
            v)
      | inr e ↦ rw e v
    ]

    acted-IsAudited :
        (id : Option Text) (pid aid sid : Text) (auth : AuthorizationRow F) (n : Node F)
        → Mem (proposal_row sim p pid) n.db.proposals
        → Mem auth n.db.authorizations
        → auth.id ≡ aid
        → auth.proposal_id ≡ pid
        → auth.decision ≡ authorized
        → ltbℤ p.proposed_price c.price_bounds.min ≡ false
        → ltbℤ c.price_bounds.max p.proposed_price ≡ false
        → IsAudited c n
        → IsAudited c (acted a sim tick p now cash id aid sid n)
    acted-IsAudited none pid aid sid auth n mp ma same_id same_proposal allowed low high v = v
    acted-IsAudited (some id) pid aid sid auth n mp ma same_id same_proposal allowed low high v =
        send-IsAudited id aid sid _
          (record {
            proposal = proposal_row sim p pid;
            authorization = auth;
            action = action_row sim tick p id aid;
            ride = p.ride_id;
            price = p.proposed_price;
            has_proposal = mp;
            has_authorization = ma;
            has_action = mem-cons_self;
            same_simulation = refl;
            same_proposal = same_proposal;
            is_authorized = allowed;
            same_authorization = sym same_id;
            same_key = refl;
            same_command = refl;
            same_action = refl;
            not_low = low;
            not_high = high;
          })
          mem-cons_self (with_action-IsAudited c _ n v)

    go_on-IsAudited :
        (d : Decision) (pid aid sid : Text) (auth : AuthorizationRow F) (n : Node F)
        → Mem (proposal_row sim p pid) n.db.proposals
        → Mem auth n.db.authorizations
        → auth.id ≡ aid
        → auth.proposal_id ≡ pid
        → auth.decision ≡ d
        → (d ≡ authorized
            → (ltbℤ p.proposed_price c.price_bounds.min ≡ false)
              × (ltbℤ c.price_bounds.max p.proposed_price ≡ false))
        → IsAudited c n
        → IsAudited c (go_on a sim tick p now cash d aid sid n)
    unfolding act
    go_on-IsAudited authorized pid aid sid auth n mp ma same_id same_proposal same bounds v =
        acted-IsAudited a.action_id pid aid sid auth n mp ma same_id same_proposal same
          (bounds refl).0 (bounds refl).1 v
    go_on-IsAudited rejected pid aid sid auth n mp ma same_id same_proposal same bounds v = v

    answered_with-IsAudited :
        (id : Option Text) (pid sid : Text) (auth : Authorization F) (n : Node F)
        → Mem (proposal_row sim p pid) n.db.proposals
        → (auth.decision ≡ authorized
            → (ltbℤ p.proposed_price c.price_bounds.min ≡ false)
              × (ltbℤ c.price_bounds.max p.proposed_price ≡ false))
        → IsAudited c n
        → IsAudited c (answered_with a sim tick p now cash id pid sid auth n)
    answered_with-IsAudited none pid sid auth n m bounds v = v
    answered_with-IsAudited (some id) pid sid auth n m bounds v =
        let row = authorization_row id pid auth.decision (policy auth.reason) auth.policy_version in
        go_on-IsAudited auth.decision pid id sid row (with_authorization row n) m mem-cons_self refl
          refl refl bounds (with_authorization-IsAudited c row n v)

    module _ (below : F → F → Bool) where
      ask-IsAudited :
          (pid sid : Text) (n : Node F)
          → Mem (proposal_row sim p pid) n.db.proposals
          → IsAudited c n
          → IsAudited c (ask a sim tick p now cash below pid sid n)
      unfolding ask answered
      ask-IsAudited pid sid n m (same, logged, awaited, of_sent) =
          let g = n.shared.governor in
          let (auth, g') = authorize below now p tick g in
          answered_with-IsAudited a.authorization_id pid sid auth (with_governor g' n) m
            (λ h. rw⁻¹ same (authorize-bounds below now p tick g h))
            (authorize-constitution below now p tick g ∙ same, logged, awaited, of_sent)

      snapshotted-IsAudited :
          (pid : Text) (n : Node F) (o : Option Text)
          → Mem (proposal_row sim p pid) n.db.proposals
          → IsAudited c n
          → IsAudited c (snapshotted a sim tick p now cash below pid (o, n))
      unfolding reject_with
      snapshotted-IsAudited pid n none m v = rejected_with-IsAudited a.authorization_id pid _ n v
      snapshotted-IsAudited pid n (some sid) m v = ask-IsAudited pid sid n m v

      gate-IsAudited :
          (pid : Text) (s : Option SafetyState) (n : Node F)
          → Mem (proposal_row sim p pid) n.db.proposals
          → IsAudited c n
          → IsAudited c (gate a sim tick p now cash below pid s n)
      unfolding reject_with
      gate-IsAudited pid none n m v = v
      gate-IsAudited pid (some s) n m v = elim (Bool-cases (authorizes_proposals s)) [
        | inl open_now ↦ rw open_now (
            ensure_recent_snapshot-kept a sim tick
              n.shared.governor.constitution.snapshot_max_age_ticks n
              (λ r. IsAudited c (snapshotted a sim tick p now cash below pid r))
              (λ o rows. snapshotted-IsAudited pid _ o m v))
        | inr shut ↦ rw shut (rejected_with-IsAudited a.authorization_id pid _ n v)
      ]

      proposed-IsAudited :
          (id : Option Text) (n : Node F)
          → IsAudited c n
          → IsAudited c (proposed a sim tick p now cash below id n)
      proposed-IsAudited none n v = v
      proposed-IsAudited (some id) n v =
          let (state, ledger) =
            current_safety_state a.access (some sim) tick n.db.state_transitions in
          gate-IsAudited id state (with_transitions ledger (with_proposal sim p id n)) mem-cons_self
            (with_proposal-IsAudited c sim p id n v)

      pub handle_proposal-IsAudited :
          (n : Node F) → IsAudited c n → IsAudited c (handle_proposal a sim tick p now cash below n)
      unfolding handle_proposal
      handle_proposal-IsAudited n v = proposed-IsAudited a.proposal_id n v

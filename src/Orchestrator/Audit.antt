-- ===== src/Orchestrator/Audit.antt =====
-- The trail that the orchestrator leaves in the tables of core/orchestrator/src/db.rs for each
-- command.request that it sends, and what keeps it.
use mathlib.Core.List.{Mem, mem-cons_of_mem}
use helter_skelter.Prelude.{
  ℕ, ◌≡◌, false, Text, List, [], ◌∷◌, All, All-map, text_eq, Bool-cases, inl, inr,
}
use helter_skelter.Prelude.Int.{ℤ, pos, ltbℤ}
use helter_skelter.Protocol.{set_ride_price}
use helter_skelter.Governor.{Constitution, Proposal, authorized}
use helter_skelter.Orchestrator.Tables.{
  as_u32, ProposalRow, AuthorizationRow, ActionRow, PendingAction, Outbound, Node, remove, insert,
}
use helter_skelter.Orchestrator.Proposals.{
  command_of, with_proposal, with_authorization, with_action,
}

pub All-remove :
    {A : Type 0} (P : Text × A → Type 0) (k : Text) (m : List (Text × A))
    → All P m
    → All P (remove k m)
unfolding remove
All-remove P k [] v = tt
All-remove P k ((j, a) ∷ m) (here, v) = elim (Bool-cases (text_eq j k)) [
  | inl same ↦ rw same (All-remove P k m v)
  | inr other ↦ rw other (here, All-remove P k m v)
]

module _ {F : Type 0} (c : Constitution F) where
  -- A request is that of a recorded action, of a recorded authorization that is no rejection, of a
  -- recorded proposal of its simulation, for a price within the bounds.
  pub record IsLogged (proposals : List (ProposalRow F))
      (authorizations : List (AuthorizationRow F)) (actions : List ActionRow) (o : Outbound)
      : Type 0 where
    pub proposal : ProposalRow F
    pub authorization : AuthorizationRow F
    pub action : ActionRow
    pub ride : ℕ
    pub price : ℤ
    pub has_proposal : Mem proposal proposals
    pub has_authorization : Mem authorization authorizations
    pub has_action : Mem action actions
    pub same_simulation : proposal.simulation_id ≡ o.simulation_id
    pub same_proposal : authorization.proposal_id ≡ proposal.id
    pub is_authorized : authorization.decision ≡ authorized
    pub same_authorization : action.authorization_id ≡ authorization.id
    pub same_key : action.idempotency_key ≡ o.request.idempotency_key
    pub same_command : action.command ≡ command_of ride price
    pub same_action : o.request.action ≡ set_ride_price (pos ride) (pos (as_u32 price))
    pub not_low : ltbℤ price c.price_bounds.min ≡ false
    pub not_high : ltbℤ c.price_bounds.max price ≡ false

  -- An action's identifier is that of a recorded action whose request was sent.
  pub record IsOfSent (actions : List ActionRow) (sent : List Outbound) (id : Text) : Type 0 where
    pub action : ActionRow
    pub outbound : Outbound
    pub has_action : Mem action actions
    pub has_outbound : Mem outbound sent
    pub same_id : action.id ≡ id
    pub same_key : action.idempotency_key ≡ outbound.request.idempotency_key

  -- Every request sent is logged; every action that is awaited, and every result recorded, is of one.
  abbrev pub IsAudited : Node F → Type 0
  IsAudited n =
      (n.shared.governor.constitution ≡ c)
      × All (IsLogged n.db.proposals n.db.authorizations n.db.actions) n.sent
      × All (λ e. IsOfSent n.db.actions n.sent e.1.action_id) n.pending_actions
      × All (λ r. IsOfSent n.db.actions n.sent r.action_id) n.db.results

  -- Longer tables lose nothing.
  IsLogged-mono :
      {ps ps' : List (ProposalRow F)} {auths auths' : List (AuthorizationRow F)}
      {acts acts' : List ActionRow}
      → ((row : ProposalRow F) → Mem row ps → Mem row ps')
      → ((row : AuthorizationRow F) → Mem row auths → Mem row auths')
      → ((row : ActionRow) → Mem row acts → Mem row acts')
      → (o : Outbound) → IsLogged ps auths acts o
      → IsLogged ps' auths' acts' o
  IsLogged-mono f g h o v = record {
    proposal = v.proposal;
    authorization = v.authorization;
    action = v.action;
    ride = v.ride;
    price = v.price;
    has_proposal = f v.proposal v.has_proposal;
    has_authorization = g v.authorization v.has_authorization;
    has_action = h v.action v.has_action;
    same_simulation = v.same_simulation;
    same_proposal = v.same_proposal;
    is_authorized = v.is_authorized;
    same_authorization = v.same_authorization;
    same_key = v.same_key;
    same_command = v.same_command;
    same_action = v.same_action;
    not_low = v.not_low;
    not_high = v.not_high;
  }

  IsOfSent-mono :
      {acts acts' : List ActionRow} {sent sent' : List Outbound}
      → ((row : ActionRow) → Mem row acts → Mem row acts')
      → ((o : Outbound) → Mem o sent → Mem o sent')
      → (id : Text) → IsOfSent acts sent id
      → IsOfSent acts' sent' id
  IsOfSent-mono h k id v = record {
    action = v.action;
    outbound = v.outbound;
    has_action = h v.action v.has_action;
    has_outbound = k v.outbound v.has_outbound;
    same_id = v.same_id;
    same_key = v.same_key;
  }

  pub with_proposal-IsAudited :
      (sim : Text) (p : Proposal F) (id : Text) (n : Node F)
      → IsAudited n
      → IsAudited (with_proposal sim p id n)
  with_proposal-IsAudited sim p id n (policy, logged, awaited, answered) = (
    policy,
    All-map n.sent (λ o v. IsLogged-mono (λ r m. mem-cons_of_mem _ m) (λ r m. m) (λ r m. m) o v)
        logged,
    awaited,
    answered,
  )

  pub with_authorization-IsAudited :
      (row : AuthorizationRow F) (n : Node F) → IsAudited n → IsAudited (with_authorization row n)
  with_authorization-IsAudited row n (policy, logged, awaited, answered) = (
    policy,
    All-map n.sent (λ o v. IsLogged-mono (λ r m. m) (λ r m. mem-cons_of_mem row m) (λ r m. m) o v)
        logged,
    awaited,
    answered,
  )

  pub with_action-IsAudited :
      (row : ActionRow) (n : Node F) → IsAudited n → IsAudited (with_action row n)
  with_action-IsAudited row n (policy, logged, awaited, answered) = (
    policy,
    All-map n.sent (λ o v. IsLogged-mono (λ r m. m) (λ r m. m) (λ r m. mem-cons_of_mem row m) o v)
        logged,
    All-map n.pending_actions
        (λ e v. IsOfSent-mono (λ r m. mem-cons_of_mem row m) (λ o m. m) e.1.action_id v) awaited,
    All-map n.db.results
        (λ r v. IsOfSent-mono (λ r m. mem-cons_of_mem row m) (λ o m. m) r.action_id v) answered,
  )

  -- A request that is sent for a recorded action.
  pub sent-IsAudited :
      (o : Outbound) (id : Text) (e : PendingAction) (n : Node F)
      → IsLogged n.db.proposals n.db.authorizations n.db.actions o
      → IsOfSent n.db.actions (o ∷ n.sent) e.action_id
      → IsAudited n
      → IsAudited (record n { sent = o ∷ n.sent; pending_actions = insert id e n.pending_actions })
  unfolding insert
  sent-IsAudited o id e n new of_new (policy, logged, awaited, answered) = (
    policy,
    (new, logged),
    (
      of_new,
      All-remove _ id n.pending_actions (
          All-map n.pending_actions
            (λ e v. IsOfSent-mono (λ r m. m) (λ x m. mem-cons_of_mem o m) e.1.action_id v) awaited),
    ),
    All-map n.db.results
        (λ r v. IsOfSent-mono (λ r m. m) (λ x m. mem-cons_of_mem o m) r.action_id v) answered,
  )

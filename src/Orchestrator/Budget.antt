-- ===== src/Orchestrator/Budget.antt =====
-- The budgets of the constitution, over the commands that the orchestrator sends
-- (core/governor/src/lib.rs with core/orchestrator/src/tcp_server.rs).
use helter_skelter.Prelude.{ℕ, ◌≤◌, ◌≡◌, refl, ◌∙◌, Bool, true, Text, List, ◌∷◌, inl, inr, arith}
use helter_skelter.Prelude.Int.{ℤ}
use helter_skelter.Governor.{
  Constitution, Governor, Proposal, one_hour, one_day, younger, new, authorize,
}
use helter_skelter.Governor.Windows.{
  younger_count, in_window, IsWithin, IsPast, IsPast-later, in_window-le,
}
use helter_skelter.Orchestrator.Tables.{Database, Outbound, Node}
use helter_skelter.Orchestrator.Proposals.{Answers, outbound, handle_proposal}
use helter_skelter.Orchestrator.Handler.{Event, run, start}
use helter_skelter.Orchestrator.Audited.{authorize-constitution}
use helter_skelter.Orchestrator.Counted.{counted, authorize-IsCounted}
use helter_skelter.Orchestrator.Preserved.{IsOrdered, last_clock, IsPreserved, run-Holds}
use helter_skelter.Orchestrator.Outcome.{is_authorized, handle_proposal-IsOutcome}

abbrev pub sent_at : Outbound → ℕ
sent_at o = o.timestamp

module _ {F : Type 0} (c : Constitution F) where
  -- The requests sent are no later than the clock, the governor counts at least as many, and each found
  -- the budgets open.
  record IsBudgeted (clock : ℕ) (g : Governor F) (sent : List Outbound) : Type 0 where
    policy : g.constitution ≡ c
    past : IsPast sent_at clock sent
    fewer :
        (w t : ℕ)
        → w ≤ one_day
        → clock ≤ t
        → younger_count sent_at w t sent ≤ counted w t g.authorized_at
    hour : IsWithin sent_at one_hour c.max_actions_per_hour sent
    day : IsWithin sent_at one_day c.daily_action_budget sent

  abbrev Holds : ℕ → Node F → Type 0
  Holds clock n = IsBudgeted clock n.shared.governor n.sent

  IsBudgeted-later :
      (clock now : ℕ) (g : Governor F) (sent : List Outbound)
      → clock ≤ now
      → IsBudgeted clock g sent
      → IsBudgeted now g sent
  IsBudgeted-later clock now g sent h v = record {
    policy = v.policy;
    past = IsPast-later sent_at clock now sent h v.past;
    fewer = λ w t small k. v.fewer w t small (omega (arith, h, k));
    hour = v.hour;
    day = v.day;
  }

  module _ (below : F → F → Bool) (now : ℕ) (p : Proposal F) (tick : ℕ) (g : Governor F)
      (sent : List Outbound) where
    -- The governor is asked, and nothing is sent.
    asked-IsBudgeted : IsBudgeted now g sent → IsBudgeted now (authorize below now p tick g).1 sent
    asked-IsBudgeted v = record {
      policy = authorize-constitution below now p tick g ∙ v.policy;
      past = v.past;
      fewer = λ w t small k.
          let less = v.fewer w t small k in
          let same = (authorize-IsCounted below now p tick g).0 w t small k in
          ground (arith, less, same);
      hour = v.hour;
      day = v.day;
    }

    -- The governor authorizes, and the request is sent.
    sent-IsBudgeted :
        (o : Outbound)
        → o.timestamp ≡ now
        → is_authorized (authorize below now p tick g).0.decision ≡ true
        → IsBudgeted now g sent
        → IsBudgeted now (authorize below now p tick g).1 (o ∷ sent)
    sent-IsBudgeted o here allowed v =
        let (same, open_now) = authorize-IsCounted below now p tick g in
        let (hour_open, day_open) = open_now allowed in
        let less_hour = v.fewer one_hour now (omega arith) (omega arith) in
        let less_day = v.fewer one_day now (omega arith) (omega arith) in
        record {
          policy = authorize-constitution below now p tick g ∙ v.policy;
          past = (omega (arith, here), rw here v.past);
          fewer = λ w t small k.
              let less = v.fewer w t small k in
              let counts = same w t small k in ground (arith, less, counts, allowed, here);
          hour = (rw (here, ← v.policy) (omega (arith, less_hour, hour_open)), v.hour);
          day = (rw (here, ← v.policy) (omega (arith, less_day, day_open)), v.day);
        }

  module _ (below : F → F → Bool) (now : ℕ) where
    handle_proposal-Holds :
        (a : Answers) (sim : Text) (tick : ℕ) (p : Proposal F) (cash : ℤ) (n : Node F)
        → Holds now n
        → Holds now (handle_proposal a sim tick p now cash below n)
    handle_proposal-Holds a sim tick p cash n v =
        let n' = handle_proposal a sim tick p now cash below n in
        let g' = (authorize below now p tick n.shared.governor).1 in
        let o = outbound a sim tick p now cash in
        elim (handle_proposal-IsOutcome a sim tick p now cash below n) [
          | inl (same_governor, same_sent) ↦ rw same_governor (rw same_sent v)
          | inr (same_governor, inl same_sent) ↦
              rw same_governor
                (rw same_sent (asked-IsBudgeted below now p tick n.shared.governor n.sent v))
          | inr (same_governor, inr (one_more, allowed)) ↦ rw same_governor (
              rw one_more
                (sent-IsBudgeted below now p tick n.shared.governor n.sent o refl allowed v))
        ]

  IsBudgeted-IsPreserved : (below : F → F → Bool) → IsPreserved IsBudgeted below
  IsBudgeted-IsPreserved below = record {
    later = IsBudgeted-later;
    handled = λ now a sim tick p cash n v. handle_proposal-Holds below now a sim tick p cash n v;
  }

  start-Holds : (db : Database F) → Holds 0 (start c db)
  unfolding new younger
  start-Holds db = record {
    policy = refl;
    past = tt;
    fewer = λ w t small k. omega arith;
    hour = tt;
    day = tt;
  }

-- From a start of the orchestrator on, whatever the database holds and whichever calls fail, where the
-- messages come in the order of their instants: in whatever hour, at most max_actions_per_hour of the
-- command.requests are sent, and in whatever day at most daily_action_budget.
pub run-le_budgets :
    {F : Type 0} (c : Constitution F) (below : F → F → Bool) (confidence : F) (db : Database F)
    (es : List Event) (until : ℕ)
    → IsOrdered 0 es
    → let sent = (run below confidence es (start c db)).sent in
      (in_window sent_at one_hour until sent ≤ c.max_actions_per_hour)
      × (in_window sent_at one_day until sent ≤ c.daily_action_budget)
run-le_budgets c below confidence db es until h =
    let v =
      run-Holds (IsBudgeted c) below (IsBudgeted-IsPreserved c below) confidence es 0 (start c db) h
        (start-Holds c db) in
    let clock = last_clock 0 es in
    (
      in_window-le sent_at one_hour until c.max_actions_per_hour clock _ v.past v.hour,
      in_window-le sent_at one_day until c.daily_action_budget clock _ v.past v.day,
    )

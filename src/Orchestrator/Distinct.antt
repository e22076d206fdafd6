-- ===== src/Orchestrator/Distinct.antt =====
-- No idempotency key is used twice (core/orchestrator/src/tcp_server.rs): the cooldown of the governor
-- (core/governor/src/lib.rs) keeps the ticks of a ride apart.
use mathlib.Core.Path.{subst}
use helter_skelter.Prelude.{
  ℕ, ◌≤◌, ◌<◌, ◌≡◌, ◌≢◌, refl, sym, ap, ◌∙◌, Bool, true, ◌&&◌, Text, some, List, [], ◌∷◌, All,
  All-map, ◌==◌, ==_refl, Bool-cases, inl, inr, arith,
}
use helter_skelter.Prelude.Int.{ℤ}
use helter_skelter.Governor.{Constitution, Governor, Proposal, get_tick, new, authorize}
use helter_skelter.Orchestrator.Tables.{Database, Outbound, Node}
use helter_skelter.Orchestrator.Proposals.{Answers, outbound, idempotency_key_of, handle_proposal}
use helter_skelter.Orchestrator.Handler.{Event, run, start}
use helter_skelter.Orchestrator.Audited.{authorize-constitution}
use helter_skelter.Orchestrator.Outcome.{is_authorized, handle_proposal-IsOutcome}
use helter_skelter.Orchestrator.Ticks.{IsAfter, authorize-IsNewest}
use helter_skelter.Orchestrator.Keys.{key_inj}
use helter_skelter.Orchestrator.Preserved.{IsOrdered, IsPreserved, run-Holds}

-- Requests of one simulation have different keys.
abbrev pub IsOther : Outbound → Outbound → Type 0
IsOther o q =
    q.simulation_id ≡ o.simulation_id → q.request.idempotency_key ≢ o.request.idempotency_key

abbrev pub IsDistinct : List Outbound → Type 0
IsDistinct [] = Unit {0}
IsDistinct (o ∷ sent) = All (IsOther o) sent × IsDistinct sent

module _ {F : Type 0} where
  -- The governor knows a tick for the ride of a request that is no earlier than the request's.
  record IsKnown (g : Governor F) (o : Outbound) : Type 0 where
    ride : ℕ
    tick : ℕ
    last : ℕ
    same_key : o.request.idempotency_key ≡ idempotency_key_of o.simulation_id ride tick
    same_tick : get_tick ride g.per_ride_last_authorized_tick ≡ some last
    not_later : tick ≤ last

  record IsKeyed (clock : ℕ) (g : Governor F) (sent : List Outbound) : Type 0 where
    cooldown : 0 < g.constitution.per_ride_cooldown_ticks
    known : All (IsKnown g) sent
    distinct : IsDistinct sent

  module _ (below : F → F → Bool) (now : ℕ) (p : Proposal F) (tick : ℕ) (g : Governor F)
      (h : 0 < g.constitution.per_ride_cooldown_ticks) where
    IsKnown-later : (o : Outbound) → IsKnown g o → IsKnown (authorize below now p tick g).1 o
    IsKnown-later o v =
        let (ticks, after) = authorize-IsNewest below now p tick g h in
        elim (Bool-cases
          (is_authorized (authorize below now p tick g).0.decision && (p.ride_id == v.ride))) [
            | inr other ↦ record {
              ride = v.ride;
              tick = v.tick;
              last = v.last;
              same_key = v.same_key;
              same_tick = ticks v.ride ∙ rw other v.same_tick;
              not_later = v.not_later;
            }
            | inl newer ↦
                let allowed : is_authorized (authorize below now p tick g).0.decision ≡ true =
                  ground arith in
                let same : p.ride_id ≡ v.ride = ground arith in
                let known : get_tick p.ride_id g.per_ride_last_authorized_tick ≡ some v.last =
                  rw same v.same_tick in
                let before : v.last < tick = subst (IsAfter tick) known (after allowed) in
                record {
                  ride = v.ride;
                  tick = v.tick;
                  last = tick;
                  same_key = v.same_key;
                  same_tick = ticks v.ride ∙ rw newer refl;
                  not_later = omega (arith, before, v.not_later);
                }
          ]

    -- A request that is authorized is other than those before it, and known.
    sent-IsOther :
        (o q : Outbound)
        → is_authorized (authorize below now p tick g).0.decision ≡ true
        → o.request.idempotency_key ≡ idempotency_key_of o.simulation_id p.ride_id tick
        → IsKnown g q
        → IsOther o q
    sent-IsOther o q allowed key v same_simulation same_key =
        let (ticks, after) = authorize-IsNewest below now p tick g h in
        let keys : idempotency_key_of o.simulation_id v.ride v.tick
            ≡ idempotency_key_of o.simulation_id p.ride_id tick =
          ap (λ sim. idempotency_key_of sim v.ride v.tick) (sym same_simulation)
          ∙ sym v.same_key
          ∙ same_key
          ∙ key in
        let (same_ride, same_tick) = key_inj o.simulation_id v.ride p.ride_id v.tick tick keys in
        let known : get_tick p.ride_id g.per_ride_last_authorized_tick ≡ some v.last =
          ap (λ ride. get_tick ride g.per_ride_last_authorized_tick) (sym same_ride)
          ∙ v.same_tick in
        let before : v.last < tick = subst (IsAfter tick) known (after allowed) in
        omega (arith, before, v.not_later, same_tick)

    sent-IsKnown :
        (o : Outbound)
        → is_authorized (authorize below now p tick g).0.decision ≡ true
        → o.request.idempotency_key ≡ idempotency_key_of o.simulation_id p.ride_id tick
        → IsKnown (authorize below now p tick g).1 o
    sent-IsKnown o allowed key =
        let (ticks, after) = authorize-IsNewest below now p tick g h in
        record {
          ride = p.ride_id;
          tick = tick;
          last = tick;
          same_key = key;
          same_tick = ticks p.ride_id ∙ rw allowed (rw (==_refl p.ride_id) refl);
          not_later = omega arith;
        }

  asked-IsKeyed :
      (below : F → F → Bool) (now : ℕ) (p : Proposal F) (tick : ℕ) (g : Governor F)
      (sent : List Outbound)
      → IsKeyed now g sent
      → IsKeyed now (authorize below now p tick g).1 sent
  asked-IsKeyed below now p tick g sent v = record {
    cooldown = rw (authorize-constitution below now p tick g) v.cooldown;
    known = All-map sent (λ q known. IsKnown-later below now p tick g v.cooldown q known) v.known;
    distinct = v.distinct;
  }

  handle_proposal-IsKeyed :
      (below : F → F → Bool) (now : ℕ) (a : Answers) (sim : Text) (tick : ℕ) (p : Proposal F)
      (cash : ℤ) (n : Node F)
      → IsKeyed now n.shared.governor n.sent
      → let n' = handle_proposal a sim tick p now cash below n in
        IsKeyed now n'.shared.governor n'.sent
  handle_proposal-IsKeyed below now a sim tick p cash n v =
      let g = n.shared.governor in
      let o = outbound a sim tick p now cash in
      let asked = asked-IsKeyed below now p tick g n.sent v in
      elim (handle_proposal-IsOutcome a sim tick p now cash below n) [
        | inl (same_governor, same_sent) ↦ rw same_governor (rw same_sent v)
        | inr (same_governor, inl same_sent) ↦ rw same_governor (rw same_sent asked)
        | inr (same_governor, inr (one_more, allowed)) ↦ rw same_governor (
            rw one_more (record {
              cooldown = asked.cooldown;
              known = (sent-IsKnown below now p tick g v.cooldown o allowed refl, asked.known);
              distinct = (
                All-map n.sent
                    (λ q known. sent-IsOther below now p tick g v.cooldown o q allowed refl known)
                    v.known,
                v.distinct,
              );
            }))
      ]

  IsKeyed-IsPreserved : (below : F → F → Bool) → IsPreserved IsKeyed below
  IsKeyed-IsPreserved below = record {
    later = λ clock now g sent h v. record {
      cooldown = v.cooldown;
      known = v.known;
      distinct = v.distinct;
    };
    handled = λ now a sim tick p cash n v. handle_proposal-IsKeyed below now a sim tick p cash n v;
  }

-- From a start of the orchestrator on, whatever the database holds and whichever calls fail, where the
-- messages come in the order of their instants and the cooldown is not 0: no two of the command.requests
-- sent for one simulation have the same idempotency key.
pub run-IsDistinct :
    {F : Type 0} (c : Constitution F) (below : F → F → Bool) (confidence : F) (db : Database F)
    (es : List Event)
    → 0 < c.per_ride_cooldown_ticks
    → IsOrdered 0 es
    → IsDistinct (run below confidence es (start c db)).sent
run-IsDistinct c below confidence db es h ordered =
    let first : IsKeyed 0 (new c) [] = record {
      cooldown = unfold new in h;
      known = tt;
      distinct = tt;
    } in
    let v =
      run-Holds IsKeyed below (IsKeyed-IsPreserved below) confidence es 0 (start c db) ordered
        first in
    v.distinct

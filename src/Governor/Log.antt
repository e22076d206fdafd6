-- ===== src/Governor/Log.antt =====
-- The governor (core/governor/src/lib.rs) decides as if it kept every authorization that it ever gave.
use helter_skelter.Prelude.{
  ℕ, suc, ◌-◌, ◌≤◌, ◌≡◌, refl, ap, ◌∙◌, Bool, true, false, ◌&&◌, Bool-cases, inl, inr, some, List,
  [], ◌∷◌, ◌++◌, length, ltb, leb, ◌==◌, if◌then◌else◌, arith,
}
use helter_skelter.Prelude.Int.{ltbℤ}
use helter_skelter.Governor.{
  Constitution, Authorization, Governor, one_hour, one_day, get_tick, insert_tick, younger,
  is_cooling, new, reject, authorize_at, authorize,
}
use helter_skelter.Governor.History.{
  Request, newest, recent, IsOrdered, decision_for, is_allowed, logged, decide_all, authorize_all,
}

pub younger-younger :
    (d w now later : ℕ) (ts : List ℕ)
    → w ≤ d
    → now ≤ later
    → length (younger w later (younger d now ts)) ≡ length (younger w later ts)
unfolding younger
younger-younger d w now later [] h k = refl
younger-younger d w now later (t ∷ ts) h k = ground (arith, younger-younger d w now later ts h k)

pub length-younger-append :
    (w now t : ℕ) (ts : List ℕ)
    → length (younger w now (ts ++ (t ∷ [])))
      ≡ (if ltb (now - t) w then suc (length (younger w now ts)) else length (younger w now ts))
unfolding younger
length-younger-append w now t [] = ground arith
length-younger-append w now t (s ∷ ts) = ground (arith, length-younger-append w now t ts)

pub get_tick-insert_tick :
    (ride r tick : ℕ) (m : List (ℕ × ℕ))
    → get_tick r (insert_tick ride tick m) ≡ (if ride == r then some tick else get_tick r m)
unfolding get_tick insert_tick
get_tick-insert_tick ride r tick [] = refl
get_tick-insert_tick ride r tick ((s, old) ∷ m) = ground (arith, get_tick-insert_tick ride r tick m)

module _ {F : Type 0} where
  -- The governor knows of the history what it needs at any later instant.
  record Tracks (g : Governor F) (log : List (Request F)) (clock : ℕ) : Type 0 where
    ticks : (ride : ℕ) → get_tick ride g.per_ride_last_authorized_tick ≡ newest ride log
    times :
        (w now : ℕ)
        → w ≤ one_day
        → clock ≤ now
        → length (younger w now g.authorized_at) ≡ recent w now log

  Tracks-later :
      (g : Governor F) (log : List (Request F)) (clock now : ℕ)
      → clock ≤ now
      → Tracks g log clock
      → Tracks g log now
  Tracks-later g log clock now h v = record {
    ticks = v.ticks;
    times = λ w t small k. v.times w t small (omega (arith, h, k));
  }

  Tracks-retain :
      (g : Governor F) (log : List (Request F)) (clock now : ℕ)
      → clock ≤ now
      → Tracks g log clock
      → Tracks (record g { authorized_at = younger one_day now g.authorized_at }) log now
  Tracks-retain g log clock now h v = record {
    ticks = v.ticks;
    times = λ w t small k.
        younger-younger one_day w now t g.authorized_at small k
        ∙ v.times w t small (omega (arith, h, k));
  }

  Tracks-grant :
      (g : Governor F) (log : List (Request F)) (r : Request F)
      → Tracks g log r.time
      → Tracks
          (record g {
            authorized_at = g.authorized_at ++ (r.time ∷ []);
            per_ride_last_authorized_tick =
                insert_tick r.proposal.ride_id r.tick g.per_ride_last_authorized_tick;
          })
          (r ∷ log)
          r.time
  Tracks-grant g log r v = record {
    ticks = λ ride.
        get_tick-insert_tick r.proposal.ride_id ride r.tick g.per_ride_last_authorized_tick
        ∙ rw (v.ticks ride) refl;
    times = λ w t small k.
        length-younger-append w t r.time g.authorized_at ∙ rw (v.times w t small k) refl;
  }

  -- What a request does to the governor and to the history.
  abbrev Agrees :
      Governor F → List (Request F) → Request F → Bool → Authorization F × Governor F → Type 0
  Agrees g log r allowed d =
      (d.0.decision ≡ decision_for allowed)
      × Tracks d.1 (if allowed then r ∷ log else log) r.time
      × (d.1.constitution ≡ g.constitution)

  authorize_at-Agrees :
      (r : Request F) (g : Governor F) (log : List (Request F)) (clock : ℕ)
      → clock ≤ r.time
      → Tracks g log clock
      → Agrees g log r
          (ltb (recent one_hour r.time log) g.constitution.max_actions_per_hour
            && ltb (recent one_day r.time log) g.constitution.daily_action_budget)
          (authorize_at r.time r.proposal r.tick g)
  unfolding authorize_at reject
  authorize_at-Agrees r g log clock h v =
      let c = g.constitution in
      let young = younger one_day r.time g.authorized_at in
      let kept = Tracks-retain g log clock r.time h v in
      let hour = kept.times one_hour r.time (omega arith) (omega arith) in
      let day = v.times one_day r.time (omega arith) h in
      elim (Bool-cases (leb c.max_actions_per_hour (length (younger one_hour r.time young)))) [
        | inl full ↦
            let no : ltb (recent one_hour r.time log) c.max_actions_per_hour ≡ false =
              ground arith in
            rw (full, authorize_at) (rw no (refl, kept, refl))
        | inr room ↦
            let yes_hour : ltb (recent one_hour r.time log) c.max_actions_per_hour ≡ true =
              ground arith in
            elim (Bool-cases (leb c.daily_action_budget (length young))) [
              | inl full ↦
                  let no : ltb (recent one_day r.time log) c.daily_action_budget ≡ false =
                    ground arith in
                  rw (room, authorize_at)
                    (rw (full, authorize_at) (rw yes_hour (rw no (refl, kept, refl))))
              | inr room_day ↦
                  let yes_day : ltb (recent one_day r.time log) c.daily_action_budget ≡ true =
                    ground arith in
                  rw (room, authorize_at)
                    (rw (room_day, authorize_at)
                      (rw yes_hour (
                        rw yes_day (
                          refl,
                          Tracks-grant (record g { authorized_at = young }) log r kept,
                          refl,
                        ))))
            ]
      ]

module _ {F : Type 0} (below : F → F → Bool) where
  authorize-Agrees :
      (r : Request F) (g : Governor F) (log : List (Request F)) (clock : ℕ)
      → clock ≤ r.time
      → Tracks g log clock
      → Agrees g log r
          (is_allowed below g.constitution r log)
          (authorize below r.time r.proposal r.tick g)
  unfolding authorize reject
  authorize-Agrees r g log clock h v =
      let c = g.constitution in
      let p = r.proposal in
      let still = Tracks-later g log clock r.time h v in
      let last = v.ticks p.ride_id in
      elim (Bool-cases (below p.confidence c.min_confidence)) [
        | inl low ↦ rw (low, authorize) (refl, still, refl)
        | inr sure ↦ elim (Bool-cases (ltbℤ p.proposed_price c.price_bounds.min)) [
          | inl under ↦ rw (sure, authorize) (rw (under, authorize) (refl, still, refl))
          | inr above ↦ elim (Bool-cases (ltbℤ c.price_bounds.max p.proposed_price)) [
            | inl over ↦
                rw (sure, authorize)
                  (rw (above, authorize) (rw (over, authorize) (refl, still, refl)))
            | inr within ↦
                elim (Bool-cases
                  (is_cooling c.per_ride_cooldown_ticks r.tick (newest p.ride_id log))) [
                    | inl cooling ↦
                        rw (sure, authorize)
                          (rw (above, authorize)
                            (rw (within, authorize)
                              (rw (last, authorize) (rw (cooling, authorize) (refl, still, refl)))))
                    | inr cooled ↦
                        rw (sure, authorize)
                          (rw (above, authorize)
                            (rw (within, authorize)
                              (rw (last, authorize)
                                (rw (cooled, authorize) (authorize_at-Agrees r g log clock h v)))))
                  ]
          ]
        ]
      ]

  authorize_all-Agrees :
      (rs : List (Request F)) (g : Governor F) (log : List (Request F)) (clock : ℕ)
      → IsOrdered clock rs
      → Tracks g log clock
      → authorize_all below rs g ≡ decide_all below g.constitution rs log
  unfolding authorize_all
  authorize_all-Agrees [] g log clock h v = refl
  authorize_all-Agrees (r ∷ rs) g log clock (now, h) v =
      let c = g.constitution in
      let d = authorize below r.time r.proposal r.tick g in
      let (decided, tracks, same) = authorize-Agrees r g log clock now v in
      let later = authorize_all-Agrees rs d.1 (logged below c r log) r.time h tracks in
      ap (λ x. x ∷ authorize_all below rs d.1) decided
      ∙ ap (λ xs. decision_for (is_allowed below c r log) ∷ xs) (rw same at later)

-- On requests whose instants do not run backwards, a new governor, which forgets authorizations after a
-- day and keeps one tick for a ride, gives the decisions that the constitution asks for of the whole
-- history of its authorizations: a request is authorized exactly when its confidence is not below the
-- least, its price lies within the bounds, its ride has no newest authorization fewer ticks ago than the
-- cooldown, and fewer authorizations than the budgets are younger than an hour and than a day.
pub authorize_all-refines :
    {F : Type 0} (below : F → F → Bool) (c : Constitution F) (rs : List (Request F))
    → IsOrdered 0 rs
    → authorize_all below rs (new c) ≡ decide_all below c rs []
unfolding new
authorize_all-refines below c rs h = authorize_all-Agrees below rs (new c) [] 0 h (record {
  ticks = λ ride. unfold get_tick in refl;
  times = λ w now small k. unfold younger in refl;
})

-- ===== src/Orchestrator/Ticks.antt =====
-- The ticks at which the governor (core/governor/src/lib.rs) authorizes for a ride.
use helter_skelter.Prelude.{
  ℕ, ◌<◌, ◌≡◌, refl, Bool, true, false, ◌||◌, ◌&&◌, Option, none, some, length, leb, ◌==◌,
  Bool-cases, inl, inr, if◌then◌else◌, arith,
}
use helter_skelter.Prelude.Int.{ltbℤ}
use helter_skelter.Governor.{
  Governor, Proposal, Authorization, one_hour, one_day, younger, get_tick, is_cooling, reject,
  authorize_at, authorize,
}
use helter_skelter.Governor.Log.{get_tick-insert_tick}
use helter_skelter.Orchestrator.Outcome.{is_authorized}

-- The newest tick for a ride, if there is one, is before.
abbrev pub IsAfter : ℕ → Option ℕ → Type 0
IsAfter tick none = Unit {0}
IsAfter tick (some last) = last < tick

not_cooling :
    (required tick : ℕ) (last : Option ℕ)
    → 0 < required
    → is_cooling required tick last ≡ false
    → IsAfter tick last
not_cooling required tick none h e = tt
not_cooling required tick (some last) h e = ground arith

module _ {F : Type 0} where
  abbrev tick_for : ℕ → Governor F → Option ℕ
  tick_for ride g = get_tick ride g.per_ride_last_authorized_tick

  -- An authorization is newer than the one before it, and it is the newest; nothing else changes a tick.
  abbrev pub IsNewest : Proposal F → ℕ → Governor F → Authorization F × Governor F → Type 0
  IsNewest p tick g r =
      ((ride : ℕ)
        → tick_for ride r.1 ≡ (
            if is_authorized r.0.decision && (p.ride_id == ride)
            then some tick
            else tick_for ride g))
      × (is_authorized r.0.decision ≡ true → IsAfter tick (tick_for p.ride_id g))

  authorize_at-IsNewest :
      (now : ℕ) (p : Proposal F) (tick : ℕ) (g : Governor F)
      → IsAfter tick (tick_for p.ride_id g)
      → IsNewest p tick g (authorize_at now p tick g)
  unfolding authorize_at reject
  authorize_at-IsNewest now p tick g after =
      let c = g.constitution in
      let kept = younger one_day now g.authorized_at in
      elim (Bool-cases (leb c.max_actions_per_hour (length (younger one_hour now kept)))) [
        | inl full ↦ rw full ((λ ride. refl), λ e. absurd cc)
        | inr hour_open ↦ elim (Bool-cases (leb c.daily_action_budget (length kept))) [
          | inl full ↦ rw hour_open (rw full ((λ ride. refl), λ e. absurd cc))
          | inr day_open ↦ rw hour_open (
              rw day_open (
                λ ride. get_tick-insert_tick p.ride_id ride tick g.per_ride_last_authorized_tick,
                λ e. after,
              ))
        ]
      ]

  pub authorize-IsNewest :
      (below : F → F → Bool) (now : ℕ) (p : Proposal F) (tick : ℕ) (g : Governor F)
      → 0 < g.constitution.per_ride_cooldown_ticks
      → IsNewest p tick g (authorize below now p tick g)
  unfolding authorize reject
  authorize-IsNewest below now p tick g h =
      let c = g.constitution in
      let last = get_tick p.ride_id g.per_ride_last_authorized_tick in
      elim (Bool-cases (below p.confidence c.min_confidence)) [
        | inl low ↦ rw low ((λ ride. refl), λ e. absurd cc)
        | inr sure ↦
            elim (Bool-cases (
              ltbℤ p.proposed_price c.price_bounds.min
              || ltbℤ c.price_bounds.max p.proposed_price)) [
                | inl outside ↦ rw sure (rw outside ((λ ride. refl), λ e. absurd cc))
                | inr inside ↦ elim (Bool-cases (is_cooling c.per_ride_cooldown_ticks tick last)) [
                  | inl cooling ↦ rw sure (rw inside (rw cooling ((λ ride. refl), λ e. absurd cc)))
                  | inr cool ↦ rw sure (
                      rw inside (
                        rw cool (
                          authorize_at-IsNewest now p tick g
                            (not_cooling c.per_ride_cooldown_ticks tick last h cool))))
                ]
              ]
      ]

-- ===== src/Orchestrator/Counted.antt =====
-- What the governor (core/governor/src/lib.rs) counts of its authorizations, from one answer to the next.
use helter_skelter.Prelude.{
  ℕ, suc, ◌-◌, ◌≤◌, ◌<◌, ◌≡◌, refl, ◌∙◌, Bool, true, ◌||◌, ◌&&◌, List, Bool-cases, inl, inr, ltb,
  leb, length, if◌then◌else◌, arith,
}
use helter_skelter.Prelude.Int.{ltbℤ}
use helter_skelter.Governor.{
  Governor, Proposal, Authorization, one_hour, one_day, younger, get_tick, is_cooling, reject,
  authorize_at, authorize,
}
use helter_skelter.Governor.Log.{younger-younger, length-younger-append}
use helter_skelter.Orchestrator.Outcome.{is_authorized}

-- How many authorizations the governor counts.
abbrev pub counted : ℕ → ℕ → List ℕ → ℕ
counted w t ts = length (younger w t ts)

module _ {F : Type 0} where
  -- What an answer does to the instants that are counted, and what it finds of them.
  abbrev IsCounted : ℕ → Governor F → Authorization F × Governor F → Type 0
  IsCounted now g r =
      ((w t : ℕ)
        → w ≤ one_day
        → now ≤ t
        → counted w t r.1.authorized_at ≡ (
            if is_authorized r.0.decision && ltb (t - now) w
            then suc (counted w t g.authorized_at)
            else counted w t g.authorized_at))
      × (is_authorized r.0.decision ≡ true
          → (counted one_hour now g.authorized_at < g.constitution.max_actions_per_hour)
            × (counted one_day now g.authorized_at < g.constitution.daily_action_budget))

  authorize_at-IsCounted :
      (now : ℕ) (p : Proposal F) (tick : ℕ) (g : Governor F)
      → IsCounted now g (authorize_at now p tick g)
  unfolding authorize_at reject
  authorize_at-IsCounted now p tick g =
      let c = g.constitution in
      let ts = g.authorized_at in
      let kept = younger one_day now ts in
      let same : (w t : ℕ) → w ≤ one_day → now ≤ t → counted w t kept ≡ counted w t ts =
        λ w t h k. younger-younger one_day w now t ts h k in
      elim (Bool-cases (leb c.max_actions_per_hour (length (younger one_hour now kept)))) [
        | inl full ↦ rw full (same, λ e. absurd cc)
        | inr hour_open ↦ elim (Bool-cases (leb c.daily_action_budget (length kept))) [
          | inl full ↦ rw hour_open (rw full (same, λ e. absurd cc))
          | inr day_open ↦
              let hour = same one_hour now (omega arith) (omega arith) in
              rw hour_open (
                rw day_open (
                  λ w t h k. length-younger-append w t now kept ∙ rw (same w t h k) refl,
                  λ e. (ground (arith, hour), ground arith),
                ))
        ]
      ]

  module _ (below : F → F → Bool) where
    pub authorize-IsCounted :
        (now : ℕ) (p : Proposal F) (tick : ℕ) (g : Governor F)
        → IsCounted now g (authorize below now p tick g)
    unfolding authorize reject
    authorize-IsCounted now p tick g =
        let c = g.constitution in
        let last = get_tick p.ride_id g.per_ride_last_authorized_tick in
        elim (Bool-cases (below p.confidence c.min_confidence)) [
          | inl low ↦ rw low ((λ w t h k. refl), λ e. absurd cc)
          | inr sure ↦
              elim (Bool-cases (
                ltbℤ p.proposed_price c.price_bounds.min
                || ltbℤ c.price_bounds.max p.proposed_price)) [
                  | inl outside ↦ rw sure (rw outside ((λ w t h k. refl), λ e. absurd cc))
                  | inr inside ↦
                      elim (Bool-cases (is_cooling c.per_ride_cooldown_ticks tick last)) [
                        | inl cooling ↦
                            rw sure (rw inside (rw cooling ((λ w t h k. refl), λ e. absurd cc)))
                        | inr cool ↦
                            rw sure (rw inside (rw cool (authorize_at-IsCounted now p tick g)))
                      ]
                ]
        ]

-- ===== src/SeedPrice/Commanded.antt =====
-- The prices that scripts/dev/chaos/seed-price.js sets are set as the bridge would set them.
use helter_skelter.Prelude.{
  ◌≡◌, ◌↔◌, ◌⊎◌, refl, sym, ◌∙◌, true, false, codes, text_eq_iff, Bool-cases, inl, inr, List, [],
  ◌∷◌,
}
use helter_skelter.Prelude.Int.{ℤ, pos}
use helter_skelter.Protocol.{set_ride_price}
use helter_skelter.Commands.{GameAction, to_game_action}
use helter_skelter.Commands.Mapping.{to_game_action_inj}
use helter_skelter.SeedPrice.{SeedRide, seeded, is_ride, rides_of, main}

-- An action is among those of a list.
abbrev pub IsAmong : GameAction → List GameAction → Type 0
IsAmong a [] = ⊥
IsAmong a (b ∷ bs) = (a ≡ b) ⊎ IsAmong a bs

abbrev pub HasRide : ℤ → List SeedRide → Type 0
HasRide id [] = ⊥
HasRide id (r ∷ rs) = ((r.id ≡ id) × (r.classification ≡ codes "ride")) ⊎ HasRide id rs

seeded-to_game_action : (id : ℤ) → to_game_action (set_ride_price id (pos 5)) ≡ seeded id
unfolding seeded to_game_action
seeded-to_game_action id = refl

set_ride_price_inj :
    (id price id' price' : ℤ)
    → set_ride_price id price ≡ set_ride_price id' price'
    → (id ≡ id') × (price ≡ price')
set_ride_price_inj id price id' price' e = (cc, cc)

module _ (id price : ℤ) where
  sets : GameAction
  sets = to_game_action (set_ride_price id price)

  sets-eq-seeded : (r : ℤ) → (sets ≡ seeded r) ↔ ((price ≡ pos 5) × (r ≡ id))
  unfolding sets
  sets-eq-seeded r = (
    λ e.
        let (same, five) = set_ride_price_inj id price r (pos 5) (
          to_game_action_inj (set_ride_price id price) (set_ride_price r (pos 5))
            (e ∙ sym (seeded-to_game_action r))) in
        (five, sym same),
    λ (five, same). rw five (rw same (seeded-to_game_action id)),
  )

  main-cons_ride :
      (r : SeedRide) (rs : List SeedRide) → is_ride r ≡ true → main (r ∷ rs) ≡ seeded r.id ∷ main rs
  unfolding main rides_of
  main-cons_ride r rs h = rw h refl

  main-cons_other :
      (r : SeedRide) (rs : List SeedRide) → is_ride r ≡ false → main (r ∷ rs) ≡ main rs
  unfolding main rides_of
  main-cons_other r rs h = rw h refl

  is_ride_iff : (r : SeedRide) → (is_ride r ≡ true) ↔ (r.classification ≡ codes "ride")
  unfolding is_ride
  is_ride_iff r = text_eq_iff r.classification (codes "ride")

  forth : (rs : List SeedRide) → IsAmong sets (main rs) → (price ≡ pos 5) × HasRide id rs
  unfolding main rides_of
  forth [] m = elim m [ ]
  forth (r ∷ rs) m = elim (Bool-cases (is_ride r)) [
    | inl h ↦ elim (rw (main-cons_ride r rs h) at m) [
      | inl e ↦
          let (five, same) = (sets-eq-seeded r.id).0 e in (five, inl (same, (is_ride_iff r).0 h))
      | inr m' ↦ let (five, has) = forth rs m' in (five, inr has)
    ]
    | inr h ↦ let (five, has) = forth rs (rw (main-cons_other r rs h) at m) in (five, inr has)
  ]

  back : (rs : List SeedRide) → price ≡ pos 5 → HasRide id rs → IsAmong sets (main rs)
  back [] five has = elim has [ ]
  back (r ∷ rs) five (inl (same, ride)) =
      rw (main-cons_ride r rs ((is_ride_iff r).1 ride)) (inl ((sets-eq-seeded r.id).1 (five, same)))
  back (r ∷ rs) five (inr has) = elim (Bool-cases (is_ride r)) [
    | inl h ↦ rw (main-cons_ride r rs h) (inr (back rs five has))
    | inr h ↦ rw (main-cons_other r rs h) (back rs five has)
  ]

-- The action by which the bridge sets a price on a ride is among those that the seeding plugin executes
-- exactly when the price is 5 and a ride of the park with this id has the classification "ride".
main_iff :
    (id price : ℤ) (rs : List SeedRide)
    → IsAmong (to_game_action (set_ride_price id price)) (main rs)
      ↔ ((price ≡ pos 5) × HasRide id rs)
main_iff id price rs = (
  λ m. forth id price rs (unfold sets in m),
  λ (five, has). unfold sets in back id price rs five has,
)

-- ===== src/SeedPrice.antt =====
-- scripts/dev/chaos/seed-price.js: the plugin of the chaos tests, which sets the price of every ride.
pub mod Commanded
use helter_skelter.Prelude.{Text, codes, text_eq, Bool, true, List, [], ◌∷◌, map, if◌then◌else◌}
use helter_skelter.Prelude.Int.{ℤ, pos}
use helter_skelter.Json.{num, bool, end, member}
use helter_skelter.Commands.{GameAction}

-- `map.rides[i]`, as far as the game is asked about it.
pub record SeedRide : Type 0 where
  pub id : ℤ
  pub classification : Text

unfoldable pub seeded : ℤ → GameAction
seeded id = record {
  action = codes "ridesetprice";
  args =
      member (codes "ride") (num id)
        (member (codes "price") (num (pos 5)) (member (codes "isPrimaryPrice") (bool true) end));
}

unfoldable pub is_ride : SeedRide → Bool
is_ride r = text_eq r.classification (codes "ride")

-- `map.rides.filter((r) => r.classification === "ride")`.
unfoldable pub rides_of : List SeedRide → List SeedRide
unfolding is_ride
rides_of [] = []
rides_of (r ∷ rs) = if is_ride r then r ∷ rides_of rs else rides_of rs

-- `main`: the actions that the game is asked to execute, in order.
unfoldable pub main : List SeedRide → List GameAction
main rs = map (λ (r : SeedRide). seeded r.id) (rides_of rs)

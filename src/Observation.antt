-- ===== src/Observation.antt =====
-- bridge/openrct2-plugin/src/observation.ts: the snapshot of the game's state. What the game's API gives
-- is a record of readings; a number of it is an integer.
pub mod Staff
use mathlib.Core.List.{foldl}
use helter_skelter.Prelude.{
  zero, suc, Text, codes, text_eq, ◌||◌, List, [], ◌∷◌, map, if◌then◌else◌,
}
use helter_skelter.Prelude.Int.{ℤ, pos, negsuc}
use helter_skelter.Protocol.{
  ParkDate, RideStatus, opened, closed, testing, Ride, StaffCounts, Weather, sunny,
  partially_cloudy, cloudy, rain, heavy_rain, thunder, snow, heavy_snow, ObservationSnapshot,
}

-- `map.rides[i]`, as far as it is read: `object.identifier` is `identifier`.
pub record GameRide : Type 0 where
  pub id : ℤ
  pub name : Text
  pub identifier : Text
  pub status : Text
  pub price : List ℤ
  pub downtime : ℤ

pub record Game : Type 0 where
  pub year : ℤ
  pub month : ℤ
  pub day : ℤ
  pub cash : ℤ
  pub bank_loan : ℤ
  pub rating : ℤ
  pub guests : ℤ
  pub rides : List GameRide
  pub staff_types : List Text
  pub weather : Text

unfoldable pub increment : ℤ → ℤ
increment (pos n) = pos (suc n)
increment (negsuc zero) = pos 0
increment (negsuc (suc n)) = negsuc n

unfoldable pub build_park_date : Game → ParkDate
build_park_date g = record { year = g.year; month = increment g.month; day = g.day }

unfoldable pub map_weather : Text → Weather
unfolding text_eq
map_weather raw =
    if text_eq raw (codes "sunny")
    then sunny
    else if text_eq raw (codes "partiallyCloudy")
    then partially_cloudy
    else if text_eq raw (codes "cloudy")
    then cloudy
    else if text_eq raw (codes "rain")
    then rain
    else if text_eq raw (codes "heavyRain")
    then heavy_rain
    else if text_eq raw (codes "thunder")
    then thunder
    else if text_eq raw (codes "snow")
    then snow
    else if text_eq raw (codes "heavySnow") || text_eq raw (codes "blizzard")
    then heavy_snow
    else sunny

unfoldable pub map_ride_status : Text → RideStatus
unfolding text_eq
map_ride_status raw =
    if text_eq raw (codes "open")
    then opened
    else if text_eq raw (codes "closed")
    then closed
    else testing

-- `price[0] ?? 0`.
unfoldable pub first_price : List ℤ → ℤ
first_price [] = pos 0
first_price (p ∷ ps) = p

unfoldable pub build_ride : GameRide → Ride
unfolding first_price map_ride_status
build_ride r = record {
  id = r.id;
  name = r.name;
  type = r.identifier;
  status = map_ride_status r.status;
  price = first_price r.price;
  queue_length = pos 0;
  downtime = r.downtime;
}

unfoldable pub build_rides : List GameRide → List Ride
build_rides = map build_ride

-- One round of the loop of `buildStaffCounts`: a type that is no key of the counts is passed over.
unfoldable pub count_staff : StaffCounts → Text → StaffCounts
count_staff k staff_type =
    if text_eq staff_type (codes "handyman")
    then record k { handyman = increment k.handyman }
    else if text_eq staff_type (codes "mechanic")
    then record k { mechanic = increment k.mechanic }
    else if text_eq staff_type (codes "security")
    then record k { security = increment k.security }
    else if text_eq staff_type (codes "entertainer")
    then record k { entertainer = increment k.entertainer }
    else k

unfoldable pub build_staff_counts : List Text → StaffCounts
build_staff_counts =
    foldl count_staff
      (record { handyman = pos 0; mechanic = pos 0; security = pos 0; entertainer = pos 0 })

unfoldable pub build_observation_snapshot : Game → ObservationSnapshot
unfolding build_park_date build_rides map_weather
build_observation_snapshot g = record {
  park_date = build_park_date g;
  cash = g.cash;
  loan = g.bank_loan;
  park_rating = g.rating;
  guest_count = g.guests;
  rides = build_rides g.rides;
  staff_counts = build_staff_counts g.staff_types;
  weather = map_weather g.weather;
}

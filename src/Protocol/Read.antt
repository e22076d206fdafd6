-- ===== src/Protocol/Read.antt =====
-- A parsed value at the types of types.ts: what `JSON.parse(text) as Envelope` of
-- bridge/openrct2-plugin/src/protocol/codec.ts takes it to be. The source makes no check; here a
-- value that has not the shape is `none`.
use helter_skelter.Prelude.{Text, codes, text_eq, if◌then◌else◌, Option, none, some, List, [], ◌∷◌}
use helter_skelter.Prelude.Int.{ℤ}
use helter_skelter.Json.{Json, null, num, str, arr, obj, Items, nil, cons, Members, get}
use helter_skelter.Json.Parse.{◌>>=◌}
use helter_skelter.Protocol.{
  bridge, orchestrator, Hello, Heartbeat, ParkDate, opened, closed, Shutdown, ack, testing, Ride,
  StaffCounts, Weather, sunny, partially_cloudy, cloudy, rain, heavy_rain, thunder, snow,
  heavy_snow, ObservationSnapshot, StaffType, CommandAction, set_ride_price, set_park_entry_fee,
  hire_staff, open_ride, close_ride, CommandRequest, ErrorInfo, CommandResult, ShutdownReason,
  operator_request, fatal_error, watchdog_timeout, Payload, hello, heartbeat, observation_snapshot,
  command_request, command_result, shutdown, acknowledge, ok, error, Envelope,
}
use helter_skelter.Protocol.Write.{
  role_text, ride_status_text, weather_text, staff_type_text, reason_text, status_text,
}

unfoldable pub as_num : Json → Option ℤ
as_num (num n) = some n
as_num _ = none

unfoldable pub as_str : Json → Option Text
as_str (str s) = some s
as_str _ = none

unfoldable pub as_obj : Json → Option Members
as_obj (obj ms) = some ms
as_obj _ = none

unfoldable pub as_items : Json → Option Items
as_items (arr xs) = some xs
as_items _ = none

unfoldable pub as_nullable {ℓ} : {A : Type ℓ} → (Json → Option A) → Json → Option (Option A)
as_nullable f null = some none
as_nullable f v = f v >>= (λ a. some (some a))

-- A member that has to be there.
unfoldable pub field {ℓ} : {A : Type ℓ} → Text → (Json → Option A) → Members → Option A
unfolding get text_eq
field k f ms = get k ms >>= f

-- One of the literals of a union.
unfoldable pub one_of {ℓ} : {A : Type ℓ} → (A → Text) → List A → Json → Option A
unfolding text_eq
one_of name [] v = none
one_of name (a ∷ rest) (str s) = if text_eq s (name a) then some a else one_of name rest (str s)
one_of name (a ∷ rest) v = none

unfoldable pub read_hello : Members → Option Hello
unfolding field as_str one_of
read_hello ms = do
  role ← field (codes "role") (one_of role_text (bridge ∷ orchestrator ∷ [])) ms
  bridge_version ← field (codes "bridge_version") as_str ms
  openrct2_version ← field (codes "openrct2_version") as_str ms
  some
      (record { role = role; bridge_version = bridge_version; openrct2_version = openrct2_version })

unfoldable pub read_date : Json → Option ParkDate
unfolding field as_obj as_num
read_date v = do
  ms ← as_obj v
  year ← field (codes "year") as_num ms
  month ← field (codes "month") as_num ms
  day ← field (codes "day") as_num ms
  some (record { year = year; month = month; day = day })

unfoldable pub read_ride : Json → Option Ride
unfolding field as_obj as_num as_str one_of
read_ride v = do
  ms ← as_obj v
  id ← field (codes "id") as_num ms
  name ← field (codes "name") as_str ms
  type ← field (codes "type") as_str ms
  status ← field (codes "status") (one_of ride_status_text (opened ∷ closed ∷ testing ∷ [])) ms
  price ← field (codes "price") as_num ms
  queue_length ← field (codes "queue_length") as_num ms
  downtime ← field (codes "downtime") as_num ms
  some (record {
    id = id;
    name = name;
    type = type;
    status = status;
    price = price;
    queue_length = queue_length;
    downtime = downtime;
  })

unfoldable pub read_rides : Items → Option (List Ride)
read_rides nil = some []
read_rides (cons v vs) = do r ← read_ride v; rs ← read_rides vs; some (r ∷ rs)

unfoldable pub read_counts : Json → Option StaffCounts
unfolding field as_obj as_num
read_counts v = do
  ms ← as_obj v
  handyman ← field (codes "handyman") as_num ms
  mechanic ← field (codes "mechanic") as_num ms
  security ← field (codes "security") as_num ms
  entertainer ← field (codes "entertainer") as_num ms
  some (record {
    handyman = handyman;
    mechanic = mechanic;
    security = security;
    entertainer = entertainer;
  })

unfoldable pub weathers : List Weather
weathers = sunny ∷ partially_cloudy ∷ cloudy ∷ rain ∷ heavy_rain ∷ thunder ∷ snow ∷ heavy_snow ∷ []

unfoldable pub read_snapshot : Members → Option ObservationSnapshot
unfolding field as_num as_items read_date read_counts one_of weathers
read_snapshot ms = do
  park_date ← field (codes "park_date") read_date ms
  cash ← field (codes "cash") as_num ms
  loan ← field (codes "loan") as_num ms
  park_rating ← field (codes "park_rating") as_num ms
  guest_count ← field (codes "guest_count") as_num ms
  items ← field (codes "rides") as_items ms
  rides ← read_rides items
  staff_counts ← field (codes "staff_counts") read_counts ms
  weather ← field (codes "weather") (one_of weather_text weathers) ms
  some (record {
    park_date = park_date;
    cash = cash;
    loan = loan;
    park_rating = park_rating;
    guest_count = guest_count;
    rides = rides;
    staff_counts = staff_counts;
    weather = weather;
  })

unfoldable pub staff_types : List StaffType
staff_types =
    StaffType.handyman ∷ StaffType.mechanic ∷ StaffType.security ∷ StaffType.entertainer ∷ []

unfoldable pub read_action : Text → Members → Option CommandAction
unfolding field as_num one_of staff_types text_eq
read_action action ms =
    if text_eq action (codes "set_ride_price")
    then field (codes "ride_id") as_num ms >>= (λ ride_id.
      field (codes "price") as_num ms >>= (λ price. some (set_ride_price ride_id price)))
    else if text_eq action (codes "set_park_entry_fee")
    then field (codes "price") as_num ms >>= (λ price. some (set_park_entry_fee price))
    else if text_eq action (codes "hire_staff")
    then field (codes "type") (one_of staff_type_text staff_types) ms
      >>= (λ type. some (hire_staff type))
    else if text_eq action (codes "open_ride")
    then field (codes "ride_id") as_num ms >>= (λ ride_id. some (open_ride ride_id))
    else if text_eq action (codes "close_ride")
    then field (codes "ride_id") as_num ms >>= (λ ride_id. some (close_ride ride_id))
    else none

unfoldable pub read_request : Members → Option CommandRequest
unfolding field as_str as_num as_obj read_action
read_request ms = do
  name ← field (codes "action") as_str ms
  params ← field (codes "params") as_obj ms
  action ← read_action name params
  idempotency_key ← field (codes "idempotency_key") as_str ms
  expiry_tick ← field (codes "expiry_tick") as_num ms
  some (record { action = action; idempotency_key = idempotency_key; expiry_tick = expiry_tick })

unfoldable pub read_error : Json → Option ErrorInfo
unfolding field as_str
read_error v = do
  ms ← as_obj v
  code ← field (codes "code") as_str ms
  message ← field (codes "message") as_str ms
  some (record { code = code; message = message })

unfoldable pub read_result : Members → Option CommandResult
unfolding field as_nullable as_num read_error
read_result ms = do
  engine_cost ← field (codes "engine_cost") (as_nullable as_num) ms
  engine_error ← field (codes "engine_error") (as_nullable read_error) ms
  some (record { engine_cost = engine_cost; engine_error = engine_error })

unfoldable pub reasons : List ShutdownReason
reasons = operator_request ∷ fatal_error ∷ watchdog_timeout ∷ []

unfoldable pub read_shutdown : Members → Option Shutdown
unfolding field one_of reasons
read_shutdown ms = do
  reason ← field (codes "reason") (one_of reason_text reasons) ms
  some (record { reason = reason })

unfoldable pub read_heartbeat : Members → Option Heartbeat
unfolding field as_num
read_heartbeat ms = do tick ← field (codes "tick") as_num ms; some (record { tick = tick })

-- The payload of a kind.
unfoldable pub read_payload : Text → Members → Option Payload
unfolding read_hello read_heartbeat read_snapshot read_request read_result read_shutdown text_eq
read_payload kind ms =
    if text_eq kind (codes "hello")
    then read_hello ms >>= (λ p. some (hello p))
    else if text_eq kind (codes "heartbeat")
    then read_heartbeat ms >>= (λ p. some (heartbeat p))
    else if text_eq kind (codes "observation.snapshot")
    then read_snapshot ms >>= (λ p. some (observation_snapshot p))
    else if text_eq kind (codes "command.request")
    then read_request ms >>= (λ p. some (command_request p))
    else if text_eq kind (codes "command.result")
    then read_result ms >>= (λ p. some (command_result p))
    else if text_eq kind (codes "shutdown")
    then read_shutdown ms >>= (λ p. some (shutdown p))
    else if text_eq kind (codes "ack")
    then some (acknowledge ack)
    else none

unfoldable pub as_envelope : Json → Option Envelope
unfolding field as_obj as_str
as_envelope v = do
  ms ← as_obj v
  message_id ← field (codes "message_id") as_str ms
  timestamp ← field (codes "timestamp") as_str ms
  simulation_id ← field (codes "simulation_id") as_str ms
  correlation_id ← field (codes "correlation_id") (as_nullable as_str) ms
  status ← field (codes "status") (as_nullable (one_of status_text (ok ∷ error ∷ []))) ms
  failure ← field (codes "error") (as_nullable read_error) ms
  kind ← field (codes "kind") as_str ms
  members ← field (codes "payload") as_obj ms
  payload ← read_payload kind members
  some (record {
    message_id = message_id;
    timestamp = timestamp;
    simulation_id = simulation_id;
    correlation_id = correlation_id;
    status = status;
    error = failure;
    payload = payload;
  })

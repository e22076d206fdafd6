-- ===== src/Protocol/Write.antt =====
-- The values of types.ts as the objects that the plugin builds, their members in the order in which
-- the source writes them.
use helter_skelter.Prelude.{Text, codes, Option, none, some, List, [], ◌∷◌}
use helter_skelter.Json.{Json, null, num, str, arr, obj, Items, nil, cons, Members, end, member}
use helter_skelter.Protocol.{
  protocol_version, Role, bridge, orchestrator, Hello, ParkDate, RideStatus, opened, closed,
  testing, Ride, StaffCounts, Weather, sunny, partially_cloudy, cloudy, rain, heavy_rain, thunder,
  snow, heavy_snow, ObservationSnapshot, StaffType, CommandAction, set_ride_price,
  set_park_entry_fee, hire_staff, open_ride, close_ride, CommandRequest, ErrorInfo, CommandResult,
  ShutdownReason, operator_request, fatal_error, watchdog_timeout, Payload, hello, heartbeat,
  observation_snapshot, command_request, command_result, shutdown, acknowledge, Status, ok, error,
  Envelope,
}

abbrev pub role_text : Role → Text
role_text bridge = codes "bridge"
role_text orchestrator = codes "orchestrator"

abbrev pub ride_status_text : RideStatus → Text
ride_status_text opened = codes "open"
ride_status_text closed = codes "closed"
ride_status_text testing = codes "testing"

abbrev pub weather_text : Weather → Text
weather_text sunny = codes "sunny"
weather_text partially_cloudy = codes "partially_cloudy"
weather_text cloudy = codes "cloudy"
weather_text rain = codes "rain"
weather_text heavy_rain = codes "heavy_rain"
weather_text thunder = codes "thunder"
weather_text snow = codes "snow"
weather_text heavy_snow = codes "heavy_snow"

abbrev pub staff_type_text : StaffType → Text
staff_type_text StaffType.handyman = codes "handyman"
staff_type_text StaffType.mechanic = codes "mechanic"
staff_type_text StaffType.security = codes "security"
staff_type_text StaffType.entertainer = codes "entertainer"

abbrev pub reason_text : ShutdownReason → Text
reason_text operator_request = codes "operator_request"
reason_text fatal_error = codes "fatal_error"
reason_text watchdog_timeout = codes "watchdog_timeout"

abbrev pub status_text : Status → Text
status_text ok = codes "ok"
status_text error = codes "error"

-- `T | null`.
abbrev pub nullable {ℓ} : {A : Type ℓ} → (A → Json) → Option A → Json
nullable f none = null
nullable f (some a) = f a

unfoldable pub hello_json : Hello → Json
hello_json h = obj (
    member (codes "role") (str (role_text h.role)) (
      member (codes "bridge_version") (str h.bridge_version)
        (member (codes "openrct2_version") (str h.openrct2_version) end)))

unfoldable pub park_date_json : ParkDate → Json
park_date_json d = obj (
    member (codes "year") (num d.year)
      (member (codes "month") (num d.month) (member (codes "day") (num d.day) end)))

unfoldable pub ride_json : Ride → Json
ride_json r = obj (
    member (codes "id") (num r.id) (
      member (codes "name") (str r.name) (
        member (codes "type") (str r.type) (
          member (codes "status") (str (ride_status_text r.status)) (
            member (codes "price") (num r.price) (
              member (codes "queue_length") (num r.queue_length)
                (member (codes "downtime") (num r.downtime) end)))))))

unfoldable pub ride_items : List Ride → Items
ride_items [] = nil
ride_items (r ∷ rs) = cons (ride_json r) (ride_items rs)

unfoldable pub staff_counts_json : StaffCounts → Json
staff_counts_json c = obj (
    member (codes "handyman") (num c.handyman) (
      member (codes "mechanic") (num c.mechanic) (
        member (codes "security") (num c.security)
          (member (codes "entertainer") (num c.entertainer) end))))

unfoldable pub snapshot_json : ObservationSnapshot → Json
unfolding park_date_json staff_counts_json
snapshot_json s = obj (
    member (codes "park_date") (park_date_json s.park_date) (
      member (codes "cash") (num s.cash) (
        member (codes "loan") (num s.loan) (
          member (codes "park_rating") (num s.park_rating) (
            member (codes "guest_count") (num s.guest_count) (
              member (codes "rides") (arr (ride_items s.rides)) (
                member (codes "staff_counts") (staff_counts_json s.staff_counts)
                  (member (codes "weather") (str (weather_text s.weather)) end))))))))

abbrev pub action_text : CommandAction → Text
action_text (set_ride_price ride_id price) = codes "set_ride_price"
action_text (set_park_entry_fee price) = codes "set_park_entry_fee"
action_text (hire_staff type) = codes "hire_staff"
action_text (open_ride ride_id) = codes "open_ride"
action_text (close_ride ride_id) = codes "close_ride"

abbrev pub params : CommandAction → Members
params (set_ride_price ride_id price) =
    member (codes "ride_id") (num ride_id) (member (codes "price") (num price) end)
params (set_park_entry_fee price) = member (codes "price") (num price) end
params (hire_staff type) = member (codes "type") (str (staff_type_text type)) end
params (open_ride ride_id) = member (codes "ride_id") (num ride_id) end
params (close_ride ride_id) = member (codes "ride_id") (num ride_id) end

unfoldable pub request_json : CommandRequest → Json
request_json r = obj (
    member (codes "action") (str (action_text r.action)) (
      member (codes "params") (obj (params r.action)) (
        member (codes "idempotency_key") (str r.idempotency_key)
          (member (codes "expiry_tick") (num r.expiry_tick) end))))

unfoldable pub error_json : ErrorInfo → Json
error_json e =
    obj (member (codes "code") (str e.code) (member (codes "message") (str e.message) end))

unfoldable pub result_json : CommandResult → Json
unfolding error_json
result_json r = obj (
    member (codes "engine_cost") (nullable num r.engine_cost)
      (member (codes "engine_error") (nullable error_json r.engine_error) end))

abbrev pub kind_text : Payload → Text
kind_text (hello p) = codes "hello"
kind_text (heartbeat p) = codes "heartbeat"
kind_text (observation_snapshot p) = codes "observation.snapshot"
kind_text (command_request p) = codes "command.request"
kind_text (command_result p) = codes "command.result"
kind_text (shutdown p) = codes "shutdown"
kind_text (acknowledge p) = codes "ack"

unfoldable pub payload_json : Payload → Json
unfolding hello_json snapshot_json request_json result_json
payload_json (hello p) = hello_json p
payload_json (heartbeat p) = obj (member (codes "tick") (num p.tick) end)
payload_json (observation_snapshot p) = snapshot_json p
payload_json (command_request p) = request_json p
payload_json (command_result p) = result_json p
payload_json (shutdown p) = obj (member (codes "reason") (str (reason_text p.reason)) end)
payload_json (acknowledge p) = obj end

abbrev pub status_json : Status → Json
status_json s = str (status_text s)

-- The members in the order of `makeEnvelope`: the kind and the payload, spread last, follow.
unfoldable pub envelope_json : Envelope → Json
envelope_json e = obj (
    member (codes "protocol_version") (str protocol_version) (
      member (codes "message_id") (str e.message_id) (
        member (codes "timestamp") (str e.timestamp) (
          member (codes "simulation_id") (str e.simulation_id) (
            member (codes "correlation_id") (nullable str e.correlation_id) (
              member (codes "status") (nullable status_json e.status) (
                member (codes "error") (nullable error_json e.error) (
                  member (codes "kind") (str (kind_text e.payload))
                    (member (codes "payload") (payload_json e.payload) end)))))))))

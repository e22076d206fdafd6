-- ===== src/Protocol/RoundTrip.antt =====
-- Every message that the plugin builds is read back as itself.
use helter_skelter.Prelude.{Text, Option, none, some, List, [], ◌∷◌, ◌≡◌, refl}
use helter_skelter.Prelude.Int.{ℤ}
use helter_skelter.Json.{str}
use helter_skelter.Json.Parse.{◌>>=◌}
use helter_skelter.Json.RoundTrip.{parse-stringify}
use helter_skelter.Protocol.{
  Role, bridge, orchestrator, Hello, RideStatus, opened, closed, Shutdown, ack, testing, Ride,
  Weather, sunny, partially_cloudy, cloudy, rain, heavy_rain, thunder, snow, heavy_snow,
  ObservationSnapshot, StaffType, CommandAction, set_ride_price, set_park_entry_fee, hire_staff,
  open_ride, close_ride, CommandRequest, ErrorInfo, CommandResult, ShutdownReason, operator_request,
  fatal_error, watchdog_timeout, Payload, hello, heartbeat, observation_snapshot, command_request,
  command_result, shutdown, acknowledge, Status, ok, error, Envelope,
}
use helter_skelter.Protocol.Write.{
  nullable, status_json, ride_status_text, weather_text, status_text, hello_json, ride_json,
  ride_items, snapshot_json, request_json, error_json, result_json, payload_json, envelope_json,
  action_text, params, kind_text,
}
use helter_skelter.Protocol.Read.{
  one_of, as_nullable, as_obj, as_str, read_ride, read_rides, weathers, read_action, read_error,
  read_payload, as_envelope,
}
use helter_skelter.Protocol.Codec.{encode_envelope, decode_envelope}

one_of-ride_status :
    (s : RideStatus)
    → one_of ride_status_text (opened ∷ closed ∷ testing ∷ []) (str (ride_status_text s)) ≡ some s
unfolding one_of
one_of-ride_status opened = refl
one_of-ride_status closed = refl
one_of-ride_status testing = refl

one_of-weather : (w : Weather) → one_of weather_text weathers (str (weather_text w)) ≡ some w
unfolding one_of weathers
one_of-weather sunny = refl
one_of-weather partially_cloudy = refl
one_of-weather cloudy = refl
one_of-weather rain = refl
one_of-weather heavy_rain = refl
one_of-weather thunder = refl
one_of-weather snow = refl
one_of-weather heavy_snow = refl

read_ride-ride_json : (r : Ride) → read_ride (ride_json r) ≡ some r
unfolding read_ride ride_json
read_ride-ride_json r = rw (one_of-ride_status r.status) refl

read_rides-ride_items : (rs : List Ride) → read_rides (ride_items rs) ≡ some rs
unfolding read_rides ride_items
read_rides-ride_items [] = refl
read_rides-ride_items (r ∷ rs) = rw (read_ride-ride_json r) (rw (read_rides-ride_items rs) refl)

read_action-params : (a : CommandAction) → read_action (action_text a) (params a) ≡ some a
unfolding read_action
read_action-params (set_ride_price ride_id price) = refl
read_action-params (set_park_entry_fee price) = refl
read_action-params (hire_staff StaffType.handyman) = refl
read_action-params (hire_staff StaffType.mechanic) = refl
read_action-params (hire_staff StaffType.security) = refl
read_action-params (hire_staff StaffType.entertainer) = refl
read_action-params (open_ride ride_id) = refl
read_action-params (close_ride ride_id) = refl

read_error-error_json : (e : ErrorInfo) → read_error (error_json e) ≡ some e
unfolding read_error error_json as_obj
read_error-error_json e = refl

-- The payload part of a message, written and read.
read_payload_of : Payload → Option Payload
unfolding as_obj payload_json
read_payload_of p = as_obj (payload_json p) >>= read_payload (kind_text p)

read_payload-snapshot :
    (s : ObservationSnapshot)
    → read_payload_of (observation_snapshot s) ≡ some (observation_snapshot s)
unfolding read_payload_of read_payload snapshot_json
read_payload-snapshot s = rw (read_rides-ride_items s.rides) (rw (one_of-weather s.weather) refl)

read_payload-request :
    (r : CommandRequest) → read_payload_of (command_request r) ≡ some (command_request r)
unfolding read_payload_of read_payload request_json
read_payload-request r = rw (read_action-params r.action) refl

read_payload-result :
    (r : CommandResult) → read_payload_of (command_result r) ≡ some (command_result r)
unfolding read_payload_of read_payload result_json
read_payload-result r = by_parts r.engine_cost r.engine_error
  where
    by_parts :
        (c : Option ℤ) (e : Option ErrorInfo)
        → read_payload_of (command_result (record { engine_cost = c; engine_error = e }))
          ≡ some (command_result (record { engine_cost = c; engine_error = e }))
    by_parts none none = refl
    by_parts none (some e) = refl
    by_parts (some c) none = refl
    by_parts (some c) (some e) = refl

read_payload-hello : (h : Hello) → read_payload_of (hello h) ≡ some (hello h)
unfolding read_payload_of read_payload hello_json
read_payload-hello h = by_role h.role
  where
    by_role :
        (r : Role)
        → read_payload_of (hello (record h { role = r })) ≡ some (hello (record h { role = r }))
    by_role bridge = refl
    by_role orchestrator = refl

read_payload-shutdown : (s : Shutdown) → read_payload_of (shutdown s) ≡ some (shutdown s)
unfolding read_payload_of read_payload
read_payload-shutdown s = by_reason s.reason
  where
    by_reason :
        (r : ShutdownReason)
        → read_payload_of (shutdown (record { reason = r }))
          ≡ some (shutdown (record { reason = r }))
    by_reason operator_request = refl
    by_reason fatal_error = refl
    by_reason watchdog_timeout = refl

read_payload-payload_json : (p : Payload) → read_payload_of p ≡ some p
read_payload-payload_json (hello h) = read_payload-hello h
read_payload-payload_json (heartbeat h) = unfold read_payload_of read_payload in refl
read_payload-payload_json (observation_snapshot s) = read_payload-snapshot s
read_payload-payload_json (command_request r) = read_payload-request r
read_payload-payload_json (command_result r) = read_payload-result r
read_payload-payload_json (shutdown s) = read_payload-shutdown s
read_payload-payload_json (acknowledge ack) = unfold read_payload_of read_payload in refl

>>=-eq-some :
    {A B : Type 0} (m : Option A) (f : A → Option B) (b : B)
    → (m >>= f) ≡ some b
    → (a : A) × (m ≡ some a) × (f a ≡ some b)
>>=-eq-some none f b h = cc
>>=-eq-some (some a) f b h = (a, refl, h)

correlation-read : (o : Option Text) → as_nullable as_str (nullable str o) ≡ some o
unfolding as_nullable as_str
correlation-read none = refl
correlation-read (some t) = refl

status-read :
    (o : Option Status)
    → as_nullable (one_of status_text (ok ∷ error ∷ [])) (nullable status_json o) ≡ some o
unfolding as_nullable one_of
status-read none = refl
status-read (some ok) = refl
status-read (some error) = refl

error-read : (o : Option ErrorInfo) → as_nullable read_error (nullable error_json o) ≡ some o
unfolding as_nullable error_json
error-read none = refl
error-read (some e) = rw (read_error-error_json e) refl

pub as_envelope-envelope_json : (e : Envelope) → as_envelope (envelope_json e) ≡ some e
as_envelope-envelope_json e =
    let (ms, object, read) =
      >>=-eq-some (as_obj (payload_json e.payload)) (read_payload (kind_text e.payload)) e.payload
        (unfold read_payload_of in read_payload-payload_json e.payload) in
    unfold as_envelope envelope_json in
    rw (correlation-read e.correlation_id)
      (rw (status-read e.status) (rw (error-read e.error) (rw object (rw read refl))))

-- Decoding what was encoded gives the message back, read at its type.
pub decode_envelope-encode_envelope :
    (e : Envelope) → (decode_envelope (encode_envelope e) >>= as_envelope) ≡ some e
unfolding decode_envelope encode_envelope
decode_envelope-encode_envelope e =
    rw (parse-stringify (envelope_json e)) (as_envelope-envelope_json e)

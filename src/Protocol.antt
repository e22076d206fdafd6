-- ===== src/Protocol.antt =====
-- bridge/openrct2-plugin/src/protocol/types.ts: the messages of the wire. A union of string literals
-- is an enumeration, `null` is `none`, and a `number` is an integer, as the schemas of
-- bridge/protocol demand. `opened` is the source's "open", which is no name here.
pub mod Write
pub mod Read
pub mod Validate
pub mod Codec
pub mod RoundTrip
use helter_skelter.Prelude.{Text, codes, Option, List}
use helter_skelter.Prelude.Int.{ℤ}

abbrev pub protocol_version : Text
protocol_version = codes "0.1.0"

pub data Role : Type 0 where
  bridge orchestrator : Role

pub record Hello : Type 0 where
  pub role : Role
  pub bridge_version : Text
  pub openrct2_version : Text

pub record Heartbeat : Type 0 where
  pub tick : ℤ

pub record ParkDate : Type 0 where
  pub year : ℤ
  pub month : ℤ
  pub day : ℤ

pub data RideStatus : Type 0 where
  opened closed testing : RideStatus

pub record Ride : Type 0 where
  pub id : ℤ
  pub name : Text
  pub type : Text
  pub status : RideStatus
  pub price : ℤ
  pub queue_length : ℤ
  pub downtime : ℤ

pub record StaffCounts : Type 0 where
  pub handyman : ℤ
  pub mechanic : ℤ
  pub security : ℤ
  pub entertainer : ℤ

pub data Weather : Type 0 where
  sunny partially_cloudy cloudy rain heavy_rain thunder snow heavy_snow : Weather

pub record ObservationSnapshot : Type 0 where
  pub park_date : ParkDate
  pub cash : ℤ
  pub loan : ℤ
  pub park_rating : ℤ
  pub guest_count : ℤ
  pub rides : List Ride
  pub staff_counts : StaffCounts
  pub weather : Weather

pub data StaffType : Type 0 where
  handyman mechanic security entertainer : StaffType

pub data CommandAction : Type 0 where
  set_ride_price : (ride_id price : ℤ) → CommandAction
  set_park_entry_fee : (price : ℤ) → CommandAction
  hire_staff : (type : StaffType) → CommandAction
  open_ride : (ride_id : ℤ) → CommandAction
  close_ride : (ride_id : ℤ) → CommandAction

-- `CommandAction & { idempotency_key; expiry_tick }`.
pub record CommandRequest : Type 0 where
  pub action : CommandAction
  pub idempotency_key : Text
  pub expiry_tick : ℤ

pub record ErrorInfo : Type 0 where
  pub code : Text
  pub message : Text

pub record CommandResult : Type 0 where
  pub engine_cost : Option ℤ
  pub engine_error : Option ErrorInfo

pub data ShutdownReason : Type 0 where
  operator_request fatal_error watchdog_timeout : ShutdownReason

pub record Shutdown : Type 0 where
  pub reason : ShutdownReason

-- An ack's payload is the empty object.
pub data Ack : Type 0 where
  ack : Ack

pub data Payload : Type 0 where
  hello : Hello → Payload
  heartbeat : Heartbeat → Payload
  observation_snapshot : ObservationSnapshot → Payload
  command_request : CommandRequest → Payload
  command_result : CommandResult → Payload
  shutdown : Shutdown → Payload
  acknowledge : Ack → Payload

pub data Status : Type 0 where
  ok error : Status

-- `Payload & { protocol_version; … }`, with the version a constant of the type.
pub record Envelope : Type 0 where
  pub message_id : Text
  pub timestamp : Text
  pub simulation_id : Text
  pub correlation_id : Option Text
  pub status : Option Status
  pub error : Option ErrorInfo
  pub payload : Payload

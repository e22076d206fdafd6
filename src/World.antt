-- ===== src/World.antt =====
-- core/world-model/src/lib.rs, and the snapshot of core/common/src/protocol/messages.rs that it holds: the
-- orchestrator's view of the park. Numbers are natural numbers and integers within their widths. The
-- weather, the date and the staff, which nothing here reads, are the plugin's types.
use helter_skelter.Prelude.{
  ℕ, Text, Option, none, some, List, [], ◌∷◌, ◌++◌, length, ltb, if◌then◌else◌,
}
use helter_skelter.Prelude.Int.{ℤ}
use helter_skelter.Protocol.{RideStatus, ParkDate, StaffCounts, Weather}

pub record ObservedRide : Type 0 where
  pub id : ℕ
  pub name : Text
  pub kind : Text
  pub status : RideStatus
  pub price : ℕ
  pub queue_length : ℕ
  pub downtime : ℕ

pub record Observed : Type 0 where
  pub park_date : ParkDate
  pub cash : ℤ
  pub loan : ℕ
  pub park_rating : ℕ
  pub guest_count : ℕ
  pub rides : List ObservedRide
  pub staff_counts : StaffCounts
  pub weather : Weather

-- The history is oldest first.
pub record WorldModel : Type 0 where
  pub history : List Observed
  pub tick : Option ℕ

abbrev pub max_history : ℕ
max_history = 64

unfoldable pub empty : WorldModel
empty = record { history = []; tick = none }

-- The loop that drops the oldest while there are too many.
unfoldable pub evict : List Observed → List Observed
evict [] = []
evict (s ∷ ss) = let rest = evict ss in if ltb max_history (length (s ∷ ss)) then rest else s ∷ ss

unfoldable pub record_snapshot : Observed → WorldModel → WorldModel
record_snapshot s w = record w { history = evict (w.history ++ (s ∷ [])) }

unfoldable pub record_tick : ℕ → WorldModel → WorldModel
record_tick t w = record w { tick = some t }

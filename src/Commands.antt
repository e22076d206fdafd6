-- ===== src/Commands.antt =====
-- bridge/openrct2-plugin/src/commands.ts: a command.request becomes a game action, which is queried
-- and then executed, with the results recorded by idempotency key. The game's answers are arguments.
pub mod Cache
pub mod Mapping
pub mod Handler
pub mod Replay
pub mod Machine
use helter_skelter.Prelude.{ℕ, Text, codes, text_eq, if◌then◌else◌, true, Option, none, some, []}
use helter_skelter.Prelude.Int.{ℤ, pos}
use helter_skelter.Json.{num, bool, Members, end, member}
use helter_skelter.Json.Stringify.{print_num}
use helter_skelter.Protocol.{
  CommandAction, set_ride_price, set_park_entry_fee, hire_staff, open_ride, close_ride, ErrorInfo,
}
use helter_skelter.Protocol.Write.{staff_type_text}

-- An optional field that is absent is `none`.
pub record GameActionResult : Type 0 where
  pub error : Option ℤ
  pub error_title : Option Text
  pub error_message : Option Text
  pub cost : Option ℤ

pub record GameAction : Type 0 where
  pub action : Text
  pub args : Members

unfoldable pub staff_type_to_number : Text → ℕ
staff_type_to_number type =
    if text_eq type (codes "handyman")
    then 0
    else if text_eq type (codes "mechanic")
    then 1
    else if text_eq type (codes "security")
    then 2
    else if text_eq type (codes "entertainer")
    then 3
    else 0

unfoldable pub to_game_action : CommandAction → GameAction
to_game_action (set_ride_price ride_id price) = record {
  action = codes "ridesetprice";
  args =
      member (codes "ride") (num ride_id)
        (member (codes "price") (num price) (member (codes "isPrimaryPrice") (bool true) end));
}
to_game_action (set_park_entry_fee price) = record {
  action = codes "parksetentrancefee";
  args = member (codes "value") (num price) end;
}
to_game_action (hire_staff type) = record {
  action = codes "staffhire";
  args = member (codes "autoPosition") (bool true) (
      member (codes "staffType") (num (pos (staff_type_to_number (staff_type_text type)))) (
        member (codes "costumeIndex") (num (pos 0))
          (member (codes "staffOrders") (num (pos 0)) end)));
}
to_game_action (open_ride ride_id) = record {
  action = codes "ridesetstatus";
  args = member (codes "ride") (num ride_id) (member (codes "status") (num (pos 1)) end);
}
to_game_action (close_ride ride_id) = record {
  action = codes "ridesetstatus";
  args = member (codes "ride") (num ride_id) (member (codes "status") (num (pos 0)) end);
}

-- `a ?? b`.
abbrev pub otherwise {ℓ} : {A : Type ℓ} → Option A → A → A
otherwise none b = b
otherwise (some a) b = a

abbrev failure : ℤ → GameActionResult → Option ErrorInfo
failure code result = some (record {
  code = print_num code [];
  message =
      otherwise result.error_message (otherwise result.error_title (codes "unknown engine error"));
})

abbrev failed_with : Option ℤ → GameActionResult → Option ErrorInfo
failed_with none result = none
failed_with (some (ℤ.pos ℕ.zero)) result = none
failed_with (some code) result = failure code result

unfoldable pub to_error_info : GameActionResult → Option ErrorInfo
to_error_info result = failed_with result.error result

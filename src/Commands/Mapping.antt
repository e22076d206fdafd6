-- ===== src/Commands/Mapping.antt =====
-- The mapping of the bounded commands to game actions (bridge/openrct2-plugin/src/commands.ts).
use helter_skelter.Prelude.{ℕ, text_eq, none, some, ◌≡◌, ◌↔◌, ◌⊎◌, refl, ap, arith}
use helter_skelter.Prelude.Int.{pos}
use helter_skelter.Protocol.{CommandAction, hire_staff, StaffType}
use helter_skelter.Protocol.Write.{staff_type_text}
use helter_skelter.Commands.{GameActionResult, staff_type_to_number, to_game_action, to_error_info}

staff_code : StaffType → ℕ
staff_code StaffType.handyman = 0
staff_code StaffType.mechanic = 1
staff_code StaffType.security = 2
staff_code StaffType.entertainer = 3

staff_type_to_number-staff_type_text :
    (t : StaffType) → staff_type_to_number (staff_type_text t) ≡ staff_code t
unfolding staff_type_to_number staff_code text_eq
staff_type_to_number-staff_type_text StaffType.handyman = refl
staff_type_to_number-staff_type_text StaffType.mechanic = refl
staff_type_to_number-staff_type_text StaffType.security = refl
staff_type_to_number-staff_type_text StaffType.entertainer = refl

staff_code_inj : (a b : StaffType) → staff_code a ≡ staff_code b → a ≡ b
unfolding staff_code
staff_code_inj a b h = ground arith

-- Two commands that are sent to the game as one action are one command.
pub to_game_action_inj : (a b : CommandAction) → to_game_action a ≡ to_game_action b → a ≡ b
unfolding to_game_action
to_game_action_inj (hire_staff s) (hire_staff t) h = ap hire_staff (
    staff_code_inj s t (
      ground
        (arith, staff_type_to_number-staff_type_text s, staff_type_to_number-staff_type_text t)))
to_game_action_inj a b h = ground arith

-- The engine's answer is an error exactly when its code is there and is not 0.
to_error_info-eq-none_iff :
    (result : GameActionResult)
    → (to_error_info result ≡ none) ↔ ((result.error ≡ none) ⊎ (result.error ≡ some (pos 0)))
unfolding to_error_info
to_error_info-eq-none_iff result = ground arith

-- ===== src/Json.antt =====
-- JSON values as the bridge exchanges them (JSON.stringify and JSON.parse of the language, which
-- bridge/openrct2-plugin/src/protocol/codec.ts and connection.ts call). An object is the list of its
-- members as written; reading a member takes the last one of that name. Numbers are the integers.
pub mod Stringify
pub mod Parse
mod Scalars
mod Steps
mod Values
pub mod RoundTrip
pub mod Lines
use helter_skelter.Prelude.{Bool, Text, text_eq, if◌then◌else◌, Option, none, some}
use helter_skelter.Prelude.Int.{ℤ}

mutual
  pub data Json : Type 0 where
    null : Json
    bool : Bool → Json
    num : ℤ → Json
    str : Text → Json
    arr : Items → Json
    obj : Members → Json

  pub data Items : Type 0 where
    nil : Items
    cons : Json → Items → Items

  pub data Members : Type 0 where
    end : Members
    member : Text → Json → Members → Members

-- The last member of a name; `none` is `undefined`.
unfoldable pub get : Text → Members → Option Json
get k end = none
get k (member j v ms) = elim (get k ms) [
  | some w ↦ some w
  | none ↦ if text_eq j k then some v else none
]

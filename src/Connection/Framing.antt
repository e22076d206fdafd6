-- ===== src/Connection/Framing.antt =====
-- `onData` and `handleLine` of bridge/openrct2-plugin/src/connection.ts: the byte stream is cut into
-- lines, and each line is parsed and dispatched.
pub mod Lines
pub mod Loop
pub mod Ends
pub mod Chunks
pub mod Messages
use helter_skelter.Prelude.{
  ℕ, zero, suc, ◌+◌, Bool, true, false, ◌&&◌, ◌||◌, Text, codes, text_eq, Option, none, some, List,
  [], ◌∷◌, ◌++◌, take, drop, length, leb, ◌==◌, if◌then◌else◌,
}
use helter_skelter.Json.{Json, null, str, obj, get}
use helter_skelter.Json.Parse.{parse}

-- `text.indexOf("\n")`, with `none` for -1.
unfoldable pub index_of_newline : Text → Option ℕ
index_of_newline [] = none
index_of_newline (c ∷ s) = elim (c == 10) [
  | true ↦ some 0
  | false ↦ elim (index_of_newline s) [ none ↦ none | some i ↦ some (suc i) ]
]

-- The white space that `trim()` removes.
abbrev is_trimmed : ℕ → Bool
is_trimmed c =
    (leb 9 c && leb c 13)
    || c == 32
    || c == 160
    || c == 5760
    || (leb 8192 c && leb c 8202)
    || c == 8232
    || c == 8233
    || c == 8239
    || c == 8287
    || c == 12288
    || c == 65279

-- `line.trim().length === 0`.
unfoldable pub is_blank : Text → Bool
is_blank [] = true
is_blank (c ∷ s) = is_trimmed c && is_blank s

-- What becomes of a line: handed to the caller's handler, logged, or an exception.
pub data Outcome : Type 0 where
  dispatched : Json → Outcome
  logged : Outcome
  threw : Outcome

abbrev kind_is : Text → Option Json → Bool
kind_is kind (some (str s)) = text_eq s kind
kind_is kind _ = false

-- `envelope.kind` throws on null, outside the `try` of the parsing; on any other value that is no
-- object it is undefined.
unfoldable pub handle_envelope : Json → Outcome
unfolding get text_eq
handle_envelope null = threw
handle_envelope (obj ms) =
    if kind_is (codes "command.request") (get (codes "kind") ms)
    then dispatched (obj ms)
    else logged
handle_envelope _ = logged

unfoldable pub handle_line : Text → Outcome
handle_line line = elim (parse line) [ none ↦ logged | some envelope ↦ handle_envelope envelope ]

-- What one data event leaves: the outcomes of its lines, the inbound buffer, and whether an exception
-- left the loop.
pub record Drained : Type 0 where
  pub outcomes : List Outcome
  pub inbound_buffer : Text
  pub thrown : Bool

abbrev pub and_then : Outcome → Drained → Drained
and_then o d = record d { outcomes = o ∷ d.outcomes }

-- One line, with the text behind it and what the rest of the loop does.
unfoldable pub settle : Text → Text → Drained → Drained
settle line rest later = if is_blank line then later else elim (handle_line line) [
  | threw ↦ record { outcomes = threw ∷ []; inbound_buffer = rest; thrown = true }
  | o ↦ and_then o later
]

-- The `while` loop, a round for each unit of fuel.
unfoldable pub drain : ℕ → Text → Drained
drain zero buffer = record { outcomes = []; inbound_buffer = buffer; thrown = false }
drain (suc f) buffer = elim (index_of_newline buffer) [
  | none ↦ record { outcomes = []; inbound_buffer = buffer; thrown = false }
  | some i ↦ let rest = drop (i + 1) buffer in settle (take i buffer) rest (drain f rest)
]

-- Each round takes a unit off the buffer at least.
unfoldable pub on_data : Text → Text → Drained
on_data inbound_buffer input =
    let buffer = inbound_buffer ++ input in drain (suc (length buffer)) buffer

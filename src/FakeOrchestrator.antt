-- ===== src/FakeOrchestrator.antt =====
-- scripts/dev/fake-orchestrator.js: the stand-in for the orchestrator, which prints what the bridge sends.
-- A chunk is the text to which it is decoded; the limit is none where `maxMessages` is Infinity or NaN.
-- What is printed is the object; the layout of the print is left out.
pub mod Prints
pub mod Stream
use helter_skelter.Prelude.{
  ℕ, zero, suc, ◌+◌, Bool, true, false, Text, Option, none, some, List, [], ◌∷◌, ◌++◌, take, drop,
  length, leb, if◌then◌else◌,
}
use helter_skelter.Json.{Json, null}
use helter_skelter.Json.Parse.{parse}
use helter_skelter.Connection.Framing.{index_of_newline}

-- One `log` of a message, with its number.
pub data Report : Type 0 where
  message : ℕ → Json → Report
  unparseable : ℕ → Text → Report

-- The `try`: `envelope.kind` throws on null, and is caught.
unfoldable pub report_of : ℕ → Text → Option Json → Report
report_of n line (some null) = unparseable n line
report_of n line (some envelope) = message n envelope
report_of n line none = unparseable n line

unfoldable pub report : ℕ → Text → Report
unfolding report_of
report n line = report_of n line (parse line)

-- `messageCount >= maxMessages`.
abbrev pub is_reached : Option ℕ → ℕ → Bool
is_reached none count = false
is_reached (some most) count = leb most count

-- What a data event leaves: what it printed, the buffer, the count, and whether the process has ended.
pub record Collected : Type 0 where
  pub reports : List Report
  pub buffer : Text
  pub message_count : ℕ
  pub exited : Bool

abbrev pub and_then : Report → Collected → Collected
and_then r c = record c { reports = r ∷ c.reports }

-- A line, with the text behind it, the count before it, and what the loop does after it, from the count
-- that it is given.
unfoldable pub count_line : Option ℕ → Text → Text → ℕ → (ℕ → Collected) → Collected
count_line limit [] rest count later = later count
count_line limit (c ∷ line) rest count later =
    if is_reached limit (count + 1)
    then record {
      reports = report (count + 1) (c ∷ line) ∷ [];
      buffer = rest;
      message_count = count + 1;
      exited = true;
    }
    else and_then (report (count + 1) (c ∷ line)) (later (count + 1))

-- The `for` loop, a round for each unit of fuel.
unfoldable pub collect : ℕ → Option ℕ → Text → ℕ → Collected
collect zero limit buffer count = record {
  reports = [];
  buffer = buffer;
  message_count = count;
  exited = false;
}
collect (suc f) limit buffer count = elim (index_of_newline buffer) [
  | none ↦ record { reports = []; buffer = buffer; message_count = count; exited = false }
  | some i ↦
      let rest = drop (i + 1) buffer in
      count_line limit (take i buffer) rest count (collect f limit rest)
]

-- The handler of "data".
unfoldable pub on_chunk : Option ℕ → Text → Text → ℕ → Collected
on_chunk limit buffer chunk count =
    let text = buffer ++ chunk in collect (suc (length text)) limit text count

-- The data events of one connection, until the process ends.
unfoldable pub read_chunks : Option ℕ → Text → ℕ → List Text → Collected
read_chunks limit buffer count [] = record {
  reports = [];
  buffer = buffer;
  message_count = count;
  exited = false;
}
read_chunks limit buffer count (chunk ∷ chunks) =
    let c = on_chunk limit buffer chunk count in
    elim c.exited [
      | true ↦ c
      | false ↦
          let later = read_chunks limit c.buffer c.message_count chunks in
          record later { reports = c.reports ++ later.reports }
    ]

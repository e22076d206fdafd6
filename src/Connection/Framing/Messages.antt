-- ===== src/Connection/Framing/Messages.antt =====
-- A stream of encoded messages through the framing of bridge/openrct2-plugin/src/connection.ts.
use helter_skelter.Prelude.{◌≡◌, ◌≢◌, refl, ap, ◌∙◌, false, Text, List, [], ◌∷◌, map, All, arith}
use helter_skelter.Json.{Json}
use helter_skelter.Json.Lines.{OneLine, stringify-OneLine}
use helter_skelter.Json.Stringify.{stringify}
use helter_skelter.Json.RoundTrip.{parse-stringify}
use helter_skelter.Protocol.{
  Envelope, Payload, command_request, hello, heartbeat, observation_snapshot, command_result,
  shutdown, acknowledge,
}
use helter_skelter.Protocol.Write.{envelope_json}
use helter_skelter.Protocol.Codec.{encode_envelope}
use helter_skelter.Connection.Framing.{
  Outcome, dispatched, logged, threw, is_blank, handle_envelope, handle_line,
}
use helter_skelter.Connection.Framing.Lines.{split_lines, split_lines-unlines, unlines}
use helter_skelter.Connection.Framing.Loop.{outcomes_of, NeverThrows}
use helter_skelter.Connection.Framing.Chunks.{feed, concat, feed_lem}

abbrev outcome_for : Payload → Json → Outcome
outcome_for (command_request p) v = dispatched v
outcome_for _ v = logged

-- A command.request is dispatched, any other message is logged.
abbrev pub outcome_of : Envelope → Outcome
outcome_of e = outcome_for e.payload (envelope_json e)

-- The messages as they are written: each encoded and closed by a newline.
abbrev pub stream : List Envelope → Text
stream es = unlines (map encode_envelope es) []

handle_envelope-envelope_json : (e : Envelope) → handle_envelope (envelope_json e) ≡ outcome_of e
unfolding handle_envelope envelope_json
handle_envelope-envelope_json e = by_payload e.payload
  where
    by_payload :
        (p : Payload)
        → handle_envelope (envelope_json (record e { payload = p }))
          ≡ outcome_of (record e { payload = p })
    by_payload (hello p) = refl
    by_payload (heartbeat p) = refl
    by_payload (observation_snapshot p) = refl
    by_payload (command_request p) = refl
    by_payload (command_result p) = refl
    by_payload (shutdown p) = refl
    by_payload (acknowledge p) = refl

pub handle_line-encode_envelope : (e : Envelope) → handle_line (encode_envelope e) ≡ outcome_of e
unfolding handle_line encode_envelope
handle_line-encode_envelope e =
    rw (parse-stringify (envelope_json e), handle_line) (handle_envelope-envelope_json e)

encode_envelope-OneLine : (e : Envelope) → OneLine (encode_envelope e)
unfolding encode_envelope
encode_envelope-OneLine e = stringify-OneLine (envelope_json e)

encode_envelope-not_blank : (e : Envelope) → is_blank (encode_envelope e) ≡ false
unfolding encode_envelope envelope_json stringify is_blank
encode_envelope-not_blank e = refl

outcome_of-ne-threw : (e : Envelope) → outcome_of e ≢ threw
outcome_of-ne-threw e = by_payload e.payload
  where
    by_payload : (p : Payload) → outcome_for p (envelope_json e) ≢ threw
    by_payload p h = ground arith

lines-OneLine : (es : List Envelope) → All OneLine (map encode_envelope es)
lines-OneLine [] = tt
lines-OneLine (e ∷ es) = (encode_envelope-OneLine e, lines-OneLine es)

lines-NeverThrows : (es : List Envelope) → NeverThrows (map encode_envelope es)
lines-NeverThrows [] = tt
lines-NeverThrows (e ∷ es) =
    (rw (handle_line-encode_envelope e) (outcome_of-ne-threw e), lines-NeverThrows es)

outcomes_of-messages :
    (es : List Envelope) → outcomes_of (map encode_envelope es) ≡ map outcome_of es
unfolding outcomes_of
outcomes_of-messages [] = refl
outcomes_of-messages (e ∷ es) =
    rw (encode_envelope-not_blank e)
      (rw (handle_line-encode_envelope e) (rw (outcomes_of-messages es) refl))

pub split_lines-stream :
    (es : List Envelope) → split_lines (stream es) ≡ (map encode_envelope es, [])
split_lines-stream es = split_lines-unlines (map encode_envelope es) [] (lines-OneLine es) tt

-- If the data events make up a stream of encoded messages, then from an empty buffer each message has
-- its outcome, in order, however the stream is cut, and the buffer is empty at the end: every
-- command.request is handed on as the very object that was encoded, every other message is logged.
pub feed-stream :
    (es : List Envelope) (inputs : List Text)
    → concat inputs ≡ stream es
    → feed [] inputs ≡ (map outcome_of es, [])
feed-stream es inputs h =
    let cut : split_lines (concat inputs) ≡ (map encode_envelope es, []) =
      ap split_lines h ∙ split_lines-stream es in
    feed_lem inputs [] tt (rw cut (lines-NeverThrows es))
    ∙ rw cut (ap (λ os. (os, [])) (outcomes_of-messages es))

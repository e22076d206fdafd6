-- ===== src/Plugin/Requests/Delivered.antt =====
-- From the stream to the handler: which requests bridge/openrct2-plugin/src/index.ts hands on.
use helter_skelter.Prelude.{◌≡◌, refl, sym, ap, ◌∙◌, Text, some, List, [], ◌∷◌, append-nil, map}
use helter_skelter.Protocol.{
  Envelope, Payload, hello, heartbeat, observation_snapshot, command_request, command_result,
  shutdown, acknowledge, CommandRequest,
}
use helter_skelter.Protocol.Write.{envelope_json}
use helter_skelter.Protocol.RoundTrip.{as_envelope-envelope_json}
use helter_skelter.Connection.Framing.{on_data}
use helter_skelter.Connection.Framing.Chunks.{feed, concat}
use helter_skelter.Connection.Framing.Messages.{stream, outcome_of, feed-stream}
use helter_skelter.Plugin.Requests.{as_request, requests_of}

abbrev with_request : Text → Payload → List (Text × CommandRequest) → List (Text × CommandRequest)
with_request id (command_request r) rs = (id, r) ∷ rs
with_request id _ rs = rs

-- The requests among messages, each with the identifier of its message.
abbrev pub requests_among : List Envelope → List (Text × CommandRequest)
requests_among [] = []
requests_among (e ∷ es) = with_request e.message_id e.payload (requests_among es)

as_request-envelope_json :
    (e : Envelope) (r : CommandRequest)
    → e.payload ≡ command_request r
    → as_request (envelope_json e) ≡ some (e.message_id, r)
unfolding as_request
as_request-envelope_json e r h = rw (as_envelope-envelope_json e, as_request) (rw h refl)

requests_of-outcomes : (es : List Envelope) → requests_of (map outcome_of es) ≡ requests_among es
unfolding requests_of
requests_of-outcomes [] = refl
requests_of-outcomes (e ∷ es) = by_payload e.payload (requests_of-outcomes es)
  where
    by_payload :
        (p : Payload)
        → requests_of (map outcome_of es) ≡ requests_among es
        → requests_of (map outcome_of (record e { payload = p } ∷ es))
          ≡ with_request e.message_id p (requests_among es)
    by_payload (hello p) h = h
    by_payload (heartbeat p) h = h
    by_payload (observation_snapshot p) h = h
    by_payload (command_request p) h =
        rw (as_request-envelope_json (record e { payload = command_request p }) p refl)
          (ap (λ rs. (e.message_id, p) ∷ rs) h)
    by_payload (command_result p) h = h
    by_payload (shutdown p) h = h
    by_payload (acknowledge p) h = h

-- If the data events make up a stream of encoded messages, then however it is cut, the requests that are
-- handed to the handler are those of the command.request messages, in order, each read as it was sent and
-- with the identifier of its message.
pub feed-requests :
    (es : List Envelope) (inputs : List Text)
    → concat inputs ≡ stream es
    → requests_of (feed [] inputs).0 ≡ requests_among es
feed-requests es inputs h =
    ap (λ f. requests_of f.0) (feed-stream es inputs h) ∙ requests_of-outcomes es

pub on_data-requests :
    (es : List Envelope) → requests_of (on_data [] (stream es)).outcomes ≡ requests_among es
on_data-requests es =
    ap requests_of (sym (append-nil (on_data [] (stream es)).outcomes))
    ∙ unfold feed in feed-requests es (stream es ∷ []) (append-nil (stream es))

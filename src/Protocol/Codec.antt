-- ===== src/Protocol/Codec.antt =====
-- bridge/openrct2-plugin/src/protocol/codec.ts.
use helter_skelter.Prelude.{Text, Option}
use helter_skelter.Json.{Json}
use helter_skelter.Json.Stringify.{stringify}
use helter_skelter.Json.Parse.{parse}
use helter_skelter.Protocol.{Envelope}
use helter_skelter.Protocol.Write.{envelope_json}

unfoldable pub encode_envelope : Envelope → Text
encode_envelope envelope = stringify (envelope_json envelope)

-- `JSON.parse(json) as Envelope`: the cast checks nothing, so the result is the parsed value;
-- `none` where the source throws.
unfoldable pub decode_envelope : Text → Option Json
decode_envelope json = parse json

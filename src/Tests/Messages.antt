-- ===== src/Tests/Messages.antt =====
-- Instances of the theorems about the messages of bridge/openrct2-plugin/src: JSON, envelopes, identifiers
-- and observations.
use helter_skelter.Prelude.{◌≡◌, true, some, arith}
use helter_skelter.Json.Parse.{◌>>=◌}
use helter_skelter.Protocol.Read.{as_envelope}
use helter_skelter.Protocol.Codec.{encode_envelope, decode_envelope}
use helter_skelter.Protocol.RoundTrip.{decode_envelope-encode_envelope}
use helter_skelter.Uuid.{random_uuid_v7}
use helter_skelter.Uuid.Pattern.{matches, uuid_v7_pattern, uuid-matches}
use helter_skelter.Tests.{message, steady}

decode_envelope-encode_envelope_example :
    (decode_envelope (encode_envelope message) >>= as_envelope) ≡ some message
decode_envelope-encode_envelope_example = decode_envelope-encode_envelope message

uuid-matches_example : matches uuid_v7_pattern (random_uuid_v7 steady 1784572210000) ≡ true
uuid-matches_example = uuid-matches steady (λ i. omega arith) 1784572210000 (omega arith)

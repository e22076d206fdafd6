-- ===== src/Tests/Outside.antt =====
-- Instances of the theorems about scripts/dev/fake-orchestrator.js.
use helter_skelter.Prelude.{◌≡◌, refl, false, none, [], ◌∷◌, take, drop}
use helter_skelter.Json.Stringify.{stringify}
use helter_skelter.Protocol.Write.{envelope_json, payload_json}
use helter_skelter.Protocol.Codec.{encode_envelope}
use helter_skelter.Connection.Framing.Messages.{stream}
use helter_skelter.FakeOrchestrator.{read_chunks}
use helter_skelter.FakeOrchestrator.Stream.{messages, read_chunks-stream}
use helter_skelter.Tests.{message}

read_chunks-stream_example :
    let c =
      read_chunks none [] 0
        (take 50 (stream (message ∷ [])) ∷ drop 50 (stream (message ∷ [])) ∷ []) in
    (c.reports ≡ messages 0 (message ∷ [])) × (c.exited ≡ false) × (c.buffer ≡ [])
unfolding encode_envelope envelope_json payload_json stringify
read_chunks-stream_example =
    read_chunks-stream (message ∷ [])
      (take 50 (stream (message ∷ [])) ∷ drop 50 (stream (message ∷ [])) ∷ []) refl

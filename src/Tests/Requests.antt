-- ===== src/Tests/Requests.antt =====
-- Instances of the theorems about bridge/openrct2-plugin/src/index.ts.
use helter_skelter.Prelude.{◌+◌, ◌≡◌, refl, codes, List, [], ◌∷◌, ◌++◌, take, drop, All, arith}
use helter_skelter.Protocol.Codec.{encode_envelope}
use helter_skelter.Connection.Framing.Messages.{stream}
use helter_skelter.Commands.{to_error_info}
use helter_skelter.Commands.Machine.{pick}
use helter_skelter.Commands.Machine
use helter_skelter.Commands.Machine.Once.{idle}
use helter_skelter.Plugin.Requests.{
  Event, timer, opened, closed, tick, input, game, step, run, init,
}
use helter_skelter.Plugin.Requests.Conserved.{came, went, pending, run-conserves}
use helter_skelter.Plugin.Requests.Serves.{IsShown}
use helter_skelter.Plugin.Requests.Correlated.{HasCome, run-correlates}
use helter_skelter.Plugin.Requests.Trace.{view, calls_of, answers_of, machine_events}
use helter_skelter.Plugin.Requests.Machine.{run-refines}
use helter_skelter.Plugin.Requests.Progress.{Answer, answering, run-answers_all}
use helter_skelter.Tests
use helter_skelter.Json.Stringify.{stringify}
use helter_skelter.Protocol.Write.{envelope_json, payload_json}
use helter_skelter.Connection.{new}
use helter_skelter.Connection.Framing.Chunks.{feed}
use helter_skelter.Commands.Cache.{lookup}
use helter_skelter.Commands.Handler.{start, after_query, after_execute}
use helter_skelter.Plugin.Requests.{
  requests_of, on_input, begin_all, begin, respond_all, respond, proceed, on_game,
}
use helter_skelter.Plugin.Requests.Delivered.{requests_among, feed-requests, on_data-requests}
use helter_skelter.Tests.{request, message, fine, moment, network, config}

abbrev events : List Event
events =
    timer network
    ∷ opened network moment (codes "0.5.3")
    ∷ input network (λ i. moment) (stream (message ∷ message ∷ []))
    ∷ tick (Tests.tick 40)
    ∷ game network moment 0 fine
    ∷ closed
    ∷ []

run-conserves_example :
    let r = run events (init config (codes "sim")) in
    came (codes "m-1") r.1 ≡ went (codes "m-1") r.1 + pending (codes "m-1") r.0.waiting
run-conserves_example = run-conserves config (codes "sim") events (codes "m-1")

run-correlates_example :
    let os = (run events (init config (codes "sim"))).1 in
    All (IsShown (codes "sim") (HasCome os)) os
run-correlates_example = run-correlates config (codes "sim") events

run-refines_example :
    let d = run events (init config (codes "sim")) in
    Machine.run (machine_events events (init config (codes "sim"))) idle
    ≡ view d.0 (calls_of d.1 []) (answers_of d.1 [])
run-refines_example = run-refines config (codes "sim") events

abbrev one_request : List Event
one_request =
    input network (λ i. moment) (stream (message ∷ []))
    ∷ game network moment 0 fine
    ∷ game network moment 0 fine
    ∷ []

abbrev answers : List Answer
answers =
    (network, moment, 1, fine)
    ∷ (network, moment, 1, fine)
    ∷ (network, moment, 1, fine)
    ∷ (network, moment, 0, fine)
    ∷ []

abbrev arrival : List Event
arrival = input network (λ i. moment) (stream (message ∷ message ∷ [])) ∷ []

run-answers_all_example :
    let r = run (arrival ++ answering answers) (init config (codes "sim")) in
    (r.0.waiting ≡ []) × (came (codes "m-1") r.1 ≡ went (codes "m-1") r.1)
unfolding init new run step on_input begin_all begin start lookup respond_all on_game pick proceed
    after_query after_execute respond to_error_info
run-answers_all_example =
    run-answers_all config (codes "sim") arrival answers (codes "m-1")
      (rw (on_data-requests (message ∷ message ∷ [])) (omega arith))
      (rw (on_data-requests (message ∷ message ∷ [])) (omega arith))

feed-requests_example :
    requests_of (feed [] (take 50 (stream (message ∷ [])) ∷ drop 50 (stream (message ∷ [])) ∷ [])).0
    ≡ requests_among (message ∷ [])
unfolding encode_envelope envelope_json payload_json stringify
feed-requests_example =
    feed-requests (message ∷ [])
      (take 50 (stream (message ∷ [])) ∷ drop 50 (stream (message ∷ [])) ∷ []) refl

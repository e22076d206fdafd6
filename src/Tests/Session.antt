-- ===== src/Tests/Session.antt =====
-- Instances of the theorems about bridge/openrct2-plugin/src/connection.ts and index.ts.
use helter_skelter.Prelude.{◌≤◌}
use helter_skelter.Connection.{start, connect, Network}
use helter_skelter.Connection.Framing.{drain}
use helter_skelter.Connection.Framing.Ends.{HasEnded, on_data-ends}
use helter_skelter.Connection.Alive.{timers_left, run-never_idle}
use helter_skelter.Connection.Doubled.{run-doubles}
use helter_skelter.Prelude.{
  ◌≡◌, refl, true, codes, some, [], ◌∷◌, ◌++◌, map, take, drop, last_of, All, arith,
}
use helter_skelter.Json.Stringify.{stringify}
use helter_skelter.Json.Parse.{parse}
use helter_skelter.Protocol.Write.{envelope_json, payload_json}
use helter_skelter.Protocol.Codec.{encode_envelope}
use helter_skelter.Connection.{
  connecting, reconnect_in, received, receive, new, on_connect, on_close,
}
use helter_skelter.Connection.Framing.{threw, is_blank, handle_line, handle_envelope, on_data}
use helter_skelter.Connection.Loss.{on_connect-loses, receive-stale, on_data-stops}
use helter_skelter.Connection.Framing.Lines.{split_lines}
use helter_skelter.Connection.Framing.Loop.{outcomes_of}
use helter_skelter.Connection.Framing.Chunks.{feed, feed_lem}
use helter_skelter.Connection.Framing.Messages.{stream, outcome_of, feed-stream}
use helter_skelter.Connection.Events
use helter_skelter.Connection.Bounds.{IsBounded, run-IsBounded}
use helter_skelter.Connection.Outbound.{IsWritten, IsValid, run-IsFramed}
use helter_skelter.Connection.Delivery.{
  snapshot_events, snapshot_line, hello_line, sent, run-offline_opened,
}
use helter_skelter.Plugin.{run_ticks}
use helter_skelter.Plugin.Cadence.{due_lines, run_ticks-offline}
use helter_skelter.Tests.{message, moment, network, unreachable, config, taken, tick}

feed-stream_example :
    feed [] (take 50 (stream (message ∷ [])) ∷ drop 50 (stream (message ∷ [])) ∷ [])
    ≡ (outcome_of message ∷ [], [])
unfolding encode_envelope envelope_json payload_json stringify
feed-stream_example =
    feed-stream (message ∷ [])
      (take 50 (stream (message ∷ [])) ∷ drop 50 (stream (message ∷ [])) ∷ []) refl

run-IsBounded_example :
    IsBounded config
      (Events.run
        (Events.closed ∷ Events.tick_snapshot network moment taken.1 ∷ [])
        (new config (codes "sim"))).0
run-IsBounded_example =
    run-IsBounded config (codes "sim")
      (Events.closed ∷ Events.tick_snapshot network moment taken.1 ∷ []) (omega arith)

run-IsFramed_example :
    All
      (IsWritten (IsValid (codes "sim")))
      (Events.run
        (Events.started network
          ∷ Events.opened network moment (codes "0.4.20")
          ∷ Events.tick_heartbeat network moment 40
          ∷ [])
        (new config (codes "sim"))).1
run-IsFramed_example = run-IsFramed config (codes "sim") (
    Events.started network
    ∷ Events.opened network moment (codes "0.4.20")
    ∷ Events.tick_heartbeat network moment 40
    ∷ [])

run-offline_opened_example :
    let r =
      Events.run
        (snapshot_events network (taken ∷ taken ∷ taken ∷ [])
          ++ (Events.timer network ∷ Events.opened network moment (codes "0.4.20") ∷ []))
        (new config (codes "sim")) in
    (r.1
      ≡ connecting 7
        ∷ sent 7 (
            hello_line moment (codes "sim") (codes "0.4.20")
            ∷ last_of 2 (map (snapshot_line (codes "sim")) (taken ∷ taken ∷ taken ∷ []))))
    × (r.0.snapshot_buffer ≡ [])
run-offline_opened_example =
    run-offline_opened config (codes "sim") network 7 (taken ∷ taken ∷ taken ∷ []) moment
      (codes "0.4.20") refl refl (λ line. refl)

run_ticks-offline_example :
    run_ticks (tick 0 ∷ tick 40 ∷ tick 400 ∷ []) (new config (codes "sim")) ≡ (
      record (new config (codes "sim")) {
        snapshot_buffer =
            last_of 2 (due_lines 400 (codes "sim") (tick 0 ∷ tick 40 ∷ tick 400 ∷ []));
      },
      [],
    )
run_ticks-offline_example =
    run_ticks-offline config (codes "sim") (tick 0 ∷ tick 40 ∷ tick 400 ∷ [])

feed_lem_example : feed (codes "{\"a\"") (codes ":1}\nx" ∷ codes "\n \n{" ∷ []) ≡ (
  outcomes_of (split_lines (codes "{\"a\":1}\nx\n \n{")).0,
  (split_lines (codes "{\"a\":1}\nx\n \n{")).1,
)
unfolding split_lines handle_line parse handle_envelope
feed_lem_example =
    feed_lem (codes ":1}\nx" ∷ codes "\n \n{" ∷ []) (codes "{\"a\"")
      ((omega arith), ((omega arith), ((omega arith), ((omega arith), tt))))
      ((ground arith), ((ground arith), ((ground arith), tt)))

on_connect-loses_example :
    let c = record (new config (codes "sim")) {
      socket = some 7;
      snapshot_buffer = codes "held" ∷ [];
    } in
    ((on_connect unreachable moment (codes "0.4.20") c).1 ≡ [])
    × ((on_connect unreachable moment (codes "0.4.20") c).0.snapshot_buffer ≡ [])
on_connect-loses_example =
    on_connect-loses unreachable moment (codes "0.4.20")
      (record (new config (codes "sim")) { socket = some 7; snapshot_buffer = codes "held" ∷ [] })
      (λ s l. refl)

receive-stale_example :
    (receive
      (codes ":1}" ++ (10 ∷ []))
      (on_close (receive (codes "{\"a\"") (new config (codes "sim"))).0).0).1
    ≡ received (handle_line (codes "{\"a\"" ++ codes ":1}") ∷ []) ∷ []
unfolding new is_blank handle_line parse handle_envelope
receive-stale_example =
    receive-stale (new config (codes "sim")) (codes "{\"a\"") (codes ":1}") refl
      ((omega arith), ((omega arith), ((omega arith), ((omega arith), tt))))
      ((omega arith), ((omega arith), ((omega arith), tt))) refl (ground arith)

on_data-stops_example :
    on_data [] (codes "null" ++ (10 ∷ codes "{}\n"))
    ≡ record { outcomes = threw ∷ []; inbound_buffer = codes "{}\n"; thrown = true }
unfolding is_blank handle_line parse handle_envelope
on_data-stops_example =
    on_data-stops (codes "null") (codes "{}\n")
      ((omega arith), ((omega arith), ((omega arith), ((omega arith), tt)))) refl refl

run-never_idle_example :
    1 ≤ timers_left 0 (Events.started network ∷ Events.closed ∷ []) (new config (codes "sim"))
unfolding Events.run Events.step start connect on_close
run-never_idle_example = run-never_idle config (codes "sim") network (Events.closed ∷ []) refl

on_data-ends_example :
    (drain 100 (codes "{" ++ codes "}\nnull\nx") ≡ on_data (codes "{") (codes "}\nnull\nx"))
    × HasEnded (on_data (codes "{") (codes "}\nnull\nx"))
on_data-ends_example = on_data-ends (codes "{") (codes "}\nnull\nx") 100 (omega arith)

abbrev second_network : Network
second_network = record { created = some 8; set_up = true; accepts = λ s line. true }

run-doubles_example :
    let r =
      Events.run
        (Events.failed ∷ Events.closed ∷ Events.timer network ∷ Events.timer second_network ∷ [])
        (new config (codes "sim")) in
    (r.1 ≡ reconnect_in 500 ∷ reconnect_in 1000 ∷ connecting 7 ∷ connecting 8 ∷ [])
    × (r.0.socket ≡ some 8)
unfolding new
run-doubles_example =
    run-doubles (new config (codes "sim")) network second_network 7 8 refl refl refl refl

-- ===== src/Connection/Outbound.antt =====
-- What bridge/openrct2-plugin/src/connection.ts puts on the wire over time.
use helter_skelter.Prelude.{
  ℕ, zero, suc, ◌≡◌, refl, Bool-cases, inl, inr, Text, Option, none, some, Option-cases, is_some,
  List, [], ◌∷◌, ◌++◌, drop, length, ◌-◌, All, All-append, All-map, ◌&&◌,
}
use helter_skelter.Protocol.{Envelope, observation_snapshot, ObservationSnapshot, CommandResult}
use helter_skelter.Protocol.Validate.{
  requires_correlation_id, validate, IsCorrelated, validate-IsCorrelated,
}
use helter_skelter.Protocol.Codec.{encode_envelope}
use helter_skelter.Connection.{
  BridgeConfig, BridgeConnection, Effect, written, connecting, reconnect_in, received, Moment,
  Network, Step, new, schedule_reconnect, connect, start, on_connect, on_close, on_error, receive,
  send_heartbeat, send_snapshot, send_command_result, write_line, write, flush_lines, make_envelope,
}
use helter_skelter.Connection.Bounds.{shift_to_lem}
use helter_skelter.Connection.Events.{
  Event, started, timer, opened, input, closed, failed, tick_heartbeat, tick_snapshot, answered,
  step, run,
}

-- An envelope of this simulation, with a correlation id that is allowed where its payload requires one.
abbrev pub IsSent : Text → (Text → Type 0) → Envelope → Type 0
IsSent id allowed e = (e.simulation_id ≡ id) × IsCorrelated allowed e

-- The line of an envelope with a property, and the text of such a line that is written.
abbrev pub IsMessage : (Envelope → Type 0) → Text → Type 0
IsMessage P line = (e : Envelope) × (line ≡ encode_envelope e) × P e

abbrev pub IsWritten : (Envelope → Type 0) → Effect → Type 0
IsWritten P (written s text) = (line : Text) × (text ≡ line ++ (10 ∷ [])) × IsMessage P line
IsWritten P e = Unit

-- The state of a connection of this simulation, and what a step does from it.
abbrev pub Holds : Text → (Text → Type 0) → BridgeConnection → Type 0
Holds id allowed c = (c.simulation_id ≡ id) × All (IsMessage (IsSent id allowed)) c.snapshot_buffer

abbrev pub Keeps : Text → (Text → Type 0) → Step → Type 0
Keeps id allowed d = Holds id allowed d.0 × All (IsWritten (IsSent id allowed)) d.1

module _ (id : Text) (allowed : Text → Type 0) where
  write_line-IsWritten :
      (net : Network) (so : Option ℕ) (line : Text)
      → IsMessage (IsSent id allowed) line
      → All (IsWritten (IsSent id allowed)) (write_line net so line)
  unfolding write_line
  write_line-IsWritten net none line m = tt
  write_line-IsWritten net (some s) line m = elim (Bool-cases (net.accepts s line)) [
    | inl h ↦ rw (h, write_line) ((line, refl, m), tt)
    | inr h ↦ rw (h, write_line) tt
  ]

  write-IsWritten :
      (net : Network) (c : BridgeConnection) (e : Envelope)
      → IsSent id allowed e
      → All (IsWritten (IsSent id allowed)) (write net c e)
  unfolding write encode_envelope
  write-IsWritten net c e sent =
      write_line-IsWritten net c.socket (encode_envelope e) (e, refl, sent)

  flush_lines-IsWritten :
      (net : Network) (so : Option ℕ) (lines : List Text)
      → All (IsMessage (IsSent id allowed)) lines
      → All (IsWritten (IsSent id allowed)) (flush_lines net so lines)
  unfolding flush_lines
  flush_lines-IsWritten net so [] ms = tt
  flush_lines-IsWritten net so (line ∷ lines) (m, ms) =
      All-append (IsWritten (IsSent id allowed)) (write_line net so line) (flush_lines net so lines)
        (write_line-IsWritten net so line m) (flush_lines-IsWritten net so lines ms)

  drop-IsMessage :
      (n : ℕ) (lines : List Text)
      → All (IsMessage (IsSent id allowed)) lines
      → All (IsMessage (IsSent id allowed)) (drop n lines)
  drop-IsMessage zero lines ms = ms
  drop-IsMessage (suc n) [] ms = tt
  drop-IsMessage (suc n) (line ∷ lines) (m, ms) = drop-IsMessage n lines ms

  pub connect-Keeps :
      (net : Network) (c : BridgeConnection) → Holds id allowed c → Keeps id allowed (connect net c)
  unfolding connect schedule_reconnect
  connect-Keeps net c v = elim (Option-cases net.created) [
    | inl h ↦ rw (h, connect) (v, (tt, tt))
    | inr (s, h) ↦ elim (Bool-cases net.set_up) [
      | inl up ↦ rw (h, connect) (rw (up, connect) (v, (tt, tt)))
      | inr down ↦ rw (h, connect) (rw (down, connect) (v, (tt, tt)))
    ]
  ]

  pub on_connect-Keeps :
      (net : Network) (t : Moment) (version : Text) (c : BridgeConnection)
      → Holds id allowed c
      → Keeps id allowed (on_connect net t version c)
  unfolding on_connect requires_correlation_id
  on_connect-Keeps net t version c (same, ms) = (
    (same, tt),
    All-append (IsWritten (IsSent id allowed)) _ (flush_lines net c.socket c.snapshot_buffer)
        (write-IsWritten net c _ (same, tt))
        (flush_lines-IsWritten net c.socket c.snapshot_buffer ms),
  )

  pub send_heartbeat-Keeps :
      (net : Network) (t : Moment) (tick : ℕ) (c : BridgeConnection)
      → Holds id allowed c
      → Keeps id allowed (send_heartbeat net t tick c)
  unfolding send_heartbeat requires_correlation_id
  send_heartbeat-Keeps net t tick c v = elim (Bool-cases c.connected) [
    | inl h ↦ rw (h, send_heartbeat) (v, write-IsWritten net c _ (v.0, tt))
    | inr h ↦ rw (h, send_heartbeat) (v, tt)
  ]

  pub send_snapshot-Keeps :
      (net : Network) (t : Moment) (snapshot : ObservationSnapshot) (c : BridgeConnection)
      → Holds id allowed c
      → Keeps id allowed (send_snapshot net t snapshot c)
  unfolding send_snapshot encode_envelope make_envelope requires_correlation_id
  send_snapshot-Keeps net t snapshot c (same, ms) =
      let e = make_envelope t c.simulation_id (observation_snapshot snapshot) in
      let m : IsMessage (IsSent id allowed) (encode_envelope e) = (e, refl, (same, tt)) in
      let most = c.config.max_buffered_snapshots in
      let lines = c.snapshot_buffer ++ (encode_envelope e ∷ []) in
      let held =
        All-append (IsMessage (IsSent id allowed)) c.snapshot_buffer (encode_envelope e ∷ []) ms
          (m, tt) in
      elim (Bool-cases (c.connected && is_some c.socket)) [
        | inl h ↦
            rw (h, send_snapshot)
              ((same, ms), write_line-IsWritten net c.socket (encode_envelope e) m)
        | inr h ↦
            rw (h, send_snapshot)
              (
                (
                  same,
                  rw (shift_to_lem most lines) (drop-IsMessage (length lines - most) lines held),
                ),
                tt,
              )
      ]

  pub send_command_result-Keeps :
      (net : Network) (t : Moment) (correlation_id : Text) (result : CommandResult)
      (c : BridgeConnection)
      → allowed correlation_id
      → Holds id allowed c
      → Keeps id allowed (send_command_result net t correlation_id result c)
  unfolding send_command_result requires_correlation_id
  send_command_result-Keeps net t correlation_id result c h v =
      (v, write-IsWritten net c _ (v.0, h))

module _ (id : Text) where
  Anything : Text → Type 0
  Anything _ = Unit

  step-Keeps :
      (e : Event) (c : BridgeConnection) → Holds id Anything c → Keeps id Anything (step e c)
  unfolding step start on_close on_error receive schedule_reconnect
  step-Keeps (started net) c v = connect-Keeps id Anything net c v
  step-Keeps (timer net) c v = connect-Keeps id Anything net c v
  step-Keeps (opened net t version) c v = on_connect-Keeps id Anything net t version c v
  step-Keeps (input text) c v = (v, (tt, tt))
  step-Keeps closed c v = (v, (tt, tt))
  step-Keeps failed c v = (v, (tt, tt))
  step-Keeps (tick_heartbeat net t tick) c v = send_heartbeat-Keeps id Anything net t tick c v
  step-Keeps (tick_snapshot net t snapshot) c v = send_snapshot-Keeps id Anything net t snapshot c v
  step-Keeps (answered net t correlation_id result) c v =
      send_command_result-Keeps id Anything net t correlation_id result c (unfold Anything in tt) v

  run-Keeps :
      (es : List Event) (c : BridgeConnection) → Holds id Anything c → Keeps id Anything (run es c)
  unfolding run
  run-Keeps [] c v = (v, tt)
  run-Keeps (e ∷ es) c v =
      let (v', now) = step-Keeps e c v in
      let (v'', later) = run-Keeps es (step e c).0 v' in
      (
        v'',
        All-append (IsWritten (IsSent id Anything)) (step e c).1 (run es (step e c).0).1 now later,
      )

  -- An envelope of this simulation that the orchestrator's side finds valid.
  abbrev pub IsValid : Envelope → Type 0
  IsValid e = (e.simulation_id ≡ id) × (validate e ≡ none)

  IsWritten-IsValid : (e : Effect) → IsWritten (IsSent id Anything) e → IsWritten IsValid e
  IsWritten-IsValid (written s text) (line, e, (m, e', (same, h))) =
      (line, e, (m, e', (same, validate-IsCorrelated Anything m h)))
  IsWritten-IsValid (connecting s) h = tt
  IsWritten-IsValid (reconnect_in d) h = tt
  IsWritten-IsValid (received os) h = tt

-- Whatever happens to a new connection, each text that it writes to a socket is the encoding of one
-- envelope, closed by a newline; the envelope has the connection's simulation id and passes the
-- orchestrator's check that a result has a correlation id.
pub run-IsFramed :
    (cfg : BridgeConfig) (id : Text) (es : List Event)
    → All (IsWritten (IsValid id)) (run es (new cfg id)).1
unfolding new
run-IsFramed cfg id es =
    All-map (run es (new cfg id)).1 (IsWritten-IsValid id)
      (run-Keeps id es (new cfg id) (refl, tt)).1

-- ===== src/Connection/Bounds.antt =====
-- The bounds that `BridgeConnection` (bridge/openrct2-plugin/src/connection.ts) keeps: of the snapshot
-- buffer and of the reconnect delay.
use helter_skelter.Prelude.{
  ℕ, zero, suc, ◌-◌, ◌≤◌, ◌≡◌, refl, Bool-cases, inl, inr, Text, Option-cases, is_some, List, [],
  ◌∷◌, length, length-drop, drop, ltb, ◌&&◌, arith,
}
use helter_skelter.Protocol.{ObservationSnapshot}
use helter_skelter.Connection.{
  BridgeConfig, BridgeConnection, Moment, Network, new, schedule_reconnect, connect, start,
  on_connect, on_close, on_error, receive, send_heartbeat, shift_to, send_snapshot,
  send_command_result,
}
use helter_skelter.Connection.Events.{
  Event, started, timer, opened, input, closed, failed, tick_heartbeat, tick_snapshot, answered,
  step, run,
}

-- The loop of `sendSnapshot` shifts out exactly the oldest lines that are too many.
pub shift_to_lem : (most : ℕ) (xs : List Text) → shift_to most xs ≡ drop (length xs - most) xs
unfolding shift_to
shift_to_lem most [] = by_excess (0 - most) (omega arith)
  where
    by_excess : (n : ℕ) → n ≡ 0 → shift_to most [] ≡ drop n []
    by_excess zero h = refl
    by_excess (suc n) h = refl
shift_to_lem most (x ∷ xs) = elim (Bool-cases (ltb most (length (x ∷ xs)))) [
  | inl h ↦
      let few : most ≤ length xs = ground arith in
      let excess : suc (length xs) - most ≡ suc (length xs - most) = omega arith in
      rw (h, shift_to) (rw excess (shift_to_lem most xs))
  | inr h ↦
      let few : suc (length xs) ≤ most = ground arith in
      let excess : suc (length xs) - most ≡ 0 = omega arith in rw (h, shift_to) (rw excess refl)
]

length-shift_to : (most : ℕ) (xs : List Text) → length (shift_to most xs) ≤ most
length-shift_to most xs =
    rw (shift_to_lem most xs) (omega (arith, length-drop (length xs - most) xs))

abbrev pub IsBounded : BridgeConfig → BridgeConnection → Type 0
IsBounded cfg c =
    (c.config ≡ cfg)
    × (length c.snapshot_buffer ≤ cfg.max_buffered_snapshots)
    × (cfg.initial_reconnect_delay_ms ≤ c.reconnect_delay_ms)
    × (c.reconnect_delay_ms ≤ cfg.max_reconnect_delay_ms)

module _ (cfg : BridgeConfig)
    (apart : cfg.initial_reconnect_delay_ms ≤ cfg.max_reconnect_delay_ms) where
  schedule_reconnect-IsBounded :
      (c : BridgeConnection) → IsBounded cfg c → IsBounded cfg (schedule_reconnect c).0
  unfolding schedule_reconnect
  schedule_reconnect-IsBounded c (same, buffer, least, greatest) =
      (same, buffer, rw same (omega arith), rw same (omega arith))

  connect-IsBounded :
      (net : Network) (c : BridgeConnection) → IsBounded cfg c → IsBounded cfg (connect net c).0
  unfolding connect schedule_reconnect
  connect-IsBounded net c v = elim (Option-cases net.created) [
    | inl h ↦ rw (h, connect) (schedule_reconnect-IsBounded c v)
    | inr (s, h) ↦ elim (Bool-cases net.set_up) [
      | inl up ↦ rw (h, connect) (rw (up, connect) v)
      | inr down ↦ rw (h, connect) (rw (down, connect) (schedule_reconnect-IsBounded c v))
    ]
  ]

  send_heartbeat-IsBounded :
      (net : Network) (t : Moment) (tick : ℕ) (c : BridgeConnection)
      → IsBounded cfg c
      → IsBounded cfg (send_heartbeat net t tick c).0
  unfolding send_heartbeat
  send_heartbeat-IsBounded net t tick c v = elim (Bool-cases c.connected) [
    | inl h ↦ rw (h, send_heartbeat) v
    | inr h ↦ rw (h, send_heartbeat) v
  ]

  send_snapshot-IsBounded :
      (net : Network) (t : Moment) (snapshot : ObservationSnapshot) (c : BridgeConnection)
      → IsBounded cfg c
      → IsBounded cfg (send_snapshot net t snapshot c).0
  unfolding send_snapshot
  send_snapshot-IsBounded net t snapshot c (same, buffer, least, greatest) =
      elim (Bool-cases (c.connected && is_some c.socket)) [
        | inl h ↦ rw (h, send_snapshot) (same, buffer, least, greatest)
        | inr h ↦
            rw (h, send_snapshot)
              (same, rw same (length-shift_to cfg.max_buffered_snapshots _), least, greatest)
      ]

  step-IsBounded : (e : Event) (c : BridgeConnection) → IsBounded cfg c → IsBounded cfg (step e c).0
  unfolding step start on_connect on_close on_error receive send_command_result
  step-IsBounded (started net) c v = connect-IsBounded net c v
  step-IsBounded (timer net) c v = connect-IsBounded net c v
  step-IsBounded (opened net t version) c (same, buffer, least, greatest) =
      (same, omega arith, rw same (omega arith), rw same apart)
  step-IsBounded (input text) c v = v
  step-IsBounded closed c v = schedule_reconnect-IsBounded c v
  step-IsBounded failed c v = schedule_reconnect-IsBounded c v
  step-IsBounded (tick_heartbeat net t tick) c v = send_heartbeat-IsBounded net t tick c v
  step-IsBounded (tick_snapshot net t snapshot) c v = send_snapshot-IsBounded net t snapshot c v
  step-IsBounded (answered net t id result) c v = v

  run-IsBounded_from :
      (es : List Event) (c : BridgeConnection) → IsBounded cfg c → IsBounded cfg (run es c).0
  unfolding run
  run-IsBounded_from [] c v = v
  run-IsBounded_from (e ∷ es) c v = run-IsBounded_from es (step e c).0 (step-IsBounded e c v)

-- If the initial reconnect delay is at most the greatest, then after any events on a new connection the
-- configuration is unchanged, the snapshot buffer is within its bound, and the reconnect delay lies
-- between the initial and the greatest.
pub run-IsBounded :
    (cfg : BridgeConfig) (simulation_id : Text) (es : List Event)
    → cfg.initial_reconnect_delay_ms ≤ cfg.max_reconnect_delay_ms
    → IsBounded cfg (run es (new cfg simulation_id)).0
unfolding new
run-IsBounded cfg simulation_id es apart =
    run-IsBounded_from cfg apart es (new cfg simulation_id) (refl, omega arith, omega arith, apart)

-- ===== src/Connection/Alive.antt =====
-- bridge/openrct2-plugin/src/connection.ts never gives up: without a socket it has a timer set.
use helter_skelter.Prelude.{
  ℕ, ◌+◌, ◌-◌, ◌≤◌, ◌≡◌, refl, true, Bool-cases, inl, inr, ◌⊎◌, Text, none, is_some, Option-cases,
  List, [], ◌∷◌, arith,
}
use helter_skelter.Connection.{
  BridgeConfig, BridgeConnection, Effect, connecting, written, reconnect_in, received, Network, new,
  connect, start, on_connect, on_close, on_error, receive, schedule_reconnect, send_heartbeat,
  send_snapshot, send_command_result,
}
use helter_skelter.Connection.Events.{
  Event, started, timer, opened, input, closed, failed, tick_heartbeat, tick_snapshot, answered,
  step, run,
}

abbrev pub timers_set : List Effect → ℕ
timers_set [] = 0
timers_set (reconnect_in d ∷ es) = 1 + timers_set es
timers_set (connecting s ∷ es) = timers_set es
timers_set (written s text ∷ es) = timers_set es
timers_set (received os ∷ es) = timers_set es

abbrev fires : Event → ℕ
fires (timer net) = 1
fires e = 0

-- The timers that are set and have not fired, from `n` of them on.
abbrev pub timers_left : ℕ → List Event → BridgeConnection → ℕ
timers_left n [] c = n
timers_left n (e ∷ es) c = timers_left (n - fires e + timers_set (step e c).1) es (step e c).0

-- There is a socket, or a timer that will make one.
abbrev IsAlive : ℕ → BridgeConnection → Type 0
IsAlive n c = (is_some c.socket ≡ true) ⊎ (1 ≤ n)

connect-IsAlive :
    (net : Network) (c : BridgeConnection) (n : ℕ)
    → IsAlive (n + timers_set (connect net c).1) (connect net c).0
unfolding connect schedule_reconnect
connect-IsAlive net c n = elim (Option-cases net.created) [
  | inl h ↦ rw (h, connect) (inr (omega arith))
  | inr (s, h) ↦ elim (Bool-cases net.set_up) [
    | inl up ↦ rw (h, connect) (rw (up, connect) (inl refl))
    | inr down ↦ rw (h, connect) (rw (down, connect) (inl refl))
  ]
]

step-IsAlive :
    (e : Event) (c : BridgeConnection) (n : ℕ)
    → IsAlive n c
    → IsAlive (n - fires e + timers_set (step e c).1) (step e c).0
unfolding step start on_close on_error schedule_reconnect on_connect receive send_heartbeat
    send_command_result send_snapshot
step-IsAlive (started net) c n v = connect-IsAlive net c (n - 0)
step-IsAlive (timer net) c n v = connect-IsAlive net c (n - 1)
step-IsAlive (opened net t version) c n v = ground arith
step-IsAlive (input text) c n v = ground arith
step-IsAlive closed c n v = inr (omega arith)
step-IsAlive failed c n v = inr (omega arith)
step-IsAlive (tick_heartbeat net t k) c n v = ground arith
step-IsAlive (tick_snapshot net t s) c n v = ground arith
step-IsAlive (answered net t id result) c n v = ground arith

run-IsAlive :
    (es : List Event) (c : BridgeConnection) (n : ℕ)
    → IsAlive n c
    → IsAlive (timers_left n es c) (run es c).0
unfolding run
run-IsAlive [] c n v = v
run-IsAlive (e ∷ es) c n v =
    run-IsAlive es (step e c).0 (n - fires e + timers_set (step e c).1) (step-IsAlive e c n v)

-- Once a new connection has been started, it never gives up: after any events, if it has no socket, then
-- at least one of the timers that it set has not fired, and will connect again.
pub run-never_idle :
    (cfg : BridgeConfig) (id : Text) (net : Network) (es : List Event)
    → (run (started net ∷ es) (new cfg id)).0.socket ≡ none
    → 1 ≤ timers_left 0 (started net ∷ es) (new cfg id)
unfolding run step start
run-never_idle cfg id net es h =
    let alive =
      run-IsAlive es (connect net (new cfg id)).0 (0 - 0 + timers_set (connect net (new cfg id)).1)
        (connect-IsAlive net (new cfg id) (0 - 0)) in
    ground arith

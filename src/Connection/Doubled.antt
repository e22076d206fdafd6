-- ===== src/Connection/Doubled.antt =====
-- A socket of bridge/openrct2-plugin/src/connection.ts that reports an error and its closing.
use helter_skelter.Prelude.{ℕ, ◌*◌, min, ◌≡◌, ap, ◌∙◌, true, false, none, some, [], ◌∷◌, ◌++◌}
use helter_skelter.Connection.{
  BridgeConnection, connecting, reconnect_in, Network, Step, schedule_reconnect, connect, on_close,
  on_error,
}
use helter_skelter.Connection.Delivery.{connect-created}
use helter_skelter.Connection.Events.{failed, closed, timer, step, run}

-- The state after both, with its two timers.
unfoldable pub after_both : BridgeConnection → BridgeConnection
after_both c = record c {
  connected = false;
  socket = none;
  reconnect_delay_ms =
      min (min (c.reconnect_delay_ms * 2) c.config.max_reconnect_delay_ms * 2)
        c.config.max_reconnect_delay_ms;
}

-- If the host reports an error of a socket and then that it closed, two timers are set, and if the network
-- creates a socket for each, two connections are opened, of which only the second is kept.
pub run-doubles :
    (c : BridgeConnection) (first second : Network) (s s' : ℕ)
    → first.created ≡ some s
    → first.set_up ≡ true
    → second.created ≡ some s'
    → second.set_up ≡ true
    → let r = run (failed ∷ closed ∷ timer first ∷ timer second ∷ []) c in
      (r.1
        ≡ reconnect_in c.reconnect_delay_ms
          ∷ reconnect_in (min (c.reconnect_delay_ms * 2) c.config.max_reconnect_delay_ms)
          ∷ connecting s
          ∷ connecting s'
          ∷ [])
      × (r.0.socket ≡ some s')
unfolding run step on_error on_close schedule_reconnect after_both
run-doubles c first second s s' made up made' up' =
    let d = after_both c in
    let one = connect-created first s d made up in
    let two = connect-created second s' (record d { socket = some s }) made' up' in
    let both : run (timer first ∷ timer second ∷ []) d
        ≡ (record d { socket = some s' }, connecting s ∷ connecting s' ∷ []) =
      ap (λ (r : Step). let q = connect second r.0 in (q.0, r.1 ++ (q.1 ++ []))) one
      ∙ ap (λ (q : Step). (q.0, connecting s ∷ (q.1 ++ []))) two in
    (
      ap
          (λ (r : Step).
            reconnect_in c.reconnect_delay_ms
            ∷ reconnect_in (min (c.reconnect_delay_ms * 2) c.config.max_reconnect_delay_ms)
            ∷ r.1)
          both,
      ap (λ (r : Step). r.0.socket) both,
    )

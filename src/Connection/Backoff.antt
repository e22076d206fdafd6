-- ===== src/Connection/Backoff.antt =====
-- The reconnect delays of bridge/openrct2-plugin/src/connection.ts: they double up to the greatest one.
use helter_skelter.Prelude.{◌≡◌, none}
use helter_skelter.Connection.Events.{Event, timer, closed, failed}

-- A lost connection, or an attempt for which no socket was created.
abbrev pub IsFailure : Event → Type 0
IsFailure closed = Unit
IsFailure failed = Unit
IsFailure (timer net) = net.created ≡ none
IsFailure e = ⊥

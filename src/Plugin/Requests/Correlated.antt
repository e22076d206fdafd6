-- ===== src/Plugin/Requests/Correlated.antt =====
-- The correlation ids of what bridge/openrct2-plugin/src/index.ts writes.
use helter_skelter.Prelude.{◌≤◌, refl, ap, Text, text_eq_refl, List, [], ◌∷◌, All, All-map, arith}
use helter_skelter.Commands.Machine.Once.{bit}
use helter_skelter.Connection.{new, BridgeConfig}
use helter_skelter.Plugin.Requests.{Output, accepted, asked, resolved, network, Event, run, init}
use helter_skelter.Plugin.Requests.Conserved.{came}
use helter_skelter.Plugin.Requests.Serves.{IsShown, Accepts, run-Serves}

-- The messages that were handed to the handler in an output.
abbrev pub HasCome : List Output → Text → Type 0
HasCome os k = 1 ≤ came k os

came-le-cons : (k : Text) (o : Output) (os : List Output) → came k os ≤ came k (o ∷ os)
came-le-cons k (accepted id) os = omega arith
came-le-cons k (asked id c) os = omega arith
came-le-cons k (resolved id r result) os = omega arith
came-le-cons k (network e) os = omega arith

Accepts-cons :
    (o x : Output) (os : List Output) → Accepts (HasCome os) x → Accepts (HasCome (o ∷ os)) x
Accepts-cons o (accepted k) os h = omega (arith, h, came-le-cons k o os)
Accepts-cons o (asked id c) os h = tt
Accepts-cons o (resolved id r result) os h = tt
Accepts-cons o (network e) os h = tt

came_self : (os : List Output) → All (Accepts (HasCome os)) os
came_self [] = tt
came_self (o ∷ os) = (here o, All-map os (λ x h. Accepts-cons o x os h) (came_self os))
  where
    here : (x : Output) → Accepts (HasCome (x ∷ os)) x
    here (accepted k) = omega (arith, ap bit (text_eq_refl k))
    here (asked id c) = tt
    here (resolved id r result) = tt
    here (network e) = tt

-- Whatever happens to a new plugin, each text that it writes to a socket is the encoding of one envelope
-- with the plugin's simulation id, closed by a newline, and if its payload is a command.result or an ack,
-- its correlation id is the identifier of a request that was handed to the handler.
pub run-correlates :
    (cfg : BridgeConfig) (id : Text) (es : List Event)
    → let os = (run es (init cfg id)).1 in All (IsShown id (HasCome os)) os
unfolding init new
run-correlates cfg id es =
    let os = (run es (init cfg id)).1 in
    (run-Serves id (HasCome os) es (init cfg id) ((refl, tt), tt) (came_self os)).1

-- ===== src/Plugin/Requests/Conserved.antt =====
-- No request that bridge/openrct2-plugin/src/index.ts hands on is lost or answered twice.
use helter_skelter.Prelude.{
  ℕ, suc, ◌+◌, ◌≡◌, refl, Text, text_eq, Option-cases, inl, inr, List, [], ◌∷◌, ◌++◌, map, arith,
}
use helter_skelter.Protocol.{CommandRequest}
use helter_skelter.Commands.{GameActionResult}
use helter_skelter.Commands.Handler.{Progress-cases, after_query, after_execute}
use helter_skelter.Commands.Machine.{Stage, querying, executing, pick}
use helter_skelter.Commands.Machine.Once.{bit}
use helter_skelter.Commands.Machine.Pick.{weigh, weigh-pick}
use helter_skelter.Connection.Framing.{on_data}
use helter_skelter.Plugin.{on_tick}
use helter_skelter.Connection.{
  receive, connect, on_connect, on_close, on_error, BridgeConfig, BridgeConnection, Effect, Moment,
  Network, send_command_result,
}
use helter_skelter.Plugin.Requests.{
  requests_of, Pending, Plugin, Output, accepted, asked, resolved, network, Reply, Begun, Step,
  begin, begin_all, respond, respond_all, on_input, proceed, on_game, on_connection, Event, timer,
  opened, closed, failed, tick, input, game, step, run, init,
}

module _ (k : Text) where
  -- How often a message with this identifier was handed to the handler, and how often it was answered.
  abbrev pub came : List Output → ℕ
  came [] = 0
  came (accepted id ∷ os) = bit (text_eq id k) + came os
  came (asked id c ∷ os) = came os
  came (resolved id r result ∷ os) = came os
  came (network e ∷ os) = came os

  abbrev pub went : List Output → ℕ
  went [] = 0
  went (accepted id ∷ os) = went os
  went (asked id c ∷ os) = went os
  went (resolved id r result ∷ os) = bit (text_eq id k) + went os
  went (network e ∷ os) = went os

  abbrev pub pending : List Pending → ℕ
  pending = weigh (λ t. bit (text_eq t.0 k))

  abbrev ready : List Reply → ℕ
  ready [] = 0
  ready (r ∷ rs) = bit (text_eq r.message_id k) + ready rs

  came-append : (os os' : List Output) → came (os ++ os') ≡ came os + came os'
  came-append [] os' = omega arith
  came-append (accepted id ∷ os) os' = omega (arith, came-append os os')
  came-append (asked id c ∷ os) os' = came-append os os'
  came-append (resolved id r result ∷ os) os' = came-append os os'
  came-append (network e ∷ os) os' = came-append os os'

  went-append : (os os' : List Output) → went (os ++ os') ≡ went os + went os'
  went-append [] os' = omega arith
  went-append (accepted id ∷ os) os' = went-append os os'
  went-append (asked id c ∷ os) os' = went-append os os'
  went-append (resolved id r result ∷ os) os' = omega (arith, went-append os os')
  went-append (network e ∷ os) os' = went-append os os'

  ready-append : (rs rs' : List Reply) → ready (rs ++ rs') ≡ ready rs + ready rs'
  ready-append [] rs' = omega arith
  ready-append (r ∷ rs) rs' = omega (arith, ready-append rs rs')

  came-network : (es : List Effect) → came (map network es) ≡ 0
  came-network [] = refl
  came-network (e ∷ es) = came-network es

  went-network : (es : List Effect) → went (map network es) ≡ 0
  went-network [] = refl
  went-network (e ∷ es) = went-network es

  -- What came and was waiting is what went and is waiting.
  abbrev IsBalanced : Plugin → Step → Type 0
  IsBalanced p d = came d.1 + pending p.waiting ≡ went d.1 + pending d.0.waiting

  record IsBegun (p : Plugin) (b : Begun) : Type 0 where
    none_went : went b.outputs ≡ 0
    begun : came b.outputs + pending p.waiting ≡ ready b.replies + pending b.plugin.waiting

  begin-IsBegun : (r : Text × CommandRequest) (p : Plugin) → IsBegun p (begin r p)
  unfolding begin
  begin-IsBegun (id, request) p = ground arith

  begin_all-IsBegun : (rs : List (Text × CommandRequest)) (p : Plugin) → IsBegun p (begin_all rs p)
  unfolding begin_all
  begin_all-IsBegun [] p = record { none_went = refl; begun = omega arith }
  begin_all-IsBegun (r ∷ rs) p =
      let first = begin r p in
      let rest = begin_all rs first.plugin in
      let a = begin-IsBegun r p in
      let b = begin_all-IsBegun rs first.plugin in
      record {
        none_went = omega (arith, went-append first.outputs rest.outputs, a.none_went, b.none_went);
        begun = omega (
          arith,
          came-append first.outputs rest.outputs,
          ready-append first.replies rest.replies,
          a.begun,
          b.begun,
        );
      }

  respond-counts :
      (net : Network) (t : Moment) (r : Reply) (p : Plugin)
      → (came (respond net t r p).1 ≡ 0)
        × (went (respond net t r p).1 ≡ bit (text_eq r.message_id k))
        × (pending (respond net t r p).0.waiting ≡ pending p.waiting)
  unfolding respond
  respond-counts net t r p =
      let sent = send_command_result net t r.message_id r.result p.connection in
      (came-network sent.1, omega (arith, went-network sent.1), refl)

  respond_all-counts :
      (net : Network) (ts : ℕ → Moment) (rs : List Reply) (p : Plugin)
      → (came (respond_all net ts rs p).1 ≡ 0)
        × (went (respond_all net ts rs p).1 ≡ ready rs)
        × (pending (respond_all net ts rs p).0.waiting ≡ pending p.waiting)
  unfolding respond_all
  respond_all-counts net ts [] p = (refl, refl, refl)
  respond_all-counts net ts (r ∷ rs) p =
      let first = respond net (ts 0) r p in
      let rest = respond_all net (λ i. ts (suc i)) rs first.0 in
      let (a, b, c) = respond-counts net (ts 0) r p in
      let (a', b', c') = respond_all-counts net (λ i. ts (suc i)) rs first.0 in
      (
        omega (arith, came-append first.1 rest.1),
        omega (arith, went-append first.1 rest.1),
        omega arith,
      )

  on_connection-IsBalanced :
      (f : BridgeConnection → BridgeConnection × List Effect) (p : Plugin)
      → IsBalanced p (on_connection f p)
  on_connection-IsBalanced f p =
      omega (arith, came-network (f p.connection).1, went-network (f p.connection).1)

  on_input-IsBalanced :
      (net : Network) (ts : ℕ → Moment) (text : Text) (p : Plugin)
      → IsBalanced p (on_input net ts text p)
  unfolding on_input
  on_input-IsBalanced net ts text p =
      let d = on_data p.connection.inbound_buffer text in
      let got = receive text p.connection in
      let begun = begin_all (requests_of d.outcomes) (record p { connection = got.0 }) in
      let done = respond_all net ts begun.replies begun.plugin in
      let start = begin_all-IsBegun (requests_of d.outcomes) (record p { connection = got.0 }) in
      let (a, b, c) = respond_all-counts net ts begun.replies begun.plugin in
      omega (
        arith,
        came-append (map network got.1) (begun.outputs ++ done.1),
        went-append (map network got.1) (begun.outputs ++ done.1),
        came-append begun.outputs done.1,
        went-append begun.outputs done.1,
        came-network got.1,
        went-network got.1,
        start.none_went,
        start.begun,
      )

  -- An answer leaves the request in flight, or resolves it.
  proceed-balance :
      (net : Network) (t : Moment) (id : Text) (s : Stage) (r : CommandRequest)
      (result : GameActionResult) (p : Plugin)
      → let d = proceed net t id s r result p in
        (came d.1 ≡ 0) × (bit (text_eq id k) + pending p.waiting ≡ went d.1 + pending d.0.waiting)
  unfolding proceed
  proceed-balance net t id executing r result p =
      let (done, cache) = after_execute p.cache r result in
      let (a, b, c) =
        respond-counts net t (record { message_id = id; request = r; result = done })
          (record p { cache = cache }) in
      (a, omega arith)
  proceed-balance net t id querying r result p =
      elim (Progress-cases (after_query p.cache r result)) [
        | inl (cache, refused, e) ↦
            let (a, b, c) =
              respond-counts net t (record { message_id = id; request = r; result = refused })
                (record p { cache = cache }) in
            rw (e, proceed) (a, omega arith)
        | inr (action, e) ↦ rw (e, proceed) (refl, omega arith)
      ]

  on_game-IsBalanced :
      (net : Network) (t : Moment) (i : ℕ) (result : GameActionResult) (p : Plugin)
      → IsBalanced p (on_game net t i result p)
  unfolding on_game
  on_game-IsBalanced net t i result p = elim (Option-cases (pick i p.waiting)) [
    | inl e ↦ rw (e, on_game) refl
    | inr (((id, task), rest), e) ↦
        let (a, b) =
          proceed-balance net t id task.stage task.request result (record p { waiting = rest }) in
        rw (e, on_game)
          (omega (arith, a, b, weigh-pick (λ t. bit (text_eq t.0 k)) i p.waiting rest (id, task) e))
  ]

  step-IsBalanced : (e : Event) (p : Plugin) → IsBalanced p (step e p)
  unfolding step
  step-IsBalanced (timer net) p = on_connection-IsBalanced (connect net) p
  step-IsBalanced (opened net t version) p = on_connection-IsBalanced (on_connect net t version) p
  step-IsBalanced closed p = on_connection-IsBalanced on_close p
  step-IsBalanced failed p = on_connection-IsBalanced on_error p
  step-IsBalanced (tick k) p = on_connection-IsBalanced (on_tick k) p
  step-IsBalanced (input net ts text) p = on_input-IsBalanced net ts text p
  step-IsBalanced (game net t i result) p = on_game-IsBalanced net t i result p

  run-IsBalanced : (es : List Event) (p : Plugin) → IsBalanced p (run es p)
  unfolding run
  run-IsBalanced [] p = refl
  run-IsBalanced (e ∷ es) p =
      let now = step e p in
      let later = run es now.0 in
      omega (
        arith,
        came-append now.1 later.1,
        went-append now.1 later.1,
        step-IsBalanced e p,
        run-IsBalanced es now.0,
      )

-- Whatever happens to a new plugin, for every message identifier: the requests with this identifier that
-- were handed to the handler are, in number, those whose result was handed to sendCommandResult and those
-- that still wait for the game. None is lost, and none is answered twice.
pub run-conserves :
    (cfg : BridgeConfig) (id : Text) (es : List Event) (k : Text)
    → let r = run es (init cfg id) in came k r.1 ≡ went k r.1 + pending k r.0.waiting
unfolding init
run-conserves cfg id es k = omega (arith, run-IsBalanced k es (init cfg id))

-- ===== src/Plugin/Requests/Machine.antt =====
-- The handlers in flight of bridge/openrct2-plugin/src/index.ts are those of Commands.Machine: what the
-- plugin adds, the identifiers of the messages and the connection, does not touch them.
use mathlib.Core.Path.{ap₂}
use mathlib.Core.Option
use helter_skelter.Prelude.{
  ℕ, ◌≤◌, ◌≡◌, refl, sym, ap, ◌∙◌, Text, Option-cases, inl, inr, List, [], ◌∷◌, ◌++◌, map,
}
use helter_skelter.Commands.{GameActionResult}
use helter_skelter.Commands.Machine.{
  Machine, Stage, querying, executing, Task, Call, pick, arrive, answered, deliver, resume, resumed,
}
use helter_skelter.Commands.Machine
use helter_skelter.Commands.Machine.Pick.{pick-map}
use helter_skelter.Commands.Machine.Once.{executions, idle, IsSerial, executions_le_one}
use helter_skelter.Plugin.{on_tick}
use helter_skelter.Connection.{
  connect, on_connect, on_close, on_error, BridgeConfig, Effect, Moment, Network, receive,
}
use helter_skelter.Connection.Framing.{on_data}
use helter_skelter.Plugin.Requests.{
  Pending, Plugin, network, requests_of, begin_all, respond_all, on_input, on_game, Event, timer,
  opened, closed, failed, tick, input, game, step, run, init,
}
use helter_skelter.Plugin.Requests.Trace.{
  calls_of, Answers, answers_of, view, machine_event, machine_events, calls_of-append,
  answers_of-append, calls_of-network, answers_of-network, run-append,
}
use helter_skelter.Plugin.Requests.Handlers.{begin_all-view, respond_all-view, proceed-view}

on_game-view :
    (net : Network) (t : Moment) (i : ℕ) (result : GameActionResult) (p : Plugin) (cs : List Call)
    (ans : Answers)
    → let d = on_game net t i result p in
      Machine.step (answered i result) (view p cs ans)
      ≡ view d.0 (calls_of d.1 cs) (answers_of d.1 ans)
unfolding on_game Machine.step
on_game-view net t i result p cs ans =
    let found = pick-map (λ (t : Pending). t.1) i p.waiting in
    elim (Option-cases (pick i p.waiting)) [
      | inl e ↦ rw (found ∙ ap (Option.map _) e, Machine.step) (rw (e, on_game) refl)
      | inr (((id, task), rest), e) ↦
          rw (found ∙ ap (Option.map _) e, Machine.step)
            (rw (e, on_game)
              (proceed-view net t id task result (record p { waiting = rest }) cs ans))
    ]

quiet :
    (es : List Effect) (p : Plugin) (cs : List Call) (ans : Answers)
    → view p cs ans ≡ view p (calls_of (map network es) cs) (answers_of (map network es) ans)
quiet es p cs ans = ap₂ (view p) (sym (calls_of-network es cs)) (sym (answers_of-network es ans))

on_input-view :
    (net : Network) (ts : ℕ → Moment) (text : Text) (p : Plugin) (cs : List Call) (ans : Answers)
    → let d = on_input net ts text p in
      Machine.run (machine_event (input net ts text) p) (view p cs ans)
      ≡ view d.0 (calls_of d.1 cs) (answers_of d.1 ans)
unfolding on_input
on_input-view net ts text p cs ans =
    let rs = requests_of (on_data p.connection.inbound_buffer text).outcomes in
    let got = receive text p.connection in
    let p' = record p { connection = got.0 } in
    let b = begin_all rs p' in
    let d = respond_all net ts b.replies b.plugin in
    let (ran, silent) = begin_all-view rs p' cs ans in
    let outs = map network got.1 ++ (b.outputs ++ d.1) in
    let calls : calls_of outs cs ≡ calls_of d.1 (calls_of b.outputs cs) =
      calls_of-append (map network got.1) (b.outputs ++ d.1) cs
      ∙ ap (calls_of (b.outputs ++ d.1)) (calls_of-network got.1 cs)
      ∙ calls_of-append b.outputs d.1 cs in
    let answers : answers_of outs ans ≡ answers_of d.1 ans =
      answers_of-append (map network got.1) (b.outputs ++ d.1) ans
      ∙ ap (answers_of (b.outputs ++ d.1)) (answers_of-network got.1 ans)
      ∙ answers_of-append b.outputs d.1 ans
      ∙ ap (answers_of d.1) silent in
    ran
    ∙ respond_all-view net ts b.replies b.plugin (calls_of b.outputs cs) ans
    ∙ ap₂ (view d.0) (sym calls) (sym answers)

step-view :
    (e : Event) (p : Plugin) (cs : List Call) (ans : Answers)
    → let d = step e p in
      Machine.run (machine_event e p) (view p cs ans)
      ≡ view d.0 (calls_of d.1 cs) (answers_of d.1 ans)
unfolding step Machine.run
step-view (timer net) p cs ans = quiet (connect net p.connection).1 p cs ans
step-view (opened net t version) p cs ans = quiet (on_connect net t version p.connection).1 p cs ans
step-view closed p cs ans = quiet (on_close p.connection).1 p cs ans
step-view failed p cs ans = quiet (on_error p.connection).1 p cs ans
step-view (tick k) p cs ans = quiet (on_tick k p.connection).1 p cs ans
step-view (input net ts text) p cs ans = on_input-view net ts text p cs ans
step-view (game net t i result) p cs ans = on_game-view net t i result p cs ans

run-view :
    (es : List Event) (p : Plugin) (cs : List Call) (ans : Answers)
    → let d = run es p in
      Machine.run (machine_events es p) (view p cs ans)
      ≡ view d.0 (calls_of d.1 cs) (answers_of d.1 ans)
unfolding run Machine.run
run-view [] p cs ans = refl
run-view (e ∷ es) p cs ans =
    let now = step e p in
    let later = run es now.0 in
    run-append (machine_event e p) (machine_events es now.0) (view p cs ans)
    ∙ ap (Machine.run (machine_events es now.0)) (step-view e p cs ans)
    ∙ run-view es now.0 (calls_of now.1 cs) (answers_of now.1 ans)
    ∙ ap₂ (view later.0) (sym (calls_of-append now.1 later.1 cs))
        (sym (answers_of-append now.1 later.1 ans))

-- The plugin implements the machine of its handlers: whatever happens to a new plugin, its cache, its
-- waiting handlers, its calls of the game and its answers are those to which the machine comes from its
-- start by the arrivals that the data events carry and the answers of the game, in their order.
pub run-refines :
    (cfg : BridgeConfig) (id : Text) (es : List Event)
    → let d = run es (init cfg id) in
      Machine.run (machine_events es (init cfg id)) idle
      ≡ view d.0 (calls_of d.1 []) (answers_of d.1 [])
unfolding init
run-refines cfg id es = run-view es (init cfg id) [] []

-- In a new plugin to which anything happens: if no request of a key arrives while one of that key is in
-- flight, the game is asked at most once to execute for that key.
run-executes_once :
    (cfg : BridgeConfig) (id : Text) (es : List Event) (k : Text)
    → IsSerial k (machine_events es (init cfg id)) idle
    → executions k (calls_of (run es (init cfg id)).1 []) ≤ 1
run-executes_once cfg id es k serial =
    rw (ap (λ (m : Machine). executions k m.calls) (run-refines cfg id es)) at
      (executions_le_one k (machine_events es (init cfg id)) serial)

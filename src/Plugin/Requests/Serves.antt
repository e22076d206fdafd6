-- ===== src/Plugin/Requests/Serves.antt =====
-- What bridge/openrct2-plugin/src/index.ts writes when the messages it accepts are allowed.
use helter_skelter.Prelude.{
  ℕ, suc, ◌%◌, ◌==◌, Text, Option-cases, Bool-cases, inl, inr, List, [], ◌∷◌, map, All, All-append,
  All-append_left,
}
use helter_skelter.Protocol.{CommandRequest}
use helter_skelter.Commands.{GameActionResult}
use helter_skelter.Commands.Handler.{Progress-cases, start, after_query, after_execute}
use helter_skelter.Commands.Machine.{Stage, querying, executing, pick}
use helter_skelter.Commands.Machine.Pick.{pick-All}
use helter_skelter.Connection.{
  receive, connect, on_connect, on_close, on_error, schedule_reconnect, BridgeConnection, Effect,
  Moment, Network, send_command_result,
}
use helter_skelter.Connection.Framing.{on_data}
use helter_skelter.Connection.Outbound.{
  IsSent, IsWritten, Holds, Keeps, connect-Keeps, on_connect-Keeps, send_heartbeat-Keeps,
  send_snapshot-Keeps, send_command_result-Keeps,
}
use helter_skelter.Observation.{build_observation_snapshot}
use helter_skelter.Plugin.{Tick, heartbeat_due, snapshot_due, on_tick}
use helter_skelter.Plugin.Requests.{
  requests_of, Pending, Plugin, Output, accepted, network, Reply, Step, begin, begin_all, respond,
  respond_all, on_input, proceed, on_game, on_connection, Event, timer, opened, closed, failed,
  tick, input, game, step, run,
}

-- What an output may write, and which messages it may accept.
abbrev pub IsShown : Text → (Text → Type 0) → Output → Type 0
IsShown id allowed (network e) = IsWritten (IsSent id allowed) e
IsShown id allowed _ = Unit

abbrev pub Accepts : (Text → Type 0) → Output → Type 0
Accepts allowed (accepted k) = allowed k
Accepts allowed _ = Unit

module _ (id : Text) (allowed : Text → Type 0) where
  abbrev Stands : Plugin → Type 0
  Stands p = Holds id allowed p.connection × All (λ (t : Pending). allowed t.0) p.waiting

  -- A step that leaves the plugin so, and writes only what it may.
  abbrev Serves : Step → Type 0
  Serves d = Stands d.0 × All (IsShown id allowed) d.1

  abbrev Owes : List Reply → Type 0
  Owes = All (λ (r : Reply). allowed r.message_id)

  shown :
      (es : List Effect)
      → All (IsWritten (IsSent id allowed)) es
      → All (IsShown id allowed) (map network es)
  shown [] h = tt
  shown (e ∷ es) (here, h) = (here, shown es h)

  heartbeat_due-Keeps :
      (k : Tick) (c : BridgeConnection) → Holds id allowed c → Keeps id allowed (heartbeat_due k c)
  unfolding heartbeat_due
  heartbeat_due-Keeps k c v =
      elim (Bool-cases (k.ticks_elapsed % c.config.heartbeat_interval_ticks == 0)) [
        | inl due ↦
            rw (due, heartbeat_due)
              (send_heartbeat-Keeps id allowed k.network k.heartbeat_moment k.ticks_elapsed c v)
        | inr not_due ↦ rw (not_due, heartbeat_due) (v, tt)
      ]

  snapshot_due-Keeps :
      (k : Tick) (c : BridgeConnection) → Holds id allowed c → Keeps id allowed (snapshot_due k c)
  unfolding snapshot_due
  snapshot_due-Keeps k c v =
      elim (Bool-cases (k.ticks_elapsed % c.config.snapshot_interval_ticks == 0)) [
        | inl due ↦
            rw (due, snapshot_due)
              (send_snapshot-Keeps id allowed k.network k.snapshot_moment
                (build_observation_snapshot k.game) c v)
        | inr not_due ↦ rw (not_due, snapshot_due) (v, tt)
      ]

  on_tick-Keeps :
      (k : Tick) (c : BridgeConnection) → Holds id allowed c → Keeps id allowed (on_tick k c)
  unfolding on_tick
  on_tick-Keeps k c v =
      let (held, first) = heartbeat_due-Keeps k c v in
      let (held', second) = snapshot_due-Keeps k (heartbeat_due k c).0 held in
      (held', All-append (IsWritten (IsSent id allowed)) (heartbeat_due k c).1 _ first second)

  begin-Stands :
      (r : Text × CommandRequest) (p : Plugin)
      → Stands p
      → All (Accepts allowed) (begin r p).outputs
      → Stands (begin r p).plugin
        × All (IsShown id allowed) (begin r p).outputs
        × Owes (begin r p).replies
  unfolding begin
  begin-Stands (k, r) p (held, owed) h = elim (Progress-cases (start p.cache r)) [
    | inl (cache, result, e) ↦
        let accepts = rw (e, begin) at h in rw (e, begin) ((held, owed), (tt, tt), (accepts.0, tt))
    | inr (action, e) ↦
        let accepts = rw (e, begin) at h in
        rw (e, begin) ((held, (accepts.0, owed)), (tt, (tt, tt)), tt)
  ]

  begin_all-Stands :
      (rs : List (Text × CommandRequest)) (p : Plugin)
      → Stands p
      → All (Accepts allowed) (begin_all rs p).outputs
      → Stands (begin_all rs p).plugin
        × All (IsShown id allowed) (begin_all rs p).outputs
        × Owes (begin_all rs p).replies
  unfolding begin_all
  begin_all-Stands [] p v h = (v, tt, tt)
  begin_all-Stands (r ∷ rs) p v h =
      let first = begin r p in
      let rest = begin_all rs first.plugin in
      let (here, there) = All-append_left (Accepts allowed) first.outputs rest.outputs h in
      let (now, written_now, owed_now) = begin-Stands r p v here in
      let (later, written_later, owed_later) = begin_all-Stands rs first.plugin now there in
      (
        later,
        All-append (IsShown id allowed) first.outputs rest.outputs written_now written_later,
        All-append (λ (r : Reply). allowed r.message_id) first.replies rest.replies owed_now
            owed_later,
      )

  respond-Serves :
      (net : Network) (t : Moment) (r : Reply) (p : Plugin)
      → allowed r.message_id
      → Stands p
      → Serves (respond net t r p)
  unfolding respond
  respond-Serves net t r p h (held, owed) =
      let (held', out) =
        send_command_result-Keeps id allowed net t r.message_id r.result p.connection h held in
      (
        (held', owed),
        (tt, shown (send_command_result net t r.message_id r.result p.connection).1 out),
      )

  respond_all-Serves :
      (net : Network) (ts : ℕ → Moment) (rs : List Reply) (p : Plugin)
      → Owes rs
      → Stands p
      → Serves (respond_all net ts rs p)
  unfolding respond_all
  respond_all-Serves net ts [] p h v = (v, tt)
  respond_all-Serves net ts (r ∷ rs) p (here, there) v =
      let first = respond net (ts 0) r p in
      let rest = respond_all net (λ i. ts (suc i)) rs first.0 in
      let (v', now) = respond-Serves net (ts 0) r p here v in
      let (v'', later) = respond_all-Serves net (λ i. ts (suc i)) rs first.0 there v' in
      (v'', All-append (IsShown id allowed) first.1 rest.1 now later)

  on_input-Serves :
      (net : Network) (ts : ℕ → Moment) (text : Text) (p : Plugin)
      → Stands p
      → All (Accepts allowed) (on_input net ts text p).1
      → Serves (on_input net ts text p)
  unfolding on_input receive
  on_input-Serves net ts text p v h =
      let got = receive text p.connection in
      let b =
        begin_all (requests_of (on_data p.connection.inbound_buffer text).outcomes)
          (record p { connection = got.0 }) in
      let done = respond_all net ts b.replies b.plugin in
      let accepts = All-append_left (Accepts allowed) b.outputs done.1 h.1 in
      let (now, out, owed) = begin_all-Stands _ (record p { connection = got.0 }) v accepts.0 in
      let (later, out') = respond_all-Serves net ts b.replies b.plugin owed now in
      (later, (tt, All-append (IsShown id allowed) b.outputs done.1 out out'))

  proceed-Serves :
      (net : Network) (t : Moment) (k : Text) (s : Stage) (r : CommandRequest)
      (result : GameActionResult) (p : Plugin)
      → allowed k
      → Stands p
      → Serves (proceed net t k s r result p)
  unfolding proceed
  proceed-Serves net t k executing r result p h v =
      let (done, cache) = after_execute p.cache r result in
      respond-Serves net t (record { message_id = k; request = r; result = done })
        (record p { cache = cache }) h v
  proceed-Serves net t k querying r result p h v =
      elim (Progress-cases (after_query p.cache r result)) [
        | inl (cache, refused, e) ↦
            rw (e, proceed)
              (respond-Serves net t (record { message_id = k; request = r; result = refused })
                (record p { cache = cache }) h v)
        | inr (action, e) ↦ rw (e, proceed) ((v.0, (h, v.1)), (tt, tt))
      ]

  on_game-Serves :
      (net : Network) (t : Moment) (i : ℕ) (result : GameActionResult) (p : Plugin)
      → Stands p
      → Serves (on_game net t i result p)
  unfolding on_game
  on_game-Serves net t i result p (held, owed) = elim (Option-cases (pick i p.waiting)) [
    | inl e ↦ rw (e, on_game) ((held, owed), tt)
    | inr (((k, task), rest), e) ↦
        let (mine, others) =
          pick-All (λ (t : Pending). allowed t.0) i p.waiting rest (k, task) e owed in
        rw (e, on_game)
          (proceed-Serves net t k task.stage task.request result (record p { waiting = rest }) mine
            (held, others))
  ]

  on_connection-Serves :
      (f : BridgeConnection → BridgeConnection × List Effect) (p : Plugin)
      → (Holds id allowed p.connection → Keeps id allowed (f p.connection))
      → Stands p
      → Serves (on_connection f p)
  on_connection-Serves f p keeps (held, owed) =
      let (held', out) = keeps held in ((held', owed), shown (f p.connection).1 out)

  step-Serves :
      (e : Event) (p : Plugin) → Stands p → All (Accepts allowed) (step e p).1 → Serves (step e p)
  unfolding step on_close on_error schedule_reconnect
  step-Serves (timer net) p v h =
      on_connection-Serves (connect net) p (connect-Keeps id allowed net p.connection) v
  step-Serves (opened net t version) p v h =
      on_connection-Serves (on_connect net t version) p
        (on_connect-Keeps id allowed net t version p.connection) v
  step-Serves closed p v h = on_connection-Serves on_close p (λ held. (held, (tt, tt))) v
  step-Serves failed p v h = on_connection-Serves on_error p (λ held. (held, (tt, tt))) v
  step-Serves (tick k) p v h = on_connection-Serves (on_tick k) p (on_tick-Keeps k p.connection) v
  step-Serves (input net ts text) p v h = on_input-Serves net ts text p v h
  step-Serves (game net t i result) p v h = on_game-Serves net t i result p v

  pub run-Serves :
      (es : List Event) (p : Plugin)
      → Stands p
      → All (Accepts allowed) (run es p).1
      → Serves (run es p)
  unfolding run
  run-Serves [] p v h = (v, tt)
  run-Serves (e ∷ es) p v h =
      let now = step e p in
      let later = run es now.0 in
      let (here, there) = All-append_left (Accepts allowed) now.1 later.1 h in
      let (v', out) = step-Serves e p v here in
      let (v'', out') = run-Serves es now.0 v' there in
      (v'', All-append (IsShown id allowed) now.1 later.1 out out')

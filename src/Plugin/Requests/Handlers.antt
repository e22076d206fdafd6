-- ===== src/Plugin/Requests/Handlers.antt =====
-- The handlers of bridge/openrct2-plugin/src/index.ts and of Commands.Machine, one by one.
use mathlib.Core.Path.{ap₂}
use helter_skelter.Prelude.{ℕ, suc, ◌≡◌, refl, sym, ap, ◌∙◌, Text, inl, inr, List, [], ◌∷◌, map}
use helter_skelter.Protocol.{CommandRequest}
use helter_skelter.Commands.{GameActionResult}
use helter_skelter.Commands.Handler.{Progress-cases, start, after_query, after_execute}
use helter_skelter.Commands.Machine.{
  Machine, Stage, querying, executing, Task, Call, pick, arrive, answered, deliver, resume, resumed,
}
use helter_skelter.Commands.Machine
use helter_skelter.Connection.{Moment, Network, send_command_result}
use helter_skelter.Plugin.Requests.{
  Plugin, network, Reply, begin, begin_all, respond, respond_all, proceed,
}
use helter_skelter.Plugin.Requests.Trace.{
  calls_of, Answers, answers_of, view, joined, calls_of-append, answers_of-append, calls_of-network,
  answers_of-network, joined-append,
}

begin-view :
    (r : Text × CommandRequest) (p : Plugin) (cs : List Call) (ans : Answers)
    → deliver r.1 (view p cs ans)
      ≡ view (begin r p).plugin (calls_of (begin r p).outputs cs) (joined (begin r p).replies ans)
unfolding begin deliver
begin-view (id, r) p cs ans = elim (Progress-cases (start p.cache r)) [
  | inl (cache, result, e) ↦ rw (e, deliver) (rw (e, begin) refl)
  | inr (action, e) ↦ rw (e, deliver) (rw (e, begin) refl)
]

begin-silent :
    (r : Text × CommandRequest) (p : Plugin) (ans : Answers)
    → answers_of (begin r p).outputs ans ≡ ans
unfolding begin
begin-silent (id, r) p ans = elim (Progress-cases (start p.cache r)) [
  | inl (cache, result, e) ↦ rw (e, begin) refl
  | inr (action, e) ↦ rw (e, begin) refl
]

abbrev pub arrivals : List (Text × CommandRequest) → List Machine.Event
arrivals = map (λ (r : Text × CommandRequest). arrive r.1)

pub begin_all-view :
    (rs : List (Text × CommandRequest)) (p : Plugin) (cs : List Call) (ans : Answers)
    → let b = begin_all rs p in
      (Machine.run (arrivals rs) (view p cs ans)
        ≡ view b.plugin (calls_of b.outputs cs) (joined b.replies ans))
      × (answers_of b.outputs ans ≡ ans)
unfolding begin_all Machine.run Machine.step
begin_all-view [] p cs ans = (refl, refl)
begin_all-view (r ∷ rs) p cs ans =
    let a = begin r p in
    let b = begin_all rs a.plugin in
    let (later, silent) =
      begin_all-view rs a.plugin (calls_of a.outputs cs) (joined a.replies ans) in
    let same =
      ap₂ (view b.plugin) (sym (calls_of-append a.outputs b.outputs cs))
        (sym (joined-append a.replies b.replies ans)) in
    (
      ap (Machine.run (arrivals rs)) (begin-view r p cs ans) ∙ later ∙ same,
      answers_of-append a.outputs b.outputs ans
          ∙ ap (answers_of b.outputs) (begin-silent r p ans)
          ∙ (begin_all-view rs a.plugin cs ans).1,
    )

pub respond_all-view :
    (net : Network) (ts : ℕ → Moment) (rs : List Reply) (p : Plugin) (cs : List Call)
    (ans : Answers)
    → let d = respond_all net ts rs p in
      view p cs (joined rs ans) ≡ view d.0 (calls_of d.1 cs) (answers_of d.1 ans)
unfolding respond_all respond
respond_all-view net ts [] p cs ans = refl
respond_all-view net ts (r ∷ rs) p cs ans =
    let sent = send_command_result net (ts 0) r.message_id r.result p.connection in
    let p' = record p { connection = sent.0 } in
    let d = respond_all net (λ i. ts (suc i)) rs p' in
    let ans' = (r.request, r.result) ∷ ans in
    respond_all-view net (λ i. ts (suc i)) rs p' cs ans'
    ∙ ap₂ (view d.0)
        (sym (
          calls_of-append (map network sent.1) d.1 cs
          ∙ ap (calls_of d.1) (calls_of-network sent.1 cs)))
        (sym (
          answers_of-append (map network sent.1) d.1 ans'
          ∙ ap (answers_of d.1) (answers_of-network sent.1 ans')))

respond-view :
    (net : Network) (t : Moment) (r : Reply) (p : Plugin) (cs : List Call) (ans : Answers)
    → let d = respond net t r p in
      view p cs ((r.request, r.result) ∷ ans) ≡ view d.0 (calls_of d.1 cs) (answers_of d.1 ans)
unfolding respond
respond-view net t r p cs ans =
    let sent = send_command_result net t r.message_id r.result p.connection in
    ap₂ (view p) (sym (calls_of-network sent.1 cs))
      (sym (answers_of-network sent.1 ((r.request, r.result) ∷ ans)))

pub proceed-view :
    (net : Network) (t : Moment) (id : Text) (task : Task) (result : GameActionResult) (p : Plugin)
    (cs : List Call) (ans : Answers)
    → let d = proceed net t id task.stage task.request result p in
      resume task result (view p cs ans) ≡ view d.0 (calls_of d.1 cs) (answers_of d.1 ans)
unfolding proceed resume resumed
proceed-view net t id task result p cs ans = by_stage task.stage
  where
    by_stage :
        (s : Stage)
        → let d = proceed net t id s task.request result p in
          resume (record task { stage = s }) result (view p cs ans)
          ≡ view d.0 (calls_of d.1 cs) (answers_of d.1 ans)
    by_stage executing =
        let (done, cache) = after_execute p.cache task.request result in
        respond-view net t (record { message_id = id; request = task.request; result = done })
          (record p { cache = cache }) cs ans
    by_stage querying = elim (Progress-cases (after_query p.cache task.request result)) [
      | inl (cache, refused, e) ↦
          rw (e, resumed)
            (rw (e, proceed)
              (respond-view net t
                (record { message_id = id; request = task.request; result = refused })
                (record p { cache = cache }) cs ans))
      | inr (action, e) ↦ rw (e, resumed) (rw (e, proceed) refl)
    ]

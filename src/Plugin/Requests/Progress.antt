-- ===== src/Plugin/Requests/Progress.antt =====
-- As long as the game answers, bridge/openrct2-plugin/src/index.ts answers every request.
use helter_skelter.Prelude.{
  ℕ, suc, ◌+◌, ◌*◌, ◌≤◌, ◌<◌, ◌≡◌, refl, sym, ap, ◌∙◌, Text, Option-cases, inl, inr, List, [], ◌∷◌,
  ◌++◌, append_assoc, map, length, arith,
}
use helter_skelter.Protocol.{CommandRequest}
use helter_skelter.Commands.{GameActionResult}
use helter_skelter.Commands.Handler.{Progress-cases, after_query}
use helter_skelter.Commands.Machine.{Stage, querying, executing, pick}
use helter_skelter.Commands.Machine.Pick.{weigh, weigh-pick, length-le_of_pick}
use helter_skelter.Connection.{BridgeConfig, Moment, Network}
use helter_skelter.Plugin.Requests.{
  Pending, Plugin, Output, Step, respond, proceed, on_game, Event, game, step, run, init,
}
use helter_skelter.Plugin.Requests.Conserved.{came, went, pending, run-conserves}

-- Answers of the game, each to the request at a place among those that wait.
abbrev pub Answer : Type 0
Answer = Network × Moment × ℕ × GameActionResult

abbrev answer_event : Answer → Event
answer_event (net, t, i, result) = game net t i result

abbrev pub answering : List Answer → List Event
answering = map answer_event

abbrev IsHit : ℕ → List Pending → Type 0
IsHit i [] = Unit
IsHit i (t ∷ ts) = i < length (t ∷ ts)

-- Each answer is to a request that waits, as long as there is one.
abbrev pub AreHits : List Answer → Plugin → Type 0
AreHits [] p = Unit
AreHits ((net, t, i, result) ∷ xs) p =
    IsHit i p.waiting × AreHits xs (step (game net t i result) p).0

-- How many answers of the game a request still needs, at most.
abbrev needs : Stage → ℕ
needs querying = 2
needs executing = 1

abbrev needed : List Pending → ℕ
needed = weigh (λ (t : Pending). needs t.1.stage)

needs_bounds : (s : Stage) → (1 ≤ needs s) × (needs s ≤ 2)
needs_bounds querying = omega arith
needs_bounds executing = omega arith

needed-le : (ts : List Pending) → needed ts ≤ 2 * length ts
needed-le [] = omega arith
needed-le ((id, t) ∷ ts) = omega (arith, needs_bounds t.stage, needed-le ts)

needed-proceed :
    (net : Network) (t : Moment) (id : Text) (s : Stage) (r : CommandRequest)
    (result : GameActionResult) (p : Plugin)
    → needed (proceed net t id s r result p).0.waiting + 1 ≤ needs s + needed p.waiting
unfolding proceed respond
needed-proceed net t id executing r result p = omega arith
needed-proceed net t id querying r result p = elim (Progress-cases (after_query p.cache r result)) [
  | inl (cache, refused, e) ↦ rw (e, proceed) (omega arith)
  | inr (action, e) ↦ rw (e, proceed) (omega arith)
]

needed-missed : (i : ℕ) (ts : List Pending) → IsHit i ts → length ts ≤ i → needed ts ≤ 0
needed-missed i [] hit h = omega arith
needed-missed i (t ∷ ts) hit h = absurd (omega (arith, hit, h))

needed-answer :
    (net : Network) (t : Moment) (i : ℕ) (result : GameActionResult) (p : Plugin) (n : ℕ)
    → IsHit i p.waiting
    → needed p.waiting ≤ suc n
    → needed (step (game net t i result) p).0.waiting ≤ n
unfolding step on_game
needed-answer net t i result p n hit h = elim (Option-cases (pick i p.waiting)) [
  | inl e ↦
      rw (e, on_game)
        (omega (arith, needed-missed i p.waiting hit (length-le_of_pick i p.waiting e)))
  | inr (((id, task), rest), e) ↦
      rw (e, on_game)
        (omega (
          arith,
          h,
          weigh-pick (λ (t : Pending). needs t.1.stage) i p.waiting rest (id, task) e,
          needed-proceed net t id task.stage task.request result (record p { waiting = rest }),
        ))
]

needed-zero : (ts : List Pending) → needed ts ≤ 0 → ts ≡ []
needed-zero [] h = refl
needed-zero ((id, t) ∷ ts) h = absurd (omega (arith, needs_bounds t.stage))

run-settles :
    (xs : List Answer) (p : Plugin)
    → AreHits xs p
    → needed p.waiting ≤ length xs
    → (run (answering xs) p).0.waiting ≡ []
unfolding run
run-settles [] p hits h = needed-zero p.waiting h
run-settles ((net, t, i, result) ∷ xs) p (hit, hits) h =
    run-settles xs (step (game net t i result) p).0 hits
      (needed-answer net t i result p (length xs) hit h)

run-append :
    (es fs : List Event) (p : Plugin)
    → run (es ++ fs) p ≡ ((run fs (run es p).0).0, (run es p).1 ++ (run fs (run es p).0).1)
unfolding run
run-append [] fs p = refl
run-append (e ∷ es) fs p =
    let d = step e p in
    ap (λ (r : Step). (r.0, d.1 ++ r.1)) (run-append es fs d.0)
    ∙ ap (λ (w : List Output). ((run fs (run es d.0).0).0, w))
        (sym (append_assoc d.1 (run es d.0).1 (run fs (run es d.0).0).1))

-- If, after anything has happened to a new plugin, the game answers twice for each request that waits,
-- with whatever results and in whatever order, each answer to a request that waits as long as there is
-- one, then no request waits, and of each message identifier exactly as many results were handed to
-- sendCommandResult as requests were handed to the handler.
pub run-answers_all :
    (cfg : BridgeConfig) (id : Text) (es : List Event) (xs : List Answer) (k : Text)
    → AreHits xs (run es (init cfg id)).0
    → 2 * length (run es (init cfg id)).0.waiting ≤ length xs
    → let r = run (es ++ answering xs) (init cfg id) in
      (r.0.waiting ≡ []) × (came k r.1 ≡ went k r.1)
run-answers_all cfg id es xs k hits h =
    let before = run es (init cfg id) in
    let settled : (run (es ++ answering xs) (init cfg id)).0.waiting ≡ [] =
      ap (λ (r : Step). r.0.waiting) (run-append es (answering xs) (init cfg id))
      ∙ run-settles xs before.0 hits (omega (arith, h, needed-le before.0.waiting)) in
    (settled, omega (arith, run-conserves cfg id (es ++ answering xs) k, ap (pending k) settled))

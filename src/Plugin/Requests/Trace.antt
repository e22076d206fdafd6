-- ===== src/Plugin/Requests/Trace.antt =====
-- What a run of bridge/openrct2-plugin/src/index.ts shows of its handlers of requests: the calls of the
-- game, the answers, and the machine of commands.ts inside the plugin.
use helter_skelter.Prelude.{◌≡◌, refl, Text, List, [], ◌∷◌, ◌++◌, map}
use helter_skelter.Protocol.{CommandRequest, CommandResult}
use helter_skelter.Commands.Machine.{
  Machine, Stage, querying, executing, Task, Call, pick, arrive, answered, deliver, resume, resumed,
}
use helter_skelter.Commands.Machine
use helter_skelter.Connection.{Effect}
use helter_skelter.Connection.Framing.{on_data}
use helter_skelter.Plugin.Requests.{
  Pending, Plugin, Output, accepted, asked, resolved, network, Reply, requests_of, Event, input,
  game, step,
}

-- The game's calls and the answers in an output, the last one first, before those that are given.
abbrev pub calls_of : List Output → List Call → List Call
calls_of [] cs = cs
calls_of (accepted id ∷ os) cs = calls_of os cs
calls_of (asked id c ∷ os) cs = calls_of os (c ∷ cs)
calls_of (resolved id r result ∷ os) cs = calls_of os cs
calls_of (network e ∷ os) cs = calls_of os cs

abbrev pub Answers : Type 0
Answers = List (CommandRequest × CommandResult)

abbrev pub answers_of : List Output → Answers → Answers
answers_of [] ans = ans
answers_of (accepted id ∷ os) ans = answers_of os ans
answers_of (asked id c ∷ os) ans = answers_of os ans
answers_of (resolved id r result ∷ os) ans = answers_of os ((r, result) ∷ ans)
answers_of (network e ∷ os) ans = answers_of os ans

-- The machine inside a plugin.
abbrev pub view : Plugin → List Call → Answers → Machine
view p cs ans = record {
  cache = p.cache;
  waiting = map (λ (t : Pending). t.1) p.waiting;
  calls = cs;
  replies = ans;
}

abbrev pub machine_event : Event → Plugin → List Machine.Event
machine_event (input net ts text) p =
    map (λ (r : Text × CommandRequest). arrive r.1)
      (requests_of (on_data p.connection.inbound_buffer text).outcomes)
machine_event (game net t i result) p = answered i result ∷ []
machine_event e p = []

abbrev pub machine_events : List Event → Plugin → List Machine.Event
machine_events [] p = []
machine_events (e ∷ es) p = machine_event e p ++ machine_events es (step e p).0

abbrev pub joined : List Reply → Answers → Answers
joined [] ans = ans
joined (r ∷ rs) ans = joined rs ((r.request, r.result) ∷ ans)

pub calls_of-append :
    (os os' : List Output) (cs : List Call)
    → calls_of (os ++ os') cs ≡ calls_of os' (calls_of os cs)
calls_of-append [] os' cs = refl
calls_of-append (accepted id ∷ os) os' cs = calls_of-append os os' cs
calls_of-append (asked id c ∷ os) os' cs = calls_of-append os os' (c ∷ cs)
calls_of-append (resolved id r result ∷ os) os' cs = calls_of-append os os' cs
calls_of-append (network e ∷ os) os' cs = calls_of-append os os' cs

pub answers_of-append :
    (os os' : List Output) (ans : Answers)
    → answers_of (os ++ os') ans ≡ answers_of os' (answers_of os ans)
answers_of-append [] os' ans = refl
answers_of-append (accepted id ∷ os) os' ans = answers_of-append os os' ans
answers_of-append (asked id c ∷ os) os' ans = answers_of-append os os' ans
answers_of-append (resolved id r result ∷ os) os' ans = answers_of-append os os' ((r, result) ∷ ans)
answers_of-append (network e ∷ os) os' ans = answers_of-append os os' ans

pub calls_of-network : (es : List Effect) (cs : List Call) → calls_of (map network es) cs ≡ cs
calls_of-network [] cs = refl
calls_of-network (e ∷ es) cs = calls_of-network es cs

pub answers_of-network : (es : List Effect) (ans : Answers) → answers_of (map network es) ans ≡ ans
answers_of-network [] ans = refl
answers_of-network (e ∷ es) ans = answers_of-network es ans

pub joined-append :
    (rs rs' : List Reply) (ans : Answers) → joined (rs ++ rs') ans ≡ joined rs' (joined rs ans)
joined-append [] rs' ans = refl
joined-append (r ∷ rs) rs' ans = joined-append rs rs' ((r.request, r.result) ∷ ans)

pub run-append :
    (es fs : List Machine.Event) (m : Machine)
    → Machine.run (es ++ fs) m ≡ Machine.run fs (Machine.run es m)
unfolding Machine.run
run-append [] fs m = refl
run-append (e ∷ es) fs m = run-append es fs (Machine.step e m)

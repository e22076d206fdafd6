-- ===== src/Health/Latest.antt =====
-- What the health of core/orchestrator/src/state.rs comes to: it depends on the newest event that is not
-- a check, and on the time of the check.
use helter_skelter.Prelude.{ℕ, ◌-◌, ◌≤◌, ◌≡◌, refl, ap, ◌∙◌, none, some, List, [], ◌∷◌, ◌++◌, arith}
use helter_skelter.Health.{
  ConnectionState, connecting, live, degraded, lost, ConnectionHealth, connected, on_hello,
  on_heartbeat, on_disconnect, tick_check, grade, checked, Event, accepted, hello, check, closed,
  heartbeat, step, run,
}

-- What is known of the bridge: nothing since it connected, that the connection closed, or when it spoke.
pub data Contact : Type 0 where
  silent gone : Contact
  spoke : (at : ℕ) → Contact

abbrev pub heard : Event → Contact → Contact
heard (accepted now) c = silent
heard (hello now) c = spoke now
heard (check now) c = c
heard (closed now) c = gone
heard (heartbeat now tick) c = spoke now

abbrev pub heard_all : List Event → Contact → Contact
heard_all [] c = c
heard_all (e ∷ es) c = heard_all es (heard e c)

abbrev pub state_at : ℕ → Contact → ConnectionState
state_at now silent = connecting
state_at now gone = lost
state_at now (spoke at) = grade (now - at)

abbrev pub time_of : Event → ℕ
time_of (accepted now) = now
time_of (hello now) = now
time_of (check now) = now
time_of (closed now) = now
time_of (heartbeat now tick) = now

abbrev pub IsOrdered : ℕ → List Event → Type 0
IsOrdered clock [] = Unit {0}
IsOrdered clock (e ∷ es) = (clock ≤ time_of e) × IsOrdered (time_of e) es

-- The state is the grade of an instant `seen` that is not after the clock.
record IsGraded (at clock : ℕ) (state : ConnectionState) : Type 0 where
  seen : ℕ
  past : seen ≤ clock
  graded : state ≡ grade (seen - at)

abbrev IsKnown : Contact → ℕ → ConnectionHealth → Type 0
IsKnown silent clock h = (h.state ≡ connecting) × (h.last_heartbeat_at ≡ none)
IsKnown gone clock h = h.state ≡ lost
IsKnown (spoke at) clock h = IsGraded at clock h.state × (h.last_heartbeat_at ≡ some at)

grade-lost : (a b : ℕ) → a ≤ b → lost ≡ grade a → lost ≡ grade b
grade-lost a b h e = ground arith

checked-grade :
    (at seen now : ℕ) (s : ConnectionState)
    → seen ≤ now
    → s ≡ grade (seen - at)
    → checked now (some at) s ≡ grade (now - at)
checked-grade at seen now lost h e = grade-lost (seen - at) (now - at) (omega (arith, h)) e
checked-grade at seen now connecting h e = refl
checked-grade at seen now live h e = refl
checked-grade at seen now degraded h e = refl

tick_check-state_at :
    (c : Contact) (clock now : ℕ) (h : ConnectionHealth)
    → clock ≤ now
    → IsKnown c clock h
    → (tick_check now h).state ≡ state_at now c
unfolding tick_check
tick_check-state_at silent clock now h k (e, l) =
    ap (checked now h.last_heartbeat_at) e ∙ ap (λ x. checked now x connecting) l
tick_check-state_at gone clock now h k e = ap (checked now h.last_heartbeat_at) e
tick_check-state_at (spoke at) clock now h k (v, l) =
    ap (λ x. checked now x h.state) l
    ∙ checked-grade at v.seen now h.state (omega (arith, v.past, k)) v.graded

tick_check-IsKnown :
    (c : Contact) (clock now : ℕ) (h : ConnectionHealth)
    → clock ≤ now
    → IsKnown c clock h
    → IsKnown c now (tick_check now h)
tick_check-IsKnown silent clock now h k v =
    (tick_check-state_at silent clock now h k v, unfold tick_check in v.1)
tick_check-IsKnown gone clock now h k v = tick_check-state_at gone clock now h k v
tick_check-IsKnown (spoke at) clock now h k v = (
  record {
    seen = now;
    past = omega arith;
    graded = tick_check-state_at (spoke at) clock now h k v;
  },
  unfold tick_check in v.1,
)

spoken :
    (now : ℕ) (h : ConnectionHealth)
    → h.state ≡ live
    → h.last_heartbeat_at ≡ some now
    → IsKnown (spoke now) now h
spoken now h e l =
    (record { seen = now; past = omega arith; graded = e ∙ fresh (now - now) (omega arith) }, l)
  where
    fresh : (n : ℕ) → n ≡ 0 → live ≡ grade n
    fresh n e = ground arith

step-IsKnown :
    (e : Event) (c : Contact) (clock : ℕ) (h : ConnectionHealth)
    → clock ≤ time_of e
    → IsKnown c clock h
    → IsKnown (heard e c) (time_of e) (step e h)
unfolding step
step-IsKnown (accepted now) c clock h k v = unfold connected in (refl, refl)
step-IsKnown (hello now) c clock h k v =
    spoken now (on_hello now h) (unfold on_hello in refl) (unfold on_hello in refl)
step-IsKnown (check now) c clock h k v = tick_check-IsKnown c clock now h k v
step-IsKnown (closed now) c clock h k v = unfold on_disconnect in refl
step-IsKnown (heartbeat now tick) c clock h k v =
    spoken now (on_heartbeat now tick h) (unfold on_heartbeat in refl) (unfold on_heartbeat in refl)

run-state_at :
    (es : List Event) (c : Contact) (clock now : ℕ) (h : ConnectionHealth)
    → IsOrdered clock (es ++ (check now ∷ []))
    → IsKnown c clock h
    → (tick_check now (run es h)).state ≡ state_at now (heard_all es c)
unfolding run
run-state_at [] c clock now h (k, tt) v = tick_check-state_at c clock now h k v
run-state_at (e ∷ es) c clock now h (k, later) v =
    run-state_at es (heard e c) (time_of e) now (step e h) later (step-IsKnown e c clock h k v)

-- Whatever happens to a new connection, at instants that do not run backwards: a check at the end finds it
-- connecting if nothing was heard since it was last accepted, lost if it closed after what was last heard,
-- and otherwise live, degraded or lost by the time since the newest hello or heartbeat (from 3 and from
-- 10 seconds on), whichever checks came in between.
pub run-tick_check :
    (es : List Event) (now : ℕ)
    → IsOrdered 0 (es ++ (check now ∷ []))
    → (tick_check now (run es connected)).state ≡ state_at now (heard_all es silent)
run-tick_check es now h =
    run-state_at es silent 0 now connected h (unfold connected in (refl, refl))

-- ===== src/Safety/Held.antt =====
-- What takes the system out of Quarantine and Stopped (core/governor/src/safety_state.rs).
use helter_skelter.Prelude.{◌≡◌, false, Text, text_eq}
use helter_skelter.Safety.Run.{Event, started, resolved, rolled_back}

-- What holds no simulation: a start, the resolve command, and a rollback of the simulation itself.
abbrev pub IsQuiet : Text → Event → Type 0
IsQuiet s (started db) = ⊥
IsQuiet s (resolved db works) = ⊥
IsQuiet s (rolled_back db sim tick) = text_eq sim s ≡ false
IsQuiet s _ = Unit

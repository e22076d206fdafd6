-- ===== src/Tests/Handlers.antt =====
-- Instances of the theorems about bridge/openrct2-plugin/src/commands.ts.
use helter_skelter.Prelude.{◌+◌, ◌≤◌, ◌≡◌, refl, [], ◌∷◌}
use helter_skelter.Commands.{to_error_info}
use helter_skelter.Commands.Cache.{lookup}
use helter_skelter.Commands.Handler.{handle, handle_all, start, after_query}
use helter_skelter.Commands.Replay.{handle_all-once}
use helter_skelter.Commands.Machine.{arrive, answered, run, step, pick, deliver, resume}
use helter_skelter.Commands.Machine.Once.{executions, idle, executions_le_one, executions_twice}
use helter_skelter.Tests.{request, fine, ask, act}

handle_all-once_example : handle_all ask act (request ∷ request ∷ []) 0 [] ≡ (
  (handle ask act request 0 []).0 ∷ (handle ask act request 0 []).0 ∷ [],
  (handle ask act request 0 []).1,
  (handle ask act request 0 []).2,
)
handle_all-once_example = handle_all-once ask act request (request ∷ []) 0 [] (refl, tt)

executions_le_one_example :
    executions request.idempotency_key
      (run (arrive request ∷ answered 0 fine ∷ answered 0 fine ∷ arrive request ∷ []) idle).calls
    ≤ 1
unfolding run step pick deliver start lookup resume after_query to_error_info
executions_le_one_example =
    executions_le_one request.idempotency_key
      (arrive request ∷ answered 0 fine ∷ answered 0 fine ∷ arrive request ∷ [])
      ((λ h. refl), (tt, (tt, ((λ h. refl), tt))))

executions_twice_example :
    executions request.idempotency_key
      (run (arrive request ∷ arrive request ∷ answered 0 fine ∷ answered 1 fine ∷ []) idle).calls
    ≡ 2 + executions request.idempotency_key idle.calls
unfolding lookup to_error_info
executions_twice_example = executions_twice request request idle fine refl refl refl

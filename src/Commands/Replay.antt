-- ===== src/Commands/Replay.antt =====
-- What `handleCommandRequest` (bridge/openrct2-plugin/src/commands.ts) promises when requests do not
-- overlap: a key takes effect once, and a refused query changes nothing.
use helter_skelter.Prelude.{
  Text, Option, none, some, List, [], ◌∷◌, ◌≡◌, ◌≢◌, is_some, refl, ap, not, All, Option-cases, inl,
  inr, arith, map,
}
use helter_skelter.Protocol.{CommandRequest, CommandResult, ErrorInfo}
use helter_skelter.Commands.{GameActionResult, GameAction, to_game_action, to_error_info}
use helter_skelter.Commands.Cache.{Cache, lookup, insert, lookup-insert_self}
use helter_skelter.Commands.Handler.{start, execute_outcome, handle, handle_all}

-- A result has a cost or an error, and not both.
abbrev pub IsSettled : CommandResult → Type 0
IsSettled r = is_some r.engine_cost ≡ not (is_some r.engine_error)

abbrev pub IsSettledEntry : Text × CommandResult → Type 0
IsSettledEntry (k, r) = IsSettled r

insert-IsSettled :
    (k : Text) (v : CommandResult) (c : Cache)
    → IsSettled v
    → All IsSettledEntry c
    → All IsSettledEntry (insert k v c)
unfolding insert
insert-IsSettled k v [] h settled = (h, tt)
insert-IsSettled k v ((j, w) ∷ c) h (first, rest) = ground (arith, insert-IsSettled k v c h rest)

lookup-IsSettled :
    (k : Text) (c : Cache) (v : CommandResult)
    → All IsSettledEntry c
    → lookup k c ≡ some v
    → IsSettled v
unfolding lookup
lookup-IsSettled k [] v settled e = cc
lookup-IsSettled k ((j, w) ∷ c) v (first, rest) e = ground (arith, lookup-IsSettled k c v rest)

execute_outcome-IsSettled :
    (result : GameActionResult) (e : Option ErrorInfo) → IsSettled (execute_outcome result e)
execute_outcome-IsSettled result none = refl
execute_outcome-IsSettled result (some e) = refl

module _ {World : Type 0} (query : GameAction → World → GameActionResult)
    (execute : GameAction → World → GameActionResult × World) where
  refused : ErrorInfo → CommandResult
  refused e = record { engine_cost = none; engine_error = some e }

  done : CommandRequest → World → CommandResult
  done r w =
      let result = (execute (to_game_action r.action) w).0 in
      execute_outcome result (to_error_info result)

  -- The three ways of one call.
  handle_of_lookup :
      (r : CommandRequest) (w : World) (c : Cache) (result : CommandResult)
      → lookup r.idempotency_key c ≡ some result
      → handle query execute r w c ≡ (result, w, c)
  unfolding handle
  handle_of_lookup r w c result e = rw (e, handle, start) refl

  handle_of_refused :
      (r : CommandRequest) (w : World) (c : Cache) (e : ErrorInfo)
      → lookup r.idempotency_key c ≡ none
      → to_error_info (query (to_game_action r.action) w) ≡ some e
      → handle query execute r w c ≡ (refused e, w, insert r.idempotency_key (refused e) c)
  unfolding handle refused
  handle_of_refused r w c e fresh error = ground arith

  handle_of_fine :
      (r : CommandRequest) (w : World) (c : Cache)
      → lookup r.idempotency_key c ≡ none
      → to_error_info (query (to_game_action r.action) w) ≡ none
      → handle query execute r w c
        ≡ (done r w, (execute (to_game_action r.action) w).1, insert r.idempotency_key (done r w) c)
  unfolding handle done
  handle_of_fine r w c fresh fine = ground arith

  -- The answer is on record when the handler is done.
  handle-recorded :
      (r : CommandRequest) (w : World) (c : Cache)
      → lookup r.idempotency_key (handle query execute r w c).2
        ≡ some (handle query execute r w c).0
  handle-recorded r w c = elim (Option-cases (lookup r.idempotency_key c)) [
    | inr (result, e) ↦ rw (handle_of_lookup r w c result e) e
    | inl fresh ↦ elim (Option-cases (to_error_info (query (to_game_action r.action) w))) [
      | inr (e, error) ↦ rw (handle_of_refused r w c e fresh error) (lookup-insert_self _ _ c)
      | inl fine ↦ rw (handle_of_fine r w c fresh fine) (lookup-insert_self _ _ c)
    ]
  ]

  handle_all_of_lookup :
      (k : Text) (rs : List CommandRequest) (w : World) (c : Cache) (result : CommandResult)
      → All (λ r. r.idempotency_key ≡ k) rs
      → lookup k c ≡ some result
      → handle_all query execute rs w c ≡ (map (λ r. result) rs, w, c)
  unfolding handle_all
  handle_all_of_lookup k [] w c result same e = refl
  handle_all_of_lookup k (r ∷ rs) w c result (key, same) e =
      rw (handle_of_lookup r w c result (rw key e))
        (rw (handle_all_of_lookup k rs w c result same e) refl)

  -- Of requests that share a key and are handled one after another, the first alone can change the
  -- game and the records, and each later one is answered as the first.
  pub handle_all-once :
      (r : CommandRequest) (rs : List CommandRequest) (w : World) (c : Cache)
      → All (λ s. s.idempotency_key ≡ r.idempotency_key) rs
      → let (result, w', c') = handle query execute r w c in
        handle_all query execute (r ∷ rs) w c ≡ (result ∷ map (λ s. result) rs, w', c')
  unfolding handle_all
  handle_all-once r rs w c same =
      let (result, w', c') = handle query execute r w c in
      rw (handle_all_of_lookup r.idempotency_key rs w' c' result same (handle-recorded r w c)) refl

  -- The game changes only where no result was on record under the key and the request's own query
  -- passed, and then by the execution of the request's action.
  handle-changes :
      (r : CommandRequest) (w : World) (c : Cache)
      → (handle query execute r w c).1 ≢ w
      → (lookup r.idempotency_key c ≡ none)
        × (to_error_info (query (to_game_action r.action) w) ≡ none)
        × ((handle query execute r w c).1 ≡ (execute (to_game_action r.action) w).1)
  handle-changes r w c changed = elim (Option-cases (lookup r.idempotency_key c)) [
    | inr (result, e) ↦ absurd (changed (ap (λ t. t.1) (handle_of_lookup r w c result e)))
    | inl fresh ↦ elim (Option-cases (to_error_info (query (to_game_action r.action) w))) [
      | inr (e, error) ↦ absurd (changed (ap (λ t. t.1) (handle_of_refused r w c e fresh error)))
      | inl fine ↦ (fresh, fine, ap (λ t. t.1) (handle_of_fine r w c fresh fine))
    ]
  ]

  done-IsSettled : (r : CommandRequest) (w : World) → IsSettled (done r w)
  unfolding done
  done-IsSettled r w =
      let result = (execute (to_game_action r.action) w).0 in
      execute_outcome-IsSettled result (to_error_info result)

  -- From records that are settled, a call gives a settled answer and keeps the records so.
  handle-IsSettled :
      (r : CommandRequest) (w : World) (c : Cache)
      → All IsSettledEntry c
      → IsSettled (handle query execute r w c).0 × All IsSettledEntry (handle query execute r w c).2
  handle-IsSettled r w c settled = elim (Option-cases (lookup r.idempotency_key c)) [
    | inr (result, e) ↦
        rw (handle_of_lookup r w c result e)
          (lookup-IsSettled r.idempotency_key c result settled e, settled)
    | inl fresh ↦ elim (Option-cases (to_error_info (query (to_game_action r.action) w))) [
      | inr (e, error) ↦
          let fact : IsSettled (refused e) = unfold refused in refl in
          rw (handle_of_refused r w c e fresh error)
            (fact, insert-IsSettled r.idempotency_key (refused e) c fact settled)
      | inl fine ↦
          let fact : IsSettled (done r w) = done-IsSettled r w in
          rw (handle_of_fine r w c fresh fine)
            (fact, insert-IsSettled r.idempotency_key (done r w) c fact settled)
    ]
  ]

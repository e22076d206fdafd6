-- ===== src/Operator/Window.antt =====
-- The operator (core/orchestrator/src/operator.rs) on the history that core/world-model/src/lib.rs keeps.
use mathlib.Core.List.{reverse, reverse-cons}
use helter_skelter.Prelude.{
  ℕ, zero, suc, ◌-◌, ◌≤◌, ◌<◌, ◌≡◌, refl, sym, ap, ◌∙◌, Bool-cases, inl, inr, Option-cases, List,
  [], ◌∷◌, ◌++◌, append-nil, append_assoc, length, take, take-append, drop, last_of, last_of-nil,
  last_of-append, length-append, length-drop, ltb, arith,
}
use helter_skelter.World.{Observed, WorldModel, max_history, empty, evict, record_snapshot}
use helter_skelter.Governor.{Constitution}
use helter_skelter.Operator.{back, propose_price_changes}

unfoldable pub record_all : List Observed → WorldModel → WorldModel
record_all [] w = w
record_all (s ∷ ss) w = record_all ss (record_snapshot s w)

evict-last_of : (ss : List Observed) → evict ss ≡ last_of max_history ss
unfolding evict
evict-last_of [] = refl
evict-last_of (s ∷ ss) = elim (Bool-cases (ltb max_history (length (s ∷ ss)))) [
  | inl over ↦ rw over (
      evict-last_of ss
      ∙ ap (λ n. drop n (s ∷ ss)) {x = suc (length ss - max_history)}
          {y = suc (length ss) - max_history} (ground arith))
  | inr within ↦
      rw within
        (ap (λ n. drop n (s ∷ ss)) {x = 0} {y = suc (length ss) - max_history} (ground arith))
]

record_all-last_of :
    (ss : List Observed) (w : WorldModel) (before : List Observed)
    → w.history ≡ last_of max_history before
    → (record_all ss w).history ≡ last_of max_history (before ++ ss)
unfolding record_all record_snapshot
record_all-last_of [] w before e = e ∙ ap (last_of max_history) (sym (append-nil before))
record_all-last_of (s ∷ ss) w before e =
    record_all-last_of ss (record_snapshot s w) (before ++ (s ∷ [])) (
      evict-last_of (w.history ++ (s ∷ []))
      ∙ ap (λ h. last_of max_history (h ++ (s ∷ []))) e
      ∙ last_of-append max_history before (s ∷ []))
    ∙ ap (last_of max_history) (append_assoc before (s ∷ []) ss)

module _ {A : Type 0} where
  length-reverse : (xs : List A) → length (reverse xs) ≡ length xs
  length-reverse [] = refl
  length-reverse (x ∷ xs) =
      ap length (reverse-cons x xs)
      ∙ omega (arith, length-append (reverse xs) (x ∷ []), length-reverse xs)

  take-last_of :
      (k n : ℕ) (xs : List A) → n ≤ k → take n (reverse (last_of k xs)) ≡ take n (reverse xs)
  take-last_of k n [] h = ap (λ l. take n (reverse l)) (last_of-nil k)
  take-last_of k n (x ∷ xs) h = elim (Bool-cases (ltb k (length (x ∷ xs)))) [
    | inl over ↦
        ap (λ m. take n (reverse (drop m (x ∷ xs)))) {x = suc (length xs) - k}
          {y = suc (length xs - k)} (ground arith)
        ∙ take-last_of k n xs h
        ∙ sym (take-append n (reverse xs) (x ∷ []) (ground (arith, length-reverse xs)))
        ∙ ap (take n) (sym (reverse-cons x xs))
    | inr within ↦
        ap (λ m. take n (reverse (drop m (x ∷ xs)))) {x = suc (length xs) - k} {y = 0}
          (ground arith)
  ]

  back-drop : (n : ℕ) (xs : List A) → n < length xs → back (drop n xs) ≡ back xs
  unfolding back
  back-drop zero xs h = refl
  back-drop (suc n) [] h = elim h [ ]
  back-drop (suc n) (x ∷ []) h = let none_left : ⊥ = omega (arith, h) in elim none_left [ ]
  back-drop (suc n) (x ∷ y ∷ xs) h = back-drop n (y ∷ xs) (omega (arith, h))

  back-last_of : (k : ℕ) (xs : List A) → 0 < k → back (last_of k xs) ≡ back xs
  back-last_of k [] h = ap back (last_of-nil k)
  back-last_of k (x ∷ xs) h = back-drop (suc (length xs) - k) (x ∷ xs) (omega (arith, h))

  length-last_of :
      (k n : ℕ) (xs : List A) → n ≤ k → ltb (length (last_of k xs)) n ≡ ltb (length xs) n
  length-last_of k n xs h = ground (arith, length-drop (length xs - k) xs)

propose_price_changes-last_of :
    {F : Type 0} (confidence : F) (c : Constitution F) (current_tick k : ℕ) (ss : List Observed)
    → 0 < k
    → c.consecutive_snapshots_required ≤ k
    → propose_price_changes confidence c current_tick (last_of k ss)
      ≡ propose_price_changes confidence c current_tick ss
unfolding propose_price_changes
propose_price_changes-last_of confidence c current_tick k ss some_kept h =
    let n = c.consecutive_snapshots_required in
    elim (Option-cases (back ss)) [
      | inl e ↦
          rw (back-last_of k ss some_kept ∙ e, propose_price_changes)
            (rw (e, propose_price_changes) refl)
      | inr (latest, e) ↦
          rw (back-last_of k ss some_kept ∙ e, propose_price_changes)
            (rw (e, propose_price_changes)
              (rw (length-last_of k n ss h) (rw (take-last_of k n ss h) refl)))
    ]

-- On the snapshots that a new world model recorded, of which it keeps the newest 64, the operator makes
-- the proposals that it would make on all of them, where the constitution asks for a pattern of at most
-- 64 snapshots.
pub record_all-propose_price_changes :
    {F : Type 0} (confidence : F) (c : Constitution F) (current_tick : ℕ) (ss : List Observed)
    → c.consecutive_snapshots_required ≤ max_history
    → propose_price_changes confidence c current_tick (record_all ss empty).history
      ≡ propose_price_changes confidence c current_tick ss
record_all-propose_price_changes confidence c current_tick ss h =
    let kept : (record_all ss empty).history ≡ last_of max_history ss =
      record_all-last_of ss empty [] (unfold empty in refl) in
    ap (propose_price_changes confidence c current_tick) kept
    ∙ propose_price_changes-last_of confidence c current_tick max_history ss (omega arith) h

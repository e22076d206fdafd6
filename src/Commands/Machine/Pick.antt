-- ===== src/Commands/Machine/Pick.antt =====
-- Taking one of the tasks in flight (bridge/openrct2-plugin/src/commands.ts): what it leaves.
use mathlib.Core.Path.{subst}
use mathlib.Core.Option
use mathlib.Core.Option.{some_inj}
use helter_skelter.Prelude.{
  ℕ, zero, suc, ◌+◌, ◌≤◌, ◌≡◌, refl, sym, ap, ◌∙◌, none, some, Option-cases, inl, inr, List, [],
  ◌∷◌, map, length, All, arith,
}
use helter_skelter.Commands.Machine.{pick}

module _ {ℓ} {A : Type ℓ} where
  abbrev pub weigh : (A → ℕ) → List A → ℕ
  weigh w [] = 0
  weigh w (x ∷ xs) = w x + weigh w xs

  pick-none : (i : ℕ) (x : A) (xs : List A) → pick i xs ≡ none → pick (suc i) (x ∷ xs) ≡ none
  unfolding pick
  pick-none i x xs e = rw (e, pick) refl

  pick-some :
      (i : ℕ) (x y : A) (xs rest : List A)
      → pick i xs ≡ some (y, rest)
      → pick (suc i) (x ∷ xs) ≡ some (y, x ∷ rest)
  unfolding pick
  pick-some i x y xs rest e = rw (e, pick) refl

  some-ne-none : {a : A × List A} → some a ≡ none → ⊥
  some-ne-none e = cc

  pub length-le_of_pick : (i : ℕ) (xs : List A) → pick i xs ≡ none → length xs ≤ i
  unfolding pick
  length-le_of_pick i [] e = omega arith
  length-le_of_pick zero (x ∷ xs) e = absurd (some-ne-none e)
  length-le_of_pick (suc i) (x ∷ xs) e = elim (Option-cases (pick i xs)) [
    | inl missing ↦ omega (arith, length-le_of_pick i xs missing)
    | inr ((y, rest), found) ↦ absurd (some-ne-none (sym (pick-some i x y xs rest found) ∙ e))
  ]

  pub weigh-pick :
      (w : A → ℕ) (i : ℕ) (xs rest : List A) (x : A)
      → pick i xs ≡ some (x, rest)
      → weigh w xs ≡ w x + weigh w rest
  unfolding pick
  weigh-pick w zero [] rest x e = cc
  weigh-pick w (suc i) [] rest x e = cc
  weigh-pick w zero (y ∷ xs) rest x e = ap (λ (o : A × List A). w o.0 + weigh w o.1) (some_inj.0 e)
  weigh-pick w (suc i) (y ∷ xs) rest x e = elim (Option-cases (pick i xs)) [
    | inl missing ↦ absurd (some-ne-none (sym e ∙ pick-none i y xs missing))
    | inr ((z, others), found) ↦
        let same = some_inj.0 (sym (pick-some i y z xs others found) ∙ e) in
        omega (
          arith,
          ap (λ (o : A × List A). w o.0 + weigh w o.1) same,
          weigh-pick w i xs others z found,
        )
  ]

pub pick-All {ℓ κ} :
    {A : Type ℓ} (P : A → Type κ) (i : ℕ) (xs rest : List A) (x : A)
    → pick i xs ≡ some (x, rest)
    → All P xs
    → P x × All P rest
unfolding pick
pick-All P zero [] rest x e h = cc
pick-All P (suc i) [] rest x e h = cc
pick-All {A = A} P zero (y ∷ xs) rest x e h =
    subst (λ (o : A × List A). P o.0 × All P o.1) (some_inj.0 e) h
pick-All {A = A} P (suc i) (y ∷ xs) rest x e (here, h) = elim (Option-cases (pick i xs)) [
  | inl missing ↦ absurd (some-ne-none (sym e ∙ pick-none i y xs missing))
  | inr ((z, others), found) ↦
      let (first, left) = pick-All P i xs others z found h in
      subst (λ (o : A × List A). P o.0 × All P o.1)
        (some_inj.0 (sym (pick-some i y z xs others found) ∙ e)) (first, (here, left))
]

pub pick-map {ℓ κ} :
    {A : Type ℓ} {B : Type κ} (f : A → B) (i : ℕ) (xs : List A)
    → pick i (map f xs) ≡ Option.map (λ (x, rest). (f x, map f rest)) (pick i xs)
unfolding pick
pick-map f zero [] = refl
pick-map f (suc i) [] = refl
pick-map f zero (x ∷ xs) = refl
pick-map f (suc i) (x ∷ xs) = elim (Option-cases (pick i xs)) [
  | inl e ↦
      rw (pick-none i (f x) (map f xs) (pick-map f i xs ∙ ap (Option.map _) e))
        (rw (pick-none i x xs e) refl)
  | inr ((y, rest), e) ↦
      rw (pick-some i (f x) (f y) (map f xs) (map f rest) (pick-map f i xs ∙ ap (Option.map _) e))
        (rw (pick-some i x y xs rest e) refl)
]

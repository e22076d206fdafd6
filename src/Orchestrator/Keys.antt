-- ===== src/Orchestrator/Keys.antt =====
-- The idempotency keys of the requests (core/orchestrator/src/tcp_server.rs).
use helter_skelter.Prelude.{
  ℕ, zero, suc, ◌/◌, ◌%◌, ◌≡◌, ◌≢◌, refl, sym, ap, ◌∙◌, Text, codes, [], ◌∷◌, ◌++◌, append_assoc,
  All, ◌==◌, Bool-cases, inl, inr, arith,
}
use helter_skelter.Radix.{digit, digits_from, to_string, read_from, read_from-to_string}
use helter_skelter.Orchestrator.Proposals.{idempotency_key_of}

-- No dash among the digits.
abbrev IsDashless : Text → Type 0
IsDashless s = All (λ c. c ≢ 45) s

digit-dashless : (d : ℕ) → digit d ≢ 45
unfolding digit
digit-dashless d e = ground arith

digits_from-IsDashless :
    (f n : ℕ) (acc : Text) → IsDashless acc → IsDashless (digits_from 10 f n acc)
unfolding digits_from
digits_from-IsDashless zero n acc v = v
digits_from-IsDashless (suc f) n acc v =
    let v' : IsDashless (digit (n % 10) ∷ acc) = (digit-dashless (n % 10), v) in
    elim (Bool-cases (n / 10 == 0)) [
      | inl last ↦ rw last v'
      | inr more ↦ rw more (digits_from-IsDashless f (n / 10) (digit (n % 10) ∷ acc) v')
    ]

-- What stands before the first dash is known from the whole.
before_dash :
    (xs ys s t : Text)
    → IsDashless xs
    → IsDashless ys
    → xs ++ (45 ∷ s) ≡ ys ++ (45 ∷ t)
    → (xs ≡ ys) × (s ≡ t)
before_dash [] [] s t v w e = (refl, cc)
before_dash [] (y ∷ ys) s t v (clear, w) e = absurd (clear cc)
before_dash (x ∷ xs) [] s t (clear, v) w e = absurd (clear cc)
before_dash (x ∷ xs) (y ∷ ys) s t (clear, v) (clear', w) e =
    let (same, rest) = before_dash xs ys s t v w cc in (cc, rest)

drop_front : (front s t : Text) → front ++ s ≡ front ++ t → s ≡ t
drop_front [] s t e = e
drop_front (c ∷ front) s t e = drop_front front s t cc

to_string_inj : (a b : ℕ) → to_string 10 a ≡ to_string 10 b → a ≡ b
to_string_inj a b e =
    sym (read_from-to_string 10 a (omega arith))
    ∙ ap (read_from 10 0) e
    ∙ read_from-to_string 10 b (omega arith)

to_string-IsDashless : (n : ℕ) → IsDashless (to_string 10 n)
unfolding to_string
to_string-IsDashless n = digits_from-IsDashless (suc n) n [] tt

abbrev front_of : Text → Text
front_of sim = codes "operator-sim" ++ sim ++ codes "-ride"

regrouped :
    (sim : Text) (ride tick : ℕ)
    → idempotency_key_of sim ride tick
      ≡ front_of sim ++ (to_string 10 ride ++ (codes "-tick" ++ to_string 10 tick))
regrouped sim ride tick =
    append_assoc (front_of sim ++ to_string 10 ride) (codes "-tick") (to_string 10 tick)
    ∙ append_assoc (front_of sim) (to_string 10 ride) (codes "-tick" ++ to_string 10 tick)

-- A key tells its ride and its tick.
pub key_inj :
    (sim : Text) (ride ride' tick tick' : ℕ)
    → idempotency_key_of sim ride tick ≡ idempotency_key_of sim ride' tick'
    → (ride ≡ ride') × (tick ≡ tick')
key_inj sim ride ride' tick tick' e =
    let same = sym (regrouped sim ride tick) ∙ e ∙ regrouped sim ride' tick' in
    let (same_ride, rest) =
      before_dash (to_string 10 ride) (to_string 10 ride') (codes "tick" ++ to_string 10 tick)
        (codes "tick" ++ to_string 10 tick') (to_string-IsDashless ride)
        (to_string-IsDashless ride') (drop_front (front_of sim) _ _ same) in
    (
      to_string_inj ride ride' same_ride,
      to_string_inj tick tick'
          (drop_front (codes "tick") (to_string 10 tick) (to_string 10 tick') rest),
    )

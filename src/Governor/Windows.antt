-- ===== src/Governor/Windows.antt =====
-- Counting events in a window of time, the newest first: what the budgets of core/governor/src/lib.rs
-- bound.
use helter_skelter.Prelude.{
  ℕ, suc, ◌-◌, ◌≤◌, ◌<◌, ◌&&◌, Bool-cases, inl, inr, List, [], ◌∷◌, ltb, leb, if◌then◌else◌, arith,
}

module _ {A : Type 0} (time : A → ℕ) where
  -- How many are younger than a duration.
  abbrev pub younger_count : ℕ → ℕ → List A → ℕ
  younger_count duration now [] = 0
  younger_count duration now (a ∷ log) =
      if ltb (now - time a) duration
      then suc (younger_count duration now log)
      else younger_count duration now log

  -- How many there are from the instant `until` back to a duration before it.
  abbrev pub in_window : ℕ → ℕ → List A → ℕ
  in_window duration until [] = 0
  in_window duration until (a ∷ log) =
      if leb (time a) until && ltb (until - time a) duration
      then suc (in_window duration until log)
      else in_window duration until log

  -- Each found the budget of the duration open.
  abbrev pub IsWithin : ℕ → ℕ → List A → Type 0
  IsWithin duration most [] = Unit {0}
  IsWithin duration most (a ∷ log) =
      (younger_count duration (time a) log < most) × IsWithin duration most log

  -- None is later than the clock, nor than the one before it in the list.
  abbrev pub IsPast : ℕ → List A → Type 0
  IsPast clock [] = Unit {0}
  IsPast clock (a ∷ log) = (time a ≤ clock) × IsPast (time a) log

  pub IsPast-later : (t clock : ℕ) (log : List A) → t ≤ clock → IsPast t log → IsPast clock log
  IsPast-later t clock [] h past = tt
  IsPast-later t clock (a ∷ log) h (here, past) = (omega (arith, h, here), past)

  in_window-le-younger :
      (d until t : ℕ) (log : List A)
      → t ≤ until
      → IsPast t log
      → in_window d until log ≤ younger_count d t log
  in_window-le-younger d until t [] h past = omega arith
  in_window-le-younger d until t (a ∷ log) h (here, past) =
      ground (arith, in_window-le-younger d until t log h (IsPast-later (time a) t log here past))

  pub in_window-le :
      (d until most clock : ℕ) (log : List A)
      → IsPast clock log
      → IsWithin d most log
      → in_window d until log ≤ most
  in_window-le d until most clock [] past v = omega arith
  in_window-le d until most clock (a ∷ log) (before_clock, past) (open_now, v) =
      elim (Bool-cases (leb (time a) until)) [
        | inl before ↦
            let t : time a ≤ until = ground arith in
            ground (arith, in_window-le-younger d until (time a) log t past)
        | inr after ↦ ground (arith, in_window-le d until most (time a) log past v)
      ]

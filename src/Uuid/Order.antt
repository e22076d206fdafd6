-- ===== src/Uuid/Order.antt =====
-- Identifiers of bridge/openrct2-plugin/src/uuid.ts sort by the time at which they were made.
use helter_skelter.Prelude.{
  ℕ, zero, suc, ◌/◌, ◌%◌, ◌^◌, ◌<◌, ◌≡◌, ◌⊎◌, refl, ◌∙◌, Bool, true, false, ◌&&◌, ◌||◌, inl, inr,
  [], ◌∷◌, Text, arith, ltb, ◌==◌,
}
use helter_skelter.Radix.{digit}
use helter_skelter.Uuid.{random_uuid_v7}
use helter_skelter.Uuid.Layout.{fixed, shift, random_part, uuid-layout}

-- `a < b` on strings of the language: by code units, from the left.
unfoldable pub text_lt : Text → Text → Bool
text_lt s [] = false
text_lt [] (y ∷ t) = true
text_lt (x ∷ s) (y ∷ t) = ltb x y || x == y && text_lt s t

text_lt-fixed_same : (w n : ℕ) (s t : Text) → text_lt (fixed w n s) (fixed w n t) ≡ text_lt s t
unfolding fixed
text_lt-fixed_same zero n s t = refl
text_lt-fixed_same (suc w) n s t =
    text_lt-fixed_same w (n / 16) (digit (n % 16) ∷ s) (digit (n % 16) ∷ t)
    ∙ unfold text_lt in ground arith

text_lt-digit : (c d : ℕ) (s t : Text) → c < d → d < 16 → text_lt (digit c ∷ s) (digit d ∷ t) ≡ true
unfolding text_lt digit
text_lt-digit c d s t h k = ground arith

-- Equal leading digits: the remaining ones decide.
text_lt-fixed :
    (w n m : ℕ) (s t : Text)
    → n < m
    → shift w n ≡ shift w m
    → text_lt (fixed w n s) (fixed w m t) ≡ true
unfolding fixed
text_lt-fixed zero n m s t h e = absurd (omega arith)
text_lt-fixed (suc w) n m s t h e = elim (compare_quotients n m h) [
  | inl less ↦ text_lt-fixed w (n / 16) (m / 16) (digit (n % 16) ∷ s) (digit (m % 16) ∷ t) less e
  | inr (same, below) ↦ rw same (
      text_lt-fixed_same w (m / 16) (digit (n % 16) ∷ s) (digit (m % 16) ∷ t)
      ∙ text_lt-digit (n % 16) (m % 16) s t below (omega arith))
]
  where
    compare_quotients :
        (n m : ℕ) → n < m → (n / 16 < m / 16) ⊎ ((n / 16 ≡ m / 16) × (n % 16 < m % 16))
    compare_quotients n m h = grind arith

high_digits : (n m : ℕ) → n < m → (shift 4 n < shift 4 m) ⊎ (shift 4 n ≡ shift 4 m)
high_digits n m h = grind arith

-- If the later clock is below 16 ^ 12 milliseconds, an identifier made at an earlier millisecond sorts
-- before any made later, whatever the random digits of both.
uuid_lt_of_lt :
    (draw later_draw : ℕ → ℕ) (now later : ℕ)
    → now < later
    → later < 16 ^ 12
    → text_lt (random_uuid_v7 draw now) (random_uuid_v7 later_draw later) ≡ true
uuid_lt_of_lt draw later_draw now later h bound = rw (uuid-layout draw now (omega arith)) (
    rw (uuid-layout later_draw later bound) (elim (high_digits now later h) [
      | inl less ↦
          text_lt-fixed 8 (shift 4 now) (shift 4 later) (b'-' ∷ fixed 4 now (random_part draw))
            (b'-' ∷ fixed 4 later (random_part later_draw)) less (omega arith)
      | inr same ↦ rw same (
          text_lt-fixed_same 8 (shift 4 later) (b'-' ∷ fixed 4 now (random_part draw))
            (b'-' ∷ fixed 4 later (random_part later_draw))
          ∙ unfold text_lt in
            text_lt-fixed 4 now later (random_part draw) (random_part later_draw) h same)
    ]))

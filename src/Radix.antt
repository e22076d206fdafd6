-- ===== src/Radix.antt =====
-- The language's printing of a natural number in a base up to 16, as `Number.prototype.toString(16)`
-- and `String(n)` do it, and the reading of its digits.
use native.Mathlib.Nat.{div-lt_self, zero-div}
use helter_skelter.Prelude.{
  ℕ, zero, suc, ◌+◌, ◌-◌, ◌*◌, ◌/◌, ◌%◌, ◌≤◌, ◌<◌, ◌≡◌, refl, true, false, [], ◌∷◌, ap, ◌∙◌, inl,
  inr, arith, ltb, ◌==◌, if◌then◌else◌, Bool-cases, Text, codes,
}

-- The code unit of a digit below 16: "0" to "9", then "a" to "f".
unfoldable pub digit : ℕ → ℕ
digit d = if ltb d 10 then 48 + d else 87 + d

-- The value of a digit's code unit; 0 for any other.
unfoldable pub digit_value : ℕ → ℕ
digit_value c = if ltb c 58 then c - 48 else c - 87

pub digit_value-digit : (d : ℕ) → digit_value (digit d) ≡ d
unfolding digit digit_value
digit_value-digit d = ground arith

-- The digits are put in front of `acc`, the last one first. The fuel bounds the number of digits.
unfoldable pub digits_from : ℕ → ℕ → ℕ → Text → Text
digits_from base zero n acc = acc
digits_from base (suc f) n acc =
    let more = digits_from base f (n / base) (digit (n % base) ∷ acc) in
    if n / base == 0 then digit (n % base) ∷ acc else more

-- A number has at most n + 1 digits.
unfoldable pub to_string : ℕ → ℕ → Text
unfolding digits_from digit
to_string base n = digits_from base (suc n) n []

unfoldable pub read_from : ℕ → ℕ → Text → ℕ
read_from base v [] = v
read_from base v (c ∷ s) = read_from base (v * base + digit_value c) s

-- One division step loses nothing.
pub regroup : (base n : ℕ) → n / base * base + n % base ≡ n
regroup base n = grind arith

pub div-lt-fuel : (base f n : ℕ) → 2 ≤ base → n < suc f → (n / base == 0) ≡ false → n / base < f
div-lt-fuel base f n b h e =
    let some_digit : 0 < n = ground (arith, zero-div base) in
    omega (arith, div-lt_self {n = n} {k = base} some_digit b)

last_digit : (base n : ℕ) → (n / base == 0) ≡ true → 0 * base + digit_value (digit (n % base)) ≡ n
last_digit base n e = grind (arith, digit_value-digit (n % base), regroup base n)

read_from-digits_from :
    (base f n : ℕ) (acc : Text)
    → 2 ≤ base
    → n < f
    → read_from base 0 (digits_from base f n acc) ≡ read_from base n acc
unfolding read_from digits_from
read_from-digits_from base zero n acc b h = elim h [ ]
read_from-digits_from base (suc f) n acc b h = elim (Bool-cases (n / base == 0)) [
  | inl last ↦ rw last (ap (λ v. read_from base v acc) (last_digit base n last))
  | inr more ↦ rw more (
      read_from-digits_from base f (n / base) (digit (n % base) ∷ acc) b
        (div-lt-fuel base f n b h more)
      ∙ rw digit_value-digit (ap (λ v. read_from base v acc) (regroup base n)))
]

-- The digits of a number read back as the number.
pub read_from-to_string : (base n : ℕ) → 2 ≤ base → read_from base 0 (to_string base n) ≡ n
unfolding to_string read_from
read_from-to_string base n b = read_from-digits_from base (suc n) n [] b (omega arith)

hex_ten : to_string 16 1784572210000 ≡ codes "19f80caeb50"
unfolding to_string
hex_ten = refl

-- ===== src/Json/Scalars.antt =====
-- A printed string or number is read back, whatever follows it.
use helter_skelter.Prelude.{
  ℕ, zero, suc, ◌+◌, ◌*◌, ◌/◌, ◌%◌, ◌≤◌, ◌<◌, ◌≡◌, ◌≢◌, inl, inr, refl, ap, ◌∙◌, Bool, true, false,
  ◌&&◌, ◌||◌, some, [], ◌∷◌, ◌==◌, Bool-cases, Text, arith,
}
use helter_skelter.Radix.{digit, digits_from, digit_value-digit}
use helter_skelter.Json.Stringify.{
  is_high, is_low, starts_low, hex_escape, print_unit, print_units, print_nat,
}
use helter_skelter.Json.Parse.{
  Mode, plain, escaped, hex, emit, goto, push, string_step, scan, is_digit, scan_digits, scan_nat,
  continues,
}

hex_step :
    (n v d : ℕ)
    → d < 16
    → (string_step (hex (suc n) v) (digit d) ≡ goto (hex n (v * 16 + d)))
      × (string_step (hex zero v) (digit d) ≡ emit (v * 16 + d))
unfolding string_step digit
hex_step n v d h = ground arith

-- The four digits of a unit make up the unit.
four_digits :
    (c : ℕ)
    → c < 65536
    → (((0 * 16 + c / 4096 % 16) * 16 + c / 256 % 16) * 16 + c / 16 % 16) * 16 + c % 16 ≡ c
four_digits c h = omega arith

scan-goto :
    (m m' : Mode) (c : ℕ) (s : Text) → string_step m c ≡ goto m' → scan m (c ∷ s) ≡ scan m' s
unfolding scan
scan-goto m m' c s e = rw (e, scan) refl

scan-emit :
    (m : Mode) (c u : ℕ) (s : Text)
    → string_step m c ≡ emit u
    → scan m (c ∷ s) ≡ push u (scan plain s)
unfolding scan
scan-emit m c u s e = rw (e, scan) refl

scan-hex_escape :
    (c : ℕ) (k : Text) → c < 65536 → scan plain (hex_escape c k) ≡ push c (scan plain k)
unfolding hex_escape
scan-hex_escape c k h =
    let (first, _) = hex_step 2 0 (c / 4096 % 16) (omega arith) in
    let (second, _) = hex_step 1 (0 * 16 + c / 4096 % 16) (c / 256 % 16) (omega arith) in
    let (third, _) =
      hex_step 0 ((0 * 16 + c / 4096 % 16) * 16 + c / 256 % 16) (c / 16 % 16) (omega arith) in
    let (_, last) =
      hex_step 0 (((0 * 16 + c / 4096 % 16) * 16 + c / 256 % 16) * 16 + c / 16 % 16) (c % 16)
        (omega arith) in
    scan-goto plain escaped b'\\' _ (unfold string_step in refl)
    ∙ scan-goto escaped (hex 3 0) b'u' _ (unfold string_step in refl)
    ∙ scan-goto _ _ _ _ first
    ∙ scan-goto _ _ _ _ second
    ∙ scan-goto _ _ _ _ third
    ∙ scan-emit _ _ _ k last
    ∙ ap (λ u. push u (scan plain k)) (four_digits c h)

-- A backslash and a letter.
scan-escape :
    (e u : ℕ) (k : Text)
    → string_step escaped e ≡ emit u
    → scan plain (b'\\' ∷ e ∷ k) ≡ push u (scan plain k)
scan-escape e u k h =
    scan-goto plain escaped b'\\' (e ∷ k) (unfold string_step in refl) ∙ scan-emit escaped e u k h

scan-plain :
    (c : ℕ) (k : Text) → 32 ≤ c → c ≢ b'"' → c ≢ b'\\' → scan plain (c ∷ k) ≡ push c (scan plain k)
scan-plain c k low quote slash = scan-emit plain c c k (unfold string_step in ground arith)

scan-print_unit :
    (p : Bool) (c : ℕ) (k : Text) → scan plain (print_unit p c k) ≡ push c (scan plain k)
unfolding print_unit
scan-print_unit p c k = ground (
  arith,
  scan-escape b'"' b'"' k (unfold string_step in refl),
  scan-escape b'\\' b'\\' k (unfold string_step in refl),
  scan-escape b'b' 8 k (unfold string_step in refl),
  scan-escape b't' 9 k (unfold string_step in refl),
  scan-escape b'n' 10 k (unfold string_step in refl),
  scan-escape b'f' 12 k (unfold string_step in refl),
  scan-escape b'r' 13 k (unfold string_step in refl),
  scan-hex_escape c k,
  scan-plain c k,
)

-- The units of a string and its closing quote are read back.
pub scan-print_units : (high : Bool) (s k : Text) → scan plain (print_units high s k) ≡ some (s, k)
unfolding print_units
scan-print_units high [] k = unfold scan in refl
scan-print_units high (c ∷ s) k =
    let high' = is_high c && starts_low s in
    scan-print_unit (high' || (high && is_low c)) c (print_units high' s k)
    ∙ ap (push c) (scan-print_units high' s k)

-- What follows a number does not go on with it.
abbrev pub goes_on : Text → Bool
goes_on [] = false
goes_on (c ∷ s) = is_digit c || c == b'.' || c == b'e' || c == b'E'

scan_digits-stop : (v : ℕ) (k : Text) → goes_on k ≡ false → scan_digits v k ≡ (v, k)
unfolding scan_digits
scan_digits-stop v [] h = refl
scan_digits-stop v (c ∷ s) h = ground arith

pub continues-stop : (k : Text) → goes_on k ≡ false → continues k ≡ false
unfolding continues
continues-stop [] h = refl
continues-stop (c ∷ s) h = ground arith

scan_digits-digit :
    (v d : ℕ) (k : Text) → d < 10 → scan_digits v (digit d ∷ k) ≡ scan_digits (v * 10 + d) k
unfolding scan_digits
scan_digits-digit v d k h =
    let is : is_digit (digit d) ≡ true = unfold digit in ground arith in
    rw (is, digit_value-digit) refl

scan_nat-digit :
    (d : ℕ) (k : Text) → 0 < d → d < 10 → scan_nat (digit d ∷ k) ≡ some (scan_digits d k)
unfolding scan_nat
scan_nat-digit d k low high =
    let is : is_digit (digit d) ≡ true = unfold digit in ground arith in
    let nonzero : (digit d == b'0') ≡ false = unfold digit in ground arith in
    rw nonzero (rw is (rw digit_value-digit refl))

scan_nat-digits_from :
    (f n : ℕ) (k : Text) → 0 < n → n < f → scan_nat (digits_from 10 f n k) ≡ some (scan_digits n k)
unfolding digits_from
scan_nat-digits_from zero n k low h = elim h [ ]
scan_nat-digits_from (suc f) n k low h = elim (Bool-cases (n / 10 == 0)) [
  | inl last ↦ rw last (
      scan_nat-digit (n % 10) k (ground arith) (omega arith)
      ∙ ap (λ v. some (scan_digits v k)) (ground arith))
  | inr more ↦ rw more (
      scan_nat-digits_from f (n / 10) (digit (n % 10) ∷ k) (ground arith) (ground arith)
      ∙ ap some (scan_digits-digit (n / 10) (n % 10) k (omega arith))
      ∙ ap (λ v. some (scan_digits v k)) (omega arith))
]

pub scan_nat-print_nat :
    (n : ℕ) (k : Text) → goes_on k ≡ false → scan_nat (print_nat n k) ≡ some (n, k)
unfolding print_nat
scan_nat-print_nat zero k h = unfold scan_nat digits_from digit in refl
scan_nat-print_nat (suc n) k h =
    scan_nat-digits_from (suc (suc n)) (suc n) k (omega arith) (omega arith)
    ∙ ap some (scan_digits-stop (suc n) k h)

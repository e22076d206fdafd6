-- ===== src/Uuid/Layout.antt =====
-- The layout of the generated identifiers (bridge/openrct2-plugin/src/uuid.ts): the timestamp's digits
-- at fixed width, and what follows them.
use helter_skelter.Prelude.{
  ℕ, zero, suc, ◌+◌, ◌-◌, ◌/◌, ◌%◌, ◌^◌, ◌<◌, ◌≡◌, refl, sym, ap, ◌∙◌, true, inl, inr, Bool-cases,
  List, [], ◌∷◌, ◌++◌, Text, codes, length, take, drop, replicate, get_or, arith, ◌==◌,
}
use helter_skelter.Radix.{digit, digits_from, to_string, div-lt-fuel}
use helter_skelter.Uuid.{pad_start, slice, join, random_below, random_hex, random_uuid_v7}

-- The last w digits of n, in base 16, in front of a text.
unfoldable pub fixed : ℕ → ℕ → Text → Text
fixed zero n acc = acc
fixed (suc w) n acc = fixed w (n / 16) (digit (n % 16) ∷ acc)

-- What is left of n without its last w digits.
abbrev pub shift : ℕ → ℕ → ℕ
shift zero n = n
shift (suc w) n = shift w (n / 16)

pub replicate-shift :
    {A : Type 0} (w : ℕ) (c : A) (s : List A) → replicate w c ++ (c ∷ s) ≡ c ∷ replicate w c ++ s
replicate-shift zero c s = refl
replicate-shift (suc w) c s = ap (λ t. c ∷ t) (replicate-shift w c s)

pad_by : ℕ → Text → Text
pad_by z s = replicate z b'0' ++ s

fixed-zero : (w : ℕ) (acc : Text) → fixed w 0 acc ≡ pad_by w acc
unfolding fixed digit pad_by
fixed-zero zero acc = refl
fixed-zero (suc w) acc = fixed-zero w (b'0' ∷ acc) ∙ replicate-shift w b'0' acc

pad-last :
    (w n : ℕ) (acc : Text)
    → (n / 16 == 0) ≡ true
    → pad_by (suc w + length acc - suc (length acc)) (digit (n % 16) ∷ acc) ≡ fixed (suc w) n acc
unfolding fixed
pad-last w n acc last =
    let none_left : n / 16 ≡ 0 = ground arith in
    rw none_left (
      ap (λ z. pad_by z (digit (n % 16) ∷ acc)) (omega arith)
      ∙ sym (fixed-zero w (digit (n % 16) ∷ acc)))

-- Padding the digits of a number that fits gives its digits at the fixed width.
pad-digits_from :
    (w f n : ℕ) (acc : Text)
    → n < f
    → shift (suc w) n ≡ 0
    → pad_by (suc w + length acc - length (digits_from 16 f n acc)) (digits_from 16 f n acc)
      ≡ fixed (suc w) n acc
unfolding digits_from
pad-digits_from w zero n acc h z = elim h [ ]
pad-digits_from zero (suc f) n acc h z =
    rw (ap (λ q. q == 0) z) (pad-last 0 n acc (ap (λ q. q == 0) z))
pad-digits_from (suc w) (suc f) n acc h z = elim (Bool-cases (n / 16 == 0)) [
  | inl last ↦ rw last (pad-last (suc w) n acc last)
  | inr more ↦ rw more (
      ap (λ q. pad_by q (digits_from 16 f (n / 16) (digit (n % 16) ∷ acc))) (omega arith)
      ∙ pad-digits_from w f (n / 16) (digit (n % 16) ∷ acc)
          (div-lt-fuel 16 f n (omega arith) h more) z
      ∙ unfold fixed in refl)
]

pad_start-to_string : (n : ℕ) → n < 16 ^ 12 → pad_start 12 b'0' (to_string 16 n) ≡ fixed 12 n []
pad_start-to_string n h =
    unfold to_string pad_by in pad-digits_from 11 (suc n) n [] (omega arith) (omega arith)

fixed-append : (w n : ℕ) (a k : Text) → fixed w n a ++ k ≡ fixed w n (a ++ k)
unfolding fixed
fixed-append zero n a k = refl
fixed-append (suc w) n a k = fixed-append w (n / 16) (digit (n % 16) ∷ a) k

length-fixed : (w n : ℕ) (a : Text) → length (fixed w n a) ≡ w + length a
unfolding fixed
length-fixed zero n a = omega arith
length-fixed (suc w) n a = omega (arith, length-fixed w (n / 16) (digit (n % 16) ∷ a))

take-append : (n : ℕ) (a k : Text) → length a ≡ n → take n (a ++ k) ≡ a
take-append zero [] k h = refl
take-append zero (x ∷ a) k h = absurd (omega arith)
take-append (suc n) [] k h = absurd (omega arith)
take-append (suc n) (x ∷ a) k h = ap (λ t. x ∷ t) (take-append n a k (omega arith))

drop-append : (n : ℕ) (a k : Text) → length a ≡ n → drop n (a ++ k) ≡ k
drop-append zero [] k h = refl
drop-append zero (x ∷ a) k h = absurd (omega arith)
drop-append (suc n) [] k h = absurd (omega arith)
drop-append (suc n) (x ∷ a) k h = drop-append n a k (omega arith)

take-fixed : (w n : ℕ) (k : Text) → take w (fixed w n k) ≡ fixed w n []
take-fixed w n k =
    rw (← fixed-append w n [] k)
      (take-append w (fixed w n []) k (omega (arith, length-fixed w n [])))

drop-fixed : (w n : ℕ) (k : Text) → drop w (fixed w n k) ≡ k
drop-fixed w n k =
    let split : fixed w n k ≡ fixed w n [] ++ k = sym (fixed-append w n [] k) in
    ap (drop w) split ∙ drop-append w (fixed w n []) k (omega (arith, length-fixed w n []))

fixed-12 : (n : ℕ) → fixed 12 n [] ≡ fixed 8 (shift 4 n) (fixed 4 n [])
unfolding fixed
fixed-12 n = refl

slice-high : (n : ℕ) → slice 0 8 (fixed 12 n []) ≡ fixed 8 (shift 4 n) []
slice-high n = rw (fixed-12 n) (take-fixed 8 (shift 4 n) (fixed 4 n []))

slice-low : (n : ℕ) → slice 8 12 (fixed 12 n []) ≡ fixed 4 n []
slice-low n =
    ap (λ t. take 4 (drop 8 t)) (fixed-12 n)
    ∙ ap (take 4) (drop-fixed 8 (shift 4 n) (fixed 4 n []))
    ∙ take-fixed 4 n []

-- What stands behind the digits of the timestamp.
unfoldable pub random_part : (ℕ → ℕ) → Text
random_part draw =
    b'-' ∷ b'7' ∷ random_hex draw 1 3
    ++ (b'-' ∷ get_or (codes "89ab") (random_below 4 (draw 0)) 0 ∷ random_hex draw 4 3
        ++ (b'-' ∷ random_hex draw 7 12))

-- An identifier is the digits of its time, with a dash behind the eighth, and the random part.
pub uuid-layout :
    (draw : ℕ → ℕ) (now : ℕ)
    → now < 16 ^ 12
    → random_uuid_v7 draw now ≡ fixed 8 (shift 4 now) (b'-' ∷ fixed 4 now (random_part draw))
uuid-layout draw now h =
    unfold random_uuid_v7 join random_part in
    rw (pad_start-to_string now h) (
      rw (slice-high now) (
        rw (slice-low now)
          (rw (fixed-append 8 (shift 4 now) [] _) (rw (fixed-append 4 now [] _) refl))))

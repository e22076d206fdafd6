-- ===== src/Json/Steps.antt =====
-- The steps of the parser on the parts of a printed value.
use helter_skelter.Prelude.{
  ℕ, zero, suc, ◌/◌, ◌%◌, ◌≤◌, ◌<◌, ◌≡◌, inl, inr, refl, ◌∙◌, Bool, true, false, some, ◌∷◌, ◌==◌,
  Bool-cases, Text, codes, arith,
}
use helter_skelter.Prelude.Int.{ℤ, pos, negsuc}
use helter_skelter.Radix.{digit, digits_from}
use helter_skelter.Json.{
  Json, null, bool, num, str, arr, obj, Items, nil, cons, Members, end, member,
}
use helter_skelter.Json.Stringify.{
  word, print_units, print_str, print_nat, print_num, print, print_more_items, print_more_members,
}
use helter_skelter.Json.Parse.{
  scan_nat, whole, negate, scalar, Next, quote, open_array, open_object, other, next, parse_value,
  parse_array, parse_more_items, parse_object, parse_member, parse_more_members, ◌>>=◌,
}
use helter_skelter.Json.Scalars.{scan-print_units, goes_on, continues-stop, scan_nat-print_nat}

-- A value starts here.
abbrev begins : Next → Bool
begins (quote r) = true
begins (open_array r) = true
begins (open_object r) = true
begins (other c r) = true
begins _ = false

digits_from-cons :
    (f n : ℕ) (k : Text)
    → n < f
    → (d : ℕ) × (r : Text) × (d < 10) × (digits_from 10 f n k ≡ digit d ∷ r)
unfolding digits_from
digits_from-cons zero n k h = elim h [ ]
digits_from-cons (suc f) n k h = elim (Bool-cases (n / 10 == 0)) [
  | inl last ↦ (n % 10, k, omega arith, rw last refl)
  | inr more ↦
      let (d, r, small, e) = digits_from-cons f (n / 10) (digit (n % 10) ∷ k) (ground arith) in
      (d, r, small, rw more e)
]

next-digit : (d : ℕ) (r : Text) → d < 10 → next (digit d ∷ r) ≡ other (digit d) r
unfolding next digit
next-digit d r h = ground arith

scalar-number : (c : ℕ) (r : Text) → 48 ≤ c → c < 58 → scalar c r ≡ (scan_nat (c ∷ r) >>= whole pos)
unfolding scalar
scalar-number c r low high = ground arith

scalar-digit :
    (d : ℕ) (r : Text) → d < 10 → scalar (digit d) r ≡ (scan_nat (digit d ∷ r) >>= whole pos)
scalar-digit d r h =
    scalar-number (digit d) r (unfold digit in ground arith) (unfold digit in ground arith)

whole-stop :
    (sign : ℕ → ℤ) (n : ℕ) (k : Text)
    → goes_on k ≡ false
    → whole sign (n, k) ≡ some (num (sign n), k)
whole-stop sign n k h = rw (continues-stop k h) refl

parse_value-other : (f c : ℕ) (s r : Text) → next s ≡ other c r → parse_value (suc f) s ≡ scalar c r
unfolding parse_value
parse_value-other f c s r e = rw (e, parse_value) refl

parse_value-print_nat :
    (f n : ℕ) (k : Text)
    → goes_on k ≡ false
    → parse_value (suc f) (print_nat n k) ≡ some (num (pos n), k)
parse_value-print_nat f n k h =
    let (d, r, small, e) = digits_from-cons (suc n) n k (omega arith) in
    let e' : print_nat n k ≡ digit d ∷ r = unfold print_nat in e in
    rw e' (parse_value-other f (digit d) (digit d ∷ r) r (next-digit d r small))
    ∙ scalar-digit d r small
    ∙ rw (← e') (rw (scan_nat-print_nat n k h) (whole-stop pos n k h))

pub parse_value-print_num :
    (f : ℕ) (n : ℤ) (k : Text)
    → goes_on k ≡ false
    → parse_value (suc f) (print_num n k) ≡ some (num n, k)
unfolding print_num
parse_value-print_num f (pos n) k h = parse_value-print_nat f n k h
parse_value-print_num f (negsuc n) k h =
    parse_value-other f b'-' (b'-' ∷ print_nat (suc n) k) (print_nat (suc n) k)
      (unfold next in refl)
    ∙ unfold scalar in refl ∙ rw (scan_nat-print_nat (suc n) k h) (whole-stop negate (suc n) k h)

pub parse_value-print_str :
    (f : ℕ) (s k : Text) → parse_value (suc f) (print_str s k) ≡ some (str s, k)
unfolding parse_value next print_str scalar
parse_value-print_str f s k = rw (scan-print_units false s k) refl

print_nat-begins : (n : ℕ) (k : Text) → begins (next (print_nat n k)) ≡ true
print_nat-begins n k =
    let (d, r, small, e) = digits_from-cons (suc n) n k (omega arith) in
    let e' : print_nat n k ≡ digit d ∷ r = unfold print_nat in e in
    rw (e', next-digit d r small) refl

pub print-begins : (v : Json) (k : Text) → begins (next (print v k)) ≡ true
unfolding print
print-begins null k = unfold next in refl
print-begins (bool true) k = unfold next in refl
print-begins (bool false) k = unfold next in refl
print-begins (num (pos n)) k = unfold print_num in print_nat-begins n k
print-begins (num (negsuc n)) k = unfold print_num next in refl
print-begins (str s) k = unfold print_str next in refl
print-begins (arr xs) k = unfold next in refl
print-begins (obj ms) k = unfold next in refl

-- An array that does not close at once has a first item.
parse_array-first :
    (f : ℕ) (s : Text)
    → begins (next s) ≡ true
    → parse_array (suc f) s
      ≡ (parse_value f s >>= (λ (v, r). parse_more_items f r >>= (λ (vs, q). some (cons v vs, q))))
unfolding parse_array
parse_array-first f s h = ground arith

parse_member-print :
    (f : ℕ) (j s : Text)
    → parse_member (suc f) (print_units false j (b':' ∷ s)) ≡ (
        parse_value f s
        >>= (λ (v, q). parse_more_members f q >>= (λ (ms, t). some (member j v ms, t))))
unfolding parse_member next
parse_member-print f j s = rw (scan-print_units false j (b':' ∷ s)) refl

pub more_items-stop : (vs : Items) (k : Text) → goes_on (print_more_items vs k) ≡ false
unfolding print_more_items
more_items-stop nil k = refl
more_items-stop (cons v vs) k = refl

pub more_members-stop : (ms : Members) (k : Text) → goes_on (print_more_members ms k) ≡ false
unfolding print_more_members
more_members-stop end k = refl
more_members-stop (member j v ms) k = refl

module _ (f : ℕ) (s : Text) {p q : Text} {v : Json} (value : parse_value f s ≡ some (v, p)) where
  module _ {vs : Items} (items : parse_more_items f p ≡ some (vs, q)) where
    pub parse_array-cons : begins (next s) ≡ true → parse_array (suc f) s ≡ some (cons v vs, q)
    parse_array-cons h = parse_array-first f s h ∙ rw value (rw items refl)

    pub parse_more_items-cons : parse_more_items (suc f) (b',' ∷ s) ≡ some (cons v vs, q)
    parse_more_items-cons = unfold parse_more_items next in rw value (rw items refl)

  module _ {ms : Members} (j : Text) (members : parse_more_members f p ≡ some (ms, q)) where
    pub parse_member-member :
        parse_member (suc f) (print_units false j (b':' ∷ s)) ≡ some (member j v ms, q)
    parse_member-member = parse_member-print f j s ∙ rw value (rw members refl)

pub parse_value-array :
    (f : ℕ) (s : Text) {k : Text} {xs : Items}
    → parse_array f s ≡ some (xs, k)
    → parse_value (suc f) (b'[' ∷ s) ≡ some (arr xs, k)
parse_value-array f s e = unfold parse_value next in rw e refl

pub parse_value-object :
    (f : ℕ) (s : Text) {k : Text} {ms : Members}
    → parse_object f s ≡ some (ms, k)
    → parse_value (suc f) (b'{' ∷ s) ≡ some (obj ms, k)
parse_value-object f s e = unfold parse_value next in rw e refl

module _ (f : ℕ) (k : Text) where
  pub parse_value-null : parse_value (suc f) (word (codes "null") k) ≡ some (null, k)
  unfolding parse_value next scalar
  parse_value-null = refl

  pub parse_value-bool : (b : Bool) → parse_value (suc f) (print (bool b) k) ≡ some (bool b, k)
  unfolding parse_value next scalar print
  parse_value-bool true = refl
  parse_value-bool false = refl

  pub parse_array-nil : parse_array (suc f) (b']' ∷ k) ≡ some (nil, k)
  unfolding parse_array next
  parse_array-nil = refl

  pub parse_more_items-nil : parse_more_items (suc f) (b']' ∷ k) ≡ some (nil, k)
  unfolding parse_more_items next
  parse_more_items-nil = refl

  pub parse_object-end : parse_object (suc f) (b'}' ∷ k) ≡ some (end, k)
  unfolding parse_object next
  parse_object-end = refl

  pub parse_more_members-end : parse_more_members (suc f) (b'}' ∷ k) ≡ some (end, k)
  unfolding parse_more_members next
  parse_more_members-end = refl

  pub parse_object-quote : parse_object (suc f) (b'"' ∷ k) ≡ parse_member f k
  unfolding parse_object next
  parse_object-quote = refl

  pub parse_more_members-quote : parse_more_members (suc f) (b',' ∷ b'"' ∷ k) ≡ parse_member f k
  unfolding parse_more_members next
  parse_more_members-quote = refl

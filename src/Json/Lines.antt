-- ===== src/Json/Lines.antt =====
-- JSON.stringify prints no line feed, so a printed value is one line.
use helter_skelter.Prelude.{
  ℕ, zero, suc, ◌/◌, ◌%◌, ◌≢◌, inl, inr, Bool, true, false, ◌&&◌, ◌||◌, [], ◌∷◌, ◌==◌, Bool-cases,
  Text, arith, All,
}
use helter_skelter.Prelude.Int.{ℤ, pos, negsuc}
use helter_skelter.Radix.{digit, digits_from}
use helter_skelter.Json.{
  Json, null, bool, num, str, arr, obj, Items, nil, cons, Members, end, member,
}
use helter_skelter.Json.Stringify.{
  is_high, is_low, starts_low, print_unit, print_units, hex_escape, print_str, print_nat, print_num,
  print, print_items, print_more_items, print_members, print_more_members, stringify,
}

-- A text on one line.
abbrev pub OneLine : Text → Type 0
OneLine = All (λ c. c ≢ 10)

digit-ne-feed : (d : ℕ) → digit d ≢ 10
unfolding digit
digit-ne-feed d = ground arith

hex_escape-OneLine : (c : ℕ) (k : Text) → OneLine k → OneLine (hex_escape c k)
unfolding hex_escape
hex_escape-OneLine c k h = ground arith

print_unit-OneLine : (p : Bool) (c : ℕ) (k : Text) → OneLine k → OneLine (print_unit p c k)
unfolding print_unit
print_unit-OneLine p c k h = ground (arith, hex_escape-OneLine c k)

print_units-OneLine : (high : Bool) (s k : Text) → OneLine k → OneLine (print_units high s k)
unfolding print_units
print_units-OneLine high [] k h = ((omega arith), h)
print_units-OneLine high (c ∷ s) k h =
    let high' = is_high c && starts_low s in
    print_unit-OneLine (high' || (high && is_low c)) c (print_units high' s k)
      (print_units-OneLine high' s k h)

digits_from-OneLine : (f n : ℕ) (k : Text) → OneLine k → OneLine (digits_from 10 f n k)
unfolding digits_from
digits_from-OneLine zero n k h = h
digits_from-OneLine (suc f) n k h =
    let here : OneLine (digit (n % 10) ∷ k) = (digit-ne-feed (n % 10), h) in
    elim (Bool-cases (n / 10 == 0)) [
      | inl last ↦ rw last here
      | inr more ↦ rw more (digits_from-OneLine f (n / 10) (digit (n % 10) ∷ k) here)
    ]

print_num-OneLine : (n : ℤ) (k : Text) → OneLine k → OneLine (print_num n k)
unfolding print_num print_nat
print_num-OneLine (pos n) k h = digits_from-OneLine (suc n) n k h
print_num-OneLine (negsuc n) k h = ((omega arith), digits_from-OneLine (suc (suc n)) (suc n) k h)

mutual
  unfolding print print_str

  print-OneLine : (v : Json) (k : Text) → OneLine k → OneLine (print v k)
  print-OneLine null k h = ground arith
  print-OneLine (bool true) k h = ground arith
  print-OneLine (bool false) k h = ground arith
  print-OneLine (num n) k h = print_num-OneLine n k h
  print-OneLine (str s) k h = ((omega arith), print_units-OneLine false s k h)
  print-OneLine (arr xs) k h = ((omega arith), print_items-OneLine xs k h)
  print-OneLine (obj ms) k h = ((omega arith), print_members-OneLine ms k h)

  print_items-OneLine : (xs : Items) (k : Text) → OneLine k → OneLine (print_items xs k)
  print_items-OneLine nil k h = ((omega arith), h)
  print_items-OneLine (cons v vs) k h =
      print-OneLine v (print_more_items vs k) (print_more_items-OneLine vs k h)

  print_more_items-OneLine : (xs : Items) (k : Text) → OneLine k → OneLine (print_more_items xs k)
  print_more_items-OneLine nil k h = ((omega arith), h)
  print_more_items-OneLine (cons v vs) k h =
      ((omega arith), print-OneLine v (print_more_items vs k) (print_more_items-OneLine vs k h))

  print_members-OneLine : (ms : Members) (k : Text) → OneLine k → OneLine (print_members ms k)
  print_members-OneLine end k h = ((omega arith), h)
  print_members-OneLine (member j v ms) k h = (
    (omega arith),
    print_units-OneLine false j (b':' ∷ print v (print_more_members ms k)) (
      (omega arith),
      print-OneLine v (print_more_members ms k) (print_more_members-OneLine ms k h),
    ),
  )

  print_more_members-OneLine :
      (ms : Members) (k : Text) → OneLine k → OneLine (print_more_members ms k)
  print_more_members-OneLine end k h = ((omega arith), h)
  print_more_members-OneLine (member j v ms) k h = (
    (omega arith),
    (
      (omega arith),
      print_units-OneLine false j (b':' ∷ print v (print_more_members ms k)) (
        (omega arith),
        print-OneLine v (print_more_members ms k) (print_more_members-OneLine ms k h),
      ),
    ),
  )

-- No printed value holds a line feed: a feed inside a string is escaped.
pub stringify-OneLine : (v : Json) → OneLine (stringify v)
unfolding stringify
stringify-OneLine v = print-OneLine v [] tt

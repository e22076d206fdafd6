-- ===== src/Json/RoundTrip.antt =====
-- What JSON.stringify prints, JSON.parse reads back.
use helter_skelter.Prelude.{
  ℕ, zero, suc, ◌+◌, ◌*◌, ◌/◌, ◌%◌, ◌≤◌, ◌<◌, ◌≡◌, refl, Bool, true, false, ◌&&◌, ◌||◌, some, [],
  ◌∷◌, Text, length, arith,
}
use helter_skelter.Prelude.Int.{ℤ, pos, negsuc}
use helter_skelter.Radix.{digit, digits_from}
use helter_skelter.Json.{
  Json, null, bool, num, str, arr, obj, Items, nil, cons, Members, end, member,
}
use helter_skelter.Json.Stringify.{
  is_high, is_low, starts_low, print_unit, print_units, hex_escape, print_str, print_nat, print_num,
  print, print_items, print_more_items, print_members, print_more_members, stringify,
}
use helter_skelter.Json.Parse.{parse}
use helter_skelter.Json.Values.{size, size_items, size_members, value-print}

print_unit-grows : (p : Bool) (c : ℕ) (k : Text) → length k ≤ length (print_unit p c k)
unfolding print_unit hex_escape
print_unit-grows p c k = ground arith

print_units-grows : (h : Bool) (s k : Text) → suc (length k) ≤ length (print_units h s k)
unfolding print_units
print_units-grows h [] k = omega arith
print_units-grows h (c ∷ s) k =
    let high = is_high c && starts_low s in
    omega (
      arith,
      print_unit-grows (high || (h && is_low c)) c (print_units high s k),
      print_units-grows high s k,
    )

digits_from-grows : (f n : ℕ) (k : Text) → n < f → suc (length k) ≤ length (digits_from 10 f n k)
unfolding digits_from
digits_from-grows zero n k h = elim h [ ]
digits_from-grows (suc f) n k h = ground (arith, digits_from-grows f (n / 10) (digit (n % 10) ∷ k))

print_num-grows : (n : ℤ) (k : Text) → suc (length k) ≤ length (print_num n k)
unfolding print_num print_nat
print_num-grows (pos n) k = digits_from-grows (suc n) n k (omega arith)
print_num-grows (negsuc n) k =
    omega (arith, digits_from-grows (suc (suc n)) (suc n) k (omega arith))

-- Four units of fuel for each unit of text are enough.
mutual
  unfolding size print print_str

  size-print : (v : Json) (k : Text) → size v + 4 * length k ≤ 4 * length (print v k)
  size-print null k = omega arith
  size-print (bool true) k = omega arith
  size-print (bool false) k = omega arith
  size-print (num n) k = omega (arith, print_num-grows n k)
  size-print (str s) k = omega (arith, print_units-grows false s k)
  size-print (arr xs) k = omega (arith, size-print_items xs k)
  size-print (obj ms) k = omega (arith, size-print_members ms k)

  size-print_items :
      (xs : Items) (k : Text) → size_items xs + 4 * length k ≤ 2 + 4 * length (print_items xs k)
  size-print_items nil k = omega arith
  size-print_items (cons v vs) k =
      omega (arith, size-print v (print_more_items vs k), size-print_more_items vs k)

  size-print_more_items :
      (xs : Items) (k : Text) → size_items xs + 4 * length k ≤ 4 * length (print_more_items xs k)
  size-print_more_items nil k = omega arith
  size-print_more_items (cons v vs) k =
      omega (arith, size-print v (print_more_items vs k), size-print_more_items vs k)

  size-print_members :
      (ms : Members) (k : Text)
      → size_members ms + 4 * length k ≤ 2 + 4 * length (print_members ms k)
  size-print_members end k = omega arith
  size-print_members (member j v ms) k = omega (
    arith,
    print_units-grows false j (b':' ∷ print v (print_more_members ms k)),
    size-print v (print_more_members ms k),
    size-print_more_members ms k,
  )

  size-print_more_members :
      (ms : Members) (k : Text)
      → size_members ms + 4 * length k ≤ 4 * length (print_more_members ms k)
  size-print_more_members end k = omega arith
  size-print_more_members (member j v ms) k = omega (
    arith,
    print_units-grows false j (b':' ∷ print v (print_more_members ms k)),
    size-print v (print_more_members ms k),
    size-print_more_members ms k,
  )

-- What JSON.stringify prints of a value, JSON.parse reads back as that value.
pub parse-stringify : (v : Json) → parse (stringify v) ≡ some v
unfolding parse stringify
parse-stringify v =
    rw (value-print v (suc (4 * length (print v []))) [] (omega (arith, size-print v [])) refl) refl

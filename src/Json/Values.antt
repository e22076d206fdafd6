-- ===== src/Json/Values.antt =====
-- The parser, on enough fuel, reads back every printed value, whatever delimited text follows it.
use helter_skelter.Prelude.{ℕ, zero, suc, ◌+◌, ◌≤◌, ◌≡◌, ◌∙◌, false, some, ◌∷◌, Text, arith}
use helter_skelter.Json.{
  Json, null, bool, num, str, arr, obj, Items, nil, cons, Members, end, member,
}
use helter_skelter.Json.Stringify.{
  print_units, print_str, print, print_items, print_more_items, print_members, print_more_members,
}
use helter_skelter.Json.Parse.{
  parse_value, parse_array, parse_more_items, parse_object, parse_more_members,
}
use helter_skelter.Json.Scalars.{goes_on}
use helter_skelter.Json.Steps.{
  parse_array-cons, parse_more_items-cons, parse_member-member, parse_value-print_num,
  parse_value-print_str, print-begins, more_items-stop, more_members-stop, parse_value-array,
  parse_value-object, parse_value-null, parse_value-bool, parse_array-nil, parse_more_items-nil,
  parse_object-end, parse_more_members-end, parse_object-quote, parse_more_members-quote,
}

unfoldable mutual
  pub size : Json → ℕ
  size null = 1
  size (bool b) = 1
  size (num n) = 1
  size (str s) = 1
  size (arr xs) = 2 + size_items xs
  size (obj ms) = 2 + size_members ms

  pub size_items : Items → ℕ
  size_items nil = 1
  size_items (cons v vs) = 1 + size v + size_items vs

  pub size_members : Members → ℕ
  size_members end = 1
  size_members (member j v ms) = 2 + size v + size_members ms

mutual
  unfolding size print print_str

  pub value-print :
      (v : Json) (f : ℕ) (k : Text)
      → size v ≤ f
      → goes_on k ≡ false
      → parse_value f (print v k) ≡ some (v, k)
  value-print null zero k h g = absurd (omega arith)
  value-print null (suc f) k h g = parse_value-null f k
  value-print (bool b) zero k h g = absurd (omega arith)
  value-print (bool b) (suc f) k h g = parse_value-bool f k b
  value-print (num n) zero k h g = absurd (omega arith)
  value-print (num n) (suc f) k h g = parse_value-print_num f n k g
  value-print (str s) zero k h g = absurd (omega arith)
  value-print (str s) (suc f) k h g = parse_value-print_str f s k
  value-print (arr xs) zero k h g = absurd (omega arith)
  value-print (arr xs) (suc f) k h g =
      parse_value-array f (print_items xs k) (array-print xs f k (omega arith))
  value-print (obj ms) zero k h g = absurd (omega arith)
  value-print (obj ms) (suc f) k h g =
      parse_value-object f (print_members ms k) (object-print ms f k (omega arith))

  array-print :
      (xs : Items) (f : ℕ) (k : Text)
      → 1 + size_items xs ≤ f
      → parse_array f (print_items xs k) ≡ some (xs, k)
  array-print nil zero k h = absurd (omega arith)
  array-print (cons v vs) zero k h = absurd (omega arith)
  array-print nil (suc f) k h = parse_array-nil f k
  array-print (cons v vs) (suc f) k h =
      parse_array-cons f (print v (print_more_items vs k))
        (value-print v f (print_more_items vs k) (omega arith) (more_items-stop vs k))
        (more_items-print vs f k (omega arith)) (print-begins v (print_more_items vs k))

  more_items-print :
      (xs : Items) (f : ℕ) (k : Text)
      → size_items xs ≤ f
      → parse_more_items f (print_more_items xs k) ≡ some (xs, k)
  more_items-print nil zero k h = absurd (omega arith)
  more_items-print (cons v vs) zero k h = absurd (omega arith)
  more_items-print nil (suc f) k h = parse_more_items-nil f k
  more_items-print (cons v vs) (suc f) k h =
      parse_more_items-cons f (print v (print_more_items vs k))
        (value-print v f (print_more_items vs k) (omega arith) (more_items-stop vs k))
        (more_items-print vs f k (omega arith))

  object-print :
      (ms : Members) (f : ℕ) (k : Text)
      → 1 + size_members ms ≤ f
      → parse_object f (print_members ms k) ≡ some (ms, k)
  object-print end zero k h = absurd (omega arith)
  object-print (member j v ms) zero k h = absurd (omega arith)
  object-print (member j v ms) (suc zero) k h = absurd (omega arith)
  object-print end (suc f) k h = parse_object-end f k
  object-print (member j v ms) (suc (suc f)) k h =
      parse_object-quote (suc f) (print_units false j (b':' ∷ print v (print_more_members ms k)))
      ∙ parse_member-member f (print v (print_more_members ms k))
          (value-print v f (print_more_members ms k) (omega arith) (more_members-stop ms k)) j
          (more_members-print ms f k (omega arith))

  more_members-print :
      (ms : Members) (f : ℕ) (k : Text)
      → size_members ms ≤ f
      → parse_more_members f (print_more_members ms k) ≡ some (ms, k)
  more_members-print end zero k h = absurd (omega arith)
  more_members-print (member j v ms) zero k h = absurd (omega arith)
  more_members-print (member j v ms) (suc zero) k h = absurd (omega arith)
  more_members-print end (suc f) k h = parse_more_members-end f k
  more_members-print (member j v ms) (suc (suc f)) k h =
      parse_more_members-quote (suc f)
        (print_units false j (b':' ∷ print v (print_more_members ms k)))
      ∙ parse_member-member f (print v (print_more_members ms k))
          (value-print v f (print_more_members ms k) (omega arith) (more_members-stop ms k)) j
          (more_members-print ms f k (omega arith))

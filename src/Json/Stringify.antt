-- ===== src/Json/Stringify.antt =====
-- JSON.stringify of the language, without indentation.
use helter_skelter.Prelude.{
  ℕ, suc, ◌/◌, ◌%◌, ◌≡◌, refl, Bool, true, false, not, ◌&&◌, ◌||◌, [], ◌∷◌, ◌++◌, ltb, leb, ◌==◌,
  if◌then◌else◌, Text, codes,
}
use helter_skelter.Prelude.Int.{ℤ, pos, negsuc}
use helter_skelter.Radix.{digit, digits_from}
use helter_skelter.Json.{
  Json, null, bool, num, str, arr, obj, Items, nil, cons, Members, end, member,
}

abbrev pub is_high : ℕ → Bool
is_high c = leb 55296 c && ltb c 56320

abbrev pub is_low : ℕ → Bool
is_low c = leb 56320 c && ltb c 57344

unfoldable pub starts_low : Text → Bool
starts_low [] = false
starts_low (c ∷ s) = is_low c

-- Each printer puts its text in front of the text that follows.

-- \uXXXX
unfoldable pub hex_escape : ℕ → Text → Text
unfolding digit
hex_escape c k =
    b'\\'
    ∷ b'u'
    ∷ digit (c / 4096 % 16)
    ∷ digit (c / 256 % 16)
    ∷ digit (c / 16 % 16)
    ∷ digit (c % 16)
    ∷ k

-- A unit below 32.
control_escape : ℕ → Text → Text
control_escape c k =
    if c == 8
    then b'\\' ∷ b'b' ∷ k
    else if c == 9
    then b'\\' ∷ b't' ∷ k
    else if c == 10
    then b'\\' ∷ b'n' ∷ k
    else if c == 12
    then b'\\' ∷ b'f' ∷ k
    else if c == 13
    then b'\\' ∷ b'r' ∷ k
    else hex_escape c k

-- A surrogate is kept if it is one half of a pair.
unfoldable pub print_unit : Bool → ℕ → Text → Text
unfolding control_escape
print_unit paired c k =
    if c == b'"'
    then b'\\' ∷ b'"' ∷ k
    else if c == b'\\'
    then b'\\' ∷ b'\\' ∷ k
    else if ltb c 32
    then control_escape c k
    else if (is_high c || is_low c) && not paired
    then hex_escape c k
    else c ∷ k

-- The units of a text and its closing quote; `after_high` tells whether the unit before was the
-- first half of a pair.
unfoldable pub print_units : Bool → Text → Text → Text
unfolding print_unit starts_low
print_units after_high [] k = b'"' ∷ k
print_units after_high (c ∷ s) k =
    let high = is_high c && starts_low s in
    print_unit (high || (after_high && is_low c)) c (print_units high s k)

unfoldable pub print_str : Text → Text → Text
unfolding print_units
print_str s k = b'"' ∷ print_units false s k

unfoldable pub print_nat : ℕ → Text → Text
unfolding digits_from
print_nat n k = digits_from 10 (suc n) n k

unfoldable pub print_num : ℤ → Text → Text
unfolding print_nat
print_num (pos n) k = print_nat n k
print_num (negsuc n) k = b'-' ∷ print_nat (suc n) k

-- The words `null`, `true` and `false`.
abbrev pub word : Text → Text → Text
word [] k = k
word (c ∷ s) k = c ∷ word s k

unfoldable mutual
  pub print : Json → Text → Text
  print null k = word (codes "null") k
  print (bool true) k = word (codes "true") k
  print (bool false) k = word (codes "false") k
  print (num n) k = print_num n k
  print (str s) k = print_str s k
  print (arr xs) k = b'[' ∷ print_items xs k
  print (obj ms) k = b'{' ∷ print_members ms k

  -- The items behind the opening bracket.
  pub print_items : Items → Text → Text
  print_items nil k = b']' ∷ k
  print_items (cons v vs) k = print v (print_more_items vs k)

  pub print_more_items : Items → Text → Text
  print_more_items nil k = b']' ∷ k
  print_more_items (cons v vs) k = b',' ∷ print v (print_more_items vs k)

  pub print_members : Members → Text → Text
  print_members end k = b'}' ∷ k
  print_members (member j v ms) k = print_str j (b':' ∷ print v (print_more_members ms k))

  pub print_more_members : Members → Text → Text
  print_more_members end k = b'}' ∷ k
  print_more_members (member j v ms) k =
      b',' ∷ print_str j (b':' ∷ print v (print_more_members ms k))

-- `JSON.stringify(value)`.
unfoldable pub stringify : Json → Text
unfolding print print_str print_num hex_escape
stringify v = print v []

stringify_test :
    stringify (
      obj (
        member
          (codes "a")
          (arr (cons (num (negsuc 11)) (cons (bool true) nil)))
          (member (codes "b") (str (34 ∷ 10 ∷ 1 ∷ 55357 ∷ 56832 ∷ 55357 ∷ [])) end)))
    ≡ codes "{\"a\":[-12,true],\"b\":\"\\\"\\n\\u0001" ++ 55357 ∷ 56832 ∷ codes "\\ud83d\"}"
unfolding stringify
stringify_test = refl

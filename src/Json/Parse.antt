-- ===== src/Json/Parse.antt =====
-- JSON.parse of the language. A number with a fraction or an exponent, which no message of the
-- protocol holds, is refused here.
use helter_skelter.Prelude.{
  ℕ, zero, suc, ◌+◌, ◌*◌, ◌≡◌, refl, Bool, true, false, ◌&&◌, ◌||◌, Option, none, some, [], ◌∷◌,
  ltb, leb, ◌==◌, if◌then◌else◌, Text, codes, length,
}
use helter_skelter.Prelude.Int.{ℤ, pos, negsuc}
use helter_skelter.Radix.{digit_value}
use helter_skelter.Json.{
  Json, null, bool, num, str, arr, obj, Items, nil, cons, Members, end, member,
}

infixl 5 ◌>>=◌
abbrev pub ◌>>=◌ {ℓ κ} : {A : Type ℓ} {B : Type κ} → Option A → (A → Option B) → Option B
none >>= k = none
some a >>= k = k a

abbrev pub is_space : ℕ → Bool
is_space c = c == 32 || c == 9 || c == 10 || c == 13

unfoldable pub skip_ws : Text → Text
skip_ws [] = []
skip_ws (c ∷ s) = if is_space c then skip_ws s else c ∷ s

-- Inside a string: between two units, behind a backslash, or with some hexadecimal digits to come.
pub data Mode : Type 0 where
  plain : Mode
  escaped : Mode
  hex : ℕ → ℕ → Mode

pub data Action : Type 0 where
  close : Action
  fail : Action
  goto : Mode → Action
  emit : ℕ → Action

abbrev pub is_digit : ℕ → Bool
is_digit c = leb 48 c && ltb c 58

unfoldable pub is_hex : ℕ → Bool
is_hex c = is_digit c || (leb 97 c && ltb c 103)

-- Capital digits are read as the small ones.
unfoldable pub small : ℕ → ℕ
small c = if leb 65 c && ltb c 71 then c + 32 else c

unfoldable pub escaped_unit : ℕ → Action
escaped_unit c =
    if c == b'"'
    then emit b'"'
    else if c == b'\\'
    then emit b'\\'
    else if c == b'/'
    then emit b'/'
    else if c == b'b'
    then emit 8
    else if c == b'f'
    then emit 12
    else if c == b'n'
    then emit 10
    else if c == b'r'
    then emit 13
    else if c == b't'
    then emit 9
    else if c == b'u'
    then goto (hex 3 0)
    else fail

unfoldable pub string_step : Mode → ℕ → Action
unfolding escaped_unit is_hex small digit_value
string_step plain c =
    if c == b'"'
    then close
    else if c == b'\\'
    then goto escaped
    else if ltb c 32
    then fail
    else emit c
string_step escaped c = escaped_unit c
string_step (hex zero v) c =
    if is_hex (small c) then emit (v * 16 + digit_value (small c)) else fail
string_step (hex (suc n) v) c =
    if is_hex (small c) then goto (hex n (v * 16 + digit_value (small c))) else fail

abbrev pub push : ℕ → Option (Text × Text) → Option (Text × Text)
push c none = none
push c (some (s, rest)) = some (c ∷ s, rest)

-- The text up to the closing quote, and what follows it.
unfoldable pub scan : Mode → Text → Option (Text × Text)
unfolding string_step
scan m [] = none
scan m (c ∷ s) = elim (string_step m c) [
  | close ↦ some ([], s)
  | fail ↦ none
  | goto m' ↦ scan m' s
  | emit u ↦ push u (scan plain s)
]

unfoldable pub scan_digits : ℕ → Text → ℕ × Text
scan_digits v [] = (v, [])
scan_digits v (c ∷ s) =
    let more = scan_digits (v * 10 + digit_value c) s in if is_digit c then more else (v, c ∷ s)

-- No leading zero.
unfoldable pub scan_nat : Text → Option (ℕ × Text)
unfolding scan_digits digit_value
scan_nat [] = none
scan_nat (c ∷ s) =
    if c == b'0'
    then some (0, s)
    else if is_digit c
    then some (scan_digits (digit_value c) s)
    else none

-- A fraction or an exponent follows.
unfoldable pub continues : Text → Bool
continues [] = false
continues (c ∷ s) = c == b'.' || c == b'e' || c == b'E'

abbrev pub whole : (ℕ → ℤ) → ℕ × Text → Option (Json × Text)
whole sign (n, s) = if continues s then none else some (num (sign n), s)

abbrev pub negate : ℕ → ℤ
negate zero = pos 0
negate (suc n) = negsuc n

abbrev pub expect : Text → Json → Text → Option (Json × Text)
expect [] v s = some (v, s)
expect (c ∷ w) v [] = none
expect (c ∷ w) v (d ∷ s) = if d == c then expect w v s else none

-- A value that is neither an array nor an object; `c` is its first unit.
unfoldable pub scalar : ℕ → Text → Option (Json × Text)
scalar c s =
    if c == b'"'
    then scan plain s >>= (λ (t, r). some (str t, r))
    else if c == b'n'
    then expect (codes "ull") null s
    else if c == b't'
    then expect (codes "rue") (bool true) s
    else if c == b'f'
    then expect (codes "alse") (bool false) s
    else if c == b'-'
    then scan_nat s >>= whole negate
    else scan_nat (c ∷ s) >>= whole pos

-- The next unit that is no white space, and the text behind it.
pub data Next : Type 0 where
  stop : Next
  close_array close_object comma colon quote open_array open_object : Text → Next
  other : ℕ → Text → Next

abbrev pub next_of : ℕ → Text → Next
next_of c s =
    if c == b']'
    then close_array s
    else if c == b'}'
    then close_object s
    else if c == b','
    then comma s
    else if c == b':'
    then colon s
    else if c == b'"'
    then quote s
    else if c == b'['
    then open_array s
    else if c == b'{'
    then open_object s
    else other c s

unfoldable pub next : Text → Next
unfolding skip_ws
next s = elim (skip_ws s) [ [] ↦ stop | c ∷ r ↦ next_of c r ]

abbrev pub as_array : Option (Items × Text) → Option (Json × Text)
as_array none = none
as_array (some (vs, r)) = some (arr vs, r)

abbrev pub as_object : Option (Members × Text) → Option (Json × Text)
as_object none = none
as_object (some (ms, r)) = some (obj ms, r)

-- Each call spends a unit of fuel.
unfoldable mutual
  pub parse_value : ℕ → Text → Option (Json × Text)
  parse_value zero s = none
  parse_value (suc f) s = elim (next s) [
    | quote r ↦ scalar b'"' r
    | other c r ↦ scalar c r
    | open_array r ↦ as_array (parse_array f r)
    | open_object r ↦ as_object (parse_object f r)
    | _ ↦ none
  ]

  -- Behind the opening bracket.
  pub parse_array : ℕ → Text → Option (Items × Text)
  parse_array zero s = none
  parse_array (suc f) s = elim (next s) [
    | close_array r ↦ some (nil, r)
    | _ ↦ parse_value f s >>= (λ (v, r). parse_more_items f r >>= (λ (vs, q). some (cons v vs, q)))
  ]

  pub parse_more_items : ℕ → Text → Option (Items × Text)
  parse_more_items zero s = none
  parse_more_items (suc f) s = elim (next s) [
    | close_array r ↦ some (nil, r)
    | comma r ↦
        parse_value f r >>= (λ (v, p). parse_more_items f p >>= (λ (vs, q). some (cons v vs, q)))
    | _ ↦ none
  ]

  pub parse_object : ℕ → Text → Option (Members × Text)
  parse_object zero s = none
  parse_object (suc f) s = elim (next s) [
    | close_object r ↦ some (end, r)
    | quote r ↦ parse_member f r
    | _ ↦ none
  ]

  -- Behind the opening quote of the name.
  pub parse_member : ℕ → Text → Option (Members × Text)
  parse_member zero s = none
  parse_member (suc f) s = scan plain s >>= (λ (j, r). elim (next r) [
    | colon p ↦
        parse_value f p
        >>= (λ (v, q). parse_more_members f q >>= (λ (ms, t). some (member j v ms, t)))
    | _ ↦ none
  ])

  pub parse_more_members : ℕ → Text → Option (Members × Text)
  parse_more_members zero s = none
  parse_more_members (suc f) s = elim (next s) [
    | close_object r ↦ some (end, r)
    | comma r ↦ elim (next r) [ quote q ↦ parse_member f q | _ ↦ none ]
    | _ ↦ none
  ]

-- Nothing but white space may follow the value.
abbrev pub finish : Option (Json × Text) → Option Json
finish none = none
finish (some (v, r)) = elim (next r) [ stop ↦ some v | _ ↦ none ]

-- `JSON.parse(text)`, `none` where it throws. A text of n units has less than 4 * n + 1 nested calls.
unfoldable pub parse : Text → Option Json
unfolding parse_value scalar next scan scan_nat continues
parse s = finish (parse_value (suc (4 * length s)) s)

parse_test :
    parse (codes " {\"a\" :[-12, true],\"b\":\"\\n\\uD83d\\/\"}")
    ≡ some (
        obj (
          member
            (codes "a")
            (arr (cons (num (negsuc 11)) (cons (bool true) nil)))
            (member (codes "b") (str (10 ∷ 55357 ∷ 47 ∷ [])) end)))
unfolding parse
parse_test = refl

parse_refuses : parse (codes "{\"a\":01}") ≡ none
unfolding parse
parse_refuses = refl

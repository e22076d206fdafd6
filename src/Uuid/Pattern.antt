-- ===== src/Uuid/Pattern.antt =====
-- The identifiers of bridge/openrct2-plugin/src/uuid.ts against the pattern of message_id in
-- bridge/protocol/envelope.schema.json.
use helter_skelter.Prelude.{
  ℕ, zero, suc, ◌+◌, ◌/◌, ◌%◌, ◌^◌, ◌<◌, ◌≡◌, refl, sym, ap, ◌∙◌, Bool, true, false, ◌&&◌, ◌||◌,
  List, [], ◌∷◌, ◌++◌, Text, codes, replicate, get_or, arith, leb, ltb, ◌==◌, append_assoc,
  append-nil,
}
use helter_skelter.Radix.{digit, digits_from, to_string}
use helter_skelter.Uuid.Layout.{fixed, shift, replicate-shift, random_part, uuid-layout}
use helter_skelter.Uuid.{random_below, random_hex_from, random_hex, random_uuid_v7}

-- The character classes of the pattern in bridge/protocol/envelope.schema.json.
pub data Class : Type 0 where
  hex variant : Class
  unit : ℕ → Class

pub in_class : Class → ℕ → Bool
in_class hex c = leb 48 c && ltb c 58 || leb 97 c && ltb c 103 || leb 65 c && ltb c 71
in_class variant c = c == b'8' || c == b'9' || c == b'a' || c == b'b' || c == b'A' || c == b'B'
in_class (unit u) c = c == u

pub matches : List Class → Text → Bool
matches [] [] = true
matches [] (c ∷ s) = false
matches (k ∷ ks) [] = false
matches (k ∷ ks) (c ∷ s) = in_class k c && matches ks s

pub uuid_v7_pattern : List Class
uuid_v7_pattern =
    replicate 8 hex
    ++ (unit b'-' ∷ replicate 4 hex
        ++ (unit b'-' ∷ unit b'7' ∷ replicate 3 hex
            ++ (unit b'-' ∷ variant ∷ replicate 3 hex ++ (unit b'-' ∷ replicate 12 hex))))

digit-hex : (d : ℕ) → d < 16 → in_class hex (digit d) ≡ true
unfolding in_class digit
digit-hex d h = ground arith

matches-fixed :
    (w n : ℕ) (ks : List Class) (k : Text)
    → matches ks k ≡ true
    → matches (replicate w hex ++ ks) (fixed w n k) ≡ true
unfolding fixed
matches-fixed zero n ks k h = h
matches-fixed (suc w) n ks k h = rw (← replicate-shift w hex ks) (
    matches-fixed w (n / 16) (hex ∷ ks) (digit (n % 16) ∷ k)
      (unfold matches in rw (digit-hex (n % 16) (omega arith)) h))

random_digit : (d : ℕ) → d < 16 → to_string 16 d ≡ digit d ∷ []
unfolding to_string digits_from
random_digit d h = rw (rest, same) refl
  where
    rest : (d / 16 == 0) ≡ true
    rest = ground arith

    same : d % 16 ≡ d
    same = omega arith

module _ (draw : ℕ → ℕ) where
  random_hex_from-append :
      (chars i : ℕ) (s : Text)
      → random_hex_from draw chars i s ≡ s ++ random_hex_from draw chars i []
  unfolding random_hex_from
  random_hex_from-append zero i s = sym (append-nil s)
  random_hex_from-append (suc chars) i s =
      let d = to_string 16 (random_below 16 (draw i)) in
      random_hex_from-append chars (i + 1) (s ++ d)
      ∙ append_assoc s d (random_hex_from draw chars (i + 1) [])
      ∙ ap (λ t. s ++ t) (sym (random_hex_from-append chars (i + 1) d))

  module _ (in_range : (i : ℕ) → draw i < 2 ^ 53) where
    matches-random_hex_from :
        (chars i : ℕ) (ks : List Class) (k : Text)
        → matches ks k ≡ true
        → matches (replicate chars hex ++ ks) (random_hex_from draw chars i [] ++ k) ≡ true
    unfolding random_hex_from matches
    matches-random_hex_from zero i ks k h = h
    matches-random_hex_from (suc chars) i ks k h =
        let d = random_below 16 (draw i) in
        let small : d < 16 = omega (arith, in_range i) in
        rw (random_digit d small) (
          rw (random_hex_from-append chars (i + 1) (digit d ∷ []))
            (rw (digit-hex d small) (matches-random_hex_from chars (i + 1) ks k h)))

variant_nibble : (d : ℕ) → d < 4 → in_class variant (get_or (codes "89ab") d 0) ≡ true
unfolding in_class
variant_nibble zero h = refl
variant_nibble (suc zero) h = refl
variant_nibble (suc (suc zero)) h = refl
variant_nibble (suc (suc (suc zero))) h = refl
variant_nibble (suc (suc (suc (suc d)))) h = absurd (omega arith)

module _ (draw : ℕ → ℕ) (in_range : (i : ℕ) → draw i < 2 ^ 53) where
  last_group : matches (replicate 12 hex) (random_hex draw 7 12) ≡ true
  unfolding random_hex
  last_group =
      rw (append-nil (random_hex_from draw 12 7 [])) at
        (matches-random_hex_from draw in_range 12 7 [] [] (unfold matches in refl))

  variant_group :
      matches (variant ∷ replicate 3 hex ++ (unit b'-' ∷ replicate 12 hex)) (
        get_or (codes "89ab") (random_below 4 (draw 0)) 0 ∷ random_hex draw 4 3
        ++ (b'-' ∷ random_hex draw 7 12))
      ≡ true
  unfolding random_hex
  variant_group =
      let low : random_below 4 (draw 0) < 4 = omega (arith, in_range 0) in
      let behind =
        matches-random_hex_from draw in_range 3 4 (unit b'-' ∷ replicate 12 hex)
          (b'-' ∷ random_hex draw 7 12) (unfold matches in_class in last_group) in
      unfold matches in rw (variant_nibble (random_below 4 (draw 0)) low) behind

  matches-random_part :
      matches
        (unit b'-' ∷ unit b'7' ∷ replicate 3 hex
          ++ (unit b'-' ∷ variant ∷ replicate 3 hex ++ (unit b'-' ∷ replicate 12 hex)))
        (random_part draw)
      ≡ true
  unfolding random_hex random_part
  matches-random_part =
      let behind =
        matches-random_hex_from draw in_range 3 1
          (unit b'-' ∷ variant ∷ replicate 3 hex ++ (unit b'-' ∷ replicate 12 hex))
          (b'-' ∷ get_or (codes "89ab") (random_below 4 (draw 0)) 0 ∷ random_hex draw 4 3
            ++ (b'-' ∷ random_hex draw 7 12))
          (unfold matches in_class in variant_group) in
      unfold matches in_class in behind

  -- If each draw is below 2 ^ 53 and the clock below 16 ^ 12 milliseconds, the identifier matches the pattern that the schema of
  -- the envelope asks of message_id.
  pub uuid-matches :
      (now : ℕ) → now < 16 ^ 12 → matches uuid_v7_pattern (random_uuid_v7 draw now) ≡ true
  unfolding uuid_v7_pattern
  uuid-matches now h = rw (uuid-layout draw now h) (
      matches-fixed 8 (shift 4 now)
        (unit b'-' ∷ replicate 4 hex
          ++ (unit b'-' ∷ unit b'7' ∷ replicate 3 hex
              ++ (unit b'-' ∷ variant ∷ replicate 3 hex ++ (unit b'-' ∷ replicate 12 hex))))
        (b'-' ∷ fixed 4 now (random_part draw)) (behind_dash now))
    where
      behind_dash :
          (now : ℕ)
          → matches
              (unit b'-' ∷ replicate 4 hex
                ++ (unit b'-' ∷ unit b'7' ∷ replicate 3 hex
                    ++ (unit b'-' ∷ variant ∷ replicate 3 hex ++ (unit b'-' ∷ replicate 12 hex))))
              (b'-' ∷ fixed 4 now (random_part draw))
            ≡ true
      behind_dash now =
          unfold matches in_class in
          matches-fixed 4 now
            (unit b'-' ∷ unit b'7' ∷ replicate 3 hex
              ++ (unit b'-' ∷ variant ∷ replicate 3 hex ++ (unit b'-' ∷ replicate 12 hex)))
            (random_part draw) matches-random_part

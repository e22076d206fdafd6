-- ===== src/Uuid.antt =====
-- bridge/openrct2-plugin/src/uuid.ts. `Math.random()` is a fraction k / 2 ^ 53 with k < 2 ^ 53; the
-- i-th call of one `randomUuidV7()` gives the numerator `draw i`. `Date.now()` is the argument `now`.
mod Layout
pub mod Pattern
pub mod Order
use helter_skelter.Prelude.{
  ℕ, zero, suc, ◌+◌, ◌-◌, ◌*◌, ◌/◌, ◌^◌, ◌≡◌, refl, List, [], ◌∷◌, ◌++◌, Text, codes, length, take,
  drop, replicate, get_or,
}
use helter_skelter.Radix.{to_string}

-- `s.padStart(n, c)` and `s.slice(i, j)` of the language.
abbrev pub pad_start : ℕ → ℕ → Text → Text
pad_start n c s = replicate (n - length s) c ++ s

abbrev pub slice : ℕ → ℕ → Text → Text
slice i j s = take (j - i) (drop i s)

-- `parts.join(separator)`.
unfoldable pub join : Text → List Text → Text
join sep [] = []
join sep (p ∷ []) = p
join sep (p ∷ q ∷ ps) = p ++ (sep ++ join sep (q ∷ ps))

-- `Math.floor(Math.random() * m)`.
abbrev pub random_below : ℕ → ℕ → ℕ
random_below m k = k * m / 2 ^ 53

module _ (draw : ℕ → ℕ) where
  -- The loop of `randomHex`, from the draw `i` on.
  random_hex_from : ℕ → ℕ → Text → Text
  unfolding to_string
  random_hex_from zero i s = s
  random_hex_from (suc chars) i s =
      random_hex_from chars (i + 1) (s ++ to_string 16 (random_below 16 (draw i)))

  unfoldable pub random_hex : ℕ → ℕ → Text
  unfolding random_hex_from
  random_hex i chars = random_hex_from chars i []

  unfoldable pub random_uuid_v7 : ℕ → Text
  random_uuid_v7 now =
      let timestamp_hex = pad_start 12 b'0' (to_string 16 now) in
      let variant_nibble = get_or (codes "89ab") (random_below 4 (draw 0)) 0 in
      join (codes "-") (
        slice 0 8 timestamp_hex
        ∷ slice 8 12 timestamp_hex
        ∷ (b'7' ∷ random_hex 1 3)
        ∷ (variant_nibble ∷ random_hex 4 3)
        ∷ random_hex 7 12
        ∷ [])

uuid_test :
    random_uuid_v7 (λ i. i * 500_000_000_000_000) 1784572210000
    ≡ codes "019f80ca-eb50-7012-8345-67789abcdeff"
unfolding random_uuid_v7 to_string random_hex join
uuid_test = refl

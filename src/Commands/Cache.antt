-- ===== src/Commands/Cache.antt =====
-- The `Map` that records the results (`idempotencyCache` of bridge/openrct2-plugin/src/commands.ts),
-- as the list of its entries in the order of insertion.
use helter_skelter.Prelude.{
  Text, text_eq, text_eq_refl, text_eq_iff, if◌then◌else◌, Option, none, some, List, [], ◌∷◌, ◌≡◌,
  refl, arith,
}
use helter_skelter.Protocol.{CommandResult}

abbrev pub Cache : Type 0
Cache = List (Text × CommandResult)

unfoldable pub lookup : Text → Cache → Option CommandResult
lookup k [] = none
lookup k ((j, v) ∷ m) = if text_eq j k then some v else lookup k m

unfoldable pub insert : Text → CommandResult → Cache → Cache
insert k v [] = (k, v) ∷ []
insert k v ((j, w) ∷ m) = if text_eq j k then (k, v) ∷ m else (j, w) ∷ insert k v m

pub lookup-insert :
    (k j : Text) (v : CommandResult) (m : Cache)
    → lookup j (insert k v m) ≡ (if text_eq k j then some v else lookup j m)
unfolding lookup insert
lookup-insert k j v [] = refl
lookup-insert k j v ((i, w) ∷ m) =
    ground (arith, text_eq_iff k j, text_eq_iff i k, text_eq_iff i j, lookup-insert k j v m)

pub lookup-insert_self :
    (k : Text) (v : CommandResult) (m : Cache) → lookup k (insert k v m) ≡ some v
lookup-insert_self k v m = simp (lookup-insert, text_eq_refl)

-- ===== src/Keys/Sorting.antt =====
-- pkg/crypto/keys/publickey.go: the order of public keys, and lists of them.
pub mod Order
pub mod Total
use neovm.Prelude.{
  ℕ, Bool, true, false, ◌&&◌, Option, none, some, List, [], ◌∷◌, ◌++◌, ltb, ◌==◌, if◌then◌else◌,
}
use neovm.Keys.PublicKey.{PublicKey, infinity, point}

-- The order of points: by X and then by Y.
unfoldable pub below : ℕ → ℕ → ℕ → ℕ → Bool
below x y x' y' = if x == x' then ltb y y' else ltb x x'

-- `Less`, by `Cmp`. The coordinates of the key of infinity are nil: `big.Int.Cmp` of one and the same
-- pointer is 0, two nils included, and of nil and a number it panics.
unfoldable pub less : PublicKey → PublicKey → Option Bool
less infinity infinity = some false
less infinity (point x y) = none
less (point x y) infinity = none
less (point x y) (point x' y') = some (below x y x' y')

abbrev pub cons_key : PublicKey → Option (List PublicKey) → Option (List PublicKey)
cons_key k none = none
cons_key k (some ks) = some (k ∷ ks)

-- A key in front of the first one that is not less.
unfoldable pub insert_key : PublicKey → List PublicKey → Option (List PublicKey)
insert_key k [] = some (k ∷ [])
insert_key k (j ∷ js) = elim (less j k) [
  | none ↦ none
  | some true ↦ cons_key j (insert_key k js)
  | some false ↦ some (k ∷ j ∷ js)
]

abbrev pub then_insert : PublicKey → Option (List PublicKey) → Option (List PublicKey)
then_insert k none = none
then_insert k (some ks) = insert_key k ks

-- `sort.Sort`, as an insertion sort: keys that compare as equal are equal, so that every way to sort gives
-- this list, and every way compares a nil coordinate with a number if there are keys of both kinds.
unfoldable pub sort_keys : List PublicKey → Option (List PublicKey)
sort_keys [] = some []
sort_keys (k ∷ ks) = then_insert k (sort_keys ks)

-- `Equal`
unfoldable pub equal : PublicKey → PublicKey → Option Bool
equal infinity infinity = some true
equal infinity (point x y) = none
equal (point x y) infinity = none
equal (point x y) (point x' y') = some (x == x' && y == y')

-- `Contains`
unfoldable pub contains : List PublicKey → PublicKey → Option Bool
contains [] p = some false
contains (key ∷ keys) p = elim (equal key p) [
  | none ↦ none
  | some true ↦ some true
  | some false ↦ contains keys p
]

-- The loop of `Unique`, with what it has found.
unfoldable pub unique_from : List PublicKey → List PublicKey → Option (List PublicKey)
unique_from [] found = some found
unique_from (key ∷ keys) found = elim (contains found key) [
  | none ↦ none
  | some true ↦ unique_from keys found
  | some false ↦ unique_from keys (found ++ key ∷ [])
]

unfoldable pub unique : List PublicKey → Option (List PublicKey)
unfolding unique_from
unique keys = unique_from keys []

-- ===== src/Merkle/Twice.antt =====
-- Lists of hashes with the same Merkle tree (pkg/crypto/hash/merkle_tree.go).
use neovm.Prelude.{
  ℕ, zero, suc, ◌*◌, ◌≡◌, refl, sym, ap, some, List, [], ◌∷◌, ◌++◌, length, map, length-append,
  arith,
}
use neovm.Merkle.{
  MerkleTreeNode, leaf, MerkleTree, parent, parents, build_merkle_tree, finished, new_merkle_tree,
}
use neovm.Merkle.Built.{length-map_leaf, build-total, half-parents}

module _ (sha256 : List ℕ → List ℕ) where
  -- More fuel changes no result.
  build-more :
      (fuel : ℕ) (xs : List MerkleTreeNode) {r : MerkleTreeNode}
      → build_merkle_tree sha256 fuel xs ≡ some r
      → build_merkle_tree sha256 (suc fuel) xs ≡ some r
  unfolding build_merkle_tree
  build-more fuel [] e = cc
  build-more fuel (x ∷ []) e = e
  build-more zero (x ∷ y ∷ xs) e = cc
  build-more (suc fuel) (x ∷ y ∷ xs) e = build-more fuel (parents sha256 (x ∷ y ∷ xs)) e

  -- Behind an even number of nodes, one node has the parent of that node twice.
  parents-twice :
      (k : ℕ) (xs : List MerkleTreeNode) (c : MerkleTreeNode)
      → length xs ≡ 2 * k
      → parents sha256 (xs ++ c ∷ []) ≡ parents sha256 (xs ++ c ∷ c ∷ [])
  parents-twice k [] c n = refl
  parents-twice k (x ∷ []) c n = absurd (omega (arith, n))
  parents-twice zero (x ∷ y ∷ xs) c n = absurd (omega (arith, n))
  parents-twice (suc k) (x ∷ y ∷ xs) c n =
      ap (λ t. parent sha256 x y ∷ t) (parents-twice k xs c (omega (arith, n)))

map-append : (xs ys : List (List ℕ)) → map leaf (xs ++ ys) ≡ map leaf xs ++ map leaf ys
map-append [] ys = refl
map-append (x ∷ xs) ys = ap (λ t. leaf x ∷ t) (map-append xs ys)

-- NewMerkleTree returns the same tree for an even number of hashes, at least two, with another hash
-- behind them and for the same hashes with that hash twice behind them.
pub new_merkle_tree-twice :
    (sha256 : List ℕ → List ℕ) (k : ℕ) (xs : List (List ℕ)) (c : List ℕ)
    → length xs ≡ 2 * suc k
    → (t : MerkleTree) × (new_merkle_tree sha256 (xs ++ c ∷ []) ≡ some (some t))
      × (new_merkle_tree sha256 (xs ++ c ∷ c ∷ []) ≡ some (some t))
unfolding new_merkle_tree build_merkle_tree
new_merkle_tree-twice f k [] c n = absurd (omega (arith, n))
new_merkle_tree-twice f k (x ∷ []) c n = absurd (omega (arith, n))
new_merkle_tree-twice f k (x ∷ y ∷ xs) c n =
    let up = parent f (leaf x) (leaf y) in
    let even : length (map leaf xs) ≡ 2 * k = let m = length-map_leaf xs in omega (arith, m, n) in
    let same : parents f (map leaf (xs ++ c ∷ [])) ≡ parents f (map leaf (xs ++ c ∷ c ∷ [])) =
      rw (map-append xs (c ∷ []), map-append xs (c ∷ c ∷ []))
        (parents-twice f k (map leaf xs) (leaf c) even) in
    let fuel = suc (length (xs ++ c ∷ [])) in
    let one = build-total f fuel up (parents f (map leaf (xs ++ c ∷ []))) (
      let h = half-parents f (map leaf (xs ++ c ∷ [])) in
      let m = length-map_leaf (xs ++ c ∷ []) in omega (arith, h, m)) in
    let longer : suc (length (xs ++ c ∷ c ∷ [])) ≡ suc fuel =
      omega (arith, length-append xs (c ∷ []), length-append xs (c ∷ c ∷ [])) in
    let two : build_merkle_tree f (suc (length (xs ++ c ∷ c ∷ [])))
          (up ∷ parents f (map leaf (xs ++ c ∷ c ∷ [])))
        ≡ some one.0 =
      rw (longer, sym same) (build-more f fuel (up ∷ parents f (map leaf (xs ++ c ∷ []))) one.1) in
    (record { root_node = one.0; depth = 1 }, ap finished one.1, ap finished two)

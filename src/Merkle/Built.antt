-- ===== src/Merkle/Built.antt =====
-- The levels of a Merkle tree (pkg/crypto/hash/merkle_tree.go) end in one node.
use neovm.Prelude.{ℕ, zero, suc, ◌≤◌, ◌≡◌, refl, ap, some, List, [], ◌∷◌, length, map, arith}
use neovm.Merkle.{MerkleTreeNode, leaf, parent, parents, build_merkle_tree, new_merkle_tree}

pub length-map_leaf : (hs : List (List ℕ)) → length (map leaf hs) ≡ length hs
length-map_leaf [] = refl
length-map_leaf (h ∷ hs) = ap suc (length-map_leaf hs)

pub half-parents :
    (f : List ℕ → List ℕ) (xs : List MerkleTreeNode) → length (parents f xs) ≤ length xs
half-parents f [] = omega arith
half-parents f (l ∷ []) = omega arith
half-parents f (l ∷ r ∷ xs) = let h = half-parents f xs in omega (arith, h)

-- Enough fuel is given by the number of nodes.
pub build-total :
    (f : List ℕ → List ℕ) (fuel : ℕ) (x : MerkleTreeNode) (xs : List MerkleTreeNode)
    → length xs ≤ fuel
    → (r : MerkleTreeNode) × (build_merkle_tree f fuel (x ∷ xs) ≡ some r)
unfolding build_merkle_tree
build-total f fuel x [] h = (x, refl)
build-total f zero x (y ∷ xs) h = absurd (omega (arith, h))
build-total f (suc fuel) x (y ∷ xs) h =
    build-total f fuel (parent f x y) (parents f xs)
      (let k = half-parents f xs in omega (arith, h, k))

-- For a list of hashes that is not empty, buildMerkleTree ends with a node on as much fuel as there
-- are hashes, and NewMerkleTree returns the tree with that root.
pub new_merkle_tree-total :
    (f : List ℕ → List ℕ) (h : List ℕ) (hs : List (List ℕ))
    → (r : MerkleTreeNode) × (build_merkle_tree f (length (h ∷ hs)) (map leaf (h ∷ hs)) ≡ some r)
      × (new_merkle_tree f (h ∷ hs) ≡ some (some (record { root_node = r; depth = 1 })))
unfolding new_merkle_tree
new_merkle_tree-total f h hs =
    let built =
      build-total f (length (h ∷ hs)) (leaf h) (map leaf hs)
        (let n = length-map_leaf hs in omega (arith, n)) in
    (built.0, built.1, rw (new_merkle_tree, built.1) refl)

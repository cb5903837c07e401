-- ===== src/Tests/Merkle.antt =====
-- Merkle trees (pkg/crypto/hash/merkle_tree.go) of concrete hashes.
use neovm.Prelude.{ℕ, ◌≡◌, ◌⊎◌, refl, some, List, [], ◌∷◌, replicate, map}
use neovm.Merkle.{
  MerkleTree, MerkleTreeNode, new_merkle_tree, build_merkle_tree, double_sha256, leaf, branch,
}
use neovm.Merkle.Binding.{Collision, IsHash, new_merkle_tree-binds}
use neovm.Merkle.Built.{new_merkle_tree-total}
use neovm.Merkle.Twice.{new_merkle_tree-twice}

abbrev digest : ℕ → List ℕ
digest n = replicate 32 n

-- A function with the size of SHA-256 that forgets all but the first byte.
abbrev first_byte : List ℕ → List ℕ
first_byte [] = digest 0
first_byte (b ∷ bs) = replicate 32 b

first_byte-IsHash : (b : List ℕ) → IsHash (first_byte b)
first_byte-IsHash [] = refl
first_byte-IsHash (b ∷ bs) = refl

abbrev tree_of_three : MerkleTree
tree_of_three = record {
  root_node =
      branch (digest 1) (branch (digest 1) (leaf (digest 1)) (leaf (digest 2)))
        (branch (digest 3) (leaf (digest 3)) (leaf (digest 3)));
  depth = 1;
}

three_hashes :
    new_merkle_tree first_byte (digest 1 ∷ digest 2 ∷ digest 3 ∷ []) ≡ some (some tree_of_three)
unfolding new_merkle_tree build_merkle_tree double_sha256
three_hashes = refl

abbrev other_tree : MerkleTree
other_tree = record { root_node = branch (digest 1) (leaf (digest 1)) (leaf (digest 5)); depth = 1 }

abbrev this_tree : MerkleTree
this_tree = record { root_node = branch (digest 1) (leaf (digest 1)) (leaf (digest 2)); depth = 1 }

made_this : new_merkle_tree first_byte (digest 1 ∷ digest 2 ∷ []) ≡ some (some this_tree)
unfolding new_merkle_tree build_merkle_tree double_sha256
made_this = refl

made_other : new_merkle_tree first_byte (digest 1 ∷ digest 5 ∷ []) ≡ some (some other_tree)
unfolding new_merkle_tree build_merkle_tree double_sha256
made_other = refl

new_merkle_tree-binds_example :
    ((digest 1 ∷ digest 2 ∷ []) ≡ (digest 1 ∷ digest 5 ∷ [])) ⊎ Collision first_byte
new_merkle_tree-binds_example =
    new_merkle_tree-binds first_byte (digest 1 ∷ digest 2 ∷ []) (digest 1 ∷ digest 5 ∷ []) this_tree
      other_tree first_byte-IsHash (refl, (refl, tt)) (refl, (refl, tt)) refl made_this made_other
      refl

new_merkle_tree-twice_example :
    (t : MerkleTree) × (new_merkle_tree first_byte (digest 1 ∷ digest 2 ∷ digest 3 ∷ [])
      ≡ some (some t))
    × (new_merkle_tree first_byte (digest 1 ∷ digest 2 ∷ digest 3 ∷ digest 3 ∷ []) ≡ some (some t))
new_merkle_tree-twice_example =
    new_merkle_tree-twice first_byte 0 (digest 1 ∷ digest 2 ∷ []) (digest 3) refl

new_merkle_tree-total_example :
    (r : MerkleTreeNode) × (build_merkle_tree first_byte 3
        (map leaf (digest 1 ∷ digest 2 ∷ digest 3 ∷ []))
      ≡ some r)
    × (new_merkle_tree first_byte (digest 1 ∷ digest 2 ∷ digest 3 ∷ [])
        ≡ some (some (record { root_node = r; depth = 1 })))
new_merkle_tree-total_example =
    new_merkle_tree-total first_byte (digest 1) (digest 2 ∷ digest 3 ∷ [])

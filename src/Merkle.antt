-- ===== src/Merkle.antt =====
-- pkg/crypto/hash/merkle_tree.go: the Merkle tree of a list of hashes. SHA-256 is a parameter. A node
-- has no pointer to its parent, which nothing but IsRoot reads.
pub mod Built
pub mod Binding
pub mod Twice
use neovm.Prelude.{
  ℕ, zero, suc, Bool, true, false, Option, none, some, List, [], ◌∷◌, ◌++◌, length, map,
}

-- A node without children or with two.
pub data MerkleTreeNode : Type 0 where
  leaf : List ℕ → MerkleTreeNode
  branch : List ℕ → MerkleTreeNode → MerkleTreeNode → MerkleTreeNode

abbrev pub hash_of : MerkleTreeNode → List ℕ
hash_of (leaf h) = h
hash_of (branch h l r) = h

pub record MerkleTree : Type 0 where
  pub root_node : MerkleTreeNode
  pub depth : ℕ

-- `Root`
abbrev pub root : MerkleTree → List ℕ
root t = hash_of t.root_node

abbrev pub finished : Option MerkleTreeNode → Option (Option MerkleTree)
finished none = none
finished (some r) = some (some (record { root_node = r; depth = 1 }))

module _ (sha256 : List ℕ → List ℕ) where
  unfoldable pub double_sha256 : List ℕ → List ℕ
  double_sha256 b = sha256 (sha256 b)

  abbrev pub parent : MerkleTreeNode → MerkleTreeNode → MerkleTreeNode
  parent l r = branch (double_sha256 (hash_of l ++ hash_of r)) l r

  -- The last of an odd number of nodes is both children of its parent.
  abbrev pub parents : List MerkleTreeNode → List MerkleTreeNode
  parents [] = []
  parents (l ∷ []) = parent l l ∷ []
  parents (l ∷ r ∷ rest) = parent l r ∷ parents rest

  -- `buildMerkleTree`, on fuel; `none` is its panic or no fuel.
  unfoldable pub build_merkle_tree : ℕ → List MerkleTreeNode → Option MerkleTreeNode
  build_merkle_tree fuel [] = none
  build_merkle_tree fuel (l ∷ []) = some l
  build_merkle_tree zero (l ∷ r ∷ rest) = none
  build_merkle_tree (suc fuel) (l ∷ r ∷ rest) = build_merkle_tree fuel (parents (l ∷ r ∷ rest))

  -- `NewMerkleTree`: an error for no hashes.
  unfoldable pub new_merkle_tree : List (List ℕ) → Option (Option MerkleTree)
  new_merkle_tree [] = some none
  new_merkle_tree (h ∷ hs) = finished (build_merkle_tree (length (h ∷ hs)) (map leaf (h ∷ hs)))

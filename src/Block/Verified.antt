-- ===== src/Block/Verified.antt =====
-- What Verify (pkg/core/block/block.go) makes sure of.
use neovm.Prelude.{
  ℕ, ◌≡◌, refl, ap, ◌∙◌, Bool, true, false, Option, none, some, List, [], ◌∷◌, All, ◌==◌, ==_iff,
  same_bytes, same_bytes_sound, Bool-cases, inl, inr,
}
use neovm.Merkle.{MerkleTree, new_merkle_tree, root}
use neovm.Transaction.Body.{Transaction, miner_type, hash_of}
use neovm.Block.{
  Block, hashes_of, tree_of, merkle_tree_from_transactions, miner_shown, not_miner, other_miner,
  check_root, check_miners, verify_from, verify,
}

abbrev pub IsOther : Transaction → Type 0
IsOther tx = (tx.kind == miner_type) ≡ false

-- The first transaction, and no other, is a miner transaction, and the block has the root of the
-- tree over the hashes of its transactions.
pub record IsVerified (sha256 : List ℕ → List ℕ) (b : Block) : Type 0 where
  pub first : Transaction
  pub rest : List Transaction
  pub parts : b.transactions ≡ first ∷ rest
  pub miner : first.kind ≡ miner_type
  pub others : All IsOther rest
  pub hashes : List (List ℕ)
  pub transactions : List Transaction
  pub found : hashes_of sha256 b.transactions ≡ some (hashes, transactions)
  pub tree : MerkleTree
  pub built : new_merkle_tree sha256 hashes ≡ some (some tree)
  pub same_root : b.base.merkle_root ≡ root tree

shown-found :
    (txes found : List Transaction) (o : Option (List ℕ × Transaction))
    → miner_shown txes o ≡ some (false, found)
    → ⊥
shown-found txes found none k = cc
shown-found txes found (some (h, tx)) k = cc

not_miner-others :
    (tx : Transaction) (txes found : List Transaction) (o : Option (Bool × List Transaction))
    → IsOther tx
    → ((fs : List Transaction) → o ≡ some (false, fs) → All IsOther txes × (fs ≡ txes))
    → not_miner tx o ≡ some (false, found)
    → All IsOther (tx ∷ txes) × (found ≡ tx ∷ txes)
not_miner-others tx txes found none e ih k = cc
not_miner-others tx txes found (some (true, fs)) e ih k = cc
not_miner-others tx txes found (some (false, fs)) e ih k =
    let (all, same) = ih fs refl in ((e, all), cc)

module _ (sha256 : List ℕ → List ℕ) where
  other_miner-others :
      (txes found : List Transaction)
      → other_miner sha256 txes ≡ some (false, found)
      → All IsOther txes × (found ≡ txes)
  unfolding other_miner
  other_miner-others [] found h = (tt, cc)
  other_miner-others (tx ∷ txes) found h = elim (Bool-cases (tx.kind == miner_type)) [
    | inl e ↦ absurd (shown-found txes found (hash_of sha256 tx) (rw e at h))
    | inr e ↦
        not_miner-others tx txes found (other_miner sha256 txes) e (other_miner-others txes)
          (rw e at h)
  ]

  pub others-other_miner :
      (txes : List Transaction) → All IsOther txes → other_miner sha256 txes ≡ some (false, txes)
  unfolding other_miner
  others-other_miner [] h = refl
  others-other_miner (tx ∷ txes) (h, hs) = rw (h, others-other_miner txes hs) refl

module _ (sha256 : List ℕ → List ℕ) (b b' : Block) (first : Transaction) (rest : List Transaction)
    (e : b.transactions ≡ first ∷ rest) (m : first.kind ≡ miner_type) where
  -- The end of `Verify`, by the tree.
  root-IsVerified :
      (hs : List (List ℕ)) (txes : List Transaction) (o : Option (Option MerkleTree))
      → All IsOther rest
      → hashes_of sha256 (first ∷ rest) ≡ some (hs, txes)
      → new_merkle_tree sha256 hs ≡ o
      → check_root b (elim o [ none ↦ none | some t ↦ some (t, txes) ]) ≡ some (none, b')
      → IsVerified sha256 b
  root-IsVerified hs txes none all f t h = cc
  root-IsVerified hs txes (some none) all f t h = cc
  root-IsVerified hs txes (some (some tree)) all f t h =
      elim (Bool-cases (same_bytes b.base.merkle_root (root tree))) [
        | inl same ↦ record {
          first = first;
          rest = rest;
          parts = e;
          miner = m;
          others = all;
          hashes = hs;
          transactions = txes;
          found = ap (hashes_of sha256) e ∙ f;
          tree = tree;
          built = t;
          same_root = same_bytes_sound _ _ same;
        }
        | inr other ↦ cc (rw other at h)
      ]

  tree-IsVerified :
      (o : Option (List (List ℕ) × List Transaction))
      → All IsOther rest
      → hashes_of sha256 (first ∷ rest) ≡ o
      → check_root b (tree_of sha256 o) ≡ some (none, b')
      → IsVerified sha256 b
  tree-IsVerified none all f h = cc
  tree-IsVerified (some (hs, txes)) all f h =
      root-IsVerified hs txes (new_merkle_tree sha256 hs) all f refl h

  miners-IsVerified :
      (o : Option (Bool × List Transaction))
      → other_miner sha256 rest ≡ o
      → check_miners sha256 b first o ≡ some (none, b')
      → IsVerified sha256 b
  unfolding merkle_tree_from_transactions
  miners-IsVerified none f h = cc
  miners-IsVerified (some (true, txes)) f h = cc
  miners-IsVerified (some (false, txes)) f h =
      let (all, same) = other_miner-others sha256 rest txes f in
      tree-IsVerified (hashes_of sha256 (first ∷ rest)) all refl (rw same at h)

parts-IsVerified :
    (sha256 : List ℕ → List ℕ) (b b' : Block) (txes : List Transaction)
    → b.transactions ≡ txes
    → verify_from sha256 b txes ≡ some (none, b')
    → IsVerified sha256 b
parts-IsVerified sha256 b b' [] e h = cc
parts-IsVerified sha256 b b' (first ∷ rest) e h = elim (Bool-cases (first.kind == miner_type)) [
  | inl m ↦
      miners-IsVerified sha256 b b' first rest e ((==_iff first.kind miner_type).0 m)
        (other_miner sha256 rest) refl (rw m at h)
  | inr m ↦ cc (rw m at h)
]

-- A block that Verify accepts satisfies the declarative condition.
pub verify-IsVerified :
    (sha256 : List ℕ → List ℕ) (b b' : Block)
    → verify sha256 b ≡ some (none, b')
    → IsVerified sha256 b
unfolding verify
verify-IsVerified sha256 b b' h = parts-IsVerified sha256 b b' b.transactions refl h

-- ===== src/Block/Bound.antt =====
-- What the Merkle root of a block fixes, and how RebuildMerkleRoot makes it (pkg/core/block/block.go).
use neovm.Prelude.{
  ℕ, suc, ◌≡◌, ◌⊎◌, ◌↔◌, refl, sym, ap, subst, ◌∙◌, true, Option, none, some, List, [], ◌∷◌, length,
  All, ◌==◌, ==_iff, same_bytes, same_bytes_refl, Bool-cases, inl, inr,
}
use neovm.Io.Error.{Error}
use neovm.Io.Writer.{BinWriter, buf_bytes, new_buf_bin_writer}
use neovm.Merkle.{root}
use neovm.Merkle.Binding.{Collision, IsHash, new_merkle_tree-binds}
use neovm.Transaction.Body.{
  Transaction, miner_type, hash_of, create_hash, all_zero, encode_hashable_fields,
}
use neovm.Block.{
  Block, cons_hash, hashes_of, tree_of, merkle_tree_from_transactions, verify_from, verify,
}
use neovm.Block.Verified.{IsVerified, others-other_miner, verify-IsVerified}

module _ (sha256 : List ℕ → List ℕ) (b : Block) (v : IsVerified sha256 b) where
  -- Verify on the parts of the transactions.
  verified-parts :
      hashes_of sha256 (v.first ∷ v.rest) ≡ some (v.hashes, v.transactions)
      → verify_from sha256 b (v.first ∷ v.rest)
        ≡ some (none, record b { transactions = v.transactions })
  unfolding merkle_tree_from_transactions
  verified-parts f =
      let miner : (v.first.kind == miner_type) ≡ true = (==_iff _ _).1 v.miner in
      let same : same_bytes b.base.merkle_root (root v.tree) ≡ true =
        subst (λ r. same_bytes r (root v.tree) ≡ true) (sym v.same_root)
          (same_bytes_refl (root v.tree)) in
      rw (miner, others-other_miner sha256 v.rest v.others, f, tree_of, v.built, same) refl

  pub verified-verify : verify sha256 b ≡ some (none, record b { transactions = v.transactions })
  unfolding verify
  verified-verify =
      ap (verify_from sha256 b) v.parts
      ∙ verified-parts (ap (hashes_of sha256) (sym v.parts) ∙ v.found)

-- Verify accepts a block exactly when its first transaction, and no other, is a miner transaction,
-- its transactions have hashes, and its Merkle root is that of the tree over them.
pub verify_iff :
    (sha256 : List ℕ → List ℕ) (b : Block)
    → ((b' : Block) × (verify sha256 b ≡ some (none, b'))) ↔ IsVerified sha256 b
verify_iff sha256 b = (
  λ p. verify-IsVerified sha256 b p.0 p.1,
  λ v. (record b { transactions = v.transactions }, verified-verify sha256 b v),
)

-- Transactions with their hashes, one by one.
pub data Hashes (sha256 : List ℕ → List ℕ)
    : List Transaction → List (List ℕ) → List Transaction → Type 0 where
  nil : Hashes sha256 [] [] []
  cons :
      {tx tx' : Transaction} {txes txes' : List Transaction} {h : List ℕ} {hs : List (List ℕ)}
      → hash_of sha256 tx ≡ some (h, tx')
      → Hashes sha256 txes hs txes'
      → Hashes sha256 (tx ∷ txes) (h ∷ hs) (tx' ∷ txes')

module _ (sha256 : List ℕ → List ℕ) where
  cons-Hashes :
      (tx : Transaction) (txes ts : List Transaction) (hs : List (List ℕ))
      (o : Option (List ℕ × Transaction)) (r : Option (List (List ℕ) × List Transaction))
      → hash_of sha256 tx ≡ o
      → ((ks : List (List ℕ)) (us : List Transaction)
          → r ≡ some (ks, us)
          → Hashes sha256 txes ks us)
      → cons_hash o r ≡ some (hs, ts)
      → Hashes sha256 (tx ∷ txes) hs ts
  cons-Hashes tx txes ts hs none r e ih k = cc
  cons-Hashes tx txes ts hs (some (h, tx')) none e ih k = cc
  cons-Hashes tx txes ts hs (some (h, tx')) (some (ks, us)) e ih k =
      let first : h ∷ ks ≡ hs = cc in
      let second : tx' ∷ us ≡ ts = cc in
      subst (λ x. Hashes sha256 (tx ∷ txes) x ts) first
        (subst (λ x. Hashes sha256 (tx ∷ txes) (h ∷ ks) x) second (Hashes.cons e (ih ks us refl)))

  pub hashes_of-Hashes :
      (txes ts : List Transaction) (hs : List (List ℕ))
      → hashes_of sha256 txes ≡ some (hs, ts)
      → Hashes sha256 txes hs ts
  unfolding hashes_of
  hashes_of-Hashes [] ts hs e =
      let first : [] ≡ hs = cc in
      let second : [] ≡ ts = cc in
      subst (λ x. Hashes sha256 [] x ts) first
        (subst (λ x. Hashes sha256 [] [] x) second Hashes.nil)
  hashes_of-Hashes (tx ∷ txes) ts hs e =
      cons-Hashes tx txes ts hs (hash_of sha256 tx) (hashes_of sha256 txes) refl
        (λ ks us. hashes_of-Hashes txes us ks) e

  length-Hashes :
      {txes ts : List Transaction} {hs : List (List ℕ)}
      → Hashes sha256 txes hs ts
      → length hs ≡ length txes
  length-Hashes Hashes.nil = refl
  length-Hashes (Hashes.cons e p) = ap suc (length-Hashes p)

-- The end of `createHash` and of `Hash`.
abbrev pub written_hash :
    (List ℕ → List ℕ) → Transaction → BinWriter → Option Error → Option (Option Error × Transaction)
written_hash sha256 t w err = elim err [
  | some e ↦ some (some e, t)
  | none ↦ some (
    none,
    record t { hash = sha256 (sha256 (buf_bytes w).0); verification_hash = sha256 (buf_bytes w).0 },
  )
]

abbrev pub shown_hash : Option Error → Transaction → Option (List ℕ × Transaction)
shown_hash err t = elim err [ some _ ↦ none | none ↦ some (t.hash, t) ]

module _ (sha256 : List ℕ → List ℕ) (sized : (b : List ℕ) → IsHash (sha256 b))
    (t : Transaction) where
  written-IsHash :
      (w : BinWriter) (err : Option Error) (t' : Transaction)
      → written_hash sha256 t w err ≡ some (none, t')
      → IsHash t'.hash
  written-IsHash w (some e) t' h = cc
  written-IsHash w none t' h =
      let same : sha256 (sha256 (buf_bytes w).0) ≡ t'.hash = cc in rw (← same) (sized _)

  create_hash-IsHash : (t' : Transaction) → create_hash sha256 t ≡ some (none, t') → IsHash t'.hash
  unfolding create_hash
  create_hash-IsHash t' h = go (encode_hashable_fields t new_buf_bin_writer) h
    where
      go :
          (o : Option (Unit {0} × BinWriter))
          → ◌≡◌ {A = Option (Option Error × Transaction)}
              (elim o [ none ↦ none | some (u, w) ↦ written_hash sha256 t w w.err ])
              (some (none, t'))
          → IsHash t'.hash
      go none k = cc
      go (some (u, w)) k = written-IsHash w w.err t' k

  shown-IsHash :
      (o : Option (Option Error × Transaction)) (h : List ℕ) (t' : Transaction)
      → create_hash sha256 t ≡ o
      → ◌≡◌ {A = Option (List ℕ × Transaction)}
          (elim o [ none ↦ none | some (e, t') ↦ shown_hash e t' ])
          (some (h, t'))
      → IsHash h
  shown-IsHash none h t' e k = cc
  shown-IsHash (some (some x, u)) h t' e k = cc
  shown-IsHash (some (none, u)) h t' e k =
      let same : u.hash ≡ h = cc in rw (← same) (create_hash-IsHash u e)

  hash_of-IsHash :
      (h : List ℕ) (t' : Transaction) → IsHash t.hash → hash_of sha256 t ≡ some (h, t') → IsHash h
  unfolding hash_of
  hash_of-IsHash h t' i e = elim (Bool-cases (all_zero t.hash)) [
    | inl zero ↦ shown-IsHash (create_hash sha256 t) h t' refl (rw zero at e)
    | inr set ↦ let same : t.hash ≡ h = cc (rw set at e) in rw (← same) i
  ]

module _ (sha256 : List ℕ → List ℕ) (sized : (b : List ℕ) → IsHash (sha256 b)) where
  Hashes-IsHash :
      {txes ts : List Transaction} {hs : List (List ℕ)}
      → Hashes sha256 txes hs ts
      → All (λ t. IsHash t.hash) txes
      → All IsHash hs
  Hashes-IsHash Hashes.nil is = tt
  Hashes-IsHash (Hashes.cons e p) (i, is) =
      (hash_of-IsHash sha256 sized _ _ _ i e, Hashes-IsHash p is)

  -- Over a hash function whose hashes have 32 bytes, if Verify accepts two blocks with equally many
  -- transactions, of which those with a hash have one of 32 bytes, and with the same Merkle root,
  -- then the hashes of their transactions are the same, or two inputs of the hash function that
  -- differ have the same hash.
  pub verify-binds :
      (a b a' b' : Block)
      → All (λ t. IsHash t.hash) a.transactions
      → All (λ t. IsHash t.hash) b.transactions
      → verify sha256 a ≡ some (none, a')
      → verify sha256 b ≡ some (none, b')
      → a.base.merkle_root ≡ b.base.merkle_root
      → length a.transactions ≡ length b.transactions
      → ((hs : List (List ℕ)) × (ts : List Transaction) × (us : List Transaction) × (hashes_of
              sha256 a.transactions
            ≡ some (hs, ts))
          × (hashes_of sha256 b.transactions ≡ some (hs, us)))
        ⊎ Collision sha256
  verify-binds a b a' b' ia ib ea eb r n =
      let v = verify-IsVerified sha256 a a' ea in
      let u = verify-IsVerified sha256 b b' eb in
      let p = hashes_of-Hashes sha256 _ _ _ v.found in
      let q = hashes_of-Hashes sha256 _ _ _ u.found in
      let roots : root v.tree ≡ root u.tree = sym v.same_root ∙ r ∙ u.same_root in
      elim (new_merkle_tree-binds sha256 v.hashes u.hashes v.tree u.tree sized (Hashes-IsHash p ia)
        (Hashes-IsHash q ib) (length-Hashes sha256 p ∙ n ∙ sym (length-Hashes sha256 q)) v.built
        u.built roots) [
          | inl same ↦ inl (v.hashes, v.transactions, u.transactions, v.found, rw same u.found)
          | inr c ↦ inr c
        ]

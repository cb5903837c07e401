-- ===== src/Block/Rebuilt.antt =====
-- A block whose Merkle root was rebuilt passes Verify (pkg/core/block/block.go).
use neovm.Prelude.{
  ℕ, ◌≡◌, refl, sym, ap, subst, ◌∙◌, false, Option, none, some, List, ◌∷◌, All, ◌==◌, Bool-cases,
  inl, inr,
}
use neovm.Io.Error.{Error}
use neovm.Io.Writer.{BinWriter, buf_bytes, new_buf_bin_writer}
use neovm.Merkle.{MerkleTree, new_merkle_tree, root}
use neovm.Transaction.Body.{
  Transaction, miner_type, hash_of, create_hash, all_zero, encode_hashable_fields,
}
use neovm.Block.{
  Block, hashes_of, tree_of, merkle_tree_from_transactions, rebuilt, rebuild_merkle_root, verify,
}
use neovm.Block.Verified.{IsVerified, IsOther}
use neovm.Block.Bound.{written_hash, shown_hash, Hashes, hashes_of-Hashes, verified-verify}

module _ (sha256 : List ℕ → List ℕ) (t : Transaction) where
  -- The hash does not depend on the hashes that are there.
  unhashed-fields :
      (h v : List ℕ)
      → encode_hashable_fields (record t { hash = h; verification_hash = v })
        ≡ encode_hashable_fields t
  unfolding encode_hashable_fields
  unhashed-fields h v = refl

  -- What `createHash` makes of the transaction again.
  abbrev Stays : Transaction → Type 0
  Stays t' = (create_hash sha256 t' ≡ some (none, t')) × (t'.kind ≡ t.kind)

  written-Stays :
      (w : BinWriter) (err : Option Error) (t' : Transaction)
      → encode_hashable_fields t new_buf_bin_writer ≡ some (tt, w)
      → w.err ≡ err
      → written_hash sha256 t w err ≡ some (none, t')
      → Stays t'
  unfolding create_hash
  written-Stays w (some x) t' e q k = cc
  written-Stays w none t' e q k =
      let whole : Transaction = record t {
        hash = sha256 (sha256 (buf_bytes w).0);
        verification_hash = sha256 (buf_bytes w).0;
      } in
      let same : whole ≡ t' = cc in
      subst Stays same (
        rw
            (
              create_hash,
              unhashed-fields (sha256 (sha256 (buf_bytes w).0)) (sha256 (buf_bytes w).0),
              e,
            )
            (ap (written_hash sha256 whole w) q),
        refl,
      )

  created_again : (t' : Transaction) → create_hash sha256 t ≡ some (none, t') → Stays t'
  unfolding create_hash
  created_again t' h = go (encode_hashable_fields t new_buf_bin_writer) refl h
    where
      go :
          (o : Option (Unit {0} × BinWriter))
          → encode_hashable_fields t new_buf_bin_writer ≡ o
          → ◌≡◌ {A = Option (Option Error × Transaction)}
              (elim o [ none ↦ none | some (u, w) ↦ written_hash sha256 t w w.err ])
              (some (none, t'))
          → Stays t'
      go none e k = cc
      go (some (u, w)) e k = written-Stays w w.err t' e refl k

  -- A transaction whose hash was asked for has it.
  shown_again :
      (o : Option (Option Error × Transaction)) (h : List ℕ) (t' : Transaction)
      → create_hash sha256 t ≡ o
      → ◌≡◌ {A = Option (List ℕ × Transaction)}
          (elim o [ none ↦ none | some (e, t') ↦ shown_hash e t' ])
          (some (h, t'))
      → (hash_of sha256 t' ≡ some (h, t')) × (t'.kind ≡ t.kind)
  unfolding hash_of
  shown_again none h t' e k = cc
  shown_again (some (some x, u)) h t' e k = cc
  shown_again (some (none, u)) h t' e k =
      let hash : u.hash ≡ h = cc in
      let same : u ≡ t' = cc in
      let (again, kind) = created_again u e in
      let whole : (hash_of sha256 u ≡ some (u.hash, u)) = elim (Bool-cases (all_zero u.hash)) [
        | inl zero ↦ rw (hash_of, zero, again) refl
        | inr set ↦ rw (hash_of, set) refl
      ] in
      rw (← same) (rw (← hash) (whole, kind))

  hash_of_again :
      (h : List ℕ) (t' : Transaction)
      → hash_of sha256 t ≡ some (h, t')
      → (hash_of sha256 t' ≡ some (h, t')) × (t'.kind ≡ t.kind)
  unfolding hash_of
  hash_of_again h t' e = elim (Bool-cases (all_zero t.hash)) [
    | inl zero ↦ shown_again (create_hash sha256 t) h t' refl (rw zero at e)
    | inr set ↦
        let same : t ≡ t' = cc (rw set at e) in
        let hash : t.hash ≡ h = cc (rw set at e) in rw (← same) (rw (← hash) (rw set refl, refl))
  ]

module _ (sha256 : List ℕ → List ℕ) where
  cons_some :
      (tx tx' : Transaction) (txes : List Transaction) (h : List ℕ) (hs : List (List ℕ))
      (ts : List Transaction)
      → hash_of sha256 tx ≡ some (h, tx')
      → hashes_of sha256 txes ≡ some (hs, ts)
      → hashes_of sha256 (tx ∷ txes) ≡ some (h ∷ hs, tx' ∷ ts)
  unfolding hashes_of
  cons_some tx tx' txes h hs ts e f = rw (e, f) refl

  Hashes-again :
      {txes ts : List Transaction} {hs : List (List ℕ)}
      → Hashes sha256 txes hs ts
      → hashes_of sha256 ts ≡ some (hs, ts)
  unfolding hashes_of
  Hashes-again Hashes.nil = refl
  Hashes-again (Hashes.cons {tx} {tx'} {h = h} e p) =
      cons_some tx' tx' _ h _ _ (hash_of_again sha256 tx h tx' e).0 (Hashes-again p)

  Hashes-others :
      {txes ts : List Transaction} {hs : List (List ℕ)}
      → Hashes sha256 txes hs ts
      → All IsOther txes
      → All IsOther ts
  Hashes-others Hashes.nil os = tt
  Hashes-others (Hashes.cons {tx} {tx'} {h = h} e p) (o, os) =
      let kind = (hash_of_again sha256 tx h tx' e).1 in
      (subst (λ k. (k == miner_type) ≡ false) (sym kind) o, Hashes-others p os)

  -- The block after RebuildMerkleRoot.
  rebuilt-IsVerified :
      (b : Block) (first : Transaction) (rest : List Transaction) (hs : List (List ℕ))
      (ts : List Transaction) (t : MerkleTree)
      → b.transactions ≡ first ∷ rest
      → first.kind ≡ miner_type
      → All IsOther rest
      → Hashes sha256 (first ∷ rest) hs ts
      → new_merkle_tree sha256 hs ≡ some (some t)
      → IsVerified sha256
          (record b { base = record b.base { merkle_root = root t }; transactions = ts })
  rebuilt-IsVerified b first rest hs ts t e m os
        (Hashes.cons {tx' = first'} {txes' = rest'} {h = h} {hs = hs'} q p) k =
      record {
        first = first';
        rest = rest';
        parts = refl;
        miner = (hash_of_again sha256 first h first' q).1 ∙ m;
        others = Hashes-others p os;
        hashes = h ∷ hs';
        transactions = first' ∷ rest';
        found = Hashes-again (Hashes.cons q p);
        tree = t;
        built = k;
        same_root = refl;
      }

  rebuilt-verify :
      (b : Block) (first : Transaction) (rest : List Transaction) (hs : List (List ℕ))
      (ts : List Transaction) (t : MerkleTree)
      → b.transactions ≡ first ∷ rest
      → first.kind ≡ miner_type
      → All IsOther rest
      → Hashes sha256 (first ∷ rest) hs ts
      → new_merkle_tree sha256 hs ≡ some (some t)
      → verify sha256
          (record b { base = record b.base { merkle_root = root t }; transactions = ts })
        ≡ some (none, record b { base = record b.base { merkle_root = root t }; transactions = ts })
  unfolding rebuilt-IsVerified
  rebuilt-verify b first rest hs ts t e m os (Hashes.cons q p) k =
      verified-verify sha256 _ (rebuilt-IsVerified b first rest _ _ t e m os (Hashes.cons q p) k)

  module _ (b c : Block) (first : Transaction) (rest : List Transaction)
      (e : b.transactions ≡ first ∷ rest) (m : first.kind ≡ miner_type)
      (os : All IsOther rest) where
    tree-verify :
        (hs : List (List ℕ)) (ts : List Transaction) (o : Option (Option MerkleTree))
        → Hashes sha256 (first ∷ rest) hs ts
        → new_merkle_tree sha256 hs ≡ o
        → rebuilt b (elim o [ none ↦ none | some t ↦ some (t, ts) ]) ≡ some (none, c)
        → verify sha256 c ≡ some (none, c)
    tree-verify hs ts none p k h = cc
    tree-verify hs ts (some none) p k h = cc
    tree-verify hs ts (some (some t)) p k h =
        let made : Block = record b {
          base = record b.base { merkle_root = root t };
          transactions = ts;
        } in
        let same : made ≡ c = cc in rw (← same) (rebuilt-verify b first rest hs ts t e m os p k)

    hashes-verify :
        (o : Option (List (List ℕ) × List Transaction))
        → hashes_of sha256 (first ∷ rest) ≡ o
        → rebuilt b (tree_of sha256 o) ≡ some (none, c)
        → verify sha256 c ≡ some (none, c)
    hashes-verify none f h = cc
    hashes-verify (some (hs, ts)) f h =
        tree-verify hs ts (new_merkle_tree sha256 hs)
          (hashes_of-Hashes sha256 (first ∷ rest) ts hs f) refl h

-- When the first transaction of a block, and no other, is a miner transaction and RebuildMerkleRoot
-- returns no error, Verify accepts the block that it leaves, and leaves it unchanged.
pub rebuild-verify :
    (sha256 : List ℕ → List ℕ) (b c : Block) (first : Transaction) (rest : List Transaction)
    → b.transactions ≡ first ∷ rest
    → first.kind ≡ miner_type
    → All IsOther rest
    → rebuild_merkle_root sha256 b ≡ some (none, c)
    → verify sha256 c ≡ some (none, c)
unfolding rebuild_merkle_root merkle_tree_from_transactions
rebuild-verify sha256 b c first rest e m os h =
    hashes-verify sha256 b c first rest e m os (hashes_of sha256 (first ∷ rest)) refl (rw e at h)

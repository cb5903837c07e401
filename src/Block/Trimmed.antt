-- ===== src/Block/Trimmed.antt =====
-- A trimmed block (pkg/core/block/block.go) is read back with the hashes of its transactions.
use neovm.Prelude.{
  ℕ, true, ◌<◌, ◌^◌, ◌≡◌, refl, none, some, List, [], ◌∷◌, arith, All, length, map, lt→ltb,
  append-nil,
}
use neovm.Io.Reader.{reader, read_elems}
use neovm.Io.Writer.{buf_bytes, write_elems}
use neovm.Io.Codec.{Carries, Carries-then, Carries-last, Carries-congr, Carries-pure}
use neovm.Io.RoundTrip.{Carries-b, Carries-var_uint}
use neovm.Util.Values.{IsUint256, Carries-uint256, encode_uint256}
use neovm.Transaction.Parts.RoundTrip.{Carries-witness}
use neovm.Transaction.Body.{Transaction, new_trimmed_tx}
use neovm.Block.{
  Base, Block, hashes_of, decode_trimmed_tx, read_trimmed_txes, read_trimmed, write_trimmed, trim,
  new_block_from_trimmed_bytes,
}
use neovm.Block.RoundTrip.{IsBase, hashed, Carries-hashable}

Carries-trimmed_txes :
    (hs : List (List ℕ))
    → All IsUint256 hs
    → Carries
        (write_elems encode_uint256 hs)
        (read_elems decode_trimmed_tx (length hs))
        (map new_trimmed_tx hs)
unfolding write_elems read_elems
Carries-trimmed_txes [] u = Carries-pure []
Carries-trimmed_txes (h ∷ hs) (u, us) =
    Carries-then _ (Carries-last _ (Carries-uint256 h u) λ r. refl)
      (Carries-last _ (Carries-trimmed_txes hs us) λ r. refl)

-- What `Trim` writes, with the hashes of the transactions.
module _ (sha256 : List ℕ → List ℕ) (b : Base) (i : IsBase b) (hs : List (List ℕ))
    (u : All IsUint256 hs) (n : length hs < 2 ^ 63) where
  Carries-trimmed :
      Carries
        (write_trimmed b hs)
        (read_trimmed sha256)
        (record { base = hashed sha256 b i; transactions = map new_trimmed_tx hs; trimmed = true })
  unfolding read_trimmed
  Carries-trimmed = Carries-then _ (Carries-hashable sha256 b i) (
      Carries-then _ (Carries-b 1 (omega arith)) (
        Carries-then _ (Carries-witness b.script i.script) (
          Carries-then _ (Carries-var_uint (length hs) (omega arith))
            (Carries-last _ txes λ r. refl))))
    where
      txes :
          Carries
            (write_elems encode_uint256 hs)
            (read_trimmed_txes (length hs))
            (map new_trimmed_tx hs)
      txes =
          Carries-congr (Carries-trimmed_txes hs u) (λ out. refl)
            λ r. rw (lt→ltb (length hs) (2 ^ 63) n) refl

-- For a block with the fields of its base in the ranges of their types, whose transactions have
-- hashes of 32 bytes, and no more than an int of them, Trim returns bytes, from which
-- NewBlockFromTrimmedBytes reads all of a trimmed block with that base, the hashes of its fields
-- and trimmed transactions with those hashes.
pub trim-read :
    (sha256 : List ℕ → List ℕ) (b : Block) (i : IsBase b.base) (hs : List (List ℕ))
    (txes : List Transaction)
    → hashes_of sha256 b.transactions ≡ some (hs, txes)
    → All IsUint256 hs
    → length hs < 2 ^ 63
    → (bytes : List ℕ) × (trim sha256 b ≡ some (none, bytes))
      × (new_block_from_trimmed_bytes sha256 bytes
          ≡ some (
            record {
              base = hashed sha256 b.base i;
              transactions = map new_trimmed_tx hs;
              trimmed = true;
            },
            reader [],
          ))
unfolding trim new_block_from_trimmed_bytes buf_bytes
trim-read sha256 b i hs txes e u n =
    let c = Carries-trimmed sha256 b.base i hs u n in
    (c.bytes, rw (trim, e, c.writes []) refl, rw (append-nil c.bytes) at (c.reads []))

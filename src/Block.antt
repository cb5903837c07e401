-- ===== src/Block.antt =====
-- pkg/core/block: block_base.go, header.go and block.go, without JSON. A decoder makes a fresh value.
-- SHA-256 is a parameter.
pub mod RoundTrip
pub mod Trimmed
pub mod Verified
pub mod Bound
pub mod Rebuilt
use neovm.Prelude.{
  ℕ, zero, suc, Bool, true, false, not, Option, none, some, List, [], ◌∷◌, length, get_or, ltb,
  ◌==◌, if◌then◌else◌, pure, ◌>>=◌, ◌>>◌, same_bytes, ◌^◌,
}
use neovm.Prelude.Int.{ℤ, pos, negsuc}
use neovm.Io.Error.{Error, new, errorf}
use neovm.Io.Reader.{
  Read, BinReader, reader, fail, read_bytes, read_u32_le, read_u64_le, read_b, read_var_uint,
  read_array, read_elems,
}
use neovm.Io.Writer.{
  Write, BinWriter, new_buf_bin_writer, buf_bytes, write_bytes, write_b, write_u32_le, write_u64_le,
  write_var_uint, write_array, write_elems,
}
use neovm.Util.Values.{decode_uint160, encode_uint160, decode_uint256, encode_uint256, uint256_size}
use neovm.Keys.PublicKey.{Curve}
use neovm.Merkle.{MerkleTree, new_merkle_tree, root}
use neovm.Transaction.Parts.{Witness, decode_witness, encode_witness}
use neovm.Transaction.Body.{
  Transaction, zero_hash, all_zero, miner_type, new_trimmed_tx, hash_of, decode_transaction,
  encode_transaction,
}

pub record Base : Type 0 where
  pub version : ℕ
  pub prev_hash : List ℕ
  pub merkle_root : List ℕ
  pub timestamp : ℕ
  pub index : ℕ
  pub consensus_data : ℕ
  pub next_consensus : List ℕ
  pub script : Witness
  pub hash : List ℕ
  pub verification_hash : List ℕ

abbrev pub no_script : Witness
no_script = record { invocation_script = []; verification_script = [] }

-- `encodeHashableFields`
unfoldable pub encode_hashable_fields : Base → Write
encode_hashable_fields b = do
  write_u32_le b.version
  encode_uint256 b.prev_hash
  encode_uint256 b.merkle_root
  write_u32_le b.timestamp
  write_u32_le b.index
  write_u64_le b.consensus_data
  encode_uint160 b.next_consensus

-- `GetHashableData`
unfoldable pub get_hashable_data : Base → Option (List ℕ)
get_hashable_data b = elim (encode_hashable_fields b new_buf_bin_writer) [
  | none ↦ none
  | some (u, w) ↦ some (buf_bytes w).0
]

unfoldable pub encode_base : Base → Write
encode_base b = encode_hashable_fields b >> (write_bytes (1 ∷ []) >> encode_witness b.script)

-- The fields that `decodeHashableFields` reads.
unfoldable pub read_fields : Read Base
read_fields = do
  version ← read_u32_le
  prev_hash ← decode_uint256
  merkle_root ← decode_uint256
  timestamp ← read_u32_le
  index ← read_u32_le
  consensus_data ← read_u64_le
  next_consensus ← decode_uint160
  pure (record {
    version = version;
    prev_hash = prev_hash;
    merkle_root = merkle_root;
    timestamp = timestamp;
    index = index;
    consensus_data = consensus_data;
    next_consensus = next_consensus;
    script = no_script;
    hash = zero_hash;
    verification_hash = zero_hash;
  })

-- A block, or a header, which has no transactions.
pub record Block : Type 0 where
  pub base : Base
  pub transactions : List Transaction
  pub trimmed : Bool

pub record Header : Type 0 where
  pub base : Base

-- `Header`
unfoldable pub header : Block → Header
header b = record { base = b.base }

unfoldable pub encode_header : Header → Write
encode_header h = encode_base h.base >> write_bytes (0 ∷ [])

unfoldable pub encode_block : Block → Write
encode_block b = encode_base b.base >> write_array encode_transaction b.transactions

-- `Compare`, by the height.
unfoldable pub compare_blocks : Block → Block → ℤ
compare_blocks b other =
    if ltb other.base.index b.base.index
    then pos 1
    else if b.base.index == other.base.index
    then pos 0
    else negsuc 0

abbrev pub decode_script : Base → Read Base
decode_script b = do script ← decode_witness; pure (record b { script = script })

-- The padding is looked at whether or not it could be read.
abbrev pub decode_padded : Base → Read Base
decode_padded b = do
  padding ← read_bytes (0 ∷ [])
  if get_or padding 0 0 == 1
      then decode_script b
      else (fail (errorf "format error: padding must equal 1" (get_or padding 0 0)) >> pure b)

abbrev pub end_header : Base → Read Header
end_header b = do
  padding ← read_bytes (0 ∷ [])
  if get_or padding 0 0 == 0
      then pure (record { base = b })
      else (fail (errorf "format error: padding must equal 0" (get_or padding 0 0))
          >> pure (record { base = b }))

abbrev pub empty_tree : Error
empty_tree = new "length of the hashes cannot be zero"

-- `RebuildMerkleRoot`: the error, if there is one, and the block.
abbrev pub rebuilt :
    Block → Option (Option MerkleTree × List Transaction) → Option (Option Error × Block)
rebuilt b none = none
rebuilt b (some (none, txes)) = some (some empty_tree, record b { transactions = txes })
rebuilt b (some (some merkle, txes)) =
    some
      (none, record b { base = record b.base { merkle_root = root merkle }; transactions = txes })

abbrev pub check_root :
    Block → Option (Option MerkleTree × List Transaction) → Option (Option Error × Block)
check_root b none = none
check_root b (some (none, txes)) = some (some empty_tree, record b { transactions = txes })
check_root b (some (some merkle, txes)) = some (
  if same_bytes b.base.merkle_root (root merkle) then none else some (new "MerkleRoot mismatch"),
  record b { transactions = txes },
)

-- `Trim`: the error of the writer, or the bytes.
abbrev pub trimmed_bytes : Option (Unit {0} × BinWriter) → Option (Option Error × List ℕ)
trimmed_bytes none = none
trimmed_bytes (some (u, w)) = elim w.err [
  | some e ↦ some (some e, [])
  | none ↦ some (none, (buf_bytes w).0)
]

-- What `Trim` writes, over the hashes of the transactions.
abbrev pub write_trimmed : Base → List (List ℕ) → Write
write_trimmed b hs = do
  encode_hashable_fields b
  write_b 1
  encode_witness b.script
  write_var_uint (length hs)
  write_elems encode_uint256 hs

abbrev pub decode_trimmed_tx : Read Transaction
decode_trimmed_tx = do hash ← decode_uint256; pure (new_trimmed_tx hash)

-- `make([]*transaction.Transaction, lenTX)` panics for a number of transactions that is no int.
abbrev pub read_trimmed_txes : ℕ → Read (List Transaction)
read_trimmed_txes n r = if ltb n (2 ^ 63) then read_elems decode_trimmed_tx n r else none

abbrev pub cons_hash :
    Option (List ℕ × Transaction)
    → Option (List (List ℕ) × List Transaction)
    → Option (List (List ℕ) × List Transaction)
cons_hash none rest = none
cons_hash (some (h, tx)) none = none
cons_hash (some (h, tx)) (some (hs, txes)) = some (h ∷ hs, tx ∷ txes)

abbrev pub miner_shown :
    List Transaction → Option (List ℕ × Transaction) → Option (Bool × List Transaction)
miner_shown txes none = none
miner_shown txes (some (h, tx)) = some (true, tx ∷ txes)

abbrev pub not_miner :
    Transaction → Option (Bool × List Transaction) → Option (Bool × List Transaction)
not_miner tx none = none
not_miner tx (some (found, txes)) = some (found, tx ∷ txes)

module _ (sha256 : List ℕ → List ℕ) where
  -- `createHash`
  unfoldable pub create_base_hash : Base → Option Base
  create_base_hash b = elim (get_hashable_data b) [
    | none ↦ none
    | some bb ↦ some (record b { verification_hash = sha256 bb; hash = sha256 (sha256 bb) })
  ]

  -- `Hash` and `VerificationHash`: a hash of all zeros is computed.
  unfoldable pub base_hash : Base → Option (List ℕ × Base)
  base_hash b =
      if all_zero b.hash
      then elim (create_base_hash b) [ none ↦ none | some b' ↦ some (b'.hash, b') ]
      else some (b.hash, b)

  unfoldable pub base_verification_hash : Base → Option (List ℕ × Base)
  base_verification_hash b =
      if all_zero b.verification_hash
      then elim (create_base_hash b) [ none ↦ none | some b' ↦ some (b'.verification_hash, b') ]
      else some (b.verification_hash, b)

  -- `if br.Err == nil { b.createHash() }`
  abbrev pub hash_unless_failed : Base → Read Base
  hash_unless_failed b r = elim r.err [
    | some _ ↦ some (b, r)
    | none ↦ elim (create_base_hash b) [ none ↦ none | some b' ↦ some (b', r) ]
  ]

  -- `decodeHashableFields`
  unfoldable pub decode_hashable_fields : Read Base
  decode_hashable_fields = read_fields >>= hash_unless_failed

  unfoldable pub decode_base : Read Base
  decode_base = decode_hashable_fields >>= decode_padded

  unfoldable pub decode_header : Read Header
  decode_header = decode_base >>= end_header

  unfoldable pub decode_block : Curve → Read Block
  decode_block curve = do
    base ← decode_base
    transactions ← read_array (decode_transaction sha256 curve) []
    pure (record { base = base; transactions = transactions; trimmed = false })

  -- The hashes of transactions, which compute those that they do not have.
  unfoldable pub hashes_of : List Transaction → Option (List (List ℕ) × List Transaction)
  hashes_of [] = some ([], [])
  hashes_of (tx ∷ txes) = let rest = hashes_of txes in cons_hash (hash_of sha256 tx) rest

  abbrev pub tree_of :
      Option (List (List ℕ) × List Transaction) → Option (Option MerkleTree × List Transaction)
  tree_of none = none
  tree_of (some (hs, txes)) = elim (new_merkle_tree sha256 hs) [
    | none ↦ none
    | some t ↦ some (t, txes)
  ]

  unfoldable pub merkle_tree_from_transactions :
      List Transaction → Option (Option MerkleTree × List Transaction)
  merkle_tree_from_transactions txes = tree_of (hashes_of txes)

  unfoldable pub rebuild_merkle_root : Block → Option (Option Error × Block)
  rebuild_merkle_root b = rebuilt b (merkle_tree_from_transactions b.transactions)

  -- The loop of `Verify`: whether there is a miner transaction, whose hash its error shows.
  unfoldable pub other_miner : List Transaction → Option (Bool × List Transaction)
  other_miner [] = some (false, [])
  other_miner (tx ∷ txes) =
      let rest = other_miner txes in
      if tx.kind == miner_type then miner_shown txes (hash_of sha256 tx) else not_miner tx rest

  abbrev pub check_miners :
      Block → Transaction → Option (Bool × List Transaction) → Option (Option Error × Block)
  check_miners b first none = none
  check_miners b first (some (true, txes)) = some (
    some (new "miner transaction is not the first one"),
    record b { transactions = first ∷ txes },
  )
  check_miners b first (some (false, txes)) =
      check_root b (merkle_tree_from_transactions (first ∷ txes))

  abbrev pub verify_from : Block → List Transaction → Option (Option Error × Block)
  verify_from b [] = some (some (new "no transactions"), b)
  verify_from b (first ∷ rest) =
      if first.kind == miner_type
      then check_miners b first (other_miner rest)
      else some (some (errorf "the first transaction is" first.kind), b)

  -- `Verify`: the error, if there is one, and the block, whose transactions may have got their
  -- hashes.
  unfoldable pub verify : Block → Option (Option Error × Block)
  verify b = verify_from b b.transactions

  unfoldable pub trim : Block → Option (Option Error × List ℕ)
  trim b = elim (hashes_of b.transactions) [
    | none ↦ none
    | some (hs, txes) ↦ trimmed_bytes (write_trimmed b.base hs new_buf_bin_writer)
  ]

  -- `NewBlockFromTrimmedBytes`: the block, with the error of the reader. The padding is not looked
  -- at.
  unfoldable pub read_trimmed : Read Block
  read_trimmed = do
    fields ← decode_hashable_fields
    padding ← read_b
    script ← decode_witness
    n ← read_var_uint
    transactions ← read_trimmed_txes n
    pure (record {
      base = record fields { script = script };
      transactions = transactions;
      trimmed = true;
    })

  unfoldable pub new_block_from_trimmed_bytes : List ℕ → Option (Block × BinReader)
  unfolding read_trimmed
  new_block_from_trimmed_bytes b = read_trimmed (reader b)

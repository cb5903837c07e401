-- ===== src/Tests/Blocks.antt =====
-- Blocks (pkg/core/block) on concrete values.
use neovm.Prelude.{
  ℕ, ◌≡◌, ◌⊎◌, ◌↔◌, refl, true, false, some, none, List, [], ◌∷◌, arith, map, length, put_le,
}
use neovm.Io.Codec.{Carries}
use neovm.Io.Reader.{reader}
use neovm.Io.Writer.{
  write_b, write_bytes, write_u32_le, write_array, write_var_uint, write_elems, write_var_bytes,
  write_u64_le, buf_bytes,
}
use neovm.Prelude.Int.{to_u64}
use neovm.Util.Values.{encode_uint256, encode_fixed8, encode_uint160}
use neovm.Transaction.Payload.{encode_payload}
use neovm.Transaction.Attribute.{encode_attribute, encode_content}
use neovm.Transaction.Parts.{encode_output}
use neovm.Merkle.{new_merkle_tree, build_merkle_tree}
use neovm.Merkle.Binding.{Collision, IsHash}
use neovm.Transaction.Body.{
  Transaction, new_trimmed_tx, create_hash, hash_of, encode_hashable_fields,
}
use neovm.Block.{
  Base, Block, hashes_of, encode_block, decode_block, trim, new_block_from_trimmed_bytes,
  rebuild_merkle_root, verify, other_miner, merkle_tree_from_transactions,
}
use neovm.Block.RoundTrip.{IsBase, hashed, Carries-block}
use neovm.Block.Trimmed.{trim-read}
use neovm.Block.Verified.{IsVerified}
use neovm.Block.Bound.{verify_iff, verify-binds}
use neovm.Block.Rebuilt.{rebuild-verify}
use neovm.Tests.Chain.{curve3, curve3-IsField}
use neovm.Tests.Ledger.{zeros, toy_hash, coinbase, coinbase-IsTransaction}

-- The miner transaction with its hashes.
abbrev known : Transaction
known = record coinbase { hash = 32 ∷ zeros 31; verification_hash = 73 ∷ zeros 31 }

abbrev base_of : List ℕ → Base
base_of root = record {
  version = 0;
  prev_hash = zeros 32;
  merkle_root = root;
  timestamp = 1500;
  index = 3;
  consensus_data = 99;
  next_consensus = zeros 20;
  script = record { invocation_script = 1 ∷ []; verification_script = 0x51 ∷ [] };
  hash = zeros 32;
  verification_hash = zeros 32;
}

base-IsBase : (root : List ℕ) → length root ≡ 32 → IsBase (base_of root)
base-IsBase root h = record {
  version = omega arith;
  prev_hash = refl;
  merkle_root = h;
  timestamp = omega arith;
  index = omega arith;
  consensus_data = omega arith;
  next_consensus = refl;
  script = (omega arith, omega arith);
}

abbrev one_block : Block
one_block = record { base = base_of known.hash; transactions = known ∷ []; trimmed = false }

known-created : create_hash toy_hash known ≡ some (none, known)
unfolding create_hash encode_hashable_fields write_b write_bytes encode_payload write_u32_le
    write_array write_var_uint write_elems encode_attribute encode_content write_var_bytes
    encode_output encode_uint256 encode_fixed8 write_u64_le encode_uint160 buf_bytes to_u64 put_le
known-created = refl

Carries-block_example :
    Carries (encode_block one_block) (decode_block toy_hash curve3) (record one_block {
      base = hashed toy_hash (base_of known.hash) (base-IsBase known.hash refl);
      trimmed = false;
    })
Carries-block_example =
    Carries-block toy_hash curve3 curve3-IsField one_block (base-IsBase known.hash refl)
      (
        (
          (coinbase-IsTransaction.0, coinbase-IsTransaction.1, coinbase-IsTransaction.2),
          known-created,
          refl,
        ),
        tt,
      )
      (omega arith)

known-hashes : hashes_of toy_hash (known ∷ []) ≡ some (known.hash ∷ [], known ∷ [])
unfolding hashes_of hash_of
known-hashes = refl

trim-read_example :
    (bytes : List ℕ) × (trim toy_hash one_block ≡ some (none, bytes))
    × (new_block_from_trimmed_bytes toy_hash bytes
        ≡ some (
          record {
            base = hashed toy_hash (base_of known.hash) (base-IsBase known.hash refl);
            transactions = map new_trimmed_tx (known.hash ∷ []);
            trimmed = true;
          },
          reader [],
        ))
trim-read_example =
    trim-read toy_hash one_block (base-IsBase known.hash refl) (known.hash ∷ []) (known ∷ [])
      known-hashes (refl, tt) (omega arith)

verify_iff_example :
    ((b' : Block) × (verify toy_hash one_block ≡ some (none, b'))) ↔ IsVerified toy_hash one_block
verify_iff_example = verify_iff toy_hash one_block

one-verified : verify toy_hash one_block ≡ some (none, one_block)
unfolding verify other_miner merkle_tree_from_transactions hashes_of hash_of new_merkle_tree
    build_merkle_tree
one-verified = refl

toy-IsHash : (b : List ℕ) → IsHash (toy_hash b)
toy-IsHash b = refl

verify-binds_example :
    ((hs : List (List ℕ)) × (ts : List Transaction) × (us : List Transaction) × (hashes_of toy_hash
          one_block.transactions
        ≡ some (hs, ts))
      × (hashes_of toy_hash one_block.transactions ≡ some (hs, us)))
    ⊎ Collision toy_hash
verify-binds_example =
    verify-binds toy_hash toy-IsHash one_block one_block one_block one_block (refl, tt) (refl, tt)
      one-verified one-verified refl refl

abbrev rootless : Block
rootless = record { base = base_of (zeros 32); transactions = known ∷ []; trimmed = false }

one-rebuilt : rebuild_merkle_root toy_hash rootless ≡ some (none, one_block)
unfolding rebuild_merkle_root merkle_tree_from_transactions hashes_of hash_of new_merkle_tree
    build_merkle_tree
one-rebuilt = refl

rebuild-verify_example : verify toy_hash one_block ≡ some (none, one_block)
rebuild-verify_example =
    rebuild-verify toy_hash rootless one_block known [] refl refl tt one-rebuilt

-- ===== src/SmartContract.antt =====
-- pkg/smartcontract: the script of a multi-signature contract (contract.go).
pub mod Counts
pub mod Script
use neovm.Prelude.{ℕ, Option, none, some, List, [], ◌∷◌, length, if◌then◌else◌, ◌>>=◌, ◌>>◌, resume}
use neovm.Prelude.Int.{ℤ, pos, ltb_ℤ}
use neovm.Io.Error.{Error, errorf, new}
use neovm.Io.Writer.{Write, BinWriter, new_buf_bin_writer, write_elems, buf_bytes}
use neovm.Emit.Instructions.{emit_int, emit_bytes, opcode}
use neovm.Vm.Opcode
use neovm.Keys.PublicKey.{PublicKey, bytes}
use neovm.Keys.Sorting.{sort_keys}

-- What `CreateMultiSigRedeemScript` returns.
pub data Redeem : Type 0 where
  script : List ℕ → Redeem
  refused : Error → Redeem

unfoldable pub emit_key : PublicKey → Write
emit_key key w = elim (bytes key) [ none ↦ none | some b ↦ emit_bytes b w ]

unfoldable pub emit_redeem : ℤ → List PublicKey → Write
emit_redeem m keys = do
  emit_int m
  write_elems emit_key keys
  emit_int (pos (length keys))
  opcode Opcode.checkmultisig

-- With the caller's slice, which is sorted in place; `none` is a panic.
abbrev pub drained :
    List PublicKey → Option (Unit {0} × BinWriter) → Option (Redeem × List PublicKey)
drained keys none = none
drained keys (some (u, w)) = some (script (buf_bytes w).0, keys)

unfoldable pub create_multi_sig_redeem_script :
    ℤ → List PublicKey → Option (Redeem × List PublicKey)
create_multi_sig_redeem_script m public_keys =
    if ltb_ℤ m (pos 1)
    then some (refused (new "param m cannot be smaller or equal to 1"), public_keys)
    else if ltb_ℤ (pos (length public_keys)) m
    then some (
      refused (new "length of the signatures is higher then the number of public keys"),
      public_keys,
    )
    else if ltb_ℤ (pos 1024) m
    then some (
      refused (errorf "public key count exceeds maximum of length 1024" (length public_keys)),
      public_keys,
    )
    else elim (sort_keys public_keys) [
      | none ↦ none
      | some keys ↦ drained keys (emit_redeem m keys new_buf_bin_writer)
    ]

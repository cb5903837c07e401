-- ===== src/Transaction/Body.antt =====
-- pkg/core/transaction/transaction.go and type.go: a transaction, its binary form and its hashes.
-- SHA-256 (crypto/sha256) is a parameter.
pub mod Fields
pub mod RoundTrip
use neovm.Prelude.{
  ℕ, suc, ◌+◌, ◌^◌, ◌≡◌, Bool, false, true, not, ◌&&◌, Option, none, some, List, [], ◌∷◌, ◌++◌,
  replicate, ◌==◌, if◌then◌else◌, pure, ◌>>=◌, ◌>>◌,
}
use neovm.Prelude.Int.{pos}
use neovm.Io.Error.{Error, new, errorf}
use neovm.Io.Reader.{Read, BinReader, fail, read_u32_le, read_b, read_array}
use neovm.Io.Writer.{Write, BinWriter, write_b, write_array, new_buf_bin_writer, buf_bytes}
use neovm.Io.Writer
use neovm.Util.Values.{uint256_size, less_than}
use neovm.Keys.PublicKey.{Curve, decode_public_key}
use neovm.Transaction.AttrUsage
use neovm.Transaction.Attribute.{Attribute, decode_attribute, encode_attribute}
use neovm.Transaction.Parts.{
  Input, decode_input, encode_input, Output, decode_output, encode_output, Witness, decode_witness,
  encode_witness, decode_state_descriptor,
}
use neovm.Transaction.Payload.{
  Payload, miner, issue, claim, enrollment, register, contract, state, publish, invocation,
  encode_payload, decode_register, decode_publish, decode_invocation,
}

abbrev pub miner_type : ℕ
miner_type = 0x00

abbrev pub issue_type : ℕ
issue_type = 0x01

abbrev pub claim_type : ℕ
claim_type = 0x02

abbrev pub enrollment_type : ℕ
enrollment_type = 0x20

abbrev pub register_type : ℕ
register_type = 0x40

abbrev pub contract_type : ℕ
contract_type = 0x80

abbrev pub state_type : ℕ
state_type = 0x90

abbrev pub publish_type : ℕ
publish_type = 0xd0

abbrev pub invocation_type : ℕ
invocation_type = 0xd1

-- `payload` is the field Data; `none` is a nil interface.
pub record Transaction : Type 0 where
  pub kind : ℕ
  pub version : ℕ
  pub payload : Option Payload
  pub attributes : List Attribute
  pub inputs : List Input
  pub outputs : List Output
  pub scripts : List Witness
  pub hash : List ℕ
  pub verification_hash : List ℕ
  pub trimmed : Bool

-- `hash.Equals(util.Uint256{})`
abbrev pub all_zero : List ℕ → Bool
all_zero [] = true
all_zero (b ∷ bs) = b == 0 && all_zero bs

abbrev pub zero_hash : List ℕ
zero_hash = replicate uint256_size 0

-- `NewTrimmedTX`
unfoldable pub new_trimmed_tx : List ℕ → Transaction
new_trimmed_tx hash = record {
  kind = 0;
  version = 0;
  payload = none;
  attributes = [];
  inputs = [];
  outputs = [];
  scripts = [];
  hash = hash;
  verification_hash = zero_hash;
  trimmed = true;
}

unfoldable pub add_output : Output → Transaction → Transaction
add_output out t = record t { outputs = t.outputs ++ (out ∷ []) }

unfoldable pub add_input : Input → Transaction → Transaction
add_input i t = record t { inputs = t.inputs ++ (i ∷ []) }

unfoldable pub add_verification_hash : List ℕ → Transaction → Transaction
add_verification_hash addr t = record t {
  attributes = t.attributes ++ (record { usage = AttrUsage.script; content = addr } ∷ []);
}

-- The fields behind the data, which `encodeHashableFields` writes last.
abbrev pub encode_arrays : Transaction → Write
encode_arrays t = do
  write_array encode_attribute t.attributes
  write_array encode_input t.inputs
  write_array encode_output t.outputs

abbrev pub encode_some : Option Payload → Write
encode_some none = pure tt
encode_some (some p) = encode_payload p

-- `encodeHashableFields`
unfoldable pub encode_hashable_fields : Transaction → Write
encode_hashable_fields t =
    if elim t.payload [ none ↦ true | some _ ↦ false ] && not (t.kind == contract_type)
    then Writer.fail (new "transaction has no data")
    else (do
      write_b t.kind
      write_b t.version
      (if t.kind == contract_type then pure tt else encode_some t.payload)
      encode_arrays t)

unfoldable pub encode_transaction : Transaction → Write
encode_transaction t = encode_hashable_fields t >> write_array encode_witness t.scripts

-- `decodeData`: the data that the type asks for.
unfoldable pub decode_data : Curve → ℕ → ℕ → Read (Option Payload)
decode_data curve kind version =
    if kind == invocation_type
    then (decode_invocation version >>= λ tx. pure (some (invocation tx)))
    else if kind == miner_type
    then (read_u32_le >>= λ nonce. pure (some (miner nonce)))
    else if kind == claim_type
    then (read_array decode_input [] >>= λ claims. pure (some (claim claims)))
    else if kind == contract_type
    then pure (some contract)
    else if kind == register_type
    then (decode_register curve >>= λ tx. pure (some (register tx)))
    else if kind == issue_type
    then pure (some issue)
    else if kind == enrollment_type
    then (decode_public_key curve >>= λ key. pure (some (enrollment key)))
    else if kind == publish_type
    then (decode_publish version >>= λ tx. pure (some (publish tx)))
    else if kind == state_type
    then (read_array decode_state_descriptor [] >>= λ descriptors. pure (some (state descriptors)))
    else (fail (errorf "invalid TX type" kind) >> pure none)

-- The first part of `DecodeBinary`, up to the outputs.
unfoldable pub decode_fields : Curve → Read Transaction
decode_fields curve = do
  kind ← read_b
  version ← read_b
  payload ← decode_data curve kind version
  attributes ← read_array decode_attribute []
  inputs ← read_array decode_input []
  outputs ← read_array decode_output []
  pure (record {
    kind = kind;
    version = version;
    payload = payload;
    attributes = attributes;
    inputs = inputs;
    outputs = outputs;
    scripts = [];
    hash = zero_hash;
    verification_hash = zero_hash;
    trimmed = false;
  })

-- The loop over the outputs: their positions, up to a negative amount, and whether it returns.
unfoldable pub set_positions : ℕ → List Output → List Output × Bool
set_positions i [] = ([], false)
set_positions i (o ∷ os) =
    let (os', negative) = set_positions (suc i) os in
    if less_than o.amount (pos 0)
    then (o ∷ os, true)
    else (record o { position = i } ∷ os', negative)

module _ (sha256 : List ℕ → List ℕ) where
  -- `createHash`: the error, if there is one, and the transaction with its hashes.
  unfoldable pub create_hash : Transaction → Option (Option Error × Transaction)
  create_hash t = elim (encode_hashable_fields t new_buf_bin_writer) [
    | none ↦ none
    | some (u, w) ↦ elim w.err [
      | some e ↦ some (some e, t)
      | none ↦ some (
        none,
        record t {
          hash = sha256 (sha256 (buf_bytes w).0);
          verification_hash = sha256 (buf_bytes w).0;
        },
      )
    ]
  ]

  -- `Hash`: a hash of all zeros is computed; an error panics.
  unfoldable pub hash_of : Transaction → Option (List ℕ × Transaction)
  hash_of t =
      if all_zero t.hash
      then elim (create_hash t) [
        | none ↦ none
        | some (e, t') ↦ elim e [ some _ ↦ none | none ↦ some (t'.hash, t') ]
      ]
      else some (t.hash, t)

  -- `br.Err = t.createHash()`, unless there is an error already.
  abbrev pub hash_decoded : Transaction → Read Transaction
  hash_decoded t r = elim r.err [
    | some _ ↦ some (t, r)
    | none ↦ elim (create_hash t) [ none ↦ none | some (e, t') ↦ some (t', record r { err = e }) ]
  ]

  -- The second part of `DecodeBinary`.
  abbrev pub decode_rest : Transaction → Read Transaction
  decode_rest t =
      let (outputs, negative) = set_positions 0 t.outputs in
      if negative
      then (fail (new "negative output") >> pure (record t { outputs = outputs }))
      else (do
        scripts ← read_array decode_witness []
        hash_decoded (record t { outputs = outputs; scripts = scripts }))

  unfoldable pub decode_transaction : Curve → Read Transaction
  decode_transaction curve = decode_fields curve >>= decode_rest

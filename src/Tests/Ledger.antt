-- ===== src/Tests/Ledger.antt =====
-- Transactions (pkg/core/transaction) and state (pkg/core/state) on concrete values.
use neovm.Prelude.{
  ℕ, ◌%◌, ◌^◌, ◌≡◌, refl, false, some, none, List, [], ◌∷◌, replicate, length, arith,
}
use neovm.Prelude.Int.{pos, negsuc}
use neovm.Io.Codec.{Carries}
use neovm.Tests.Chain.{curve3, curve3-IsField}
use neovm.Keys.PublicKey.{point}
use neovm.Util.Values.{less_than}
use neovm.Transaction.AttrUsage
use neovm.Transaction.Attribute.{Attribute, IsAttribute}
use neovm.Transaction.Parts.{Output}
use neovm.Transaction.Payload.{miner, RegisterTx}
use neovm.Transaction.Body.{
  Transaction, miner_type, zero_hash, encode_transaction, decode_transaction, create_hash,
  set_positions,
}
use neovm.Transaction.Body.Fields.{IsPayload}
use neovm.Transaction.Body.RoundTrip.{IsTransaction, Carries-transaction}

abbrev pub zeros : ℕ → List ℕ
zeros n = replicate n 0

-- A stand-in for the hash: 32 bytes that depend on the input's length.
abbrev pub toy_hash : List ℕ → List ℕ
toy_hash b = length b % 2 ^ 8 ∷ zeros 31

abbrev pub payment : Output
payment = record { asset_id = zeros 32; amount = pos 500; script_hash = zeros 20; position = 0 }

abbrev pub memo : Attribute
memo = record { usage = AttrUsage.remark; content = 104 ∷ 105 ∷ [] }

-- A miner transaction with a remark and an output.
abbrev pub coinbase : Transaction
coinbase = record {
  kind = miner_type;
  version = 0;
  payload = some (miner 77);
  attributes = memo ∷ [];
  inputs = [];
  outputs = payment ∷ [];
  scripts = record { invocation_script = 1 ∷ []; verification_script = 0x51 ∷ [] } ∷ [];
  hash = zero_hash;
  verification_hash = zero_hash;
  trimmed = false;
}

coinbase_positions : set_positions 0 (payment ∷ []) ≡ (payment ∷ [], false)
unfolding set_positions less_than
coinbase_positions = refl

pub coinbase-IsTransaction : IsTransaction curve3 coinbase
coinbase-IsTransaction = (
  (
    omega arith,
    omega arith,
    (miner 77, refl, unfold IsPayload in (refl, omega arith)),
    (((IsAttribute.note refl (omega arith), omega arith), tt), omega arith),
    (tt, omega arith),
    (((refl, omega arith, refl), tt), omega arith),
  ),
  coinbase_positions,
  (((omega arith, omega arith), tt), omega arith),
)

Carries-transaction_example :
    (t' : Transaction) × (create_hash toy_hash coinbase ≡ some (none, t'))
    × Carries
        (encode_transaction coinbase)
        (decode_transaction toy_hash curve3)
        (record t' { trimmed = false })
Carries-transaction_example =
    Carries-transaction toy_hash curve3 curve3-IsField coinbase coinbase-IsTransaction

abbrev asset : RegisterTx
asset = record {
  asset_type = 0;
  name = 78 ∷ [];
  amount = negsuc 0;
  precision = 8;
  owner = point 1 2;
  admin = zeros 20;
}

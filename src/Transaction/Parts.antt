-- ===== src/Transaction/Parts.antt =====
-- pkg/core/transaction: input.go, output.go, witness.go and state_descriptor.go. A decoder makes a
-- fresh value, as the readers of arrays do.
pub mod RoundTrip
use neovm.Prelude.{ℕ, ◌%◌, ◌^◌, ◌≤◌, ◌<◌, List, length, pure, ◌>>=◌, ◌>>◌}
use neovm.Prelude.Int.{ℤ, pos, IsI64}
use neovm.Io.Reader.{Read, max_array_size, read_u16_le, read_b, read_var_bytes, read_string}
use neovm.Io.Writer.{Write, write_u16_le, write_b, write_var_bytes, write_string}
use neovm.Util.Values.{
  IsUint160, IsUint256, encode_uint160, decode_uint160, encode_uint256, decode_uint256,
  encode_fixed8, decode_fixed8,
}

pub record Input : Type 0 where
  pub prev_hash : List ℕ
  pub prev_index : ℕ

abbrev pub IsInput : Input → Type 0
IsInput i = IsUint256 i.prev_hash × (i.prev_index < 2 ^ 16)

unfoldable pub decode_input : Read Input
decode_input = do
  prev_hash ← decode_uint256
  prev_index ← read_u16_le
  pure (record { prev_hash = prev_hash; prev_index = prev_index })

unfoldable pub encode_input : Input → Write
encode_input i = do encode_uint256 i.prev_hash; write_u16_le i.prev_index

-- The position is not encoded; the decoder leaves it 0.
pub record Output : Type 0 where
  pub asset_id : List ℕ
  pub amount : ℤ
  pub script_hash : List ℕ
  pub position : ℕ

abbrev pub IsOutput : Output → Type 0
IsOutput o = IsUint256 o.asset_id × IsI64 o.amount × IsUint160 o.script_hash

unfoldable pub decode_output : Read Output
decode_output = do
  asset_id ← decode_uint256
  amount ← decode_fixed8
  script_hash ← decode_uint160
  pure (record { asset_id = asset_id; amount = amount; script_hash = script_hash; position = 0 })

unfoldable pub encode_output : Output → Write
encode_output o = do encode_uint256 o.asset_id; encode_fixed8 o.amount; encode_uint160 o.script_hash

pub record Witness : Type 0 where
  pub invocation_script : List ℕ
  pub verification_script : List ℕ

abbrev pub Fits : List ℕ → Type 0
Fits b = length b ≤ max_array_size

abbrev pub IsWitness : Witness → Type 0
IsWitness w = Fits w.invocation_script × Fits w.verification_script

unfoldable pub decode_witness : Read Witness
decode_witness = do
  invocation_script ← read_var_bytes
  verification_script ← read_var_bytes
  pure (record { invocation_script = invocation_script; verification_script = verification_script })

unfoldable pub encode_witness : Witness → Write
encode_witness w = do write_var_bytes w.invocation_script; write_var_bytes w.verification_script

pub record StateDescriptor : Type 0 where
  pub kind : ℕ
  pub key : List ℕ
  pub value : List ℕ
  pub field : List ℕ

abbrev pub IsStateDescriptor : StateDescriptor → Type 0
IsStateDescriptor s = (s.kind < 2 ^ 8) × Fits s.key × Fits s.field × Fits s.value

unfoldable pub decode_state_descriptor : Read StateDescriptor
decode_state_descriptor = do
  kind ← read_b
  key ← read_var_bytes
  field ← read_string
  value ← read_var_bytes
  pure (record { kind = kind; key = key; value = value; field = field })

unfoldable pub encode_state_descriptor : StateDescriptor → Write
encode_state_descriptor s = do
  write_b s.kind
  write_var_bytes s.key
  write_string s.field
  write_var_bytes s.value

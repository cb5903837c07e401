-- ===== src/Transaction/Payload.antt =====
-- pkg/core/transaction: the data of each type of transaction (invocation.go, miner.go, claim.go,
-- contract.go, issue.go, publish.go, state.go, register.go, enrollment.go), and type.go.
pub mod RoundTrip
use neovm.Prelude.{
  ℕ, ◌%◌, ◌^◌, ◌≤◌, ◌<◌, ◌≡◌, ◌≢◌, Bool, false, true, not, ◌&&◌, Option, none, some, List, [], ◌∷◌,
  length, All, leb, ltb, ◌==◌, if◌then◌else◌, pure, ◌>>=◌, ◌>>◌,
}
use neovm.Prelude.Int.{ℤ, pos, IsI64, ◌≤ℤ◌}
use neovm.Io.Error.{new, errorf}
use neovm.Io.Reader.{
  Read, fail, failed, max_array_size, read_u32_le, read_b, read_bool, read_var_uint, read_var_bytes,
  read_string, read_elems, read_array,
}
use neovm.Io.Writer.{
  Write, write_u32_le, write_b, write_bool, write_var_uint, write_var_bytes, write_string,
  write_elems, write_array, write_bytes,
}
use neovm.Util.Values.{
  IsUint160, encode_uint160, decode_uint160, encode_fixed8, decode_fixed8, less_than,
}
use neovm.Keys.PublicKey.{Curve, PublicKey, IsKey, encode_public_key, decode_public_key}
use neovm.Transaction.Parts.{
  Fits, Input, IsInput, decode_input, encode_input, StateDescriptor, IsStateDescriptor,
  decode_state_descriptor, encode_state_descriptor,
}

pub record InvocationTx : Type 0 where
  pub script : List ℕ
  pub gas : ℤ
  pub version : ℕ

-- The test of the gas that was read.
abbrev pub check_gas : ℕ → List ℕ → ℤ → Read InvocationTx
check_gas version script gas = do
  stop ← failed
  if not stop && less_than gas (pos 0)
      then (fail (new "negative gas")
          >> pure (record { script = script; gas = gas; version = version }))
      else pure (record { script = script; gas = gas; version = version })

abbrev pub decode_gas : ℕ → List ℕ → Read InvocationTx
decode_gas version script =
    if leb 1 version
    then (decode_fixed8 >>= check_gas version script)
    else pure (record { script = script; gas = pos 0; version = version })

-- The test of the script that was read.
abbrev pub check_script : ℕ → List ℕ → Read InvocationTx
check_script version script = do
  stop ← failed
  if not stop && (length script == 0)
      then (fail (new "no script")
          >> pure (record { script = script; gas = pos 0; version = version }))
      else decode_gas version script

-- The version is that of the transaction.
unfoldable pub decode_invocation : ℕ → Read InvocationTx
decode_invocation version = read_var_bytes >>= check_script version

unfoldable pub encode_invocation : InvocationTx → Write
encode_invocation tx =
    write_var_bytes tx.script >> (if leb 1 tx.version then encode_fixed8 tx.gas else pure tt)

pub record PublishTx : Type 0 where
  pub script : List ℕ
  pub param_list : List ℕ
  pub return_type : ℕ
  pub need_storage : Bool
  pub name : List ℕ
  pub code_version : List ℕ
  pub author : List ℕ
  pub email : List ℕ
  pub description : List ℕ
  pub version : ℕ

-- `make([]smartcontract.ParamType, lenParams)`, filled byte by byte; too long a length panics.
abbrev pub read_params : ℕ → Read (List ℕ)
read_params n r = if ltb n (2 ^ 63) then read_elems read_b n r else none

unfoldable pub decode_publish : ℕ → Read PublishTx
decode_publish version = do
  script ← read_var_bytes
  len_params ← read_var_uint
  param_list ← read_params len_params
  return_type ← read_b
  need_storage ← (if leb 1 version then read_bool else pure false)
  name ← read_string
  code_version ← read_string
  author ← read_string
  email ← read_string
  description ← read_string
  pure (record {
    script = script;
    param_list = param_list;
    return_type = return_type;
    need_storage = need_storage;
    name = name;
    code_version = code_version;
    author = author;
    email = email;
    description = description;
    version = version;
  })

unfoldable pub encode_publish : PublishTx → Write
encode_publish tx = do
  write_var_bytes tx.script
  write_var_uint (length tx.param_list)
  write_elems write_b tx.param_list
  write_b tx.return_type
  (if leb 1 tx.version then write_bool tx.need_storage else pure tt)
  write_string tx.name
  write_string tx.code_version
  write_string tx.author
  write_string tx.email
  write_string tx.description

pub record RegisterTx : Type 0 where
  pub asset_type : ℕ
  pub name : List ℕ
  pub amount : ℤ
  pub precision : ℕ
  pub owner : PublicKey
  pub admin : List ℕ

unfoldable pub decode_register : Curve → Read RegisterTx
decode_register curve = do
  asset_type ← read_b
  name ← read_string
  amount ← decode_fixed8
  precision ← read_b
  owner ← decode_public_key curve
  admin ← decode_uint160
  pure (record {
    asset_type = asset_type;
    name = name;
    amount = amount;
    precision = precision;
    owner = owner;
    admin = admin;
  })

unfoldable pub encode_register : RegisterTx → Write
encode_register tx = do
  write_b tx.asset_type
  write_string tx.name
  encode_fixed8 tx.amount
  write_b tx.precision
  encode_public_key tx.owner
  encode_uint160 tx.admin

-- `TXer`: the data of a transaction; `none` among the types of `Body` is a nil interface.
pub data Payload : Type 0 where
  miner : ℕ → Payload
  issue : Payload
  claim : List Input → Payload
  enrollment : PublicKey → Payload
  register : RegisterTx → Payload
  contract : Payload
  state : List StateDescriptor → Payload
  publish : PublishTx → Payload
  invocation : InvocationTx → Payload

-- The `EncodeBinary` of each type.
unfoldable pub encode_payload : Payload → Write
encode_payload (miner nonce) = write_u32_le nonce
encode_payload issue = pure tt
encode_payload (claim claims) = write_array encode_input claims
encode_payload (enrollment key) = encode_public_key key
encode_payload (register tx) = encode_register tx
encode_payload contract = pure tt
encode_payload (state descriptors) = write_array encode_state_descriptor descriptors
encode_payload (publish tx) = encode_publish tx
encode_payload (invocation tx) = encode_invocation tx

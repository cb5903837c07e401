-- ===== src/State/Assets.antt =====
-- pkg/core/state: asset.go, contract.go and validator.go, the records of assets, contracts and
-- validators, and their binary forms. The fields stand in the order of the wire. SHA-256 and
-- RIPEMD-160 are parameters, and so is the curve of the keys.
pub mod RoundTrip
use neovm.Prelude.{
  ℕ, ◌^◌, ◌<◌, ◌≤◌, ◌≡◌, Bool, ◌&&◌, not, List, [], All, length, pure, ◌>>=◌, ◌>>◌, ◌==◌,
  if◌then◌else◌,
}
use neovm.Prelude.Int.{ℤ, pos, IsI64, ltb_ℤ, eqb_ℤ}
use neovm.Io.Reader.{
  Read, max_array_size, read_b, read_bool, read_u32_le, read_string, read_var_bytes, read_array,
}
use neovm.Io.Writer.{
  Write, write_b, write_bool, write_u32_le, write_string, write_var_bytes, write_array,
}
use neovm.Util.Values.{
  IsUint160, IsUint256, encode_uint160, decode_uint160, encode_uint256, decode_uint256,
  encode_fixed8, decode_fixed8,
}
use neovm.Keys.PublicKey.{Curve, PublicKey, IsKey, encode_public_key, decode_public_key}
use neovm.Transaction.Parts.{Fits}

pub record Asset : Type 0 where
  pub id : List ℕ
  pub asset_type : ℕ
  pub name : List ℕ
  pub amount : ℤ
  pub available : ℤ
  pub precision : ℕ
  pub fee_mode : ℕ
  pub fee_address : List ℕ
  pub owner : PublicKey
  pub admin : List ℕ
  pub issuer : List ℕ
  pub expiration : ℕ
  pub is_frozen : Bool

abbrev pub IsAsset : Curve → Asset → Type 0
IsAsset curve a =
    IsUint256 a.id
    × (a.asset_type < 2 ^ 8)
    × Fits a.name
    × IsI64 a.amount
    × IsI64 a.available
    × (a.precision < 2 ^ 8)
    × (a.fee_mode < 2 ^ 8)
    × IsUint160 a.fee_address
    × IsKey curve a.owner
    × IsUint160 a.admin
    × IsUint160 a.issuer
    × (a.expiration < 2 ^ 32)

unfoldable pub decode_asset : Curve → Read Asset
decode_asset curve = do
  id ← decode_uint256
  asset_type ← read_b
  name ← read_string
  amount ← decode_fixed8
  available ← decode_fixed8
  precision ← read_b
  fee_mode ← read_b
  fee_address ← decode_uint160
  owner ← decode_public_key curve
  admin ← decode_uint160
  issuer ← decode_uint160
  expiration ← read_u32_le
  is_frozen ← read_bool
  pure (record {
    id = id;
    asset_type = asset_type;
    name = name;
    amount = amount;
    available = available;
    precision = precision;
    fee_mode = fee_mode;
    fee_address = fee_address;
    owner = owner;
    admin = admin;
    issuer = issuer;
    expiration = expiration;
    is_frozen = is_frozen;
  })

unfoldable pub encode_asset : Asset → Write
encode_asset a = do
  encode_uint256 a.id
  write_b a.asset_type
  write_string a.name
  encode_fixed8 a.amount
  encode_fixed8 a.available
  write_b a.precision
  write_b a.fee_mode
  encode_uint160 a.fee_address
  encode_public_key a.owner
  encode_uint160 a.admin
  encode_uint160 a.issuer
  write_u32_le a.expiration
  write_bool a.is_frozen

pub record Validator : Type 0 where
  pub public_key : PublicKey
  pub registered : Bool
  pub votes : ℤ

abbrev pub IsValidator : Curve → Validator → Type 0
IsValidator curve v = IsKey curve v.public_key × IsI64 v.votes

abbrev pub registered_and_has_votes : Validator → Bool
registered_and_has_votes v = v.registered && ltb_ℤ (pos 0) v.votes

abbrev pub unregistered_and_has_no_votes : Validator → Bool
unregistered_and_has_no_votes v = not v.registered && eqb_ℤ v.votes (pos 0)

unfoldable pub encode_validator : Validator → Write
encode_validator v = do
  encode_public_key v.public_key
  write_bool v.registered
  encode_fixed8 v.votes

unfoldable pub decode_validator : Curve → Read Validator
decode_validator curve = do
  public_key ← decode_public_key curve
  registered ← read_bool
  votes ← decode_fixed8
  pure (record { public_key = public_key; registered = registered; votes = votes })

pub record Contract : Type 0 where
  pub script : List ℕ
  pub param_list : List ℕ
  pub return_type : ℕ
  pub properties : ℕ
  pub name : List ℕ
  pub code_version : List ℕ
  pub author : List ℕ
  pub email : List ℕ
  pub description : List ℕ
  pub script_hash : List ℕ

-- `hash.Hash160`
abbrev pub hash160 : (List ℕ → List ℕ) → (List ℕ → List ℕ) → List ℕ → List ℕ
hash160 sha256 ripemd160 b = ripemd160 (sha256 b)

-- `createHash`
abbrev pub create_script_hash : (List ℕ → List ℕ) → (List ℕ → List ℕ) → Contract → Contract
create_script_hash sha256 ripemd160 c = record c { script_hash = hash160 sha256 ripemd160 c.script }

abbrev pub IsContract : (List ℕ → List ℕ) → (List ℕ → List ℕ) → Contract → Type 0
IsContract sha256 ripemd160 c =
    Fits c.script
    × (All (λ t. t < 2 ^ 8) c.param_list)
    × (length c.param_list ≤ max_array_size)
    × (c.return_type < 2 ^ 8)
    × (c.properties < 2 ^ 8)
    × Fits c.name
    × Fits c.code_version
    × Fits c.author
    × Fits c.email
    × Fits c.description
    × (c.script_hash ≡ hash160 sha256 ripemd160 c.script)

unfoldable pub decode_contract : (List ℕ → List ℕ) → (List ℕ → List ℕ) → Read Contract
decode_contract sha256 ripemd160 = do
  script ← read_var_bytes
  param_list ← read_array read_b []
  return_type ← read_b
  properties ← read_b
  name ← read_string
  code_version ← read_string
  author ← read_string
  email ← read_string
  description ← read_string
  pure (
      create_script_hash sha256 ripemd160 (record {
        script = script;
        param_list = param_list;
        return_type = return_type;
        properties = properties;
        name = name;
        code_version = code_version;
        author = author;
        email = email;
        description = description;
        script_hash = [];
      }))

unfoldable pub encode_contract : Contract → Write
encode_contract c = do
  write_var_bytes c.script
  write_array write_b c.param_list
  write_b c.return_type
  write_b c.properties
  write_string c.name
  write_string c.code_version
  write_string c.author
  write_string c.email
  write_string c.description

-- ===== src/State/Records.antt =====
-- pkg/core/state: account.go, storage_item.go, nep5.go and transfer_log.go, the records of balances,
-- stored items and transfers, and their binary forms. The fields stand in the order of the wire.
pub mod RoundTrip
use neovm.Prelude.{ℕ, ◌^◌, ◌<◌, Bool, List, pure, ◌>>=◌, ◌>>◌}
use neovm.Prelude.Int.{ℤ, IsI64, to_u64, of_u64}
use neovm.Io.Reader.{Read, read_u64_le, read_u32_le, read_u16_le, read_bool, read_var_bytes}
use neovm.Io.Writer.{Write, write_u64_le, write_u32_le, write_u16_le, write_bool, write_var_bytes}
use neovm.Util.Values.{
  IsUint160, IsUint256, encode_uint160, decode_uint160, encode_uint256, decode_uint256,
  encode_fixed8, decode_fixed8,
}
use neovm.Transaction.Parts.{Fits}

-- `w.WriteU64LE(uint64(v))` and `int64(r.ReadU64LE())`
abbrev pub write_i64 : ℤ → Write
write_i64 v = write_u64_le (to_u64 v)

abbrev pub read_i64 : Read ℤ
read_i64 = do v ← read_u64_le; pure (of_u64 v)

-- account.go
pub record UnspentBalance : Type 0 where
  pub tx : List ℕ
  pub index : ℕ
  pub value : ℤ

abbrev pub IsUnspentBalance : UnspentBalance → Type 0
IsUnspentBalance s = IsUint256 s.tx × (s.index < 2 ^ 16) × IsI64 s.value

unfoldable pub encode_unspent_balance : UnspentBalance → Write
encode_unspent_balance s = do encode_uint256 s.tx; write_u16_le s.index; encode_fixed8 s.value

unfoldable pub decode_unspent_balance : Read UnspentBalance
decode_unspent_balance = do
  tx ← decode_uint256
  index ← read_u16_le
  value ← decode_fixed8
  pure (record { tx = tx; index = index; value = value })

-- account.go
pub record UnclaimedBalance : Type 0 where
  pub tx : List ℕ
  pub index : ℕ
  pub start : ℕ
  pub end : ℕ
  pub value : ℤ

abbrev pub IsUnclaimedBalance : UnclaimedBalance → Type 0
IsUnclaimedBalance s =
    IsUint256 s.tx × (s.index < 2 ^ 16) × (s.start < 2 ^ 32) × (s.end < 2 ^ 32) × IsI64 s.value

unfoldable pub encode_unclaimed_balance : UnclaimedBalance → Write
encode_unclaimed_balance s = do
  encode_uint256 s.tx
  write_u16_le s.index
  write_u32_le s.start
  write_u32_le s.end
  encode_fixed8 s.value

unfoldable pub decode_unclaimed_balance : Read UnclaimedBalance
decode_unclaimed_balance = do
  tx ← decode_uint256
  index ← read_u16_le
  start ← read_u32_le
  end ← read_u32_le
  value ← decode_fixed8
  pure (record { tx = tx; index = index; start = start; end = end; value = value })

-- storage_item.go
pub record StorageItem : Type 0 where
  pub value : List ℕ
  pub is_const : Bool

abbrev pub IsStorageItem : StorageItem → Type 0
IsStorageItem s = Fits s.value

unfoldable pub encode_storage_item : StorageItem → Write
encode_storage_item s = do write_var_bytes s.value; write_bool s.is_const

unfoldable pub decode_storage_item : Read StorageItem
decode_storage_item = do
  value ← read_var_bytes
  is_const ← read_bool
  pure (record { value = value; is_const = is_const })

-- nep5.go
pub record Nep5Tracker : Type 0 where
  pub balance : ℤ
  pub last_updated_block : ℕ

abbrev pub IsNep5Tracker : Nep5Tracker → Type 0
IsNep5Tracker s = IsI64 s.balance × (s.last_updated_block < 2 ^ 32)

unfoldable pub encode_nep5_tracker : Nep5Tracker → Write
encode_nep5_tracker s = do write_i64 s.balance; write_u32_le s.last_updated_block

unfoldable pub decode_nep5_tracker : Read Nep5Tracker
decode_nep5_tracker = do
  balance ← read_i64
  last_updated_block ← read_u32_le
  pure (record { balance = balance; last_updated_block = last_updated_block })

-- nep5.go: `From` and `To` are the sender and the receiver
pub record Nep5Transfer : Type 0 where
  pub asset : List ℕ
  pub tx : List ℕ
  pub sender : List ℕ
  pub receiver : List ℕ
  pub block : ℕ
  pub timestamp : ℕ
  pub amount : ℤ
  pub index : ℕ

abbrev pub IsNep5Transfer : Nep5Transfer → Type 0
IsNep5Transfer s =
    IsUint160 s.asset
    × IsUint256 s.tx
    × IsUint160 s.sender
    × IsUint160 s.receiver
    × (s.block < 2 ^ 32)
    × (s.timestamp < 2 ^ 32)
    × IsI64 s.amount
    × (s.index < 2 ^ 32)

unfoldable pub encode_nep5_transfer : Nep5Transfer → Write
encode_nep5_transfer s = do
  encode_uint160 s.asset
  encode_uint256 s.tx
  encode_uint160 s.sender
  encode_uint160 s.receiver
  write_u32_le s.block
  write_u32_le s.timestamp
  write_i64 s.amount
  write_u32_le s.index

unfoldable pub decode_nep5_transfer : Read Nep5Transfer
decode_nep5_transfer = do
  asset ← decode_uint160
  tx ← decode_uint256
  sender ← decode_uint160
  receiver ← decode_uint160
  block ← read_u32_le
  timestamp ← read_u32_le
  amount ← read_i64
  index ← read_u32_le
  pure (record {
    asset = asset;
    tx = tx;
    sender = sender;
    receiver = receiver;
    block = block;
    timestamp = timestamp;
    amount = amount;
    index = index;
  })

-- transfer_log.go
pub record Transfer : Type 0 where
  pub tx : List ℕ
  pub block : ℕ
  pub timestamp : ℕ
  pub amount : ℤ
  pub is_governing : Bool
  pub is_sent : Bool

abbrev pub IsTransfer : Transfer → Type 0
IsTransfer s = IsUint256 s.tx × (s.block < 2 ^ 32) × (s.timestamp < 2 ^ 32) × IsI64 s.amount

unfoldable pub encode_transfer : Transfer → Write
encode_transfer s = do
  encode_uint256 s.tx
  write_u32_le s.block
  write_u32_le s.timestamp
  write_i64 s.amount
  write_bool s.is_governing
  write_bool s.is_sent

unfoldable pub decode_transfer : Read Transfer
decode_transfer = do
  tx ← decode_uint256
  block ← read_u32_le
  timestamp ← read_u32_le
  amount ← read_i64
  is_governing ← read_bool
  is_sent ← read_bool
  pure (record {
    tx = tx;
    block = block;
    timestamp = timestamp;
    amount = amount;
    is_governing = is_governing;
    is_sent = is_sent;
  })

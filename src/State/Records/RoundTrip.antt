-- ===== src/State/Records/RoundTrip.antt =====
-- The records of the state are read back as they were written.
use neovm.Prelude.{refl, pure}
use neovm.Prelude.Int.{ℤ, IsI64, to_u64, of_u64, to_u64-lt, of_u64-to_u64}
use neovm.Io.Codec.{Carries, Carries-then, Carries-last}
use neovm.Io.RoundTrip.{
  Carries-u64_le, Carries-u32_le, Carries-u16_le, Carries-bool, Carries-var_bytes,
}
use neovm.Util.Values.{Carries-uint160, Carries-uint256, Carries-fixed8}
use neovm.State.Records.{
  write_i64, read_i64, UnspentBalance, IsUnspentBalance, encode_unspent_balance,
  decode_unspent_balance, UnclaimedBalance, IsUnclaimedBalance, encode_unclaimed_balance,
  decode_unclaimed_balance, StorageItem, IsStorageItem, encode_storage_item, decode_storage_item,
  Nep5Tracker, IsNep5Tracker, encode_nep5_tracker, decode_nep5_tracker, Nep5Transfer,
  IsNep5Transfer, encode_nep5_transfer, decode_nep5_transfer, Transfer, IsTransfer, encode_transfer,
  decode_transfer,
}

Carries-i64 : (v : ℤ) → IsI64 v → Carries (write_i64 v) read_i64 v
Carries-i64 v h =
    Carries-last (λ n. pure (of_u64 n)) (Carries-u64_le (to_u64 v) (to_u64-lt v))
      λ r. rw (of_u64-to_u64 v h)

Carries-unspent_balance :
    (s : UnspentBalance)
    → IsUnspentBalance s
    → Carries (encode_unspent_balance s) decode_unspent_balance s
unfolding encode_unspent_balance decode_unspent_balance
Carries-unspent_balance s (h0, h1, h2) = Carries-then _ (Carries-uint256 s.tx h0) (
    Carries-then _ (Carries-u16_le s.index h1)
      (Carries-last _ (Carries-fixed8 s.value h2) λ r. refl))

-- An unclaimed balance, with its fields in the ranges of their types, is read back as it was
-- written.
Carries-unclaimed_balance :
    (s : UnclaimedBalance)
    → IsUnclaimedBalance s
    → Carries (encode_unclaimed_balance s) decode_unclaimed_balance s
unfolding encode_unclaimed_balance decode_unclaimed_balance
Carries-unclaimed_balance s (h0, h1, h2, h3, h4) = Carries-then _ (Carries-uint256 s.tx h0) (
    Carries-then _ (Carries-u16_le s.index h1) (
      Carries-then _ (Carries-u32_le s.start h2) (
        Carries-then _ (Carries-u32_le s.end h3)
          (Carries-last _ (Carries-fixed8 s.value h4) λ r. refl))))

Carries-storage_item :
    (s : StorageItem) → IsStorageItem s → Carries (encode_storage_item s) decode_storage_item s
unfolding encode_storage_item decode_storage_item
Carries-storage_item s h0 =
    Carries-then _ (Carries-var_bytes s.value h0)
      (Carries-last _ (Carries-bool s.is_const) λ r. refl)

Carries-nep5_tracker :
    (s : Nep5Tracker) → IsNep5Tracker s → Carries (encode_nep5_tracker s) decode_nep5_tracker s
unfolding encode_nep5_tracker decode_nep5_tracker
Carries-nep5_tracker s (h0, h1) =
    Carries-then _ (Carries-i64 s.balance h0)
      (Carries-last _ (Carries-u32_le s.last_updated_block h1) λ r. refl)

pub Carries-nep5_transfer :
    (s : Nep5Transfer) → IsNep5Transfer s → Carries (encode_nep5_transfer s) decode_nep5_transfer s
unfolding encode_nep5_transfer decode_nep5_transfer
Carries-nep5_transfer s (h0, h1, h2, h3, h4, h5, h6, h7) =
    Carries-then _ (Carries-uint160 s.asset h0) (
      Carries-then _ (Carries-uint256 s.tx h1) (
        Carries-then _ (Carries-uint160 s.sender h2) (
          Carries-then _ (Carries-uint160 s.receiver h3) (
            Carries-then _ (Carries-u32_le s.block h4) (
              Carries-then _ (Carries-u32_le s.timestamp h5) (
                Carries-then _ (Carries-i64 s.amount h6)
                  (Carries-last _ (Carries-u32_le s.index h7) λ r. refl)))))))

pub Carries-transfer : (s : Transfer) → IsTransfer s → Carries (encode_transfer s) decode_transfer s
unfolding encode_transfer decode_transfer
Carries-transfer s (h0, h1, h2, h3) = Carries-then _ (Carries-uint256 s.tx h0) (
    Carries-then _ (Carries-u32_le s.block h1) (
      Carries-then _ (Carries-u32_le s.timestamp h2) (
        Carries-then _ (Carries-i64 s.amount h3) (
          Carries-then _ (Carries-bool s.is_governing)
            (Carries-last _ (Carries-bool s.is_sent) λ r. refl)))))

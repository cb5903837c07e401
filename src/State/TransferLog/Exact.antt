-- ===== src/State/TransferLog/Exact.antt =====
-- The transfers of a log (pkg/core/state/nep5.go, transfer_log.go) on inputs of any length.
use neovm.Io.Exact.{
  Takes, Takes-then, Takes-pure, Takes-zeros, Takes-u64_le, Takes-u32_le, Takes-bool, IsExact,
  Takes-IsExact,
}
use neovm.Util.Values.{uint160_size, uint256_size, decode_uint160, decode_uint256}
use neovm.State.Records.{decode_nep5_transfer, decode_transfer, read_i64}
use neovm.State.TransferLog.Transfers.{nep5_transfer_size, transfer_size}

Takes-uint160 : Takes decode_uint160 uint160_size
unfolding decode_uint160
Takes-uint160 = Takes-zeros uint160_size

Takes-uint256 : Takes decode_uint256 uint256_size
unfolding decode_uint256
Takes-uint256 = Takes-zeros uint256_size

Takes-i64 : Takes read_i64 8
Takes-i64 = Takes-then _ Takes-u64_le (λ v. Takes-pure _)

Takes-nep5_transfer : Takes decode_nep5_transfer nep5_transfer_size
unfolding decode_nep5_transfer
Takes-nep5_transfer = Takes-then _ Takes-uint160 (λ asset. Takes-then _ Takes-uint256 (λ tx.
    Takes-then _ Takes-uint160 (λ sender. Takes-then _ Takes-uint160 (λ receiver.
      Takes-then _ Takes-u32_le (λ block. Takes-then _ Takes-u32_le (λ timestamp.
        Takes-then _ Takes-i64 (λ amount. Takes-then _ Takes-u32_le (λ index. Takes-pure _))))))))

Takes-transfer : Takes decode_transfer transfer_size
unfolding decode_transfer
Takes-transfer = Takes-then _ Takes-uint256 (λ tx. Takes-then _ Takes-u32_le (λ block.
    Takes-then _ Takes-u32_le (λ timestamp. Takes-then _ Takes-i64 (λ amount.
      Takes-then _ Takes-bool
        (λ is_governing. Takes-then _ Takes-bool (λ is_sent. Takes-pure _))))))

-- On every input, decoding a NEP-5 transfer or a transfer ends without a panic: with fewer bytes
-- than the size of such a transfer the error of the reader is set, and with at least as many it is
-- not and just the bytes of that size are read.
pub transfers-IsExact :
    IsExact decode_nep5_transfer nep5_transfer_size × IsExact decode_transfer transfer_size
transfers-IsExact = (
  Takes-IsExact decode_nep5_transfer nep5_transfer_size Takes-nep5_transfer,
  Takes-IsExact decode_transfer transfer_size Takes-transfer,
)

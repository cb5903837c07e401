-- ===== src/State/TransferLog/Transfers.antt =====
-- The sizes of the transfers that are logged: pkg/core/state/nep5.go (NEP5TransferSize) and
-- transfer_log.go (TransferSize).
use neovm.Prelude.{
  ℕ, ◌+◌, ◌*◌, ◌≡◌, sym, ap, ◌∙◌, Option, none, some, [], length, length-append, length-put_le,
  arith,
}
use neovm.Io.Reader.{Read}
use neovm.Io.Writer.{
  Write, BinWriter, writer, write_bytes, write_u64_le, write_u32_le, write_bool, write_b,
}
use neovm.Io.Codec.{Carries}
use neovm.Util.Values.{uint160_size, uint256_size, encode_uint160, encode_uint256}
use neovm.State.Records.{
  Nep5Transfer, IsNep5Transfer, encode_nep5_transfer, decode_nep5_transfer, Transfer, IsTransfer,
  encode_transfer, decode_transfer,
}
use neovm.State.Records.RoundTrip.{Carries-nep5_transfer, Carries-transfer}
use neovm.State.TransferLog.Order.{Sized}

abbrev pub nep5_transfer_size : ℕ
nep5_transfer_size = uint160_size * 3 + 8 + 4 + 4 + uint256_size + 4

abbrev pub transfer_size : ℕ
transfer_size = 2 + 8 + 4 + 4 + uint256_size

abbrev written : Option (Unit {0} × BinWriter) → ℕ
written none = 0
written (some (u, w)) = length w.buf

length-bytes :
    {A : Type 0} {enc : Write} {dec : Read A} {a : A} {n : ℕ} (c : Carries enc dec a)
    → written (enc (writer [])) ≡ n
    → length c.bytes ≡ n
length-bytes c h = ap written (sym (c.writes [])) ∙ h

nep5_written :
    (t : Nep5Transfer)
    → IsNep5Transfer t
    → written (encode_nep5_transfer t (writer [])) ≡ nep5_transfer_size
unfolding encode_nep5_transfer encode_uint160 encode_uint256 write_bytes write_u64_le write_u32_le
nep5_written t (a, x, f, r, b, s, m, i) = simp (length-append, length-put_le, a, x, f, r)

transfer_written :
    (t : Transfer) → IsTransfer t → written (encode_transfer t (writer [])) ≡ transfer_size
unfolding encode_transfer encode_uint256 write_bytes write_u64_le write_u32_le write_bool write_b
transfer_written t (x, b, s, m) = simp (length-append, length-put_le, x)

-- Every NEP-5 transfer takes `NEP5TransferSize` bytes.
IsNep5Transfer-Sized :
    Sized encode_nep5_transfer decode_nep5_transfer IsNep5Transfer nep5_transfer_size
IsNep5Transfer-Sized = record {
  carries = Carries-nep5_transfer;
  sized = λ t h. length-bytes (Carries-nep5_transfer t h) (nep5_written t h);
  positive = omega arith;
}

-- Every transfer of the native assets takes `TransferSize` bytes.
pub IsTransfer-Sized : Sized encode_transfer decode_transfer IsTransfer transfer_size
IsTransfer-Sized = record {
  carries = Carries-transfer;
  sized = λ t h. length-bytes (Carries-transfer t h) (transfer_written t h);
  positive = omega arith;
}

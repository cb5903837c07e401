-- ===== src/State/Coins/RoundTrip.antt =====
-- An unspent coin is read back, and a rest of its bytes is left.
use neovm.Prelude.{
  ℕ, ◌^◌, ◌≤◌, ◌<◌, ◌≡◌, refl, ◌∙◌, some, List, [], ◌++◌, length, All, ◌>>◌, >>-assoc, arith,
}
use neovm.Io.Reader.{reader, max_array_size}
use neovm.Io.Writer.{writer, write_u32_le, write_var_uint, write_array}
use neovm.Io.Codec.{Carries, Carries-then, Carries-last}
use neovm.Io.RoundTrip.{Carries-u32_le, Carries-b, Carries-var_uint, Carries-array}
use neovm.Transaction.Parts.{IsOutput}
use neovm.Transaction.Parts.RoundTrip.{Carries-output}
use neovm.State.Coins.{
  OutputState, encode_output_state, decode_output_state, UnspentCoin, encode_unspent_coin,
  decode_unspent_coin,
}

-- The positions of the outputs are 0, as they have no binary form.
abbrev pub IsOutputState : OutputState → Type 0
IsOutputState o =
    IsOutput o.output × (o.output.position ≡ 0) × (o.spend_height < 2 ^ 32) × (o.coin < 2 ^ 8)

abbrev pub IsUnspentCoin : UnspentCoin → Type 0
IsUnspentCoin s =
    (s.height < 2 ^ 32) × All IsOutputState s.states × (length s.states ≤ max_array_size)

Carries-output_state :
    (o : OutputState) → IsOutputState o → Carries (encode_output_state o) decode_output_state o
unfolding encode_output_state decode_output_state
Carries-output_state o (h, p, s, c) = Carries-then _ (Carries-output o.output h) (
    Carries-then _ (Carries-u32_le o.spend_height s)
      (Carries-last _ (Carries-b o.coin c) λ r. rw p))

Carries-states :
    (s : UnspentCoin)
    → IsUnspentCoin s
    → Carries
        (write_u32_le s.height >> write_array encode_output_state s.states)
        decode_unspent_coin
        s
unfolding decode_unspent_coin
Carries-states s (h, os, n) = Carries-then _ (Carries-u32_le s.height h) (
    Carries-last _
      (Carries-array encode_output_state decode_output_state Carries-output_state [] s.states os n)
      λ r. refl)

-- An unspent coin, with its fields in the ranges of their types, the positions of its outputs zero
-- and at most MaxArraySize states, is read back from what EncodeBinary writes, but the number of
-- states that EncodeBinary writes behind the array is left unread.
encode_unspent_coin-left :
    (s : UnspentCoin)
    → IsUnspentCoin s
    → (bytes count : List ℕ) × (encode_unspent_coin s (writer [])
        ≡ some (tt, writer (bytes ++ count)))
      × (write_var_uint (length s.states) (writer []) ≡ some (tt, writer count))
      × (decode_unspent_coin (reader (bytes ++ count)) ≡ some (s, reader count))
unfolding encode_unspent_coin
encode_unspent_coin-left s (h, os, n) =
    let body = Carries-states s (h, os, n) in
    let count = Carries-var_uint (length s.states) (omega arith) in
    (
      body.bytes,
      count.bytes,
      >>-assoc (write_u32_le s.height) (write_array encode_output_state s.states)
            (write_var_uint (length s.states)) (writer [])
          ∙ rw (body.writes []) (count.writes body.bytes),
      count.writes [],
      body.reads count.bytes,
    )

-- ===== src/State/Coins.antt =====
-- pkg/core/state/unspent_coin.go: the outputs of a transaction with their states.
pub mod RoundTrip
use neovm.Prelude.{ℕ, ◌^◌, ◌≤◌, ◌<◌, List, [], ◌∷◌, length, map, All, pure, ◌>>=◌, ◌>>◌}
use neovm.Io.Reader.{Read, max_array_size, read_u32_le, read_b, read_array}
use neovm.Io.Writer.{Write, write_u32_le, write_b, write_var_uint, write_array}
use neovm.Transaction.Parts.{Output, IsOutput, decode_output, encode_output}
use neovm.Transaction.Body.{Transaction}

-- The constants of coin.go are bits of `coin`.
pub record OutputState : Type 0 where
  pub output : Output
  pub spend_height : ℕ
  pub coin : ℕ

unfoldable pub encode_output_state : OutputState → Write
encode_output_state o = do encode_output o.output; write_u32_le o.spend_height; write_b o.coin

unfoldable pub decode_output_state : Read OutputState
decode_output_state = do
  output ← decode_output
  spend_height ← read_u32_le
  coin ← read_b
  pure (record { output = output; spend_height = spend_height; coin = coin })

pub record UnspentCoin : Type 0 where
  pub height : ℕ
  pub states : List OutputState

-- `NewUnspentCoin`: every output is confirmed, which is 0.
unfoldable pub new_unspent_coin : ℕ → Transaction → UnspentCoin
new_unspent_coin height tx = record {
  height = height;
  states = map (λ o. record { output = o; spend_height = 0; coin = 0 }) tx.outputs;
}

-- The number of states is written once more behind them.
unfoldable pub encode_unspent_coin : UnspentCoin → Write
encode_unspent_coin s = do
  write_u32_le s.height
  write_array encode_output_state s.states
  write_var_uint (length s.states)

unfoldable pub decode_unspent_coin : Read UnspentCoin
decode_unspent_coin = do
  height ← read_u32_le
  states ← read_array decode_output_state []
  pure (record { height = height; states = states })

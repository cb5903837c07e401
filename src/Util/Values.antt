-- ===== src/Util/Values.antt =====
-- pkg/util/fixed8.go, uint160.go and uint256.go: amounts and hashes. A `Uint160` and a `Uint256` are
-- the lists of their bytes; the array that `ReadBytes` fills is that of a fresh value, all zero.
use neovm.Prelude.{ℕ, ◌≡◌, sym, Bool, List, length, replicate, pure, ◌>>=◌}
use neovm.Prelude.Int.{ℤ, ltb_ℤ, to_u64, of_u64, IsI64, to_u64-lt, of_u64-to_u64}
use neovm.Io.Reader.{Read, read_bytes, read_u64_le}
use neovm.Io.Writer.{Write, write_bytes, write_u64_le}
use neovm.Io.Codec.{Carries, Carries-last}
use neovm.Io.RoundTrip.{Carries-bytes, Carries-u64_le}

abbrev pub uint160_size : ℕ
uint160_size = 20

abbrev pub uint256_size : ℕ
uint256_size = 32

abbrev pub IsUint160 : List ℕ → Type 0
IsUint160 u = length u ≡ uint160_size

abbrev pub IsUint256 : List ℕ → Type 0
IsUint256 u = length u ≡ uint256_size

unfoldable pub encode_uint160 : List ℕ → Write
encode_uint160 u = write_bytes u

unfoldable pub decode_uint160 : Read (List ℕ)
decode_uint160 = read_bytes (replicate uint160_size 0)

unfoldable pub encode_uint256 : List ℕ → Write
encode_uint256 u = write_bytes u

unfoldable pub decode_uint256 : Read (List ℕ)
decode_uint256 = read_bytes (replicate uint256_size 0)

-- A `Fixed8` is an int64.
unfoldable pub encode_fixed8 : ℤ → Write
encode_fixed8 f = write_u64_le (to_u64 f)

unfoldable pub decode_fixed8 : Read ℤ
decode_fixed8 = do v ← read_u64_le; pure (of_u64 v)

unfoldable pub less_than : ℤ → ℤ → Bool
less_than f g = ltb_ℤ f g

pub Carries-uint160 : (u : List ℕ) → IsUint160 u → Carries (encode_uint160 u) decode_uint160 u
unfolding encode_uint160 decode_uint160
Carries-uint160 u h = Carries-bytes _ u (sym h)

pub Carries-uint256 : (u : List ℕ) → IsUint256 u → Carries (encode_uint256 u) decode_uint256 u
unfolding encode_uint256 decode_uint256
Carries-uint256 u h = Carries-bytes _ u (sym h)

-- An int64 amount is read back as it was written.
pub Carries-fixed8 : (f : ℤ) → IsI64 f → Carries (encode_fixed8 f) decode_fixed8 f
unfolding encode_fixed8 decode_fixed8
Carries-fixed8 f h =
    Carries-last _ (Carries-u64_le (to_u64 f) (to_u64-lt f)) λ r. rw (of_u64-to_u64 f h)

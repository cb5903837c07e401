-- ===== src/Keys/PublicKey.antt =====
-- pkg/crypto/keys/publickey.go: the binary form of a public key. The elliptic curve P256 and the
-- modular square root are Go's (crypto/elliptic, math/big) and stand in a `Curve`.
pub mod RoundTrip
pub mod Script
use neovm.Prelude.{
  ℕ, ◌+◌, ◌-◌, ◌*◌, ◌%◌, ◌^◌, ◌≤◌, ◌<◌, ◌≡◌, ◌⊎◌, Bool, not, ◌||◌, ◌&&◌, Option, none, some, List,
  [], ◌∷◌, ◌++◌, length, get_or, reverse, replicate, leb, ltb, ◌==◌, if◌then◌else◌, put_le, from_le,
  pure, ◌>>=◌, ◌>>◌,
}
use neovm.Vm.Opcode
use neovm.Io.Error.{Error, new, errorf}
use neovm.Io.Reader.{Read, BinReader, reader, fail, failed, read_bytes, read_b}
use neovm.Io.Writer.{Write, write_bytes}

-- The curve's parameters P and B, `big.Int.ModSqrt` (nothing when there is no root) and `IsOnCurve`.
pub record Curve : Type 0 where
  pub p : ℕ
  pub b : ℕ
  pub mod_sqrt : ℕ → ℕ → Option ℕ
  pub is_on_curve : ℕ → ℕ → Bool

-- Both coordinates are nil in the key of infinity.
pub data PublicKey : Type 0 where
  infinity : PublicKey
  point : ℕ → ℕ → PublicKey

abbrev pub coord_len : ℕ
coord_len = 32

-- `copy(res[1+coordLen-len(xBytes):], xBytes)`: the big-endian bytes of a coordinate, padded; more
-- than 32 of them are out of range.
abbrev pub coordinate : ℕ → Option (List ℕ)
coordinate x = if ltb x (256 ^ coord_len) then some (reverse (put_le coord_len x)) else none

-- `getBytes(true)`
unfoldable pub bytes : PublicKey → Option (List ℕ)
bytes infinity = some (0x00 ∷ [])
bytes (point x y) = elim (coordinate x) [
  | none ↦ none
  | some xs ↦ some ((if y % 2 == 0 then 0x02 else 0x03) ∷ xs)
]

-- `x³ - 3x + B` modulo P; `Mod` is Euclidean, so the difference is taken above zero.
abbrev pub y_squared : Curve → ℕ → ℕ
y_squared curve x = (x ^ 3 % curve.p + (curve.p - x * 3 % curve.p) + curve.b) % curve.p

-- The root with the parity wanted: `y.Neg(y); y.Mod(y, cp.P)`.
abbrev pub with_parity : Curve → ℕ → ℕ → ℕ
with_parity curve ylsb y = if y % 2 == ylsb then y else (curve.p - y % curve.p) % curve.p

unfoldable pub decode_compressed_y : Curve → ℕ → ℕ → Option ℕ
decode_compressed_y curve x ylsb = elim (curve.mod_sqrt (y_squared curve x) curve.p) [
  | none ↦ none
  | some y ↦ some (with_parity curve ylsb y)
]

-- The last test of `DecodeBinary`; a refused key keeps its fields, which are nil.
abbrev pub in_field : Curve → ℕ → ℕ → Read PublicKey
in_field curve x y =
    if leb curve.p x || leb curve.p y
    then (fail (new "enccoded point is not correct (X or Y is bigger than P") >> pure infinity)
    else pure (point x y)

abbrev pub set_bytes : List ℕ → ℕ
set_bytes b = from_le (reverse b)

unfoldable pub decode_compressed : Curve → ℕ → Read PublicKey
decode_compressed curve prefix = do
  xbytes ← read_bytes (replicate 32 0)
  stop ← failed
  if stop then pure infinity else elim (decode_compressed_y curve (set_bytes xbytes) (prefix % 2)) [
    | none ↦ fail (new "error computing Y for compressed point") >> pure infinity
    | some y ↦ in_field curve (set_bytes xbytes) y
  ]

unfoldable pub decode_uncompressed : Curve → Read PublicKey
decode_uncompressed curve = do
  xbytes ← read_bytes (replicate 32 0)
  ybytes ← read_bytes (replicate 32 0)
  stop ← failed
  if stop
      then pure infinity
      else if not (curve.is_on_curve (set_bytes xbytes) (set_bytes ybytes))
      then (fail (new "encoded point is not on the P256 curve") >> pure infinity)
      else in_field curve (set_bytes xbytes) (set_bytes ybytes)

-- The switch on the prefix.
abbrev pub decode_point : Curve → ℕ → Read PublicKey
decode_point curve prefix =
    if prefix == 0x00
    then pure infinity
    else if prefix == 0x02 || prefix == 0x03
    then decode_compressed curve prefix
    else if prefix == 0x04
    then decode_uncompressed curve
    else (fail (errorf "invalid prefix" prefix) >> pure infinity)

-- `if r.Err != nil { return }` behind the prefix.
abbrev pub decode_prefixed : Curve → ℕ → Read PublicKey
decode_prefixed curve prefix = do
  stop ← failed
  if stop then pure infinity else decode_point curve prefix

unfoldable pub decode_public_key : Curve → Read PublicKey
decode_public_key curve = read_b >>= decode_prefixed curve

unfoldable pub encode_public_key : PublicKey → Write
encode_public_key key w = elim (bytes key) [ none ↦ none | some b ↦ write_bytes b w ]

-- `GetVerificationScript`
unfoldable pub get_verification_script : PublicKey → Option (List ℕ)
get_verification_script key = elim (bytes key) [
  | none ↦ none
  | some b ↦ some (Opcode.pushbytes33 ∷ (b ++ (Opcode.checksig ∷ [])))
]

-- `DecodeBytes`: the size and the prefix have to agree. What follows an error is the caller's.
unfoldable pub decode_bytes : Curve → List ℕ → Option (PublicKey × BinReader)
decode_bytes curve dat =
    if (length dat == 1 && get_or dat 0 0 == 0)
      || (length dat == 33 && (get_or dat 0 0 == 0x02 || get_or dat 0 0 == 0x03))
      || (length dat == 65 && get_or dat 0 0 == 0x04)
    then decode_public_key curve (reader dat)
    else some (infinity, record { input = dat; err = some (new "invalid key size/prefix") })

-- What is used of the curve: its field is odd and fits the coordinates, and the root that `ModSqrt`
-- finds for a square is one of the two.
pub record IsField (curve : Curve) : Type 0 where
  pub odd : curve.p % 2 ≡ 1
  pub fits : curve.p ≤ 256 ^ coord_len
  pub root :
      (y z : ℕ)
      → y < curve.p
      → y * y % curve.p ≡ z
      → (r : ℕ) × (curve.mod_sqrt z curve.p ≡ some r) × ((r ≡ y) ⊎ (r + y ≡ curve.p))

-- A point of the curve, with its coordinates in the field.
abbrev pub IsPoint : Curve → ℕ → ℕ → Type 0
IsPoint curve x y = (x < curve.p) × (y < curve.p) × (y * y % curve.p ≡ y_squared curve x)

abbrev pub IsKey : Curve → PublicKey → Type 0
IsKey curve infinity = Unit {0}
IsKey curve (point x y) = IsPoint curve x y

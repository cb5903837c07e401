-- ===== src/Prelude/Word.antt =====
-- Little-endian words, as Go's encoding/binary lays them out: `put_le k v` is what
-- `LittleEndian.PutUint{16,32,64}` stores for k = 2, 4, 8, and `from_le` reads it back.
use Prim.Native.Nat.{ℕ, zero, suc, ◌+◌, ◌*◌, ◌/◌, ◌%◌, ◌^◌, ◌<◌}
use mathlib.Core.Path.{◌≡◌, refl, ap}
use mathlib.Core.List.{List, [], ◌∷◌}
use native.Mathlib.Omega.{arith}
use native.Mathlib.Nat.{pow-suc}
use neovm.Prelude.Lists.{length, All}

abbrev pub IsByte : ℕ → Type 0
IsByte b = b < 256

unfoldable pub put_le : ℕ → ℕ → List ℕ
put_le zero v = []
put_le (suc k) v = (v % 256) ∷ put_le k (v / 256)

unfoldable pub from_le : List ℕ → ℕ
from_le [] = 0
from_le (b ∷ bs) = b + 256 * from_le bs

pub length-put_le : (k v : ℕ) → length (put_le k v) ≡ k
unfolding put_le
length-put_le zero v = refl
length-put_le (suc k) v = ap suc (length-put_le k (v / 256))

pub put_le-IsByte : (k v : ℕ) → All IsByte (put_le k v)
unfolding put_le
put_le-IsByte zero v = tt
put_le-IsByte (suc k) v = (omega arith, put_le-IsByte k (v / 256))

-- Reading back keeps the low k bytes.
pub from_le-put_le : (k v : ℕ) → v < 256 ^ k → from_le (put_le k v) ≡ v
unfolding put_le from_le
from_le-put_le zero v h = omega arith
from_le-put_le (suc k) v h =
    omega (arith, pow-suc 256 k, from_le-put_le k (v / 256) (omega (arith, pow-suc 256 k)))

put_le-from_le : (bs : List ℕ) → All IsByte bs → put_le (length bs) (from_le bs) ≡ bs
unfolding put_le from_le
put_le-from_le [] h = refl
put_le-from_le (b ∷ bs) (hb, hs) =
    let low : (b + 256 * from_le bs) % 256 ≡ b = omega arith in
    let high : (b + 256 * from_le bs) / 256 ≡ from_le bs = omega arith in
    rw (low, high, put_le-from_le bs hs)

pub from_le-lt : (bs : List ℕ) → All IsByte bs → from_le bs < 256 ^ length bs
unfolding from_le
from_le-lt [] h = omega arith
from_le-lt (b ∷ bs) (hb, hs) = omega (arith, pow-suc 256 (length bs), from_le-lt bs hs)

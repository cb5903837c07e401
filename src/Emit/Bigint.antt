-- ===== src/Emit/Bigint.antt =====
-- pkg/vm/emit/bigint.go: integers in two's complement, little-endian, of any length, converted by
-- words of eight bytes.
pub mod Sums
pub mod Decode
pub mod RoundTrip
pub mod Length
use neovm.Prelude.{
  ℕ, zero, suc, ◌+◌, ◌-◌, ◌*◌, ◌/◌, ◌%◌, ◌^◌, ◌≤◌, ◌<◌, Bool, true, false, List, [], ◌∷◌, ◌++◌, map,
  length, get_or, take, drop, ltb, leb, ◌==◌, if◌then◌else◌, put_le, replicate,
}
use neovm.Prelude.Int.{ℤ, pos, negsuc, neg_ℤ, ◌-ℤ◌, ◌+ℤ◌, abs_ℕ}

abbrev pub word_size_bytes : ℕ
word_size_bytes = 8

-- A `big.Word` is 64 bits wide.
abbrev pub word_mod : ℕ
word_mod = 2 ^ 64

-- The loop of `getEffectiveSize`: while the last of `size` bytes is `b`, drop it.
unfoldable pub effective_loop : List ℕ → ℕ → ℕ → ℕ
effective_loop buf b zero = zero
effective_loop buf b (suc size) =
    let rest = effective_loop buf b size in if get_or buf size 0 == b then rest else suc size

unfoldable pub get_effective_size : List ℕ → Bool → ℕ
get_effective_size buf is_neg = effective_loop buf (if is_neg then 0xff else 0) (length buf)

-- `for j := base + n - 1; j >= base; j-- { w <<= 8; w ^= data[j] }`. The low byte of the shifted
-- word is zero, so the exclusive or adds.
unfoldable pub load_word : List ℕ → ℕ → ℕ → ℕ → ℕ
load_word dat base zero w = w
load_word dat base (suc n) w = load_word dat base n (w * 2 ^ 8 % word_mod + get_or dat (base + n) 0)

-- Words 0 to lw - 1, and the partial word behind them, of the first `size` bytes.
unfoldable pub load_words : List ℕ → ℕ → ℕ → List ℕ
load_words dat i zero = []
load_words dat i (suc n) =
    load_word dat (i * word_size_bytes) word_size_bytes 0 ∷ load_words dat (suc i) n

unfoldable pub to_words : List ℕ → ℕ → List ℕ
to_words dat size =
    let lw = size / word_size_bytes in
    load_words dat 0 lw ++ load_word dat (lw * word_size_bytes) (size - lw * word_size_bytes) 0 ∷ []

-- The words of a negative number: each is inverted, and of the last only the bits in use are kept.
unfoldable pub invert_words : ℕ → List ℕ → List ℕ
invert_words shift [] = []
invert_words shift (w ∷ []) = (word_mod - 1 - w) % 2 ^ (64 - shift) ∷ []
invert_words shift (w ∷ v ∷ ws) = (word_mod - 1 - w) ∷ invert_words shift (v ∷ ws)

-- `SetBits`: the number whose words these are.
unfoldable pub set_bits : List ℕ → ℕ
set_bits [] = 0
set_bits (w ∷ ws) = w + word_mod * set_bits ws

unfoldable pub from_bytes : List ℕ → ℕ → Bool → ℤ
from_bytes dat size is_neg =
    if size == 0
    then (if is_neg then negsuc 0 else pos 0)
    else (let ws = to_words dat size in
        let shift = (word_size_bytes - size % word_size_bytes) * 8 in
        if is_neg
        then neg_ℤ (pos (set_bits (invert_words shift ws))) -ℤ pos 1
        else pos (set_bits ws))

-- `BytesToInt`; `data[size-1] & 0x80 != 0` is that the last byte is 0x80 or more.
unfoldable pub bytes_to_int : List ℕ → ℤ
bytes_to_int [] = pos 0
bytes_to_int (b ∷ bs) =
    let dat = b ∷ bs in
    let is_neg = leb 0x80 (get_or dat (length bs) 0) in
    from_bytes dat (get_effective_size dat is_neg) is_neg

-- `Bits`: the words of a number, lowest first, with no zero word at the end.
unfoldable pub bits : ℕ → ℕ → List ℕ
bits zero n = []
bits (suc fuel) n =
    let rest = bits fuel (n / word_mod) in if n == 0 then [] else (n % word_mod ∷ rest)

unfoldable pub words_to_bytes : List ℕ → List ℕ
words_to_bytes [] = []
words_to_bytes (w ∷ ws) = put_le word_size_bytes w ++ words_to_bytes ws

-- `for ; data[size-1] == 0; size--`
unfoldable pub trim_zeros : List ℕ → List ℕ
trim_zeros dat = take (effective_loop dat 0 (length dat)) dat

-- A zero byte is added where the top bit would read as a sign.
unfoldable pub with_sign_byte : List ℕ → List ℕ
with_sign_byte dat = if leb 0x80 (get_or dat (length dat - 1) 0) then dat ++ 0 ∷ [] else dat

-- The bytes of a number that is not zero. A number has fewer words than its value.
unfoldable pub magnitude_bytes : ℕ → List ℕ
magnitude_bytes n = with_sign_byte (trim_zeros (words_to_bytes (bits n n)))

-- `IntToBytes`; n + 1 of a negative n = -(m + 1) is -m.
unfoldable pub int_to_bytes : ℤ → List ℕ
int_to_bytes (pos zero) = 0 ∷ []
int_to_bytes (pos (suc n)) = magnitude_bytes (suc n)
int_to_bytes (negsuc zero) = 0xff ∷ []
int_to_bytes (negsuc (suc m)) = map (λ b. 0xff - b) (magnitude_bytes (suc m))

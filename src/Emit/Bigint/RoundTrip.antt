-- ===== src/Emit/Bigint/RoundTrip.antt =====
-- `IntToBytes` writes bytes that `BytesToInt` reads as the same integer.
use neovm.Prelude.{
  ℕ, zero, suc, ◌+◌, ◌-◌, ◌*◌, ◌/◌, ◌%◌, ◌^◌, ◌≤◌, ◌<◌, ◌≡◌, refl, sym, ap, ◌∙◌, true, List, [],
  ◌∷◌, ◌++◌, map, length, get_or, take, leb, le→leb, ◌==◌, put_le, All, IsByte, from_le, arith,
  Bool-cases, inl, inr, ==_iff, length-append, length-put_le, from_le-put_le, put_le-IsByte,
  All-append, All-take, get_or-append_length,
}
use native.Mathlib.Nat.{pow-suc, mul_assoc}
use neovm.Prelude.Int.{ℤ, pos, negsuc}
use neovm.Emit.Bigint.{
  effective_loop, bits, words_to_bytes, trim_zeros, with_sign_byte, magnitude_bytes, int_to_bytes,
  bytes_to_int, word_mod,
}
use neovm.Emit.Bigint.Sums.{le_sum-from_le, le_sum-take}
use neovm.Emit.Bigint.Decode.{signed_value, bytes_to_int-signed_value, effective_zeros}

from_le-append : (xs ys : List ℕ) → from_le (xs ++ ys) ≡ from_le xs + 256 ^ length xs * from_le ys
unfolding from_le
from_le-append [] ys = omega arith
from_le-append (x ∷ xs) ys = omega (
  arith,
  from_le-append xs ys,
  ap (λ (t : ℕ). t * from_le ys) (pow-suc 256 (length xs)),
  mul_assoc 256 (256 ^ length xs) (from_le ys),
)

words_to_bytes-bits : (fuel n : ℕ) → n ≤ fuel → from_le (words_to_bytes (bits fuel n)) ≡ n
unfolding words_to_bytes bits
words_to_bytes-bits zero n h = unfold from_le in omega arith
words_to_bytes-bits (suc fuel) n h = elim (Bool-cases (n == 0)) [
  | inl e ↦ rw e (unfold from_le in omega (arith, (==_iff n 0).0 e))
  | inr e ↦
      rw
        (
          e,
          from_le-append (put_le 8 (n % word_mod)) (words_to_bytes (bits fuel (n / word_mod))),
          length-put_le,
        )
        (omega (
          arith,
          from_le-put_le 8 (n % word_mod) (omega arith),
          words_to_bytes-bits fuel (n / word_mod) (ground arith),
        ))
]

words_to_bytes-IsByte : (ws : List ℕ) → All IsByte (words_to_bytes ws)
unfolding words_to_bytes
words_to_bytes-IsByte [] = tt
words_to_bytes-IsByte (w ∷ ws) =
    All-append IsByte (put_le 8 w) (words_to_bytes ws) (put_le-IsByte 8 w)
      (words_to_bytes-IsByte ws)

from_le-trim_zeros : (dat : List ℕ) → from_le (trim_zeros dat) ≡ from_le dat
unfolding trim_zeros
from_le-trim_zeros dat =
    let (same, le) = effective_zeros dat (length dat) in
    sym (le_sum-take (effective_loop dat 0 (length dat)) dat le) ∙ sym same ∙ le_sum-from_le dat

module _ (n : ℕ) where
  from_le-magnitude_bytes : from_le (magnitude_bytes n) ≡ n
  unfolding magnitude_bytes with_sign_byte
  from_le-magnitude_bytes =
      let dat = trim_zeros (words_to_bytes (bits n n)) in
      let value : from_le dat ≡ n =
        from_le-trim_zeros (words_to_bytes (bits n n)) ∙ words_to_bytes-bits n n (omega arith) in
      elim (Bool-cases (leb 0x80 (get_or dat (length dat - 1) 0))) [
        | inl e ↦ rw (e, from_le-append dat (0 ∷ [])) (unfold from_le in omega (arith, value))
        | inr e ↦ rw e value
      ]

  magnitude_bytes-IsByte : All IsByte (magnitude_bytes n)
  unfolding magnitude_bytes with_sign_byte trim_zeros
  magnitude_bytes-IsByte =
      let all = words_to_bytes (bits n n) in
      let dat = take (effective_loop all 0 (length all)) all in
      let bytes : All IsByte dat = All-take IsByte _ all (words_to_bytes-IsByte (bits n n)) in
      elim (Bool-cases (leb 0x80 (get_or dat (length dat - 1) 0))) [
        | inl e ↦ rw e (All-append IsByte dat (0 ∷ []) bytes (omega arith))
        | inr e ↦ rw e bytes
      ]

  -- The top bit is free for the sign.
  magnitude_bytes-top : get_or (magnitude_bytes n) (length (magnitude_bytes n) - 1) 0 < 0x80
  unfolding magnitude_bytes with_sign_byte
  magnitude_bytes-top =
      let dat = trim_zeros (words_to_bytes (bits n n)) in
      elim (Bool-cases (leb 0x80 (get_or dat (length dat - 1) 0))) [
        | inl e ↦
            let end : length (dat ++ 0 ∷ []) - 1 ≡ length dat =
              omega (arith, length-append dat (0 ∷ [])) in
            rw (e, end, get_or-append_length dat 0 0 []) (omega arith)
        | inr e ↦ rw e (ground arith)
      ]

abbrev invert_bytes : List ℕ → List ℕ
invert_bytes = map (λ b. 0xff - b)

length-invert_bytes : (d : List ℕ) → length (invert_bytes d) ≡ length d
length-invert_bytes [] = refl
length-invert_bytes (b ∷ d) = ap suc (length-invert_bytes d)

invert_bytes-IsByte : (d : List ℕ) → All IsByte (invert_bytes d)
invert_bytes-IsByte [] = tt
invert_bytes-IsByte (b ∷ d) = (omega arith, invert_bytes-IsByte d)

from_le-invert_bytes :
    (d : List ℕ) → All IsByte d → from_le (invert_bytes d) + from_le d + 1 ≡ 256 ^ length d
unfolding from_le
from_le-invert_bytes [] h = refl
from_le-invert_bytes (b ∷ d) (h, hs) =
    omega (arith, from_le-invert_bytes d hs, pow-suc 256 (length d))

get_or-invert_bytes :
    (d : List ℕ) (i : ℕ) → i < length d → get_or (invert_bytes d) i 0 ≡ 0xff - get_or d i 0
get_or-invert_bytes [] i h = absurd (omega arith)
get_or-invert_bytes (b ∷ d) zero h = refl
get_or-invert_bytes (b ∷ d) (suc i) h = get_or-invert_bytes d i (omega arith)

signed_value-positive :
    (d : List ℕ) → get_or d (length d - 1) 0 < 0x80 → signed_value d ≡ pos (from_le d)
unfolding signed_value
signed_value-positive d h = ground arith

signed_value-inverted :
    (d : List ℕ)
    → All IsByte d
    → 0 < length d
    → get_or d (length d - 1) 0 < 0x80
    → signed_value (invert_bytes d) ≡ negsuc (from_le d)
unfolding signed_value
signed_value-inverted d h len top =
    let bit : leb 0x80 (get_or (invert_bytes d) (length d - 1) 0) ≡ true =
      rw (get_or-invert_bytes d (length d - 1) (omega arith)) (le→leb 0x80 _ (omega arith)) in
    rw (length-invert_bytes d, bit) (ap negsuc (omega (arith, from_le-invert_bytes d h)))

nonempty : (d : List ℕ) (n : ℕ) → from_le d ≡ suc n → 0 < length d
unfolding from_le
nonempty [] n h = absurd (omega arith)
nonempty (b ∷ d) n h = omega arith

-- Every integer is what BytesToInt makes of the bytes that IntToBytes gives for it.
pub bytes_to_int-int_to_bytes : (z : ℤ) → bytes_to_int (int_to_bytes z) ≡ z
unfolding int_to_bytes
bytes_to_int-int_to_bytes (pos zero) =
    bytes_to_int-signed_value (0 ∷ []) (omega arith) ∙ unfold signed_value from_le in refl
bytes_to_int-int_to_bytes (pos (suc n)) =
    bytes_to_int-signed_value (magnitude_bytes (suc n)) (magnitude_bytes-IsByte (suc n))
    ∙ signed_value-positive _ (magnitude_bytes-top (suc n))
    ∙ ap pos (from_le-magnitude_bytes (suc n))
bytes_to_int-int_to_bytes (negsuc zero) =
    bytes_to_int-signed_value (0xff ∷ []) (omega arith) ∙ unfold signed_value from_le in refl
bytes_to_int-int_to_bytes (negsuc (suc m)) =
    let d = magnitude_bytes (suc m) in
    bytes_to_int-signed_value (invert_bytes d) (invert_bytes-IsByte d)
    ∙ signed_value-inverted d (magnitude_bytes-IsByte (suc m))
        (nonempty d m (from_le-magnitude_bytes (suc m))) (magnitude_bytes-top (suc m))
    ∙ ap negsuc (from_le-magnitude_bytes (suc m))

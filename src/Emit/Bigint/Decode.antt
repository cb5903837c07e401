-- ===== src/Emit/Bigint/Decode.antt =====
-- `BytesToInt` returns the two's-complement value of its bytes, whatever their number.
use neovm.Prelude.{
  ℕ, zero, suc, ◌+◌, ◌-◌, ◌^◌, ◌≤◌, ◌≡◌, refl, sym, ap, ◌∙◌, true, false, List, [], ◌∷◌, length,
  get_or, leb, ◌==◌, if◌then◌else◌, All, IsByte, from_le, arith, Bool-cases, inl, inr, ==_iff,
  from_le-lt,
}
use native.Mathlib.Nat.{pow-suc, zero-add}
use neovm.Prelude.Int.{ℤ, pos, negsuc, neg_ℤ, ◌-ℤ◌}
use neovm.Emit.Bigint.{effective_loop, get_effective_size, from_bytes, bytes_to_int}
use neovm.Emit.Bigint.Sums.{le_sum, le_sum-from_le, set_bits-inverted, set_bits-to_words, le_sum-lt}

-- Two's complement: the top bit of the last byte counts as negative.
unfoldable pub signed_value : List ℕ → ℤ
signed_value dat =
    if leb 0x80 (get_or dat (length dat - 1) 0)
    then negsuc (256 ^ length dat - 1 - from_le dat)
    else pos (from_le dat)

-- Zero bytes at the end do not count.
pub effective_zeros :
    (dat : List ℕ) (n : ℕ)
    → (le_sum dat 0 n ≡ le_sum dat 0 (effective_loop dat 0 n)) × (effective_loop dat 0 n ≤ n)
unfolding effective_loop le_sum
effective_zeros dat zero = (refl, omega arith)
effective_zeros dat (suc n) = elim (Bool-cases (get_or dat n 0 == 0)) [
  | inl e ↦
      let zero : get_or dat n 0 ≡ 0 = (==_iff _ _).0 e in
      let (same, le) = effective_zeros dat n in
      rw e (rw (zero-add n, zero) (omega (arith, same)), omega arith)
  | inr e ↦ rw e (refl, omega arith)
]

-- Nor do bytes of ones at the end of a negative number.
effective_ones :
    (dat : List ℕ) (n : ℕ)
    → (le_sum dat 0 n + 256 ^ effective_loop dat 0xff n
        ≡ le_sum dat 0 (effective_loop dat 0xff n) + 256 ^ n)
      × (effective_loop dat 0xff n ≤ n)
unfolding effective_loop le_sum
effective_ones dat zero = (refl, omega arith)
effective_ones dat (suc n) = elim (Bool-cases (get_or dat n 0 == 0xff)) [
  | inl e ↦
      let ones : get_or dat n 0 ≡ 0xff = (==_iff _ _).0 e in
      let (same, le) = effective_ones dat n in
      rw e (rw (zero-add n, ones) (omega (arith, same, pow-suc 256 n)), omega arith)
  | inr e ↦ rw e (refl, omega arith)
]

minus_minus_one : (n : ℕ) → neg_ℤ (pos n) -ℤ pos 1 ≡ negsuc n
unfolding neg_ℤ ◌-ℤ◌
minus_minus_one n = ground arith

from_bytes-positive :
    (dat : List ℕ) (size : ℕ) → All IsByte dat → from_bytes dat size false ≡ pos (le_sum dat 0 size)
unfolding from_bytes
from_bytes-positive dat size h = elim (Bool-cases (size == 0)) [
  | inl e ↦ rw ((==_iff _ _).0 e) (unfold le_sum in refl)
  | inr e ↦ rw (e, set_bits-to_words dat size h)
]

from_bytes-negative :
    (dat : List ℕ) (size : ℕ)
    → All IsByte dat
    → from_bytes dat size true ≡ negsuc (256 ^ size - 1 - le_sum dat 0 size)
unfolding from_bytes
from_bytes-negative dat size h = elim (Bool-cases (size == 0)) [
  | inl e ↦ rw ((==_iff _ _).0 e) (unfold le_sum in refl)
  | inr e ↦ rw (e, minus_minus_one) (ap negsuc (omega (arith, set_bits-inverted dat size h)))
]

-- BytesToInt, which works by machine words and drops bytes of sign, gives the two's complement
-- value of every string of bytes.
pub bytes_to_int-signed_value :
    (dat : List ℕ) → All IsByte dat → bytes_to_int dat ≡ signed_value dat
unfolding bytes_to_int signed_value get_effective_size
bytes_to_int-signed_value [] h = unfold from_le in refl
bytes_to_int-signed_value (b ∷ bs) h =
    let dat = b ∷ bs in
    let n = length dat in
    let last : suc (length bs) - 1 ≡ length bs = omega arith in
    elim (Bool-cases (leb 0x80 (get_or dat (length bs) 0))) [
      | inl neg ↦
          rw (last, neg)
            (from_bytes-negative dat (effective_loop dat 0xff n) h
              ∙ ap negsuc (
                  omega (
                    arith,
                    effective_ones dat n,
                    le_sum-from_le dat,
                    from_le-lt dat h,
                    le_sum-lt dat 0 (effective_loop dat 0xff n) h,
                  )))
      | inr positive ↦
          rw (last, positive)
            (from_bytes-positive dat (effective_loop dat 0 n) h
              ∙ ap pos (sym (effective_zeros dat n).0 ∙ le_sum-from_le dat))
    ]

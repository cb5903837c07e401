-- ===== src/Emit/Bigint/Length.antt =====
-- How many bytes `IntToBytes` (pkg/vm/emit/bigint.go) makes of an int64.
use neovm.Prelude.{
  ℕ, zero, suc, ◌+◌, ◌-◌, ◌/◌, ◌≤◌, ◌<◌, ◌≡◌, refl, ap, List, [], ◌∷◌, map, length, get_or, leb,
  ◌==◌, arith, Bool-cases, inl, inr, length-append, length-put_le, length-take,
}
use neovm.Prelude.Int.{ℤ, pos, negsuc, IsI64}
use neovm.Emit.Bigint.{
  effective_loop, bits, words_to_bytes, trim_zeros, with_sign_byte, magnitude_bytes, int_to_bytes,
  word_mod,
}

bits-zero : (fuel : ℕ) → bits fuel 0 ≡ []
unfolding bits
bits-zero zero = refl
bits-zero (suc fuel) = refl

-- A number below 2^64 has one word at most.
length-words : (fuel n : ℕ) → n < word_mod → length (words_to_bytes (bits fuel n)) ≤ 8
unfolding bits words_to_bytes
length-words zero n h = omega arith
length-words (suc fuel) n h = elim (Bool-cases (n == 0)) [
  | inl e ↦ rw e (omega arith)
  | inr e ↦
      let none_left : n / word_mod ≡ 0 = omega arith in
      rw (e, none_left, bits-zero fuel, length-append, length-put_le) (omega arith)
]

length-trim_zeros : (dat : List ℕ) → length (trim_zeros dat) ≤ length dat
unfolding trim_zeros
length-trim_zeros dat = rw (length-take (effective_loop dat 0 (length dat)) dat) (omega arith)

length-with_sign_byte : (dat : List ℕ) → length (with_sign_byte dat) ≤ length dat + 1
unfolding with_sign_byte
length-with_sign_byte dat = elim (Bool-cases (leb 0x80 (get_or dat (length dat - 1) 0))) [
  | inl e ↦ rw (e, length-append dat (0 ∷ [])) (omega arith)
  | inr e ↦ rw e (omega arith)
]

length-magnitude_bytes : (n : ℕ) → n < word_mod → length (magnitude_bytes n) ≤ 9
unfolding magnitude_bytes
length-magnitude_bytes n h =
    let all = words_to_bytes (bits n n) in
    let a = length-words n n h in
    let b = length-trim_zeros all in let c = length-with_sign_byte (trim_zeros all) in omega arith

length-inverted : (d : List ℕ) → length (map (λ b. 0xff - b) d) ≡ length d
length-inverted [] = refl
length-inverted (b ∷ d) = ap suc (length-inverted d)

pub length-int_to_bytes : (z : ℤ) → IsI64 z → length (int_to_bytes z) ≤ 9
unfolding int_to_bytes
length-int_to_bytes (pos zero) h = omega arith
length-int_to_bytes (pos (suc n)) h = length-magnitude_bytes (suc n) (omega arith)
length-int_to_bytes (negsuc zero) h = omega arith
length-int_to_bytes (negsuc (suc m)) h =
    let few = length-magnitude_bytes (suc m) (omega arith) in
    omega (arith, length-inverted (magnitude_bytes (suc m)))

-- ===== src/Vm/Machine/Numeric/Shifts.antt =====
-- SHL and SHR (pkg/vm/vm.go): what is shifted to the left is shifted back.
use neovm.Prelude.{
  ℕ, suc, ◌+◌, ◌-◌, ◌*◌, ◌^◌, ◌<◌, ◌≤◌, ◌≡◌, refl, ap, true, false, some, List, ◌∷◌, ◌==◌, ltb,
  arith,
}
use neovm.Prelude.Int.{ℤ, pos, negsuc, abs_ℕ, wrap64, of_u64-to_u64}
use native.Mathlib.Nat.{div-eq_of_lt-le, mul-div_cancel, one-le-pow, le-mul_of_pos_right}
use neovm.Vm.Machine.Items.{Item, integer, as_int, pop_index, pop_int}
use neovm.Vm.Machine.Numeric.{max_big_integer_size_bits, signed, lsh, rsh, shift}
use neovm.Vm.Machine.Numeric.Bounds.{limit, abs-signed, pop_checked-within, push_checked-within}

suc-mul : (a m : ℕ) → (a + 1) * m ≡ a * m + m
suc-mul a m = omega arith

-- A product with a negative number, as the constructor writes it.
product : (a m : ℕ) → 1 ≤ m → signed true (abs_ℕ (negsuc a) * m) ≡ negsuc (a * m + (m - 1))
product a m h =
    let one_more : abs_ℕ (negsuc a) ≡ a + 1 = omega arith in
    let e : abs_ℕ (negsuc a) * m ≡ suc (a * m + (m - 1)) =
      rw one_more (omega (arith, suc-mul a m)) in
    rw e (ground arith)

rsh-lsh : (a : ℤ) (n : ℕ) → rsh (lsh a n) n ≡ a
unfolding rsh lsh
rsh-lsh (pos a) n =
    let some_width : 0 < 2 ^ n = omega (arith, one-le-pow n 2) in
    let same : abs_ℕ (pos a) ≡ a = omega arith in rw same (ap pos (mul-div_cancel a some_width))
rsh-lsh (negsuc a) n =
    let width = one-le-pow n 2 (omega arith) in
    rw (product a (2 ^ n) width) (
      ap negsuc
        (div-eq_of_lt-le (2 ^ n) (omega (arith, width)) (omega (arith, width, suc-mul a (2 ^ n)))))

pop_index-small :
    (n : ℕ) (s : List Item)
    → n ≤ max_big_integer_size_bits
    → pop_index (integer (pos n) ∷ s) ≡ some (pos n, s)
unfolding pop_index pop_int wrap64 as_int
pop_index-small n s h = rw (of_u64-to_u64 (pos n) (omega arith)) refl

-- For a count from 1 to 256 and a number that fits 256 bits before and after, SHL pushes the
-- shifted number, and SHR by the same count gives the number back.
pub shift-shift :
    (x : Item) (a : ℤ) (n : ℕ) (s : List Item)
    → as_int x ≡ some a
    → 0 < n
    → n ≤ max_big_integer_size_bits
    → abs_ℕ a * 2 ^ n < limit
    → (shift true (integer (pos n) ∷ x ∷ s) ≡ some (tt, integer (lsh a n) ∷ s))
      × (shift false (integer (pos n) ∷ integer (lsh a n) ∷ s) ≡ some (tt, integer a ∷ s))
unfolding shift as_int lsh
shift-shift x a n s e positive small fits =
    let some_count : (abs_ℕ (pos n) == 0) ≡ false = ground arith in
    let in_range : ltb max_big_integer_size_bits (abs_ℕ (pos n)) ≡ false = ground arith in
    let width : 0 < 2 ^ n = one-le-pow n 2 (omega arith) in
    let before : abs_ℕ a < limit = omega (arith, le-mul_of_pos_right (abs_ℕ a) width) in
    let after : abs_ℕ (lsh a n) < limit = rw abs-signed fits in
    (
      rw
          (
            pop_index-small n (x ∷ s) small,
            some_count,
            in_range,
            pop_checked-within x a s e before,
            push_checked-within (lsh a n) s after,
          )
          refl,
      rw
          (
            pop_index-small n (integer (lsh a n) ∷ s) small,
            some_count,
            in_range,
            pop_checked-within (integer (lsh a n)) (lsh a n) s refl after,
            rsh-lsh a n,
            push_checked-within a s before,
          )
          refl,
    )

-- ===== src/Vm/Machine/Numeric/Division.antt =====
-- DIV and MOD (pkg/vm/vm.go) divide with a remainder.
use neovm.Prelude.{
  ℕ, zero, suc, ◌+◌, ◌*◌, ◌/◌, ◌%◌, ◌<◌, ◌≡◌, refl, sym, ap, ◌∙◌, Bool, true, false, some, List,
  ◌∷◌, ◌==◌, arith,
}
use neovm.Prelude.Int.{ℤ, pos, negsuc, ◌+ℤ◌, abs_ℕ}
use native.Mathlib.Nat.{mod-lt, div-add-mod'}
use neovm.Vm.Machine.Items.{Item, integer, as_int}
use neovm.Vm.Machine.Numeric.{is_neg, signed, xor, mul, quo, rem, div, modulo}
use neovm.Vm.Machine.Numeric.Bounds.{limit, abs-signed, pop_checked-within}

signed-abs : (a : ℤ) → signed (is_neg a) (abs_ℕ a) ≡ a
signed-abs (pos n) = ap pos (omega arith)
signed-abs (negsuc n) = ground arith

signed_zero : (b : Bool) → signed b 0 ≡ pos 0
signed_zero true = refl
signed_zero false = refl

is_neg-signed : (b : Bool) (n : ℕ) → is_neg (signed b (suc n)) ≡ b
is_neg-signed true n = ground arith
is_neg-signed false n = refl

-- A product has the product of the values and the signs.
mul-signed :
    (b : Bool) (n : ℕ) (c : ℤ) → mul (signed b n) c ≡ signed (xor b (is_neg c)) (n * abs_ℕ c)
unfolding mul
mul-signed b zero c =
    let none_left : 0 * abs_ℕ c ≡ 0 = omega arith in
    rw (signed_zero b, none_left) (signed_zero _ ∙ sym (signed_zero _))
mul-signed b (suc n) c = rw (is_neg-signed b n, abs-signed b (suc n)) refl

xor-xor : (a b : Bool) → xor (xor a b) b ≡ a
xor-xor true true = refl
xor-xor true false = refl
xor-xor false true = refl
xor-xor false false = refl

signed-add : (b : Bool) (m n : ℕ) → signed b m +ℤ signed b n ≡ signed b (m + n)
unfolding ◌+ℤ◌
signed-add true m n = ground arith
signed-add false m n = ground arith

-- For operands within 256 bits, of which the second is not zero, DIV pushes a quotient q and MOD a
-- remainder r with q * b + r = a, where r is nearer to zero than b and has the sign of a.
pub div-modulo :
    (x y : Item) (a b : ℤ) (s : List Item)
    → as_int x ≡ some a
    → as_int y ≡ some b
    → abs_ℕ a < limit
    → abs_ℕ b < limit
    → 0 < abs_ℕ b
    → (q r : ℤ) × (div (y ∷ x ∷ s) ≡ some (tt, integer q ∷ s))
      × (modulo (y ∷ x ∷ s) ≡ some (tt, integer r ∷ s))
      × (mul q b +ℤ r ≡ a)
      × (abs_ℕ r < abs_ℕ b)
      × (r ≡ signed (is_neg a) (abs_ℕ r))
unfolding div modulo quo rem
div-modulo x y a b s ex ey ha hb nonzero =
    let some_b : (abs_ℕ b == 0) ≡ false = ground arith in
    let first = pop_checked-within y b (x ∷ s) ey hb in
    let second = pop_checked-within x a s ex ha in
    let q = signed (xor (is_neg a) (is_neg b)) (abs_ℕ a / abs_ℕ b) in
    let r = signed (is_neg a) (abs_ℕ a % abs_ℕ b) in
    (
      q,
      r,
      rw (first, second, some_b) refl,
      rw (first, second, some_b) refl,
      ap (λ z. z +ℤ r)
            (mul-signed _ (abs_ℕ a / abs_ℕ b) b
              ∙ ap (λ t. signed t (abs_ℕ a / abs_ℕ b * abs_ℕ b)) (xor-xor (is_neg a) (is_neg b)))
          ∙ signed-add (is_neg a) (abs_ℕ a / abs_ℕ b * abs_ℕ b) (abs_ℕ a % abs_ℕ b)
          ∙ ap (signed (is_neg a)) (div-add-mod' (abs_ℕ a) (abs_ℕ b))
          ∙ signed-abs a,
      rw abs-signed (mod-lt (abs_ℕ a) nonzero),
      ap (signed (is_neg a)) (sym (abs-signed (is_neg a) (abs_ℕ a % abs_ℕ b))),
    )

-- ===== src/Vm/Machine/Numeric/Bounds.antt =====
-- The numbers that the arithmetic instructions push fit 256 bits.
use neovm.Prelude.{
  ℕ, ◌^◌, ◌<◌, ◌≡◌, refl, Bool, true, false, Option, none, some, List, [], ◌∷◌, leb, ◌==◌,
  if◌then◌else◌, arith, Bool-cases, Option-cases, inl, inr, resume, lt→not-leb, All, Proc, ◌>>=◌,
}
use neovm.Prelude.Int.{ℤ, pos, negsuc, abs_ℕ}
use native.Mathlib.Nat.{div-le_self, mod-le}
use neovm.Vm.Machine.Items.{Item, integer, as_int, lift, pop_int, push}
use neovm.Vm.Machine.Numeric.{
  max_big_integer_size_bits, check_big_int_size, pop_checked, push_checked, is_neg, signed, quo,
  rem, add, sub, div, multiply, modulo, inc, dec, sign,
}

abbrev pub limit : ℕ
limit = 2 ^ max_big_integer_size_bits

-- A panic, or an integer within the limit on the top of the stack.
abbrev pub IsFit : Option (Unit {0} × List Item) → Type 0
IsFit none = Unit {0}
IsFit (some (u, [])) = ⊥
IsFit (some (u, integer z ∷ s)) = abs_ℕ z < limit
IsFit (some (u, x ∷ s)) = ⊥

not-leb→lt : (a b : ℕ) → leb a b ≡ false → b < a
not-leb→lt a b h = ground arith

check-within : (z : ℤ) (s : List Item) → abs_ℕ z < limit → check_big_int_size z s ≡ some (tt, s)
unfolding check_big_int_size
check-within z s h = rw (lt→not-leb limit (abs_ℕ z) h) refl

push_checked-IsFit : (z : ℤ) (s : List Item) → IsFit (push_checked z s)
unfolding push_checked check_big_int_size
push_checked-IsFit z s = elim (Bool-cases (leb limit (abs_ℕ z))) [
  | inl e ↦ rw e tt
  | inr e ↦ rw e (not-leb→lt limit (abs_ℕ z) e)
]

-- Behind an operand of any kind, and behind one that is checked.
module _ {A : Type 0} (f : A → Proc (List Item) (Unit {0})) where
  resume-IsFit :
      (o : Option (A × List Item)) → ((a : A) (s : List Item) → IsFit (f a s)) → IsFit (resume f o)
  resume-IsFit none h = tt
  resume-IsFit (some (a, s)) h = h a s

checked-IsFit :
    (f : ℤ → Proc (List Item) (Unit {0})) (s : List Item)
    → ((a : ℤ) (s : List Item) → abs_ℕ a < limit → IsFit (f a s))
    → IsFit (resume f (pop_checked s))
unfolding pop_checked check_big_int_size
checked-IsFit f s h = elim (Option-cases (pop_int s)) [
  | inl e ↦ rw e tt
  | inr ((a, s'), e) ↦ elim (Bool-cases (leb limit (abs_ℕ a))) [
    | inl big ↦ rw (e, big) tt
    | inr fits ↦ rw (e, fits) (h a s' (not-leb→lt limit (abs_ℕ a) fits))
  ]
]

pub abs-signed : (b : Bool) (n : ℕ) → abs_ℕ (signed b n) ≡ n
abs-signed true n = ground arith
abs-signed false n = omega arith

quo-IsFit :
    (a b : ℤ) (s : List Item)
    → abs_ℕ a < limit
    → IsFit ((lift (quo a b) >>= λ c. push (integer c)) s)
unfolding quo
quo-IsFit a b s h = elim (Bool-cases (abs_ℕ b == 0)) [
  | inl e ↦ rw e tt
  | inr e ↦ rw (e, abs-signed) (omega (arith, div-le_self (abs_ℕ a) (abs_ℕ b), h))
]

rem-IsFit :
    (a b : ℤ) (s : List Item)
    → abs_ℕ a < limit
    → IsFit ((lift (rem a b) >>= λ c. push (integer c)) s)
unfolding rem
rem-IsFit a b s h = elim (Bool-cases (abs_ℕ b == 0)) [
  | inl e ↦ rw e tt
  | inr e ↦ rw (e, abs-signed) (omega (arith, mod-le (abs_ℕ a) (abs_ℕ b), h))
]

sign-IsFit :
    (x : ℤ) (s : List Item)
    → IsFit
        (push (integer (if is_neg x then negsuc 0 else if abs_ℕ x == 0 then pos 0 else pos 1)) s)
sign-IsFit (negsuc n) s = omega arith
sign-IsFit (pos n) s = elim (Bool-cases (abs_ℕ (pos n) == 0)) [
  | inl e ↦ rw e (omega arith)
  | inr e ↦ rw e (omega arith)
]

-- On every stack each of ADD, SUB, DIV, MUL, MOD, INC, DEC and SIGN panics or leaves an integer of
-- no more than 256 bits on the top.
pub arithmetic-IsFit :
    (s : List Item)
    → All (λ f. IsFit (f s)) (add ∷ sub ∷ div ∷ multiply ∷ modulo ∷ inc ∷ dec ∷ sign ∷ [])
unfolding add sub div multiply modulo inc dec sign
arithmetic-IsFit s = (
  checked-IsFit _ s (λ a s _. checked-IsFit _ s (λ b s _. push_checked-IsFit _ s)),
  (
    checked-IsFit _ s (λ a s _. checked-IsFit _ s (λ b s _. push_checked-IsFit _ s)),
    (
      checked-IsFit _ s (λ b s _. checked-IsFit _ s (λ a s h. quo-IsFit a b s h)),
      (
        checked-IsFit _ s (λ a s _. checked-IsFit _ s (λ b s _. push_checked-IsFit _ s)),
        (
          checked-IsFit _ s (λ b s _. checked-IsFit _ s (λ a s h. rem-IsFit a b s h)),
          (
            resume-IsFit _ (pop_int s) (λ x s. push_checked-IsFit _ s),
            (
              resume-IsFit _ (pop_int s) (λ x s. push_checked-IsFit _ s),
              (resume-IsFit _ (pop_int s) (λ x s. sign-IsFit x s), tt),
            ),
          ),
        ),
      ),
    ),
  ),
)

-- An operand and a result within the limit.
pub pop_checked-within :
    (x : Item) (a : ℤ) (s : List Item)
    → as_int x ≡ some a
    → abs_ℕ a < limit
    → pop_checked (x ∷ s) ≡ some (a, s)
unfolding pop_checked pop_int
pop_checked-within x a s e h = rw (e, check-within a s h) refl

pub push_checked-within :
    (z : ℤ) (s : List Item) → abs_ℕ z < limit → push_checked z s ≡ some (tt, integer z ∷ s)
unfolding push_checked
push_checked-within z s h = rw (check-within z s h) refl

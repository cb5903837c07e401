-- ===== src/Vm/Machine/Logic/Order.antt =====
-- The comparisons of `execute` (pkg/vm/vm.go) on the same two operands.
use neovm.Prelude.{
  ℕ, ◌+◌, ◌≡◌, refl, ◌∙◌, ◌↔◌, ap, subst, Bool, true, false, not, Option, none, some, List, ◌∷◌,
  arith, ltb, leb, ◌==◌, Proc,
}
use neovm.Prelude.Int.{ℤ, pos, negsuc, ltb_ℤ, leb_ℤ, eqb_ℤ, pos_part, neg_part}
use neovm.Vm.Opcode
use neovm.Vm.Machine.Items.{Item, boolean, as_int, pop_int, lift}
use neovm.Vm.Machine.Logic.{compares, logic}

-- An instruction of the switch.
abbrev pub run_logic : ℕ → Proc (List Item) (Unit {0})
run_logic op = elim (logic op) [ none ↦ lift none | some f ↦ f ]

compares_ints :
    (f : ℤ → ℤ → Bool) (x y : Item) (a b : ℤ) (s : List Item)
    → as_int x ≡ some a
    → as_int y ≡ some b
    → compares f (y ∷ x ∷ s) ≡ some (tt, boolean (f a b) ∷ s)
unfolding compares pop_int
compares_ints f x y a b s ex ey = rw (ey, ex) refl

-- Exactly one of three.
abbrev pub one_of : Bool → Bool → Bool → Bool
one_of true false false = true
one_of false true false = true
one_of false false true = true
one_of true true b = false
one_of true false true = false
one_of false true true = false
one_of false false false = false

eqb_ℤ_sound : (a b : ℤ) → eqb_ℤ a b ≡ true → a ≡ b
eqb_ℤ_sound (pos m) (pos n) h = ap pos (ground arith)
eqb_ℤ_sound (pos m) (negsuc n) h = absurd (ground arith)
eqb_ℤ_sound (negsuc m) (pos n) h = absurd (ground arith)
eqb_ℤ_sound (negsuc m) (negsuc n) h = ap negsuc (ground arith)

eqb_ℤ_refl : (a : ℤ) → eqb_ℤ a a ≡ true
eqb_ℤ_refl a = ground arith

pub eqb_ℤ_iff : (a b : ℤ) → (eqb_ℤ a b ≡ true) ↔ (a ≡ b)
eqb_ℤ_iff a b = (eqb_ℤ_sound a b, λ h. subst (λ c. eqb_ℤ a c ≡ true) h (eqb_ℤ_refl a))

-- On two items with integer values exactly one of LT, NUMEQUAL and GT pushes true, NUMEQUAL for
-- equal integers, and GTE, NUMNOTEQUAL and LTE push the opposites.
run_logic-one_of :
    (x y : Item) (a b : ℤ) (s : List Item)
    → as_int x ≡ some a
    → as_int y ≡ some b
    → (lt eq gt : Bool) × (one_of lt eq gt ≡ true)
      × ((eq ≡ true) ↔ (a ≡ b))
      × (run_logic Opcode.lt (y ∷ x ∷ s) ≡ some (tt, boolean lt ∷ s))
      × (run_logic Opcode.numequal (y ∷ x ∷ s) ≡ some (tt, boolean eq ∷ s))
      × (run_logic Opcode.gt (y ∷ x ∷ s) ≡ some (tt, boolean gt ∷ s))
      × (run_logic Opcode.gte (y ∷ x ∷ s) ≡ some (tt, boolean (not lt) ∷ s))
      × (run_logic Opcode.numnotequal (y ∷ x ∷ s) ≡ some (tt, boolean (not eq) ∷ s))
      × (run_logic Opcode.lte (y ∷ x ∷ s) ≡ some (tt, boolean (not gt) ∷ s))
unfolding logic
run_logic-one_of x y a b s ex ey = (
  ltb_ℤ a b,
  eqb_ℤ a b,
  ltb_ℤ b a,
  one_side (pos_part a + neg_part b) (pos_part b + neg_part a),
  eqb_ℤ_iff a b,
  compares_ints ltb_ℤ x y a b s ex ey,
  compares_ints eqb_ℤ x y a b s ex ey,
  compares_ints (λ a b. ltb_ℤ b a) x y a b s ex ey,
  compares_ints (λ a b. leb_ℤ b a) x y a b s ex ey
      ∙ same_top (leb-not-ltb (pos_part a + neg_part b) (pos_part b + neg_part a)),
  compares_ints (λ a b. not (eqb_ℤ a b)) x y a b s ex ey,
  compares_ints leb_ℤ x y a b s ex ey
      ∙ same_top (leb-not-ltb (pos_part b + neg_part a) (pos_part a + neg_part b)),
)
  where
    one_side : (m n : ℕ) → one_of (ltb m n) (m == n) (ltb n m) ≡ true
    one_side m n = ground arith

    leb-not-ltb : (m n : ℕ) → leb n m ≡ not (ltb m n)
    leb-not-ltb m n = ground arith

    same_top :
        {b c : Bool}
        → b ≡ c
        → ◌≡◌ {A = Option (Unit {0} × List Item)}
            (some (tt, boolean b ∷ s))
            (some (tt, boolean c ∷ s))
    same_top h = ap (λ b. some (tt, boolean b ∷ s)) h

-- ===== src/Vm/Machine/Logic.antt =====
-- The instructions of `execute` (pkg/vm/vm.go) that push a Boolean.
pub mod Order
use neovm.Prelude.{
  ℕ, Bool, true, false, not, ◌||◌, ◌&&◌, Option, none, some, List, ◌==◌, if◌then◌else◌, pure, ◌>>=◌,
  ◌>>◌, Proc,
}
use neovm.Prelude.Int.{ℤ, pos, abs_ℕ, ltb_ℤ, leb_ℤ, eqb_ℤ}
use neovm.Vm.Opcode
use neovm.Vm.Machine.Items.{Item, boolean, lift, pop_int, pop_bool, push}

-- BOOLAND and BOOLOR, on the operands a and b with b on the top.
unfoldable pub on_bools : (Bool → Bool → Bool) → Proc (List Item) (Unit {0})
on_bools f = do b ← pop_bool; a ← pop_bool; push (boolean (f a b))

-- NUMEQUAL, NUMNOTEQUAL, LT, GT, LTE and GTE.
unfoldable pub compares : (ℤ → ℤ → Bool) → Proc (List Item) (Unit {0})
compares f = do b ← pop_int; a ← pop_int; push (boolean (f a b))

unfoldable pub within : Proc (List Item) (Unit {0})
within = do b ← pop_int; a ← pop_int; x ← pop_int; push (boolean (leb_ℤ a x && ltb_ℤ x b))

unfoldable pub not_item : Proc (List Item) (Unit {0})
not_item = pop_bool >>= λ x. push (boolean (not x))

unfoldable pub nz : Proc (List Item) (Unit {0})
nz = pop_int >>= λ x. push (boolean (not (eqb_ℤ x (pos 0))))

unfoldable pub throw_if_not : Proc (List Item) (Unit {0})
throw_if_not = pop_bool >>= λ x. if x then pure tt else lift none

-- The cases of the switch; `none` for other instructions.
unfoldable pub logic : ℕ → Option (Proc (List Item) (Unit {0}))
logic op =
    if op == Opcode.booland
    then some (on_bools (λ a b. a && b))
    else if op == Opcode.boolor
    then some (on_bools (λ a b. a || b))
    else if op == Opcode.numequal
    then some (compares eqb_ℤ)
    else if op == Opcode.numnotequal
    then some (compares (λ a b. not (eqb_ℤ a b)))
    else if op == Opcode.lt
    then some (compares ltb_ℤ)
    else if op == Opcode.gt
    then some (compares (λ a b. ltb_ℤ b a))
    else if op == Opcode.lte
    then some (compares leb_ℤ)
    else if op == Opcode.gte
    then some (compares (λ a b. leb_ℤ b a))
    else if op == Opcode.within
    then some within
    else if op == Opcode.not
    then some not_item
    else if op == Opcode.nz
    then some nz
    else if op == Opcode.throwifnot
    then some throw_if_not
    else none

-- ===== src/Vm/Machine/Moves.antt =====
-- The instructions of `execute` (pkg/vm/vm.go) that move and copy items between the stack and the
-- alternative stack. `Dup` copies a primitive item, which is the same item here.
use neovm.Prelude.{
  ℕ, Bool, true, false, Option, none, some, List, [], ◌∷◌, length, leb, ltb, ◌==◌, if◌then◌else◌,
  pure, ◌>>=◌, ◌>>◌, Proc,
}
use neovm.Prelude.Int.{ℤ, pos, negsuc}
use neovm.Vm.Opcode
use neovm.Vm.Stack
use neovm.Vm.Stack.{Answer, ok, err}
use neovm.Vm.Machine.Items.{Item, integer, lift, pop, pop_index, push}

-- The error of a stack operation becomes a panic.
abbrev pub or_panic : (List Item → Answer (List Item)) → Proc (List Item) (Unit {0})
or_panic f s = elim (f s) [ ok s' ↦ some (tt, s') | err e ↦ none ]

-- `Dup`, with a panic where its nil is pushed or refused.
abbrev pub dup_at : ℤ → Proc (List Item) Item
dup_at n s = lift (Stack.peek s n) s

-- `RemoveAt` with a panic on nil.
abbrev pub remove : ℤ → Proc (List Item) (Unit {0})
remove n s = elim (Stack.remove_at n s) [ none ↦ none | some (e, s') ↦ some (tt, s') ]

-- `InsertAt`, whose nil for an index without an element is not looked at.
abbrev pub insert_copy : Item → ℤ → Proc (List Item) (Unit {0})
insert_copy a (pos n) s = elim (Stack.insert_at a n s) [
  | none ↦ some (tt, s)
  | some s' ↦ some (tt, s')
]
insert_copy a (negsuc n) s = some (tt, s)

-- `panic` unless a test of the stack holds.
abbrev pub require : (List Item → Bool) → Proc (List Item) (Unit {0})
require test s = if test s then some (tt, s) else none

unfoldable pub dup : Proc (List Item) (Unit {0})
dup = dup_at (pos 0) >>= push

unfoldable pub swap_top : Proc (List Item) (Unit {0})
swap_top = or_panic (Stack.swap (pos 1) (pos 0))

unfoldable pub tuck : Proc (List Item) (Unit {0})
tuck = do a ← dup_at (pos 0); require (λ s. leb 2 (length s)); insert_copy a (pos 2)

abbrev pub is_negative : ℤ → Bool
is_negative (pos n) = false
is_negative (negsuc n) = true

unfoldable pub xdrop : Proc (List Item) (Unit {0})
xdrop = do n ← pop_index; if is_negative n then lift none else remove n

unfoldable pub xswap : Proc (List Item) (Unit {0})
xswap = pop_index >>= λ n. or_panic (Stack.swap n (pos 0))

abbrev pub is_positive : ℤ → Bool
is_positive (pos n) = ltb 0 n
is_positive (negsuc n) = false

unfoldable pub xtuck : Proc (List Item) (Unit {0})
xtuck = do
  n ← pop_index
  if is_positive n
      then (do a ← dup_at (pos 0); require (λ s. leb_length n s); insert_copy a n)
      else lift none
  where
    leb_length : ℤ → List Item → Bool
    leb_length (pos n) s = leb n (length s)
    leb_length (negsuc n) s = true

unfoldable pub rot : Proc (List Item) (Unit {0})
rot = or_panic (Stack.roll (pos 2))

unfoldable pub depth : Proc (List Item) (Unit {0})
depth s = push (integer (pos (length s))) s

unfoldable pub nip : Proc (List Item) (Unit {0})
nip = remove (pos 1)

unfoldable pub over : Proc (List Item) (Unit {0})
over = dup_at (pos 1) >>= push

unfoldable pub pick : Proc (List Item) (Unit {0})
pick = do n ← pop_index; if is_negative n then lift none else (dup_at n >>= push)

unfoldable pub roll_by : Proc (List Item) (Unit {0})
roll_by = pop_index >>= λ n. or_panic (Stack.roll n)

unfoldable pub drop_top : Proc (List Item) (Unit {0})
drop_top = pop >>= λ _. pure tt

-- The stack and the alternative stack.
abbrev pub Stacks : Type 0
Stacks = List Item × List Item

abbrev pub on_estack : Proc (List Item) (Unit {0}) → Proc Stacks (Unit {0})
on_estack f (e, a) = elim (f e) [ none ↦ none | some (u, e') ↦ some (u, (e', a)) ]

unfoldable pub to_alt_stack : Proc Stacks (Unit {0})
to_alt_stack ([], a) = none
to_alt_stack (x ∷ e, a) = some (tt, (e, x ∷ a))

unfoldable pub from_alt_stack : Proc Stacks (Unit {0})
from_alt_stack (e, []) = none
from_alt_stack (e, x ∷ a) = some (tt, (x ∷ e, a))

unfoldable pub dup_from_alt_stack : Proc Stacks (Unit {0})
dup_from_alt_stack (e, []) = none
dup_from_alt_stack (e, x ∷ a) = some (tt, (x ∷ e, x ∷ a))

-- The cases of the switch; `none` for other instructions.
unfoldable pub moves : ℕ → Option (Proc Stacks (Unit {0}))
moves op =
    if op == Opcode.toaltstack
    then some to_alt_stack
    else if op == Opcode.fromaltstack
    then some from_alt_stack
    else if op == Opcode.dupfromaltstack
    then some dup_from_alt_stack
    else if op == Opcode.dup
    then some (on_estack dup)
    else if op == Opcode.swap
    then some (on_estack swap_top)
    else if op == Opcode.tuck
    then some (on_estack tuck)
    else if op == Opcode.xdrop
    then some (on_estack xdrop)
    else if op == Opcode.xswap
    then some (on_estack xswap)
    else if op == Opcode.xtuck
    then some (on_estack xtuck)
    else if op == Opcode.rot
    then some (on_estack rot)
    else if op == Opcode.depth
    then some (on_estack depth)
    else if op == Opcode.nip
    then some (on_estack nip)
    else if op == Opcode.over
    then some (on_estack over)
    else if op == Opcode.pick
    then some (on_estack pick)
    else if op == Opcode.roll
    then some (on_estack roll_by)
    else if op == Opcode.drop
    then some (on_estack drop_top)
    else none

-- ===== src/Tests/Rings.antt =====
-- Two stacks as rings in one memory, for the theorems about pkg/vm/stack.go.
use neovm.Prelude.{ℕ, ◌≡◌, refl, some, [], ◌∷◌, get_or, arith}
use neovm.Prelude.Int.{pos}
use neovm.Vm.Stack
use neovm.Vm.Ring.{Memory, insert_at, push, remove_at, roll, swap, to_stack}
use neovm.Vm.Ring.Refinement.{Holds, Removes, remove_at-Removes}
use neovm.Vm.Ring.Insertion.{Inserts, IsInsertable, insert_at-Inserts, push-Holds}
use neovm.Vm.Ring.Ordering.{roll-Answers, swap-Answers}
use neovm.Vm.Ring.Moves.{Answers}
use neovm.Vm.Ring.Transfer.{to_stack-Holds}

-- The stack at 1 with the elements 2 and 3, the empty stack at 4, and the free element 5.
abbrev two_stacks : Memory ℕ
two_stacks = record {
  fresh = 6;
  value = λ a. get_or (0 ∷ 0 ∷ 7 ∷ 5 ∷ 0 ∷ 9 ∷ []) a 0;
  next = λ a. get_or (0 ∷ 2 ∷ 3 ∷ 1 ∷ 4 ∷ 0 ∷ []) a 0;
  prev = λ a. get_or (0 ∷ 3 ∷ 1 ∷ 2 ∷ 4 ∷ 0 ∷ []) a 0;
  stack = λ a. get_or (0 ∷ 0 ∷ 1 ∷ 1 ∷ 0 ∷ 0 ∷ []) a 0;
  len = λ a. get_or (pos 0 ∷ pos 2 ∷ pos 0 ∷ pos 0 ∷ pos 0 ∷ pos 0 ∷ []) a (pos 0);
}

full-Holds : Holds two_stacks 1 (7 ∷ 5 ∷ [])
full-Holds = (
  2 ∷ 3 ∷ [],
  record {
    present = refl;
    allocated = omega arith;
    topmost = refl;
    linked = (refl, refl, (refl, refl, (refl, refl)));
    distinct = (refl, (refl, (refl, tt)));
    owned = ((refl, refl, omega arith), ((refl, refl, omega arith), tt));
    counted = refl;
  },
  refl,
)

empty-Holds : Holds two_stacks 4 []
empty-Holds = (
  [],
  record {
    present = refl;
    allocated = omega arith;
    topmost = refl;
    linked = (refl, refl);
    distinct = (refl, tt);
    owned = tt;
    counted = refl;
  },
  refl,
)

free-IsInsertable : IsInsertable two_stacks 1 5
free-IsInsertable = (refl, refl, omega arith)

remove_at-Removes_example :
    Removes two_stacks 1 (remove_at 1 (pos 1) two_stacks) (Stack.remove_at (pos 1) (7 ∷ 5 ∷ []))
remove_at-Removes_example = remove_at-Removes two_stacks 1 (7 ∷ 5 ∷ []) (pos 1) full-Holds

insert_at-Inserts_example :
    Inserts two_stacks 1 (insert_at 1 5 (pos 2) two_stacks) (Stack.insert_at 9 2 (7 ∷ 5 ∷ []))
insert_at-Inserts_example =
    insert_at-Inserts two_stacks 1 5 2 (7 ∷ 5 ∷ []) full-Holds free-IsInsertable

push-Holds_example :
    (m' : Memory ℕ) × (push 1 5 two_stacks ≡ some (tt, m')) × Holds m' 1 (9 ∷ 7 ∷ 5 ∷ [])
push-Holds_example = push-Holds two_stacks 1 5 (7 ∷ 5 ∷ []) full-Holds free-IsInsertable

roll-Answers_example :
    Answers two_stacks 1 (roll 1 (pos 1) two_stacks) (Stack.roll (pos 1) (7 ∷ 5 ∷ []))
roll-Answers_example = roll-Answers two_stacks 1 (7 ∷ 5 ∷ []) (pos 1) full-Holds

swap-Answers_example :
    Answers two_stacks 1
      (swap 1 (pos 0) (pos 1) two_stacks)
      (Stack.swap (pos 0) (pos 1) (7 ∷ 5 ∷ []))
swap-Answers_example = swap-Answers two_stacks 1 (7 ∷ 5 ∷ []) (pos 0) (pos 1) full-Holds

to_stack-Holds_example :
    (m' : Memory ℕ) × (to_stack 1 4 two_stacks ≡ some (tt, m'))
    × Holds m' 1 (5 ∷ [])
    × Holds m' 4 (7 ∷ [])
to_stack-Holds_example = to_stack-Holds two_stacks 1 4 7 (5 ∷ []) [] refl full-Holds empty-Holds

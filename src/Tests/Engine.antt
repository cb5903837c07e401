-- ===== src/Tests/Engine.antt =====
-- The machine's cycle (pkg/vm/vm.go) and maps (pkg/vm/stack_item.go) on concrete values.
use neovm.Prelude.{
  ℕ, ◌<◌, ◌≡◌, ◌≢◌, refl, true, false, none, some, List, [], ◌∷◌, arith, All, same_bytes,
  if◌then◌else◌, put_le, ◌>>◌,
}
use neovm.Prelude.Int.{ℤ, pos, negsuc, ◌+ℤ◌, ◌-ℤ◌, abs_ℕ}
use neovm.Emit.Bigint.{
  int_to_bytes, magnitude_bytes, bits, words_to_bytes, trim_zeros, with_sign_byte, set_bits,
  effective_loop,
}
use neovm.Emit.Instructions.{emit_int, opcode}
use neovm.Vm.Opcode
use neovm.Vm.Context.{at_break_point, mem_ip, new_context, next, operand_of, is_jump, read_operand}
use neovm.Vm.Push.{pushed}
use neovm.Vm.Machine.Items.{integer, boolean, byte_array, as_int}
use neovm.Vm.Machine.Numeric.{
  numeric, add, sub, div, multiply, modulo, inc, dec, sign, mul, signed, shift, lsh,
}
use neovm.Vm.Machine.Numeric.Bounds.{IsFit, arithmetic-IsFit}
use neovm.Vm.Machine.Numeric.Division.{div-modulo}
use neovm.Vm.Machine.Numeric.Shifts.{shift-shift}
use neovm.Vm.Machine.Logic.{logic}
use neovm.Vm.Machine.Moves.{moves}
use neovm.Vm.Machine.Splice.{splice}
use neovm.Vm.Maps.{Key, number, flag, bytes, key_item, MapItem, equals}
use neovm.Vm.Maps
use neovm.Vm.Maps.Refinement.{view, IsMap, add-view, remove_key-view}
use neovm.Vm.Run.{Vm, runs, halts, faults, step, execute, new_vm, load, run, no_fuel}
use neovm.Vm.Run.Invariant.{IsSound, Reach, here, onward, Reach-IsSound}
use neovm.Vm.Run.{loop, has_flag, stopped}
use neovm.Vm.Run.Progress.{run_ends}
use neovm.Vm.Run.Breaks.{run-run_break}
use neovm.Vm.Run.Debugger.{
  moved, has_stopped, step_into, step_over, step_over_loop, over, step_over-over,
}
use neovm.Vm.Run.Programs.{Computes, sub-Computes}

arithmetic-IsFit_example :
    All
      (λ f. IsFit (f (integer (pos 2) ∷ byte_array (3 ∷ []) ∷ [])))
      (add ∷ sub ∷ div ∷ multiply ∷ modulo ∷ inc ∷ dec ∷ sign ∷ [])
arithmetic-IsFit_example = arithmetic-IsFit (integer (pos 2) ∷ byte_array (3 ∷ []) ∷ [])

-- -7 divided by 2.
div-modulo_example :
    (q r : ℤ) × (div (integer (pos 2) ∷ integer (negsuc 6) ∷ []) ≡ some (tt, integer q ∷ []))
    × (modulo (integer (pos 2) ∷ integer (negsuc 6) ∷ []) ≡ some (tt, integer r ∷ []))
    × (mul q (pos 2) +ℤ r ≡ negsuc 6)
    × (abs_ℕ r < 2)
    × (r ≡ signed true (abs_ℕ r))
div-modulo_example =
    div-modulo (integer (negsuc 6)) (integer (pos 2)) (negsuc 6) (pos 2) [] (unfold as_int in refl)
      (unfold as_int in refl) (omega arith) (omega arith) (omega arith)

shift-shift_example :
    (shift true (integer (pos 3) ∷ integer (negsuc 4) ∷ [])
      ≡ some (tt, integer (lsh (negsuc 4) 3) ∷ []))
    × (shift false (integer (pos 3) ∷ integer (lsh (negsuc 4) 3) ∷ [])
        ≡ some (tt, integer (negsuc 4) ∷ []))
shift-shift_example =
    shift-shift (integer (negsuc 4)) (negsuc 4) 3 [] (unfold as_int in refl) (omega arith)
      (omega arith) (omega arith)

abbrev two_keys : MapItem
two_keys = (number (pos 5), boolean true) ∷ (bytes (1 ∷ 2 ∷ []), integer (pos 9)) ∷ []

two_keys-IsMap : IsMap two_keys
unfolding effective_loop put_le int_to_bytes magnitude_bytes bits words_to_bytes trim_zeros
    with_sign_byte set_bits
two_keys-IsMap = (refl, (refl, tt))

-- True and the number 1 are one key.
add-view_example :
    (m : MapItem) × (Maps.add (boolean true) (integer (pos 3)) two_keys ≡ some m)
    × IsMap m
    × ((b : List ℕ)
        → view m b ≡ (if same_bytes (1 ∷ []) b then some (integer (pos 3)) else view two_keys b))
add-view_example = add-view (flag true) (integer (pos 3)) two_keys two_keys-IsMap

remove_key-view_example :
    IsMap (Maps.remove_key (byte_array (1 ∷ 2 ∷ [])) two_keys)
    × ((b : List ℕ)
        → view (Maps.remove_key (byte_array (1 ∷ 2 ∷ [])) two_keys) b
          ≡ (if same_bytes (1 ∷ 2 ∷ []) b then none else view two_keys b))
remove_key-view_example = remove_key-view (bytes (1 ∷ 2 ∷ [])) two_keys two_keys-IsMap

-- PUSH1
abbrev one_push : List ℕ
one_push = 0x51 ∷ []

run_ends_example : run 2 (load one_push new_vm) ≢ no_fuel
run_ends_example = run_ends new_vm one_push 2 (refl, tt) (omega arith)

-- A machine with two items on its stacks, which loads another script.
abbrev reloaded : Vm
reloaded = record new_vm { stacks = (integer (pos 1) ∷ [], integer (pos 2) ∷ []) }

sub-Computes_example :
    Computes reloaded
      (emit_int (pos 3) >> (emit_int (pos 300) >> opcode Opcode.sub))
      (pos 3 -ℤ pos 300)
      5
sub-Computes_example =
    sub-Computes reloaded (pos 3) (pos 300) 1 (omega arith) (omega arith) (omega arith)

-- The items of an earlier script count after a reload: a machine that MaxStackSize of them were left
-- in fails at the first push.
full-fails : step (load one_push (record new_vm { left_over = 2048 })) ≡ faults
unfolding load step execute next operand_of is_jump read_operand pushed
full-fails = refl

-- The machine after the push, and halted.
abbrev pushed_one : Vm
pushed_one = record (load one_push new_vm) {
  context = record (new_context one_push) { nextip = 1 };
  stacks = (integer (pos 1) ∷ [], []);
}

abbrev halted_one : Vm
halted_one = record pushed_one {
  state = 2;
  ready = false;
  context = record (new_context one_push) { ip = 1; nextip = 1 };
}

step_one : step (load one_push new_vm) ≡ runs pushed_one
unfolding step load execute next operand_of is_jump read_operand pushed
step_one = refl

step_two : step pushed_one ≡ halts halted_one
unfolding step load execute next operand_of is_jump read_operand pushed numeric logic splice moves
step_two = refl

Reach_example : Reach (load one_push new_vm) (halts halted_one)
Reach_example = onward (onward here step_one) step_two

Reach-IsSound_example : IsSound one_push (halts halted_one)
unfolding load
Reach-IsSound_example = Reach-IsSound (omega arith) (omega arith) Reach_example

-- A break point at the second of three pushes, which Run stops behind.
abbrev three_pushes : List ℕ
three_pushes = 0x51 ∷ 0x52 ∷ 0x53 ∷ []

abbrev guarded : Vm
guarded = record {
  state = 0;
  ready = true;
  context = record (new_context three_pushes) { break_points = 1 ∷ [] };
  stacks = ([], []);
  left_over = 0;
}

abbrev at_second : Vm
at_second = record {
  state = 8;
  ready = true;
  context = record (guarded.context) { ip = 1; nextip = 2 };
  stacks = (integer (pos 2) ∷ integer (pos 1) ∷ [], []);
  left_over = 0;
}

run_to_second : run 3 guarded ≡ stopped at_second
unfolding run loop has_flag step execute next operand_of is_jump read_operand pushed at_break_point
    mem_ip
run_to_second = refl

run-run_break_example : run 5 at_second ≡ stopped at_second
run-run_break_example = run-run_break 3 4 guarded at_second run_to_second refl

step_over-over_example : step_over 1 at_second ≡ over (step at_second)
step_over-over_example =
    step_over-over 0 at_second (unfold has_stopped in unfold has_flag in refl) refl

-- StepOver leaves the break point.
step_over_leaves :
    step_over 1 at_second
    ≡ moved (record at_second {
      context = record (guarded.context) { ip = 2; nextip = 3 };
      stacks = (integer (pos 3) ∷ integer (pos 2) ∷ integer (pos 1) ∷ [], []);
    })
unfolding step_over step_over_loop step_into has_stopped has_flag step execute next operand_of
    is_jump read_operand pushed at_break_point mem_ip
step_over_leaves = refl

-- ===== src/Vm/Run.antt =====
-- pkg/vm/vm.go and pkg/vm/state.go: the cycle of the machine (Run, Step, execute) for a script that
-- was loaded alone (New, Load) and without a price of instructions, over the instructions of
-- `Vm.Machine`. Another instruction leaves the model. No stack holds a collection, so that every push
-- adds one to the counter `size` and every pop takes one from it; what Load and LoadScript throw away
-- is not taken from it.
pub mod Invariant
pub mod Progress
pub mod Programs
pub mod Breaks
pub mod Debugger
use neovm.Prelude.{
  ℕ, zero, suc, ◌+◌, ◌*◌, ◌/◌, ◌%◌, Bool, true, false, not, ◌||◌, ◌&&◌, Option, none, some, List,
  [], ◌∷◌, length, leb, ltb, ◌==◌, if◌then◌else◌, Proc,
}
use neovm.Prelude.Int.{ℤ}
use neovm.Vm.Opcode
use neovm.Vm.Context.{Context, Fetched, next, new_context, at_break_point}
use neovm.Vm.Push.{Pushed, pushed}
use neovm.Vm.Push
use neovm.Vm.Machine.Items.{Item, integer, byte_array, pop_bool}
use neovm.Vm.Machine.Numeric.{numeric}
use neovm.Vm.Machine.Logic.{logic}
use neovm.Vm.Machine.Moves.{Stacks, on_estack, moves}
use neovm.Vm.Machine.Splice.{splice}
use neovm.Vm.Machine.Jumps.{jump}

-- The flags of a state.
abbrev pub none_state : ℕ
none_state = 0

abbrev pub halt_state : ℕ
halt_state = 2

abbrev pub fault_state : ℕ
fault_state = 4

abbrev pub break_state : ℕ
break_state = 8

-- `HasFlag`, for a flag that is a power of two.
unfoldable pub has_flag : ℕ → ℕ → Bool
has_flag s f = s / f % 2 == 1

abbrev pub max_stack_size : ℕ
max_stack_size = 2 * 1024

-- The machine with the one context on its invocation stack, which is off it when it is not ready.
-- `left_over` is how much more the counter `size` is than the number of items on the stacks.
pub record Vm : Type 0 where
  pub state : ℕ
  pub ready : Bool
  pub context : Context
  pub stacks : Stacks
  pub left_over : ℕ

-- The counter `size` with these stacks.
abbrev pub size_with : Vm → Stacks → ℕ
size_with v s = length s.0 + length s.1 + v.left_over

abbrev pub size : Vm → ℕ
size v = size_with v v.stacks

-- After an instruction: the machine goes on, has no context left, or has failed.
pub data Cycle : Type 0 where
  runs : Vm → Cycle
  halts : Vm → Cycle
  faults : Cycle
  other : Cycle

abbrev pub item_of : Pushed → Item
item_of (Push.byte_array b) = byte_array b
item_of (Push.integer z) = integer z

-- `New`
abbrev pub new_vm : Vm
new_vm = record {
  state = halt_state;
  ready = false;
  context = new_context [];
  stacks = ([], []);
  left_over = 0;
}

-- `Load`: the stacks are emptied, but the items that were on them stay in the counter.
unfoldable pub load : List ℕ → Vm → Vm
load prog v = record {
  state = none_state;
  ready = true;
  context = new_context prog;
  stacks = ([], []);
  left_over = size v;
}

-- A panic faults, and so does a stack that is too big.
abbrev pub cycled : Vm → Option (Unit {0} × Stacks) → Cycle
cycled v none = faults
cycled v (some (u, s)) =
    if ltb max_stack_size (size_with v s) then faults else runs (record v { stacks = s })

abbrev pub jumped : Vm → Option (Context × List Item) → Cycle
jumped v none = faults
jumped v (some (c, e)) =
    if ltb max_stack_size (size_with v (e, v.stacks.1))
    then faults
    else runs (record v { context = c; stacks = (e, v.stacks.1) })

abbrev pub is_jump_op : ℕ → Bool
is_jump_op op = op == Opcode.jmp || op == Opcode.jmpif || op == Opcode.jmpifnot

-- The end of the only context, which asks for no number of returned items.
abbrev pub returned : Vm → Cycle
returned v =
    if ltb max_stack_size (size v)
    then faults
    else halts (record v { state = halt_state; ready = false })

-- `execute`
unfoldable pub execute : ℕ → Option (List ℕ) → Vm → Cycle
execute op parameter v = elim (pushed op parameter) [
  | some p ↦ cycled v (some (tt, (item_of p ∷ v.stacks.0, v.stacks.1)))
  | none ↦ elim (numeric op) [
    | some f ↦ cycled v (on_estack f v.stacks)
    | none ↦ elim (logic op) [
      | some f ↦ cycled v (on_estack f v.stacks)
      | none ↦ elim (splice op) [
        | some f ↦ cycled v (on_estack f v.stacks)
        | none ↦ elim (moves op) [
          | some f ↦ cycled v (f v.stacks)
          | none ↦
              if is_jump_op op
              then jumped v (jump op v.context (Push.parameter_of parameter) v.stacks.0)
              else if op == Opcode.nop
              then cycled v (some (tt, v.stacks))
              else if op == Opcode.ret
              then returned v
              else if op == Opcode.throw
              then faults
              else other
        ]
      ]
    ]
  ]
]

-- `Step`; an error of the decoder faults.
abbrev pub executed : Vm → Context × Fetched → Cycle
executed v (c, Fetched.instruction op parameter) = execute op parameter (record v { context = c })
executed v (c, Fetched.no_inst_param op) = faults
executed v (c, Fetched.too_big op) = faults

unfoldable pub step : Vm → Cycle
step v = executed v (next v.context)

-- What `Run` leaves: it has halted or stands at a break point, or failed.
pub data Outcome : Type 0 where
  stopped : Vm → Outcome
  failed : Outcome
  unmodelled : Outcome
  no_fuel : Outcome

-- The loop of `Run`, on fuel.
unfoldable pub loop : ℕ → Vm → Outcome
loop zero v = no_fuel
loop (suc fuel) v =
    if at_break_point v.context then stopped (record v { state = break_state }) else elim (step v) [
      | runs v' ↦ loop fuel v'
      | halts v' ↦ stopped v'
      | faults ↦ failed
      | other ↦ unmodelled
    ]

-- `Run`: a machine without a context or one that has failed does not run; another one goes on from a
-- break.
unfoldable pub run : ℕ → Vm → Outcome
run fuel v =
    if not v.ready
    then failed
    else if has_flag v.state fault_state
    then failed
    else loop fuel (record v { state = none_state })

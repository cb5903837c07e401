-- ===== src/Vm/Machine.antt =====
-- pkg/vm/vm.go (execute): the instructions that work on the stacks without collections and calls.
-- `none` is a panic, which the machine recovers and turns into a fault.
pub mod Items
pub mod Numeric
pub mod Logic
pub mod Moves
pub mod Splice
pub mod Jumps

-- ===== src/Vm.antt =====
-- pkg/vm: the virtual machine. `Opcode` has the instruction codes, `Context` the instruction
-- decoder of a loaded script, `Stack` and `Ring` the stack as a list of values and as the ring of
-- elements that the source keeps, `Contracts` the recognition of standard scripts.
pub mod Opcode
pub mod Context
pub mod Stack
pub mod Ring
pub mod Push
pub mod Contracts
pub mod Multisig
pub mod Machine
pub mod Maps
pub mod Run

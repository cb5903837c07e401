-- ===== src/Vm/Push.antt =====
-- pkg/vm/vm.go (execute): what an instruction that pushes a constant pushes, and its value as an
-- integer (pkg/vm/stack.go, BigInt).
use neovm.Prelude.{ℕ, ◌+◌, ◌||◌, ◌&&◌, Option, none, some, List, [], leb, ◌==◌, if◌then◌else◌}
use neovm.Prelude.Int.{ℤ, sub_ℕ}
use neovm.Emit.Bigint.{bytes_to_int}
use neovm.Vm.Opcode

-- An item of a stack: a byte array or an integer.
pub data Pushed : Type 0 where
  byte_array : List ℕ → Pushed
  integer : ℤ → Pushed

-- A nil parameter is pushed as the empty byte array.
abbrev pub parameter_of : Option (List ℕ) → List ℕ
parameter_of none = []
parameter_of (some b) = b

-- The first cases of `execute`; `none` for an instruction that pushes no constant.
unfoldable pub pushed : ℕ → Option (List ℕ) → Option Pushed
pushed op parameter =
    if leb Opcode.pushbytes1 op && leb op Opcode.pushbytes75
    then some (byte_array (parameter_of parameter))
    else if op == Opcode.pushm1 || (leb Opcode.push1 op && leb op Opcode.push16)
    then some (integer (sub_ℕ (op + 1) Opcode.push1))
    else if op == Opcode.push0
    then some (byte_array [])
    else if op == Opcode.pushdata1 || op == Opcode.pushdata2 || op == Opcode.pushdata4
    then some (byte_array (parameter_of parameter))
    else none

-- `BigInt` of the item.
unfoldable pub big_int : Pushed → ℤ
big_int (byte_array b) = bytes_to_int b
big_int (integer z) = z

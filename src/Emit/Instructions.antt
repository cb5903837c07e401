-- ===== src/Emit/Instructions.antt =====
-- pkg/vm/emit/emit.go: instructions written to a binary writer.
pub mod Decoding
pub mod Pushes
pub mod Integers
use neovm.Prelude.{
  ℕ, ◌+◌, ◌-◌, ◌%◌, ◌^◌, Bool, true, false, ◌||◌, Option, none, some, List, [], ◌∷◌, ◌++◌, length,
  ltb, leb, ◌==◌, if◌then◌else◌, put_le, pure, ◌>>=◌, ◌>>◌, reverse, resume,
}
use neovm.Prelude.Int.{ℤ, pos, negsuc}
use neovm.Io.Error.{new, errorf}
use neovm.Io.Writer.{BinWriter, Write, fail, unless_failed, write_b, write_bytes}
use neovm.Emit.Bigint.{int_to_bytes}
use neovm.Vm.Opcode

unfoldable pub instruction : ℕ → List ℕ → Write
instruction op b = write_b op >> write_bytes b

unfoldable pub opcode : ℕ → Write
opcode op = write_b op

unfoldable pub emit_bool : Bool → Write
emit_bool ok = if ok then opcode Opcode.pusht else opcode Opcode.pushf

unfoldable pub emit_bytes : List ℕ → Write
emit_bytes b =
    let n = length b in
    if leb n Opcode.pushbytes75
    then instruction n b
    else if ltb n 0x100
    then (instruction Opcode.pushdata1 (n % 2 ^ 8 ∷ []) >> write_bytes b)
    else if ltb n 0x10000
    then (instruction Opcode.pushdata2 (put_le 2 (n % 2 ^ 16)) >> write_bytes b)
    else (instruction Opcode.pushdata4 (put_le 4 (n % 2 ^ 32)) >> write_bytes b)

-- `Int`, whose argument is an int64: -1 and 0 to 15 have codes of their own.
unfoldable pub emit_int : ℤ → Write
emit_int (negsuc n) = if n == 0 then opcode Opcode.pushm1 else emit_bytes (int_to_bytes (negsuc n))
emit_int (pos n) =
    if n == 0
    then opcode Opcode.pushf
    else if ltb n 16
    then opcode (Opcode.push1 - 1 + n)
    else emit_bytes (int_to_bytes (pos n))

unfoldable pub emit_string : List ℕ → Write
unfolding emit_bytes
emit_string s = emit_bytes s

-- The types that `Array` takes; `other` is any other.
pub data Argument : Type 0 where
  int64 : ℤ → Argument
  text : List ℕ → Argument
  uint160 : List ℕ → Argument
  bytes : List ℕ → Argument
  bool : Bool → Argument
  other : Argument

unfoldable pub emit_argument : Argument → Write
emit_argument (int64 i) = emit_int i
emit_argument (text s) = emit_string s
emit_argument (uint160 u) = emit_bytes u
emit_argument (bytes b) = emit_bytes b
emit_argument (bool b) = emit_bool b
emit_argument other = fail (new "unsupported type")

-- `for i := len(es) - 1; i >= 0; i--`, over the reversed arguments; an unsupported one returns.
unfoldable pub emit_arguments : List Argument → Write → Write
emit_arguments [] done = done
emit_arguments (other ∷ es) done = fail (new "unsupported type")
emit_arguments (e ∷ es) done = emit_argument e >> emit_arguments es done

unfoldable pub emit_array : List Argument → Write
emit_array es = emit_arguments (reverse es) (emit_int (pos (length es)) >> opcode Opcode.pack)

-- `buf[0] = byte(len(api))`: the low byte of the length.
unfoldable pub emit_syscall : List ℕ → Write
emit_syscall api = unless_failed (
    if length api == 0
    then fail (new "syscall api cannot be of length 0")
    else instruction Opcode.syscall (length api % 2 ^ 8 ∷ api))

unfoldable pub is_instruction_jmp : ℕ → Bool
is_instruction_jmp op =
    op == Opcode.jmp || op == Opcode.jmpifnot || op == Opcode.jmpif || op == Opcode.call

unfoldable pub emit_jmp : ℕ → ℕ → Write
emit_jmp op label = unless_failed (
    if is_instruction_jmp op
    then instruction op (put_le 2 label)
    else fail (errorf "opcode is not a jump or call type" op))

unfoldable pub emit_call : ℕ → ℕ → Write
unfolding emit_jmp
emit_call op label = emit_jmp op label

unfoldable pub emit_app_call : List ℕ → Bool → Write
emit_app_call script_hash tail_call =
    instruction (if tail_call then Opcode.tailcall else Opcode.appcall) script_hash

unfoldable pub emit_app_call_with_operation_and_args : List ℕ → List ℕ → List Argument → Write
emit_app_call_with_operation_and_args script_hash operation args = do
  emit_array args
  emit_string operation
  emit_app_call script_hash false

unfoldable pub emit_app_call_with_operation_and_data : List ℕ → List ℕ → List ℕ → Write
emit_app_call_with_operation_and_data script_hash operation dat = do
  emit_bytes dat
  emit_string operation
  emit_app_call script_hash false

unfoldable pub emit_app_call_with_operation : List ℕ → List ℕ → Write
emit_app_call_with_operation script_hash operation = do
  emit_bool false
  emit_string operation
  emit_app_call script_hash false

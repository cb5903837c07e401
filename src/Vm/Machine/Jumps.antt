-- ===== src/Vm/Machine/Jumps.antt =====
-- JMP, JMPIF and JMPIFNOT of `execute` (pkg/vm/vm.go), with getJumpOffset and jumpIf.
use neovm.Prelude.{
  ℕ, ◌+◌, ◌*◌, ◌-◌, ◌^◌, Bool, true, not, Option, none, some, List, length, get_or, ltb, ◌==◌,
  if◌then◌else◌, pure, ◌>>=◌, Proc,
}
use neovm.Prelude.Int.{ℤ, pos, negsuc, ◌+ℤ◌}
use neovm.Vm.Opcode
use neovm.Vm.Context.{Context}
use neovm.Vm.Machine.Items.{Item, pop_bool}

-- `int16(v)` of a uint16.
unfoldable pub of_u16 : ℕ → ℤ
of_u16 v = if ltb v (2 ^ 15) then pos v else negsuc (2 ^ 16 - 1 - v)

-- An offset behind the script or in front of it panics; its end does not.
abbrev pub checked_offset : List ℕ → ℤ → Option ℕ
checked_offset prog (negsuc n) = none
checked_offset prog (pos n) = if ltb (length prog) n then none else some n

-- `getJumpOffset`; a parameter of fewer than two bytes is read out of range.
unfoldable pub get_jump_offset : Context → List ℕ → ℕ → Option ℕ
get_jump_offset ctx parameter extra =
    if ltb (length parameter) 2
    then none
    else checked_offset ctx.prog
        (pos ctx.ip +ℤ of_u16 (get_or parameter 0 0 + 256 * get_or parameter 1 0) +ℤ pos extra)

abbrev pub jump_if : Context → ℕ → Bool → Context
jump_if ctx offset cond = if cond then record ctx { nextip = offset } else ctx

-- The condition of the jump; JMP takes nothing from the stack.
abbrev pub condition : ℕ → Proc (List Item) Bool
condition op s =
    if op == Opcode.jmp
    then some (true, s)
    else (pop_bool >>= λ b. pure (if op == Opcode.jmpif then b else not b)) s

unfoldable pub jump : ℕ → Context → List ℕ → Proc (List Item) Context
jump op ctx parameter s = elim (get_jump_offset ctx parameter 0) [
  | none ↦ none
  | some offset ↦ (condition op >>= λ cond. pure (jump_if ctx offset cond)) s
]

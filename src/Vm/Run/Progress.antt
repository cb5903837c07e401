-- ===== src/Vm/Run/Progress.antt =====
-- A script without jumps ends (pkg/vm/vm.go, Run).
use neovm.Prelude.{
  ℕ, zero, suc, ◌+◌, ◌-◌, ◌≤◌, ◌<◌, ◌≡◌, ◌≢◌, refl, ap, false, Option, none, some, List, [], ◌∷◌,
  length, get_or, ltb, leb, arith, Bool-cases, inl, inr, All,
}
use neovm.Vm.Opcode
use neovm.Vm.Context.{Context, Fetched, Operand, next, read_operand, operand_of, at_break_point}
use neovm.Vm.Context.Bounds.{Advances, next-Advances}
use neovm.Vm.Push.{pushed}
use neovm.Vm.Machine.Numeric.{numeric}
use neovm.Vm.Machine.Logic.{logic}
use neovm.Vm.Machine.Splice.{splice}
use neovm.Vm.Machine.Moves.{Stacks, moves}
use neovm.Vm.Run.{
  Vm, Cycle, size, size_with, runs, halts, faults, other, stopped, failed, unmodelled, no_fuel,
  max_stack_size, cycled, returned, is_jump_op, execute, executed, step, loop, run, load, has_flag,
}
use neovm.Vm.Run.Invariant.{execute-cases, next-end}

abbrev code_of : Fetched → ℕ
code_of (Fetched.instruction i p) = i
code_of (Fetched.no_inst_param i) = i
code_of (Fetched.too_big i) = i

read_operand-code : (c : Context) (i : ℕ) (o : Operand) → code_of (read_operand c i o).1 ≡ i
unfolding read_operand
read_operand-code c i Operand.absent = refl
read_operand-code c i (Operand.missing at) = refl
read_operand-code c i (Operand.oversized at) = refl
read_operand-code c i (Operand.operand n at) =
    elim (Bool-cases (leb (length c.prog + 1) (at + n))) [ inl e ↦ rw e refl | inr e ↦ rw e refl ]

All-get_or {κ} :
    {A : Type 0} (P : A → Type κ) (xs : List A) (i : ℕ) (d : A)
    → All P xs
    → i < length xs
    → P (get_or xs i d)
All-get_or P [] i d h l = absurd (omega arith)
All-get_or P (x ∷ xs) zero d (h, hs) l = h
All-get_or P (x ∷ xs) (suc i) d (h, hs) l = All-get_or P xs i d hs (omega arith)

-- No byte of the script is the code of a jump.
abbrev pub IsStraight : List ℕ → Type 0
IsStraight prog = All (λ b. is_jump_op b ≡ false) prog

-- What an instruction that does not jump leaves: the context that `Next` made.
abbrev Keeps : Context → Cycle → Type 0
Keeps c (runs w) = w.context ≡ c
Keeps c (halts w) = Unit {0}
Keeps c faults = Unit {0}
Keeps c other = Unit {0}

cycled-Keeps : (v : Vm) (o : Option (Unit {0} × Stacks)) → Keeps v.context (cycled v o)
cycled-Keeps v none = tt
cycled-Keeps v (some (u, s)) = elim (Bool-cases (ltb max_stack_size (size_with v s))) [
  | inl e ↦ rw e tt
  | inr e ↦ rw e refl
]

-- The end of the script is not run past.
IsOver : Cycle → Type 0
IsOver (runs w) = ⊥
IsOver (halts w) = Unit {0}
IsOver faults = Unit {0}
IsOver other = Unit {0}

returned-IsOver : (v : Vm) → IsOver (returned v)
unfolding IsOver
returned-IsOver v = elim (Bool-cases (ltb max_stack_size (size v))) [
  | inl e ↦ rw e tt
  | inr e ↦ rw e tt
]

Keeps-over : (c : Context) (x : Cycle) → IsOver x → Keeps c x
unfolding IsOver
Keeps-over c (runs w) h = absurd h
Keeps-over c (halts w) h = tt
Keeps-over c faults h = tt
Keeps-over c other h = tt

executed-Keeps :
    (v : Vm) (c : Context) (f : Fetched)
    → is_jump_op (code_of f) ≡ false
    → Keeps c (executed v (c, f))
executed-Keeps v c (Fetched.instruction op parameter) h =
    let u : Vm = record v { context = c } in
    execute-cases (Keeps c) op parameter u (cycled-Keeps u) (λ j. absurd (cc))
      (Keeps-over c _ (returned-IsOver u)) tt tt
executed-Keeps v c (Fetched.no_inst_param op) h = tt
executed-Keeps v c (Fetched.too_big op) h = tt

next-code : (c : Context) → c.nextip < length c.prog → code_of (next c).1 ≡ get_or c.prog c.nextip 0
unfolding next
next-code c h =
    let more : leb (length c.prog) c.nextip ≡ false = ground arith in
    rw more (
      read_operand-code (record c { ip = c.nextip; nextip = c.nextip + 1 })
        (get_or c.prog c.nextip 0) (operand_of (get_or c.prog c.nextip 0) c.prog (c.nextip + 1)))

-- An instruction of a straight script is behind the one before it.
abbrev Onward : Vm → Cycle → Type 0
Onward v (runs w) =
    (v.context.nextip < w.context.nextip)
    × (w.context.nextip ≤ length w.context.prog)
    × (w.context.prog ≡ v.context.prog)
Onward v (halts w) = Unit {0}
Onward v faults = Unit {0}
Onward v other = Unit {0}

Onward-kept : (v : Vm) (c : Context) (x : Cycle) → Advances v.context c → Keeps c x → Onward v x
Onward-kept v c (runs w) a k = rw k (a.forward, a.inside, a.same_script)
Onward-kept v c (halts w) a k = tt
Onward-kept v c faults a k = tt
Onward-kept v c other a k = tt

Onward-over : (v : Vm) (x : Cycle) → IsOver x → Onward v x
unfolding IsOver
Onward-over v (runs w) h = absurd h
Onward-over v (halts w) h = tt
Onward-over v faults h = tt
Onward-over v other h = tt

pub execute-ret : (v : Vm) → execute Opcode.ret none v ≡ returned v
unfolding execute pushed numeric logic splice moves
execute-ret v = refl

step-Onward : (v : Vm) → IsStraight v.context.prog → Onward v (step v)
unfolding step
step-Onward v straight = elim (Bool-cases (leb (length v.context.prog) v.context.nextip)) [
  | inl ended ↦
      let u : Vm = record v { context = record v.context { ip = v.context.nextip } } in
      rw (step, next-end v.context (ground arith), execute-ret u)
        (Onward-over v (returned u) (returned-IsOver u))
  | inr more ↦ Onward-kept v (next v.context).0 _ (next-Advances v.context (ground arith)) (
      executed-Keeps v (next v.context).0 (next v.context).1 (
        rw (next-code v.context (ground arith))
          (All-get_or _ v.context.prog v.context.nextip 0 straight (ground arith))))
]

loop_ends :
    (fuel : ℕ) (v : Vm)
    → IsStraight v.context.prog
    → v.context.nextip ≤ length v.context.prog
    → length v.context.prog - v.context.nextip < fuel
    → loop fuel v ≢ no_fuel
unfolding loop
loop_ends zero v s i h = absurd (omega arith)
loop_ends (suc fuel) v s i h = elim (Bool-cases (at_break_point v.context)) [
  | inl stop ↦ rw stop (λ e. cc)
  | inr go ↦ rw go (
      after (step v) (step-Onward v s)
        (λ w straight inside few. loop_ends fuel w straight inside few))
]
  where
    after :
        (x : Cycle)
        → Onward v x
        → ((w : Vm)
            → IsStraight w.context.prog
            → w.context.nextip ≤ length w.context.prog
            → length w.context.prog - w.context.nextip < fuel
            → loop fuel w ≢ no_fuel)
        → (elim x [
          | runs w ↦ loop fuel w
          | halts w ↦ stopped w
          | faults ↦ failed
          | other ↦ unmodelled
        ])
          ≢ no_fuel
    after (runs w) (further, inside, same) ih =
        ih w (rw same s) inside (omega (arith, ap length same))
    after (halts w) o ih = λ e. cc
    after faults o ih = λ e. cc
    after other o ih = λ e. cc

-- A script none of whose bytes is the code of a jump, loaded in any machine, stops, fails or leaves
-- the model, on any fuel that is more than its length.
pub run_ends :
    (v : Vm) (prog : List ℕ) (fuel : ℕ)
    → IsStraight prog
    → length prog < fuel
    → run fuel (load prog v) ≢ no_fuel
unfolding run load has_flag
run_ends v prog fuel s h = loop_ends fuel (load prog v) s (omega arith) (omega arith)

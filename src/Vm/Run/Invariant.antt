-- ===== src/Vm/Run/Invariant.antt =====
-- What holds of the machine (pkg/vm/vm.go) after any number of instructions.
use neovm.Prelude.{
  ℕ, ◌+◌, ◌≤◌, ◌≡◌, refl, subst, Bool, true, false, Option, none, some, List, ◌∷◌, length, ltb,
  ◌==◌, if◌then◌else◌, arith, Bool-cases, Option-cases, inl, inr, le→leb, resume,
}
use neovm.Prelude.Int.{ℤ, pos, negsuc}
use neovm.Vm.Opcode
use neovm.Vm.Context.{Context, Fetched, next}
use neovm.Vm.Context.Bounds.{next-Advances}
use neovm.Vm.Push
use neovm.Vm.Push.{pushed}
use neovm.Vm.Machine.Items.{Item}
use neovm.Vm.Machine.Numeric.{numeric}
use neovm.Vm.Machine.Logic.{logic}
use neovm.Vm.Machine.Moves.{Stacks, on_estack, moves}
use neovm.Vm.Machine.Splice.{splice}
use neovm.Vm.Machine.Jumps.{jump, get_jump_offset, jump_if, condition, checked_offset}
use neovm.Vm.Run.{
  Vm, Cycle, size, size_with, runs, halts, faults, other, max_stack_size, cycled, jumped, returned,
  item_of, is_jump_op, execute, executed, step,
}

-- The next instruction is in the script or at its end.
abbrev pub IsInside : Context → Type 0
IsInside c = c.nextip ≤ length c.prog

-- There are no more items than MaxStackSize.
abbrev pub IsBounded : Stacks → Type 0
IsBounded s = length s.0 + length s.1 ≤ max_stack_size

-- After an instruction that runs or halts.
abbrev pub IsSound : List ℕ → Cycle → Type 0
IsSound prog (runs w) = IsInside w.context × (w.context.prog ≡ prog) × IsBounded w.stacks
IsSound prog (halts w) = IsBounded w.stacks
IsSound prog faults = Unit {0}
IsSound prog other = Unit {0}

not-ltb→le : (a b : ℕ) → ltb a b ≡ false → b ≤ a
not-ltb→le a b h = ground arith

-- The counter is no less than the number of items.
size_with-IsBounded :
    (v : Vm) (s : Stacks) → ltb max_stack_size (size_with v s) ≡ false → IsBounded s
size_with-IsBounded v s h = ground arith

cycled-IsSound :
    (v : Vm) (o : Option (Unit {0} × Stacks))
    → IsInside v.context
    → IsSound v.context.prog (cycled v o)
cycled-IsSound v none h = tt
cycled-IsSound v (some (u, s)) h = elim (Bool-cases (ltb max_stack_size (size_with v s))) [
  | inl e ↦ rw e tt
  | inr e ↦ rw e (h, refl, size_with-IsBounded v s e)
]

returned-IsSound : (v : Vm) → IsSound v.context.prog (returned v)
returned-IsSound v = elim (Bool-cases (ltb max_stack_size (size v))) [
  | inl e ↦ rw e tt
  | inr e ↦ rw e (size_with-IsBounded v v.stacks e)
]

checked_offset-le :
    (prog : List ℕ) (z : ℤ) (offset : ℕ)
    → checked_offset prog z ≡ some offset
    → offset ≤ length prog
checked_offset-le prog (negsuc n) offset h = cc
checked_offset-le prog (pos n) offset h = ground arith

-- The offset of a jump is in the script or at its end.
get_jump_offset-le :
    (c : Context) (parameter : List ℕ) (extra offset : ℕ)
    → get_jump_offset c parameter extra ≡ some offset
    → offset ≤ length c.prog
unfolding get_jump_offset
get_jump_offset-le c parameter extra offset h = go (ltb (length parameter) 2) _ h
  where
    go :
        (short : Bool) (z : ℤ)
        → (if short then none else checked_offset c.prog z) ≡ some offset
        → offset ≤ length c.prog
    go true z e = cc
    go false z e = checked_offset-le c.prog z offset e

jumped-IsSound :
    (v : Vm) (op : ℕ) (parameter : List ℕ)
    → IsInside v.context
    → IsSound v.context.prog (jumped v (jump op v.context parameter v.stacks.0))
unfolding jump
jumped-IsSound v op parameter h = elim (Option-cases (get_jump_offset v.context parameter 0)) [
  | inl e ↦ rw (jump, e) tt
  | inr (offset, e) ↦
      rw (jump, e)
        (taken offset (get_jump_offset-le v.context parameter 0 offset e) (condition op v.stacks.0))
]
  where
    taken :
        (offset : ℕ)
        → offset ≤ length v.context.prog
        → (o : Option (Bool × List Item))
        → IsSound v.context.prog
            (jumped v (resume (λ cond e. some (jump_if v.context offset cond, e)) o))
    taken offset le none = tt
    taken offset le (some (cond, e)) =
        elim (Bool-cases (ltb max_stack_size (size_with v (e, v.stacks.1)))) [
          | inl big ↦ rw big tt
          | inr small ↦
              rw small (inside cond, same cond, size_with-IsBounded v (e, v.stacks.1) small)
        ]
      where
        inside : (cond : Bool) → IsInside (jump_if v.context offset cond)
        inside true = le
        inside false = h

        same : (cond : Bool) → (jump_if v.context offset cond).prog ≡ v.context.prog
        same true = refl
        same false = refl

-- A test of an option, and of a Boolean, by cases.
by_option :
    {A : Type 0} (P : Cycle → Type 0) (o : Option A) (f : A → Cycle) (d : Cycle)
    → ((a : A) → P (f a))
    → P d
    → P (elim o [ some a ↦ f a | none ↦ d ])
by_option P none f d h k = k
by_option P (some a) f d h k = h a

by_bool :
    (P : Cycle → Type 0) (b : Bool) (c d : Cycle)
    → (b ≡ true → P c)
    → (b ≡ false → P d)
    → P (if b then c else d)
by_bool P true c d h k = h refl
by_bool P false c d h k = k refl

-- The ways in which `execute` ends.
pub execute-cases :
    (P : Cycle → Type 0) (op : ℕ) (parameter : Option (List ℕ)) (v : Vm)
    → ((o : Option (Unit {0} × Stacks)) → P (cycled v o))
    → (is_jump_op op ≡ true
        → P (jumped v (jump op v.context (Push.parameter_of parameter) v.stacks.0)))
    → P (returned v)
    → P faults
    → P other
    → P (execute op parameter v)
unfolding execute
execute-cases P op parameter v plain jumps ends fails leaves =
    by_option P (pushed op parameter) _ _
      (λ p. plain (some (tt, (item_of p ∷ v.stacks.0, v.stacks.1))))
      (by_option P (numeric op) _ _ (λ f. plain (on_estack f v.stacks))
        (by_option P (logic op) _ _ (λ f. plain (on_estack f v.stacks))
          (by_option P (splice op) _ _ (λ f. plain (on_estack f v.stacks))
            (by_option P (moves op) _ _ (λ f. plain (f v.stacks))
              (by_bool P (is_jump_op op) _ _ jumps (λ _.
                by_bool P (op == Opcode.nop) _ _ (λ _. plain (some (tt, v.stacks)))
                  (λ _.
                    by_bool P (op == Opcode.ret) _ _ (λ _. ends)
                      (λ _. by_bool P (op == Opcode.throw) _ _ (λ _. fails) (λ _. leaves)))))))))

execute-IsSound :
    (op : ℕ) (parameter : Option (List ℕ)) (v : Vm)
    → IsInside v.context
    → IsSound v.context.prog (execute op parameter v)
execute-IsSound op parameter v h =
    execute-cases (IsSound v.context.prog) op parameter v (λ o. cycled-IsSound v o h)
      (λ _. jumped-IsSound v op _ h) (returned-IsSound v) tt tt

-- `Next` behind the end of the script gives RET and stays there.
pub next-end :
    (c : Context)
    → length c.prog ≤ c.nextip
    → next c ≡ (record c { ip = c.nextip }, Fetched.instruction Opcode.ret none)
unfolding next
next-end c h = rw (le→leb (length c.prog) c.nextip h)

executed-IsSound :
    (v : Vm) (c : Context) (f : Fetched) → IsInside c → IsSound c.prog (executed v (c, f))
executed-IsSound v c (Fetched.instruction op parameter) h =
    execute-IsSound op parameter (record v { context = c }) h
executed-IsSound v c (Fetched.no_inst_param op) h = tt
executed-IsSound v c (Fetched.too_big op) h = tt

step-IsSound : (v : Vm) → IsInside v.context → IsSound v.context.prog (step v)
unfolding step
step-IsSound v h = elim (Bool-cases (ltb v.context.nextip (length v.context.prog))) [
  | inl more ↦
      let moved = next-Advances v.context (ground arith) in
      subst (λ prog. IsSound prog (step v)) moved.same_script
        (executed-IsSound v (next v.context).0 (next v.context).1 moved.inside)
  | inr ended ↦
      rw (step, next-end v.context (not-ltb→le _ _ ended))
        (executed-IsSound v (record v.context { ip = v.context.nextip })
          (Fetched.instruction Opcode.ret none) h)
]

-- The machine after some instructions that run, and where it stops or goes on.
pub data Reach (v : Vm) : Cycle → Type 0 where
  here : Reach v (runs v)
  onward : {w : Vm} {c : Cycle} → Reach v (runs w) → step w ≡ c → Reach v c

-- From a machine with the next instruction in the script or at its end and with no more items than
-- MaxStackSize, every machine that instructions lead to, running or halted, has no more items than
-- MaxStackSize, and one that runs has the same script and the next instruction in it or at its end.
pub Reach-IsSound :
    {v : Vm} {c : Cycle}
    → IsInside v.context
    → IsBounded v.stacks
    → Reach v c
    → IsSound v.context.prog c
Reach-IsSound inside bounded here = (inside, refl, bounded)
Reach-IsSound inside bounded (onward {w} r e) =
    let (h, same, b) = Reach-IsSound inside bounded r in rw⁻¹ (e, same) (step-IsSound w h)

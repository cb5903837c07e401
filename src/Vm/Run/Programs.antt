-- ===== src/Vm/Run/Programs.antt =====
-- Scripts that the emitter writes (pkg/vm/emit) run by the machine (pkg/vm).
use neovm.Prelude.{
  ℕ, suc, ◌+◌, ◌≤◌, ◌<◌, ◌≡◌, refl, sym, ap, ◌∙◌, true, false, Option, none, some, List, [], ◌∷◌,
  ◌++◌, length, ltb, arith, append_assoc, length-append, append-nil, ◌>>◌, Proc,
}
use neovm.Prelude.Int.{ℤ, pos, negsuc, IsI64, ◌-ℤ◌, abs_ℕ}
use neovm.Io.Writer.{Write, writer}
use neovm.Emit.Bigint.{int_to_bytes}
use neovm.Emit.Bigint.Length.{length-int_to_bytes}
use neovm.Emit.Instructions.{emit_int, opcode}
use neovm.Emit.Instructions.Decoding.{Emits, standing, passed}
use neovm.Emit.Instructions.Integers.{Pushes, Emits-opcode, emit_int-Pushes}
use neovm.Vm.Opcode
use neovm.Vm.Context.{
  Context, Fetched, next, operand_of, is_jump, at_break_point, mem_ip, max_item_size, new_context,
}
use neovm.Vm.Push
use neovm.Vm.Push.{Pushed, pushed, big_int}
use neovm.Vm.Machine.Items.{Item, integer, as_int}
use neovm.Vm.Machine.Numeric.{numeric, sub}
use neovm.Vm.Machine.Numeric.Bounds.{limit, pop_checked-within, push_checked-within}
use neovm.Vm.Machine.Moves.{Stacks, on_estack}
use neovm.Vm.Run.{
  Vm, runs, halts, max_stack_size, halt_state, cycled, item_of, execute, step, stopped, loop, run,
  load, has_flag, size, size_with,
}
use neovm.Vm.Run.Invariant.{next-end}
use neovm.Vm.Run.Progress.{execute-ret}

as_int-item_of : (p : Pushed) → as_int (item_of p) ≡ some (big_int p)
unfolding as_int big_int
as_int-item_of (Push.byte_array b) = refl
as_int-item_of (Push.integer z) = refl

next-Emits :
    {f : Write} {i : ℕ} {p : Option (List ℕ)} (e : Emits f i p) (c : Context)
    (prog before after : List ℕ) (at : ℕ)
    → prog ≡ before ++ (e.code ++ after)
    → at ≡ length before
    → next (standing c prog at) ≡ (passed c prog at (at + length e.code), Fetched.instruction i p)
next-Emits e c prog before after at whole place = rw (whole, place) (e.decodes before after c)

-- The machine at an instruction that was emitted, with its stacks.
abbrev placed : ℕ → Context → List ℕ → ℕ → Stacks → Vm
placed over c prog at s = record {
  state = 0;
  ready = true;
  context = standing c prog at;
  stacks = s;
  left_over = over;
}

abbrev later : ℕ → Context → List ℕ → ℕ → ℕ → Stacks → Vm
later over c prog at end s = record {
  state = 0;
  ready = true;
  context = passed c prog at end;
  stacks = s;
  left_over = over;
}

cycled-runs :
    (v : Vm) (s : Stacks)
    → size_with v s ≤ max_stack_size
    → cycled v (some (tt, s)) ≡ runs (record v { stacks = s })
cycled-runs v s h =
    let small : ltb max_stack_size (size_with v s) ≡ false = ground arith in rw small refl

module _ (over : ℕ) (c : Context) (prog before after : List ℕ) (at : ℕ)
    (place : at ≡ length before) where
  -- A push that was emitted.
  step-Pushes :
      {f : Write} {z : ℤ} (p : Pushes f z) (s : Stacks)
      → prog ≡ before ++ (p.emits.code ++ after)
      → length s.0 + length s.1 + over < max_stack_size
      → step (placed over c prog at s)
        ≡ runs (later over c prog at (at + length p.emits.code) (item_of p.item ∷ s.0, s.1))
  unfolding step execute
  step-Pushes p s whole h =
      rw (next-Emits p.emits c prog before after at whole place, execute, p.pushes)
        (cycled-runs (later over c prog at (at + length p.emits.code) s) (item_of p.item ∷ s.0, s.1)
          (omega arith))

  -- A numeric instruction.
  step-numeric :
      {f : Write} {i : ℕ} (e : Emits f i none) (s t : Stacks) (g : Proc (List Item) (Unit {0}))
      → prog ≡ before ++ (e.code ++ after)
      → pushed i none ≡ none
      → numeric i ≡ some g
      → on_estack g s ≡ some (tt, t)
      → length t.0 + length t.1 + over ≤ max_stack_size
      → step (placed over c prog at s) ≡ runs (later over c prog at (at + length e.code) t)
  unfolding step execute
  step-numeric e s t g whole no_push num done h =
      rw (next-Emits e c prog before after at whole place, execute, no_push, num, done)
        (cycled-runs (later over c prog at (at + length e.code) s) t h)

-- The end of the script.
step_end :
    (over : ℕ) (c : Context) (prog : List ℕ) (at : ℕ) (s : Stacks)
    → length prog ≤ at
    → length s.0 + length s.1 + over ≤ max_stack_size
    → (v : Vm) × (step (placed over c prog at s) ≡ halts v)
      × (v.state ≡ halt_state)
      × (v.stacks ≡ s)
unfolding step
step_end over c prog at s behind h =
    let u = later over c prog at at s in
    let small : ltb max_stack_size (size u) ≡ false = ground arith in
    (
      record u { state = halt_state; ready = false },
      rw (next-end (standing c prog at) behind, execute-ret u, small) refl,
      refl,
      refl,
    )

-- Without break points, the loop goes on or stops with the instruction.
no_break : (c : Context) → c.break_points ≡ [] → at_break_point c ≡ false
unfolding at_break_point mem_ip
no_break c h = rw (at_break_point, h) refl

loop-runs :
    (fuel : ℕ) (v w : Vm)
    → v.context.break_points ≡ []
    → step v ≡ runs w
    → loop (suc fuel) v ≡ loop fuel w
unfolding loop
loop-runs fuel v w h e = rw (no_break v.context h, e) refl

loop-halts :
    (fuel : ℕ) (v w : Vm)
    → v.context.break_points ≡ []
    → step v ≡ halts w
    → loop (suc fuel) v ≡ stopped w
unfolding loop
loop-halts fuel v w h e = rw (no_break v.context h, e) refl

-- What it is for the writer `f` to write a script that the machine `v`, when it has loaded it, runs
-- until it halts, with just the integer `r` on its stack.
pub record Computes (v : Vm) (f : Write) (r : ℤ) (fuel : ℕ) : Type 0 where
  pub script : List ℕ
  pub writes : f (writer []) ≡ some (tt, writer script)
  pub final : Vm
  pub stops : run fuel (load script v) ≡ stopped final
  pub halted : final.state ≡ halt_state
  pub result : final.stacks ≡ (integer r ∷ [], [])

-- Two integers and an instruction on them.
program-Computes :
    (v : Vm) (i : ℕ) (g : Proc (List Item) (Unit {0})) (a b r : ℤ) (n : ℕ)
    → size v + 2 ≤ max_stack_size
    → Emits (opcode i) i none
    → pushed i none ≡ none
    → numeric i ≡ some g
    → Pushes (emit_int a) a
    → Pushes (emit_int b) b
    → ((x y : Item)
        → as_int x ≡ some a
        → as_int y ≡ some b
        → g (y ∷ x ∷ []) ≡ some (tt, integer r ∷ []))
    → Computes v (emit_int a >> (emit_int b >> opcode i)) r (suc (suc (suc (suc n))))
unfolding run load has_flag
program-Computes v i g a b r n room e no_push num p q works =
    let over : ℕ = size v in
    let ca = p.emits.code in
    let cb = q.emits.code in
    let prog = ca ++ (cb ++ (e.code ++ [])) in
    let c0 = new_context prog in
    let at1 = 0 + length ca in
    let at2 = at1 + length cb in
    let at3 = at2 + length e.code in
    let c1 = passed c0 prog 0 at1 in
    let c2 = passed c1 prog at1 at2 in
    let c3 = passed c2 prog at2 at3 in
    let x = item_of p.item in
    let y = item_of q.item in
    let value_x : as_int x ≡ some a = as_int-item_of p.item ∙ ap some p.value in
    let value_y : as_int y ≡ some b = as_int-item_of q.item ∙ ap some q.value in
    let step1 =
      step-Pushes over c0 prog [] (cb ++ (e.code ++ [])) 0 refl p ([], []) refl (omega arith) in
    let step2 =
      step-Pushes over c1 prog ca (e.code ++ []) at1 (omega arith) q (x ∷ [], []) refl
        (omega arith) in
    let step3 =
      step-numeric over c2 prog (ca ++ cb) [] at2 (omega (arith, length-append ca cb)) e
        (y ∷ x ∷ [], []) (integer r ∷ [], []) g (sym (append_assoc ca cb (e.code ++ []))) no_push
        num (rw (on_estack, works x y value_x value_y) refl) (omega arith) in
    let whole : length prog ≤ at3 = omega (
      arith,
      length-append ca (cb ++ (e.code ++ [])),
      length-append cb (e.code ++ []),
      length-append e.code [],
    ) in
    let (final, step4, halted, result) =
      step_end over c3 prog at3 (integer r ∷ [], []) whole (omega arith) in
    record {
      script = prog;
      writes =
          rw (p.emits.writes [], q.emits.writes ca, e.writes (ca ++ cb))
            (ap (λ s. some (tt, writer s))
              (append_assoc ca cb e.code ∙ ap (λ s. ca ++ (cb ++ s)) (sym (append-nil e.code))));
      final = final;
      stops =
          loop-runs (suc (suc (suc n))) (placed over c0 prog 0 ([], [])) _ refl step1
          ∙ loop-runs (suc (suc n)) (placed over c1 prog at1 (x ∷ [], [])) _ refl step2
          ∙ loop-runs (suc n) (placed over c2 prog at2 (y ∷ x ∷ [], [])) _ refl step3
          ∙ loop-halts n (placed over c3 prog at3 (integer r ∷ [], [])) final refl step4;
      halted = halted;
      result = result;
    }

fits_limit : (z : ℤ) → IsI64 z → abs_ℕ z < limit
fits_limit (pos n) h = omega arith
fits_limit (negsuc n) h = omega arith

difference-limit : (a b : ℤ) → IsI64 a → IsI64 b → abs_ℕ (a -ℤ b) < limit
unfolding ◌-ℤ◌
difference-limit (pos m) (pos n) h k = ground arith
difference-limit (pos m) (negsuc n) h k = ground arith
difference-limit (negsuc m) (pos n) h k = ground arith
difference-limit (negsuc m) (negsuc n) h k = ground arith

short : (z : ℤ) → IsI64 z → length (int_to_bytes z) ≤ max_item_size
short z h = let few = length-int_to_bytes z h in omega arith

-- For any two int64 integers, the script that Int, Int and Opcode(SUB) write, loaded in any machine
-- whose counter of items is at least two below MaxStackSize, halts after four cycles, with just the
-- difference on its stack.
pub sub-Computes :
    (v : Vm) (a b : ℤ) (n : ℕ)
    → size v + 2 ≤ max_stack_size
    → IsI64 a
    → IsI64 b
    → Computes v
        (emit_int a >> (emit_int b >> opcode Opcode.sub))
        (a -ℤ b)
        (suc (suc (suc (suc n))))
unfolding numeric pushed operand_of is_jump sub
sub-Computes v a b n room ia ib =
    program-Computes v Opcode.sub sub a b (a -ℤ b) n room
      (Emits-opcode Opcode.sub (λ prog at. refl)) refl refl (emit_int-Pushes a (short a ia))
      (emit_int-Pushes b (short b ib))
      (λ x y ex ey.
        rw
          (
            pop_checked-within y b (x ∷ []) ey (fits_limit b ib),
            pop_checked-within x a [] ex (fits_limit a ia),
          )
          (push_checked-within (a -ℤ b) [] (difference-limit a b ia ib)))

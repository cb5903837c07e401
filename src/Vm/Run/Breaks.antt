-- ===== src/Vm/Run/Breaks.antt =====
-- Run (pkg/vm/vm.go) and break points.
use neovm.Prelude.{
  ℕ, zero, suc, ◌≡◌, refl, sym, ap, subst, ◌∙◌, Bool, true, Option, none, some, List, ltb, ◌==◌,
  if◌then◌else◌, Bool-cases, inl, inr,
}
use neovm.Vm.Context.{Context, Fetched, next, at_break_point}
use neovm.Vm.Machine.Moves.{Stacks}
use neovm.Vm.Machine.Items.{Item}
use neovm.Vm.Run.{
  Vm, Cycle, size, size_with, runs, halts, faults, other, Outcome, stopped, failed, unmodelled,
  no_fuel, max_stack_size, halt_state, break_state, fault_state, none_state, cycled, jumped,
  returned, executed, step, loop, run, has_flag,
}
use neovm.Vm.Run.Invariant.{execute-cases}

-- An instruction leaves the context where it is, or ends the run in the state of one that halts.
abbrev pub IsKept : Bool → Cycle → Type 0
IsKept r (runs w) = w.ready ≡ r
IsKept r (halts w) = w.state ≡ halt_state
IsKept r faults = Unit {0}
IsKept r other = Unit {0}

cycled-IsKept : (v : Vm) (o : Option (Unit {0} × Stacks)) → IsKept v.ready (cycled v o)
cycled-IsKept v none = tt
cycled-IsKept v (some (u, s)) = elim (Bool-cases (ltb max_stack_size (size_with v s))) [
  | inl e ↦ rw e tt
  | inr e ↦ rw e refl
]

jumped-IsKept : (v : Vm) (o : Option (Context × List Item)) → IsKept v.ready (jumped v o)
jumped-IsKept v none = tt
jumped-IsKept v (some (c, e)) =
    elim (Bool-cases (ltb max_stack_size (size_with v (e, v.stacks.1)))) [
      | inl big ↦ rw big tt
      | inr small ↦ rw small refl
    ]

returned-IsKept : (v : Vm) → IsKept v.ready (returned v)
returned-IsKept v = elim (Bool-cases (ltb max_stack_size (size v))) [
  | inl e ↦ rw e tt
  | inr e ↦ rw e refl
]

executed-IsKept : (v : Vm) (c : Context) (f : Fetched) → IsKept v.ready (executed v (c, f))
executed-IsKept v c (Fetched.instruction op parameter) =
    let u : Vm = record v { context = c } in
    execute-cases (IsKept v.ready) op parameter u (cycled-IsKept u) (λ j. jumped-IsKept u _)
      (returned-IsKept u) tt tt
executed-IsKept v c (Fetched.no_inst_param op) = tt
executed-IsKept v c (Fetched.too_big op) = tt

pub step-IsKept : (v : Vm) → IsKept v.ready (step v)
unfolding step
step-IsKept v = executed-IsKept v (next v.context).0 (next v.context).1

-- At a break point, with its context.
abbrev Breaks : Vm → ℕ → Type 0
Breaks w s =
    if s == break_state then (at_break_point w.context ≡ true) × (w.ready ≡ true) else Unit {0}

-- What the loop stops with: a machine at a break point, or one that has halted.
abbrev Stands : Outcome → Type 0
Stands (stopped w) = Breaks w w.state
Stands failed = Unit {0}
Stands unmodelled = Unit {0}
Stands no_fuel = Unit {0}

loop-Stands : (fuel : ℕ) (v : Vm) → v.ready ≡ true → Stands (loop fuel v)
unfolding loop
loop-Stands zero v ready = tt
loop-Stands (suc fuel) v ready = elim (Bool-cases (at_break_point v.context)) [
  | inl here ↦ rw (loop, here) (here, ready)
  | inr away ↦ rw (loop, away) (after (step v) (step-IsKept v) (λ w. loop-Stands fuel w))
]
  where
    after :
        (x : Cycle)
        → IsKept v.ready x
        → ((w : Vm) → w.ready ≡ true → Stands (loop fuel w))
        → Stands (elim x [
          | runs w ↦ loop fuel w
          | halts w ↦ stopped w
          | faults ↦ failed
          | other ↦ unmodelled
        ])
    after (runs w) h ih = ih w (h ∙ ready)
    after (halts w) h ih = rw h tt
    after faults h ih = tt
    after other h ih = tt

run-Stands : (fuel : ℕ) (v : Vm) → Stands (run fuel v)
unfolding run
run-Stands fuel v = elim (Bool-cases v.ready) [
  | inl ready ↦ elim (Bool-cases (has_flag v.state fault_state)) [
    | inl e ↦ rw (run, ready, e) tt
    | inr e ↦
        rw (run, ready, e) (loop-Stands fuel (record v { state = none_state; ready = true }) refl)
  ]
  | inr away ↦ rw (run, away) tt
]

at_break :
    (w : Vm)
    → Stands (stopped w)
    → w.state ≡ break_state
    → (at_break_point w.context ≡ true) × (w.ready ≡ true)
at_break w h b = subst (Breaks w) b h

-- A machine that Run has left at a break point stays there: run again, it stops before any
-- instruction.
pub run-run_break :
    (fuel again : ℕ) (v w : Vm)
    → run fuel v ≡ stopped w
    → w.state ≡ break_state
    → run (suc again) w ≡ stopped w
unfolding run loop has_flag
run-run_break fuel again v w e b =
    let here = at_break w (subst Stands e (run-Stands fuel v)) b in
    let stops : run (suc again) w ≡ stopped (record w { state = break_state }) =
      rw (run, here.1, b, here.0) refl in
    stops ∙ ap (λ s. stopped (record w { state = s })) (sym b)

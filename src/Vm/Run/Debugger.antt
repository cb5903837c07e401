-- ===== src/Vm/Run/Debugger.antt =====
-- The steps of the debugger (pkg/vm/vm.go: StepInto, StepOver, StepOut), with one context on the
-- invocation stack, as in `Vm.Run`.
use neovm.Prelude.{
  ℕ, zero, suc, ◌+◌, ◌≡◌, refl, ap, subst, ◌∙◌, Bool, true, false, ◌||◌, ◌&&◌, ◌==◌, if◌then◌else◌,
  Bool-cases, inl, inr, Option, none, some, List, ◌∷◌, ltb, leb,
}
use neovm.Vm.Opcode
use neovm.Vm.Context.{Context, Fetched, next, at_break_point}
use neovm.Vm.Push
use neovm.Vm.Push.{pushed}
use neovm.Vm.Machine.Items.{Item}
use neovm.Vm.Machine.Numeric.{numeric}
use neovm.Vm.Machine.Logic.{logic}
use neovm.Vm.Machine.Moves.{Stacks, on_estack, moves}
use neovm.Vm.Machine.Splice.{splice}
use neovm.Vm.Machine.Jumps.{jump}
use neovm.Vm.Run.{
  Vm, Cycle, runs, halts, faults, other, none_state, halt_state, fault_state, break_state, has_flag,
  step, size, size_with, max_stack_size, cycled, jumped, returned, item_of, is_jump_op, execute,
  executed,
}
use neovm.Vm.Run.Breaks.{IsKept, step-IsKept}

-- `HasStopped`
unfoldable pub has_stopped : ℕ → Bool
has_stopped s = has_flag s halt_state || has_flag s fault_state

-- What a step leaves: the machine, an error with the fault state, an instruction that is not
-- modelled, or no fuel.
pub data Stepped : Type 0 where
  moved : Vm → Stepped
  faulted : Stepped
  unknown : Stepped
  hungry : Stepped

abbrev pub broken : Vm → Vm
broken w = if at_break_point w.context then record w { state = break_state } else w

-- `ctx == nil`: a machine without context is made to have halted.
abbrev pub halted_without : Vm → Vm
halted_without v =
    if v.ready || has_flag v.state halt_state then v else record v { state = v.state + halt_state }

-- `StepInto`, with a context whose script is not nil.
unfoldable pub step_into : Vm → Stepped
step_into v =
    let u = halted_without v in
    if has_stopped u.state then moved u else elim (step u) [
      | runs w ↦ moved (broken w)
      | halts w ↦ moved w
      | faults ↦ faulted
      | other ↦ unknown
    ]

-- The first lines of `StepOut` and `StepOver`: a break becomes no state, any other state a break.
abbrev pub toggled : Vm → Vm
toggled v =
    if v.state == break_state
    then record v { state = none_state }
    else record v { state = break_state }

abbrev pub or_break : Vm → Vm
or_break w = if w.state == none_state then record w { state = break_state } else w

-- The number of contexts on the invocation stack.
abbrev pub height : Vm → ℕ
height v = if v.ready then 1 else 0

-- The loop of `StepOver`, on fuel: it goes on in a context that was called.
unfoldable pub step_over_loop : ℕ → ℕ → Vm → Stepped
step_over_loop zero expected v = hungry
step_over_loop (suc fuel) expected v = elim (step_into v) [
  | moved w ↦
      let rest = step_over_loop fuel expected w in
      if w.state == none_state && ltb expected (height w) then rest else moved (or_break w)
  | faulted ↦ faulted
  | unknown ↦ unknown
  | hungry ↦ hungry
]

-- `StepOver`
unfoldable pub step_over : ℕ → Vm → Stepped
step_over fuel v =
    if has_stopped v.state then moved v else step_over_loop fuel (height v) (toggled v)

-- The loop of `StepOut`, on fuel.
unfoldable pub step_out_loop : ℕ → ℕ → Vm → Stepped
step_out_loop zero expected v = hungry
step_out_loop (suc fuel) expected v =
    if v.state == none_state && leb expected (height v)
    then elim (step_into v) [
      | moved w ↦ step_out_loop fuel expected w
      | faulted ↦ faulted
      | unknown ↦ unknown
      | hungry ↦ hungry
    ]
    else moved v

-- `StepOut`
unfoldable pub step_out : ℕ → Vm → Stepped
step_out fuel v = step_out_loop fuel (height v) (toggled v)

-- The machine of a cycle in another state.
abbrev restated : ℕ → Cycle → Cycle
restated t (runs w) = runs (record w { state = t })
restated t (halts w) = halts w
restated t faults = faults
restated t other = other

cycled-restated :
    (v : Vm) (t : ℕ) (o : Option (Unit {0} × Stacks))
    → cycled (record v { state = t }) o ≡ restated t (cycled v o)
cycled-restated v t none = refl
cycled-restated v t (some (u, s)) = elim (Bool-cases (ltb max_stack_size (size_with v s))) [
  | inl e ↦ rw e refl
  | inr e ↦ rw e refl
]

jumped-restated :
    (v : Vm) (t : ℕ) (o : Option (Context × List Item))
    → jumped (record v { state = t }) o ≡ restated t (jumped v o)
jumped-restated v t none = refl
jumped-restated v t (some (c, e)) =
    elim (Bool-cases (ltb max_stack_size (size_with v (e, v.stacks.1)))) [
      | inl big ↦ rw big refl
      | inr small ↦ rw small refl
    ]

returned-restated : (v : Vm) (t : ℕ) → returned (record v { state = t }) ≡ restated t (returned v)
returned-restated v t = elim (Bool-cases (ltb max_stack_size (size v))) [
  | inl e ↦ rw e refl
  | inr e ↦ rw e refl
]

-- Two cycles by the same test of an option, and of a Boolean.
pair_option :
    {A : Type 0} (t : ℕ) (o : Option A) (f g : A → Cycle) (d e : Cycle)
    → ((a : A) → g a ≡ restated t (f a))
    → e ≡ restated t d
    → elim o [ some a ↦ g a | none ↦ e ] ≡ restated t (elim o [ some a ↦ f a | none ↦ d ])
pair_option t none f g d e h k = k
pair_option t (some a) f g d e h k = h a

pair_bool :
    (t : ℕ) (b : Bool) (c c' d d' : Cycle)
    → c' ≡ restated t c
    → d' ≡ restated t d
    → (if b then c' else d') ≡ restated t (if b then c else d)
pair_bool t true c c' d d' h k = h
pair_bool t false c c' d d' h k = k

-- An instruction does not look at the state.
execute-restated :
    (op : ℕ) (parameter : Option (List ℕ)) (v : Vm) (t : ℕ)
    → execute op parameter (record v { state = t }) ≡ restated t (execute op parameter v)
unfolding execute
execute-restated op parameter v t =
    pair_option t (pushed op parameter) _ _ _ _
      (λ p. cycled-restated v t (some (tt, (item_of p ∷ v.stacks.0, v.stacks.1))))
      (pair_option t (numeric op) _ _ _ _ (λ f. cycled-restated v t (on_estack f v.stacks))
        (pair_option t (logic op) _ _ _ _ (λ f. cycled-restated v t (on_estack f v.stacks))
          (pair_option t (splice op) _ _ _ _ (λ f. cycled-restated v t (on_estack f v.stacks))
            (pair_option t (moves op) _ _ _ _ (λ f. cycled-restated v t (f v.stacks))
              (pair_bool t (is_jump_op op) _ _ _ _
                (jumped-restated v t (jump op v.context (Push.parameter_of parameter) v.stacks.0))
                (pair_bool t (op == Opcode.nop) _ _ _ _ (cycled-restated v t (some (tt, v.stacks)))
                  (pair_bool t (op == Opcode.ret) _ _ _ _ (returned-restated v t)
                    (pair_bool t (op == Opcode.throw) _ _ _ _ refl refl))))))))

executed-restated :
    (v : Vm) (t : ℕ) (c : Context) (f : Fetched)
    → executed (record v { state = t }) (c, f) ≡ restated t (executed v (c, f))
executed-restated v t c (Fetched.instruction op parameter) =
    execute-restated op parameter (record v { context = c }) t
executed-restated v t c (Fetched.no_inst_param op) = refl
executed-restated v t c (Fetched.too_big op) = refl

step-restated : (v : Vm) (t : ℕ) → step (record v { state = t }) ≡ restated t (step v)
unfolding step
step-restated v t = executed-restated v t (next v.context).0 (next v.context).1

-- What StepOver makes of a cycle: a machine that runs on is at a break.
abbrev pub over : Cycle → Stepped
over (runs w) = moved (record w { state = break_state })
over (halts w) = moved w
over faults = faulted
over other = unknown

one_context : (w : Vm) → ltb 1 (height w) ≡ false
one_context w = elim (Bool-cases w.ready) [ inl e ↦ rw e refl | inr e ↦ rw e refl ]

-- A debugger's machine behind the loop of `StepOver`.
abbrev looped : ℕ → Stepped → Stepped
looped fuel (moved w) =
    let rest = step_over_loop fuel 1 w in
    if w.state == none_state && ltb 1 (height w) then rest else moved (or_break w)
looped fuel faulted = faulted
looped fuel unknown = unknown
looped fuel hungry = hungry

looped-moved : (fuel : ℕ) (w : Vm) → looped fuel (moved w) ≡ moved (or_break w)
looped-moved fuel w = elim (Bool-cases (w.state == none_state)) [
  | inl e ↦ rw (e, one_context w) refl
  | inr e ↦ rw e refl
]

-- What `StepInto` makes of a cycle.
abbrev into : Cycle → Stepped
into (runs w) = moved (broken w)
into (halts w) = moved w
into faults = faulted
into other = unknown

data IsPausing : ℕ → Type 0 where
  running : IsPausing none_state
  breaking : IsPausing break_state

or_break-broken :
    (t : ℕ)
    → IsPausing t
    → (w : Vm) → or_break (broken (record w { state = t })) ≡ record w { state = break_state }
or_break-broken t running w = elim (Bool-cases (at_break_point w.context)) [
  | inl e ↦ rw e refl
  | inr e ↦ rw e refl
]
or_break-broken t breaking w = elim (Bool-cases (at_break_point w.context)) [
  | inl e ↦ rw e refl
  | inr e ↦ rw e refl
]

looped-over :
    (fuel t : ℕ)
    → IsPausing t
    → (x : Cycle) → IsKept true x
    → looped fuel (into (restated t x)) ≡ over x
looped-over fuel t p (runs w) k =
    looped-moved fuel (broken (record w { state = t })) ∙ ap moved (or_break-broken t p w)
looped-over fuel t p (halts w) k = looped-moved fuel w ∙ rw k refl
looped-over fuel t p faults k = refl
looped-over fuel t p other k = refl

step_into-into :
    (v : Vm) (t : ℕ)
    → IsPausing t
    → v.ready ≡ true
    → step_into (record v { state = t }) ≡ into (restated t (step v))
unfolding step_into has_stopped has_flag
step_into-into v t running ready =
    rw (step_into, ready) (ap into (step-restated (record v { ready = true }) none_state))
step_into-into v t breaking ready =
    rw (step_into, ready) (ap into (step-restated (record v { ready = true }) break_state))

step_over_loop-over :
    (fuel : ℕ) (v : Vm) (t : ℕ)
    → IsPausing t
    → v.ready ≡ true
    → step_over_loop (suc fuel) 1 (record v { state = t }) ≡ over (step v)
unfolding step_over_loop
step_over_loop-over fuel v t p ready =
    rw (step_over_loop, step_into-into v t p ready)
      (opened (into (restated t (step v)))
        ∙ looped-over fuel t p (step v) (subst (λ b. IsKept b (step v)) ready (step-IsKept v)))
  where
    opened :
        (x : Stepped)
        → (elim x [
          | moved w ↦
              let rest = step_over_loop fuel 1 w in
              if w.state == none_state && ltb 1 (height w) then rest else moved (or_break w)
          | faulted ↦ faulted
          | unknown ↦ unknown
          | hungry ↦ hungry
        ])
          ≡ looped fuel x
    opened (moved w) = refl
    opened faulted = refl
    opened unknown = refl
    opened hungry = refl

-- For a machine that has a context and has neither halted nor failed, on any fuel but zero,
-- StepOver does what one instruction does, also at a break point: a machine that runs on is left as
-- the instruction leaves it but in the state of a break, one that halts as it is, an error of the
-- instruction is returned, and an instruction that is not modelled, as are those that call, leaves
-- the model.
pub step_over-over :
    (fuel : ℕ) (v : Vm)
    → has_stopped v.state ≡ false
    → v.ready ≡ true
    → step_over (suc fuel) v ≡ over (step v)
unfolding step_over
step_over-over fuel v going ready =
    rw (step_over, going) refl
    ∙ ap (λ h. step_over_loop (suc fuel) h (toggled v)) (ap (λ b. if b then 1 else 0) ready)
    ∙ elim (Bool-cases (v.state == break_state)) [
      | inl e ↦
          ap
            (λ b.
              step_over_loop (suc fuel) 1
                (if b then record v { state = none_state } else record v { state = break_state }))
            e
          ∙ step_over_loop-over fuel v none_state running ready
      | inr e ↦
          ap
            (λ b.
              step_over_loop (suc fuel) 1
                (if b then record v { state = none_state } else record v { state = break_state }))
            e
          ∙ step_over_loop-over fuel v break_state breaking ready
    ]

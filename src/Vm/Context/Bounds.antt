-- ===== src/Vm/Context/Bounds.antt =====
-- The decoder stays inside the script and moves forward.
use neovm.Prelude.{
  ℕ, ◌+◌, ◌≤◌, ◌<◌, ◌≡◌, refl, Bool, true, false, List, length, arith, Bool-cases, inl, inr, ◌||◌,
  ◌&&◌, ◌==◌, lt→not-leb, leb, if◌then◌else◌,
}
use neovm.Vm.Opcode
use neovm.Vm.Context.{
  Context, next, operand_of, Operand, pushdata1_operand, pushdata2_operand, pushdata4_operand,
  is_jump, read_operand,
}

-- The offset that an operand names lies between two bounds.
data Within (lo hi : ℕ) : Operand → Type 0 where
  absent : Within lo hi Operand.absent
  operand : {n at : ℕ} → lo ≤ at → at ≤ hi → Within lo hi (Operand.operand n at)
  missing : {at : ℕ} → lo ≤ at → at ≤ hi → Within lo hi (Operand.missing at)
  oversized : {at : ℕ} → lo ≤ at → at ≤ hi → Within lo hi (Operand.oversized at)

module _ (prog : List ℕ) (nextip : ℕ) (inside : nextip ≤ length prog) where
  pushdata1-Within : Within nextip (length prog) (pushdata1_operand prog nextip)
  unfolding pushdata1_operand
  pushdata1-Within = elim (Bool-cases (leb (length prog) nextip)) [
    | inl e ↦ rw e (Within.missing (omega arith) inside)
    | inr e ↦ rw e (Within.operand (omega arith) (ground arith))
  ]

  pushdata2-Within : Within nextip (length prog) (pushdata2_operand prog nextip)
  unfolding pushdata2_operand
  pushdata2-Within = elim (Bool-cases (leb (length prog) (nextip + 1))) [
    | inl e ↦ rw e (Within.missing (omega arith) inside)
    | inr e ↦ rw e (Within.operand (omega arith) (ground arith))
  ]

  big-Within :
      (b : Bool) (n : ℕ)
      → nextip + 4 ≤ length prog
      → Within nextip
          (length prog)
          (if b then Operand.oversized nextip else Operand.operand n (nextip + 4))
  big-Within true n h = Within.oversized (omega arith) inside
  big-Within false n h = Within.operand (omega arith) h

  pushdata4-Within : Within nextip (length prog) (pushdata4_operand prog nextip)
  unfolding pushdata4_operand
  pushdata4-Within = elim (Bool-cases (leb (length prog) (nextip + 3))) [
    | inl e ↦ rw e (Within.missing (omega arith) inside)
    | inr e ↦ rw e (big-Within _ _ (ground arith))
  ]

  here : (n : ℕ) → Within nextip (length prog) (Operand.operand n nextip)
  here n = Within.operand (omega arith) inside

  tail-Within :
      (d e f g h : Bool) (i : ℕ)
      → Within nextip (length prog) (
          if d
          then Operand.operand 2 nextip
          else if e
          then Operand.operand 4 nextip
          else if f
          then Operand.operand 20 nextip
          else if g
          then Operand.operand 22 nextip
          else if h
          then Operand.operand i nextip
          else Operand.absent)
  tail-Within true e f g h i = here 2
  tail-Within false true f g h i = here 4
  tail-Within false false true g h i = here 20
  tail-Within false false false true h i = here 22
  tail-Within false false false false true i = here i
  tail-Within false false false false false i = Within.absent

  chain-Within :
      (a b c : Bool) {x y z w : Operand}
      → Within nextip (length prog) x
      → Within nextip (length prog) y
      → Within nextip (length prog) z
      → Within nextip (length prog) w
      → Within nextip (length prog) (if a then x else if b then y else if c then z else w)
  chain-Within true b c x y z w = x
  chain-Within false true c x y z w = y
  chain-Within false false true x y z w = z
  chain-Within false false false x y z w = w

  operand_of-Within : (i : ℕ) → Within nextip (length prog) (operand_of i prog nextip)
  unfolding operand_of
  operand_of-Within i =
      chain-Within (i == Opcode.pushdata1 || i == Opcode.syscall) (i == Opcode.pushdata2)
        (i == Opcode.pushdata4) pushdata1-Within pushdata2-Within pushdata4-Within
        (tail-Within (is_jump i) (i == Opcode.calli) (i == Opcode.appcall || i == Opcode.tailcall)
          (i == Opcode.calle || i == Opcode.callet)
          (leb Opcode.pushbytes1 i && leb i Opcode.pushbytes75) i)

-- What `Next` does to the context `c`, which stands at an instruction: the decoder has moved
-- forward and is not past the end.
pub record Advances (c c' : Context) : Type 0 where
  pub at_instruction : c'.ip ≡ c.nextip
  pub same_script : c'.prog ≡ c.prog
  pub forward : c.nextip < c'.nextip
  pub inside : c'.nextip ≤ length c'.prog

read_operand-Advances :
    (c d : Context) (i : ℕ) {o : Operand}
    → d.ip ≡ c.nextip
    → d.prog ≡ c.prog
    → d.nextip ≡ c.nextip + 1
    → d.nextip ≤ length d.prog
    → Within d.nextip (length d.prog) o
    → Advances c (read_operand d i o).0
unfolding read_operand
read_operand-Advances c d i a p n le Within.absent = ground arith
read_operand-Advances c d i a p n le (Within.operand lo hi) = ground arith
read_operand-Advances c d i a p n le (Within.missing lo hi) = ground arith
read_operand-Advances c d i a p n le (Within.oversized lo hi) = ground arith

-- With the next instruction inside the script, Next stands at that instruction, has moved forward
-- whether or not it failed, is not behind the end of the script, and keeps the script.
pub next-Advances : (c : Context) → c.nextip < length c.prog → Advances c (next c).0
unfolding next
next-Advances c h = rw (lt→not-leb (length c.prog) c.nextip h) (
    read_operand-Advances c _ _ refl refl refl (omega arith)
      (operand_of-Within c.prog (c.nextip + 1) (omega arith) _))

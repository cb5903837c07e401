-- ===== src/Vm/Contracts/Signature.antt =====
-- Which scripts are taken for a check of one signature.
use neovm.Prelude.{
  ℕ, ◌+◌, ◌≤◌, ◌<◌, ◌≡◌, refl, sym, ◌∙◌, Bool, true, false, ◌&&◌, List, length, get_or, leb, ◌==◌,
  if◌then◌else◌, arith, Bool-cases, inl, inr, le→leb, lt→not-leb, ==_iff, none,
}
use neovm.Vm.Opcode
use neovm.Vm.Context.{
  Context, Fetched, Operand, next, new_context, operand_of, read_operand, is_jump,
}
use neovm.Vm.Contracts.{fetches, ends_script, checks_signature, is_signature_contract}

-- What is fetched has the code that stands in the script.
fetches-read_operand :
    (c : Context) (i op : ℕ) (o : Operand)
    → (i == op) ≡ false
    → fetches op (read_operand c i o).1 ≡ false
unfolding read_operand
fetches-read_operand c i op Operand.absent h = h
fetches-read_operand c i op (Operand.missing at) h = refl
fetches-read_operand c i op (Operand.oversized at) h = refl
fetches-read_operand c i op (Operand.operand n at) h =
    elim (Bool-cases (leb (length c.prog + 1) (at + n))) [ inl e ↦ rw e refl | inr e ↦ rw e h ]

-- `Next` behind the end of the script.
pub next-end :
    (c : Context)
    → length c.prog ≤ c.nextip
    → next c ≡ (record c { ip = c.nextip }, Fetched.instruction Opcode.ret none)
unfolding next
next-end c h = rw (le→leb (length c.prog) c.nextip h)

-- `Next` before the end of the script.
next-inside :
    (c : Context)
    → c.nextip < length c.prog
    → next c
      ≡ read_operand
          (record c { ip = c.nextip; nextip = c.nextip + 1 })
          (get_or c.prog c.nextip 0)
          (operand_of (get_or c.prog c.nextip 0) c.prog (c.nextip + 1))
unfolding next
next-inside c h = rw (lt→not-leb (length c.prog) c.nextip h)

read_operand-ip : (c : Context) (i : ℕ) (o : Operand) → (read_operand c i o).0.ip ≡ c.ip
unfolding read_operand
read_operand-ip c i Operand.absent = refl
read_operand-ip c i (Operand.missing at) = refl
read_operand-ip c i (Operand.oversized at) = refl
read_operand-ip c i (Operand.operand n at) = elim (Bool-cases (leb (length c.prog + 1) (at + n))) [
  | inl e ↦ rw e refl
  | inr e ↦ rw e refl
]

if_false : (b : Bool) → (if b then false else false) ≡ false
if_false true = refl
if_false false = refl

and-false : (b : Bool) → (b && false) ≡ false
and-false true = refl
and-false false = refl

and-true : (b : Bool) → (b && true) ≡ b
and-true true = refl
and-true false = refl

module _ (s : List ℕ) where
  abbrev after : ℕ → ℕ → Context
  after at nextip = record (new_context s) { ip = at; nextip = nextip }

  -- The end, behind 35 bytes.
  ends_script_lem : 35 ≤ length s → ends_script s (next (after 34 35)) ≡ (length s == 35)
  ends_script_lem h = elim (Bool-cases (leb (length s) 35)) [
    | inl e ↦ rw (next-end (after 34 35) (ground arith)) (ground arith)
    | inr e ↦
        let i = get_or s 35 0 in
        let longer : (length s == 35) ≡ false = ground arith in
        let longer' : (35 == length s) ≡ false = ground arith in
        rw
          (
            next-inside (after 34 35) (ground arith),
            read_operand-ip (after 35 36) i (operand_of i s 36),
            longer,
            longer',
          )
          (if_false _)
  ]

  checks_signature_lem :
      34 ≤ length s
      → checks_signature s (next (after 0 34))
        ≡ ((length s == 35) && (get_or s 34 0 == Opcode.checksig))
  unfolding read_operand operand_of is_jump
  checks_signature_lem h = elim (Bool-cases (leb (length s) 34)) [
    | inl e ↦ rw (next-end (after 0 34) (ground arith)) (ground arith)
    | inr e ↦ elim (Bool-cases (get_or s 34 0 == Opcode.checksig)) [
      | inl sig ↦
          let code : get_or s 34 0 ≡ Opcode.checksig =
            (==_iff (get_or s 34 0) Opcode.checksig).0 sig in
          rw (next-inside (after 0 34) (ground arith), code)
            (ends_script_lem (ground arith) ∙ sym (and-true _))
      | inr other ↦
          rw
            (
              next-inside (after 0 34) (ground arith),
              fetches-read_operand (after 34 35) (get_or s 34 0) Opcode.checksig
                  (operand_of (get_or s 34 0) s 35) other,
              other,
            )
            (sym (and-false _))
    ]
  ]

  -- IsSignatureContract, which runs the decoder three times, is the test that a script has 35
  -- bytes, of which the first is PUSHBYTES33 and the last is CHECKSIG.
  pub is_signature_contract_lem : is_signature_contract s ≡ (
      ((length s == 35) && (get_or s 34 0 == Opcode.checksig))
      && (get_or s 0 0 == Opcode.pushbytes33))
  unfolding is_signature_contract read_operand operand_of is_jump
  is_signature_contract_lem = elim (Bool-cases (leb (length s) 0)) [
    | inl e ↦ rw (next-end (new_context s) (ground arith)) (ground arith)
    | inr e ↦ elim (Bool-cases (get_or s 0 0 == Opcode.pushbytes33)) [
      | inl key ↦
          let code : get_or s 0 0 ≡ Opcode.pushbytes33 =
            (==_iff (get_or s 0 0) Opcode.pushbytes33).0 key in
          elim (Bool-cases (leb (length s + 1) 34)) [
            | inl short ↦
                let shorter : (length s == 35) ≡ false = ground arith in
                rw (next-inside (new_context s) (ground arith), code, short, shorter)
            | inr long ↦
                rw (next-inside (new_context s) (ground arith), code, long)
                  (checks_signature_lem (ground arith) ∙ sym (and-true _))
          ]
      | inr other ↦
          rw
            (
              next-inside (new_context s) (ground arith),
              fetches-read_operand (after 0 1) (get_or s 0 0) Opcode.pushbytes33
                  (operand_of (get_or s 0 0) s 1) other,
              other,
            )
            (sym (and-false _))
    ]
  ]

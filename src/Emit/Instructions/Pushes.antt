-- ===== src/Emit/Instructions/Pushes.antt =====
-- The decoder of the virtual machine reads back the instructions that the emitter writes.
use neovm.Prelude.{
  ℕ, ◌+◌, ◌%◌, ◌^◌, ◌≤◌, ◌<◌, ◌≡◌, refl, ◌∙◌, none, some, List, [], ◌∷◌, ◌++◌, length, ltb, leb,
  if◌then◌else◌, put_le, from_le-put_le, length-put_le, ◌>>◌, get_or, append_assoc, append-nil,
  arith, Bool-cases, inl, inr, lt→not-leb, le→not-ltb, get_or-append_suc,
}
use neovm.Io.Writer.{write_b, write_bytes}
use neovm.Vm.Opcode
use neovm.Vm.Context.{
  Operand, operand_of, slice, max_item_size, is_jump, pushdata1_operand, pushdata2_operand,
  pushdata4_operand,
}
use neovm.Emit.Instructions.{instruction, emit_bytes}
use neovm.Emit.Instructions.Decoding.{Emits, Emits-header, header_lem, length-script, next-absent}

module _ (prog : List ℕ) (at n : ℕ) where
  operand_pushdata1 :
      at < length prog
      → get_or prog at 0 ≡ n
      → operand_of Opcode.pushdata1 prog at ≡ Operand.operand n (at + 1)
  unfolding operand_of pushdata1_operand
  operand_pushdata1 h e = rw (lt→not-leb (length prog) at h, e)

  operand_pushdata2 :
      at + 2 ≤ length prog
      → slice prog at (at + 2) ≡ put_le 2 n
      → n < 2 ^ 16
      → operand_of Opcode.pushdata2 prog at ≡ Operand.operand n (at + 2)
  unfolding operand_of pushdata2_operand
  operand_pushdata2 h e k =
      rw (lt→not-leb (length prog) (at + 1) (omega arith), e, from_le-put_le 2 n k)

  operand_pushdata4 :
      at + 4 ≤ length prog
      → slice prog at (at + 4) ≡ put_le 4 n
      → n ≤ max_item_size
      → operand_of Opcode.pushdata4 prog at ≡ Operand.operand n (at + 4)
  unfolding operand_of pushdata4_operand
  operand_pushdata4 h e k = rw (
    lt→not-leb (length prog) (at + 3) (omega arith),
    e,
    from_le-put_le 4 n (omega arith),
    le→not-ltb max_item_size n k,
  )

module _ (b : List ℕ) where
  Emits-short : 0 < length b → length b ≤ 75 → Emits (instruction (length b) b) (length b) (some b)
  unfolding instruction write_b write_bytes
  Emits-short lo hi =
      Emits-header _ (length b) [] b (λ out. rw append_assoc)
        (λ before after. unfold operand_of is_jump in ground arith)

  Emits-pushdata1 :
      length b < 256
      → Emits
          (instruction Opcode.pushdata1 (length b % 2 ^ 8 ∷ []) >> write_bytes b)
          Opcode.pushdata1
          (some b)
  unfolding instruction write_b write_bytes
  Emits-pushdata1 h =
      let header = length b % 2 ^ 8 ∷ [] in
      Emits-header _ Opcode.pushdata1 header b (λ out. simp append_assoc)
        (λ before after.
          operand_pushdata1 _ (length before + 1) (length b)
            (omega (arith, length-script before after Opcode.pushdata1 header b))
            (get_or-append_suc before Opcode.pushdata1 (length b % 2 ^ 8) 0 (b ++ after)
              ∙ omega arith))

  Emits-pushdata2 :
      length b < 0x10000
      → Emits
          (instruction Opcode.pushdata2 (put_le 2 (length b % 2 ^ 16)) >> write_bytes b)
          Opcode.pushdata2
          (some b)
  unfolding instruction write_b write_bytes put_le
  Emits-pushdata2 h =
      let low : length b % 2 ^ 16 ≡ length b = omega arith in
      rw low (
        Emits-header _ Opcode.pushdata2 (put_le 2 (length b)) b (λ out. simp append_assoc)
          (λ before after.
            operand_pushdata2 _ (length before + 1) (length b)
              (omega (
                arith,
                length-script before after Opcode.pushdata2 (put_le 2 (length b)) b,
                length-put_le 2 (length b),
              ))
              (header_lem before after Opcode.pushdata2 (put_le 2 (length b)) b) h))

  Emits-pushdata4 :
      length b ≤ max_item_size
      → Emits
          (instruction Opcode.pushdata4 (put_le 4 (length b % 2 ^ 32)) >> write_bytes b)
          Opcode.pushdata4
          (some b)
  unfolding instruction write_b write_bytes put_le
  Emits-pushdata4 h =
      let low : length b % 2 ^ 32 ≡ length b = omega arith in
      rw low (
        Emits-header _ Opcode.pushdata4 (put_le 4 (length b)) b (λ out. simp append_assoc)
          (λ before after.
            operand_pushdata4 _ (length before + 1) (length b)
              (omega (
                arith,
                length-script before after Opcode.pushdata4 (put_le 4 (length b)) b,
                length-put_le 4 (length b),
              ))
              (header_lem before after Opcode.pushdata4 (put_le 4 (length b)) b) h))

-- The code that `Bytes` chooses.
abbrev pub push_code : ℕ → ℕ
push_code n =
    if leb n 75
    then n
    else if ltb n 0x100
    then Opcode.pushdata1
    else if ltb n 0x10000
    then Opcode.pushdata2
    else Opcode.pushdata4

-- Bytes emits a byte string that is not empty and no longer than MaxItemSize as one instruction,
-- with the code for its length, which the decoder reads back with exactly these bytes, wherever it
-- stands in a script, and behind which it goes on.
pub emit_bytes-Emits :
    (b : List ℕ)
    → 0 < length b
    → length b ≤ max_item_size
    → Emits (emit_bytes b) (push_code (length b)) (some b)
unfolding emit_bytes
emit_bytes-Emits b lo hi = elim (Bool-cases (leb (length b) 75)) [
  | inl e ↦ rw e (Emits-short b lo (ground arith))
  | inr e ↦ elim (Bool-cases (ltb (length b) 0x100)) [
    | inl e1 ↦ rw (e, e1) (Emits-pushdata1 b (ground arith))
    | inr e1 ↦ elim (Bool-cases (ltb (length b) 0x10000)) [
      | inl e2 ↦ rw (e, e1, e2) (Emits-pushdata2 b (ground arith))
      | inr e2 ↦ rw (e, e1, e2) (Emits-pushdata4 b hi)
    ]
  ]
]

-- The empty byte string is PUSH0.
emit_bytes-empty : Emits (emit_bytes []) Opcode.push0 none
unfolding emit_bytes instruction write_b write_bytes
emit_bytes-empty = record {
  code = Opcode.push0 ∷ [];
  writes = λ out. rw append-nil;
  decodes =
      λ before after c. next-absent before after c Opcode.push0 (unfold operand_of is_jump in refl);
}

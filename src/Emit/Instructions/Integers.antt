-- ===== src/Emit/Instructions/Integers.antt =====
-- The machine pushes the integer that `Int` emits.
use neovm.Prelude.{
  ℕ, zero, suc, ◌+◌, ◌-◌, ◌≤◌, ◌<◌, ◌≡◌, refl, sym, ap, ◌∙◌, Option, none, some, List, [], ◌∷◌,
  length, leb, ltb, ◌==◌, arith, false, Bool-cases, inl, inr,
}
use neovm.Prelude.Int.{ℤ, pos, negsuc, sub_ℕ, abs_ℕ}
use neovm.Io.Writer.{Write, write_b, write_bytes}
use neovm.Emit.Bigint.{bytes_to_int, int_to_bytes}
use neovm.Emit.Bigint.RoundTrip.{bytes_to_int-int_to_bytes}
use neovm.Emit.Instructions.{opcode, emit_int, emit_bytes}
use neovm.Emit.Instructions.Decoding.{Emits, next-absent}
use neovm.Emit.Instructions.Pushes.{push_code, emit_bytes-Emits}
use neovm.Vm.Opcode
use neovm.Vm.Context.{Operand, operand_of, is_jump, max_item_size}
use neovm.Vm.Push.{Pushed, byte_array, integer, pushed, big_int}

-- `f` writes one instruction, from which the decoder and the machine get the integer `z`.
pub record Pushes (f : Write) (z : ℤ) : Type 0 where
  pub code : ℕ
  pub parameter : Option (List ℕ)
  pub emits : Emits f code parameter
  pub item : Pushed
  pub pushes : pushed code parameter ≡ some item
  pub value : big_int item ≡ z

pub Emits-opcode :
    (i : ℕ)
    → ((prog : List ℕ) (at : ℕ) → operand_of i prog at ≡ Operand.absent)
    → Emits (opcode i) i none
unfolding opcode write_b write_bytes
Emits-opcode i h = record {
  code = i ∷ [];
  writes = λ out. refl;
  decodes = λ before after c. next-absent before after c i (h _ _);
}

pushed-push_code :
    (n : ℕ) (b : List ℕ) → 0 < n → pushed (push_code n) (some b) ≡ some (byte_array b)
unfolding pushed
pushed-push_code n b h = elim (Bool-cases (leb n 75)) [
  | inl short ↦ rw short (ground arith)
  | inr long ↦ elim (Bool-cases (ltb n 0x100)) [
    | inl e ↦ rw (long, e) refl
    | inr e ↦ elim (Bool-cases (ltb n 0x10000)) [
      | inl e' ↦ rw (long, e, e') refl
      | inr e' ↦ rw (long, e, e') refl
    ]
  ]
]

-- Only zero has no bytes.
int_to_bytes-nonempty : (z : ℤ) (d : List ℕ) → 0 < abs_ℕ z → int_to_bytes z ≡ d → 0 < length d
int_to_bytes-nonempty z [] h e =
    let nothing : z ≡ pos 0 =
      sym (bytes_to_int-int_to_bytes z) ∙ rw e (unfold bytes_to_int in refl) in
    omega (arith, h, ap abs_ℕ nothing)
int_to_bytes-nonempty z (b ∷ d) h e = omega arith

Pushes-bytes :
    (z : ℤ)
    → 0 < abs_ℕ z
    → length (int_to_bytes z) ≤ max_item_size
    → Pushes (emit_bytes (int_to_bytes z)) z
unfolding big_int
Pushes-bytes z h hi = record {
  code = push_code (length (int_to_bytes z));
  parameter = some (int_to_bytes z);
  emits = emit_bytes-Emits (int_to_bytes z) lo hi;
  item = byte_array (int_to_bytes z);
  pushes = pushed-push_code (length (int_to_bytes z)) (int_to_bytes z) lo;
  value = bytes_to_int-int_to_bytes z;
}
  where
    lo : 0 < length (int_to_bytes z)
    lo = int_to_bytes-nonempty z (int_to_bytes z) h refl

Pushes-small : (n : ℕ) → n < 15 → Pushes (opcode (Opcode.push1 - 1 + suc n)) (pos (suc n))
unfolding pushed big_int
Pushes-small n h = record {
  code = Opcode.push1 - 1 + suc n;
  parameter = none;
  emits = Emits-opcode _ λ prog at. unfold operand_of is_jump in ground arith;
  item = integer (sub_ℕ (Opcode.push1 - 1 + suc n + 1) Opcode.push1);
  pushes = ground arith;
  value = ground arith;
}

not_zero : (n : ℕ) → (suc n == 0) ≡ false
not_zero n = ground arith

-- An integer whose bytes are no more than MaxItemSize is emitted by Int as one instruction;
-- wherever it stands in a script the decoder reads it back and goes on behind it, and what the
-- machine pushes for it has that integer as its value.
pub emit_int-Pushes : (z : ℤ) → length (int_to_bytes z) ≤ max_item_size → Pushes (emit_int z) z
unfolding emit_int
emit_int-Pushes (negsuc zero) h = record {
  code = Opcode.pushm1;
  parameter = none;
  emits = Emits-opcode _ λ prog at. unfold operand_of is_jump in refl;
  item = integer (negsuc zero);
  pushes = unfold pushed in refl;
  value = unfold big_int in refl;
}
emit_int-Pushes (pos zero) h = record {
  code = Opcode.pushf;
  parameter = none;
  emits = Emits-opcode _ λ prog at. unfold operand_of is_jump in refl;
  item = byte_array [];
  pushes = unfold pushed in refl;
  value = unfold big_int bytes_to_int in refl;
}
emit_int-Pushes (negsuc (suc n)) h = rw (not_zero n) (Pushes-bytes (negsuc (suc n)) (omega arith) h)
emit_int-Pushes (pos (suc n)) h = elim (Bool-cases (ltb (suc n) 16)) [
  | inl small ↦ rw (not_zero n, small) (Pushes-small n (ground arith))
  | inr big ↦ rw (not_zero n, big) (Pushes-bytes (pos (suc n)) (omega arith) h)
]

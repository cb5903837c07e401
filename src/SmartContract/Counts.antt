-- ===== src/SmartContract/Counts.antt =====
-- The machine's checks of contracts read a small number from what Int emits.
use neovm.Prelude.{
  ℕ, zero, suc, ◌+◌, ◌-◌, ◌<◌, ◌/◌, ◌%◌, ◌≡◌, refl, Bool, true, false, ◌&&◌, none, some, List, [],
  ◌∷◌, ltb, ◌==◌, arith, Bool-cases, inl, inr, same_bytes, same_bytes_sound, put_le, from_le,
  if◌then◌else◌,
}
use neovm.Prelude.Int.{pos}
use neovm.Emit.Bigint.{
  int_to_bytes, magnitude_bytes, with_sign_byte, trim_zeros, effective_loop, words_to_bytes, bits,
}
use neovm.Emit.Instructions.{emit_int, emit_bytes, opcode}
use neovm.Emit.Instructions.Integers.{Emits-opcode}
use neovm.Emit.Instructions.Pushes.{emit_bytes-Emits}
use neovm.Vm.Opcode
use neovm.Vm.Context.{operand_of, is_jump}
use neovm.Vm.Contracts.{get_num_of_things_from_instr}
use neovm.Vm.Contracts.Built.{Counts}

-- The bytes of a number of at most 1024 that has no code of its own.
abbrev small_bytes : ℕ → List ℕ
small_bytes n = if ltb n 128 then n ∷ [] else (n % 256 ∷ n / 256 ∷ [])

-- Every number below a bound has them.
all_small : ℕ → Bool
all_small zero = true
all_small (suc n) = same_bytes (int_to_bytes (pos (suc n))) (small_bytes (suc n)) && all_small n

small_table : all_small 1024 ≡ true
unfolding all_small int_to_bytes magnitude_bytes with_sign_byte trim_zeros effective_loop
    words_to_bytes bits put_le
small_table = refl

all_small_sound :
    (k n : ℕ)
    → all_small k ≡ true
    → n < k
    → same_bytes (int_to_bytes (pos (suc n))) (small_bytes (suc n)) ≡ true
unfolding all_small
all_small_sound zero n h lt = absurd (omega arith)
all_small_sound (suc k) n h lt = ground (arith, all_small_sound k n)

int_to_bytes-small : (n : ℕ) → n < 1024 → int_to_bytes (pos (suc n)) ≡ small_bytes (suc n)
int_to_bytes-small n h = same_bytes_sound _ _ (all_small_sound 1024 n small_table h)

Counts-opcode : (n : ℕ) → n < 15 → Counts (opcode (Opcode.push1 - 1 + suc n)) (suc n)
unfolding get_num_of_things_from_instr
Counts-opcode n h = record {
  code = Opcode.push1 - 1 + suc n;
  parameter = none;
  emits = Emits-opcode _ λ prog at. unfold operand_of is_jump in ground arith;
  counts = ground arith;
  no_key = ground arith;
}

Counts-bytes :
    (n : ℕ) (b : List ℕ) → n < 1024 → b ≡ small_bytes (suc n) → Counts (emit_bytes b) (suc n)
Counts-bytes n b h e = elim (Bool-cases (ltb (suc n) 128)) [
  | inl one ↦
      rw (e, one)
        record {
          code = Opcode.pushbytes1;
          parameter = some (suc n ∷ []);
          emits = emit_bytes-Emits (suc n ∷ []) (omega arith) (omega arith);
          counts = unfold get_num_of_things_from_instr in ground arith;
          no_key = refl;
        }
  | inr two ↦
      rw (e, two)
        record {
          code = Opcode.pushbytes2;
          parameter = some (suc n % 256 ∷ suc n / 256 ∷ []);
          emits = emit_bytes-Emits (suc n % 256 ∷ suc n / 256 ∷ []) (omega arith) (omega arith);
          counts = unfold get_num_of_things_from_instr from_le in ground arith;
          no_key = refl;
        }
]

-- Int emits such a number so that the checks of contracts read it back.
pub emit_int-Counts : (n : ℕ) → n < 1024 → Counts (emit_int (pos (suc n))) (suc n)
unfolding emit_int
emit_int-Counts n h =
    let not_zero : (suc n == 0) ≡ false = ground arith in
    elim (Bool-cases (ltb (suc n) 16)) [
      | inl small ↦ rw (not_zero, small) (Counts-opcode n (ground arith))
      | inr big ↦ rw (not_zero, big) (Counts-bytes n _ h (int_to_bytes-small n h))
    ]

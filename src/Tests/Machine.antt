-- ===== src/Tests/Machine.antt =====
-- The emitter, the decoder and the stack (pkg/vm) on concrete scripts.
use neovm.Prelude.{
  ℕ, ◌≡◌, some, List, [], ◌∷◌, length, get_or, ◌&&◌, ◌++◌, replicate, put_le, ◌==◌, arith,
}
use neovm.Prelude.Int.{negsuc}
use neovm.Emit.Bigint.{
  bytes_to_int, int_to_bytes, magnitude_bytes, bits, words_to_bytes, trim_zeros, with_sign_byte,
  set_bits, effective_loop,
}
use neovm.Emit.Bigint.Decode.{signed_value, bytes_to_int-signed_value}
use neovm.Emit.Bigint.RoundTrip.{bytes_to_int-int_to_bytes}
use neovm.Emit.Instructions.{emit_bytes, emit_int}
use neovm.Emit.Instructions.Integers.{Pushes, emit_int-Pushes}
use neovm.Emit.Instructions.Decoding.{Emits}
use neovm.Emit.Instructions.Pushes.{push_code, emit_bytes-Emits}
use neovm.Vm.Context.{new_context, next}
use neovm.Vm.Context.Bounds.{Advances, next-Advances}
use neovm.Vm.Contracts.{is_signature_contract}
use neovm.Vm.Contracts.Signature.{is_signature_contract_lem}

bytes_to_int-int_to_bytes_example : bytes_to_int (int_to_bytes (negsuc 255)) ≡ negsuc 255
bytes_to_int-int_to_bytes_example = bytes_to_int-int_to_bytes (negsuc 255)

bytes_to_int-signed_value_example :
    bytes_to_int (0x80 ∷ 0xff ∷ []) ≡ signed_value (0x80 ∷ 0xff ∷ [])
bytes_to_int-signed_value_example =
    bytes_to_int-signed_value (0x80 ∷ 0xff ∷ []) (omega arith, (omega arith, tt))

emit_bytes-Emits_example : Emits (emit_bytes (1 ∷ 2 ∷ [])) (push_code 2) (some (1 ∷ 2 ∷ []))
emit_bytes-Emits_example = emit_bytes-Emits (1 ∷ 2 ∷ []) (omega arith) (omega arith)

next-Advances_example :
    Advances (new_context (0x4c ∷ 9 ∷ [])) (next (new_context (0x4c ∷ 9 ∷ []))).0
next-Advances_example = next-Advances (new_context (0x4c ∷ 9 ∷ [])) (omega arith)

emit_int-Pushes_example : Pushes (emit_int (negsuc 999)) (negsuc 999)
unfolding effective_loop put_le int_to_bytes magnitude_bytes bits words_to_bytes trim_zeros
    with_sign_byte set_bits
emit_int-Pushes_example = emit_int-Pushes (negsuc 999) (omega arith)

-- A script with a key of zeros.
abbrev signature_script : List ℕ
signature_script = 0x21 ∷ replicate 33 0 ++ 0xAC ∷ []

is_signature_contract_lem_example : is_signature_contract signature_script ≡ (
    ((length signature_script == 35) && (get_or signature_script 34 0 == 0xAC))
    && (get_or signature_script 0 0 == 0x21))
is_signature_contract_lem_example = is_signature_contract_lem signature_script

-- ===== src/Transaction/Parts/RoundTrip.antt =====
-- The parts of a transaction are read back as they were written.
use neovm.Prelude.{refl}
use neovm.Io.Codec.{Carries, Carries-then, Carries-last}
use neovm.Io.RoundTrip.{Carries-u16_le, Carries-b, Carries-var_bytes, Carries-string}
use neovm.Util.Values.{Carries-uint160, Carries-uint256, Carries-fixed8}
use neovm.Transaction.Parts.{
  Input, IsInput, decode_input, encode_input, Output, IsOutput, decode_output, encode_output,
  Witness, IsWitness, decode_witness, encode_witness, StateDescriptor, IsStateDescriptor,
  decode_state_descriptor, encode_state_descriptor,
}

pub Carries-input : (i : Input) → IsInput i → Carries (encode_input i) decode_input i
unfolding encode_input decode_input
Carries-input i (h, n) =
    Carries-then _ (Carries-uint256 i.prev_hash h)
      (Carries-last _ (Carries-u16_le i.prev_index n) λ r. refl)

-- An output, with its fields in the ranges of their types, is read back as it was written, but for
-- its position, which is lost.
pub Carries-output :
    (o : Output) → IsOutput o → Carries (encode_output o) decode_output (record o { position = 0 })
unfolding encode_output decode_output
Carries-output o (a, m, s) = Carries-then _ (Carries-uint256 o.asset_id a) (
    Carries-then _ (Carries-fixed8 o.amount m)
      (Carries-last _ (Carries-uint160 o.script_hash s) λ r. refl))

pub Carries-witness : (w : Witness) → IsWitness w → Carries (encode_witness w) decode_witness w
unfolding encode_witness decode_witness
Carries-witness w (i, v) =
    Carries-then _ (Carries-var_bytes w.invocation_script i)
      (Carries-last _ (Carries-var_bytes w.verification_script v) λ r. refl)

pub Carries-state_descriptor :
    (s : StateDescriptor)
    → IsStateDescriptor s
    → Carries (encode_state_descriptor s) decode_state_descriptor s
unfolding encode_state_descriptor decode_state_descriptor
Carries-state_descriptor s (t, k, f, v) = Carries-then _ (Carries-b s.kind t) (
    Carries-then _ (Carries-var_bytes s.key k) (
      Carries-then _ (Carries-string s.field f)
        (Carries-last _ (Carries-var_bytes s.value v) λ r. refl)))

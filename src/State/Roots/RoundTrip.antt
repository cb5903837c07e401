-- ===== src/State/Roots/RoundTrip.antt =====
-- A state root is read back as it was written, with its witness or without.
use neovm.Prelude.{refl, Option, none, some, List, [], ◌∷◌, length, ◌≤◌, All, pure, ◌>>=◌, arith}
use neovm.Io.Reader.{read_array_max}
use neovm.Io.Writer.{write_array, write_elems}
use neovm.Io.Codec.{Carries, Carries-then, Carries-last, Carries-congr}
use neovm.Io.RoundTrip.{Carries-u32_le, Carries-b, Carries-var_uint, Carries-array_max}
use neovm.Util.Values.{Carries-uint256}
use neovm.Transaction.Parts.{Witness, IsWitness, decode_witness, encode_witness}
use neovm.Transaction.Parts.RoundTrip.{Carries-witness}
use neovm.State.Roots.{
  MptRootBase, IsMptRootBase, encode_mpt_root_base, decode_mpt_root_base, MptRoot, HasWitness,
  IsMptRoot, only, encode_signature, encode_mpt_root, decode_mpt_root, MptRootState, IsMptRootState,
  encode_mpt_root_state, decode_mpt_root_state,
}

Carries-mpt_root_base :
    (s : MptRootBase) → IsMptRootBase s → Carries (encode_mpt_root_base s) decode_mpt_root_base s
unfolding encode_mpt_root_base decode_mpt_root_base
Carries-mpt_root_base s (v, i, p, r) = Carries-then _ (Carries-b s.version v) (
    Carries-then _ (Carries-u32_le s.index i) (
      Carries-then _ (Carries-uint256 s.prev_hash p)
        (Carries-last _ (Carries-uint256 s.root r) λ x. refl)))

Carries-witnesses :
    (ws : List Witness)
    → All IsWitness ws
    → length ws ≤ 1
    → Carries (write_array encode_witness ws) (read_array_max decode_witness 1 []) ws
Carries-witnesses ws h le =
    Carries-array_max encode_witness decode_witness Carries-witness 1 (omega arith) [] ws h le

abbrev with_only : MptRootBase → List Witness → MptRoot
with_only b ws = record { base = b; witness = only ws }

Carries-root_with :
    (b : MptRootBase) (w : Option Witness)
    → HasWitness w
    → Carries {A = MptRoot}
        (encode_signature w)
        (read_array_max decode_witness 1 [] >>= λ ws. pure (with_only b ws))
        (record { base = b; witness = w })
unfolding write_array write_elems
Carries-root_with b none h =
    Carries-congr
      (Carries-last (λ ws. pure (with_only b ws)) (Carries-witnesses [] tt (omega arith)) λ r. refl)
      (λ out. rw ((Carries-var_uint 0 (omega arith)).writes out)) (λ r. refl)
Carries-root_with b (some w) h =
    Carries-last (λ ws. pure (with_only b ws)) (Carries-witnesses (w ∷ []) (h, tt) (omega arith))
      λ r. refl

Carries-mpt_root : (s : MptRoot) → IsMptRoot s → Carries (encode_mpt_root s) decode_mpt_root s
unfolding encode_mpt_root decode_mpt_root
Carries-mpt_root s (b, w) =
    Carries-then _ (Carries-mpt_root_base s.base b) (Carries-root_with s.base s.witness w)

-- A state root with its flag, with a witness within the limit of the reader or without, is read
-- back as it was written.
Carries-mpt_root_state :
    (s : MptRootState)
    → IsMptRootState s
    → Carries (encode_mpt_root_state s) decode_mpt_root_state s
unfolding encode_mpt_root_state decode_mpt_root_state
Carries-mpt_root_state s (r, f) =
    Carries-then _ (Carries-b s.flag f) (Carries-last _ (Carries-mpt_root s.root r) λ x. refl)

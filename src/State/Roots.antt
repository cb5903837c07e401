-- ===== src/State/Roots.antt =====
-- pkg/core/state/mpt_root.go: state roots, with a witness that may be missing.
pub mod RoundTrip
use neovm.Prelude.{ℕ, ◌^◌, ◌<◌, Option, none, some, List, [], ◌∷◌, pure, ◌>>=◌, ◌>>◌}
use neovm.Io.Reader.{Read, read_u32_le, read_b, read_array_max}
use neovm.Io.Writer.{
  Write, write_u32_le, write_b, write_var_uint, write_array, new_buf_bin_writer, buf_bytes,
}
use neovm.Util.Values.{IsUint256, encode_uint256, decode_uint256}
use neovm.Transaction.Parts.{Witness, IsWitness, decode_witness, encode_witness}

pub record MptRootBase : Type 0 where
  pub version : ℕ
  pub index : ℕ
  pub prev_hash : List ℕ
  pub root : List ℕ

abbrev pub IsMptRootBase : MptRootBase → Type 0
IsMptRootBase s =
    (s.version < 2 ^ 8) × (s.index < 2 ^ 32) × IsUint256 s.prev_hash × IsUint256 s.root

unfoldable pub encode_mpt_root_base : MptRootBase → Write
encode_mpt_root_base s = do
  write_b s.version
  write_u32_le s.index
  encode_uint256 s.prev_hash
  encode_uint256 s.root

unfoldable pub decode_mpt_root_base : Read MptRootBase
decode_mpt_root_base = do
  version ← read_b
  index ← read_u32_le
  prev_hash ← decode_uint256
  root ← decode_uint256
  pure (record { version = version; index = index; prev_hash = prev_hash; root = root })

-- `GetSignedPart`
unfoldable pub get_signed_part : MptRootBase → Option (List ℕ)
get_signed_part s = elim (encode_mpt_root_base s new_buf_bin_writer) [
  | none ↦ none
  | some (u, w) ↦ some (buf_bytes w).0
]

-- `none` is the nil witness.
pub record MptRoot : Type 0 where
  pub base : MptRootBase
  pub witness : Option Witness

abbrev pub HasWitness : Option Witness → Type 0
HasWitness none = Unit {0}
HasWitness (some w) = IsWitness w

abbrev pub IsMptRoot : MptRoot → Type 0
IsMptRoot s = IsMptRootBase s.base × HasWitness s.witness

-- `if len(ws) == 1 { s.Witness = &ws[0] }`
abbrev pub only : List Witness → Option Witness
only [] = none
only (w ∷ []) = some w
only (w ∷ x ∷ ws) = none

abbrev pub encode_signature : Option Witness → Write
encode_signature none = write_var_uint 0
encode_signature (some w) = write_array encode_witness (w ∷ [])

unfoldable pub encode_mpt_root : MptRoot → Write
encode_mpt_root s = do encode_mpt_root_base s.base; encode_signature s.witness

unfoldable pub decode_mpt_root : Read MptRoot
decode_mpt_root = do
  base ← decode_mpt_root_base
  ws ← read_array_max decode_witness 1 []
  pure (record { base = base; witness = only ws })

pub record MptRootState : Type 0 where
  pub root : MptRoot
  pub flag : ℕ

abbrev pub IsMptRootState : MptRootState → Type 0
IsMptRootState s = IsMptRoot s.root × (s.flag < 2 ^ 8)

unfoldable pub encode_mpt_root_state : MptRootState → Write
encode_mpt_root_state s = do write_b s.flag; encode_mpt_root s.root

unfoldable pub decode_mpt_root_state : Read MptRootState
decode_mpt_root_state = do
  flag ← read_b
  root ← decode_mpt_root
  pure (record { root = root; flag = flag })

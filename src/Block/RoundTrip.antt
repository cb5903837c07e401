-- ===== src/Block/RoundTrip.antt =====
-- Blocks and their headers are read back as they were written (pkg/core/block).
use neovm.Prelude.{
  ℕ, ◌<◌, ◌^◌, ◌≡◌, refl, sym, ap, subst, ◌∙◌, none, some, List, [], ◌∷◌, false, All, length, ◌≤◌,
}
use neovm.Io.Reader.{max_array_size}
use neovm.Io.Writer.{buf_bytes}
use neovm.Io.Codec.{Carries, Carries-then, Carries-last}
use neovm.Io.RoundTrip.{Carries-u32_le, Carries-u64_le, Carries-bytes, Carries-array}
use neovm.Util.Values.{IsUint160, IsUint256, Carries-uint160, Carries-uint256}
use neovm.Keys.PublicKey.{Curve, IsField}
use neovm.Transaction.Parts.{IsWitness}
use neovm.Transaction.Parts.RoundTrip.{Carries-witness}
use neovm.Transaction.Body.{
  Transaction, zero_hash, create_hash, encode_transaction, decode_transaction,
}
use neovm.Transaction.Body.RoundTrip.{IsTransaction, Carries-transaction}
use neovm.Block.{
  Base, no_script, encode_hashable_fields, get_hashable_data, read_fields, hash_unless_failed,
  decode_hashable_fields, create_base_hash, encode_base, decode_padded, decode_base, Header,
  encode_header, decode_header, end_header, Block, encode_block, decode_block,
}

-- The fields are in the ranges of their types.
pub record IsBase (b : Base) : Type 0 where
  pub version : b.version < 2 ^ 32
  pub prev_hash : IsUint256 b.prev_hash
  pub merkle_root : IsUint256 b.merkle_root
  pub timestamp : b.timestamp < 2 ^ 32
  pub index : b.index < 2 ^ 32
  pub consensus_data : b.consensus_data < 2 ^ 64
  pub next_consensus : IsUint160 b.next_consensus
  pub script : IsWitness b.script

-- What is read of a base without its hashes and its script.
abbrev pub bare : Base → Base
bare b = record b { script = no_script; hash = zero_hash; verification_hash = zero_hash }

pub Carries-fields : (b : Base) → IsBase b → Carries (encode_hashable_fields b) read_fields (bare b)
unfolding encode_hashable_fields read_fields
Carries-fields b h = Carries-then _ (Carries-u32_le b.version h.version) (
    Carries-then _ (Carries-uint256 b.prev_hash h.prev_hash) (
      Carries-then _ (Carries-uint256 b.merkle_root h.merkle_root) (
        Carries-then _ (Carries-u32_le b.timestamp h.timestamp) (
          Carries-then _ (Carries-u32_le b.index h.index) (
            Carries-then _ (Carries-u64_le b.consensus_data h.consensus_data)
              (Carries-last _ (Carries-uint160 b.next_consensus h.next_consensus) λ r. refl))))))

module _ (sha256 : List ℕ → List ℕ) (b : Base) (h : IsBase b) where
  -- The bytes that are hashed.
  abbrev pub hashed_bytes : List ℕ
  hashed_bytes = (Carries-fields b h).bytes

  -- The base with its hashes.
  abbrev pub hashed : Base
  hashed = record b { hash = sha256 (sha256 hashed_bytes); verification_hash = sha256 hashed_bytes }

  -- Only the fields are hashed.
  create_base_hash-hashed :
      (c : Base)
      → encode_hashable_fields c ≡ encode_hashable_fields b
      → create_base_hash sha256 c
        ≡ some (record c {
          hash = sha256 (sha256 hashed_bytes);
          verification_hash = sha256 hashed_bytes;
        })
  unfolding create_base_hash get_hashable_data buf_bytes
  create_base_hash-hashed c e =
      rw (create_base_hash, get_hashable_data, e, (Carries-fields b h).writes []) refl

  pub Carries-hashable :
      Carries
        (encode_hashable_fields b)
        (decode_hashable_fields sha256)
        (record hashed { script = no_script })
  unfolding decode_hashable_fields encode_hashable_fields
  Carries-hashable =
      Carries-last (hash_unless_failed sha256) (Carries-fields b h)
        λ r. rw (hash_unless_failed, create_base_hash-hashed (bare b) refl)

  Carries-base : Carries (encode_base b) (decode_base sha256) hashed
  unfolding encode_base decode_base
  Carries-base = Carries-then decode_padded Carries-hashable (
      Carries-then _ (Carries-bytes (0 ∷ []) (1 ∷ []) refl)
        (Carries-last _ (Carries-witness b.script h.script) λ r. refl))

-- A header, with the fields of its base in the ranges of their types, is read back as it was written, with the
-- hashes of its fields.
Carries-header :
    (sha256 : List ℕ → List ℕ) (h : Header) (i : IsBase h.base)
    → Carries (encode_header h) (decode_header sha256) (record { base = hashed sha256 h.base i })
unfolding encode_header decode_header
Carries-header sha256 h i =
    Carries-then end_header (Carries-base sha256 h.base i)
      (Carries-last _ (Carries-bytes (0 ∷ []) (0 ∷ []) refl) λ r. refl)

-- A transaction that has its hashes.
abbrev pub IsHashed : (List ℕ → List ℕ) → Curve → Transaction → Type 0
IsHashed sha256 curve t =
    IsTransaction curve t × (create_hash sha256 t ≡ some (none, t)) × (t.trimmed ≡ false)

Carries-hashed :
    (sha256 : List ℕ → List ℕ) (curve : Curve) (f : IsField curve) (t : Transaction)
    → IsHashed sha256 curve t
    → Carries (encode_transaction t) (decode_transaction sha256 curve) t
Carries-hashed sha256 curve f t (i, e, trimmed) =
    let (t', e', c) = Carries-transaction sha256 curve f t i in
    let same : t' ≡ t = cc in
    let whole : record t' { trimmed = false } ≡ t =
      ap {B = Transaction} (λ (u : Transaction). record u { trimmed = false }) same
      ∙ ap {B = Transaction} (λ d. record t { trimmed = d }) (sym trimmed) in
    subst (Carries (encode_transaction t) (decode_transaction sha256 curve)) whole c

-- A block, with the fields of its base in the ranges of their types and within the limit of the
-- reader transactions that have a binary form and their hashes, is read back as it was written, not
-- trimmed and with the hashes of its fields; the field of the curve is as IsField says.
pub Carries-block :
    (sha256 : List ℕ → List ℕ) (curve : Curve)
    → IsField curve
    → (b : Block) (i : IsBase b.base) → All (IsHashed sha256 curve) b.transactions
    → length b.transactions ≤ max_array_size
    → Carries
        (encode_block b)
        (decode_block sha256 curve)
        (record b { base = hashed sha256 b.base i; trimmed = false })
unfolding encode_block decode_block
Carries-block sha256 curve f b i hs n = Carries-then _ (Carries-base sha256 b.base i) (
    Carries-last _
      (Carries-array encode_transaction (decode_transaction sha256 curve)
        (Carries-hashed sha256 curve f) [] b.transactions hs n)
      λ r. refl)

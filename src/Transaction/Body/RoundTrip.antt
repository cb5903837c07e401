-- ===== src/Transaction/Body/RoundTrip.antt =====
-- A whole transaction is read back as it was written, with its positions and its hashes.
use neovm.Prelude.{
  ℕ, suc, ◌≡◌, refl, false, none, some, List, [], ◌∷◌, map, ap, Bool-cases, inl, inr,
}
use mathlib.Core.Bool.{true≢false}
use neovm.Prelude.Int.{pos}
use neovm.Io.Writer.{buf_bytes, writer}
use neovm.Io.Codec.{Carries, Carries-then, Carries-last, Carries-congr}
use neovm.Io.RoundTrip.{Carries-array}
use neovm.Util.Values.{less_than}
use neovm.Keys.PublicKey.{Curve, IsField}
use neovm.Transaction.Parts.{Output, Witness, IsWitness, decode_witness, encode_witness}
use neovm.Transaction.Parts.RoundTrip.{Carries-witness}
use neovm.Transaction.Body.{
  Transaction, encode_hashable_fields, encode_transaction, set_positions, create_hash, hash_decoded,
  decode_rest, decode_fields, zero_hash, decode_transaction,
}
use neovm.Transaction.Body.Fields.{IsArray, IsBody, unplaced, body_of, Carries-fields}

-- A transaction with a binary form, whose outputs stand at their positions and are not negative.
abbrev pub IsTransaction : Curve → Transaction → Type 0
IsTransaction curve t =
    IsBody curve t × (set_positions 0 t.outputs ≡ (t.outputs, false)) × IsArray IsWitness t.scripts

-- The positions do not depend on those before.
set_positions-unplaced :
    (i : ℕ) (os os' : List Output)
    → set_positions i os ≡ (os', false)
    → set_positions i (map unplaced os) ≡ (os', false)
unfolding set_positions
set_positions-unplaced i [] os' h = h
set_positions-unplaced i (o ∷ os) os' h = elim (Bool-cases (less_than o.amount (pos 0))) [
  | inl negative ↦ absurd (true≢false (ap (λ p. p.1) (rw negative at h)))
  | inr fine ↦
      let step : (
        record o { position = i } ∷ (set_positions (suc i) os).0,
        (set_positions (suc i) os).1,
      )
          ≡ (os', false) =
        rw fine at h in
      let rest =
        set_positions-unplaced (suc i) os (set_positions (suc i) os).0
          (ap (λ p. ((set_positions (suc i) os).0, p.1)) step) in
      rw (fine, rest) (ap (λ p. (p.0, false)) step)
]

-- The bytes that are hashed are those of the fields.
create_hash-bytes :
    (sha256 : List ℕ → List ℕ) (t : Transaction) (b : List ℕ)
    → encode_hashable_fields t (writer []) ≡ some (tt, writer b)
    → create_hash sha256 t
      ≡ some (none, record t { hash = sha256 (sha256 b); verification_hash = sha256 b })
unfolding create_hash buf_bytes
create_hash-bytes sha256 t b h = rw (create_hash, h)

-- A transaction that has a binary form, whose outputs stand at their positions and are not
-- negative, is written without error, and DecodeBinary reads it back, not trimmed and with the
-- hashes that createHash computes for it, and stops behind its bytes; the curve's field is as
-- IsField says, and the hash function is any.
pub Carries-transaction :
    (sha256 : List ℕ → List ℕ) (curve : Curve)
    → IsField curve
    → (t : Transaction) → IsTransaction curve t
    → (t' : Transaction) × (create_hash sha256 t ≡ some (none, t'))
      × Carries
          (encode_transaction t)
          (decode_transaction sha256 curve)
          (record t' { trimmed = false })
unfolding encode_transaction decode_transaction encode_hashable_fields
Carries-transaction sha256 curve f t (h, p, (ws, n)) = (
  _,
  create_hash-bytes sha256 t body.bytes (body.writes []),
  Carries-then (decode_rest sha256) body (
      Carries-congr
        (Carries-last (λ scripts. hash_decoded sha256 (unhashed scripts))
          (Carries-array encode_witness decode_witness Carries-witness [] t.scripts ws n)
          λ r. rw (
            hash_decoded,
            create_hash-bytes sha256 (unhashed t.scripts) body.bytes (body.writes []),
          ))
        (λ out. refl) (λ r. rw (set_positions-unplaced 0 t.outputs t.outputs p))),
)
  where
    body : Carries (encode_hashable_fields t) (decode_fields curve) (body_of t)
    body = Carries-fields curve f t h

    unhashed : List Witness → Transaction
    unhashed scripts = record t {
      scripts = scripts;
      hash = zero_hash;
      verification_hash = zero_hash;
      trimmed = false;
    }

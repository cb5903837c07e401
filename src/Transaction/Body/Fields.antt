-- ===== src/Transaction/Body/Fields.antt =====
-- The fields of a transaction before its scripts are read back as they were written.
use neovm.Prelude.{
  ℕ, ◌^◌, ◌≤◌, ◌<◌, ◌≡◌, refl, false, some, List, [], ◌∷◌, map, length, All, ◌==◌, if◌then◌else◌,
  pure, ◌>>◌, arith, le→not-ltb, ltb,
}
use neovm.Io.Error.{errorf}
use neovm.Io.Reader.{max_array_size, fail, failed, read_elems, read_array, read_array_max}
use neovm.Io.Writer.{write_elems, write_array}
use neovm.Io.Codec.{Carries, Carries-then, Carries-last, Carries-pure, Carries-congr}
use neovm.Io.RoundTrip.{Carries-u32_le, Carries-b, Carries-var_uint, Carries-array}
use neovm.Keys.PublicKey.{Curve, IsKey, IsField}
use neovm.Keys.PublicKey.RoundTrip.{Carries-public_key}
use neovm.Transaction.Attribute.{
  Attribute, IsAttribute, decode_attribute, encode_attribute, Carries-attribute,
}
use neovm.Transaction.Parts.{
  IsInput, decode_input, encode_input, Output, IsOutput, decode_output, encode_output,
  IsStateDescriptor, decode_state_descriptor, encode_state_descriptor,
}
use neovm.Transaction.Parts.RoundTrip.{Carries-input, Carries-output, Carries-state_descriptor}
use neovm.Transaction.Payload.{
  Payload, miner, issue, claim, enrollment, register, contract, state, publish, invocation,
  encode_payload,
}
use neovm.Transaction.Payload.RoundTrip.{
  IsInvocation, IsPublish, IsRegister, Carries-publish, Carries-register, Carries-invocation,
}
use neovm.Transaction.Body.{
  Transaction, miner_type, issue_type, claim_type, enrollment_type, register_type, contract_type,
  state_type, publish_type, invocation_type, zero_hash, encode_some, encode_hashable_fields,
  decode_data, decode_fields,
}

-- At most as many elements as an array may have, each with P.
abbrev pub IsArray : {A : Type 0} → (A → Type 0) → List A → Type 0
IsArray P xs = All P xs × (length xs ≤ max_array_size)

-- The data are those of the transaction's type and version, and have a binary form.
unfoldable pub IsPayload : Curve → ℕ → ℕ → Payload → Type 0
IsPayload curve kind version (miner nonce) = (kind ≡ miner_type) × (nonce < 2 ^ 32)
IsPayload curve kind version issue = kind ≡ issue_type
IsPayload curve kind version (claim claims) = (kind ≡ claim_type) × IsArray IsInput claims
IsPayload curve kind version (enrollment key) = (kind ≡ enrollment_type) × IsKey curve key
IsPayload curve kind version (register tx) = (kind ≡ register_type) × IsRegister curve tx
IsPayload curve kind version contract = kind ≡ contract_type
IsPayload curve kind version (state descriptors) =
    (kind ≡ state_type) × IsArray IsStateDescriptor descriptors
IsPayload curve kind version (publish tx) =
    (kind ≡ publish_type) × (version ≡ tx.version) × IsPublish tx
IsPayload curve kind version (invocation tx) =
    (kind ≡ invocation_type) × (version ≡ tx.version) × IsInvocation tx

-- Data that belong to the type and the version of a transaction are read back by the decoder that
-- decodeData selects for that type; contract data have no bytes.
Carries-data :
    (curve : Curve)
    → IsField curve
    → (kind version : ℕ) (p : Payload) → IsPayload curve kind version p
    → Carries
        (if kind == contract_type then pure tt else encode_some (some p))
        (decode_data curve kind version)
        (some p)
unfolding IsPayload decode_data encode_payload
Carries-data curve f kind version (miner nonce) (k, h) =
    rw k (Carries-last (λ n. pure (some (miner n))) (Carries-u32_le nonce h) λ r. refl)
Carries-data curve f kind version issue k = rw k (Carries-pure (some issue))
Carries-data curve f kind version (claim claims) (k, (all, n)) = rw k (
    Carries-last (λ cs. pure (some (claim cs)))
      (Carries-array encode_input decode_input Carries-input [] claims all n) λ r. refl)
Carries-data curve f kind version (enrollment key) (k, h) = rw k (
    Carries-last (λ key. pure (some (enrollment key))) (Carries-public_key curve f key h) λ r. refl)
Carries-data curve f kind version (register tx) (k, h) =
    rw k (Carries-last (λ tx. pure (some (register tx))) (Carries-register curve f tx h) λ r. refl)
Carries-data curve f kind version contract k = rw k (Carries-pure (some contract))
Carries-data curve f kind version (state descriptors) (k, (all, n)) = rw k (
    Carries-last (λ ds. pure (some (state ds)))
      (Carries-array encode_state_descriptor decode_state_descriptor Carries-state_descriptor []
        descriptors all n)
      λ r. refl)
Carries-data curve f kind version (publish tx) (k, v, h) =
    rw (k, v) (Carries-last (λ tx. pure (some (publish tx))) (Carries-publish tx h) λ r. refl)
Carries-data curve f kind version (invocation tx) (k, v, h) =
    rw (k, v) (Carries-last (λ tx. pure (some (invocation tx))) (Carries-invocation tx h) λ r. refl)

-- An output without its position, which has no binary form.
abbrev pub unplaced : Output → Output
unplaced o = record o { position = 0 }

Carries-output_list :
    (os : List Output)
    → All IsOutput os
    → Carries
        (write_elems encode_output os)
        (read_elems decode_output (length os))
        (map unplaced os)
unfolding write_elems read_elems
Carries-output_list [] h = Carries-pure []
Carries-output_list (o ∷ os) (ho, hs) =
    Carries-then _ (Carries-output o ho) (Carries-last _ (Carries-output_list os hs) λ r. refl)

Carries-outputs :
    (os : List Output)
    → All IsOutput os
    → length os ≤ max_array_size
    → Carries (write_array encode_output os) (read_array decode_output []) (map unplaced os)
unfolding write_array read_array read_array_max failed
Carries-outputs os h le =
    Carries-congr
      (Carries-then
        (λ lu.
          if ltb max_array_size lu
          then (fail (errorf "array is too big" lu) >> pure [])
          else read_elems decode_output lu)
        (Carries-var_uint (length os) (omega arith))
        (Carries-congr (Carries-output_list os h) (λ out. refl)
          (λ r. rw (le→not-ltb max_array_size (length os) le))))
      (λ out. refl) (λ r. refl)

abbrev pub IsUsable : Attribute → Type 0
IsUsable a = IsAttribute a × (a.usage < 2 ^ 8)

-- The fields before the scripts have a binary form.
abbrev pub IsBody : Curve → Transaction → Type 0
IsBody curve t =
    (t.kind < 2 ^ 8)
    × (t.version < 2 ^ 8)
    × ((p : Payload) × (t.payload ≡ some p) × IsPayload curve t.kind t.version p)
    × IsArray IsUsable t.attributes
    × IsArray IsInput t.inputs
    × IsArray IsOutput t.outputs

-- What the decoder has before it reads the scripts.
abbrev pub body_of : Transaction → Transaction
body_of t = record t {
  outputs = map unplaced t.outputs;
  scripts = [];
  hash = zero_hash;
  verification_hash = zero_hash;
  trimmed = false;
}

pub Carries-fields :
    (curve : Curve)
    → IsField curve
    → (t : Transaction) → IsBody curve t
    → Carries (encode_hashable_fields t) (decode_fields curve) (body_of t)
unfolding encode_hashable_fields decode_fields
Carries-fields curve f t (k, v, (p, e, h), (xs, na), (is, ni), (os, lo)) = rw e (
    Carries-then _ (Carries-b t.kind k) (
      Carries-then _ (Carries-b t.version v) (
        Carries-then _ (Carries-data curve f t.kind t.version p h) (
          Carries-then _
            (Carries-array encode_attribute decode_attribute (λ a (x, y). Carries-attribute a x y)
              [] t.attributes xs na)
            (Carries-then _
              (Carries-array encode_input decode_input Carries-input [] t.inputs is ni)
              (Carries-last _ (Carries-outputs t.outputs os lo) λ r. refl))))))

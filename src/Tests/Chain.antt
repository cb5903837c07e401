-- ===== src/Tests/Chain.antt =====
-- Transactions, keys and state (pkg/core, pkg/crypto/keys) on concrete values. The curve is a small
-- one, over the field of three elements.
use neovm.Prelude.{
  ℕ, zero, suc, ◌+◌, ◌*◌, ◌%◌, ◌<◌, ◌≡◌, ◌⊎◌, inl, inr, refl, true, List, Option, some, none, ◌==◌,
  if◌then◌else◌, arith,
}
use neovm.Io.Codec.{Carries}
use neovm.Keys.PublicKey.{
  Curve, point, IsField, decode_compressed_y, encode_public_key, decode_public_key,
}
use neovm.Keys.PublicKey.{get_verification_script}
use neovm.Keys.PublicKey.Script.{get_verification_script-is_signature_contract}
use neovm.Vm.Contracts.{is_signature_contract}
use neovm.Keys.PublicKey.RoundTrip.{Carries-public_key, decode_compressed_y_lem}

-- y² = x³ - 3x over the field of three elements, with the smaller root.
abbrev root3 : ℕ → Option ℕ
root3 z = if z == 0 then some 0 else if z == 1 then some 1 else none

abbrev pub curve3 : Curve
curve3 = record {
  p = 3;
  b = 0;
  mod_sqrt = λ z p. root3 z;
  is_on_curve = λ x y. (y * y % 3) == (x * x * x % 3);
}

root3_found :
    (y z : ℕ) → y < 3 → y * y % 3 ≡ z → (r : ℕ) × (root3 z ≡ some r) × ((r ≡ y) ⊎ (r + y ≡ 3))
root3_found zero z h e = rw⁻¹ e (0, refl, inl refl)
root3_found (suc zero) z h e = rw⁻¹ e (1, refl, inl refl)
root3_found (suc (suc zero)) z h e = rw⁻¹ e (1, refl, inr refl)
root3_found (suc (suc (suc y))) z h e = absurd (omega arith)

pub curve3-IsField : IsField curve3
curve3-IsField = record { odd = refl; fits = omega arith; root = root3_found }

decode_compressed_y_lem_example : decode_compressed_y curve3 1 0 ≡ some 2
decode_compressed_y_lem_example =
    decode_compressed_y_lem curve3 curve3-IsField 1 2 (omega arith, omega arith, refl)

Carries-public_key_example :
    Carries (encode_public_key (point 1 2)) (decode_public_key curve3) (point 1 2)
Carries-public_key_example =
    Carries-public_key curve3 curve3-IsField (point 1 2) (omega arith, omega arith, refl)

get_verification_script-is_signature_contract_example :
    (script : List ℕ) × (get_verification_script (point 1 2) ≡ some script)
    × (is_signature_contract script ≡ true)
get_verification_script-is_signature_contract_example =
    get_verification_script-is_signature_contract 1 2 (omega arith)

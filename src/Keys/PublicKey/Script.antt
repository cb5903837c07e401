-- ===== src/Keys/PublicKey/Script.antt =====
-- The verification script of a key, and the machine's check for such scripts.
use neovm.Prelude.{
  ℕ, ◌^◌, ◌<◌, ◌≡◌, refl, subst, ◌∙◌, true, some, List, [], ◌∷◌, ◌++◌, length, length-append,
  get_or, get_or-append_length, reverse, length-reverse, put_le, length-put_le, arith,
}
use neovm.Vm.Opcode
use neovm.Vm.Contracts.{is_signature_contract}
use neovm.Vm.Contracts.Signature.{is_signature_contract_lem}
use neovm.Keys.PublicKey.RoundTrip.{tag, bytes-point}
use neovm.Keys.PublicKey.{point, coord_len, get_verification_script}

-- GetVerificationScript gives a script for every key with coordinates whose X coordinate fits 32
-- bytes, and IsSignatureContract accepts it.
pub get_verification_script-is_signature_contract :
    (x y : ℕ)
    → x < 256 ^ coord_len
    → (script : List ℕ) × (get_verification_script (point x y) ≡ some script)
      × (is_signature_contract script ≡ true)
unfolding get_verification_script
get_verification_script-is_signature_contract x y h = (
  Opcode.pushbytes33 ∷ ((tag y ∷ xs) ++ (Opcode.checksig ∷ [])),
  rw (get_verification_script, bytes-point x y h),
  is_signature_contract_lem (Opcode.pushbytes33 ∷ ((tag y ∷ xs) ++ (Opcode.checksig ∷ [])))
      ∙ rw (long, last) refl,
)
  where
    xs : List ℕ
    xs = reverse (put_le coord_len x)

    width : length xs ≡ 32
    width = length-reverse (put_le coord_len x) ∙ length-put_le coord_len x

    long : length (xs ++ (Opcode.checksig ∷ [])) ≡ 33
    long = length-append xs (Opcode.checksig ∷ []) ∙ omega (arith, width)

    last : get_or (xs ++ (Opcode.checksig ∷ [])) 32 0 ≡ Opcode.checksig
    last =
        subst (λ n. get_or (xs ++ (Opcode.checksig ∷ [])) n 0 ≡ Opcode.checksig) width
          (get_or-append_length xs Opcode.checksig 0 [])

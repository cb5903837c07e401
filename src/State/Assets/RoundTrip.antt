-- ===== src/State/Assets/RoundTrip.antt =====
-- The records of assets, contracts and validators are read back as they were written.
use neovm.Prelude.{ℕ, List, [], ◌≡◌, refl, sym, ap, some}
use neovm.Io.Codec.{Carries, Carries-then, Carries-last}
use neovm.Io.RoundTrip.{
  Carries-b, Carries-bool, Carries-u32_le, Carries-string, Carries-var_bytes, Carries-array,
}
use neovm.Io.Reader.{read_b, reader}
use neovm.Io.Writer.{write_b}
use neovm.Util.Values.{Carries-uint160, Carries-uint256, Carries-fixed8}
use neovm.Keys.PublicKey.{Curve, IsField}
use neovm.Keys.PublicKey.RoundTrip.{Carries-public_key}
use neovm.State.Assets.{
  Asset, IsAsset, encode_asset, decode_asset, Validator, IsValidator, encode_validator,
  decode_validator, Contract, IsContract, encode_contract, decode_contract, hash160,
}

-- For a curve as IsField says, an asset with its fields in the ranges of their types is read back as it was written.
Carries-asset :
    (curve : Curve)
    → IsField curve
    → (a : Asset) → IsAsset curve a
    → Carries (encode_asset a) (decode_asset curve) a
unfolding encode_asset decode_asset
Carries-asset curve f a (h0, h1, h2, h3, h4, h5, h6, h7, h8, h9, h10, h11) =
    Carries-then _ (Carries-uint256 a.id h0) (
      Carries-then _ (Carries-b a.asset_type h1) (
        Carries-then _ (Carries-string a.name h2) (
          Carries-then _ (Carries-fixed8 a.amount h3) (
            Carries-then _ (Carries-fixed8 a.available h4) (
              Carries-then _ (Carries-b a.precision h5) (
                Carries-then _ (Carries-b a.fee_mode h6) (
                  Carries-then _ (Carries-uint160 a.fee_address h7) (
                    Carries-then _ (Carries-public_key curve f a.owner h8) (
                      Carries-then _ (Carries-uint160 a.admin h9) (
                        Carries-then _ (Carries-uint160 a.issuer h10) (
                          Carries-then _ (Carries-u32_le a.expiration h11)
                            (Carries-last _ (Carries-bool a.is_frozen) λ r. refl))))))))))))

-- For a curve as IsField says, a validator with its votes in the range of their type is read back as it was written.
Carries-validator :
    (curve : Curve)
    → IsField curve
    → (v : Validator) → IsValidator curve v
    → Carries (encode_validator v) (decode_validator curve) v
unfolding encode_validator decode_validator
Carries-validator curve f v (h0, h1) = Carries-then _ (Carries-public_key curve f v.public_key h0) (
    Carries-then _ (Carries-bool v.registered)
      (Carries-last _ (Carries-fixed8 v.votes h1) λ r. refl))

with_hash : (c : Contract) (h : List ℕ) → c.script_hash ≡ h → record c { script_hash = h } ≡ c
with_hash c h p = ap (λ k. record c { script_hash = k }) (sym p)

-- A contract with its fields in the ranges of their types and the hash of its script is read back as it was written.
Carries-contract :
    (sha256 ripemd160 : List ℕ → List ℕ) (c : Contract)
    → IsContract sha256 ripemd160 c
    → Carries (encode_contract c) (decode_contract sha256 ripemd160) c
unfolding encode_contract decode_contract
Carries-contract sha256 ripemd160 c (h0, h1, h2, h3, h4, h5, h6, h7, h8, h9, h10) =
    Carries-then _ (Carries-var_bytes c.script h0) (
      Carries-then _ (Carries-array write_b read_b Carries-b [] c.param_list h1 h2) (
        Carries-then _ (Carries-b c.return_type h3) (
          Carries-then _ (Carries-b c.properties h4) (
            Carries-then _ (Carries-string c.name h5) (
              Carries-then _ (Carries-string c.code_version h6) (
                Carries-then _ (Carries-string c.author h7) (
                  Carries-then _ (Carries-string c.email h8) (
                    Carries-last _ (Carries-string c.description h9) λ r.
                      ap (λ d. some (d, reader r))
                        (with_hash c (hash160 sha256 ripemd160 c.script) h10)))))))))

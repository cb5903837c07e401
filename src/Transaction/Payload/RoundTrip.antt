-- ===== src/Transaction/Payload/RoundTrip.antt =====
-- The data of a transaction are read back as they were written.
use neovm.Prelude.{
  ℕ, ◌^◌, ◌<◌, ◌≡◌, refl, sym, ap, Bool, false, length, All, leb, lt→ltb, ◌==◌, if◌then◌else◌,
  Bool-cases, inl, inr, pure, arith,
}
use neovm.Prelude.Int.{ℤ, pos, negsuc, IsI64, ◌≤ℤ◌, ltb_ℤ}
use neovm.Io.Reader.{failed, read_b, read_bool}
use neovm.Io.Writer.{write_b, write_bool, write_elems}
use neovm.Io.Codec.{Carries, Carries-then, Carries-last, Carries-pure, Carries-congr}
use neovm.Io.RoundTrip.{
  Carries-b, Carries-bool, Carries-var_uint, Carries-var_bytes, Carries-string, Carries-elems,
}
use neovm.Util.Values.{IsUint160, Carries-uint160, Carries-fixed8, encode_fixed8, less_than}
use neovm.Keys.PublicKey.{Curve, IsKey, IsField}
use neovm.Keys.PublicKey.RoundTrip.{Carries-public_key}
use neovm.Transaction.Parts.{Fits}
use neovm.Transaction.Payload.{
  InvocationTx, decode_invocation, encode_invocation, PublishTx, decode_publish, encode_publish,
  RegisterTx, decode_register, encode_register, read_params, check_gas, decode_gas, check_script,
}

-- The script of an invocation is not empty and its gas is not negative; version 0 has no gas.
abbrev pub IsInvocation : InvocationTx → Type 0
IsInvocation tx =
    Fits tx.script
    × (0 < length tx.script)
    × IsI64 tx.gas
    × (pos 0 ≤ℤ tx.gas)
    × (tx.version ≡ 0 → tx.gas ≡ pos 0)

-- The strings and the parameters fit; version 0 has no storage flag.
abbrev pub IsPublish : PublishTx → Type 0
IsPublish tx =
    Fits tx.script
    × (length tx.param_list < 2 ^ 63)
    × All (λ p. p < 2 ^ 8) tx.param_list
    × (tx.return_type < 2 ^ 8)
    × (tx.version ≡ 0 → tx.need_storage ≡ false)
    × Fits tx.name
    × Fits tx.code_version
    × Fits tx.author
    × Fits tx.email
    × Fits tx.description

abbrev pub IsRegister : Curve → RegisterTx → Type 0
IsRegister curve tx =
    (tx.asset_type < 2 ^ 8)
    × Fits tx.name
    × IsI64 tx.amount
    × (tx.precision < 2 ^ 8)
    × IsKey curve tx.owner
    × IsUint160 tx.admin

Carries-flag :
    (version : ℕ) (b : Bool)
    → (version ≡ 0 → b ≡ false)
    → Carries
        (if leb 1 version then write_bool b else pure tt)
        (if leb 1 version then read_bool else pure false)
        b
Carries-flag version b h = elim (Bool-cases (leb 1 version)) [
  | inl newer ↦ rw newer (Carries-bool b)
  | inr old ↦ rw (old, h (ground arith)) (Carries-pure false)
]

-- The data of a publish transaction, with strings within the limit of the reader and without
-- storage flag in version 0, are read back as they were written.
pub Carries-publish :
    (tx : PublishTx) → IsPublish tx → Carries (encode_publish tx) (decode_publish tx.version) tx
unfolding encode_publish decode_publish
Carries-publish tx (s, n, ps, t, f, a, b, c, d, e) =
    Carries-then _ (Carries-var_bytes tx.script s) (
      Carries-then _ (Carries-var_uint (length tx.param_list) (omega arith)) (
        Carries-then _ (params n ps) (
          Carries-then _ (Carries-b tx.return_type t) (
            Carries-then _ (Carries-flag tx.version tx.need_storage f) (
              Carries-then _ (Carries-string tx.name a) (
                Carries-then _ (Carries-string tx.code_version b) (
                  Carries-then _ (Carries-string tx.author c) (
                    Carries-then _ (Carries-string tx.email d)
                      (Carries-last _ (Carries-string tx.description e) λ r. refl)))))))))
  where
    params :
        length tx.param_list < 2 ^ 63
        → All (λ p. p < 2 ^ 8) tx.param_list
        → Carries
            (write_elems write_b tx.param_list)
            (read_params (length tx.param_list))
            tx.param_list
    params n ps =
        Carries-congr (Carries-elems write_b read_b Carries-b tx.param_list ps) (λ out. refl)
          (λ r. rw (lt→ltb (length tx.param_list) (2 ^ 63) n))

-- The data of a register transaction, with a name within the limit of the reader and a key of the
-- curve, are read back as they were written.
pub Carries-register :
    (curve : Curve)
    → IsField curve
    → (tx : RegisterTx) → IsRegister curve tx
    → Carries (encode_register tx) (decode_register curve) tx
unfolding encode_register decode_register
Carries-register curve f tx (t, n, a, p, o, u) = Carries-then _ (Carries-b tx.asset_type t) (
    Carries-then _ (Carries-string tx.name n) (
      Carries-then _ (Carries-fixed8 tx.amount a) (
        Carries-then _ (Carries-b tx.precision p) (
          Carries-then _ (Carries-public_key curve f tx.owner o)
            (Carries-last _ (Carries-uint160 tx.admin u) λ r. refl)))))

not_negative : (z : ℤ) → pos 0 ≤ℤ z → ltb_ℤ z (pos 0) ≡ false
not_negative (pos n) h = ground arith
not_negative (negsuc n) h = ground arith

Carries-gas :
    (tx : InvocationTx)
    → IsInvocation tx
    → Carries
        (if leb 1 tx.version then encode_fixed8 tx.gas else pure tt)
        (decode_gas tx.version tx.script)
        tx
unfolding failed less_than
Carries-gas tx (s, n, g, positive, old) = elim (Bool-cases (leb 1 tx.version)) [
  | inl newer ↦ rw newer (
      Carries-last (check_gas tx.version tx.script) (Carries-fixed8 tx.gas g)
        λ r. rw (not_negative tx.gas positive))
  | inr older ↦
      let none_left : record tx { gas = pos 0 } ≡ tx =
        ap (λ z. record tx { gas = z }) (sym (old (ground arith))) in
      rw (older, none_left) (Carries-pure tx)
]

-- An invocation with a script that is not empty and within the limit of the reader, and with gas
-- that is not negative and zero in version 0, is read back as it was written.
pub Carries-invocation :
    (tx : InvocationTx)
    → IsInvocation tx
    → Carries (encode_invocation tx) (decode_invocation tx.version) tx
unfolding encode_invocation decode_invocation failed
Carries-invocation tx (s, n, g, p, o) =
    Carries-then (check_script tx.version) (Carries-var_bytes tx.script s) (
      Carries-congr (Carries-gas tx (s, n, g, p, o)) (λ out. refl)
        (λ r. rw (is_script (length tx.script) n)))
  where
    is_script : (n : ℕ) → 0 < n → (n == 0) ≡ false
    is_script n p = ground arith

-- ===== src/SmartContract/Script.antt =====
-- The script of a multi-signature contract (pkg/smartcontract/contract.go) and the machine's check
-- for such scripts.
use neovm.Prelude.{
  ℕ, zero, suc, ◌-◌, ◌≤◌, ◌<◌, ◌≡◌, refl, ap, ◌∙◌, false, some, List, [], ◌∷◌, ◌++◌, length,
  append_assoc, append-nil, arith, All, reverse, put_le, length-put_le, length-reverse, map,
}
use neovm.Prelude.Int.{pos, ltb_ℤ}
use mathlib.Core.List.{Perm}
use neovm.Io.Writer.{writer, write_elems, buf_bytes}
use neovm.Emit.Instructions.{emit_bytes}
use neovm.Vm.Contracts.{keys, max_array_size, parse_multi_sig_contract}
use neovm.Vm.Contracts.Multisig.{IsKeyBytes, key-Emits, codes}
use neovm.Vm.Contracts.Built.{check-Emits, built, parse-built}
use neovm.Keys.PublicKey.{PublicKey, infinity, point, coord_len, bytes}
use neovm.Keys.PublicKey.RoundTrip.{tag, bytes-point}
use neovm.Keys.Sorting.Order.{sort_keys-perm, length-perm}
use neovm.Keys.Sorting.Total.{IsFinite, sort_keys-Sorts}
use neovm.SmartContract.{script, emit_key, emit_redeem, create_multi_sig_redeem_script}
use neovm.SmartContract.Counts.{emit_int-Counts}

-- The bytes of a key with coordinates.
abbrev pub key_bytes : PublicKey → List ℕ
key_bytes infinity = 0x00 ∷ []
key_bytes (point x y) = tag y ∷ reverse (put_le coord_len x)

bytes-key_bytes : (key : PublicKey) → IsFinite key → bytes key ≡ some (key_bytes key)
bytes-key_bytes infinity h = absurd h
bytes-key_bytes (point x y) h = bytes-point x y h

key_bytes-IsKeyBytes : (key : PublicKey) → IsFinite key → IsKeyBytes (key_bytes key)
key_bytes-IsKeyBytes infinity h = absurd h
key_bytes-IsKeyBytes (point x y) h =
    ap suc (length-reverse (put_le coord_len x) ∙ length-put_le coord_len x)

all-IsKeyBytes : (ks : List PublicKey) → All IsFinite ks → All IsKeyBytes (map key_bytes ks)
all-IsKeyBytes [] hs = tt
all-IsKeyBytes (k ∷ ks) (h, hs) = (key_bytes-IsKeyBytes k h, all-IsKeyBytes ks hs)

length-map_bytes : (ks : List PublicKey) → length (map key_bytes ks) ≡ length ks
length-map_bytes [] = refl
length-map_bytes (k ∷ ks) = ap suc (length-map_bytes ks)

emit_key-bytes :
    (k : PublicKey) (h : IsFinite k) (out : List ℕ)
    → emit_key k (writer out) ≡ emit_bytes (key_bytes k) (writer out)
unfolding emit_key
emit_key-bytes k h out = rw (emit_key, bytes-key_bytes k h) refl

writes-keys :
    (ks : List PublicKey) (hs : All IsFinite ks) (out : List ℕ)
    → write_elems emit_key ks (writer out)
      ≡ some (tt, writer (out ++ codes (map key_bytes ks) (all-IsKeyBytes ks hs)))
unfolding write_elems codes key_bytes-IsKeyBytes all-IsKeyBytes
writes-keys [] hs out = rw append-nil
writes-keys (k ∷ ks) (h, hs) out =
    let first = key-Emits (key_bytes k) (key_bytes-IsKeyBytes k h) in
    rw (emit_key-bytes k h out, first.writes out)
      (writes-keys ks hs (out ++ first.code) ∙ rw append_assoc)

module _ (m n : ℕ) (ks : List PublicKey) (hs : All IsFinite ks) (lm : m < 1024)
    (ln : n < 1024) where
  abbrev redeem : List ℕ
  redeem =
      built (emit_int-Counts m lm) (emit_int-Counts n ln) (map key_bytes ks) (all-IsKeyBytes ks hs)

  writes-redeem :
      length ks ≡ suc n → emit_redeem (pos (suc m)) ks (writer []) ≡ some (tt, writer redeem)
  unfolding emit_redeem
  writes-redeem e =
      let signs = emit_int-Counts m lm in
      let number = emit_int-Counts n ln in
      rw (e, signs.emits.writes [], writes-keys ks hs signs.emits.code)
        (rw (number.emits.writes _, check-Emits.writes _) (simp append_assoc))

-- For 1 to 1024 keys with coordinates, of which X fits 32 bytes, and a number of signatures from
-- one to that of the keys, CreateMultiSigRedeemScript sorts the keys to some order of them and
-- returns a script, from which ParseMultiSigContract gets the bytes of the sorted keys.
pub create-parse :
    (m : ℕ) (public_keys : List PublicKey)
    → All IsFinite public_keys
    → 0 < m
    → m ≤ length public_keys
    → length public_keys ≤ max_array_size
    → (sorted : List PublicKey) × (code : List ℕ) × Perm sorted public_keys
      × (create_multi_sig_redeem_script (pos m) public_keys ≡ some (script code, sorted))
      × (parse_multi_sig_contract code ≡ keys (map key_bytes sorted))
unfolding create_multi_sig_redeem_script buf_bytes
create-parse zero ks hs lo few most = absurd (omega arith)
create-parse (suc m) ks hs lo few most =
    let s = sort_keys-Sorts ks hs in
    let n : ℕ = length ks - 1 in
    let lm : m < 1024 = omega arith in
    let ln : n < 1024 = omega arith in
    let whole : length s.result ≡ suc n = omega (arith, s.size) in
    let number : length (map key_bytes s.result) ≡ suc n = length-map_bytes s.result ∙ whole in
    let enough : suc m ≤ length (map key_bytes s.result) = omega (arith, number) in
    let positive : ltb_ℤ (pos (suc m)) (pos 1) ≡ false = ground arith in
    let not_more : ltb_ℤ (pos (length ks)) (pos (suc m)) ≡ false = ground arith in
    let not_many : ltb_ℤ (pos 1024) (pos (suc m)) ≡ false = ground arith in
    (
      s.result,
      redeem m n s.result s.finite lm ln,
      s.perm,
      rw (positive, not_more, not_many, s.found, writes-redeem m n s.result s.finite lm ln whole)
          refl,
      parse-built (emit_int-Counts m lm) (emit_int-Counts n ln) (map key_bytes s.result)
          (all-IsKeyBytes s.result s.finite) enough number (omega arith),
    )

-- For the same keys in another order, with a number of signatures from one to that of the keys and
-- at most 1024, CreateMultiSigRedeemScript returns the same script and leaves the same keys, or
-- panics for both.
pub create-perm :
    (m : ℕ) (ks js : List PublicKey)
    → Perm ks js
    → 0 < m
    → m ≤ length ks
    → m ≤ 1024
    → create_multi_sig_redeem_script (pos m) ks ≡ create_multi_sig_redeem_script (pos m) js
unfolding create_multi_sig_redeem_script
create-perm m ks js p lo few most =
    let positive : ltb_ℤ (pos m) (pos 1) ≡ false = ground arith in
    let not_more : ltb_ℤ (pos (length ks)) (pos m) ≡ false = ground arith in
    let same = length-perm p in
    let not_more' : ltb_ℤ (pos (length js)) (pos m) ≡ false = ground arith in
    let not_many : ltb_ℤ (pos 1024) (pos m) ≡ false = ground arith in
    rw (positive, not_more, not_more', not_many, sort_keys-perm ks js p) refl

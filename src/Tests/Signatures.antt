-- ===== src/Tests/Signatures.antt =====
-- The check of several signatures (pkg/vm/vm.go) on concrete keys, over the small curve.
use neovm.Prelude.{
  ℕ, zero, suc, ◌≤◌, ◌<◌, ◌≡◌, refl, true, false, some, List, [], ◌∷◌, ◌++◌, length, get_or,
  replicate, from_le, arith, ◌==◌,
}
use neovm.Keys.PublicKey.{
  PublicKey, infinity, point, decode_bytes, decode_public_key, decode_compressed,
  decode_compressed_y,
}
use neovm.Io.Reader.{read_b, read_bytes, failed}
use neovm.Vm.Multisig.{
  Scheme, Keys, answer, panic, crash, decode_key, bytes_to_public_key, verify, receive, results,
  check_multisig_par,
}
use neovm.Vm.Multisig.Cache.{IsCache}
use neovm.Vm.Multisig.Greedy.{greedy}
use neovm.Vm.Multisig.Schedule.{made, check_multisig_par-greedy}
use neovm.Tests.Chain.{curve3}

-- A signature is made by the point when its first half is 9.
abbrev scheme : Scheme
scheme = record { curve = curve3; ecdsa_verify = λ x y hash r s. r == 9; checkhash = 1 ∷ [] }

abbrev point_bytes : List ℕ
point_bytes = 2 ∷ (replicate 31 0 ++ 1 ∷ [])

abbrev keys : List (List ℕ)
keys = point_bytes ∷ (0 ∷ []) ∷ point_bytes ∷ []

abbrev nine : List ℕ
nine = replicate 31 0 ++ (9 ∷ replicate 32 0)

abbrev two_signatures : List (List ℕ)
two_signatures = nine ∷ nine ∷ []

abbrev key_at : ℕ → PublicKey
key_at zero = point 1 2
key_at (suc zero) = infinity
key_at (suc (suc n)) = point 1 2

keys_decode : (i : ℕ) → i < 3 → decode_key scheme (get_or keys i []) ≡ some (key_at i)
unfolding decode_bytes decode_public_key decode_compressed decode_compressed_y read_b read_bytes
    failed from_le
keys_decode zero h = refl
keys_decode (suc zero) h = refl
keys_decode (suc (suc zero)) h = refl
keys_decode (suc (suc (suc i))) h = absurd (omega arith)

signatures_long : (j : ℕ) → j < 2 → 64 ≤ length (get_or two_signatures j [])
signatures_long zero h = omega arith
signatures_long (suc zero) h = omega arith
signatures_long (suc (suc j)) h = absurd (omega arith)

-- The newer of two tasks is answered first.
check_multisig_par-greedy_example :
    (cache : Keys) × (check_multisig_par scheme keys two_signatures (λ _. false) 4 []
      ≡ answer
          (greedy (made scheme keys two_signatures key_at keys_decode signatures_long) 0 3 0 2)
          cache)
    × IsCache scheme cache
check_multisig_par-greedy_example =
    check_multisig_par-greedy scheme keys two_signatures key_at keys_decode signatures_long
      (λ _. false) 4 [] (omega arith) (omega arith) tt (omega arith)

-- The second of five keys is no key. Whether the machine panics or accepts three signatures depends
-- on which of the first two tasks is answered first.
abbrev five_keys : List (List ℕ)
five_keys = point_bytes ∷ [] ∷ point_bytes ∷ point_bytes ∷ point_bytes ∷ []

abbrev three_signatures : List (List ℕ)
three_signatures = nine ∷ nine ∷ nine ∷ []

front_first : check_multisig_par scheme five_keys three_signatures (λ _. true) 5 [] ≡ panic
unfolding check_multisig_par results receive verify bytes_to_public_key decode_bytes
    decode_public_key decode_compressed decode_compressed_y read_b read_bytes failed from_le
front_first = refl

back_first :
    check_multisig_par scheme five_keys three_signatures (λ _. false) 5 []
    ≡ answer true ((point_bytes, point 1 2) ∷ [])
unfolding check_multisig_par results receive verify bytes_to_public_key decode_bytes
    decode_public_key decode_compressed decode_compressed_y read_b read_bytes failed from_le
back_first = refl

-- A short signature ends the program, since no one recovers the panic of a worker.
short_signature : check_multisig_par scheme keys (nine ∷ [] ∷ []) (λ _. false) 4 [] ≡ crash
unfolding check_multisig_par results receive verify bytes_to_public_key decode_bytes
    decode_public_key decode_compressed decode_compressed_y read_b read_bytes failed from_le
short_signature = refl

-- ===== src/Vm/Multisig/Schedule.antt =====
-- checkMultisigPar (pkg/vm/vm.go) against the greedy check, in whatever order its workers answer.
pub mod Setup
pub mod Sends
pub mod Both
pub mod Alone
pub mod Loop
use neovm.Prelude.{
  ℕ, zero, suc, ◌+◌, ◌-◌, ◌≤◌, ◌<◌, ◌≡◌, refl, sym, ap, ◌∙◌, Bool, true, false, ◌&&◌, some, List,
  [], ◌∷◌, ◌++◌, length, get_elem?, get_or, ◌==◌, if◌then◌else◌, arith, Bool-cases, inl, inr,
  le→not-ltb, ==_iff,
}
use neovm.Keys.PublicKey.{PublicKey, infinity, point}
use neovm.Vm.Multisig.{
  Scheme, Keys, Outcome, answer, Task, Race, Turn, ended, going, panicked, decode_key, signs,
  verify, send, receive, work, results, pick, check_multisig1, check_multisig_par,
}
use neovm.Vm.Multisig.Cache.{IsCache, bytes_to_public_key-IsCache}
use neovm.Vm.Multisig.Greedy.{greedy, greedy_short, greedy_none, greedy_front, greedy_back}
use neovm.Vm.Multisig.Schedule.Setup.{
  Votes, verify-signs, forth, back, Ends, Form, Next, moved, send_lem, work_lem,
}
use neovm.Vm.Multisig.Schedule.Sends.{forth_sent, back_sent, forth_alone, back_alone}
use neovm.Vm.Multisig.Schedule.Both.{greedy_end, forth_both, back_both}
use neovm.Vm.Multisig.Schedule.Alone.{decided_last, decided_first, forth_end, back_end}
use neovm.Vm.Multisig.Schedule.Loop.{results-Settles}

module _ (scheme : Scheme) (pkeys sigs : List (List ℕ)) (key_at : ℕ → PublicKey)
    (decodes : (i : ℕ) → i < length pkeys → decode_key scheme (get_or pkeys i []) ≡ some (key_at i))
    (long : (j : ℕ) → j < length sigs → 64 ≤ length (get_or sigs j [])) where
  -- The signature j is one of the key i.
  abbrev pub made : ℕ → ℕ → Bool
  made i j = signs scheme (key_at i) (get_or sigs j [])

  -- The check ends with this answer.
  abbrev pub Settles : Outcome → Bool → Type 0
  Settles o b = (keys : Keys) × (o ≡ answer b keys) × IsCache scheme keys

  abbrev vote : Votes
  vote = record {
    scheme = scheme;
    pkeys = pkeys;
    sigs = sigs;
    key_at = key_at;
    decodes = decodes;
    long = long;
  }

  -- One signature: the keys are tried in order.
  check_multisig1-Settles :
      (rest : List (List ℕ)) (i : ℕ) (keys : Keys)
      → ((k : ℕ) → k < length rest → decode_key scheme (get_or rest k []) ≡ some (key_at (i + k)))
      → 0 < length sigs
      → IsCache scheme keys
      → Settles
          (check_multisig1 scheme keys rest (get_or sigs 0 []))
          (greedy made i (length rest) 0 1)
  unfolding check_multisig1
  check_multisig1-Settles [] i keys d h c =
      (keys, rw (greedy_short made i 0 0 1 (omega arith)) refl, c)
  check_multisig1-Settles (b ∷ rest) i keys d h c =
      let at : i + 0 ≡ i = omega arith in
      let (keys', e, c') =
        bytes_to_public_key-IsCache scheme keys b (key_at i) c (rw⁻¹ at (d 0 (omega arith))) in
      let v = verify-signs scheme (key_at i) (get_or sigs 0 []) (long 0 h) in
      let later =
        check_multisig1-Settles rest (i + 1) keys'
          (λ k l.
            let next : i + 1 + k ≡ i + suc k = omega arith in rw next (d (suc k) (omega arith)))
          h c' in
      elim (Bool-cases (made i 0)) [
        | inl y ↦ (
          keys',
          rw
              (
                check_multisig1,
                e,
                v,
                y,
                greedy_front made i (length rest) 0 0,
                y,
                greedy_none made (i + 1) (length rest) 1,
              )
              refl,
          c',
        )
        | inr n ↦ rw (check_multisig1, e, v, n, greedy_front made i (length rest) 0 0, n) later
      ]

  -- With keys that decode, signatures of 64 bytes or more, at least one signature and no fewer keys
  -- than signatures, and a cache that holds keys under their bytes, checkMultisigPar ends with the
  -- answer of the greedy check, which gives the signatures to the keys in order, in whatever order
  -- its workers answer, and the cache still holds keys under their bytes.
  pub check_multisig_par-greedy :
      (first_done : ℕ → Bool) (fuel : ℕ) (keys : Keys)
      → 0 < length sigs
      → length sigs ≤ length pkeys
      → IsCache scheme keys
      → length pkeys ≤ fuel
      → Settles
          (check_multisig_par scheme pkeys sigs first_done fuel keys)
          (greedy made 0 (length pkeys) 0 (length sigs))
  unfolding check_multisig_par
  check_multisig_par-greedy first_done fuel keys some_sig enough c f =
      elim (Bool-cases (length sigs == 1)) [
        | inl one ↦
            let single : length sigs ≡ 1 = (==_iff (length sigs) 1).0 one in
            rw (one, single)
              (check_multisig1-Settles pkeys 0 keys
                (λ k l. let same : 0 + k ≡ k = omega arith in rw same (decodes k l)) some_sig c)
        | inr several ↦
            let two : 2 ≤ length sigs = ground arith in
            let k2 = length pkeys - 1 in
            let s2 = length sigs - 1 in
            let q : Race = record {
              k1 = 0;
              k2 = k2;
              s1 = 0;
              s2 = s2;
              sigok = true;
              task_count = 0;
              tasks = [];
              keys = keys;
            } in
            let (keys1, c1, e1) = send_lem vote 0 0 q (omega arith) c in
            let q1 : Race = record q { task_count = 1; tasks = forth vote q ∷ []; keys = keys1 } in
            let (keys2, c2, e2) = send_lem vote k2 s2 q1 (omega arith) c1 in
            let q2 : Race = record q1 {
              task_count = 2;
              tasks = forth vote q ∷ (back vote) q ∷ [];
              keys = keys2;
            } in
            let all_keys : suc (suc (length pkeys - 2)) ≡ length pkeys = omega arith in
            let all_sigs : suc (suc (length sigs - 2)) ≡ length sigs = omega arith in
            let (last_keys, e, c3) =
              results-Settles vote first_done fuel q2 (length pkeys - 2) (length sigs - 2)
                (Form.both
                  (record {
                    k = omega arith;
                    s = omega arith;
                    key = omega arith;
                    sig = omega arith;
                    good = refl;
                    cache = c2;
                  })
                  refl refl)
                (omega arith) in
            (
              last_keys,
              rw (several, e1, e2)
                  (e
                    ∙ ap (λ a. answer (greedy made 0 a 0 (suc (suc (length sigs - 2)))) last_keys)
                        all_keys
                    ∙ ap (λ a. answer (greedy made 0 (length pkeys) 0 a) last_keys) all_sigs),
              c3,
            )
      ]

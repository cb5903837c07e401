-- ===== src/Vm/Multisig.antt =====
-- pkg/vm/vm.go: the check of several signatures (checkMultisigPar, checkMultisig1) with the cache of
-- public keys (bytesToPublicKey), and pkg/crypto/keys/publickey.go (Verify). The workers answer in
-- any order, and a panic of a worker, which nothing recovers, ends the program. ECDSA is Go's.
-- A signature has no capacity behind its length.
pub mod Greedy
pub mod Cache
pub mod Schedule
use neovm.Prelude.{
  ℕ, zero, suc, ◌+◌, ◌-◌, Bool, true, false, not, ◌&&◌, Option, none, some, List, [], ◌∷◌, ◌++◌,
  length, get_elem?, get_or, same_bytes, take, drop, ltb, ◌==◌, if◌then◌else◌,
}
use neovm.Keys.PublicKey.{Curve, PublicKey, infinity, point, set_bytes, decode_bytes}

-- What the checks stand on: the curve, `ecdsa.Verify` for a point, a hash and the numbers r and s,
-- and the hash checked.
pub record Scheme : Type 0 where
  pub curve : Curve
  pub ecdsa_verify : ℕ → ℕ → List ℕ → ℕ → ℕ → Bool
  pub checkhash : List ℕ

-- `v.keys`
abbrev pub Keys : Type 0
Keys = List (List ℕ × PublicKey)

abbrev pub cached : List ℕ → Keys → Option PublicKey
cached b [] = none
cached b ((a, key) ∷ keys) = if same_bytes a b then some key else cached b keys

-- What runs, or a panic that the machine recovers, or the end of the program by the panic of a
-- worker, or a wait for a result that no worker sends.
pub data Outcome : Type 0 where
  answer : Bool → Keys → Outcome
  panic : Outcome
  crash : Outcome
  blocked : Outcome

pub record Task : Type 0 where
  pub key : PublicKey
  pub signum : ℕ

-- The variables of `checkMultisigPar`, the tasks under way and the cache of the machine.
pub record Race : Type 0 where
  pub k1 : ℕ
  pub k2 : ℕ
  pub s1 : ℕ
  pub s2 : ℕ
  pub sigok : Bool
  pub task_count : ℕ
  pub tasks : List Task
  pub keys : Keys

-- After a result: the loop is left with an answer, or goes on, or panics.
pub data Turn : Type 0 where
  ended : Bool → Keys → Turn
  going : Race → Turn
  panicked : Turn

-- The task that is answered next, the older of two for `true`, and those still under way.
abbrev pub pick : Bool → List Task → Option (Task × List Task)
pick b [] = none
pick b (t ∷ []) = some (t, [])
pick true (t ∷ u ∷ tasks) = some (t, u ∷ tasks)
pick false (t ∷ u ∷ tasks) = some (u, t ∷ tasks)

module _ (scheme : Scheme) where
  -- `DecodeBytes` without an error.
  abbrev pub decode_key : List ℕ → Option PublicKey
  decode_key b = elim (decode_bytes scheme.curve b) [
    | none ↦ none
    | some (key, r) ↦ elim r.err [ none ↦ some key | some _ ↦ none ]
  ]

  unfoldable pub bytes_to_public_key : Keys → List ℕ → Option (PublicKey × Keys)
  bytes_to_public_key keys b = elim (cached b keys) [
    | some key ↦ some (key, keys)
    | none ↦ elim (decode_key b) [ none ↦ none | some key ↦ some (key, (b, key) ∷ keys) ]
  ]

  -- What `ecdsa.Verify` says of a signature of 64 bytes or more.
  abbrev pub signs : PublicKey → List ℕ → Bool
  signs infinity signature = false
  signs (point x y) signature =
      scheme.ecdsa_verify x y scheme.checkhash (set_bytes (take 32 signature))
        (set_bytes (take 32 (drop 32 signature)))

  -- `Verify`: a short signature is sliced out of range, but not for the key of infinity.
  unfoldable pub verify : PublicKey → List ℕ → Option Bool
  verify infinity signature = some false
  verify (point x y) signature =
      if ltb (length signature) 64 then none else some (signs (point x y) signature)

  unfoldable pub check_multisig1 : Keys → List (List ℕ) → List ℕ → Outcome
  check_multisig1 keys [] sig = answer false keys
  check_multisig1 keys (b ∷ pkeys) sig = elim (bytes_to_public_key keys b) [
    | none ↦ panic
    | some (key, keys') ↦ elim (verify key sig) [
      | none ↦ panic
      | some ok ↦
          let rest = check_multisig1 keys' pkeys sig in if ok then answer true keys' else rest
    ]
  ]

  module _ (pkeys : List (List ℕ)) (sigs : List (List ℕ)) where
    -- `tasks <- task{pub: v.bytesToPublicKey(pkeys[k]), signum: s}`
    abbrev pub send : ℕ → ℕ → Race → Turn
    send k s q = elim (get_elem? pkeys k) [
      | none ↦ panicked
      | some b ↦ elim (bytes_to_public_key q.keys b) [
        | none ↦ panicked
        | some (key, keys) ↦ going (record q {
          task_count = q.task_count + 1;
          tasks = q.tasks ++ (record { key = key; signum = s } ∷ []);
          keys = keys;
        })
      ]
    ]

    abbrev pub forward : Race → Turn
    forward q = send (q.k1 + 1) q.s1 (record q { k1 = q.k1 + 1 })

    abbrev pub backward : Race → Turn
    backward q = send (q.k2 - 1) q.s2 (record q { k2 = q.k2 - 1 })

    -- `taskCount != 0 && sigok`: wait for the other result, or leave the loop.
    abbrev pub wait : Race → Turn
    wait q = if not (q.task_count == 0) && q.sigok then going q else ended q.sigok q.keys

    -- The body of the loop, for the result of a task that is no more under way.
    unfoldable pub receive : ℕ → Bool → Race → Turn
    receive signum ok r =
        let q : Race = record r { task_count = r.task_count - 1 } in
        if q.k1 + 1 == q.k2
        then wait (record q { sigok = ok && (q.s1 + 1 == q.s2) })
        else if ok
        then (if q.s1 + 1 == q.s2
            then wait q
            else if signum == q.s2
            then backward (record q { s2 = q.s2 - 1 })
            else forward (record q { s1 = q.s1 + 1 }))
        else if signum == q.s2
        then backward q
        else forward q

    -- A worker verifies the task and the loop receives its result.
    abbrev pub work : Task → Race → Option Turn
    work t q = elim (get_elem? sigs t.signum) [
      | none ↦ none
      | some sig ↦ elim (verify t.key sig) [ none ↦ none | some ok ↦ some (receive t.signum ok q) ]
    ]

    -- The indices at both ends, and their tasks.
    abbrev pub start : Keys → Turn
    start keys =
        let k2 = length pkeys - 1 in
        let s2 = length sigs - 1 in
        let q : Race = record {
          k1 = 0;
          k2 = k2;
          s1 = 0;
          s2 = s2;
          sigok = true;
          task_count = 0;
          tasks = [];
          keys = keys;
        } in
        elim (send 0 0 q) [
          | ended ok keys' ↦ ended ok keys'
          | going q' ↦ send k2 s2 q'
          | panicked ↦ panicked
        ]

    -- The loop, on fuel; `first` says for each result whether the older or the newer of two tasks is
    -- the one that is answered.
    unfoldable pub results : (ℕ → Bool) → ℕ → Race → Outcome
    results first zero q = blocked
    results first (suc fuel) q = elim (pick (first fuel) q.tasks) [
      | none ↦ blocked
      | some (t, tasks) ↦ elim (work t (record q { tasks = tasks })) [
        | none ↦ crash
        | some (ended ok keys) ↦ answer ok keys
        | some (going q') ↦ results first fuel q'
        | some panicked ↦ panic
      ]
    ]

    -- `checkMultisigPar`: it starts from both ends of the keys and the signatures.
    unfoldable pub check_multisig_par : (ℕ → Bool) → ℕ → Keys → Outcome
    check_multisig_par first fuel keys =
        if length sigs == 1
        then check_multisig1 keys pkeys (get_or sigs 0 [])
        else elim (start keys) [
          | ended ok keys' ↦ answer ok keys'
          | going q ↦ results first fuel q
          | panicked ↦ panic
        ]

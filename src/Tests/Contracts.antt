-- ===== src/Tests/Contracts.antt =====
-- Contracts for several signatures (pkg/smartcontract/contract.go, pkg/vm/contract_checks.go) on
-- concrete keys.
use neovm.Prelude.{ℕ, ◌≡◌, some, List, [], ◌∷◌, map, arith}
use neovm.Prelude.Int.{pos}
use mathlib.Core.List.{Perm}
use mathlib.Core.List.Perm
use neovm.Keys.PublicKey.{PublicKey, point}
use neovm.Vm.Contracts.{keys, parse_multi_sig_contract}
use neovm.Vm.Contracts.Decides.{IsAnswer, parse_multi_sig_contract-IsAnswer}
use neovm.SmartContract.{script, create_multi_sig_redeem_script}
use neovm.SmartContract.Script.{key_bytes, create-parse, create-perm}

abbrev two_keys : List PublicKey
two_keys = point 9 2 ∷ point 4 5 ∷ []

create-parse_example :
    (sorted : List PublicKey) × (code : List ℕ) × Perm sorted two_keys
    × (create_multi_sig_redeem_script (pos 2) two_keys ≡ some (script code, sorted))
    × (parse_multi_sig_contract code ≡ keys (map key_bytes sorted))
create-parse_example =
    create-parse 2 two_keys (omega arith, (omega arith, tt)) (omega arith) (omega arith)
      (omega arith)

create-perm_example :
    create_multi_sig_redeem_script (pos 1) two_keys
    ≡ create_multi_sig_redeem_script (pos 1) (point 4 5 ∷ point 9 2 ∷ [])
create-perm_example =
    create-perm 1 two_keys (point 4 5 ∷ point 9 2 ∷ []) (Perm.swap (point 4 5) (point 9 2) [])
      (omega arith) (omega arith) (omega arith)

parse_multi_sig_contract-IsAnswer_example :
    IsAnswer (parse_multi_sig_contract (0x51 ∷ 0x21 ∷ 7 ∷ []))
parse_multi_sig_contract-IsAnswer_example = parse_multi_sig_contract-IsAnswer (0x51 ∷ 0x21 ∷ 7 ∷ [])

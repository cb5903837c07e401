-- ===== src/Vm/Contracts.antt =====
-- pkg/vm/contract_checks.go: the scripts that check one signature, and those that check several.
pub mod Signature
pub mod Multisig
pub mod Built
pub mod Decides
use neovm.Prelude.{
  ℕ, zero, suc, ◌+◌, ◌-◌, Bool, true, false, not, ◌&&◌, ◌||◌, Option, none, some, List, [], ◌∷◌,
  ◌++◌, length, get_or, take, leb, ltb, ◌==◌, if◌then◌else◌, from_le,
}
use neovm.Vm.Opcode
use neovm.Vm.Context.{Context, Fetched, next, new_context}
use neovm.Vm.Push.{parameter_of}

-- `err == nil && instr == op`
abbrev pub fetches : ℕ → Fetched → Bool
fetches op (Fetched.instruction i p) = i == op
fetches op (Fetched.no_inst_param i) = false
fetches op (Fetched.too_big i) = false

-- The last instruction is the one behind the end of the script.
abbrev pub ends_script : List ℕ → Context × Fetched → Bool
ends_script script (ctx, f) = if fetches Opcode.ret f then ctx.ip == length script else false

abbrev pub checks_signature : List ℕ → Context × Fetched → Bool
checks_signature script (ctx, f) =
    if fetches Opcode.checksig f then ends_script script (next ctx) else false

abbrev pub pushes_key : List ℕ → Context × Fetched → Bool
pushes_key script (ctx, f) =
    if fetches Opcode.pushbytes33 f then checks_signature script (next ctx) else false

unfoldable pub is_signature_contract : List ℕ → Bool
is_signature_contract script = pushes_key script (next (new_context script))

-- MaxArraySize of pkg/vm/vm.go
abbrev pub max_array_size : ℕ
max_array_size = 1024

abbrev pub in_array_size : ℕ → Option ℕ
in_array_size n = if ltb n 1 || ltb max_array_size n then none else some n

-- `getNumOfThingsFromInstr`: `none` is the panic on a parameter that is too short, and `some none`
-- the answer false.
unfoldable pub get_num_of_things_from_instr : ℕ → Option (List ℕ) → Option (Option ℕ)
get_num_of_things_from_instr i parameter =
    let b = parameter_of parameter in
    if leb Opcode.push1 i && leb i Opcode.push16
    then some (in_array_size (i - Opcode.push1 + 1))
    else if i == Opcode.pushbytes1
    then (if ltb (length b) 1 then none else some (in_array_size (get_or b 0 0)))
    else if i == Opcode.pushbytes2
    then (if ltb (length b) 2 then none else some (in_array_size (from_le (take 2 b))))
    else some none

-- What the loop over the keys ends with: the instruction behind them, with the keys and their
-- number, or the answer false.
pub data Scan : Type 0 where
  stopped : Context → ℕ → Option (List ℕ) → List (List ℕ) → ℕ → Scan
  too_many : Scan
  undecoded : Scan
  no_fuel : Scan

-- A round of the loop, with the rounds that follow.
abbrev pub scan_round :
    (Context → List (List ℕ) → ℕ → Scan) → List (List ℕ) → ℕ → Context × Fetched → Scan
scan_round more pubs nkeys (ctx, Fetched.instruction i p) =
    if i == Opcode.pushbytes33
    then (if ltb max_array_size (nkeys + 1)
        then too_many
        else more ctx (pubs ++ (parameter_of p ∷ [])) (nkeys + 1))
    else stopped ctx i p pubs nkeys
scan_round more pubs nkeys (ctx, Fetched.no_inst_param i) = undecoded
scan_round more pubs nkeys (ctx, Fetched.too_big i) = undecoded

unfoldable pub scan_keys : ℕ → Context → List (List ℕ) → ℕ → Scan
scan_keys zero ctx pubs nkeys = no_fuel
scan_keys (suc fuel) ctx pubs nkeys = scan_round (scan_keys fuel) pubs nkeys (next ctx)

-- What `ParseMultiSigContract` returns, or how it fails to return.
pub data Parsed : Type 0 where
  keys : List (List ℕ) → Parsed
  refused : Parsed
  panics : Parsed
  unfinished : Parsed

abbrev pub checks_multisig : List ℕ → Context × Fetched → Bool
checks_multisig script (ctx, f) =
    if fetches Opcode.checkmultisig f then ends_script script (next ctx) else false

-- The tests behind the loop.
abbrev pub judge_keys : List ℕ → ℕ → Scan → Parsed
judge_keys script nsigs (stopped ctx i p pubs nkeys) =
    if ltb nkeys nsigs then refused else elim (get_num_of_things_from_instr i p) [
      | none ↦ panics
      | some none ↦ refused
      | some (some nkeys2) ↦
          if nkeys2 == nkeys
          then (if checks_multisig script (next ctx) then keys pubs else refused)
          else refused
    ]
judge_keys script nsigs too_many = refused
judge_keys script nsigs undecoded = refused
judge_keys script nsigs no_fuel = unfinished

-- The first instruction pushes the number of signatures. Every round of the loop reads at least one
-- byte.
abbrev pub parse_behind : List ℕ → Context → Option (Option ℕ) → Parsed
parse_behind script ctx none = panics
parse_behind script ctx (some none) = refused
parse_behind script ctx (some (some nsigs)) =
    judge_keys script nsigs (scan_keys (length script + 1) ctx [] 0)

abbrev pub parse_from : List ℕ → Context × Fetched → Parsed
parse_from script (ctx, Fetched.instruction i p) =
    parse_behind script ctx (get_num_of_things_from_instr i p)
parse_from script (ctx, Fetched.no_inst_param i) = refused
parse_from script (ctx, Fetched.too_big i) = refused

unfoldable pub parse_multi_sig_contract : List ℕ → Parsed
parse_multi_sig_contract script = parse_from script (next (new_context script))

abbrev pub is_keys : Parsed → Bool
is_keys (keys pubs) = true
is_keys refused = false
is_keys panics = false
is_keys unfinished = false

unfoldable pub is_multi_sig_contract : List ℕ → Bool
unfolding parse_multi_sig_contract
is_multi_sig_contract script = is_keys (parse_multi_sig_contract script)

unfoldable pub is_standard_contract : List ℕ → Bool
unfolding is_multi_sig_contract is_signature_contract
is_standard_contract script = is_signature_contract script || is_multi_sig_contract script

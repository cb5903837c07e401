-- ===== src/Vm/Contracts/Decides.antt =====
-- ParseMultiSigContract (pkg/vm/contract_checks.go) answers for every script.
use neovm.Prelude.{
  ℕ, zero, suc, ◌+◌, ◌-◌, ◌≤◌, ◌<◌, ◌≡◌, ◌≢◌, refl, ap, false, Option, none, some, List, [], length,
  length-take, length-drop, drop, leb, ltb, ◌==◌, ==_iff, arith, inl, inr, Bool-cases,
  if◌then◌else◌,
}
use neovm.Vm.Opcode
use neovm.Vm.Context.{
  Context, Fetched, Operand, next, new_context, operand_of, read_operand, is_jump, slice,
}
use neovm.Vm.Context.Bounds.{next-Advances}
use neovm.Vm.Contracts.{
  Scan, stopped, too_many, undecoded, no_fuel, Parsed, keys, refused, panics, unfinished,
  get_num_of_things_from_instr, scan_round, scan_keys, max_array_size, judge_keys, parse_from,
  parse_behind, parse_multi_sig_contract, checks_multisig,
}
use neovm.Vm.Contracts.Signature.{next-end}

-- The number of a fetched instruction can be asked for without a panic.
abbrev Answers : Fetched → Type 0
Answers (Fetched.instruction i p) = get_num_of_things_from_instr i p ≢ none
Answers (Fetched.no_inst_param i) = Unit {0}
Answers (Fetched.too_big i) = Unit {0}

answers-other :
    (i : ℕ) (p : Option (List ℕ))
    → (i == Opcode.pushbytes1) ≡ false
    → (i == Opcode.pushbytes2) ≡ false
    → get_num_of_things_from_instr i p ≢ none
unfolding get_num_of_things_from_instr
answers-other i p a b e = ground arith

read-other :
    (c : Context) (i : ℕ) (o : Operand)
    → (i == Opcode.pushbytes1) ≡ false
    → (i == Opcode.pushbytes2) ≡ false
    → Answers (read_operand c i o).1
unfolding read_operand
read-other c i Operand.absent a b = answers-other i none a b
read-other c i (Operand.missing at) a b = tt
read-other c i (Operand.oversized at) a b = tt
read-other c i (Operand.operand n at) a b = elim (Bool-cases (leb (length c.prog + 1) (at + n))) [
  | inl e ↦ rw e tt
  | inr e ↦ rw e (answers-other i _ a b)
]

length-slice :
    (prog : List ℕ) (at n : ℕ)
    → leb (length prog + 1) (at + n) ≡ false
    → length (slice prog at (at + n)) ≡ n
length-slice prog at n h =
    let inside : at + n ≤ length prog = ground arith in
    omega (arith, length-take (at + n - at) (drop at prog), length-drop at prog, inside)

answers-one :
    (b : List ℕ) → length b ≡ 1 → get_num_of_things_from_instr Opcode.pushbytes1 (some b) ≢ none
unfolding get_num_of_things_from_instr
answers-one b h e = ground arith

answers-two :
    (b : List ℕ) → length b ≡ 2 → get_num_of_things_from_instr Opcode.pushbytes2 (some b) ≢ none
unfolding get_num_of_things_from_instr
answers-two b h e = ground arith

read-number :
    (c : Context) (i n at : ℕ)
    → ((b : List ℕ) → length b ≡ n → get_num_of_things_from_instr i (some b) ≢ none)
    → Answers (read_operand c i (Operand.operand n at)).1
unfolding read_operand
read-number c i n at k = elim (Bool-cases (leb (length c.prog + 1) (at + n))) [
  | inl e ↦ rw e tt
  | inr e ↦ rw e (k _ (length-slice c.prog at n e))
]

read-Answers :
    (c : Context) (i at : ℕ) (prog : List ℕ) → Answers (read_operand c i (operand_of i prog at)).1
unfolding operand_of is_jump
read-Answers c i at prog = elim (Bool-cases (i == Opcode.pushbytes1)) [
  | inl e ↦ rw ((==_iff i Opcode.pushbytes1).0 e) (read-number c Opcode.pushbytes1 1 at answers-one)
  | inr e ↦ elim (Bool-cases (i == Opcode.pushbytes2)) [
    | inl f ↦
        rw ((==_iff i Opcode.pushbytes2).0 f) (read-number c Opcode.pushbytes2 2 at answers-two)
    | inr f ↦ read-other c i (operand_of i prog at) e f
  ]
]

next-Answers : (c : Context) → Answers (next c).1
unfolding next get_num_of_things_from_instr
next-Answers c = elim (Bool-cases (leb (length c.prog) c.nextip)) [
  | inl e ↦ rw e (λ h. cc)
  | inr e ↦ rw e (read-Answers _ _ _ _)
]

read-prog : (c : Context) (i : ℕ) (o : Operand) → (read_operand c i o).0.prog ≡ c.prog
unfolding read_operand
read-prog c i Operand.absent = refl
read-prog c i (Operand.missing at) = refl
read-prog c i (Operand.oversized at) = refl
read-prog c i (Operand.operand n at) = elim (Bool-cases (leb (length c.prog + 1) (at + n))) [
  | inl e ↦ rw e refl
  | inr e ↦ rw e refl
]

next-prog : (c : Context) → (next c).0.prog ≡ c.prog
unfolding next
next-prog c = elim (Bool-cases (leb (length c.prog) c.nextip)) [
  | inl e ↦ rw e refl
  | inr e ↦ rw e (read-prog _ _ _)
]

-- What the loop over the keys ends with.
abbrev Ends : Scan → Type 0
Ends (stopped c i p pubs nkeys) = get_num_of_things_from_instr i p ≢ none
Ends too_many = Unit {0}
Ends undecoded = Unit {0}
Ends no_fuel = ⊥

round-Ends :
    (more : Context → List (List ℕ) → ℕ → Scan) (pubs : List (List ℕ)) (nkeys : ℕ) (c : Context)
    (f : Fetched)
    → Answers f
    → ((ks : List (List ℕ)) (n : ℕ) → Ends (more c ks n))
    → Ends (scan_round more pubs nkeys (c, f))
round-Ends more pubs nkeys c (Fetched.instruction i p) h k =
    elim (Bool-cases (i == Opcode.pushbytes33)) [
      | inl e ↦ elim (Bool-cases (ltb max_array_size (nkeys + 1))) [
        | inl many ↦ rw (e, many) tt
        | inr few ↦ rw (e, few) (k _ _)
      ]
      | inr e ↦ rw e h
    ]
round-Ends more pubs nkeys c (Fetched.no_inst_param i) h k = tt
round-Ends more pubs nkeys c (Fetched.too_big i) h k = tt

scan_keys-Ends :
    (fuel : ℕ) (c : Context) (pubs : List (List ℕ)) (nkeys : ℕ)
    → length c.prog < fuel + c.nextip
    → 0 < fuel
    → Ends (scan_keys fuel c pubs nkeys)
unfolding scan_keys get_num_of_things_from_instr
scan_keys-Ends zero c pubs nkeys h pos = absurd (omega arith)
scan_keys-Ends (suc fuel) c pubs nkeys h pos = elim (Bool-cases (leb (length c.prog) c.nextip)) [
  | inl e ↦ rw (next-end c (ground arith)) (λ q. cc)
  | inr e ↦
      let a = next-Advances c (ground arith) in
      round-Ends (scan_keys fuel) pubs nkeys (next c).0 (next c).1 (next-Answers c) (λ ks n.
        scan_keys-Ends fuel (next c).0 ks n (omega (arith, a.forward, ap length a.same_script))
          (omega (arith, a.forward, a.inside, ap length a.same_script)))
]

-- An answer.
abbrev pub IsAnswer : Parsed → Type 0
IsAnswer (keys ks) = Unit {0}
IsAnswer refused = Unit {0}
IsAnswer panics = ⊥
IsAnswer unfinished = ⊥

number-IsAnswer :
    (script : List ℕ) (c : Context) (pubs : List (List ℕ)) (nkeys : ℕ) (o : Option (Option ℕ))
    → o ≢ none
    → IsAnswer (elim o [
      | none ↦ panics
      | some none ↦ refused
      | some (some nkeys2) ↦
          if nkeys2 == nkeys
          then (if checks_multisig script (next c) then keys pubs else refused)
          else refused
    ])
number-IsAnswer script c pubs nkeys none h = h refl
number-IsAnswer script c pubs nkeys (some none) h = tt
number-IsAnswer script c pubs nkeys (some (some n)) h = elim (Bool-cases (n == nkeys)) [
  | inl e ↦ elim (Bool-cases (checks_multisig script (next c))) [
    | inl f ↦ rw (e, f) tt
    | inr f ↦ rw (e, f) tt
  ]
  | inr e ↦ rw e tt
]

judge-IsAnswer :
    (script : List ℕ) (nsigs : ℕ) (s : Scan) → Ends s → IsAnswer (judge_keys script nsigs s)
judge-IsAnswer script nsigs (stopped c i p pubs nkeys) h = elim (Bool-cases (ltb nkeys nsigs)) [
  | inl e ↦ rw e tt
  | inr e ↦ rw e (number-IsAnswer script c pubs nkeys (get_num_of_things_from_instr i p) h)
]
judge-IsAnswer script nsigs too_many h = tt
judge-IsAnswer script nsigs undecoded h = tt
judge-IsAnswer script nsigs no_fuel h = h

behind-IsAnswer :
    (script : List ℕ) (c : Context) (o : Option (Option ℕ))
    → c.prog ≡ script
    → o ≢ none
    → IsAnswer (parse_behind script c o)
behind-IsAnswer script c none e h = h refl
behind-IsAnswer script c (some none) e h = tt
behind-IsAnswer script c (some (some n)) e h =
    judge-IsAnswer script n _
      (scan_keys-Ends (length script + 1) c [] 0 (omega (arith, ap length e)) (omega arith))

from-IsAnswer :
    (script : List ℕ) (c : Context) (f : Fetched)
    → c.prog ≡ script
    → Answers f
    → IsAnswer (parse_from script (c, f))
from-IsAnswer script c (Fetched.instruction i p) e h = behind-IsAnswer script c _ e h
from-IsAnswer script c (Fetched.no_inst_param i) e h = tt
from-IsAnswer script c (Fetched.too_big i) e h = tt

-- For every script, ParseMultiSigContract ends with an answer, without a panic.
pub parse_multi_sig_contract-IsAnswer :
    (script : List ℕ) → IsAnswer (parse_multi_sig_contract script)
unfolding parse_multi_sig_contract
parse_multi_sig_contract-IsAnswer script =
    from-IsAnswer script (next (new_context script)).0 (next (new_context script)).1
      (next-prog (new_context script)) (next-Answers (new_context script))

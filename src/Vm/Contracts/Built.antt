-- ===== src/Vm/Contracts/Built.antt =====
-- ParseMultiSigContract finds the keys of a script that was put together from its parts.
use neovm.Prelude.{
  ℕ, suc, ◌+◌, ◌-◌, ◌≤◌, ◌≡◌, refl, true, false, Option, none, some, List, [], ◌++◌, length,
  length-append, ltb, ◌==◌, arith, All, le→not-ltb, ==_iff,
}
use neovm.Io.Writer.{Write}
use neovm.Vm.Opcode
use neovm.Vm.Context.{Context, next, new_context, operand_of, is_jump}
use neovm.Emit.Instructions.{opcode}
use neovm.Emit.Instructions.Decoding.{Emits, standing, passed}
use neovm.Emit.Instructions.Integers.{Emits-opcode}
use neovm.Vm.Contracts.{
  keys, get_num_of_things_from_instr, scan_keys, max_array_size, parse_multi_sig_contract,
  checks_multisig,
}
use neovm.Vm.Contracts.Signature.{next-end}
use neovm.Vm.Contracts.Multisig.{
  Holds, Holds-all, Holds-left, Holds-right, next-Holds, IsKeyBytes, codes, length-le-codes,
  scan_keys-codes,
}

-- `f` writes an instruction that ParseMultiSigContract reads as a number.
pub record Counts (f : Write) (n : ℕ) : Type 0 where
  pub code : ℕ
  pub parameter : Option (List ℕ)
  pub emits : Emits f code parameter
  pub counts : get_num_of_things_from_instr code parameter ≡ some (some n)
  pub no_key : (code == Opcode.pushbytes33) ≡ false

pub check-Emits : Emits (opcode Opcode.checkmultisig) Opcode.checkmultisig none
check-Emits = Emits-opcode Opcode.checkmultisig λ prog at. unfold operand_of is_jump in refl

module _ {f g : Write} {m n : ℕ} (sigs : Counts f m) (number : Counts g n) (ks : List (List ℕ))
    (hs : All IsKeyBytes ks) where
  abbrev pub built : List ℕ
  built = sigs.emits.code ++ (codes ks hs ++ (number.emits.code ++ (check-Emits.code)))

  abbrev pub tail : List ℕ
  tail = number.emits.code ++ check-Emits.code

  at_keys : Holds built (0 + length sigs.emits.code) (codes ks hs ++ tail)
  at_keys = Holds-right sigs.emits.code (codes ks hs ++ tail) (Holds-all built)

  abbrev end_keys : ℕ
  end_keys = 0 + length sigs.emits.code + length (codes ks hs)

  at_tail : Holds built end_keys tail
  at_tail = Holds-right (codes ks hs) tail at_keys

  end_script : end_keys + length number.emits.code + length check-Emits.code ≡ length built
  end_script = omega (
    arith,
    length-append sigs.emits.code (codes ks hs ++ tail),
    length-append (codes ks hs) tail,
    length-append number.emits.code check-Emits.code,
  )

  -- The last two instructions.
  checks-built :
      (c : Context)
      → checks_multisig built (next (standing c built (end_keys + length number.emits.code))) ≡ true
  checks-built c =
      let found =
        next-Holds check-Emits c (Holds-right number.emits.code check-Emits.code at_tail) in
      let last = end_keys + length number.emits.code in
      let behind = passed c built last (last + length check-Emits.code) in
      let ended = next-end behind (omega (arith, end_script)) in
      rw (found, ended) ((==_iff _ _).1 end_script)

  pub parse-built :
      m ≤ length ks → length ks ≡ n → n ≤ max_array_size → parse_multi_sig_contract built ≡ keys ks
  unfolding parse_multi_sig_contract scan_keys
  parse-built few all small =
      let first =
        next-Holds sigs.emits (new_context built)
          (Holds-left sigs.emits.code (codes ks hs ++ tail) (Holds-all built)) in
      let short : length ks ≤ length built = omega (
        arith,
        length-le-codes ks hs (new_context []),
        length-append sigs.emits.code (codes ks hs ++ tail),
        length-append (codes ks hs) tail,
      ) in
      let (c, scanned) =
        scan_keys-codes ks hs (length built + 1) (suc (length built - length ks))
          (0 + length sigs.emits.code) 0 built
          (passed (new_context built) built 0 (0 + length sigs.emits.code)) [] (omega arith)
          (Holds-left (codes ks hs) tail at_keys) (omega arith) in
      let behind =
        next-Holds number.emits c (Holds-left number.emits.code check-Emits.code at_tail) in
      let enough : ltb (0 + length ks) m ≡ false = le→not-ltb (0 + length ks) m (omega arith) in
      let same : (n == (0 + length ks)) ≡ true = ground arith in
      let checked = checks-built (passed c built end_keys (end_keys + length number.emits.code)) in
      rw (parse_multi_sig_contract, first, sigs.counts, scanned)
        (rw (behind, number.no_key, enough, number.counts, same, checked) refl)

-- ===== src/Emit/Instructions/Decoding.antt =====
-- An instruction that the emitter writes, and what the decoder of the virtual machine makes of it.
use neovm.Prelude.{
  ℕ, suc, ◌+◌, ◌-◌, ◌≡◌, Option, none, some, List, [], ◌∷◌, ◌++◌, length, length-append,
  append_assoc, arith, take-append_length, drop-append_length, get_or-append_length, lt→not-leb,
}
use neovm.Io.Writer.{Write, writer}
use neovm.Vm.Context.{Context, Fetched, Operand, next, operand_of, slice, read_operand}

-- The context `c` over a script, with the decoder at an offset.
abbrev pub standing : Context → List ℕ → ℕ → Context
standing c prog at = record c { prog = prog; nextip = at }

-- The same, after an instruction that begins at one offset and ends in front of another.
abbrev pub passed : Context → List ℕ → ℕ → ℕ → Context
passed c prog at end = record c { prog = prog; ip = at; nextip = end }

-- `f` writes code that, wherever it stands in a script, the decoder takes for the instruction `i`
-- with the parameter `p`, and behind which it goes on.
pub record Emits (f : Write) (i : ℕ) (p : Option (List ℕ)) : Type 0 where
  pub code : List ℕ
  pub writes : (out : List ℕ) → f (writer out) ≡ some (tt, writer (out ++ code))
  pub decodes :
      (before after : List ℕ) (c : Context)
      → next (standing c (before ++ (code ++ after)) (length before)) ≡ (
        passed c (before ++ (code ++ after)) (length before) (length before + length code),
        Fetched.instruction i p,
      )

pub slice_middle :
    (xs ys zs : List ℕ) (at : ℕ)
    → at ≡ length xs
    → slice (xs ++ (ys ++ zs)) at (at + length ys) ≡ ys
slice_middle xs ys zs at e =
    let n : length xs + length ys - length xs ≡ length ys = omega arith in
    rw (e, n, drop-append_length, take-append_length)

module _ (before after : List ℕ) (c : Context) where
  -- An instruction whose operand, of known bytes, stands behind a header.
  next-operand :
      (i : ℕ) (header b : List ℕ)
      → operand_of i (before ++ (i ∷ (header ++ (b ++ after)))) (length before + 1)
        ≡ Operand.operand (length b) (length before + 1 + length header)
      → next (standing c (before ++ (i ∷ (header ++ (b ++ after)))) (length before)) ≡ (
        passed c
            (before ++ (i ∷ (header ++ (b ++ after))))
            (length before)
            (length before + 1 + length header + length b),
        Fetched.instruction i (some b),
      )
  unfolding next read_operand
  next-operand i header b o =
      let prog = before ++ (i ∷ (header ++ (b ++ after))) in
      let front = before ++ (i ∷ header) in
      let total : length prog ≡ length before + suc (length header + (length b + length after)) =
        omega (
          arith,
          length-append before (i ∷ (header ++ (b ++ after))),
          length-append header (b ++ after),
          length-append b after,
        ) in
      let split : prog ≡ front ++ (b ++ after) = rw append_assoc in
      let width : length before + 1 + length header ≡ length front =
        omega (arith, length-append before (i ∷ header)) in
      let found : slice prog (length before + 1 + length header)
            (length before + 1 + length header + length b)
          ≡ b =
        rw split (slice_middle front b after _ width) in
      rw (
        lt→not-leb (length prog) (length before) (omega (arith, total)),
        get_or-append_length before i 0 (header ++ (b ++ after)),
        o,
        lt→not-leb (length prog + 1) (length before + 1 + length header + length b)
            (omega (arith, total)),
        found,
      )

  -- An instruction without parameter.
  pub next-absent :
      (i : ℕ)
      → operand_of i (before ++ (i ∷ after)) (length before + 1) ≡ Operand.absent
      → next (standing c (before ++ (i ∷ after)) (length before)) ≡ (
        passed c (before ++ (i ∷ after)) (length before) (length before + 1),
        Fetched.instruction i none,
      )
  unfolding next read_operand
  next-absent i o = rw (
    lt→not-leb (length (before ++ (i ∷ after))) (length before)
        (omega (arith, length-append before (i ∷ after))),
    get_or-append_length before i 0 after,
    o,
  )

-- An instruction written as a code, a header and the bytes of its operand.
pub Emits-header :
    (f : Write) (i : ℕ) (header b : List ℕ)
    → ((out : List ℕ) → f (writer out) ≡ some (tt, writer (out ++ (i ∷ (header ++ b)))))
    → ((before after : List ℕ)
        → operand_of i (before ++ (i ∷ (header ++ (b ++ after)))) (length before + 1)
          ≡ Operand.operand (length b) (length before + 1 + length header))
    → Emits f i (some b)
Emits-header f i header b w o = record {
  code = i ∷ (header ++ b);
  writes = w;
  decodes = λ before after c.
      let width : length before + suc (length (header ++ b))
          ≡ length before + 1 + length header + length b =
        omega (arith, length-append header b) in
      rw (width, append_assoc header b after)
        (next-operand before after c i header b (o before after));
}

-- The header of an instruction, in the script.
pub header_lem :
    (before after : List ℕ) (i : ℕ) (header b : List ℕ)
    → slice
        (before ++ (i ∷ (header ++ (b ++ after))))
        (length before + 1)
        (length before + 1 + length header)
      ≡ header
header_lem before after i header b =
    let split : before ++ (i ∷ (header ++ (b ++ after)))
        ≡ (before ++ (i ∷ [])) ++ (header ++ (b ++ after)) =
      rw append_assoc in
    rw split (
      slice_middle (before ++ (i ∷ [])) header (b ++ after) _
        (omega (arith, length-append before (i ∷ []))))

pub length-script :
    (before after : List ℕ) (i : ℕ) (header b : List ℕ)
    → length (before ++ (i ∷ (header ++ (b ++ after))))
      ≡ length before + suc (length header + (length b + length after))
length-script before after i header b = omega (
  arith,
  length-append before (i ∷ (header ++ (b ++ after))),
  length-append header (b ++ after),
  length-append b after,
)

-- ===== src/Io/Exact.antt =====
-- Decoders of a fixed number of bytes (pkg/io), on inputs of any length.
use neovm.Prelude.{
  ℕ, ◌+◌, ◌<◌, ◌≡◌, refl, subst, true, false, ◌⊎◌, inl, inr, Option, none, some, List, length,
  replicate, leb, ltb, if◌then◌else◌, from_le, Bool-cases, arith, length-drop, length-replicate,
  pure, resume, ◌>>=◌,
}
use neovm.Io.Error.{Error}
use neovm.Io.Reader.{
  BinReader, Read, reader, or_zero, read_bytes, read_u64_le, read_u32_le, read_b, read_bool,
}
use neovm.Io.Codec.{IsFailed}

-- After reading n bytes: the error is set, and was, or there were fewer; or n bytes are gone.
abbrev Outcome : {A : Type 0} → ℕ → BinReader → Option (A × BinReader) → Type 0
Outcome n r none = ⊥
Outcome n r (some (a, s)) =
    (IsFailed s × (IsFailed r ⊎ (length r.input < n)))
    ⊎ ((r.err ≡ none) × (s.err ≡ none) × (length s.input + n ≡ length r.input))

pub record Takes {A : Type 0} (dec : Read A) (n : ℕ) : Type 0 where
  pub run : (r : BinReader) → Outcome n r (dec r)

not_none : {A : Type 0} (s : BinReader) → IsFailed s → s.err ≡ none → A
not_none s (e, h) k = absurd (cc)

module _ {B : Type 0} (m n : ℕ) (r s : BinReader) where
  after_failed :
      IsFailed s
      → (IsFailed r ⊎ (length r.input < m))
      → (o : Option (B × BinReader)) → Outcome n s o
      → Outcome (m + n) r o
  after_failed f why none h = h
  after_failed f (inl w) (some (b, t)) (inl (ft, x)) = inl (ft, inl w)
  after_failed f (inr w) (some (b, t)) (inl (ft, x)) = inl (ft, inr (omega arith))
  after_failed f why (some (b, t)) (inr (es, et, l)) = not_none s f es

  after_fine :
      r.err ≡ none
      → s.err ≡ none
      → length s.input + m ≡ length r.input
      → (o : Option (B × BinReader)) → Outcome n s o
      → Outcome (m + n) r o
  after_fine er es l none h = h
  after_fine er es l (some (b, t)) (inl (ft, inl fs)) = not_none s fs es
  after_fine er es l (some (b, t)) (inl (ft, inr few)) = inl (ft, inr (omega arith))
  after_fine er es l (some (b, t)) (inr (x, et, l')) = inr (er, et, omega arith)

Takes-from :
    {A B : Type 0} (g : A → Read B) (m n : ℕ) (r : BinReader) (o : Option (A × BinReader))
    → Outcome m r o
    → ((a : A) → Takes (g a) n)
    → Outcome (m + n) r (resume g o)
Takes-from g m n r none h k = h
Takes-from g m n r (some (a, s)) (inl (f, why)) k = after_failed m n r s f why (g a s) ((k a).run s)
Takes-from g m n r (some (a, s)) (inr (er, es, l)) k =
    after_fine m n r s er es l (g a s) ((k a).run s)

-- A decoder and the ones that follow it.
pub Takes-then :
    {A B : Type 0} {d : Read A} (g : A → Read B) {m n : ℕ}
    → Takes d m
    → ((a : A) → Takes (g a) n)
    → Takes (d >>= g) (m + n)
Takes-then {d} g {m} {n} p k = record { run = λ r. Takes-from g m n r (d r) (p.run r) k }

-- What reads nothing.
same_reader : {A : Type 0} (a : A) (r : BinReader) → Outcome 0 r (some (a, r))
same_reader a r = go r.err refl
  where
    go : (e : Option Error) → r.err ≡ e → Outcome 0 r (some (a, r))
    go none h = inr (h, h, omega arith)
    go (some x) h = inl ((x, h), inl (x, h))

pub Takes-pure : {A : Type 0} (a : A) → Takes (pure a) 0
Takes-pure a = record { run = same_reader a }

Takes-or_zero : (v : ℕ) → Takes (or_zero v) 0
Takes-or_zero v = record { run = λ r. same_reader (elim r.err [ some _ ↦ 0 | none ↦ v ]) r }

pub Takes-bytes : (buf : List ℕ) → Takes (read_bytes buf) (length buf)
unfolding read_bytes
Takes-bytes buf = record { run = λ r. go r r.err refl }
  where
    go : (r : BinReader) (e : Option Error) → r.err ≡ e → Outcome (length buf) r (read_bytes buf r)
    go r none h = elim (Bool-cases (leb (length buf) (length r.input))) [
      | inl enough ↦
          rw (read_bytes, h, enough, length-drop (length buf) r.input)
            (inr (refl, refl, ground arith))
      | inr short ↦ rw (read_bytes, h, short) (inl ((_, refl), inr (ground arith)))
    ]
    go r (some x) h = rw (read_bytes, h) (inl ((x, h), inl (x, refl)))

pub Takes-zeros : (k : ℕ) → Takes (read_bytes (replicate k 0)) k
Takes-zeros k =
    subst (Takes (read_bytes (replicate k 0))) (length-replicate k 0) (Takes-bytes (replicate k 0))

pub Takes-u64_le : Takes read_u64_le 8
unfolding read_u64_le
Takes-u64_le = Takes-then _ (Takes-zeros 8) (λ b. Takes-or_zero (from_le b))

pub Takes-u32_le : Takes read_u32_le 4
unfolding read_u32_le
Takes-u32_le = Takes-then _ (Takes-zeros 4) (λ b. Takes-or_zero (from_le b))

pub Takes-bool : Takes read_bool 1
unfolding read_bool read_b
Takes-bool =
    Takes-then _ (Takes-then _ (Takes-zeros 1) (λ b. Takes-or_zero (from_le b))) (λ b. Takes-pure _)

-- On an input of fewer than n bytes the decoder sets the error, and on any other it reads n bytes
-- without one.
abbrev pub IsExact : {A : Type 0} → Read A → ℕ → Type 0
IsExact {A} dec n =
    (input : List ℕ)
    → (a : A) × (s : BinReader) × (dec (reader input) ≡ some (a, s))
      × (if ltb (length input) n
          then IsFailed s
          else (s.err ≡ none) × (length s.input + n ≡ length input))

module _ {A : Type 0} (dec : Read A) (n : ℕ) (input : List ℕ) where
  abbrev Ended : Type 0
  Ended =
      (a : A) × (s : BinReader) × (dec (reader input) ≡ some (a, s))
      × (if ltb (length input) n
          then IsFailed s
          else (s.err ≡ none) × (length s.input + n ≡ length input))

  ended : (o : Option (A × BinReader)) → dec (reader input) ≡ o → Outcome n (reader input) o → Ended
  ended none e h = absurd h
  ended (some (a, s)) e (inl (f, inl f')) = not_none (reader input) f' refl
  ended (some (a, s)) e (inl (f, inr few)) =
      let short : ltb (length input) n ≡ true = ground arith in (a, s, e, rw short f)
  ended (some (a, s)) e (inr (x, y, l)) =
      let long : ltb (length input) n ≡ false = ground arith in (a, s, e, rw long (y, l))

pub Takes-IsExact : {A : Type 0} (dec : Read A) (n : ℕ) → Takes dec n → IsExact dec n
Takes-IsExact dec n p input = ended dec n input (dec (reader input)) refl (p.run (reader input))

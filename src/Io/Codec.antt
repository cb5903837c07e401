-- ===== src/Io/Codec.antt =====
-- How encoders and decoders compose.
-- `Carries enc dec a`: `enc` appends some bytes to a writer without error, and `dec`, on a reader
-- whose input begins with these bytes, returns `a` and stops behind them.
use neovm.Prelude.{◌≡◌, refl, ◌∙◌, some, List, ◌++◌, append_assoc, append-nil, ℕ, pure, ◌>>=◌, ◌>>◌}
use neovm.Io.Error.{Error}
use neovm.Io.Reader.{BinReader, Read, reader}
use neovm.Io.Writer.{Write, writer}

pub record Carries {A : Type 0} (enc : Write) (dec : Read A) (a : A) : Type 0 where
  pub bytes : List ℕ
  pub writes : (out : List ℕ) → enc (writer out) ≡ some (tt, writer (out ++ bytes))
  pub reads : (rest : List ℕ) → dec (reader (bytes ++ rest)) ≡ some (a, reader rest)

-- An encoder and a decoder of a first part, followed by those of the rest.
pub Carries-then :
    {A B : Type 0} {e e' : Write} {d : Read A} (g : A → Read B) {a : A} {b : B}
    → Carries e d a
    → Carries e' (g a) b
    → Carries (e >> e') (d >>= g) b
Carries-then g p q = record {
  bytes = p.bytes ++ q.bytes;
  writes = λ out. rw (p.writes out) (q.writes (out ++ p.bytes) ∙ rw append_assoc);
  reads = λ rest. rw (append_assoc p.bytes q.bytes rest, p.reads (q.bytes ++ rest)) (q.reads rest);
}

-- The decoder ends with a step that reads nothing.
pub Carries-last :
    {A B : Type 0} {e : Write} {d : Read A} (g : A → Read B) {a : A} {b : B}
    → Carries e d a
    → ((r : List ℕ) → g a (reader r) ≡ some (b, reader r))
    → Carries e (d >>= g) b
Carries-last g p q = record {
  bytes = p.bytes;
  writes = p.writes;
  reads = λ rest. rw (p.reads rest) (q rest);
}

-- Neither side does anything.
pub Carries-pure : {A : Type 0} (a : A) → Carries (pure tt) (pure a) a
Carries-pure a = record { bytes = List.[]; writes = λ out. rw append-nil; reads = λ rest. refl }

-- Both sides may be replaced by ones that do the same on streams without error.
pub Carries-congr :
    {A : Type 0} {e e' : Write} {d d' : Read A} {a : A}
    → Carries e d a
    → ((out : List ℕ) → e' (writer out) ≡ e (writer out))
    → ((r : List ℕ) → d' (reader r) ≡ d (reader r))
    → Carries e' d' a
Carries-congr p h k = record {
  bytes = p.bytes;
  writes = λ out. h out ∙ p.writes out;
  reads = λ rest. k (p.bytes ++ rest) ∙ p.reads rest;
}

-- The error of a reader is set.
abbrev pub IsFailed : BinReader → Type 0
IsFailed r = (e : Error) × (r.err ≡ some e)

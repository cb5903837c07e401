-- ===== src/Vm/Contracts/Multisig.antt =====
-- ParseMultiSigContract over a script of known instructions.
use neovm.Prelude.{
  ℕ, zero, suc, ◌+◌, ◌≤◌, ◌<◌, ◌≡◌, refl, sym, ap, subst, ◌∙◌, false, Option, some, List, [], ◌∷◌,
  ◌++◌, length, length-append, append_assoc, append-nil, ltb, arith, All, le→not-ltb,
}
use neovm.Io.Writer.{Write}
use neovm.Vm.Opcode
use neovm.Vm.Context.{Context, Fetched, next}
use neovm.Emit.Instructions.{emit_bytes}
use neovm.Emit.Instructions.Decoding.{Emits, standing, passed}
use neovm.Emit.Instructions.Pushes.{push_code, emit_bytes-Emits}
use neovm.Vm.Contracts.{scan_keys, max_array_size}

-- The bytes `code` stand in a script at an offset.
pub record Holds (prog : List ℕ) (at : ℕ) (code : List ℕ) : Type 0 where
  pub before : List ℕ
  pub after : List ℕ
  pub split : prog ≡ before ++ (code ++ after)
  pub offset : at ≡ length before

pub Holds-all : (prog : List ℕ) → Holds prog 0 prog
Holds-all prog = record { before = []; after = []; split = sym (append-nil prog); offset = refl }

module _ {prog : List ℕ} {at : ℕ} (a b : List ℕ) (h : Holds prog at (a ++ b)) where
  pub Holds-left : Holds prog at a
  Holds-left = record {
    before = h.before;
    after = b ++ h.after;
    split = h.split ∙ ap (λ t. h.before ++ t) (append_assoc a b h.after);
    offset = h.offset;
  }

  pub Holds-right : Holds prog (at + length a) b
  Holds-right = record {
    before = h.before ++ a;
    after = h.after;
    split = h.split ∙ rw (append_assoc a b h.after, append_assoc h.before a (b ++ h.after)) refl;
    offset = omega (arith, h.offset, length-append h.before a);
  }

-- The decoder on an emitted instruction that stands in a script.
pub next-Holds :
    {f : Write} {i : ℕ} {p : Option (List ℕ)} (e : Emits f i p) {prog : List ℕ} {at : ℕ}
    (c : Context)
    → Holds prog at e.code
    → next (standing c prog at) ≡ (passed c prog at (at + length e.code), Fetched.instruction i p)
next-Holds e c h = rw (h.split, h.offset) (e.decodes h.before h.after c)

-- An instruction with a parameter has a code.
Emits-nonempty :
    {f : Write} {i : ℕ} {b : List ℕ} (e : Emits f i (some b)) (c : Context) → 0 < length e.code
unfolding next
Emits-nonempty {i} {b} e c = go e.code (e.decodes [] [] c)
  where
    go :
        (code : List ℕ)
        → next (standing c ([] ++ (code ++ [])) 0)
          ≡ (passed c ([] ++ (code ++ [])) 0 (0 + length code), Fetched.instruction i (some b))
        → 0 < length code
    go [] h = cc
    go (x ∷ code) h = omega arith

-- A key of 33 bytes.
abbrev pub IsKeyBytes : List ℕ → Type 0
IsKeyBytes k = length k ≡ 33

pub key-Emits : (k : List ℕ) → IsKeyBytes k → Emits (emit_bytes k) Opcode.pushbytes33 (some k)
key-Emits k h =
    subst (λ n. Emits (emit_bytes k) (push_code n) (some k)) h
      (emit_bytes-Emits k (omega (arith, h)) (omega (arith, h)))

-- The code of several keys.
unfoldable pub codes : (ks : List (List ℕ)) → All IsKeyBytes ks → List ℕ
codes [] hs = []
codes (k ∷ ks) (h, hs) = (key-Emits k h).code ++ codes ks hs

-- Each key has a code that is not empty.
pub length-le-codes :
    (ks : List (List ℕ)) (hs : All IsKeyBytes ks) → Context → length ks ≤ length (codes ks hs)
unfolding codes
length-le-codes [] hs c = omega arith
length-le-codes (k ∷ ks) (h, hs) c = omega (
  arith,
  length-append (key-Emits k h).code (codes ks hs),
  Emits-nonempty (key-Emits k h) c,
  length-le-codes ks hs c,
)

-- The loop over the keys, with more fuel than there are keys, reads all of them.
pub scan_keys-codes :
    (ks : List (List ℕ)) (hs : All IsKeyBytes ks) (fuel rest at nkeys : ℕ) (prog : List ℕ)
    (c : Context) (pubs : List (List ℕ))
    → fuel ≡ length ks + rest
    → Holds prog at (codes ks hs)
    → nkeys + length ks ≤ max_array_size
    → (c' : Context) × (scan_keys fuel (standing c prog at) pubs nkeys
        ≡ scan_keys rest
            (standing c' prog (at + length (codes ks hs)))
            (pubs ++ ks)
            (nkeys + length ks))
unfolding scan_keys codes
scan_keys-codes [] hs fuel rest at nkeys prog c pubs e holds small =
    let enough : fuel ≡ rest = omega arith in
    let here : at + 0 ≡ at = omega arith in
    let same : nkeys + 0 ≡ nkeys = omega arith in (c, rw (enough, here, same, append-nil) refl)
scan_keys-codes (k ∷ ks) hs zero rest at nkeys prog c pubs e holds small = absurd (omega (arith, e))
scan_keys-codes (k ∷ ks) (h, hs) (suc fuel) rest at nkeys prog c pubs e holds small =
    let first = key-Emits k h in
    let found = next-Holds first c (Holds-left first.code (codes ks hs) holds) in
    let few : ltb max_array_size (nkeys + 1) ≡ false =
      le→not-ltb max_array_size (nkeys + 1) (omega arith) in
    let at' = at + length first.code in
    let (c', more) =
      scan_keys-codes ks hs fuel rest at' (nkeys + 1) prog
        (record c { prog = prog; ip = at; nextip = at' }) (pubs ++ (k ∷ [])) (omega arith)
        (Holds-right first.code (codes ks hs) holds) (omega arith) in
    let end : at' + length (codes ks hs) ≡ at + length (first.code ++ codes ks hs) =
      omega (arith, length-append first.code (codes ks hs)) in
    let number : nkeys + 1 + length ks ≡ nkeys + suc (length ks) = omega arith in
    (c', rw (found, few) (more ∙ rw (end, number, append_assoc) refl))

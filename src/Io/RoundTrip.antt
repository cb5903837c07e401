-- ===== src/Io/RoundTrip.antt =====
-- What the writer's methods write, the reader's methods read back.
use neovm.Prelude.{
  ℕ, ◌%◌, ◌^◌, ◌≤◌, ◌<◌, ◌≡◌, refl, ◌∙◌, Bool, true, false, some, List, [], ◌∷◌, ◌++◌, reverse,
  length, replicate, All, length-append, length-replicate, take-append_length, drop-append_length,
  ltb, le→leb, le→not-ltb, lt→ltb, if◌then◌else◌, Bool-cases, inl, inr, put_le, from_le,
  length-put_le, from_le-put_le, pure, ◌>>=◌, ◌>>◌, arith,
}
use native.Mathlib.Nat.{mod-eq_of_lt}
use neovm.Io.Error.{errorf}
use neovm.Io.Reader.{
  Read, reader, fail, failed, max_array_size, or_zero, read_bytes, read_u64_le, read_u32_le,
  read_u16_le, read_u16_be, read_b, read_bool, read_var_uint_from, read_var_uint, read_var_bytes,
  read_var_bytes_max, read_string, read_elems, read_array_max, read_array,
}
use neovm.Io.Writer.{
  Write, write_bytes, write_u64_le, write_u32_le, write_u16_le, write_u16_be, write_b, write_bool,
  write_var_uint, write_var_bytes, write_string, write_elems, write_array,
}
use neovm.Io.Codec.{Carries, Carries-then, Carries-last, Carries-pure, Carries-congr}

-- A read of as many bytes as the buffer holds replaces the buffer.
read_bytes-reads :
    (buf bs rest : List ℕ)
    → length buf ≡ length bs
    → read_bytes buf (reader (bs ++ rest)) ≡ some (bs, reader rest)
unfolding read_bytes
read_bytes-reads buf bs rest h = rw (
  h,
  le→leb (length bs) (length (bs ++ rest)) (omega (arith, length-append bs rest)),
  take-append_length,
  drop-append_length,
)

pub Carries-bytes :
    (buf bs : List ℕ) → length buf ≡ length bs → Carries (write_bytes bs) (read_bytes buf) bs
Carries-bytes buf bs h = record {
  bytes = bs;
  writes = λ out. unfold write_bytes in refl;
  reads = λ rest. read_bytes-reads buf bs rest h;
}

-- A word of k bytes.
Carries-word :
    (k v : ℕ)
    → v < 256 ^ k
    → Carries (write_bytes (put_le k v)) (read_bytes (replicate k 0) >>= λ b. or_zero (from_le b)) v
Carries-word k v h =
    Carries-last _
      (Carries-bytes (replicate k 0) (put_le k v) (length-replicate k 0 ∙ rw length-put_le))
      λ r. rw (from_le-put_le k v h)

pub Carries-u64_le : (v : ℕ) → v < 2 ^ 64 → Carries (write_u64_le v) read_u64_le v
unfolding write_u64_le read_u64_le
Carries-u64_le v h = Carries-word 8 v h

pub Carries-u32_le : (v : ℕ) → v < 2 ^ 32 → Carries (write_u32_le v) read_u32_le v
unfolding write_u32_le read_u32_le
Carries-u32_le v h = Carries-word 4 v h

pub Carries-u16_le : (v : ℕ) → v < 2 ^ 16 → Carries (write_u16_le v) read_u16_le v
unfolding write_u16_le read_u16_le
Carries-u16_le v h = Carries-word 2 v h

Carries-u16_be : (v : ℕ) → v < 2 ^ 16 → Carries (write_u16_be v) read_u16_be v
unfolding write_u16_be read_u16_be put_le from_le
Carries-u16_be v h =
    Carries-last _ (Carries-bytes (replicate 2 0) (reverse (put_le 2 v)) refl) λ r. ground arith

pub Carries-b : (v : ℕ) → v < 2 ^ 8 → Carries (write_b v) read_b v
unfolding write_b read_b from_le
Carries-b v h = Carries-last _ (Carries-bytes (replicate 1 0) (v ∷ []) refl) λ r. ground arith

pub Carries-bool : (b : Bool) → Carries (write_bool b) read_bool b
unfolding write_bool read_bool
Carries-bool true = Carries-last _ (Carries-b 1 (omega arith)) λ r. refl
Carries-bool false = Carries-last _ (Carries-b 0 (omega arith)) λ r. refl

-- The bytes of a variable-length integer, by the ranges of the values.
marked :
    (v : ℕ)
    → v < 2 ^ 64
    → Carries
        (if ltb v 0xfd
          then write_b (v % 2 ^ 8)
          else if ltb v 0xffff
          then (write_b 0xfd >> write_u16_le (v % 2 ^ 16))
          else if ltb v 0xffffffff
          then (write_b 0xfe >> write_u32_le (v % 2 ^ 32))
          else (write_b 0xff >> write_u64_le v))
        (read_b >>= read_var_uint_from)
        v
marked v h = elim (Bool-cases (ltb v 0xfd)) [
  | inl small ↦
      rw (small, low (2 ^ 8) (ground arith))
        (Carries-last _ (Carries-b v (ground arith)) λ r. ground arith)
  | inr wide ↦ elim (Bool-cases (ltb v 0xffff)) [
    | inl two ↦
        rw (wide, two, low (2 ^ 16) (ground arith))
          (Carries-then _ (Carries-b 0xfd (omega arith)) (Carries-u16_le v (ground arith)))
    | inr wider ↦ elim (Bool-cases (ltb v 0xffffffff)) [
      | inl four ↦
          rw (wide, wider, four, low (2 ^ 32) (ground arith))
            (Carries-then _ (Carries-b 0xfe (omega arith)) (Carries-u32_le v (ground arith)))
      | inr widest ↦
          rw (wide, wider, widest)
            (Carries-then _ (Carries-b 0xff (omega arith)) (Carries-u64_le v h))
    ]
  ]
]
  where
    low : (m : ℕ) → v < m → v % m ≡ v
    low m p = mod-eq_of_lt p

-- Every uint64 is read back by ReadVarUint from what WriteVarUint writes.
pub Carries-var_uint : (v : ℕ) → v < 2 ^ 64 → Carries (write_var_uint v) read_var_uint v
unfolding write_var_uint read_var_uint failed
Carries-var_uint v h = Carries-congr (marked v h) (λ out. refl) (λ r. refl)

-- A byte string within the bound of the reader, which is an int, is read back by ReadVarBytes.
Carries-var_bytes_max :
    (ms : ℕ) (b : List ℕ)
    → length b ≤ ms
    → ms < 2 ^ 63
    → Carries (write_var_bytes b) (read_var_bytes_max ms) b
unfolding write_var_bytes read_var_bytes_max
Carries-var_bytes_max ms b h hm = Carries-then _ (Carries-var_uint (length b) (omega arith)) (
    Carries-congr (Carries-bytes (replicate (length b) 0) b (length-replicate (length b) 0))
      (λ out. refl)
      (λ r. rw (le→not-ltb ms (length b) h, lt→ltb (length b) (2 ^ 63) (omega arith))))

pub Carries-var_bytes :
    (b : List ℕ) → length b ≤ max_array_size → Carries (write_var_bytes b) read_var_bytes b
unfolding read_var_bytes
Carries-var_bytes b h = Carries-var_bytes_max max_array_size b h (omega arith)

pub Carries-string :
    (b : List ℕ) → length b ≤ max_array_size → Carries (write_string b) read_string b
unfolding write_string read_string
Carries-string b h = Carries-var_bytes b h

module _ {A : Type 0} {P : A → Type 0} (enc : A → Write) (dec : Read A) where
  pub Carries-elems :
      ((a : A) → P a → Carries (enc a) dec a)
      → (xs : List A) → All P xs
      → Carries (write_elems enc xs) (read_elems dec (length xs)) xs
  unfolding write_elems read_elems
  Carries-elems each [] h = Carries-pure []
  Carries-elems each (x ∷ xs) (hx, hs) =
      Carries-then _ (each x hx) (Carries-last _ (Carries-elems each xs hs) (λ r. refl))

  -- An array of elements that are each read back, is read back.
  pub Carries-array_max :
      ((a : A) → P a → Carries (enc a) dec a)
      → (ms : ℕ) → ms < 2 ^ 64
      → (old xs : List A) → All P xs
      → length xs ≤ ms
      → Carries (write_array enc xs) (read_array_max dec ms old) xs
  unfolding write_array read_array_max failed
  Carries-array_max each ms lt old xs h le =
      Carries-congr
        (Carries-then
          (λ lu.
            if ltb ms lu
            then (fail (errorf "array is too big" lu) >> pure old)
            else read_elems dec lu)
          (Carries-var_uint (length xs) (omega arith))
          (Carries-congr (Carries-elems each xs h) (λ out. refl)
            (λ r. rw (le→not-ltb ms (length xs) le))))
        (λ out. refl) (λ r. refl)

  -- An array of at most MaxArraySize elements, each of which is read back as it was written, is
  -- read back by ReadArray.
  pub Carries-array :
      ((a : A) → P a → Carries (enc a) dec a)
      → (old xs : List A) → All P xs
      → length xs ≤ max_array_size
      → Carries (write_array enc xs) (read_array dec old) xs
  unfolding read_array
  Carries-array each old xs h le = Carries-array_max each max_array_size (omega arith) old xs h le

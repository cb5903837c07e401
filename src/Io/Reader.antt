-- ===== src/Io/Reader.antt =====
-- pkg/io/binaryReader.go. The reader stands over a byte buffer (`NewBinReaderFromBuf`); `input` is
-- what is not yet read. A method is a procedure on the reader; `none` is a panic.
use neovm.Prelude.{
  ℕ, zero, suc, ◌^◌, Bool, true, false, not, Option, none, some, List, [], ◌∷◌, ◌++◌, reverse,
  length, take, drop, replicate, leb, ltb, ◌==◌, if◌then◌else◌, from_le, Proc, pure, ◌>>=◌, ◌>>◌,
}
use neovm.Io.Error.{Error, eof, unexpected_eof, errorf}

-- The sticky error `Err` stops every later read.
pub record BinReader : Type 0 where
  pub input : List ℕ
  pub err : Option Error

abbrev pub Read : Type 0 → Type 0
Read A = Proc BinReader A

-- `NewBinReaderFromBuf`
abbrev pub reader : List ℕ → BinReader
reader b = record { input = b; err = none }

abbrev pub max_array_size : ℕ
max_array_size = 0x1000000

-- `r.Err = e`
abbrev pub fail : Error → Read (Unit {0})
fail e r = some (tt, record r { err = some e })

-- `r.Err != nil`
unfoldable pub failed : Read Bool
failed r = some (elim r.err [ some _ ↦ true | none ↦ false ], r)

-- `make([]byte, n)`: a length that is no int panics.
abbrev pub make_bytes : ℕ → Read (List ℕ)
make_bytes n r = if ltb n (2 ^ 63) then some (replicate n 0, r) else none

-- `io.ReadFull`: too short an input is used up, its bytes stand at the front of the buffer.
abbrev pub read_full : List ℕ → List ℕ → List ℕ × BinReader
read_full buf input =
    if leb (length buf) (length input)
    then (take (length buf) input, reader (drop (length buf) input))
    else (
      input ++ drop (length input) buf,
      record { input = []; err = some (if length input == 0 then eof else unexpected_eof) },
    )

-- `ReadBytes`: the buffer as it stands afterwards.
unfoldable pub read_bytes : List ℕ → Read (List ℕ)
read_bytes buf r = elim r.err [ some _ ↦ some (buf, r) | none ↦ some (read_full buf r.input) ]

-- `if r.Err != nil { return 0 }; return v`
abbrev pub or_zero : ℕ → Read ℕ
or_zero v r = some (elim r.err [ some _ ↦ 0 | none ↦ v ], r)

unfoldable pub read_u64_le : Read ℕ
read_u64_le = do b ← read_bytes (replicate 8 0); or_zero (from_le b)

unfoldable pub read_u32_le : Read ℕ
read_u32_le = do b ← read_bytes (replicate 4 0); or_zero (from_le b)

unfoldable pub read_u16_le : Read ℕ
read_u16_le = do b ← read_bytes (replicate 2 0); or_zero (from_le b)

unfoldable pub read_u16_be : Read ℕ
read_u16_be = do b ← read_bytes (replicate 2 0); or_zero (from_le (reverse b))

unfoldable pub read_b : Read ℕ
read_b = do b ← read_bytes (replicate 1 0); or_zero (from_le b)

unfoldable pub read_bool : Read Bool
read_bool = do b ← read_b; pure (not (b == 0))

-- The marker byte is looked at whether or not it could be read.
abbrev pub read_var_uint_from : ℕ → Read ℕ
read_var_uint_from b =
    if b == 0xfd
    then read_u16_le
    else if b == 0xfe
    then read_u32_le
    else if b == 0xff
    then read_u64_le
    else pure b

unfoldable pub read_var_uint : Read ℕ
read_var_uint = do stop ← failed; if stop then pure 0 else (read_b >>= read_var_uint_from)

-- `ReadVarBytes(maxSize)`
unfoldable pub read_var_bytes_max : ℕ → Read (List ℕ)
read_var_bytes_max ms = do
  n ← read_var_uint
  if ltb ms n
      then (fail (errorf "byte-slice is too big" n) >> pure [])
      else (make_bytes n >>= read_bytes)

unfoldable pub read_var_bytes : Read (List ℕ)
unfolding read_var_bytes_max
read_var_bytes = read_var_bytes_max max_array_size

-- A Go string is its bytes.
unfoldable pub read_string : Read (List ℕ)
unfolding read_var_bytes
read_string = read_var_bytes

-- The loop of `ReadArray`: it goes on to the end also after an error.
unfoldable pub read_elems : {A : Type 0} → Read A → ℕ → Read (List A)
read_elems dec zero = pure []
read_elems dec (suc n) = do x ← dec; xs ← read_elems dec n; pure (x ∷ xs)

-- `ReadArray(&t, maxSize)`, where `t` holds the elements `old`, which it keeps when nothing is read.
-- The decoders of structures fill new ones, with no elements.
unfoldable pub read_array_max : {A : Type 0} → Read A → ℕ → List A → Read (List A)
read_array_max dec ms old = do
  stop ← failed
  if stop then pure old else do
    lu ← read_var_uint
    if ltb ms lu then (fail (errorf "array is too big" lu) >> pure old) else read_elems dec lu

unfoldable pub read_array : {A : Type 0} → Read A → List A → Read (List A)
unfolding read_array_max
read_array dec old = read_array_max dec max_array_size old

-- ===== src/Io/Writer.antt =====
-- pkg/io/binaryWriter.go and binaryBufWriter.go. The writer stands over a `bytes.Buffer`, whose
-- writes never fail; `buf` is what it holds. A method is a procedure on the writer.
use neovm.Prelude.{
  ℕ, ◌%◌, ◌^◌, Bool, Option, none, some, List, [], ◌∷◌, ◌++◌, reverse, length, ltb, if◌then◌else◌,
  put_le, Proc, pure, ◌>>◌,
}
use neovm.Io.Error.{Error, new}

pub record BinWriter : Type 0 where
  pub buf : List ℕ
  pub err : Option Error

abbrev pub Write : Type 0
Write = Proc BinWriter (Unit {0})

-- A writer without error over a buffer; `NewBufBinWriter` is the one over the empty buffer.
abbrev pub writer : List ℕ → BinWriter
writer b = record { buf = b; err = none }

abbrev pub new_buf_bin_writer : BinWriter
new_buf_bin_writer = writer []

-- `w.Err = e`
abbrev pub fail : Error → Write
fail e w = some (tt, record w { err = some e })

-- `if w.Err != nil { return }` before a body.
abbrev pub unless_failed : Write → Write
unless_failed body w = elim w.err [ some _ ↦ some (tt, w) | none ↦ body w ]

unfoldable pub write_bytes : List ℕ → Write
write_bytes b = unless_failed (λ w. some (tt, record w { buf = w.buf ++ b }))

unfoldable pub write_u64_le : ℕ → Write
write_u64_le v = write_bytes (put_le 8 v)

unfoldable pub write_u32_le : ℕ → Write
write_u32_le v = write_bytes (put_le 4 v)

unfoldable pub write_u16_le : ℕ → Write
write_u16_le v = write_bytes (put_le 2 v)

unfoldable pub write_u16_be : ℕ → Write
write_u16_be v = write_bytes (reverse (put_le 2 v))

unfoldable pub write_b : ℕ → Write
write_b u8 = write_bytes (u8 ∷ [])

unfoldable pub write_bool : Bool → Write
write_bool b = write_b (if b then 1 else 0)

-- The conversions `byte(val)`, `uint16(val)` and `uint32(val)` keep the low bits.
unfoldable pub write_var_uint : ℕ → Write
write_var_uint val = unless_failed (
    if ltb val 0xfd
    then write_b (val % 2 ^ 8)
    else if ltb val 0xffff
    then (write_b 0xfd >> write_u16_le (val % 2 ^ 16))
    else if ltb val 0xffffffff
    then (write_b 0xfe >> write_u32_le (val % 2 ^ 32))
    else (write_b 0xff >> write_u64_le val))

unfoldable pub write_var_bytes : List ℕ → Write
write_var_bytes b = write_var_uint (length b) >> write_bytes b

unfoldable pub write_string : List ℕ → Write
unfolding write_var_bytes
write_string s = write_var_bytes s

unfoldable pub write_elems : {A : Type 0} → (A → Write) → List A → Write
write_elems enc [] = pure tt
write_elems enc (x ∷ xs) = enc x >> write_elems enc xs

unfoldable pub write_array : {A : Type 0} → (A → Write) → List A → Write
write_array enc arr = unless_failed (write_var_uint (length arr) >> write_elems enc arr)

-- `BufBinWriter`: `Bytes` drains the buffer, and `Reset` makes it usable again. No bytes stand for
-- the nil slice.
unfoldable pub buf_len : BinWriter → ℕ
buf_len bw = length bw.buf

unfoldable pub buf_bytes : BinWriter → List ℕ × BinWriter
buf_bytes bw = elim bw.err [
  | some _ ↦ ([], bw)
  | none ↦ (bw.buf, record bw { err = some (new "buffer already drained") })
]

unfoldable pub buf_reset : BinWriter → BinWriter
buf_reset bw = record { buf = []; err = none }

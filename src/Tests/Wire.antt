-- ===== src/Tests/Wire.antt =====
-- The reader and the writer (pkg/io) on concrete streams.
use neovm.Prelude.{ℕ, ◌≡◌, refl, some, [], ◌∷◌, put_le}
use neovm.Io.Writer.{writer, new_buf_bin_writer, write_b, write_u16_le, write_var_uint, write_bytes}

-- A length of 253 takes a marker and two bytes.
write_var_uint-253 : write_var_uint 253 new_buf_bin_writer ≡ some (tt, writer (0xfd ∷ 253 ∷ 0 ∷ []))
unfolding write_var_uint write_b write_bytes write_u16_le put_le
write_var_uint-253 = refl

-- The first value at which the two sizes differ.
abbrev edge : ℕ
edge = 0xffff

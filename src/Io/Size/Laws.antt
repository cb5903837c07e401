-- ===== src/Io/Size/Laws.antt =====
-- Where the computed sizes agree with what is written.
use neovm.Prelude.{ℕ, ◌<◌, ◌≡◌, ◌≢◌, ◌↔◌, some, ltb, if◌then◌else◌, put_le, arith}
use neovm.Io.Writer.{write_bytes, write_b, write_u16_le, write_u32_le, write_u64_le, write_var_uint}
use neovm.Io.Size.{counted, get_var_int_size}

-- The true size of a variable-length integer.
abbrev wire_size : ℕ → ℕ
wire_size v =
    if ltb v 0xfd then 1 else if ltb v 0xffff then 3 else if ltb v 0xffffffff then 5 else 9

counted-var_uint : (v : ℕ) → counted (write_var_uint v) ≡ some (wire_size v)
unfolding counted write_var_uint write_b write_u16_le write_u32_le write_u64_le write_bytes put_le
counted-var_uint v = ground arith

-- getVarIntSize is the number of bytes that WriteVarUint writes exactly at the values below
-- 0xFFFFFFFF other than 0xFFFF.
get_var_int_size-exact :
    (v : ℕ)
    → (counted (write_var_uint v) ≡ some (get_var_int_size v)) ↔ ((v ≢ 0xffff) × (v < 0xffffffff))
unfolding get_var_int_size
get_var_int_size-exact v = ground (arith, counted-var_uint v)

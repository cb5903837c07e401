-- ===== src/Io/Size.antt =====
-- pkg/io/size.go: the size of a value on the wire, computed without writing it or by writing it
-- into a counter.
pub mod Laws
use neovm.Prelude.{ℕ, ◌+◌, ◌*◌, Option, none, some, List, [], ◌∷◌, length, ltb, leb, if◌then◌else◌}
use neovm.Io.Writer.{BinWriter, Write, writer, write_var_uint}

-- `counterWriter`: how many bytes an encoder writes. An encoder that sets the error panics.
unfoldable pub counted : Write → Option ℕ
counted enc = elim (enc (writer [])) [
  | none ↦ none
  | some (_, w) ↦ elim w.err [ some _ ↦ none | none ↦ some (length w.buf) ]
]

-- `getVarIntSize` on a value that is not negative, such as a length.
unfoldable pub get_var_int_size : ℕ → ℕ
get_var_int_size value = if ltb value 0xfd then 1 else if leb value 0xffff then 3 else 5

-- What `GetVarSize` distinguishes: a string, an integer that is not negative, a pointer to a
-- Serializable, a slice of integers of so many bytes, and a slice of Serializable pointers.
pub data VarValue : Type 0 where
  text : List ℕ → VarValue
  integer : ℕ → VarValue
  pointer : Write → VarValue
  ints : ℕ → List ℕ → VarValue
  slice : List Write → VarValue

-- `for i := 0; i < valueLength; i++ { valueSize += GetVarSize(…) }`
unfoldable pub sum_sizes : List Write → Option ℕ
sum_sizes [] = some 0
sum_sizes (e ∷ es) = elim (counted e) [
  | none ↦ none
  | some n ↦ elim (sum_sizes es) [ none ↦ none | some m ↦ some (n + m) ]
]

unfoldable pub get_var_size : VarValue → Option ℕ
get_var_size (text s) = some (get_var_int_size (length s) + length s)
get_var_size (integer v) = some (get_var_int_size v)
get_var_size (pointer e) = counted e
get_var_size (ints width vs) = some (get_var_int_size (length vs) + length vs * width)
get_var_size (slice es) = elim (sum_sizes es) [
  | none ↦ none
  | some n ↦ some (get_var_int_size (length es) + n)
]

-- ===== src/Vm/Machine/Items.antt =====
-- Items (pkg/vm/stack_item.go) and what an instruction takes from the stack and pushes
-- (pkg/vm/stack.go). A collection or an interop is its address, which is all that these
-- instructions see of it; primitive items are their values.
use neovm.Prelude.{
  ℕ, Bool, true, false, not, ◌||◌, Option, none, some, List, [], ◌∷◌, ◌==◌, pure, ◌>>=◌, Proc,
}
use neovm.Prelude.Int.{ℤ, pos, to_u64, wrap64}
use neovm.Emit.Bigint.{bytes_to_int, int_to_bytes}

-- `nil_interop` holds nil.
pub data Item : Type 0 where
  integer : ℤ → Item
  boolean : Bool → Item
  byte_array : List ℕ → Item
  array : ℕ → Item
  struct : ℕ → Item
  map_item : ℕ → Item
  interop : ℕ → Item
  nil_interop : Item

-- `Element.BigInt`: the value of an item that is no number is asserted to be a byte slice.
unfoldable pub as_int : Item → Option ℤ
as_int (integer z) = some z
as_int (boolean true) = some (pos 1)
as_int (boolean false) = some (pos 0)
as_int (byte_array b) = some (bytes_to_int b)
as_int (array a) = none
as_int (struct a) = none
as_int (map_item a) = none
as_int (interop a) = none
as_int nil_interop = none

abbrev pub any_set : List ℕ → Bool
any_set [] = false
any_set (b ∷ bs) = not (b == 0) || any_set bs

-- `Element.TryBool`, which cannot fail for an item. Of a number the low 64 bits are tested.
unfoldable pub try_bool : Item → Bool
try_bool (integer z) = not (to_u64 z == 0)
try_bool (boolean b) = b
try_bool (byte_array b) = any_set b
try_bool (array a) = true
try_bool (struct a) = true
try_bool (map_item a) = true
try_bool (interop a) = true
try_bool nil_interop = false

-- `TryBytes`; `none` is an error, which `Element.Bytes` turns into a panic.
unfoldable pub try_bytes : Item → Option (List ℕ)
try_bytes (integer z) = some (int_to_bytes z)
try_bytes (boolean true) = some (1 ∷ [])
try_bytes (boolean false) = some []
try_bytes (byte_array b) = some b
try_bytes (array a) = none
try_bytes (struct a) = none
try_bytes (map_item a) = none
try_bytes (interop a) = none
try_bytes nil_interop = none

-- An item or a panic.
abbrev pub lift : {S A : Type 0} → Option A → Proc S A
lift none s = none
lift (some a) s = some (a, s)

-- `Pop`, whose nil for an empty stack every user dereferences.
abbrev pub pop : Proc (List Item) Item
pop [] = none
pop (x ∷ s) = some (x, s)

abbrev pub push : Item → Proc (List Item) (Unit {0})
push x s = some (tt, x ∷ s)

unfoldable pub pop_int : Proc (List Item) ℤ
pop_int = pop >>= λ x. lift (as_int x)

unfoldable pub pop_bool : Proc (List Item) Bool
pop_bool = pop >>= λ x. pure (try_bool x)

unfoldable pub pop_bytes : Proc (List Item) (List ℕ)
pop_bytes = pop >>= λ x. lift (try_bytes x)

-- `int(v.estack.Pop().BigInt().Int64())`: the low 64 bits, signed.
unfoldable pub pop_index : Proc (List Item) ℤ
pop_index = pop_int >>= λ z. pure (wrap64 z)

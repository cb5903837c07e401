-- ===== src/Vm/Machine/Splice.antt =====
-- The instructions of `execute` (pkg/vm/vm.go) on byte strings. A slice has no capacity behind its
-- length, so that CAT copies.
pub mod Parts
use neovm.Prelude.{
  ℕ, ◌+◌, ◌-◌, ◌^◌, Option, none, some, List, [], ◌++◌, length, take, drop, ltb, leb, ◌==◌,
  if◌then◌else◌, pure, ◌>>=◌, ◌>>◌, Proc,
}
use neovm.Prelude.Int.{ℤ, pos, negsuc}
use neovm.Vm.Opcode
use neovm.Vm.Context.{max_item_size}
use neovm.Vm.Machine.Items.{Item, integer, byte_array, lift, pop_bytes, pop_index, push}

unfoldable pub cat : Proc (List Item) (Unit {0})
cat = do
  b ← pop_bytes
  a ← pop_bytes
  if ltb max_item_size (length a + length b) then lift none else push (byte_array (a ++ b))

-- An index that is not negative.
abbrev pub natural : ℤ → Option ℕ
natural (pos n) = some n
natural (negsuc n) = none

unfoldable pub pop_natural : Proc (List Item) ℕ
pop_natural = pop_index >>= λ z. lift (natural z)

-- Behind the end there is nothing; `l + o` wraps around to a negative bound, out of range.
unfoldable pub substr : Proc (List Item) (Unit {0})
substr = do
  l ← pop_natural
  o ← pop_natural
  s ← pop_bytes
  if ltb (length s) o
      then push (byte_array [])
      else if leb (2 ^ 63) (l + o)
      then lift none
      else push (byte_array (take l (drop o s)))

unfoldable pub left : Proc (List Item) (Unit {0})
left = do l ← pop_natural; s ← pop_bytes; push (byte_array (take l s))

unfoldable pub right : Proc (List Item) (Unit {0})
right = do
  l ← pop_natural
  s ← pop_bytes
  if ltb (length s) l then lift none else push (byte_array (drop (length s - l) s))

unfoldable pub size : Proc (List Item) (Unit {0})
size = pop_bytes >>= λ s. push (integer (pos (length s)))

-- The cases of the switch; `none` for other instructions.
unfoldable pub splice : ℕ → Option (Proc (List Item) (Unit {0}))
splice op =
    if op == Opcode.cat
    then some cat
    else if op == Opcode.substr
    then some substr
    else if op == Opcode.left
    then some left
    else if op == Opcode.right
    then some right
    else if op == Opcode.size
    then some size
    else none

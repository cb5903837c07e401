-- ===== src/Vm/Maps.antt =====
-- pkg/vm/stack_item.go: the comparison of primitive items (Equals) and MapItem, an ordered list of
-- keys and values whose keys are primitive.
pub mod Refinement
use neovm.Prelude.{
  ℕ, zero, suc, Bool, true, false, Option, none, some, List, [], ◌∷◌, ◌++◌, same_bytes,
  if◌then◌else◌, ◌==◌,
}
use neovm.Prelude.Int.{ℤ, eqb_ℤ}
use neovm.Emit.Bigint.{int_to_bytes}
use neovm.Vm.Stack.{without}
use neovm.Vm.Machine.Items.{Item, integer, boolean, byte_array, try_bytes}

-- The items that `isValidMapKey` accepts.
pub data Key : Type 0 where
  number : ℤ → Key
  flag : Bool → Key
  bytes : List ℕ → Key

abbrev pub key_item : Key → Item
key_item (number z) = integer z
key_item (flag b) = boolean b
key_item (bytes b) = byte_array b

unfoldable pub key_of : Item → Option Key
key_of (integer z) = some (number z)
key_of (boolean b) = some (flag b)
key_of (byte_array b) = some (bytes b)
key_of x = none

-- `Bytes` of a key.
abbrev pub flag_bytes : Bool → List ℕ
flag_bytes true = 1 ∷ []
flag_bytes false = []

abbrev pub key_bytes : Key → List ℕ
key_bytes (number z) = int_to_bytes z
key_bytes (flag b) = flag_bytes b
key_bytes (bytes b) = b

-- `err == nil && bytes.Equal(i.Bytes(), bs)`
abbrev pub same_as : List ℕ → Item → Bool
same_as b x = elim (try_bytes x) [ none ↦ false | some bs ↦ same_bytes b bs ]

abbrev pub same_flag : Bool → Bool → Bool
same_flag true b = b
same_flag false true = false
same_flag false false = true

-- `Equals` of BigIntegerItem, BoolItem and ByteArrayItem.
unfoldable pub equals : Key → Item → Bool
equals (number z) (integer w) = eqb_ℤ z w
equals (number z) x = same_as (int_to_bytes z) x
equals (flag b) (boolean c) = same_flag b c
equals (flag b) x = same_as (flag_bytes b) x
equals (bytes b) x = same_as b x

abbrev pub MapItem : Type 0
MapItem = List (Key × Item)

-- `Index`; -1 is `none`.
unfoldable pub index : Item → MapItem → Option ℕ
index key [] = none
index key ((k, v) ∷ m) =
    let rest = index key m in
    if equals k key then some 0 else elim rest [ none ↦ none | some i ↦ some (suc i) ]

unfoldable pub has : Item → MapItem → Bool
has key m = elim (index key m) [ none ↦ false | some i ↦ true ]

-- `i.value[index].Value = value`
abbrev pub set_value : ℕ → Item → MapItem → MapItem
set_value i value [] = []
set_value zero value ((k, v) ∷ m) = (k, value) ∷ m
set_value (suc i) value ((k, v) ∷ m) = (k, v) ∷ set_value i value m

abbrev pub put_at : Key → Item → Option ℕ → MapItem → MapItem
put_at key value none m = m ++ ((key, value) ∷ [])
put_at key value (some i) m = set_value i value m

-- `Add`; another key panics.
unfoldable pub add : Item → Item → MapItem → Option MapItem
add key value m = elim (key_of key) [ none ↦ none | some k ↦ some (put_at k value (index key m) m) ]

-- `Drop`
unfoldable pub drop_at : ℕ → MapItem → MapItem
drop_at i m = without m i

-- REMOVE on a map: a missing key is no error.
unfoldable pub remove_key : Item → MapItem → MapItem
remove_key key m = elim (index key m) [ none ↦ m | some i ↦ drop_at i m ]

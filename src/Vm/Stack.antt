-- ===== src/Vm/Stack.antt =====
-- pkg/vm/stack.go: a stack of elements, the top first. The source links the elements in a ring
-- (`Vm.Ring`); here a stack is the list of the values that its elements hold, from the top to the
-- back, and its length is the length of that list. Indices are Go ints. The count of items that a stack
-- keeps is not modelled.
pub mod Order
use neovm.Prelude.{
  ℕ, zero, suc, ◌+◌, Bool, true, false, ◌||◌, Option, none, some, List, [], ◌∷◌, ◌++◌, length,
  get_elem?, get_or, set, take, drop, ltb, leb, ◌==◌, if◌then◌else◌,
}
use neovm.Prelude.Int.{ℤ, pos, negsuc}
use neovm.Io.Error.{Error, new}

-- The answer of an operation that may fail.
pub data Answer {ℓ} (A : Type ℓ) : Type ℓ where
  ok : A → Answer A
  err : Error → Answer A

module _ {A : Type 0} where
  -- `Peek`: nothing at an index that no element has.
  unfoldable pub peek : List A → ℤ → Option A
  peek s (pos n) = get_elem? s n
  peek s (negsuc n) = none

  abbrev pub insert : List A → ℕ → A → List A
  insert s zero e = e ∷ s
  insert [] (suc n) e = e ∷ []
  insert (x ∷ s) (suc n) e = x ∷ insert s n e

  -- `InsertAt`: behind the element n - 1, if there is one.
  unfoldable pub insert_at : A → ℕ → List A → Option (List A)
  insert_at e zero s = none
  insert_at e (suc n) s = elim (get_elem? s n) [ none ↦ none | some _ ↦ some (insert s (suc n) e) ]

  abbrev pub without : List A → ℕ → List A
  without [] n = []
  without (x ∷ s) zero = s
  without (x ∷ s) (suc n) = x ∷ without s n

  -- `RemoveAt`: the element and the stack without it.
  unfoldable pub remove_at : ℤ → List A → Option (A × List A)
  remove_at (pos n) s = elim (get_elem? s n) [ none ↦ none | some e ↦ some (e, without s n) ]
  remove_at (negsuc n) s = none

  -- Two elements exchange their values.
  abbrev pub exchange : List A → ℕ → ℕ → List A
  exchange s i j = elim (get_elem? s i) [
    | none ↦ s
    | some a ↦ elim (get_elem? s j) [ none ↦ s | some b ↦ set (set s i b) j a ]
  ]

  unfoldable pub swap : ℤ → ℤ → List A → Answer (List A)
  swap (negsuc m) n2 s = err (new "negative index")
  swap (pos n1) (negsuc m) s = err (new "negative index")
  swap (pos n1) (pos n2) s =
      if leb (length s) n1 || leb (length s) n2
      then err (new "too big index")
      else if n1 == n2
      then ok s
      else ok (exchange s n1 n2)

  -- `Roll`: the element n is unlinked and linked in front of the top.
  unfoldable pub roll : ℤ → List A → Answer (List A)
  roll (negsuc m) s = err (new "negative index")
  roll (pos n) s =
      if leb (length s) n
      then err (new "too big index")
      else if n == 0
      then ok s
      else elim (get_elem? s n) [ none ↦ ok s | some e ↦ ok (e ∷ without s n) ]

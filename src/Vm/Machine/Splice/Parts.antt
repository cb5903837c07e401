-- ===== src/Vm/Machine/Splice/Parts.antt =====
-- LEFT, RIGHT and CAT (pkg/vm/vm.go): a byte string is cut in two parts and joined again.
use neovm.Prelude.{
  ℕ, ◌+◌, ◌-◌, ◌≤◌, ◌≡◌, refl, ap, ◌∙◌, false, some, List, ◌∷◌, ◌++◌, length, take, drop, ltb,
  arith, le→not-ltb, length-take, length-drop, take-append-drop,
}
use neovm.Prelude.Int.{pos, wrap64, of_u64-to_u64}
use neovm.Vm.Context.{max_item_size}
use neovm.Vm.Machine.Items.{
  Item, integer, byte_array, as_int, try_bytes, pop_int, pop_index, pop_bytes,
}
use neovm.Vm.Machine.Splice.{cat, left, right, pop_natural}

pop_natural-small :
    (n : ℕ) (s : List Item) → n ≤ max_item_size → pop_natural (integer (pos n) ∷ s) ≡ some (n, s)
unfolding pop_natural pop_index pop_int wrap64 as_int
pop_natural-small n s h = rw (of_u64-to_u64 (pos n) (omega arith)) refl

pop_bytes-found :
    (x : Item) (b : List ℕ) (s : List Item) → try_bytes x ≡ some b → pop_bytes (x ∷ s) ≡ some (b, s)
unfolding pop_bytes
pop_bytes-found x b s h = rw h refl

cat_found :
    (x y : Item) (a b : List ℕ) (s : List Item)
    → try_bytes x ≡ some a
    → try_bytes y ≡ some b
    → length a + length b ≤ max_item_size
    → cat (y ∷ x ∷ s) ≡ some (tt, byte_array (a ++ b) ∷ s)
unfolding cat
cat_found x y a b s ex ey h =
    rw
      (
        pop_bytes-found y b (x ∷ s) ey,
        pop_bytes-found x a s ex,
        le→not-ltb max_item_size (length a + length b) h,
      )
      refl

-- For an item with no more than MaxItemSize bytes and n no more than their number, LEFT by n and
-- RIGHT by the rest push two parts, and CAT makes the bytes of the item of them.
left-right-cat :
    (x : Item) (b : List ℕ) (n : ℕ) (s : List Item)
    → try_bytes x ≡ some b
    → length b ≤ max_item_size
    → n ≤ length b
    → (l r : Item) × (left (integer (pos n) ∷ x ∷ s) ≡ some (tt, l ∷ s))
      × (right (integer (pos (length b - n)) ∷ x ∷ s) ≡ some (tt, r ∷ s))
      × (cat (r ∷ l ∷ s) ≡ some (tt, byte_array b ∷ s))
unfolding left right try_bytes
left-right-cat x b n s e fits inside =
    let rest : length b - (length b - n) ≡ n = omega arith in
    let long : ltb (length b) (length b - n) ≡ false =
      le→not-ltb (length b) (length b - n) (omega arith) in
    (
      byte_array (take n b),
      byte_array (drop n b),
      rw (pop_natural-small n (x ∷ s) (omega arith), pop_bytes-found x b s e) refl,
      rw
          (
            pop_natural-small (length b - n) (x ∷ s) (omega arith),
            pop_bytes-found x b s e,
            long,
            rest,
          )
          refl,
      cat_found (byte_array (take n b)) (byte_array (drop n b)) (take n b) (drop n b) s refl refl
            (omega (arith, length-take n b, length-drop n b))
          ∙ ap (λ c. some (tt, byte_array c ∷ s)) (take-append-drop n b),
    )

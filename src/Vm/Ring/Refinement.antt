-- ===== src/Vm/Ring/Refinement.antt =====
-- The ring of pkg/vm/stack.go against stacks as lists.
use neovm.Prelude.{
  ℕ, zero, suc, ◌≤◌, ◌<◌, ◌≡◌, refl, subst, ap, ◌∙◌, false, true, List, [], ◌∷◌, length, arith,
  ◌==◌, some, Bool-cases, inl, inr, Option, none, get_elem?, map, ltb,
}
use neovm.Prelude.Int.{ℤ, pos, negsuc}
use neovm.Vm.Stack
use neovm.Vm.Stack.{without}
use neovm.Vm.Ring.{Memory, put, pop, remove, remove_at}
use neovm.Vm.Ring.Chain.{has, after}
use neovm.Vm.Ring.Heap.{Ring, Owned, after-owned, All-has}
use neovm.Vm.Ring.Removal.{removed, remove-Ring}
use neovm.Vm.Ring.Walk.{element, element-after, element-none, top-runs, peek-element}

module _ {A B : Type 0} (f : A → B) where
  pub map-without : (xs : List A) (n : ℕ) → map f (without xs n) ≡ without (map f xs) n
  map-without [] n = refl
  map-without (x ∷ xs) zero = refl
  map-without (x ∷ xs) (suc n) = ap (λ ys. f x ∷ ys) (map-without xs n)

  pub map-insert :
      (xs : List A) (n : ℕ) (e : A) → map f (Stack.insert xs n e) ≡ Stack.insert (map f xs) n (f e)
  map-insert xs zero e = refl
  map-insert [] (suc n) e = refl
  map-insert (x ∷ xs) (suc n) e = ap (λ ys. f x ∷ ys) (map-insert xs n e)

module _ {B : Type 0} (f : ℕ → B) where
  pub get_elem?-map-after :
      (xs : List ℕ) (q n : ℕ) → n < length xs → get_elem? (map f xs) n ≡ some (f (after xs q n))
  get_elem?-map-after [] q n lt = absurd (omega arith)
  get_elem?-map-after (x ∷ xs) q zero lt = refl
  get_elem?-map-after (x ∷ xs) q (suc n) lt = get_elem?-map-after xs q n (omega arith)

  pub get_elem?-map-none : (xs : List ℕ) (n : ℕ) → length xs ≤ n → get_elem? (map f xs) n ≡ none
  get_elem?-map-none [] n le = refl
  get_elem?-map-none (x ∷ xs) zero le = absurd (omega arith)
  get_elem?-map-none (x ∷ xs) (suc n) le = get_elem?-map-none xs n (omega arith)

  pub map-same :
      (g : ℕ → B) (xs : List ℕ) → ((x : ℕ) → has x xs ≡ true → g x ≡ f x) → map g xs ≡ map f xs
  map-same g [] h = refl
  map-same g (x ∷ xs) h = rw (h x (ground arith), map-same g xs (λ y k. h y (ground arith)))

module _ {A : Type 0} where
  -- The stack s is a ring whose elements hold the values vs, from the top to the back.
  abbrev pub Holds : Memory A → ℕ → List A → Type 0
  Holds m s vs = (xs : List ℕ) × Ring m s xs × (map (m.value) xs ≡ vs)

  -- An element that no stack holds.
  abbrev pub IsFree : Memory A → ℕ → Type 0
  IsFree m e = (e == 0 ≡ false) × (m.stack e ≡ 0) × (e < m.fresh)

  -- A procedure removes what the operation on lists does: nothing, or an element with the value.
  abbrev pub Removes : Memory A → ℕ → Option (ℕ × Memory A) → Option (A × List A) → Type 0
  Removes m s run none = run ≡ some (0, m)
  Removes m s run (some (v, rest)) =
      (e : ℕ) × (m' : Memory A) × (run ≡ some (e, m'))
      × (m'.value e ≡ v)
      × IsFree m' e
      × Holds m' s rest

  module _ (m : Memory A) (s : ℕ) (xs : List ℕ) (r : Ring m s xs) where
    removed-Removes :
        (n : ℕ)
        → n < length xs
        → Removes m s
            (remove s (element xs n) m)
            (some (m.value (after xs s n), without (map (m.value) xs) n))
    unfolding put
    removed-Removes n lt =
        let e = after xs s n in
        let (run, ring) = remove-Ring m s xs r n lt in
        let (he, own, c) = All-has (Owned m s) xs e (r.owned) (after-owned xs s n lt) in
        (
          e,
          removed m s e,
          ap (λ a. remove s a m) (element-after xs s n lt) ∙ run,
          refl,
          (he, ground arith, c),
          (without xs n, ring, map-without (m.value) xs n),
        )

    remove_at-Ring : (n : ℤ) → Removes m s (remove_at s n m) (Stack.remove_at n (map (m.value) xs))
    unfolding remove_at Stack.remove_at remove
    remove_at-Ring (negsuc n) = rw (peek-element m s xs r (negsuc n))
    remove_at-Ring (pos n) = elim (Bool-cases (ltb n (length xs))) [
      | inl h ↦
          let lt : n < length xs = ground arith in
          rw
            (
              peek-element m s xs r (pos n),
              Stack.remove_at,
              get_elem?-map-after (m.value) xs s n lt,
            )
            (removed-Removes n lt)
      | inr h ↦
          let le : length xs ≤ n = ground arith in
          rw (
            peek-element m s xs r (pos n),
            Stack.remove_at,
            get_elem?-map-none (m.value) xs n le,
            element-none xs n le,
          )
    ]

  -- On a ring of elements with the values of a list, RemoveAt at any index does what removing from
  -- the list does: it returns nil and changes nothing, or returns an element with the removed
  -- value, which no stack holds any more, and leaves a ring with the values of the rest.
  pub remove_at-Removes :
      (m : Memory A) (s : ℕ) (vs : List A) (n : ℤ)
      → Holds m s vs
      → Removes m s (remove_at s n m) (Stack.remove_at n vs)
  remove_at-Removes m s vs n (xs, r, same) =
      subst (λ ws. Removes m s (remove_at s n m) (Stack.remove_at n ws)) same
        (remove_at-Ring m s xs r n)

  pop-remove_at :
      (m : Memory A) (s : ℕ) (vs : List A) → Holds m s vs → pop s m ≡ remove_at s (pos 0) m
  unfolding pop remove_at
  pop-remove_at m s vs (xs, r, same) = rw (top-runs m s xs r, peek-element m s xs r (pos 0))

-- ===== src/Vm/Ring/Insertion.antt =====
-- Push and InsertAt on the ring (pkg/vm/stack.go) against stacks as lists.
use neovm.Prelude.{
  ℕ, zero, suc, ◌≤◌, ◌<◌, ◌≡◌, refl, subst, sym, ap, ◌∙◌, false, true, List, [], ◌∷◌, length, arith,
  ◌==◌, some, pure, resume, Bool-cases, inl, inr, Option, none, map, ltb,
}
use neovm.Prelude.Int.{pos, negsuc, ◌-ℤ◌}
use neovm.Vm.Stack
use neovm.Vm.Ring.{Memory, put, new_element, new_stack, cleaned, link, insert, insert_at, push}
use neovm.Vm.Ring.Chain.{has, frame, node, after}
use neovm.Vm.Ring.Heap.{
  Ring, Owned, All-within, link-Ring, linked_in, not_on, node-after, after-owned, All-has,
}
use neovm.Vm.Ring.Walk.{element, element-after, element-none, peek-element}
use neovm.Vm.Ring.Refinement.{Holds, map-insert, map-same, get_elem?-map-after, get_elem?-map-none}

below_zero : pos 0 -ℤ pos 1 ≡ negsuc 0
unfolding ◌-ℤ◌
below_zero = refl

less-one : (n : ℕ) → pos (suc n) -ℤ pos 1 ≡ pos n
unfolding ◌-ℤ◌
less-one n = ground arith

module _ {A : Type 0} where
  -- An element that may be inserted in the stack s: it is not nil and not the stack's own `top`.
  abbrev pub IsInsertable : Memory A → ℕ → ℕ → Type 0
  IsInsertable m s e = (e == 0 ≡ false) × (e == s ≡ false) × (e < m.fresh)

  -- A procedure leaves the stack as the operation on lists does: unchanged, or with the values.
  abbrev pub Inserts : Memory A → ℕ → Option (ℕ × Memory A) → Option (List A) → Type 0
  Inserts m s run none = run ≡ some (0, m)
  Inserts m s run (some vs) =
      (e : ℕ) × (m' : Memory A) × (run ≡ some (e, m')) × (e == 0 ≡ false) × Holds m' s vs

  abbrev copied : Memory A → A → Memory A
  copied m v = record m {
    fresh = suc (m.fresh);
    value = put (m.value) (m.fresh) v;
    next = put (m.next) (m.fresh) 0;
    prev = put (m.prev) (m.fresh) 0;
    stack = put (m.stack) (m.fresh) 0;
  }

  put-here : (f : ℕ → A) (a : ℕ) (v : A) → put f a v a ≡ v
  unfolding put
  put-here f a v = ground arith

  cleaned-copied :
      (m : Memory A) (s e : ℕ)
      → e == 0 ≡ false
      → m.stack e == s ≡ true
      → cleaned s e m ≡ some (m.fresh, copied m (m.value e))
  unfolding cleaned new_element
  cleaned-copied m s e he held = simp (he, held)

  module _ (m : Memory A) (s : ℕ) (xs : List ℕ) (r : Ring m s xs) where
    below_fresh : (a : ℕ) → has a (s ∷ xs) ≡ true → a == m.fresh ≡ false
    below_fresh a h = elim (Bool-cases (a == s)) [
      | inl p ↦ let lt = r.allocated in ground arith
      | inr p ↦ let (x, y, lt) = All-has (Owned m s) xs a (r.owned) (ground arith) in ground arith
    ]

    fresh_out : has (m.fresh) xs ≡ false
    fresh_out = elim (Bool-cases (has (m.fresh) xs)) [
      | inl p ↦ let no = below_fresh (m.fresh) (ground arith) in absurd (ground arith)
      | inr p ↦ p
    ]

    copied-Ring : (v : A) → Ring (copied m v) s xs
    unfolding put
    copied-Ring v =
        let low = r.allocated in
        let own = r.topmost in
        record {
          present = r.present;
          allocated = omega arith;
          topmost = ground arith;
          linked =
              frame _ _ _ _ s xs s (λ a h. ground (arith, below_fresh a h))
                (λ a h. ground (arith, below_fresh a h)) (r.linked);
          distinct = r.distinct;
          owned =
              All-within (Owned m s) (Owned (copied m v) s) xs
                (λ x h (a, b, c). (a, ground arith, omega arith)) (r.owned);
          counted = r.counted;
        }

    copied-values : (v : A) → map ((copied m v).value) xs ≡ map (m.value) xs
    unfolding put
    copied-values v =
        map-same (m.value) ((copied m v).value) xs
          (λ x h. ground (arith, below_fresh x (ground arith)))

    insert-Holds :
        (e n : ℕ)
        → n ≤ length xs
        → IsInsertable m s e
        → Inserts m s
            (insert s e (node s xs n) m)
            (some (Stack.insert (map (m.value) xs) n (m.value e)))
    unfolding cleaned new_element put
    insert-Holds e n le (he, hs, lt) = elim (Bool-cases (m.stack e == s)) [
      | inl held ↦
          let c = copied m (m.value e) in
          let f = m.fresh in
          let ring = copied-Ring (m.value e) in
          let out = fresh_out in
          let (run, after) =
            link-Ring c s xs ring f n le (ground arith) (ground (arith, r.allocated)) out
              (omega arith) in
          (
            f,
            linked_in c s f (node s xs n),
            ap (resume λ e'. link s e' (node s xs n)) (cleaned-copied m s e he held) ∙ run,
            ground arith,
            (
              Stack.insert xs n f,
              after,
              map-insert (c.value) xs n f
                  ∙ ap (λ ws. Stack.insert ws n (c.value f)) (copied-values (m.value e))
                  ∙ ap (Stack.insert (map (m.value) xs) n) (put-here (m.value) f (m.value e)),
            ),
          )
      | inr apart ↦
          let (run, after) = link-Ring m s xs r e n le he hs (not_on m s xs r e apart) lt in
          (
            e,
            linked_in m s e (node s xs n),
            rw (he, apart, run),
            he,
            (Stack.insert xs n e, after, map-insert (m.value) xs n e),
          )
    ]

    push-Ring :
        (e : ℕ)
        → IsInsertable m s e
        → (m' : Memory A) × (push s e m ≡ some (tt, m')) × Holds m' s (m.value e ∷ map (m.value) xs)
    unfolding push
    push-Ring e ok =
        let (e', m', run, he, holds) = insert-Holds e 0 (omega arith) ok in
        (m', ap (resume λ a. pure tt) run, holds)

    insert_at-Ring :
        (e n : ℕ)
        → IsInsertable m s e
        → Inserts m s (insert_at s e (pos n) m) (Stack.insert_at (m.value e) n (map (m.value) xs))
    unfolding insert_at Stack.insert_at
    insert_at-Ring e zero ok = rw (below_zero, peek-element m s xs r (negsuc 0))
    insert_at-Ring e (suc n) ok = elim (Bool-cases (ltb n (length xs))) [
      | inl h ↦
          let lt : n < length xs = ground arith in
          let (he, own, c) =
            All-has (Owned m s) xs (after xs s n) (r.owned) (after-owned xs s n lt) in
          let there : element xs n == 0 ≡ false = ap (λ a. a == 0) (element-after xs s n lt) ∙ he in
          let place = node-after s xs s n lt ∙ sym (element-after xs s n lt) in
          rw
            (
              less-one n,
              peek-element m s xs r (pos n),
              Stack.insert_at,
              get_elem?-map-after (m.value) xs s n lt,
              there,
            )
            (subst
              (λ a.
                Inserts m s (insert s e a m)
                  (some (Stack.insert (map (m.value) xs) (suc n) (m.value e))))
              place (insert-Holds e (suc n) (omega arith) ok))
      | inr h ↦
          let le : length xs ≤ n = ground arith in
          rw (
            less-one n,
            peek-element m s xs r (pos n),
            Stack.insert_at,
            get_elem?-map-none (m.value) xs n le,
            element-none xs n le,
          )
    ]

  -- Push on a ring leaves a ring with the value of the element on top of the others.
  pub push-Holds :
      (m : Memory A) (s e : ℕ) (vs : List A)
      → Holds m s vs
      → IsInsertable m s e
      → (m' : Memory A) × (push s e m ≡ some (tt, m')) × Holds m' s (m.value e ∷ vs)
  push-Holds m s e vs (xs, r, same) ok =
      let (m', run, (ys, r', values)) = push-Ring m s xs r e ok in
      (m', run, (ys, r', values ∙ ap (λ ws. m.value e ∷ ws) same))

  -- On a ring of elements with the values of a list, InsertAt of an element in use that is not the
  -- stack's own top, at an index from zero on, does what inserting its value in the list does: it
  -- returns nil and changes nothing, or returns an element and leaves a ring with the values of the
  -- longer list, also where the stack holds the element already.
  pub insert_at-Inserts :
      (m : Memory A) (s e n : ℕ) (vs : List A)
      → Holds m s vs
      → IsInsertable m s e
      → Inserts m s (insert_at s e (pos n) m) (Stack.insert_at (m.value e) n vs)
  insert_at-Inserts m s e n vs (xs, r, same) ok =
      subst (λ ws. Inserts m s (insert_at s e (pos n) m) (Stack.insert_at (m.value e) n ws)) same
        (insert_at-Ring m s xs r e n ok)

  -- A new stack holds nothing.
  new_stack-Holds :
      (m : Memory A)
      → m.fresh == 0 ≡ false
      → (s : ℕ) × (m' : Memory A) × (new_stack m ≡ some (s, m')) × Holds m' s []
  unfolding new_stack put
  new_stack-Holds m h = (
    m.fresh,
    _,
    refl,
    (
      [],
      record {
        present = h;
        allocated = omega arith;
        topmost = ground arith;
        linked = (ground arith, ground arith);
        distinct = (refl, tt);
        owned = tt;
        counted = ground arith;
      },
      refl,
    ),
  )

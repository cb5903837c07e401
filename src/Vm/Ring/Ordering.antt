-- ===== src/Vm/Ring/Ordering.antt =====
-- Swap and Roll on the ring (pkg/vm/stack.go) answer as on lists.
use neovm.Prelude.{
  ℕ, zero, suc, ◌<◌, ◌≡◌, refl, subst, ap, false, true, List, [], ◌∷◌, length, arith, ◌==◌, some,
  Bool-cases, inl, inr, map, leb, ◌||◌,
}
use neovm.Prelude.Int.{ℤ, pos, negsuc, ltb_ℤ, leb_ℤ, eqb_ℤ}
use neovm.Vm.Stack
use neovm.Vm.Stack.{Answer, ok, err, without}
use neovm.Vm.Ring.{Memory, put, roll, swap, exchange}
use neovm.Vm.Ring.Chain.{after}
use neovm.Vm.Ring.Heap.{Ring, Owned, after-owned, All-has}
use neovm.Vm.Ring.Walk.{element-after, peek-element}
use neovm.Vm.Ring.Refinement.{Holds, map-without, get_elem?-map-after}
use neovm.Vm.Ring.Moves.{Answers, relinked, relink-Ring, map-put, length-map}

ltb_ℤ-zero : (n : ℕ) → ltb_ℤ (pos n) (pos 0) ≡ false
ltb_ℤ-zero n = ground arith

ltb_ℤ-negsuc : (n : ℕ) → ltb_ℤ (negsuc n) (pos 0) ≡ true
ltb_ℤ-negsuc n = ground arith

leb_ℤ-pos : (a b : ℕ) → leb_ℤ (pos a) (pos b) ≡ leb a b
leb_ℤ-pos a b = ground arith

eqb_ℤ-pos : (a b : ℕ) → eqb_ℤ (pos a) (pos b) ≡ (a == b)
eqb_ℤ-pos a b = ground arith

module _ {A : Type 0} (m : Memory A) (s : ℕ) where
  roll_inside :
      (n : ℕ) (xs : List ℕ)
      → Ring m s xs
      → suc n < length xs
      → (m' : Memory A) × (roll s (pos (suc n)) m ≡ some (ok tt, m'))
        × Holds m' s (m.value (after xs s (suc n)) ∷ without (map (m.value) xs) (suc n))
  unfolding roll
  roll_inside n [] r lt = absurd (omega arith)
  roll_inside n (x ∷ xs) r lt =
      let (run, ring) = relink-Ring m s x xs r n (omega arith) in
      let nz : (suc n == 0) ≡ false = ground arith in
      let long : leb (suc (length xs)) (suc n) ≡ false = ground arith in
      (
        relinked m s x (after xs s n),
        rw (
          r.present,
          r.counted,
          ltb_ℤ-zero (suc n),
          leb_ℤ-pos (suc (length xs)) (suc n),
          long,
          eqb_ℤ-pos (suc n) 0,
          nz,
          peek-element m s (x ∷ xs) r (pos 0),
          peek-element m s (x ∷ xs) r (pos (suc n)),
          element-after xs s n (omega arith),
          run,
        ),
        (
          after xs s n ∷ x ∷ without xs n,
          ring,
          ap (λ ys. m.value (after xs s n) ∷ m.value x ∷ ys) (map-without (m.value) xs n),
        ),
      )

  roll_small :
      (n : ℕ) (xs : List ℕ)
      → Ring m s xs
      → leb (length xs) n ≡ false
      → Answers m s (roll s (pos n) m) (Stack.roll (pos n) (map (m.value) xs))
  unfolding roll Stack.roll
  roll_small zero xs r small =
      rw (Stack.roll, length-map (m.value) xs, small)
        (m, rw (r.present, r.counted, leb_ℤ-pos (length xs) 0, small), (xs, r, refl))
  roll_small (suc n) xs r small =
      let lt : suc n < length xs = ground arith in
      let nz : (suc n == 0) ≡ false = ground arith in
      rw
        (
          Stack.roll,
          length-map (m.value) xs,
          small,
          nz,
          get_elem?-map-after (m.value) xs s (suc n) lt,
        )
        (roll_inside n xs r lt)

  roll-Ring :
      (xs : List ℕ)
      → Ring m s xs
      → (n : ℤ) → Answers m s (roll s n m) (Stack.roll n (map (m.value) xs))
  unfolding roll Stack.roll
  roll-Ring xs r (negsuc n) = rw (r.present, ltb_ℤ-negsuc n)
  roll-Ring xs r (pos n) = elim (Bool-cases (leb (length xs) n)) [
    | inl big ↦ rw (
      r.present,
      r.counted,
      ltb_ℤ-zero n,
      leb_ℤ-pos (length xs) n,
      Stack.roll,
      length-map (m.value) xs,
      big,
    )
    | inr small ↦ roll_small n xs r small
  ]

  exchanged : ℕ → ℕ → Memory A
  exchanged a b = record m { value = put (put (m.value) a (m.value b)) b (m.value a) }

  exchanged-Holds :
      (xs : List ℕ)
      → Ring m s xs
      → (i j : ℕ) → i < length xs
      → j < length xs
      → Holds (exchanged (after xs s i) (after xs s j)) s (Stack.exchange (map (m.value) xs) i j)
  unfolding exchanged
  exchanged-Holds xs r i j hi hj = (
    xs,
    record {
      present = r.present;
      allocated = r.allocated;
      topmost = r.topmost;
      linked = r.linked;
      distinct = r.distinct;
      owned = r.owned;
      counted = r.counted;
    },
    rw (
      Stack.exchange,
      get_elem?-map-after (m.value) xs s i hi,
      get_elem?-map-after (m.value) xs s j hj,
      map-put (put (m.value) (after xs s i) (m.value (after xs s j))) xs s j
          (m.value (after xs s i)) hj (r.distinct.1),
      map-put (m.value) xs s i (m.value (after xs s j)) hi (r.distinct.1),
    ),
  )

  exchange-exchanged :
      (xs : List ℕ)
      → Ring m s xs
      → (i j : ℕ) → i < length xs
      → j < length xs
      → exchange s (pos i) (pos j) m ≡ some (ok tt, exchanged (after xs s i) (after xs s j))
  unfolding exchanged
  exchange-exchanged xs r i j hi hj =
      let (ha, oa, la) = All-has (Owned m s) xs (after xs s i) (r.owned) (after-owned xs s i hi) in
      let (hb, ob, lb) = All-has (Owned m s) xs (after xs s j) (r.owned) (after-owned xs s j hj) in
      simp (
        peek-element m s xs r (pos i),
        peek-element m s xs r (pos j),
        element-after xs s i hi,
        element-after xs s j hj,
        ha,
        hb,
      )

  swap-Ring :
      (xs : List ℕ)
      → Ring m s xs
      → (n1 n2 : ℤ) → Answers m s (swap s n1 n2 m) (Stack.swap n1 n2 (map (m.value) xs))
  unfolding swap Stack.swap
  swap-Ring xs r (negsuc n) n2 = rw (r.present, ltb_ℤ-negsuc n)
  swap-Ring xs r (pos n) (negsuc n2) = rw (r.present, ltb_ℤ-zero n, ltb_ℤ-negsuc n2)
  swap-Ring xs r (pos i) (pos j) = elim (Bool-cases (leb (length xs) i || leb (length xs) j)) [
    | inl big ↦ rw (
      r.present,
      r.counted,
      ltb_ℤ-zero i,
      ltb_ℤ-zero j,
      leb_ℤ-pos (length xs) i,
      leb_ℤ-pos (length xs) j,
      Stack.swap,
      length-map (m.value) xs,
      big,
    )
    | inr small ↦
        let hi : i < length xs = ground arith in
        let hj : j < length xs = ground arith in
        elim (Bool-cases (i == j)) [
          | inl same ↦
              rw (Stack.swap, length-map (m.value) xs, small, same)
                (
                  m,
                  rw (
                    r.present,
                    r.counted,
                    ltb_ℤ-zero i,
                    ltb_ℤ-zero j,
                    leb_ℤ-pos (length xs) i,
                    leb_ℤ-pos (length xs) j,
                    small,
                    eqb_ℤ-pos i j,
                    same,
                  ),
                  (xs, r, refl),
                )
          | inr apart ↦
              rw (Stack.swap, length-map (m.value) xs, small, apart)
                (
                  exchanged (after xs s i) (after xs s j),
                  rw (
                    r.present,
                    r.counted,
                    ltb_ℤ-zero i,
                    ltb_ℤ-zero j,
                    leb_ℤ-pos (length xs) i,
                    leb_ℤ-pos (length xs) j,
                    small,
                    eqb_ℤ-pos i j,
                    apart,
                    exchange-exchanged xs r i j hi hj,
                  ),
                  exchanged-Holds xs r i j hi hj,
                )
        ]
  ]

module _ {A : Type 0} where
  -- On a ring of elements with the values of a list, Roll with any index answers as rolling the
  -- list does: with the same error and no change, or without one, and then it leaves a ring with
  -- the values of the rolled list.
  pub roll-Answers :
      (m : Memory A) (s : ℕ) (vs : List A) (n : ℤ)
      → Holds m s vs
      → Answers m s (roll s n m) (Stack.roll n vs)
  roll-Answers m s vs n (xs, r, same) =
      subst (λ ws. Answers m s (roll s n m) (Stack.roll n ws)) same (roll-Ring m s xs r n)

  -- On a ring of elements with the values of a list, Swap of any two indices answers as swapping in
  -- the list does: with the same error and no change, or without one, and then it leaves a ring
  -- with the values of the swapped list.
  pub swap-Answers :
      (m : Memory A) (s : ℕ) (vs : List A) (n1 n2 : ℤ)
      → Holds m s vs
      → Answers m s (swap s n1 n2 m) (Stack.swap n1 n2 vs)
  swap-Answers m s vs n1 n2 (xs, r, same) =
      subst (λ ws. Answers m s (swap s n1 n2 m) (Stack.swap n1 n2 ws)) same
        (swap-Ring m s xs r n1 n2)

-- ===== src/Vm/Ring/Transfer.antt =====
-- Elements that move from one stack to another, as in TOALTSTACK (pkg/vm/vm.go).
use neovm.Prelude.{ℕ, ◌≡◌, ap, ◌∙◌, false, List, [], ◌∷◌, arith, ◌==◌, some, resume, map}
use neovm.Vm.Ring.{Memory, put, link, cleaned, push, pop, remove, to_stack}
use neovm.Vm.Ring.Heap.{Ring, linked_in, link-Ring, not_on}
use neovm.Vm.Ring.Removal.{removed, remove-Ring}
use neovm.Vm.Ring.Walk.{top-runs}
use neovm.Vm.Ring.Refinement.{Holds}
use neovm.Vm.Ring.Apart.{apart, removed-apart, linked_in-apart}

push-link :
    {A : Type 0} (m m' : Memory A) (t x : ℕ)
    → x == 0 ≡ false
    → m.stack x == t ≡ false
    → link t x t m ≡ some (x, m')
    → push t x m ≡ some (tt, m')
unfolding push cleaned
push-link m m' t x hx strange run = rw (hx, strange, run)

cons-injective : {A : Type 0} (x y : A) (xs ys : List A) → x ∷ xs ≡ y ∷ ys → (x ≡ y) × (xs ≡ ys)
cons-injective x y xs ys p = (cc, cc)

module _ {A : Type 0} (m : Memory A) (s t x : ℕ) (xs ys : List ℕ) (r : Ring m s (x ∷ xs))
    (q : Ring m t ys) (st : s == t ≡ false) where
  abbrev moved : Memory A
  moved = linked_in (removed m s x) t x t

  pop-removed : pop s m ≡ some (x, removed m s x)
  unfolding pop
  pop-removed =
      ap (resume (remove s)) (top-runs m s (x ∷ xs) r)
      ∙ (remove-Ring m s (x ∷ xs) r 0 (omega arith)).0

  to_stack-Ring : (to_stack s t m ≡ some (tt, moved)) × Ring moved s xs × Ring moved t (x ∷ ys)
  unfolding to_stack put
  to_stack-Ring =
      let m' = removed m s x in
      let r' = (remove-Ring m s (x ∷ xs) r 0 (omega arith)).1 in
      let q' = removed-apart m s t (x ∷ xs) ys r q st 0 (omega arith) in
      let (hx, own, low) = r.owned.0 in
      let ht = q.present in
      let far : x == t ≡ false =
        (let no = apart m s t (x ∷ xs) ys r q st x t (ground arith) (ground arith) in
          ground arith) in
      let free : m'.stack x ≡ 0 = ground arith in
      let strange : m'.stack x == t ≡ false = ground arith in
      let off = not_on m' t ys q' x strange in
      let (run, q'') = link-Ring m' t ys q' x 0 (omega arith) hx far off low in
      let (out_s, (out, d)) = r.distinct in
      (
        ap (resume (push t)) pop-removed ∙ push-link m' moved t x hx strange run,
        linked_in-apart m' t s ys xs q' r' (ground arith) x 0 (omega arith) (ground arith),
        q'',
      )

module _ {A : Type 0} where
  moved-Holds :
      (m : Memory A) (s t : ℕ) (v : A) (vs ws : List A) (xs : List ℕ)
      → s == t ≡ false
      → Ring m s xs
      → map (m.value) xs ≡ v ∷ vs
      → Holds m t ws
      → (m' : Memory A) × (to_stack s t m ≡ some (tt, m')) × Holds m' s vs × Holds m' t (v ∷ ws)
  moved-Holds m s t v vs ws [] st r same held = cc
  moved-Holds m s t v vs ws (x ∷ xs) st r same (ys, q, held) =
      let (run, r', q') = to_stack-Ring m s t x xs ys r q st in
      let (hv, hvs) = cons-injective (m.value x) v (map (m.value) xs) vs same in
      (
        moved m s t x xs ys r q st,
        run,
        (xs, r', hvs),
        (x ∷ ys, q', ap (λ a. a ∷ map (m.value) ys) hv ∙ ap (λ zs. v ∷ zs) held),
      )

  -- If two stacks are rings of elements, the first of which holds values with v on top, popping an
  -- element of the first and pushing it on the second ends without a nil dereference, leaves the
  -- first ring with the other values and the second with v on top of its own.
  pub to_stack-Holds :
      (m : Memory A) (s t : ℕ) (v : A) (vs ws : List A)
      → s == t ≡ false
      → Holds m s (v ∷ vs)
      → Holds m t ws
      → (m' : Memory A) × (to_stack s t m ≡ some (tt, m')) × Holds m' s vs × Holds m' t (v ∷ ws)
  to_stack-Holds m s t v vs ws st (xs, r, same) held = moved-Holds m s t v vs ws xs st r same held

-- ===== src/Vm/Ring/Apart.antt =====
-- Two stacks as rings in one memory (pkg/vm/stack.go): what an operation on one leaves of the other.
use neovm.Prelude.{
  ℕ, suc, ◌≤◌, ◌<◌, ◌≡◌, ap, ◌∙◌, false, true, List, ◌∷◌, length, arith, ◌==◌, Bool-cases, inl, inr,
  ◌⊎◌,
}
use neovm.Vm.Ring.{Memory, put}
use neovm.Vm.Ring.Chain.{has, frame, node, after, node-has, after-has, Linked-next}
use neovm.Vm.Ring.Heap.{Ring, Owned, All-within, All-has, linked_in}
use neovm.Vm.Ring.Removal.{removed, neighbours}
use neovm.Vm.Ring.Moves.{other}

module _ {A : Type 0} where
  -- The `top` of a stack belongs to none, and an element on the ring to the stack.
  owner :
      (m : Memory A) (s : ℕ) (xs : List ℕ)
      → Ring m s xs
      → (a : ℕ) → has a (s ∷ xs) ≡ true
      → ((a ≡ s) × (m.stack a ≡ 0)) ⊎ (m.stack a ≡ s)
  owner m s xs r a h = elim (Bool-cases (a == s)) [
    | inl p ↦ let same : a ≡ s = ground arith in inl (same, ap (m.stack) same ∙ r.topmost)
    | inr p ↦ inr ((All-has (Owned m s) xs a (r.owned) (ground arith)).1)
  ]

  -- What is on one ring is not on the other.
  pub apart :
      (m : Memory A) (s t : ℕ) (xs ys : List ℕ)
      → Ring m s xs
      → Ring m t ys
      → s == t ≡ false
      → (a b : ℕ) → has a (s ∷ xs) ≡ true
      → has b (t ∷ ys) ≡ true
      → b == a ≡ false
  apart m s t xs ys r q st a b ha hb = elim (Bool-cases (b == a)) [
    | inl p ↦
        let same : b ≡ a = ground arith in
        let owners = ap (m.stack) same in
        let hs = r.present in
        let ht = q.present in
        elim (owner m s xs r a ha) [
          | inl (x, y) ↦ elim (owner m t ys q b hb) [
            | inl (z, w) ↦ ground arith
            | inr w ↦ ground arith
          ]
          | inr y ↦ elim (owner m t ys q b hb) [ inl (z, w) ↦ ground arith | inr w ↦ ground arith ]
        ]
    | inr p ↦ p
  ]

  -- A ring is left where a change spares its elements and its length.
  Ring-frame :
      (m m' : Memory A) (t : ℕ) (ys : List ℕ)
      → Ring m t ys
      → ((a : ℕ)
          → has a (t ∷ ys) ≡ true
          → (m'.next a ≡ m.next a) × (m'.prev a ≡ m.prev a) × (m'.stack a ≡ m.stack a))
      → m.fresh ≤ m'.fresh
      → m'.len t ≡ m.len t
      → Ring m' t ys
  Ring-frame m m' t ys q same le len =
      let low = q.allocated in
      record {
        present = q.present;
        allocated = omega arith;
        topmost = (same t (ground arith)).2 ∙ q.topmost;
        linked =
            frame (m.next) (m.prev) (m'.next) (m'.prev) t ys t (λ a h. (same a h).0)
              (λ a h. (same a h).1) (q.linked);
        distinct = q.distinct;
        owned =
            All-within (Owned m t) (Owned m' t) ys
              (λ x h (a, b, c). (a, (same x (ground arith)).2 ∙ b, omega arith)) (q.owned);
        counted = len ∙ q.counted;
      }

  pub removed-apart :
      (m : Memory A) (s t : ℕ) (xs ys : List ℕ)
      → Ring m s xs
      → Ring m t ys
      → s == t ≡ false
      → (n : ℕ) → n < length xs
      → Ring (removed m s (after xs s n)) t ys
  unfolding put
  removed-apart m s t xs ys r q st n lt =
      let e = after xs s n in
      let (pv, nx) = neighbours m s xs r n lt in
      let far = apart m s t xs ys r q st in
      let hp : has (m.prev e) (s ∷ xs) ≡ true = ap (λ z. has z (s ∷ xs)) pv ∙ node-has s xs n in
      let hn : has (m.next e) (s ∷ xs) ≡ true =
        ap (λ z. has z (s ∷ xs)) nx ∙ after-has xs s (suc n) in
      let he = after-has xs s n in
      Ring-frame m (removed m s e) t ys q
        (λ a h.
          let x = far (m.prev e) a hp h in
          let y = far (m.next e) a hn h in let z = far e a he h in (rw (z, x), rw (z, y), rw z))
        (omega arith) (ground arith)

  pub linked_in-apart :
      (m : Memory A) (s t : ℕ) (xs ys : List ℕ)
      → Ring m s xs
      → Ring m t ys
      → s == t ≡ false
      → (e n : ℕ) → n ≤ length xs
      → has e (t ∷ ys) ≡ false
      → Ring (linked_in m s e (node s xs n)) t ys
  unfolding put
  linked_in-apart m s t xs ys r q st e n le out =
      let (nx, pv) = Linked-next (m.next) (m.prev) s xs s n le (r.linked) in
      let far = apart m s t xs ys r q st in
      let hn : has (m.next (node s xs n)) (s ∷ xs) ≡ true =
        ap (λ z. has z (s ∷ xs)) nx ∙ after-has xs s n in
      let hp = node-has s xs n in
      Ring-frame m (linked_in m s e (node s xs n)) t ys q
        (λ a h.
          let x = far (node s xs n) a hp h in
          let y = far (m.next (node s xs n)) a hn h in
          let no = other e a (t ∷ ys) out h in
          let z : a == e ≡ false = ground arith in (rw (z, x), rw (y, z), rw z))
        (omega arith) (ground arith)

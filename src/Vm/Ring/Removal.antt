-- ===== src/Vm/Ring/Removal.antt =====
-- Linking an element out of a ring (pkg/vm/stack.go).
use neovm.Prelude.{
  ℕ, zero, suc, ◌<◌, ◌≡◌, sym, ap, ◌∙◌, false, true, List, [], ◌∷◌, length, arith, ◌==◌, some,
  Bool-cases, inl, inr,
}
use neovm.Prelude.Int.{pos, ◌-ℤ◌}
use neovm.Vm.Stack.{without}
use neovm.Vm.Ring.{Memory, put, bypass, detach, remove}
use neovm.Vm.Ring.Chain.{
  has, Distinct, Linked, node, after, node-has, after-has, frame, Linked-next, Linked-without,
  has-without, Distinct-without,
}
use neovm.Vm.Ring.Heap.{
  Ring, Owned, not_nil, after-owned, node-after, without-gone, All-without, All-within,
  length-without,
}

node-apart :
    (p q : ℕ) (xs : List ℕ) (n : ℕ)
    → n < length xs
    → Distinct (p ∷ xs)
    → after xs q n == node p xs n ≡ false
node-apart p q [] n lt d = absurd (omega arith)
node-apart p q (x ∷ xs) zero lt (h, d) = ground arith
node-apart p q (x ∷ xs) (suc n) lt (h, d) = node-apart x q xs n (omega arith) d

-- Writing at the element that is linked out leaves the others.
still :
    {B : Type 0} (f : ℕ → B) (v : B) (s : ℕ) (xs : List ℕ) (n : ℕ)
    → n < length xs
    → Distinct (s ∷ xs)
    → (a : ℕ) → has a (s ∷ without xs n) ≡ true
    → put f (after xs s n) v a ≡ f a
unfolding put
still f v s xs n lt (hs, d) a h = elim (Bool-cases (a == after xs s n)) [
  | inl p ↦
      let q : a ≡ after xs s n = ground arith in
      let gone = without-gone xs s n lt d in
      let there = after-owned xs s n lt in
      let gone' : has a (without xs n) ≡ false = ap (λ z. has z (without xs n)) q ∙ gone in
      let there' : has a xs ≡ true = ap (λ z. has z xs) q ∙ there in
      let here : a ≡ s = ground arith in
      let not_here : has a xs ≡ false = ap (λ z. has z xs) here ∙ hs in cc
  | inr p ↦ rw p
]

module _ {A : Type 0} where
  abbrev pub bypassed : Memory A → ℕ → Memory A
  bypassed m e = record m {
    next = put (m.next) (m.prev e) (m.next e);
    prev = put (m.prev) (m.next e) (m.prev e);
  }

  bypass-bypassed :
      (m : Memory A) (e : ℕ)
      → e == 0 ≡ false
      → m.prev e == 0 ≡ false
      → m.next e == 0 ≡ false
      → e == m.prev e ≡ false
      → bypass e m ≡ some (tt, bypassed m e)
  unfolding bypass put
  bypass-bypassed m e he hp hn k = ground arith

  abbrev pub detached : Memory A → ℕ → ℕ → Memory A
  detached m s e = record m {
    next = put (m.next) e 0;
    prev = put (m.prev) e 0;
    stack = put (m.stack) e 0;
    len = put (m.len) s (m.len s -ℤ pos 1);
  }

  detach-detached :
      (m : Memory A) (s e : ℕ)
      → s == 0 ≡ false
      → e == 0 ≡ false
      → detach s e m ≡ some (e, detached m s e)
  unfolding detach
  detach-detached m s e hs he = ground arith

  -- The neighbours of the element n of a ring.
  pub neighbours :
      (m : Memory A) (s : ℕ) (xs : List ℕ)
      → Ring m s xs
      → (n : ℕ) → n < length xs
      → (m.prev (after xs s n) ≡ node s xs n) × (m.next (after xs s n) ≡ after xs s (suc n))
  neighbours m s xs r n lt =
      let (nx, pv) = Linked-next (m.next) (m.prev) s xs s n (omega arith) (r.linked) in
      let (nx', pv') = Linked-next (m.next) (m.prev) s xs s (suc n) (omega arith) (r.linked) in
      (pv, sym (ap (m.next) (node-after s xs s n lt)) ∙ nx')

  pub bypass-Linked :
      (m : Memory A) (s : ℕ) (xs : List ℕ)
      → Ring m s xs
      → (n : ℕ) → n < length xs
      → (bypass (after xs s n) m ≡ some (tt, bypassed m (after xs s n)))
        × Linked
            (put (m.next) (m.prev (after xs s n)) (m.next (after xs s n)))
            (put (m.prev) (m.next (after xs s n)) (m.prev (after xs s n)))
            s
            (without xs n)
            s
  bypass-Linked m s xs r n lt =
      let (pv, nx) = neighbours m s xs r n lt in
      (
        bypass-bypassed m (after xs s n) (not_nil m s xs r (after xs s n) (after-has xs s n))
            (rw pv (not_nil m s xs r (node s xs n) (node-has s xs n)))
            (rw nx (not_nil m s xs r (after xs s (suc n)) (after-has xs s (suc n))))
            (rw pv (node-apart s s xs n lt (r.distinct))),
        rw (pv, nx)
            (Linked-without (m.next) (m.prev) s xs s n lt (r.distinct) (r.distinct.0) (r.linked)),
      )

  abbrev pub removed : Memory A → ℕ → ℕ → Memory A
  removed m s e = detached (bypassed m e) s e

  fewer :
      (m : Memory A) (s : ℕ) (xs : List ℕ)
      → Ring m s xs
      → (n : ℕ) → n < length xs
      → (removed m s (after xs s n)).len s ≡ pos (length (without xs n))
  unfolding put ◌-ℤ◌
  fewer m s xs r n lt = let less = length-without xs n lt in rw (r.counted) (ground arith)

  pub remove-Ring :
      (m : Memory A) (s : ℕ) (xs : List ℕ)
      → Ring m s xs
      → (n : ℕ) → n < length xs
      → (remove s (after xs s n) m ≡ some (after xs s n, removed m s (after xs s n)))
        × Ring (removed m s (after xs s n)) s (without xs n)
  unfolding remove
  remove-Ring m s xs r n lt =
      let e = after xs s n in
      let (run, linked) = bypass-Linked m s xs r n lt in
      let he : e == 0 ≡ false = not_nil m s xs r e (after-has xs s n) in
      (
        rw (he, run) (detach-detached (bypassed m e) s e (r.present) he),
        record {
          present = r.present;
          allocated = r.allocated;
          topmost = still _ _ s xs n lt (r.distinct) s (ground arith) ∙ r.topmost;
          linked =
              frame _ _ _ _ s (without xs n) s (λ a h. still _ _ s xs n lt (r.distinct) a h)
                (λ a h. still _ _ s xs n lt (r.distinct) a h) linked;
          distinct = (has-without s xs n (r.distinct.0), Distinct-without xs n (r.distinct.1));
          owned =
              All-within (Owned m s) (Owned (removed m s e) s) (without xs n)
                (λ x h (a, b, c). (a, still _ _ s xs n lt (r.distinct) x (ground arith) ∙ b, c))
                (All-without (Owned m s) xs n (r.owned));
          counted = fewer m s xs r n lt;
        },
      )

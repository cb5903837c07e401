-- ===== src/Vm/Ring/Moves.antt =====
-- Swap and Roll on the ring (pkg/vm/stack.go) against stacks as lists.
use neovm.Prelude.{
  ℕ, zero, suc, ◌<◌, ◌≡◌, refl, ap, ◌∙◌, false, true, List, [], ◌∷◌, length, arith, ◌==◌, some,
  Bool-cases, inl, inr, Option, map, set,
}
use neovm.Vm.Stack.{Answer, ok, err, without}
use neovm.Vm.Ring.{Memory, put, bypass, relink}
use neovm.Vm.Ring.Chain.{has, Distinct, frame, after, has-without, Distinct-without}
use neovm.Vm.Ring.Heap.{
  Ring, Owned, All-without, after-owned, without-gone, All-has, length-without,
}
use neovm.Vm.Ring.Removal.{bypassed, bypass-Linked}
use neovm.Vm.Ring.Refinement.{Holds, map-same}

-- An element outside a list is no element of it.
pub other : (a b : ℕ) (xs : List ℕ) → has a xs ≡ false → has b xs ≡ true → a == b ≡ false
other a b xs h k = elim (Bool-cases (a == b)) [
  | inl p ↦
      let q : a ≡ b = ground arith in let both : has a xs ≡ true = ap (λ z. has z xs) q ∙ k in cc
  | inr p ↦ p
]

pub length-map : {A B : Type 0} (f : A → B) (xs : List A) → length (map f xs) ≡ length xs
length-map f [] = refl
length-map f (x ∷ xs) = ap suc (length-map f xs)

pub map-put :
    {A : Type 0} (f : ℕ → A) (xs : List ℕ) (q n : ℕ) (v : A)
    → n < length xs
    → Distinct xs
    → map (put f (after xs q n) v) xs ≡ set (map f xs) n v
unfolding put
map-put f [] q n v lt d = refl
map-put f (x ∷ xs) q zero v lt (h, d) =
    let rest = map-same f (put f x v) xs (λ y k. let no = other x y xs h k in ground arith) in
    rw rest (ground arith)
map-put f (x ∷ xs) q (suc n) v lt (h, d) =
    let no = other x (after xs q n) xs h (after-owned xs q n (omega arith)) in
    rw (map-put f xs q n v (omega arith) d) (ground arith)

module _ {A : Type 0} where
  -- A procedure on a stack answers as the operation on lists does and leaves the values it leaves.
  abbrev pub Answers :
      Memory A → ℕ → Option (Answer (Unit {0}) × Memory A) → Answer (List A) → Type 0
  Answers m s run (err e) = run ≡ some (err e, m)
  Answers m s run (ok vs) = (m' : Memory A) × (run ≡ some (ok tt, m')) × Holds m' s vs

  abbrev pub relinked : Memory A → ℕ → ℕ → ℕ → Memory A
  relinked m s first e = record m {
    next = put (put ((bypassed m e).next) e first) s e;
    prev = put (put ((bypassed m e).prev) first e) e s;
  }

  relink-relinked :
      (m : Memory A) (s first e : ℕ)
      → s == 0 ≡ false
      → first == 0 ≡ false
      → e == 0 ≡ false
      → bypass e m ≡ some (tt, bypassed m e)
      → relink s first e m ≡ some (tt, relinked m s first e)
  unfolding relink
  relink-relinked m s first e hs hf he run = rw run (ground arith)

  pub relink-Ring :
      (m : Memory A) (s x : ℕ) (xs : List ℕ)
      → Ring m s (x ∷ xs)
      → (n : ℕ) → n < length xs
      → (relink s x (after xs s n) m ≡ some (tt, relinked m s x (after xs s n)))
        × Ring (relinked m s x (after xs s n)) s (after xs s n ∷ x ∷ without xs n)
  unfolding put
  relink-Ring m s x xs r n lt =
      let e = after xs s n in
      let (run, l) = bypass-Linked m s (x ∷ xs) r (suc n) (omega arith) in
      let on = after-owned xs s n lt in
      let (he, own, low) = All-has (Owned m s) (x ∷ xs) e (r.owned) (ground arith) in
      let (hx, own', low') = r.owned.0 in
      let (hs, (x_out, d)) = r.distinct in
      let gone = without-gone xs s n lt d in
      let apart : x == e ≡ false = other x e xs x_out on in
      let s_out = has-without s xs n (ground arith) in
      let x_out' = has-without x xs n x_out in
      let off : s == e ≡ false = other s e xs (ground arith) on in
      (
        relink-relinked m s x e (r.present) hx he run,
        record {
          present = r.present;
          allocated = r.allocated;
          topmost = r.topmost;
          linked = (
            ground arith,
            ground arith,
            (
              ground arith,
              ground arith,
              frame _ _ _ _ x (without xs n) s (λ a k. ground arith) (λ a k. ground arith) (l.2),
            ),
          );
          distinct = (
            (ground arith),
            ((ground arith), (has-without x xs n x_out, Distinct-without xs n d)),
          );
          owned = ((he, own, low), ((hx, own', low'), All-without (Owned m s) xs n (r.owned.1)));
          counted = (let c = r.counted in let less = length-without xs n lt in ground arith);
        },
      )

-- ===== src/Vm/Ring/Walk.antt =====
-- `Top`, `Element.Next` and `Peek` on a ring (pkg/vm/stack.go): the walk from the top ends.
use neovm.Prelude.{
  ℕ, zero, suc, ◌+◌, ◌≤◌, ◌<◌, ◌≡◌, refl, subst, ap, ◌∙◌, false, List, [], ◌∷◌, length, arith, ◌==◌,
  some, if◌then◌else◌, All, Bool-cases, inl, inr,
}
use neovm.Prelude.Int.{ℤ, pos, negsuc, eqb_ℤ}
use neovm.Vm.Ring.{Memory, top, next_element, peek_loop, peek}
use neovm.Vm.Ring.Chain.{has, Linked, after}
use neovm.Vm.Ring.Heap.{Ring, Owned}

-- The element n of a stack, or nil.
abbrev pub element : List ℕ → ℕ → ℕ
element [] n = 0
element (x ∷ xs) zero = x
element (x ∷ xs) (suc n) = element xs n

abbrev pub element_at : List ℕ → ℤ → ℕ
element_at xs (pos n) = element xs n
element_at xs (negsuc n) = 0

pub element-after : (xs : List ℕ) (q n : ℕ) → n < length xs → element xs n ≡ after xs q n
element-after [] q n h = absurd (omega arith)
element-after (x ∷ xs) q zero h = refl
element-after (x ∷ xs) q (suc n) h = element-after xs q n (omega arith)

pub element-none : (xs : List ℕ) (n : ℕ) → length xs ≤ n → element xs n ≡ 0
element-none [] n h = refl
element-none (x ∷ xs) zero h = absurd (omega arith)
element-none (x ∷ xs) (suc n) h = element-none xs n (omega arith)

-- What the index looks for in the rest of a stack, k elements of which the walk has passed.
ahead : ℤ → ℕ → List ℕ → ℕ
ahead n k [] = 0
ahead n k (x ∷ xs) = if eqb_ℤ n (pos k) then x else ahead n (suc k) xs

ahead-pos : (n k : ℕ) (xs : List ℕ) → ahead (pos (k + n)) k xs ≡ element xs n
unfolding ahead
ahead-pos n k [] = refl
ahead-pos zero k (x ∷ xs) = ground arith
ahead-pos (suc n) k (x ∷ xs) = ground (arith, ahead-pos n (suc k) xs)

ahead-negsuc : (n k : ℕ) (xs : List ℕ) → ahead (negsuc n) k xs ≡ 0
unfolding ahead
ahead-negsuc n k [] = refl
ahead-negsuc n k (x ∷ xs) = ground (arith, ahead-negsuc n (suc k) xs)

module _ {A : Type 0} (m : Memory A) (s : ℕ) (there : s == 0 ≡ false) where
  next_element-runs :
      (x : ℕ) (xs : List ℕ)
      → Owned m s x
      → has s xs ≡ false
      → Linked (m.next) (m.prev) x xs s
      → next_element x m ≡ some (element xs 0, m)
  unfolding next_element
  next_element-runs x [] (hx, own, c) hs (n, v) = ground arith
  next_element-runs x (y ∷ ys) (hx, own, c) hs (n, v, rest) = ground arith

  peek_loop-runs :
      (n : ℤ) (k fuel p : ℕ) (xs : List ℕ)
      → length xs < fuel
      → All (Owned m s) xs
      → has s xs ≡ false
      → Linked (m.next) (m.prev) p xs s
      → peek_loop fuel n k (element xs 0) m ≡ some (ahead n k xs, m)
  unfolding peek_loop ahead
  peek_loop-runs n k zero p xs lt owned hs l = absurd (omega arith)
  peek_loop-runs n k (suc fuel) p [] lt owned hs l = refl
  peek_loop-runs n k (suc fuel) p (x ∷ xs) lt ((hx, own, c), owned) hs (nx, pv, rest) =
      elim (Bool-cases (eqb_ℤ n (pos k))) [
        | inl found ↦ rw (hx, found)
        | inr other ↦
            rw (hx, other, next_element-runs x xs (hx, own, c) (ground arith) rest)
              (peek_loop-runs n (suc k) fuel x xs (omega arith) owned (ground arith) rest)
      ]

  top-element :
      (xs : List ℕ)
      → m.len s ≡ pos (length xs)
      → Linked (m.next) (m.prev) s xs s
      → top s m ≡ some (element xs 0, m)
  unfolding top
  top-element [] c l = ground arith
  top-element (x ∷ xs) c (n, v, rest) = ground arith

module _ {A : Type 0} (m : Memory A) (s : ℕ) (xs : List ℕ) (r : Ring m s xs) where
  pub top-runs : top s m ≡ some (element xs 0, m)
  top-runs = top-element m s (r.present) xs (r.counted) (r.linked)

  peek-ahead : (n : ℤ) → peek s n m ≡ some (ahead n 0 xs, m)
  unfolding peek
  peek-ahead n =
      rw (r.present, r.counted, top-runs)
        (peek_loop-runs m s (r.present) n 0 (suc (length xs)) s xs (omega arith) (r.owned)
          (r.distinct.0) (r.linked))

  -- Peek answers the element at its index and leaves the memory, and its walk ends.
  pub peek-element : (n : ℤ) → peek s n m ≡ some (element_at xs n, m)
  peek-element (pos n) =
      let shift : 0 + n ≡ n = omega arith in
      let found = subst (λ z. ahead (pos z) 0 xs ≡ element xs n) shift (ahead-pos n 0 xs) in
      peek-ahead (pos n) ∙ ap (λ a. some (a, m)) found
  peek-element (negsuc n) = peek-ahead (negsuc n) ∙ ap (λ a. some (a, m)) (ahead-negsuc n 0 xs)

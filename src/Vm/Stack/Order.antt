-- ===== src/Vm/Stack/Order.antt =====
-- Swapping and rolling rearrange the elements of a stack and lose none.
use neovm.Prelude.{
  ℕ, zero, suc, ◌≤◌, ◌<◌, ◌≡◌, refl, ap, ◌∙◌, false, some, List, [], ◌∷◌, length, get_elem?, set,
  ◌==◌, if◌then◌else◌, arith, Bool-cases, inl, inr, lt→not-leb, le→leb, Option-cases,
}
use mathlib.Core.List.{Perm}
use mathlib.Core.List.Perm
use mathlib.Core.Option.{some-injective}
use neovm.Prelude.Int.{pos}
use neovm.Io.Error.{new}
use neovm.Vm.Stack.{ok, err, remove_at, swap, roll, without, exchange}

module _ {A : Type 0} where
  without-perm : (s : List A) (n : ℕ) (e : A) → get_elem? s n ≡ some e → Perm (e ∷ without s n) s
  without-perm [] n e h = cc
  without-perm (x ∷ s) zero e h = let p : x ≡ e = some-injective x e h in rw p (Perm.refl (e ∷ s))
  without-perm (x ∷ s) (suc n) e h =
      Perm.trans (Perm.swap x e (without s n)) (Perm.cons x (without-perm s n e h))

  get_elem?-lt : (s : List A) (n : ℕ) → n < length s → (e : A) × (get_elem? s n ≡ some e)
  get_elem?-lt [] n h = absurd (omega arith)
  get_elem?-lt (x ∷ s) zero h = (x, refl)
  get_elem?-lt (x ∷ s) (suc n) h = get_elem?-lt s n (omega arith)

  -- For an index inside the stack, Roll gives what removing the element there and pushing it gives,
  -- and this is a permutation of the stack.
  roll-remove_at :
      (n : ℕ) (s : List A)
      → n < length s
      → (e : A) × (rest : List A) × (remove_at (pos n) s ≡ some (e, rest))
        × (roll (pos n) s ≡ ok (e ∷ rest))
        × Perm (e ∷ rest) s
  unfolding roll remove_at
  roll-remove_at zero [] h = absurd (omega arith)
  roll-remove_at zero (x ∷ s) h =
      (x, s, refl, rw (lt→not-leb (length (x ∷ s)) 0 h) refl, Perm.refl (x ∷ s))
  roll-remove_at (suc n) s h =
      let (e, found) = get_elem?-lt s (suc n) h in
      (
        e,
        without s (suc n),
        rw (remove_at, found),
        rw (lt→not-leb (length s) (suc n) h, found) (ground arith),
        without-perm s (suc n) e found,
      )

  pub roll_refused :
      (n : ℕ) (s : List A) → length s ≤ n → roll (pos n) s ≡ err (new "too big index")
  unfolding roll
  roll_refused n s h = rw (le→leb (length s) n h)

  get_elem?-set :
      (s : List A) (i k : ℕ) (v : A)
      → i < length s
      → get_elem? (set s i v) k ≡ (if k == i then some v else get_elem? s k)
  get_elem?-set [] i k v h = absurd (omega arith)
  get_elem?-set (x ∷ s) zero zero v h = refl
  get_elem?-set (x ∷ s) zero (suc k) v h = ground arith
  get_elem?-set (x ∷ s) (suc i) zero v h = ground arith
  get_elem?-set (x ∷ s) (suc i) (suc k) v h = get_elem?-set s i k v (omega arith) ∙ ground arith

  length-set : (s : List A) (i : ℕ) (v : A) → length (set s i v) ≡ length s
  length-set [] i v = refl
  length-set (x ∷ s) zero v = refl
  length-set (x ∷ s) (suc i) v = ap suc (length-set s i v)

  exchange-elems :
      (i j : ℕ) (s : List A) (a b : A)
      → get_elem? s i ≡ some a
      → get_elem? s j ≡ some b
      → i < length s
      → j < length s
      → i == j ≡ false
      → (k : ℕ)
      → get_elem? (exchange s i j) k
        ≡ (if k == i then some b else if k == j then some a else get_elem? s k)
  exchange-elems i j s a b hi hj li lj other k =
      rw
        (
          exchange,
          hi,
          hj,
          get_elem?-set (set s i b) j k a (rw (length-set s i b) lj),
          get_elem?-set s i k b li,
        )
        (ground arith)

  exchange-length : (i j : ℕ) (s : List A) → length (exchange s i j) ≡ length s
  exchange-length i j s = elim (Option-cases (get_elem? s i)) [
    | inl p ↦ rw (exchange, p) refl
    | inr (a, p) ↦ elim (Option-cases (get_elem? s j)) [
      | inl q ↦ rw (exchange, p, q) refl
      | inr (b, q) ↦ rw (exchange, p, q) (length-set (set s i b) j a ∙ length-set s i b)
    ]
  ]

  -- For two indices inside the stack, Swap exchanges the elements at them, leaves every other where
  -- it is and keeps the number of elements.
  pub swap_lem :
      (i j : ℕ) (s : List A)
      → i < length s
      → j < length s
      → (s' : List A) × (swap (pos i) (pos j) s ≡ ok s')
        × (length s' ≡ length s)
        × ((k : ℕ)
            → get_elem? s' k
              ≡ (if k == i then get_elem? s j else if k == j then get_elem? s i else get_elem? s k))
  unfolding swap
  swap_lem i j s hi hj = elim (Bool-cases (i == j)) [
    | inl same ↦ (
      s,
      rw (lt→not-leb (length s) i hi, lt→not-leb (length s) j hj, same),
      refl,
      λ k. ground arith,
    )
    | inr other ↦
        let (a, p) = get_elem?-lt s i hi in
        let (b, q) = get_elem?-lt s j hj in
        (
          exchange s i j,
          rw (lt→not-leb (length s) i hi, lt→not-leb (length s) j hj, other),
          exchange-length i j s,
          λ k. rw (p, q) (exchange-elems i j s a b p q hi hj other k),
        )
  ]

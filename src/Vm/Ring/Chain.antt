-- ===== src/Vm/Ring/Chain.antt =====
-- Chains of linked elements (pkg/vm/stack.go): what linking an element in and out does to them.
use neovm.Prelude.{
  ℕ, zero, suc, ◌≤◌, ◌<◌, ◌≡◌, refl, ◌∙◌, Bool, true, false, ◌||◌, List, [], ◌∷◌, length, arith,
  ◌==◌,
}
use neovm.Vm.Stack.{insert, without}
use neovm.Vm.Ring.{put}

abbrev pub has : ℕ → List ℕ → Bool
has a [] = false
has a (x ∷ xs) = (a == x) || has a xs

abbrev pub Distinct : List ℕ → Type 0
Distinct [] = Unit
Distinct (x ∷ xs) = (has x xs ≡ false) × Distinct xs

-- From p the pointers lead through xs to q, and back.
abbrev pub Linked : (ℕ → ℕ) → (ℕ → ℕ) → ℕ → List ℕ → ℕ → Type 0
Linked nx pv p [] q = (nx p ≡ q) × (pv q ≡ p)
Linked nx pv p (x ∷ xs) q = (nx p ≡ x) × (pv x ≡ p) × Linked nx pv x xs q

-- The element n of p ∷ xs, and of xs followed by q.
abbrev pub node : ℕ → List ℕ → ℕ → ℕ
node p xs zero = p
node p [] (suc n) = p
node p (x ∷ xs) (suc n) = node x xs n

abbrev pub after : List ℕ → ℕ → ℕ → ℕ
after [] q n = q
after (x ∷ xs) q zero = x
after (x ∷ xs) q (suc n) = after xs q n

pub node-has : (p : ℕ) (xs : List ℕ) (n : ℕ) → has (node p xs n) (p ∷ xs) ≡ true
node-has p xs zero = ground arith
node-has p [] (suc n) = ground arith
node-has p (x ∷ xs) (suc n) = ground (arith, node-has x xs n)

pub after-has : (xs : List ℕ) (q n : ℕ) → has (after xs q n) (q ∷ xs) ≡ true
after-has [] q n = ground arith
after-has (x ∷ xs) q zero = ground arith
after-has (x ∷ xs) q (suc n) = ground (arith, after-has xs q n)

-- The element behind one of xs is not the one before xs.
after-apart :
    (x : ℕ) (xs : List ℕ) (q n : ℕ) → Distinct (x ∷ xs) → x == q ≡ false → x == after xs q n ≡ false
after-apart x xs q n (h, d) k = let to = after-has xs q n in ground arith

pub frame :
    (nx pv nx' pv' : ℕ → ℕ) (p : ℕ) (xs : List ℕ) (q : ℕ)
    → ((a : ℕ) → has a (p ∷ xs) ≡ true → nx' a ≡ nx a)
    → ((a : ℕ) → has a (q ∷ xs) ≡ true → pv' a ≡ pv a)
    → Linked nx pv p xs q
    → Linked nx' pv' p xs q
frame nx pv nx' pv' p [] q fn fp (n, v) = (fn p (ground arith) ∙ n, fp q (ground arith) ∙ v)
frame nx pv nx' pv' p (x ∷ xs) q fn fp (n, v, rest) = (
  fn p (ground arith) ∙ n,
  fp x (ground arith) ∙ v,
  frame nx pv nx' pv' x xs q (λ a h. fn a (ground arith)) (λ a h. fp a (ground arith)) rest,
)

module _ (nx pv : ℕ → ℕ) where
  pub Linked-next :
      (p : ℕ) (xs : List ℕ) (q n : ℕ)
      → n ≤ length xs
      → Linked nx pv p xs q
      → (nx (node p xs n) ≡ after xs q n) × (pv (after xs q n) ≡ node p xs n)
  Linked-next p [] q zero le (n, v) = (n, v)
  Linked-next p [] q (suc k) le l = absurd (omega arith)
  Linked-next p (x ∷ xs) q zero le (n, v, rest) = (n, v)
  Linked-next p (x ∷ xs) q (suc k) le (n, v, rest) = Linked-next x xs q k (omega arith) rest

module _ (nx pv : ℕ → ℕ) (e : ℕ) where
  abbrev pub next_in : ℕ → ℕ → ℕ → ℕ
  next_in a b = put (put nx a e) e b

  abbrev pub prev_in : ℕ → ℕ → ℕ → ℕ
  prev_in a b = put (put pv e a) b e

  -- Linking e in behind the element n of p ∷ xs.
  pub Linked-insert :
      (p : ℕ) (xs : List ℕ) (q n : ℕ)
      → n ≤ length xs
      → Distinct (p ∷ xs)
      → has q xs ≡ false
      → has e (p ∷ xs) ≡ false
      → e == q ≡ false
      → Linked nx pv p xs q
      → Linked
          (next_in (node p xs n) (after xs q n))
          (prev_in (node p xs n) (after xs q n))
          p
          (insert xs n e)
          q
  unfolding put
  Linked-insert p [] q zero le d hq he eq (n, v) =
      (ground arith, ground arith, (ground arith, ground arith))
  Linked-insert p [] q (suc k) le d hq he eq l = absurd (omega arith)
  Linked-insert p (y ∷ ys) q zero le (dp, (dy, d)) hq he eq (n, v, rest) = (
    ground arith,
    ground arith,
    (
      ground arith,
      ground arith,
      frame nx pv (next_in p y) (prev_in p y) y ys q (λ a h. ground arith) (λ a h. ground arith)
          rest,
    ),
  )
  Linked-insert p (x ∷ xs) q (suc k) le (dp, d) hq he eq (n, v, rest) =
      let at = node-has x xs k in
      let to = after-has xs q k in
      (
        ground arith,
        ground arith,
        Linked-insert x xs q k (omega arith) d (ground arith) (ground arith) eq rest,
      )

pub has-without : (a : ℕ) (xs : List ℕ) (n : ℕ) → has a xs ≡ false → has a (without xs n) ≡ false
has-without a [] n h = refl
has-without a (x ∷ xs) zero h = ground arith
has-without a (x ∷ xs) (suc n) h = ground (arith, has-without a xs n)

pub Distinct-without : (xs : List ℕ) (n : ℕ) → Distinct xs → Distinct (without xs n)
Distinct-without [] n d = tt
Distinct-without (x ∷ xs) zero (h, d) = d
Distinct-without (x ∷ xs) (suc n) (h, d) = (has-without x xs n h, Distinct-without xs n d)

pub has-insert :
    (a : ℕ) (xs : List ℕ) (n e : ℕ)
    → has a xs ≡ false
    → a == e ≡ false
    → has a (insert xs n e) ≡ false
has-insert a xs zero e h k = ground arith
has-insert a [] (suc n) e h k = ground arith
has-insert a (x ∷ xs) (suc n) e h k = ground (arith, has-insert a xs n e)

pub Distinct-insert :
    (xs : List ℕ) (n e : ℕ) → Distinct xs → has e xs ≡ false → Distinct (insert xs n e)
Distinct-insert xs zero e d h = (h, d)
Distinct-insert [] (suc n) e d h = (refl, tt)
Distinct-insert (x ∷ xs) (suc n) e (hx, d) h =
    (has-insert x xs n e hx (ground arith), Distinct-insert xs n e d (ground arith))

-- Linking the element n of xs out, with its neighbours as they are in the chain.
module _ (nx pv : ℕ → ℕ) where
  pub Linked-without :
      (p : ℕ) (xs : List ℕ) (q n : ℕ)
      → n < length xs
      → Distinct (p ∷ xs)
      → has q xs ≡ false
      → Linked nx pv p xs q
      → Linked
          (put nx (node p xs n) (after xs q (suc n)))
          (put pv (after xs q (suc n)) (node p xs n))
          p
          (without xs n)
          q
  unfolding put
  Linked-without p [] q n lt d hq l = absurd (omega arith)
  Linked-without p (x ∷ []) q zero lt d hq (n, v, rest) = (ground arith, ground arith)
  Linked-without p (x ∷ y ∷ ys) q zero lt (dp, (dx, (dy, d))) hq (n, v, (ny, vy, rest)) = (
    ground arith,
    ground arith,
    frame nx pv (put nx p y) (put pv y p) y ys q (λ a h. ground arith) (λ a h. ground arith) rest,
  )
  Linked-without p (x ∷ xs) q (suc k) lt (dp, d) hq (n, v, rest) =
      let at = node-has x xs k in
      let to = after-has xs q (suc k) in
      let apart = after-apart x xs q (suc k) d (ground arith) in
      (ground arith, ground arith, Linked-without x xs q k (omega arith) d (ground arith) rest)

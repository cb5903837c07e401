-- ===== src/Vm/Ring/Heap.antt =====
-- Rings of elements in memory (pkg/vm/stack.go), and what linking an element in or out leaves.
use neovm.Prelude.{
  ℕ, zero, suc, ◌≤◌, ◌<◌, ◌≡◌, refl, ap, ◌∙◌, subst, true, false, List, [], ◌∷◌, length, arith,
  ◌==◌, some, All, inl, inr, Bool-cases,
}
use neovm.Prelude.Int.{pos, ◌+ℤ◌}
use neovm.Vm.Stack.{insert, without}
use neovm.Vm.Ring.{Memory, put, link}
use neovm.Vm.Ring.Chain.{
  has, Distinct, Linked, node, after, node-has, after-has, Linked-next, Linked-insert, has-insert,
  Distinct-insert,
}

length-insert :
    {A : Type 0} (xs : List A) (n : ℕ) (e : A) → length (insert xs n e) ≡ suc (length xs)
length-insert xs zero e = refl
length-insert [] (suc n) e = refl
length-insert (x ∷ xs) (suc n) e = ap suc (length-insert xs n e)

pub length-without :
    {A : Type 0} (xs : List A) (n : ℕ) → n < length xs → suc (length (without xs n)) ≡ length xs
length-without [] n h = absurd (omega arith)
length-without (x ∷ xs) zero h = refl
length-without (x ∷ xs) (suc n) h = ap suc (length-without xs n (omega arith))

All-insert : (P : ℕ → Type 0) (xs : List ℕ) (n e : ℕ) → P e → All P xs → All P (insert xs n e)
All-insert P xs zero e pe a = (pe, a)
All-insert P [] (suc n) e pe a = (pe, tt)
All-insert P (x ∷ xs) (suc n) e pe (px, a) = (px, All-insert P xs n e pe a)

pub All-without : (P : ℕ → Type 0) (xs : List ℕ) (n : ℕ) → All P xs → All P (without xs n)
All-without P [] n a = tt
All-without P (x ∷ xs) zero (px, a) = a
All-without P (x ∷ xs) (suc n) (px, a) = (px, All-without P xs n a)

pub All-within :
    (P Q : ℕ → Type 0) (xs : List ℕ) → ((x : ℕ) → has x xs ≡ true → P x → Q x) → All P xs → All Q xs
All-within P Q [] f a = tt
All-within P Q (x ∷ xs) f (px, a) =
    (f x (ground arith) px, All-within P Q xs (λ y h. f y (ground arith)) a)

pub All-has : (P : ℕ → Type 0) (xs : List ℕ) (a : ℕ) → All P xs → has a xs ≡ true → P a
All-has P [] a al h = absurd (ground arith)
All-has P (x ∷ xs) a (px, al) h = elim (Bool-cases (a == x)) [
  | inl p ↦ let q : x ≡ a = ground arith in subst P q px
  | inr p ↦ All-has P xs a al (ground arith)
]

pub after-owned : (xs : List ℕ) (q n : ℕ) → n < length xs → has (after xs q n) xs ≡ true
after-owned [] q n h = absurd (omega arith)
after-owned (x ∷ xs) q zero h = ground arith
after-owned (x ∷ xs) q (suc n) h = ground (arith, after-owned xs q n (omega arith))

pub without-gone :
    (xs : List ℕ) (q n : ℕ)
    → n < length xs
    → Distinct xs
    → has (after xs q n) (without xs n) ≡ false
without-gone [] q n h d = refl
without-gone (x ∷ xs) q zero h (hx, d) = hx
without-gone (x ∷ xs) q (suc n) h (hx, d) =
    let rest = without-gone xs q n (omega arith) d in
    let there = after-owned xs q n (omega arith) in
    elim (Bool-cases (after xs q n == x)) [
      | inl p ↦
          let same : after xs q n ≡ x = ground arith in
          let gone : has (after xs q n) xs ≡ false = ap (λ a. has a xs) same ∙ hx in cc
      | inr p ↦ ground arith
    ]

pub node-after : (p : ℕ) (xs : List ℕ) (q n : ℕ) → n < length xs → node p xs (suc n) ≡ after xs q n
node-after p [] q n h = absurd (omega arith)
node-after p (x ∷ xs) q zero h = refl
node-after p (x ∷ xs) q (suc n) h = node-after x xs q n (omega arith)

module _ {A : Type 0} where
  abbrev pub Owned : Memory A → ℕ → ℕ → Type 0
  Owned m s x = (x == 0 ≡ false) × (m.stack x ≡ s) × (x < m.fresh)

  -- The stack s is a ring of the elements xs, from its top to its back.
  pub record Ring (m : Memory A) (s : ℕ) (xs : List ℕ) : Type 0 where
    pub present : s == 0 ≡ false
    pub allocated : s < m.fresh
    pub topmost : m.stack s ≡ 0
    pub linked : Linked (m.next) (m.prev) s xs s
    pub distinct : Distinct (s ∷ xs)
    pub owned : All (Owned m s) xs
    pub counted : m.len s ≡ pos (length xs)

  -- Nothing on a ring is nil.
  pub not_nil :
      (m : Memory A) (s : ℕ) (xs : List ℕ)
      → Ring m s xs
      → (a : ℕ) → has a (s ∷ xs) ≡ true
      → a == 0 ≡ false
  not_nil m s xs r a h = elim (Bool-cases (a == s)) [
    | inl p ↦ let q : s ≡ a = ground arith in subst (λ z. z == 0 ≡ false) q (r.present)
    | inr p ↦ (All-has (Owned m s) xs a (r.owned) (ground arith)).0
  ]

  -- An element of another stack, or of none, is not on the ring.
  pub not_on :
      (m : Memory A) (s : ℕ) (xs : List ℕ)
      → Ring m s xs
      → (e : ℕ) → m.stack e == s ≡ false
      → has e xs ≡ false
  not_on m s xs r e h = elim (Bool-cases (has e xs)) [
    | inl p ↦ let (a, b, c) = All-has (Owned m s) xs e (r.owned) p in absurd (ground arith)
    | inr p ↦ p
  ]

  abbrev pub linked_in : Memory A → ℕ → ℕ → ℕ → Memory A
  linked_in m s e at = record m {
    next = put (put (m.next) at e) e (m.next at);
    prev = put (put (m.prev) e at) (m.next at) e;
    stack = put (m.stack) e s;
    len = put (m.len) s (m.len s +ℤ pos 1);
  }

  link-linked_in :
      (m : Memory A) (s e at : ℕ)
      → s == 0 ≡ false
      → e == 0 ≡ false
      → at == 0 ≡ false
      → m.next at == 0 ≡ false
      → link s e at m ≡ some (e, linked_in m s e at)
  unfolding link
  link-linked_in m s e at hs he ha hn = ground arith

  pub link-Ring :
      (m : Memory A) (s : ℕ) (xs : List ℕ)
      → Ring m s xs
      → (e n : ℕ) → n ≤ length xs
      → e == 0 ≡ false
      → e == s ≡ false
      → has e xs ≡ false
      → e < m.fresh
      → (link s e (node s xs n) m ≡ some (e, linked_in m s e (node s xs n)))
        × Ring (linked_in m s e (node s xs n)) s (insert xs n e)
  unfolding put ◌+ℤ◌
  link-Ring m s xs r e n le he hs hx lt =
      let (nx, pv) = Linked-next (m.next) (m.prev) s xs s n le (r.linked) in
      (
        link-linked_in m s e (node s xs n) (r.present) he
            (not_nil m s xs r (node s xs n) (node-has s xs n))
            (rw nx (not_nil m s xs r (after xs s n) (after-has xs s n))),
        record {
          present = r.present;
          allocated = r.allocated;
          topmost = let own = r.topmost in ground arith;
          linked = rw nx (
              Linked-insert (m.next) (m.prev) e s xs s n le (r.distinct) (r.distinct.0)
                (ground arith) hs (r.linked));
          distinct = (
            has-insert s xs n e (r.distinct.0) (ground arith),
            Distinct-insert xs n e (r.distinct.1) hx,
          );
          owned =
              All-insert (Owned (linked_in m s e (node s xs n)) s) xs n e (he, ground arith, lt)
                (All-within (Owned m s) (Owned (linked_in m s e (node s xs n)) s) xs
                  (λ x h (a, b, c). (a, ground arith, c)) (r.owned));
          counted = rw (r.counted, length-insert xs n e) (ground arith);
        },
      )

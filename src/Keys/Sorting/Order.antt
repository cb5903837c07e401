-- ===== src/Keys/Sorting/Order.antt =====
-- Sorting public keys forgets their order (pkg/crypto/keys/publickey.go).
use neovm.Prelude.{
  ℕ, suc, length, ◌≡◌, refl, sym, ap, ◌∙◌, true, false, Option, none, some, List, [], ◌∷◌, arith,
  inl, inr, Bool-cases,
}
use mathlib.Core.List.{Perm, Permᴰ}
use mathlib.Core.Logic.{∥∥₁_elim}
use native.Mathlib.Decide.{ℕ_discrete}
use neovm.Keys.PublicKey.{PublicKey, infinity, point}
use neovm.Keys.Sorting.{below, less, cons_key, insert_key, then_insert, sort_keys}

PublicKey-discrete : Discrete PublicKey
PublicKey-discrete = hlevel ℕ_discrete

-- What is not above a smaller point is smaller.
below_trans :
    (z w u v x y : ℕ) → below z w u v ≡ true → below z w x y ≡ false → below x y u v ≡ true
unfolding below
below_trans z w u v x y h k = ground arith

below_asym : (x y u v : ℕ) → below x y u v ≡ true → below u v x y ≡ false
unfolding below
below_asym x y u v h = ground arith

below_antisym : (x y u v : ℕ) → below x y u v ≡ false → below u v x y ≡ false → (x ≡ u) × (y ≡ v)
unfolding below
below_antisym x y u v h k = ground arith

module _ (x y z w : ℕ) (js : List PublicKey) where
  past :
      below z w x y ≡ true
      → insert_key (point x y) (point z w ∷ js) ≡ cons_key (point z w) (insert_key (point x y) js)
  unfolding insert_key less
  past h = rw (insert_key, h) refl

  stop :
      below z w x y ≡ false
      → insert_key (point x y) (point z w ∷ js) ≡ some (point x y ∷ point z w ∷ js)
  unfolding insert_key less
  stop h = rw (insert_key, h) refl

module _ (x y z w : ℕ) where
  past_all :
      below z w x y ≡ true
      → (o : Option (List PublicKey))
      → then_insert (point x y) (cons_key (point z w) o)
        ≡ cons_key (point z w) (then_insert (point x y) o)
  past_all h none = refl
  past_all h (some js) = past x y z w js h

  stop_all :
      below z w x y ≡ false
      → (o : Option (List PublicKey))
      → then_insert (point x y) (cons_key (point z w) o)
        ≡ cons_key (point x y) (cons_key (point z w) o)
  stop_all h none = refl
  stop_all h (some js) = stop x y z w js h

-- Two points that go in front of the others.
front :
    (x y u v : ℕ) (js : List PublicKey)
    → insert_key (point x y) js ≡ some (point x y ∷ js)
    → insert_key (point u v) js ≡ some (point u v ∷ js)
    → insert_key (point x y) (point u v ∷ js) ≡ insert_key (point u v) (point x y ∷ js)
front x y u v js h k = elim (Bool-cases (below u v x y)) [
  | inl e ↦ rw (past x y u v js e, stop u v x y js (below_asym u v x y e), h) refl
  | inr e ↦ elim (Bool-cases (below x y u v)) [
    | inl f ↦ rw (past u v x y js f, stop x y u v js e, k) refl
    | inr f ↦ let (same, same') = below_antisym u v x y e f in rw (same, same') refl
  ]
]

-- A nil coordinate is compared with one of the first key.
infinity-cons :
    (o : Option (List PublicKey)) (x y : ℕ) → then_insert infinity (cons_key (point x y) o) ≡ none
unfolding insert_key less
infinity-cons none x y = refl
infinity-cons (some js) x y = refl

infinity-point :
    (x y : ℕ) (s : List PublicKey) → then_insert infinity (insert_key (point x y) s) ≡ none
unfolding insert_key less
infinity-point x y [] = refl
infinity-point x y (infinity ∷ js) = refl
infinity-point x y (point u v ∷ js) = elim (Bool-cases (below u v x y)) [
  | inl e ↦ rw (past x y u v js e) (infinity-cons (insert_key (point x y) js) u v)
  | inr e ↦ rw (stop x y u v js e) refl
]

point-infinity :
    (x y : ℕ) (s : List PublicKey) → then_insert (point x y) (insert_key infinity s) ≡ none
unfolding insert_key less
point-infinity x y [] = refl
point-infinity x y (infinity ∷ js) = refl
point-infinity x y (point u v ∷ js) = refl

-- Insertions commute.
insert_comm :
    (a b : PublicKey) (s : List PublicKey)
    → then_insert a (insert_key b s) ≡ then_insert b (insert_key a s)
insert_comm infinity infinity s = refl
insert_comm infinity (point x y) s = infinity-point x y s ∙ sym (point-infinity x y s)
insert_comm (point x y) infinity s = point-infinity x y s ∙ sym (infinity-point x y s)
insert_comm (point x y) (point u v) [] = unfold insert_key in front x y u v [] refl refl
insert_comm (point x y) (point u v) (infinity ∷ js) = unfold insert_key less in refl
insert_comm (point x y) (point u v) (point z w ∷ js) = elim (Bool-cases (below z w u v)) [
  | inl e ↦ elim (Bool-cases (below z w x y)) [
    | inl f ↦
        rw (past u v z w js e, past x y z w js f)
          (past_all x y z w f (insert_key (point u v) js)
            ∙ ap (cons_key (point z w)) (insert_comm (point x y) (point u v) js)
            ∙ sym (past_all u v z w e (insert_key (point x y) js)))
    | inr f ↦
        rw
          (
            past u v z w js e,
            stop x y z w js f,
            past u v x y (point z w ∷ js) (below_trans z w u v x y e f),
            past u v z w js e,
          )
          (stop_all x y z w f (insert_key (point u v) js))
  ]
  | inr e ↦ elim (Bool-cases (below z w x y)) [
    | inl f ↦
        rw
          (
            past x y z w js f,
            stop u v z w js e,
            past x y u v (point z w ∷ js) (below_trans z w x y u v f e),
            past x y z w js f,
          )
          (sym (stop_all u v z w e (insert_key (point x y) js)))
    | inr f ↦
        rw (stop u v z w js e, stop x y z w js f)
          (front x y u v (point z w ∷ js) (stop x y z w js f) (stop u v z w js e))
  ]
]

sort-prop : (ks js : List PublicKey) → IsProp (sort_keys ks ≡ sort_keys js)
sort-prop ks js = hlevel PublicKey-discrete

insert-swap :
    (a b : PublicKey) (o : Option (List PublicKey))
    → then_insert a (then_insert b o) ≡ then_insert b (then_insert a o)
insert-swap a b none = refl
insert-swap a b (some s) = insert_comm a b s

sort-permᴰ : {ks js : List PublicKey} → Permᴰ ks js → sort_keys ks ≡ sort_keys js
unfolding sort_keys
sort-permᴰ Permᴰ.nil = refl
sort-permᴰ (Permᴰ.cons e p) = rw (e, sort-permᴰ p) refl
sort-permᴰ (Permᴰ.swap {a} {b} {l = l} e f) = rw (e, f) (insert-swap _ _ (sort_keys l))
sort-permᴰ (Permᴰ.trans p q) = sort-permᴰ p ∙ sort-permᴰ q

-- Keys in another order are sorted to the same list, or the sort panics for both.
pub sort_keys-perm : (ks js : List PublicKey) → Perm ks js → sort_keys ks ≡ sort_keys js
sort_keys-perm ks js p = ∥∥₁_elim p (sort-prop ks js) sort-permᴰ

length-permᴰ : {ks js : List PublicKey} → Permᴰ ks js → length ks ≡ length js
length-permᴰ Permᴰ.nil = refl
length-permᴰ (Permᴰ.cons e p) = ap suc (length-permᴰ p)
length-permᴰ (Permᴰ.swap e f) = refl
length-permᴰ (Permᴰ.trans p q) = length-permᴰ p ∙ length-permᴰ q

length-prop : (m n : ℕ) → IsProp (m ≡ n)
length-prop m n = hlevel ℕ_discrete

pub length-perm : {ks js : List PublicKey} → Perm ks js → length ks ≡ length js
length-perm {ks} {js} p = ∥∥₁_elim p (length-prop (length ks) (length js)) length-permᴰ

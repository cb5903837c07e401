-- ===== src/Vm/Maps/Refinement.antt =====
-- MapItem (pkg/vm/stack_item.go) implements a finite map from the bytes of keys to items.
use neovm.Prelude.{
  ℕ, ◌≡◌, refl, sym, ap, ◌∙◌, Bool, true, false, Option, none, some, List, [], ◌∷◌, same_bytes,
  same_bytes_sound, same_bytes_refl, same_bytes_comm, if◌then◌else◌, Bool-cases, Option-cases, inl,
  inr,
}
use neovm.Prelude.Int.{ℤ, eqb_ℤ}
use neovm.Emit.Bigint.{int_to_bytes, bytes_to_int}
use neovm.Emit.Bigint.RoundTrip.{bytes_to_int-int_to_bytes}
use neovm.Vm.Machine.Items.{Item, try_bytes}
use neovm.Vm.Machine.Logic.Order.{eqb_ℤ_iff}
use neovm.Vm.Maps.{
  Key, number, flag, bytes, key_item, key_of, key_bytes, equals, MapItem, index, has, put_at, add,
  drop_at, remove_key,
}

Bool-ext : (a b : Bool) → (a ≡ true → b ≡ true) → (b ≡ true → a ≡ true) → a ≡ b
Bool-ext true b h k = sym (h refl)
Bool-ext false true h k = k refl
Bool-ext false false h k = refl

number-same_bytes : (a b : ℤ) → eqb_ℤ a b ≡ same_bytes (int_to_bytes a) (int_to_bytes b)
number-same_bytes a b =
    Bool-ext _ _ (λ h. rw ((eqb_ℤ_iff a b).0 h) (same_bytes_refl (int_to_bytes b)))
      (λ h. (eqb_ℤ_iff a b).1 (
        sym (bytes_to_int-int_to_bytes a)
        ∙ ap bytes_to_int (same_bytes_sound _ _ h)
        ∙ bytes_to_int-int_to_bytes b))

-- Two primitive items, whatever their types, are equal for Equals exactly when they have the same
-- bytes.
equals-same_bytes : (k l : Key) → equals k (key_item l) ≡ same_bytes (key_bytes k) (key_bytes l)
unfolding equals try_bytes
equals-same_bytes (number a) (number b) = number-same_bytes a b
equals-same_bytes (number a) (flag true) = refl
equals-same_bytes (number a) (flag false) = refl
equals-same_bytes (number a) (bytes b) = refl
equals-same_bytes (flag a) (number b) = refl
equals-same_bytes (flag true) (flag true) = refl
equals-same_bytes (flag true) (flag false) = refl
equals-same_bytes (flag false) (flag true) = refl
equals-same_bytes (flag false) (flag false) = refl
equals-same_bytes (flag a) (bytes b) = refl
equals-same_bytes (bytes a) (number b) = refl
equals-same_bytes (bytes a) (flag true) = refl
equals-same_bytes (bytes a) (flag false) = refl
equals-same_bytes (bytes a) (bytes b) = refl

-- The item that a map has for a key with these bytes.
abbrev pub view : MapItem → List ℕ → Option Item
view [] b = none
view ((k, v) ∷ m) b = if same_bytes (key_bytes k) b then some v else view m b

-- No two keys of a map have the same bytes.
abbrev pub IsMap : MapItem → Type 0
IsMap [] = Unit {0}
IsMap ((k, v) ∷ m) = (view m (key_bytes k) ≡ none) × IsMap m

key_of-key_item : (k : Key) → key_of (key_item k) ≡ some k
unfolding key_of
key_of-key_item (number z) = refl
key_of-key_item (flag b) = refl
key_of-key_item (bytes b) = refl

if_same {ℓ} : {A : Type ℓ} (b : Bool) (a : A) → (if b then a else a) ≡ a
if_same true a = refl
if_same false a = refl

if_twice {ℓ} :
    {A : Type ℓ} (b : Bool) (x y z : A)
    → (if b then x else z) ≡ (if b then x else if b then y else z)
if_twice true x y z = refl
if_twice false x y z = refl

module _ (k : Key) where
  abbrev at : MapItem → Option ℕ
  at m = index (key_item k) m

  abbrev put : Item → MapItem → MapItem
  put v m = put_at k v (at m) m

  abbrev cut : MapItem → MapItem
  cut m = remove_key (key_item k) m

  put-same :
      (l : Key) (v w : Item) (m : MapItem)
      → same_bytes (key_bytes l) (key_bytes k) ≡ true
      → put v ((l, w) ∷ m) ≡ (l, v) ∷ m
  unfolding index
  put-same l v w m h = rw (equals-same_bytes l k, h) refl

  put-other :
      (l : Key) (v w : Item) (m : MapItem)
      → same_bytes (key_bytes l) (key_bytes k) ≡ false
      → put v ((l, w) ∷ m) ≡ (l, w) ∷ put v m
  unfolding index
  put-other l v w m h = elim (Option-cases (at m)) [
    | inl e ↦ rw (equals-same_bytes l k, h, e) refl
    | inr (i, e) ↦ rw (equals-same_bytes l k, h, e) refl
  ]

  cut-same :
      (l : Key) (w : Item) (m : MapItem)
      → same_bytes (key_bytes l) (key_bytes k) ≡ true
      → cut ((l, w) ∷ m) ≡ m
  unfolding remove_key index drop_at
  cut-same l w m h = rw (cut, remove_key, equals-same_bytes l k, h) refl

  cut-other :
      (l : Key) (w : Item) (m : MapItem)
      → same_bytes (key_bytes l) (key_bytes k) ≡ false
      → cut ((l, w) ∷ m) ≡ (l, w) ∷ cut m
  unfolding remove_key index drop_at
  cut-other l w m h = elim (Option-cases (at m)) [
    | inl e ↦ rw (cut, remove_key, equals-same_bytes l k, h, e) refl
    | inr (i, e) ↦ rw (cut, remove_key, equals-same_bytes l k, h, e) refl
  ]

  -- Bytes that agree with one key and not with another.
  apart :
      (l : Key) (b : List ℕ)
      → same_bytes (key_bytes l) (key_bytes k) ≡ false
      → same_bytes (key_bytes k) b ≡ true
      → same_bytes (key_bytes l) b ≡ false
  apart l b h e = rw⁻¹ (same_bytes_sound (key_bytes k) b e) h

  view-put :
      (v : Item) (m : MapItem) (b : List ℕ)
      → view (put v m) b ≡ (if same_bytes (key_bytes k) b then some v else view m b)
  unfolding index
  view-put v [] b = refl
  view-put v ((l, w) ∷ m) b = elim (Bool-cases (same_bytes (key_bytes l) (key_bytes k))) [
    | inl h ↦
        rw (put-same l v w m h, same_bytes_sound (key_bytes l) (key_bytes k) h)
          (if_twice (same_bytes (key_bytes k) b) (some v) (some w) (view m b))
    | inr h ↦ elim (Bool-cases (same_bytes (key_bytes k) b)) [
      | inl e ↦ rw (put-other l v w m h, apart l b h e, view-put v m b, e) refl
      | inr e ↦ rw (put-other l v w m h, view-put v m b, e) refl
    ]
  ]

  view-cut :
      (m : MapItem) (b : List ℕ)
      → IsMap m
      → view (cut m) b ≡ (if same_bytes (key_bytes k) b then none else view m b)
  unfolding remove_key index
  view-cut [] b h = sym (if_same (same_bytes (key_bytes k) b) none)
  view-cut ((l, w) ∷ m) b (h, hs) = elim (Bool-cases (same_bytes (key_bytes l) (key_bytes k))) [
    | inl s ↦
        let same : key_bytes l ≡ key_bytes k = same_bytes_sound (key_bytes l) (key_bytes k) s in
        elim (Bool-cases (same_bytes (key_bytes k) b)) [
          | inl e ↦
              rw (cut-same l w m s, e)
                (ap (view m) (sym (same ∙ same_bytes_sound (key_bytes k) b e)) ∙ h)
          | inr e ↦ rw (cut-same l w m s, same, e) refl
        ]
    | inr s ↦ elim (Bool-cases (same_bytes (key_bytes k) b)) [
      | inl e ↦ rw (cut-other l w m s, apart l b s e, view-cut m b hs, e) refl
      | inr e ↦ rw (cut-other l w m s, view-cut m b hs, e) refl
    ]
  ]

  put-IsMap : (v : Item) (m : MapItem) → IsMap m → IsMap (put v m)
  unfolding index
  put-IsMap v [] h = (refl, tt)
  put-IsMap v ((l, w) ∷ m) (h, hs) = elim (Bool-cases (same_bytes (key_bytes l) (key_bytes k))) [
    | inl s ↦ rw (put-same l v w m s) (h, hs)
    | inr s ↦
        let other : same_bytes (key_bytes k) (key_bytes l) ≡ false =
          same_bytes_comm (key_bytes k) (key_bytes l) ∙ s in
        let fresh : view (put v m) (key_bytes l) ≡ none =
          view-put v m (key_bytes l) ∙ rw (other, h) refl in
        rw (put-other l v w m s) (fresh, put-IsMap v m hs)
  ]

  cut-IsMap : (m : MapItem) → IsMap m → IsMap (cut m)
  unfolding remove_key index
  cut-IsMap [] h = tt
  cut-IsMap ((l, w) ∷ m) (h, hs) = elim (Bool-cases (same_bytes (key_bytes l) (key_bytes k))) [
    | inl s ↦ rw (cut-same l w m s) hs
    | inr s ↦
        let other : same_bytes (key_bytes k) (key_bytes l) ≡ false =
          same_bytes_comm (key_bytes k) (key_bytes l) ∙ s in
        let fresh : view (cut m) (key_bytes l) ≡ none =
          view-cut m (key_bytes l) hs ∙ rw (other, h) refl in
        rw (cut-other l w m s) (fresh, cut-IsMap m hs)
  ]

  -- Add of a primitive key to a map no two keys of which have the same bytes gives such a map,
  -- which has the value under the bytes of the key and is otherwise unchanged.
  pub add-view :
      (v : Item) (m : MapItem)
      → IsMap m
      → (m' : MapItem) × (add (key_item k) v m ≡ some m')
        × IsMap m'
        × ((b : List ℕ) → view m' b ≡ (if same_bytes (key_bytes k) b then some v else view m b))
  unfolding add
  add-view v m h = (put v m, rw (add, key_of-key_item k) refl, put-IsMap v m h, view-put v m)

  -- Removing a primitive key from a map no two keys of which have the same bytes gives such a map,
  -- which has nothing under the bytes of the key and is otherwise unchanged.
  pub remove_key-view :
      (m : MapItem)
      → IsMap m
      → IsMap (remove_key (key_item k) m)
        × ((b : List ℕ)
            → view (remove_key (key_item k) m) b
              ≡ (if same_bytes (key_bytes k) b then none else view m b))
  remove_key-view m h = (cut-IsMap m h, λ b. view-cut m b h)

  -- Has finds a primitive key exactly when the map has a value under its bytes.
  has-view :
      (m : MapItem)
      → has (key_item k) m ≡ elim (view m (key_bytes k)) [ none ↦ false | some v ↦ true ]
  unfolding has index
  has-view [] = refl
  has-view ((l, w) ∷ m) = elim (Bool-cases (same_bytes (key_bytes l) (key_bytes k))) [
    | inl s ↦ rw (has, index, equals-same_bytes l k, s) refl
    | inr s ↦
        let later = has-view m in
        elim (Option-cases (at m)) [
          | inl e ↦ rw (has, index, equals-same_bytes l k, s, e) (sym (has_of none e) ∙ later)
          | inr (i, e) ↦
              rw (has, index, equals-same_bytes l k, s, e) (sym (has_of (some i) e) ∙ later)
        ]
  ]
    where
      has_of :
          (o : Option ℕ) → at m ≡ o → has (key_item k) m ≡ elim o [ none ↦ false | some j ↦ true ]
      has_of o e = rw (has, e) refl

-- ===== src/Keys/Sorting/Total.antt =====
-- Keys with coordinates can be sorted (pkg/crypto/keys/publickey.go).
use neovm.Prelude.{
  ℕ, suc, length, ap, ◌^◌, ◌<◌, ◌≡◌, refl, ◌∙◌, Option, some, List, [], ◌∷◌, All, inl, inr,
  Bool-cases,
}
use mathlib.Core.List.{Perm}
use mathlib.Core.List.Perm
use neovm.Keys.PublicKey.{PublicKey, infinity, point, coord_len}
use neovm.Keys.Sorting.{below, less, insert_key, sort_keys}

-- A key with an X coordinate of at most 32 bytes.
abbrev pub IsFinite : PublicKey → Type 0
IsFinite infinity = ⊥
IsFinite (point x y) = x < 256 ^ coord_len

-- A sorted list of keys.
pub record Sorts (o : Option (List PublicKey)) (keys : List PublicKey) : Type 0 where
  pub result : List PublicKey
  pub found : o ≡ some result
  pub perm : Perm result keys
  pub size : length result ≡ length keys
  pub finite : All IsFinite result

insert-Sorts :
    (x y : ℕ) (s : List PublicKey)
    → IsFinite (point x y)
    → All IsFinite s
    → Sorts (insert_key (point x y) s) (point x y ∷ s)
unfolding insert_key less
insert-Sorts x y [] h hs = record {
  result = point x y ∷ [];
  found = refl;
  perm = Perm.refl _;
  size = refl;
  finite = (h, tt);
}
insert-Sorts x y (infinity ∷ s) h (f, hs) = absurd f
insert-Sorts x y (point u v ∷ s) h (f, hs) = elim (Bool-cases (below u v x y)) [
  | inl e ↦
      let rest = insert-Sorts x y s h hs in
      record {
        result = point u v ∷ rest.result;
        found = rw (insert_key, e, rest.found) refl;
        perm = Perm.trans (Perm.cons (point u v) rest.perm) (Perm.swap (point x y) (point u v) s);
        size = ap suc rest.size;
        finite = (f, rest.finite);
      }
  | inr e ↦ record {
    result = point x y ∷ point u v ∷ s;
    found = rw (insert_key, e) refl;
    perm = Perm.refl _;
    size = refl;
    finite = (h, (f, hs));
  }
]

-- Keys with coordinates are sorted to some order of them.
pub sort_keys-Sorts : (keys : List PublicKey) → All IsFinite keys → Sorts (sort_keys keys) keys
unfolding sort_keys
sort_keys-Sorts [] hs = record {
  result = [];
  found = refl;
  perm = Perm.refl _;
  size = refl;
  finite = tt;
}
sort_keys-Sorts (infinity ∷ keys) (h, hs) = absurd h
sort_keys-Sorts (point x y ∷ keys) (h, hs) =
    let rest = sort_keys-Sorts keys hs in
    let more = insert-Sorts x y rest.result h rest.finite in
    record {
      result = more.result;
      found = rw (rest.found, more.found) refl;
      perm = Perm.trans more.perm (Perm.cons (point x y) rest.perm);
      size = more.size ∙ ap suc rest.size;
      finite = more.finite;
    }

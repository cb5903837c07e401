-- ===== src/Merkle/Binding.antt =====
-- The root of a Merkle tree (pkg/crypto/hash/merkle_tree.go) binds its leaves.
use neovm.Prelude.{
  ℕ, zero, suc, ◌≡◌, ◌≢◌, ◌⊎◌, refl, sym, ap, ◌∙◌, true, false, Option, some, List, [], ◌∷◌, ◌++◌,
  length, map, take, drop, same_bytes, same_bytes_sound, same_bytes_refl, take-append_length,
  drop-append_length, Bool-cases, inl, inr, arith, All,
}
use neovm.Merkle.{
  MerkleTreeNode, leaf, hash_of, MerkleTree, root, double_sha256, parent, parents,
  build_merkle_tree, new_merkle_tree,
}
use neovm.Merkle.Built.{length-map_leaf, new_merkle_tree-total}

-- Two inputs with the same hash.
abbrev pub Collision : (List ℕ → List ℕ) → Type 0
Collision f = (a : List ℕ) × (b : List ℕ) × (a ≢ b) × (f a ≡ f b)

-- A hash of 32 bytes.
abbrev pub IsHash : List ℕ → Type 0
IsHash h = length h ≡ 32

same_or_not : (a b : List ℕ) → (a ≡ b) ⊎ (a ≢ b)
same_or_not a b = elim (Bool-cases (same_bytes a b)) [
  | inl e ↦ inl (same_bytes_sound a b e)
  | inr e ↦ inr (λ h. go h e)
]
  where
    go : a ≡ b → same_bytes a b ≡ false → ⊥
    go h e = let same : same_bytes a b ≡ true = rw⁻¹ h (same_bytes_refl a) in cc

append-parts : (a b c d : List ℕ) → length a ≡ length c → a ++ b ≡ c ++ d → (a ≡ c) × (b ≡ d)
append-parts a b c d n e = (
  sym (take-append_length a b)
      ∙ (ap (λ k. take k (a ++ b)) n ∙ ap (take (length c)) e)
      ∙ take-append_length c d,
  sym (drop-append_length a b)
      ∙ (ap (λ k. drop k (a ++ b)) n ∙ ap (drop (length c)) e)
      ∙ drop-append_length c d,
)

module _ (sha256 : List ℕ → List ℕ) (sized : (b : List ℕ) → IsHash (sha256 b)) where
  collides :
      (a b : List ℕ) → double_sha256 sha256 a ≡ double_sha256 sha256 b → (a ≡ b) ⊎ Collision sha256
  unfolding double_sha256
  collides a b e = elim (same_or_not a b) [
    | inl same ↦ inl same
    | inr apart ↦ elim (same_or_not (sha256 a) (sha256 b)) [
      | inl same ↦ inr (a, b, apart, same)
      | inr far ↦ inr (sha256 a, sha256 b, far, e)
    ]
  ]

  abbrev IsNode : MerkleTreeNode → Type 0
  IsNode n = IsHash (hash_of n)

  parents-IsNode : (xs : List MerkleTreeNode) → All IsNode (parents sha256 xs)
  unfolding double_sha256
  parents-IsNode [] = tt
  parents-IsNode (l ∷ []) = (sized _, tt)
  parents-IsNode (l ∷ r ∷ rest) = (sized _, parents-IsNode rest)

  -- The children of two nodes with the same hash.
  parent-parts :
      (l r m s : MerkleTreeNode)
      → IsNode l
      → IsNode m
      → hash_of (parent sha256 l r) ≡ hash_of (parent sha256 m s)
      → ((hash_of l ≡ hash_of m) × (hash_of r ≡ hash_of s)) ⊎ Collision sha256
  parent-parts l r m s hl hm e = elim (collides _ _ e) [
    | inl same ↦
        inl (append-parts (hash_of l) (hash_of r) (hash_of m) (hash_of s) (hl ∙ sym hm) same)
    | inr c ↦ inr c
  ]

  cons-parts : {a b : List ℕ} {us vs : List (List ℕ)} → a ∷ us ≡ b ∷ vs → (a ≡ b) × (us ≡ vs)
  cons-parts e = (cc, cc)

  -- A level of the tree.
  parents-binds :
      (xs ys : List MerkleTreeNode)
      → length xs ≡ length ys
      → All IsNode xs
      → All IsNode ys
      → map hash_of (parents sha256 xs) ≡ map hash_of (parents sha256 ys)
      → (map hash_of xs ≡ map hash_of ys) ⊎ Collision sha256
  parents-binds [] [] n hx hy e = inl refl
  parents-binds [] (m ∷ ys) n hx hy e = absurd (omega (arith, n))
  parents-binds (l ∷ xs) [] n hx hy e = absurd (omega (arith, n))
  parents-binds (l ∷ []) (m ∷ []) n hx hy e =
      elim (parent-parts l l m m hx.0 hy.0 (cons-parts e).0) [
        | inl same ↦ inl (ap (λ h. h ∷ []) same.0)
        | inr c ↦ inr c
      ]
  parents-binds (l ∷ []) (m ∷ s ∷ ys) n hx hy e = absurd (omega (arith, n))
  parents-binds (l ∷ r ∷ xs) (m ∷ []) n hx hy e = absurd (omega (arith, n))
  parents-binds (l ∷ r ∷ xs) (m ∷ s ∷ ys) n hx hy e =
      elim (parent-parts l r m s hx.0 hy.0 (cons-parts e).0) [
        | inl same ↦ elim (parents-binds xs ys (omega (arith, n)) hx.1.1 hy.1.1 (cons-parts e).1) [
          | inl rest ↦ inl (rw (same.0, same.1, rest) refl)
          | inr c ↦ inr c
        ]
        | inr c ↦ inr c
      ]

  length-parents :
      (xs ys : List MerkleTreeNode)
      → length xs ≡ length ys
      → length (parents sha256 xs) ≡ length (parents sha256 ys)
  length-parents [] [] n = refl
  length-parents [] (m ∷ ys) n = absurd (omega (arith, n))
  length-parents (l ∷ xs) [] n = absurd (omega (arith, n))
  length-parents (l ∷ []) (m ∷ []) n = refl
  length-parents (l ∷ []) (m ∷ s ∷ ys) n = absurd (omega (arith, n))
  length-parents (l ∷ r ∷ xs) (m ∷ []) n = absurd (omega (arith, n))
  length-parents (l ∷ r ∷ xs) (m ∷ s ∷ ys) n = ap suc (length-parents xs ys (omega (arith, n)))

  build-binds :
      (fuel : ℕ) (xs ys : List MerkleTreeNode) {a b : MerkleTreeNode}
      → length xs ≡ length ys
      → All IsNode xs
      → All IsNode ys
      → build_merkle_tree sha256 fuel xs ≡ some a
      → build_merkle_tree sha256 fuel ys ≡ some b
      → hash_of a ≡ hash_of b
      → (map hash_of xs ≡ map hash_of ys) ⊎ Collision sha256
  unfolding build_merkle_tree
  build-binds fuel [] ys n hx hy ea eb e = cc
  build-binds fuel (l ∷ xs) [] n hx hy ea eb e = cc
  build-binds fuel (l ∷ []) (m ∷ []) {a} {b} n hx hy ea eb e =
      let la : l ≡ a = cc in
      let mb : m ≡ b = cc in inl (ap (λ h. h ∷ []) (ap hash_of la ∙ e ∙ sym (ap hash_of mb)))
  build-binds fuel (l ∷ []) (m ∷ s ∷ ys) n hx hy ea eb e = absurd (omega (arith, n))
  build-binds fuel (l ∷ r ∷ xs) (m ∷ []) n hx hy ea eb e = absurd (omega (arith, n))
  build-binds zero (l ∷ r ∷ xs) (m ∷ s ∷ ys) n hx hy ea eb e = cc
  build-binds (suc fuel) (l ∷ r ∷ xs) (m ∷ s ∷ ys) n hx hy ea eb e =
      elim (build-binds fuel (parents sha256 (l ∷ r ∷ xs)) (parents sha256 (m ∷ s ∷ ys))
        (length-parents (l ∷ r ∷ xs) (m ∷ s ∷ ys) n) (parents-IsNode (l ∷ r ∷ xs))
        (parents-IsNode (m ∷ s ∷ ys)) ea eb e) [
          | inl up ↦ parents-binds (l ∷ r ∷ xs) (m ∷ s ∷ ys) n hx hy up
          | inr c ↦ inr c
        ]

map-leaf : (hs : List (List ℕ)) → map hash_of (map leaf hs) ≡ hs
map-leaf [] = refl
map-leaf (h ∷ hs) = ap (λ t. h ∷ t) (map-leaf hs)

leaves-IsNode :
    (f : List ℕ → List ℕ) (sized : (b : List ℕ) → IsHash (f b)) (hs : List (List ℕ))
    → All IsHash hs
    → All (IsNode f sized) (map leaf hs)
leaves-IsNode f sized [] all = tt
leaves-IsNode f sized (h ∷ hs) all = (all.0, leaves-IsNode f sized hs all.1)

same_tree :
    (r : MerkleTreeNode) (t : MerkleTree) (o : Option (Option MerkleTree))
    → o ≡ some (some (record { root_node = r; depth = 1 }))
    → o ≡ some (some t)
    → hash_of r ≡ root t
same_tree r t o e k = cc

-- Over a hash function whose hashes have 32 bytes, if NewMerkleTree returns trees with the same
-- root for two lists of equally many hashes of 32 bytes, then the lists are equal or two inputs of
-- the hash function that differ have the same hash.
pub new_merkle_tree-binds :
    (sha256 : List ℕ → List ℕ) (xs ys : List (List ℕ)) (t u : MerkleTree)
    → ((b : List ℕ) → IsHash (sha256 b))
    → All IsHash xs
    → All IsHash ys
    → length xs ≡ length ys
    → new_merkle_tree sha256 xs ≡ some (some t)
    → new_merkle_tree sha256 ys ≡ some (some u)
    → root t ≡ root u
    → (xs ≡ ys) ⊎ Collision sha256
new_merkle_tree-binds f [] [] t u sized hx hy n et eu e = inl refl
new_merkle_tree-binds f [] (y ∷ ys) t u sized hx hy n et eu e = absurd (omega (arith, n))
new_merkle_tree-binds f (x ∷ xs) [] t u sized hx hy n et eu e = absurd (omega (arith, n))
new_merkle_tree-binds f (x ∷ xs) (y ∷ ys) t u sized hx hy n et eu e =
    let a = new_merkle_tree-total f x xs in
    let b = new_merkle_tree-total f y ys in
    let roots : hash_of a.0 ≡ hash_of b.0 =
      same_tree a.0 t _ a.2 et ∙ e ∙ sym (same_tree b.0 u _ b.2 eu) in
    let fuels : build_merkle_tree f (length (x ∷ xs)) (map leaf (y ∷ ys)) ≡ some b.0 = rw n b.1 in
    let lengths : length (map leaf (x ∷ xs)) ≡ length (map leaf (y ∷ ys)) =
      length-map_leaf (x ∷ xs) ∙ n ∙ sym (length-map_leaf (y ∷ ys)) in
    elim (build-binds f sized (length (x ∷ xs)) (map leaf (x ∷ xs)) (map leaf (y ∷ ys)) lengths
      (leaves-IsNode f sized (x ∷ xs) hx) (leaves-IsNode f sized (y ∷ ys) hy) a.1 fuels roots) [
        | inl same ↦ inl (sym (map-leaf (x ∷ xs)) ∙ same ∙ map-leaf (y ∷ ys))
        | inr c ↦ inr c
      ]

-- ===== src/Vm/Multisig/Cache.antt =====
-- pkg/vm/vm.go, bytesToPublicKey: the cache of keys makes no difference.
use neovm.Prelude.{
  ℕ, ◌≡◌, refl, sym, ◌∙◌, Bool, true, false, some, List, [], ◌∷◌, if◌then◌else◌, Option-cases, inl,
  inr, same_bytes, same_bytes_sound, All,
}
use mathlib.Core.Option.{some-injective}
use neovm.Keys.PublicKey.{PublicKey}
use neovm.Vm.Multisig.{Scheme, Keys, cached, decode_key, bytes_to_public_key}

module _ (scheme : Scheme) where
  -- Every key stands under bytes of which it is the key.
  abbrev pub IsCache : Keys → Type 0
  IsCache keys = All (λ e. decode_key scheme e.0 ≡ some e.1) keys

  cached-decode_key :
      (b : List ℕ) (keys : Keys) (key : PublicKey)
      → IsCache keys
      → cached b keys ≡ some key
      → decode_key scheme b ≡ some key
  cached-decode_key b [] key h e = cc
  cached-decode_key b ((a, k) ∷ keys) key (h, hs) e =
      go (λ f. cached-decode_key b keys key hs f) (same_bytes a b) refl e
    where
      go :
          (cached b keys ≡ some key → decode_key scheme b ≡ some key)
          → (s : Bool) → same_bytes a b ≡ s
          → (if s then some k else cached b keys) ≡ some key
          → decode_key scheme b ≡ some key
      go later true s found = rw⁻¹ (same_bytes_sound a b s, some-injective k key found) h
      go later false s found = later found

  -- Bytes of a key give that key, cached or not, and the cache stays one.
  pub bytes_to_public_key-IsCache :
      (keys : Keys) (b : List ℕ) (key : PublicKey)
      → IsCache keys
      → decode_key scheme b ≡ some key
      → (keys' : Keys) × (bytes_to_public_key scheme keys b ≡ some (key, keys')) × IsCache keys'
  unfolding bytes_to_public_key
  bytes_to_public_key-IsCache keys b key h e = elim (Option-cases (cached b keys)) [
    | inl missing ↦ ((b, key) ∷ keys, rw (bytes_to_public_key, missing, e) refl, (e, h))
    | inr (k, found) ↦
        let same : k ≡ key = some-injective k key (sym (cached-decode_key b keys k h found) ∙ e) in
        (keys, rw (bytes_to_public_key, found, same) refl, h)
  ]

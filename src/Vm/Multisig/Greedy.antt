-- ===== src/Vm/Multisig/Greedy.antt =====
-- What checkMultisigPar (pkg/vm/vm.go) computes: the signatures are given to the keys in order, each
-- key takes the next signature if it made it. The check may begin at either end.
use neovm.Prelude.{
  ℕ, zero, suc, ◌+◌, ◌<◌, ◌≡◌, refl, sym, Bool, true, false, if◌then◌else◌, arith, Bool-cases, inl,
  inr,
}

if_same {ℓ} : {A : Type ℓ} (b : Bool) (a : A) → (if b then a else a) ≡ a
if_same true a = refl
if_same false a = refl

module _ (made : ℕ → ℕ → Bool) where
  -- The keys from k on, n of them, and the signatures from s on, m of them.
  unfoldable pub greedy : ℕ → ℕ → ℕ → ℕ → Bool
  greedy k n s zero = true
  greedy k zero s (suc m) = false
  greedy k (suc n) s (suc m) =
      let taken = greedy (k + 1) n (s + 1) m in
      let left = greedy (k + 1) n s (suc m) in if made k s then taken else left

  -- More signatures than keys.
  pub greedy_short : (k n s m : ℕ) → n < m → greedy k n s m ≡ false
  unfolding greedy
  greedy_short k n s zero h = absurd (omega arith)
  greedy_short k zero s (suc m) h = refl
  greedy_short k (suc n) s (suc m) h = elim (Bool-cases (made k s)) [
    | inl e ↦ rw e (greedy_short (k + 1) n (s + 1) m (omega arith))
    | inr e ↦ rw e (greedy_short (k + 1) n s (suc m) (omega arith))
  ]

  pub greedy_none : (k n s : ℕ) → greedy k n s 0 ≡ true
  unfolding greedy
  greedy_none k n s = refl

  pub greedy_front :
      (k n s m : ℕ)
      → greedy k (suc n) s (suc m)
        ≡ (if made k s then greedy (k + 1) n (s + 1) m else greedy (k + 1) n s (suc m))
  unfolding greedy
  greedy_front k n s m = refl

  greedy_one :
      (k s m : ℕ)
      → greedy k 1 s (suc m)
        ≡ (if made (k + 0) (s + m) then greedy k 0 s m else greedy k 0 s (suc m))
  unfolding greedy
  greedy_one k s zero = ground arith
  greedy_one k s (suc m) = ground arith

  -- The last key and the last signature can be looked at first.
  pub greedy_back :
      (k n s m : ℕ)
      → greedy k (suc n) s (suc m)
        ≡ (if made (k + n) (s + m) then greedy k n s m else greedy k n s (suc m))
  greedy_back k zero s m = greedy_one k s m
  greedy_back k (suc n) s zero = elim (Bool-cases (made k s)) [
    | inl e ↦
        rw
          (
            greedy_front k (suc n) s 0,
            greedy_front k n s 0,
            e,
            greedy_none (k + 1) (suc n) (s + 1),
            greedy_none (k + 1) n (s + 1),
            greedy_none k (suc n) s,
          )
          (sym (if_same _ true))
    | inr e ↦
        let at : k + 1 + n ≡ k + suc n = omega arith in
        rw
          (
            greedy_front k (suc n) s 0,
            greedy_front k n s 0,
            e,
            greedy_back (k + 1) n s 0,
            at,
            greedy_none (k + 1) n s,
            greedy_none k (suc n) s,
          )
          refl
  ]
  greedy_back k (suc n) s (suc m) =
      let at : k + 1 + n ≡ k + suc n = omega arith in
      let of : s + 1 + m ≡ s + suc m = omega arith in
      elim (Bool-cases (made k s)) [
        | inl e ↦
            rw
              (
                greedy_front k (suc n) s (suc m),
                greedy_front k n s m,
                greedy_front k n s (suc m),
                e,
                greedy_back (k + 1) n (s + 1) m,
                at,
                of,
              )
              refl
        | inr e ↦
            rw
              (
                greedy_front k (suc n) s (suc m),
                greedy_front k n s m,
                greedy_front k n s (suc m),
                e,
                greedy_back (k + 1) n s (suc m),
                at,
              )
              refl
      ]

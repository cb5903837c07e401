-- ===== src/Vm/Multisig/Schedule/Alone.antt =====
-- A result in the loop of checkMultisigPar (pkg/vm/vm.go) when the other end is decided.
use neovm.Prelude.{
  ℕ, zero, suc, ◌+◌, ◌≡◌, refl, sym, ◌∙◌, true, false, [], ◌==◌, if◌then◌else◌, arith, Bool-cases,
  inl, inr,
}
use neovm.Vm.Multisig.{Race, receive}
use neovm.Vm.Multisig.Greedy.{greedy, greedy_short, greedy_none, greedy_front}
use neovm.Vm.Multisig.Schedule.Setup.{Votes, made, Ends, Next}
use neovm.Vm.Multisig.Schedule.Sends.{forth_alone, back_alone}
use neovm.Vm.Multisig.Schedule.Both.{greedy_end}

module _ (vote : Votes) where
  -- With the last of two signatures decided, the first decides the check, and the other way round.
  pub decided_last :
      (r : Race) (n : ℕ)
      → r.k2 ≡ r.k1 + suc n
      → r.s2 ≡ r.s1 + 1
      → made vote r.k2 r.s2 ≡ true
      → greedy (made vote) r.k1 (suc (suc n)) r.s1 2
        ≡ (if (made vote) r.k1 r.s1 then true else greedy (made vote) (r.k1 + 1) n r.s1 1)
  decided_last r n k s found =
      rw
        (
          greedy_end vote r (suc n) 1 k s,
          found,
          greedy_front (made vote) r.k1 n r.s1 0,
          greedy_none (made vote) (r.k1 + 1) n (r.s1 + 1),
        )
        refl

  pub decided_first :
      (r : Race) (n : ℕ)
      → r.k2 ≡ r.k1 + suc n
      → r.s2 ≡ r.s1 + 1
      → made vote r.k1 r.s1 ≡ true
      → greedy (made vote) r.k1 (suc (suc n)) r.s1 2
        ≡ (if (made vote) r.k2 r.s2 then true else greedy (made vote) (r.k1 + 1) n (r.s1 + 1) 1)
  decided_first r n k s found =
      rw
        (
          greedy_front (made vote) r.k1 (suc n) r.s1 1,
          found,
          greedy_end vote (record r { k1 = r.k1 + 1; s1 = r.s1 + 1 }) n 0 (omega (arith, k))
              (omega (arith, s)),
          greedy_none (made vote) (r.k1 + 1) n (r.s1 + 1),
        )
        refl

  -- The first of two signatures is answered, and the other is decided.
  pub forth_end :
      (r : Race) (n : ℕ)
      → Ends vote r n 0
      → made vote r.k2 r.s2 ≡ true
      → r.tasks ≡ []
      → r.task_count ≡ 1
      → Next vote
          (receive vote.scheme vote.pkeys vote.sigs r.s1 (made vote r.k1 r.s1) r)
          (greedy (made vote) r.k1 (suc (suc n)) r.s1 2)
          (n + 1)
  unfolding receive
  forth_end r zero e found t c =
      let near : (r.k1 + 1 == r.k2) ≡ true = ground (arith, e.k) in
      let two : (r.s1 + 1 == r.s2) ≡ true = ground (arith, e.s) in
      elim (Bool-cases (made vote r.k1 r.s1)) [
        | inl y ↦
            Next.stops r.keys (rw (near, y, two, c, decided_last r 0 e.k e.s found, y) refl) e.cache
        | inr y ↦
            Next.stops r.keys
              (rw
                (
                  near,
                  y,
                  c,
                  decided_last r 0 e.k e.s found,
                  y,
                  greedy_short (made vote) (r.k1 + 1) 0 r.s1 1 (omega arith),
                )
                refl)
              e.cache
      ]
  forth_end r (suc n) e found t c =
      let far : (r.k1 + 1 == r.k2) ≡ false = ground (arith, e.k) in
      let two : (r.s1 + 1 == r.s2) ≡ true = ground (arith, e.s) in
      let at_end : (r.s1 == r.s2) ≡ false = ground (arith, e.s) in
      elim (Bool-cases (made vote r.k1 r.s1)) [
        | inl y ↦
            Next.stops r.keys
              (rw (far, y, two, c, e.good, decided_last r (suc n) e.k e.s found, y) refl) e.cache
        | inr y ↦
            forth_alone vote r n 0 r.s1 _ _ e.k e.s e.key e.sig e.good e.cache t refl found
              (rw (far, y, at_end, c) refl)
              (sym (greedy_front (made vote) r.k1 (suc (suc n)) r.s1 1 ∙ rw y refl))
      ]

  -- The last of two signatures is answered, and the other is decided.
  pub back_end :
      (r : Race) (n : ℕ)
      → Ends vote r n 0
      → made vote r.k1 r.s1 ≡ true
      → r.tasks ≡ []
      → r.task_count ≡ 1
      → Next vote
          (receive vote.scheme vote.pkeys vote.sigs r.s2 (made vote r.k2 r.s2) r)
          (greedy (made vote) r.k1 (suc (suc n)) r.s1 2)
          (n + 1)
  unfolding receive
  back_end r zero e found t c =
      let near : (r.k1 + 1 == r.k2) ≡ true = ground (arith, e.k) in
      let two : (r.s1 + 1 == r.s2) ≡ true = ground (arith, e.s) in
      elim (Bool-cases (made vote r.k2 r.s2)) [
        | inl y ↦
            Next.stops r.keys (rw (near, y, two, c, decided_first r 0 e.k e.s found, y) refl)
              e.cache
        | inr y ↦
            Next.stops r.keys
              (rw
                (
                  near,
                  y,
                  c,
                  decided_first r 0 e.k e.s found,
                  y,
                  greedy_short (made vote) (r.k1 + 1) 0 (r.s1 + 1) 1 (omega arith),
                )
                refl)
              e.cache
      ]
  back_end r (suc n) e found t c =
      let far : (r.k1 + 1 == r.k2) ≡ false = ground (arith, e.k) in
      let two : (r.s1 + 1 == r.s2) ≡ true = ground (arith, e.s) in
      let at_end : (r.s2 == r.s2) ≡ true = ground arith in
      elim (Bool-cases (made vote r.k2 r.s2)) [
        | inl y ↦
            Next.stops r.keys
              (rw (far, y, two, c, e.good, decided_first r (suc n) e.k e.s found, y) refl) e.cache
        | inr y ↦
            back_alone vote r n 0 r.s2 _ _ e.k e.s e.key e.sig e.good e.cache t refl found
              (rw (far, y, at_end, c) refl)
              (sym (greedy_end vote r (suc (suc n)) 1 e.k e.s ∙ rw y refl))
      ]

-- ===== src/Vm/Multisig/Schedule/Both.antt =====
-- A result in the loop of checkMultisigPar (pkg/vm/vm.go) while a task of each end is under way.
use neovm.Prelude.{
  ℕ, zero, suc, ◌+◌, ◌-◌, ◌≡◌, refl, sym, ◌∙◌, Bool, true, false, ◌&&◌, [], ◌∷◌, ◌==◌,
  if◌then◌else◌, arith, Bool-cases, inl, inr,
}
use neovm.Vm.Multisig.{Race, receive}
use neovm.Vm.Multisig.Greedy.{greedy, greedy_short, greedy_front, greedy_back}
use neovm.Vm.Multisig.Schedule.Setup.{Votes, made, forth, back, Ends, Form, Next}
use neovm.Vm.Multisig.Schedule.Sends.{forth_sent, back_sent}

and-false : (b : Bool) → (b && false) ≡ false
and-false true = refl
and-false false = refl

module _ (vote : Votes) where
  -- The greedy check from the (back vote) of what is left.
  pub greedy_end :
      (r : Race) (n m : ℕ)
      → r.k2 ≡ r.k1 + n
      → r.s2 ≡ r.s1 + m
      → greedy (made vote) r.k1 (suc n) r.s1 (suc m) ≡ (
          if (made vote) r.k2 r.s2
          then greedy (made vote) r.k1 n r.s1 m
          else greedy (made vote) r.k1 n r.s1 (suc m))
  greedy_end r n m k s = rw (k, s) (greedy_back (made vote) r.k1 n r.s1 m)

  -- The first of the signatures left is answered while the last is under way.
  pub forth_both :
      (r : Race) (n m : ℕ)
      → Ends vote r n m
      → r.tasks ≡ (back vote) r ∷ []
      → r.task_count ≡ 2
      → Next vote
          (receive vote.scheme vote.pkeys vote.sigs r.s1 (made vote r.k1 r.s1) r)
          (greedy (made vote) r.k1 (suc (suc n)) r.s1 (suc (suc m)))
          (n + 2)
  unfolding receive
  forth_both r zero zero e t c =
      let near : (r.k1 + 1 == r.k2) ≡ true = ground (arith, e.k) in
      let two : (r.s1 + 1 == r.s2) ≡ true = ground (arith, e.s) in
      elim (Bool-cases (made vote r.k1 r.s1)) [
        | inl y ↦
            Next.goes (record r { task_count = 1; sigok = true }) 0 0 (rw (near, y, two, c) refl)
              (Form.last
                (record {
                  k = e.k;
                  s = e.s;
                  key = e.key;
                  sig = e.sig;
                  good = refl;
                  cache = e.cache;
                })
                refl y t refl)
              refl (omega arith)
        | inr y ↦
            Next.stops r.keys
              (rw
                (
                  near,
                  y,
                  c,
                  greedy_front (made vote) r.k1 1 r.s1 1,
                  y,
                  greedy_short (made vote) (r.k1 + 1) 1 r.s1 2 (omega arith),
                )
                refl)
              e.cache
      ]
  forth_both r zero (suc m) e t c =
      let near : (r.k1 + 1 == r.k2) ≡ true = ground (arith, e.k) in
      let more : (r.s1 + 1 == r.s2) ≡ false = ground (arith, e.s) in
      Next.stops r.keys
        (rw
          (
            near,
            more,
            c,
            greedy_short (made vote) r.k1 2 r.s1 (suc (suc (suc m))) (omega arith),
            and-false,
          )
          refl)
        e.cache
  forth_both r (suc n) zero e t c =
      let far : (r.k1 + 1 == r.k2) ≡ false = ground (arith, e.k) in
      let two : (r.s1 + 1 == r.s2) ≡ true = ground (arith, e.s) in
      let at_end : (r.s1 == r.s2) ≡ false = ground (arith, e.s) in
      elim (Bool-cases (made vote r.k1 r.s1)) [
        | inl y ↦
            Next.goes (record r { task_count = 1 }) (suc n) 0 (rw (far, y, two, c, e.good) refl)
              (Form.last
                (record {
                  k = e.k;
                  s = e.s;
                  key = e.key;
                  sig = e.sig;
                  good = e.good;
                  cache = e.cache;
                })
                refl y t refl)
              refl (omega arith)
        | inr y ↦
            forth_sent vote r n 0 r.s1 _ _ e.k e.s e.key e.sig e.good e.cache t
              (rw (far, y, at_end, c) refl)
              (sym (greedy_front (made vote) r.k1 (suc (suc n)) r.s1 1 ∙ rw y refl))
      ]
  forth_both r (suc n) (suc m) e t c =
      let far : (r.k1 + 1 == r.k2) ≡ false = ground (arith, e.k) in
      let more : (r.s1 + 1 == r.s2) ≡ false = ground (arith, e.s) in
      let at_end : (r.s1 == r.s2) ≡ false = ground (arith, e.s) in
      elim (Bool-cases (made vote r.k1 r.s1)) [
        | inl y ↦
            forth_sent vote r n m (r.s1 + 1) _ _ e.k (omega (arith, e.s)) e.key e.sig e.good e.cache
              t (rw (far, y, more, at_end, c) refl)
              (sym (greedy_front (made vote) r.k1 (suc (suc n)) r.s1 (suc (suc m)) ∙ rw y refl))
        | inr y ↦
            forth_sent vote r n (suc m) r.s1 _ _ e.k e.s e.key e.sig e.good e.cache t
              (rw (far, y, at_end, c) refl)
              (sym (greedy_front (made vote) r.k1 (suc (suc n)) r.s1 (suc (suc m)) ∙ rw y refl))
      ]

  -- The last of the signatures left is answered while the first is under way.
  pub back_both :
      (r : Race) (n m : ℕ)
      → Ends vote r n m
      → r.tasks ≡ (forth vote) r ∷ []
      → r.task_count ≡ 2
      → Next vote
          (receive vote.scheme vote.pkeys vote.sigs r.s2 (made vote r.k2 r.s2) r)
          (greedy (made vote) r.k1 (suc (suc n)) r.s1 (suc (suc m)))
          (n + 2)
  unfolding receive
  back_both r zero zero e t c =
      let near : (r.k1 + 1 == r.k2) ≡ true = ground (arith, e.k) in
      let two : (r.s1 + 1 == r.s2) ≡ true = ground (arith, e.s) in
      elim (Bool-cases (made vote r.k2 r.s2)) [
        | inl y ↦
            Next.goes (record r { task_count = 1; sigok = true }) 0 0 (rw (near, y, two, c) refl)
              (Form.first
                (record {
                  k = e.k;
                  s = e.s;
                  key = e.key;
                  sig = e.sig;
                  good = refl;
                  cache = e.cache;
                })
                refl y t refl)
              refl (omega arith)
        | inr y ↦
            Next.stops r.keys
              (rw
                (
                  near,
                  y,
                  c,
                  greedy_end r 1 1 e.k e.s,
                  y,
                  greedy_short (made vote) r.k1 1 r.s1 2 (omega arith),
                )
                refl)
              e.cache
      ]
  back_both r zero (suc m) e t c =
      let near : (r.k1 + 1 == r.k2) ≡ true = ground (arith, e.k) in
      let more : (r.s1 + 1 == r.s2) ≡ false = ground (arith, e.s) in
      Next.stops r.keys
        (rw
          (
            near,
            more,
            c,
            greedy_short (made vote) r.k1 2 r.s1 (suc (suc (suc m))) (omega arith),
            and-false,
          )
          refl)
        e.cache
  back_both r (suc n) zero e t c =
      let far : (r.k1 + 1 == r.k2) ≡ false = ground (arith, e.k) in
      let two : (r.s1 + 1 == r.s2) ≡ true = ground (arith, e.s) in
      let at_end : (r.s2 == r.s2) ≡ true = ground arith in
      elim (Bool-cases (made vote r.k2 r.s2)) [
        | inl y ↦
            Next.goes (record r { task_count = 1 }) (suc n) 0 (rw (far, y, two, c, e.good) refl)
              (Form.first
                (record {
                  k = e.k;
                  s = e.s;
                  key = e.key;
                  sig = e.sig;
                  good = e.good;
                  cache = e.cache;
                })
                refl y t refl)
              refl (omega arith)
        | inr y ↦
            back_sent vote r n 0 r.s2 _ _ e.k e.s e.key e.sig e.good e.cache t
              (rw (far, y, at_end, c) refl) (sym (greedy_end r (suc (suc n)) 1 e.k e.s ∙ rw y refl))
      ]
  back_both r (suc n) (suc m) e t c =
      let far : (r.k1 + 1 == r.k2) ≡ false = ground (arith, e.k) in
      let more : (r.s1 + 1 == r.s2) ≡ false = ground (arith, e.s) in
      let at_end : (r.s2 == r.s2) ≡ true = ground arith in
      elim (Bool-cases (made vote r.k2 r.s2)) [
        | inl y ↦
            back_sent vote r n m (r.s2 - 1) _ _ e.k (omega (arith, e.s)) e.key
              (omega (arith, e.sig)) e.good e.cache t (rw (far, y, more, at_end, c) refl)
              (sym (greedy_end r (suc (suc n)) (suc (suc m)) e.k e.s ∙ rw y refl))
        | inr y ↦
            back_sent vote r n (suc m) r.s2 _ _ e.k e.s e.key e.sig e.good e.cache t
              (rw (far, y, at_end, c) refl)
              (sym (greedy_end r (suc (suc n)) (suc (suc m)) e.k e.s ∙ rw y refl))
      ]

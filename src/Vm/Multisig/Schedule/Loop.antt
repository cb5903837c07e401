-- ===== src/Vm/Multisig/Schedule/Loop.antt =====
-- The loop of checkMultisigPar (pkg/vm/vm.go) ends, in whatever order the results arrive.
use neovm.Prelude.{
  ℕ, zero, suc, ◌+◌, ◌≤◌, ◌<◌, ◌≡◌, refl, sym, Bool, some, List, [], ◌∷◌, length, arith, Bool-cases,
  inl, inr,
}
use neovm.Vm.Multisig.{
  Keys, Outcome, answer, Task, Race, Turn, ended, going, panicked, receive, results, pick,
}
use neovm.Vm.Multisig.Cache.{IsCache}
use neovm.Vm.Multisig.Greedy.{greedy}
use neovm.Vm.Multisig.Schedule.Setup.{Votes, made, forth, back, Form, Next, moved, work_lem}
use neovm.Vm.Multisig.Schedule.Both.{forth_both, back_both}
use neovm.Vm.Multisig.Schedule.Alone.{forth_end, back_end}

module _ (vote : Votes) where
  -- The loop is left with this answer.
  abbrev pub Settles : Outcome → Bool → Type 0
  Settles o b = (keys : Keys) × (o ≡ answer b keys) × IsCache vote.scheme keys

  module _ (first_done : ℕ → Bool) where
    abbrev loop : ℕ → Race → Outcome
    loop = results vote.scheme vote.pkeys vote.sigs first_done

    abbrev follow : ℕ → Turn → Outcome
    follow fuel (ended ok keys) = answer ok keys
    follow fuel (going q) = loop fuel q
    follow fuel panicked = Outcome.panic

    follow-Settles :
        (fuel : ℕ) (t : Turn) (b : Bool)
        → ((q : Race) (n m : ℕ)
            → Form vote q n m
            → n + q.task_count ≤ fuel
            → Settles (loop fuel q) (greedy (made vote) q.k1 (suc (suc n)) q.s1 (suc (suc m))))
        → Next vote t b (suc fuel)
        → Settles (follow fuel t) b
    follow-Settles fuel t b ih (Next.stops keys e c) = (keys, rw e refl, c)
    follow-Settles fuel t b ih (Next.goes q n m e form target h) =
        rw (e, sym target) (ih q n m form (omega arith))

    results-follow :
        (fuel : ℕ) (q : Race) (i j : ℕ) (tasks : List Task) (turn : Turn)
        → pick (first_done fuel) q.tasks ≡ some (record { key = vote.key_at i; signum = j }, tasks)
        → j < length vote.sigs
        → receive vote.scheme vote.pkeys vote.sigs j (made vote i j) (record q { tasks = tasks })
          ≡ turn
        → loop (suc fuel) q ≡ follow fuel turn
    unfolding results
    results-follow fuel q i j tasks (ended ok keys) e h t =
        rw (results, e, work_lem vote i j (record q { tasks = tasks }) h, t) refl
    results-follow fuel q i j tasks (going q') e h t =
        rw (results, e, work_lem vote i j (record q { tasks = tasks }) h, t) refl
    results-follow fuel q i j tasks panicked e h t =
        rw (results, e, work_lem vote i j (record q { tasks = tasks }) h, t) refl

    -- One result, from a task that may be answered.
    result-Settles :
        (fuel : ℕ) (q : Race) (i j : ℕ) (tasks : List Task) (b : Bool) (bound : ℕ)
        → bound ≤ suc fuel
        → ((q : Race) (n m : ℕ)
            → Form vote q n m
            → n + q.task_count ≤ fuel
            → Settles (loop fuel q) (greedy (made vote) q.k1 (suc (suc n)) q.s1 (suc (suc m))))
        → pick (first_done fuel) q.tasks ≡ some (record { key = vote.key_at i; signum = j }, tasks)
        → j < length vote.sigs
        → Next vote
            (receive vote.scheme vote.pkeys vote.sigs j
              (made vote i j)
              (record q { tasks = tasks }))
            b
            bound
        → Settles (loop (suc fuel) q) b
    result-Settles fuel q i j tasks b bound h ih e l (Next.stops keys t c) =
        (keys, results-follow fuel q i j tasks _ e l t, c)
    result-Settles fuel q i j tasks b bound h ih e l (Next.goes q' n m t form target d) =
        rw (results-follow fuel q i j tasks _ e l t, sym target) (ih q' n m form (omega arith))

    -- Enough fuel is one for each key between the ends and one for each task.
    pub results-Settles :
        (fuel : ℕ) (q : Race) (n m : ℕ)
        → Form vote q n m
        → n + q.task_count ≤ fuel
        → Settles (loop fuel q) (greedy (made vote) q.k1 (suc (suc n)) q.s1 (suc (suc m)))
    results-Settles zero q n m (Form.both e t c) h = absurd (omega arith)
    results-Settles zero q n m (Form.swapped e t c) h = absurd (omega arith)
    results-Settles zero q n m (Form.first e z f t c) h = absurd (omega arith)
    results-Settles zero q n m (Form.last e z f t c) h = absurd (omega arith)
    results-Settles (suc fuel) q n m (Form.both e t c) h = elim (Bool-cases (first_done fuel)) [
      | inl old ↦
          result-Settles fuel q q.k1 q.s1 (back vote q ∷ []) _ (n + 2) (omega arith)
            (λ q n m. results-Settles fuel q n m) (rw (old, t) refl) (omega (arith, e.s, e.sig))
            (forth_both vote (record q { tasks = back vote q ∷ [] }) n m (moved vote e) refl c)
      | inr new ↦
          result-Settles fuel q q.k2 q.s2 (forth vote q ∷ []) _ (n + 2) (omega arith)
            (λ q n m. results-Settles fuel q n m) (rw (new, t) refl) e.sig
            (back_both vote (record q { tasks = forth vote q ∷ [] }) n m (moved vote e) refl c)
    ]
    results-Settles (suc fuel) q n m (Form.swapped e t c) h = elim (Bool-cases (first_done fuel)) [
      | inl old ↦
          result-Settles fuel q q.k2 q.s2 (forth vote q ∷ []) _ (n + 2) (omega arith)
            (λ q n m. results-Settles fuel q n m) (rw (old, t) refl) e.sig
            (back_both vote (record q { tasks = forth vote q ∷ [] }) n m (moved vote e) refl c)
      | inr new ↦
          result-Settles fuel q q.k1 q.s1 (back vote q ∷ []) _ (n + 2) (omega arith)
            (λ q n m. results-Settles fuel q n m) (rw (new, t) refl) (omega (arith, e.s, e.sig))
            (forth_both vote (record q { tasks = back vote q ∷ [] }) n m (moved vote e) refl c)
    ]
    results-Settles (suc fuel) q n zero (Form.first e z f t c) h =
        result-Settles fuel q q.k1 q.s1 [] _ (n + 1) (omega arith)
          (λ q n m. results-Settles fuel q n m) (rw t refl) (omega (arith, e.s, e.sig))
          (forth_end vote (record q { tasks = [] }) n (moved vote e) f refl c)
    results-Settles (suc fuel) q n (suc m) (Form.first e z f t c) h = absurd (omega arith)
    results-Settles (suc fuel) q n zero (Form.last e z f t c) h =
        result-Settles fuel q q.k2 q.s2 [] _ (n + 1) (omega arith)
          (λ q n m. results-Settles fuel q n m) (rw t refl) e.sig
          (back_end vote (record q { tasks = [] }) n (moved vote e) f refl c)
    results-Settles (suc fuel) q n (suc m) (Form.last e z f t c) h = absurd (omega arith)

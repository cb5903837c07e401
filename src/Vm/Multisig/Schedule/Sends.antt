-- ===== src/Vm/Multisig/Schedule/Sends.antt =====
-- A task that the loop of checkMultisigPar (pkg/vm/vm.go) sends keeps the form of its state.
use neovm.Prelude.{ℕ, suc, ◌+◌, ◌-◌, ◌<◌, ◌≡◌, refl, ◌∙◌, Bool, true, [], ◌∷◌, length, arith}
use neovm.Vm.Multisig.{Race, Turn, send}
use neovm.Vm.Multisig.Cache.{IsCache}
use neovm.Vm.Multisig.Greedy.{greedy}
use neovm.Vm.Multisig.Schedule.Setup.{Votes, made, forth, back, Form, Next, send_lem}

module _ (vote : Votes) where
  -- The next key is sent from the front, while the (back vote) is under way.
  pub forth_sent :
      (r : Race) (n m s : ℕ) (x : Turn) (b : Bool)
      → r.k2 ≡ r.k1 + suc (suc n)
      → r.s2 ≡ s + suc m
      → r.k2 < length vote.pkeys
      → r.s2 < length vote.sigs
      → r.sigok ≡ true
      → IsCache vote.scheme r.keys
      → r.tasks ≡ (back vote) r ∷ []
      → x
        ≡ send vote.scheme vote.pkeys vote.sigs
            (r.k1 + 1)
            s
            (record r { k1 = r.k1 + 1; s1 = s; task_count = 1 })
      → greedy (made vote) (r.k1 + 1) (suc (suc n)) s (suc (suc m)) ≡ b
      → Next vote x b (suc n + 2)
  forth_sent r n m s x b k o key sig good cache t turn rest =
      let (keys, cache', sent) =
        send_lem vote (r.k1 + 1) s (record r { k1 = r.k1 + 1; s1 = s; task_count = 1 })
          (omega (arith, k, key)) cache in
      Next.goes
        (record r {
          k1 = r.k1 + 1;
          s1 = s;
          task_count = 2;
          tasks = back vote r ∷ record { key = vote.key_at (r.k1 + 1); signum = s } ∷ [];
          keys = keys;
        })
        n m (turn ∙ sent ∙ rw t refl)
        (Form.swapped
          (record {
            k = omega (arith, k);
            s = o;
            key = omega (arith, key);
            sig = sig;
            good = good;
            cache = cache';
          })
          refl refl)
        rest (omega arith)

  -- The next key is sent from the (back vote), while the front is under way.
  pub back_sent :
      (r : Race) (n m s : ℕ) (x : Turn) (b : Bool)
      → r.k2 ≡ r.k1 + suc (suc n)
      → s ≡ r.s1 + suc m
      → r.k2 < length vote.pkeys
      → s < length vote.sigs
      → r.sigok ≡ true
      → IsCache vote.scheme r.keys
      → r.tasks ≡ (forth vote) r ∷ []
      → x
        ≡ send vote.scheme vote.pkeys vote.sigs
            (r.k2 - 1)
            s
            (record r { k2 = r.k2 - 1; s2 = s; task_count = 1 })
      → greedy (made vote) r.k1 (suc (suc n)) r.s1 (suc (suc m)) ≡ b
      → Next vote x b (suc n + 2)
  back_sent r n m s x b k o key sig good cache t turn rest =
      let (keys, cache', sent) =
        send_lem vote (r.k2 - 1) s (record r { k2 = r.k2 - 1; s2 = s; task_count = 1 })
          (omega (arith, k, key)) cache in
      Next.goes
        (record r {
          k2 = r.k2 - 1;
          s2 = s;
          task_count = 2;
          tasks = forth vote r ∷ record { key = vote.key_at (r.k2 - 1); signum = s } ∷ [];
          keys = keys;
        })
        n m (turn ∙ sent ∙ rw t refl)
        (Form.both
          (record {
            k = omega (arith, k);
            s = o;
            key = omega (arith, key);
            sig = sig;
            good = good;
            cache = cache';
          })
          refl refl)
        rest (omega arith)

  -- The next key is sent from the front, and the last signature is decided.
  pub forth_alone :
      (r : Race) (n m s : ℕ) (x : Turn) (b : Bool)
      → r.k2 ≡ r.k1 + suc (suc n)
      → r.s2 ≡ s + suc m
      → r.k2 < length vote.pkeys
      → r.s2 < length vote.sigs
      → r.sigok ≡ true
      → IsCache vote.scheme r.keys
      → r.tasks ≡ []
      → m ≡ 0
      → made vote r.k2 r.s2 ≡ true
      → x
        ≡ send vote.scheme vote.pkeys vote.sigs
            (r.k1 + 1)
            s
            (record r { k1 = r.k1 + 1; s1 = s; task_count = 0 })
      → greedy (made vote) (r.k1 + 1) (suc (suc n)) s (suc (suc m)) ≡ b
      → Next vote x b (suc n + 1)
  forth_alone r n m s x b k o key sig good cache t zero_left found turn rest =
      let (keys, cache', sent) =
        send_lem vote (r.k1 + 1) s (record r { k1 = r.k1 + 1; s1 = s; task_count = 0 })
          (omega (arith, k, key)) cache in
      Next.goes
        (record r {
          k1 = r.k1 + 1;
          s1 = s;
          task_count = 1;
          tasks = record { key = vote.key_at (r.k1 + 1); signum = s } ∷ [];
          keys = keys;
        })
        n m (turn ∙ sent ∙ rw t refl)
        (Form.first
          (record {
            k = omega (arith, k);
            s = o;
            key = omega (arith, key);
            sig = sig;
            good = good;
            cache = cache';
          })
          zero_left found refl refl)
        rest (omega arith)

  -- The next key is sent from the (back vote), and the first signature is decided.
  pub back_alone :
      (r : Race) (n m s : ℕ) (x : Turn) (b : Bool)
      → r.k2 ≡ r.k1 + suc (suc n)
      → s ≡ r.s1 + suc m
      → r.k2 < length vote.pkeys
      → s < length vote.sigs
      → r.sigok ≡ true
      → IsCache vote.scheme r.keys
      → r.tasks ≡ []
      → m ≡ 0
      → made vote r.k1 r.s1 ≡ true
      → x
        ≡ send vote.scheme vote.pkeys vote.sigs
            (r.k2 - 1)
            s
            (record r { k2 = r.k2 - 1; s2 = s; task_count = 0 })
      → greedy (made vote) r.k1 (suc (suc n)) r.s1 (suc (suc m)) ≡ b
      → Next vote x b (suc n + 1)
  back_alone r n m s x b k o key sig good cache t zero_left found turn rest =
      let (keys, cache', sent) =
        send_lem vote (r.k2 - 1) s (record r { k2 = r.k2 - 1; s2 = s; task_count = 0 })
          (omega (arith, k, key)) cache in
      Next.goes
        (record r {
          k2 = r.k2 - 1;
          s2 = s;
          task_count = 1;
          tasks = record { key = vote.key_at (r.k2 - 1); signum = s } ∷ [];
          keys = keys;
        })
        n m (turn ∙ sent ∙ rw t refl)
        (Form.last
          (record {
            k = omega (arith, k);
            s = o;
            key = omega (arith, key);
            sig = sig;
            good = good;
            cache = cache';
          })
          zero_left found refl refl)
        rest (omega arith)

-- ===== src/Vm/Multisig/Schedule/Setup.antt =====
-- The keys and signatures of a check by checkMultisigPar (pkg/vm/vm.go), and the states of its loop.
use neovm.Prelude.{
  ℕ, zero, suc, ◌+◌, ◌≤◌, ◌<◌, ◌≡◌, refl, Bool, true, some, List, [], ◌∷◌, ◌++◌, length, get_elem?,
  get_or, arith, le→not-ltb,
}
use neovm.Keys.PublicKey.{PublicKey, infinity, point}
use neovm.Vm.Multisig.{
  Scheme, Keys, Task, Race, Turn, ended, going, decode_key, signs, verify, send, receive, work,
}
use neovm.Vm.Multisig.Cache.{IsCache, bytes_to_public_key-IsCache}
use neovm.Vm.Multisig.Greedy.{greedy}

pub verify-signs :
    (scheme : Scheme) (key : PublicKey) (sig : List ℕ)
    → 64 ≤ length sig
    → verify scheme key sig ≡ some (signs scheme key sig)
unfolding verify
verify-signs scheme infinity sig h = refl
verify-signs scheme (point x y) sig h = rw (le→not-ltb (length sig) 64 h) refl

get_elem?-get_or :
    {A : Type 0} (s : List A) (i : ℕ) (d : A) → i < length s → get_elem? s i ≡ some (get_or s i d)
get_elem?-get_or [] i d h = absurd (omega arith)
get_elem?-get_or (x ∷ s) zero d h = refl
get_elem?-get_or (x ∷ s) (suc i) d h = get_elem?-get_or s i d (omega arith)

-- The keys of the stack with what they decode to, and signatures that are long enough.
pub record Votes : Type 0 where
  pub scheme : Scheme
  pub pkeys : List (List ℕ)
  pub sigs : List (List ℕ)
  pub key_at : ℕ → PublicKey
  pub decodes : (i : ℕ) → i < length pkeys → decode_key scheme (get_or pkeys i []) ≡ some (key_at i)
  pub long : (j : ℕ) → j < length sigs → 64 ≤ length (get_or sigs j [])

module _ (vote : Votes) where
  -- The signature j is one of the key i.
  abbrev pub made : ℕ → ℕ → Bool
  made i j = signs vote.scheme (vote.key_at i) (get_or vote.sigs j [])

  abbrev pub forth : Race → Task
  forth q = record { key = vote.key_at q.k1; signum = q.s1 }

  abbrev pub back : Race → Task
  back q = record { key = vote.key_at q.k2; signum = q.s2 }

  -- The keys and signatures not yet decided are those from k1 to k2 and from s1 to s2.
  pub record Ends (q : Race) (n m : ℕ) : Type 0 where
    pub k : q.k2 ≡ q.k1 + suc n
    pub s : q.s2 ≡ q.s1 + suc m
    pub key : q.k2 < length vote.pkeys
    pub sig : q.s2 < length vote.sigs
    pub good : q.sigok ≡ true
    pub cache : IsCache vote.scheme q.keys

  -- Both ends are under way, or one of the two signatures left is decided.
  pub data Form (q : Race) (n m : ℕ) : Type 0 where
    both : Ends q n m → q.tasks ≡ forth q ∷ back q ∷ [] → q.task_count ≡ 2 → Form q n m
    swapped : Ends q n m → q.tasks ≡ back q ∷ forth q ∷ [] → q.task_count ≡ 2 → Form q n m
    first :
        Ends q n m
        → m ≡ 0
        → made q.k2 q.s2 ≡ true
        → q.tasks ≡ forth q ∷ []
        → q.task_count ≡ 1
        → Form q n m
    last :
        Ends q n m
        → m ≡ 0
        → made q.k1 q.s1 ≡ true
        → q.tasks ≡ back q ∷ []
        → q.task_count ≡ 1
        → Form q n m

  -- What a result leads to: the answer, or a state of the same form that is nearer to it.
  pub data Next (t : Turn) (b : Bool) (bound : ℕ) : Type 0 where
    stops : (keys : Keys) → t ≡ ended b keys → IsCache vote.scheme keys → Next t b bound
    goes :
        (q : Race) (n m : ℕ)
        → t ≡ going q
        → Form q n m
        → greedy made q.k1 (suc (suc n)) q.s1 (suc (suc m)) ≡ b
        → n + q.task_count < bound
        → Next t b bound

  -- The ends do not depend on the tasks.
  pub moved :
      {q : Race} {n m : ℕ} {tasks : List Task} → Ends q n m → Ends (record q { tasks = tasks }) n m
  moved e = record { k = e.k; s = e.s; key = e.key; sig = e.sig; good = e.good; cache = e.cache }

  pub send_lem :
      (k s : ℕ) (q : Race)
      → k < length vote.pkeys
      → IsCache vote.scheme q.keys
      → (keys : Keys) × IsCache vote.scheme keys
        × (send vote.scheme vote.pkeys vote.sigs k s q
            ≡ going (record q {
              task_count = q.task_count + 1;
              tasks = q.tasks ++ (record { key = vote.key_at k; signum = s } ∷ []);
              keys = keys;
            }))
  send_lem k s q h c =
      let (keys, e, c') =
        bytes_to_public_key-IsCache vote.scheme q.keys (get_or vote.pkeys k []) (vote.key_at k) c
          (vote.decodes k h) in
      (keys, c', rw (send, get_elem?-get_or vote.pkeys k [] h, e) refl)

  pub work_lem :
      (i j : ℕ) (q : Race)
      → j < length vote.sigs
      → work vote.scheme vote.pkeys vote.sigs (record { key = vote.key_at i; signum = j }) q
        ≡ some (receive vote.scheme vote.pkeys vote.sigs j (made i j) q)
  work_lem i j q h =
      rw
        (
          work,
          get_elem?-get_or vote.sigs j [] h,
          verify-signs vote.scheme (vote.key_at i) (get_or vote.sigs j []) (vote.long j h),
        )
        refl

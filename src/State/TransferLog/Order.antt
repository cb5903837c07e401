-- ===== src/State/TransferLog/Order.antt =====
-- A log that transfers were appended to is walked from the newest to the oldest.
use neovm.Prelude.{
  ℕ, zero, suc, ◌+◌, ◌-◌, ◌≤◌, ◌<◌, ◌≡◌, refl, subst, ◌∙◌, true, false, Option, none, some, List,
  [], ◌∷◌, ◌++◌, All, append_assoc, append-nil, length, length-append, take, drop,
  drop-append_length, take-append_length, ltb, ◌==◌, arith, Proc,
}
use neovm.Io.Reader.{Read, reader}
use neovm.Io.Writer.{Write, buf_bytes}
use neovm.Io.Codec.{Carries}
use neovm.State.TransferLog.{
  append, Outcome, continues, fails, Callback, after, for_each_from, for_each, visit,
}

-- The transfers of a type are read back as they were written, and have all the same size, not zero.
pub record Sized {T : Type 0} (enc : T → Write) (dec : Read T) (P : T → Type 0) (size : ℕ)
    : Type 0 where
  pub carries : (t : T) → P t → Carries (enc t) dec t
  pub sized : (t : T) → (p : P t) → length (carries t p).bytes ≡ size
  pub positive : 0 < size

after-congr :
    {S : Type 0} {k k' : Proc S Outcome} (o : Option (Outcome × S))
    → ((s : S) → k s ≡ k' s)
    → after k o ≡ after k' o
after-congr none e = refl
after-congr (some (fails x, s)) e = refl
after-congr (some (continues false, s)) e = refl
after-congr (some (continues true, s)) e = e s

module _ {S T : Type 0} (dec : Read T) (f : Callback S T) where
  -- One turn of the loop: the transfer before `rest` is decoded and handed to the callback.
  turn :
      (size fuel : ℕ) (pre b rest : List ℕ) (t : T) (s : S)
      → 0 < size
      → length b ≡ size
      → dec (reader b) ≡ some (t, reader [])
      → for_each_from dec f (suc fuel) size ((pre ++ b) ++ rest) (length (pre ++ b)) s
        ≡ after (for_each_from dec f fuel size (pre ++ (b ++ rest)) (length pre)) (f t s)
  unfolding for_each_from
  turn size fuel pre b rest t s positive e d =
      rw (for_each_from, append_assoc, some_left, whole, left, slice, d)
    where
      total : length (pre ++ b) ≡ length pre + size
      total = length-append pre b ∙ rw e

      some_left : (length (pre ++ b) == 0) ≡ false
      some_left = rw total (ground arith)

      whole : ltb (length (pre ++ b)) size ≡ false
      whole = rw total (ground arith)

      left : length (pre ++ b) - size ≡ length pre
      left = omega (arith, total)

      slice : take size (drop (length pre) (pre ++ (b ++ rest))) ≡ b
      slice =
          rw drop-append_length (subst (λ n. take n (b ++ rest) ≡ b) e (take-append_length b rest))

module _ {T : Type 0} {enc : T → Write} {dec : Read T} {P : T → Type 0} {size : ℕ}
    (z : Sized enc dec P size) where
  -- The bytes of a log whose transfers stand here from the newest to the oldest.
  abbrev pub raw_of : (ts : List T) → All P ts → List ℕ
  raw_of [] h = []
  raw_of (t ∷ ts) (p, h) = raw_of ts h ++ (z.carries t p).bytes

  -- Append makes a transfer, which is read back as it was written and has the size of the log's
  -- transfers, the newest of a log, without error.
  append-raw_of :
      (t : T) (p : P t) (ts : List T) (h : All P ts)
      → append enc t (raw_of ts h) ≡ some (none, raw_of (t ∷ ts) (p, h))
  unfolding append buf_bytes
  append-raw_of t p ts h = rw ((z.carries t p).writes [])

  walk :
      {S : Type 0} (f : Callback S T) (ts : List T) (h : All P ts) (rest : List ℕ) (fuel : ℕ)
      → length (raw_of ts h) ≤ fuel
      → (s : S)
      → for_each_from dec f fuel size (raw_of ts h ++ rest) (length (raw_of ts h)) s
        ≡ visit dec f ts s
  unfolding for_each_from visit
  walk f [] h rest zero le s = refl
  walk f [] h rest (suc fuel) le s = refl
  walk f (t ∷ ts) (p, h) rest zero le s = absurd (omega (arith, long, z.positive, z.sized t p))
    where
      long : length (raw_of ts h) + length (z.carries t p).bytes ≤ 0
      long = subst (λ n. n ≤ 0) (length-append (raw_of ts h) (z.carries t p).bytes) le
  walk f (t ∷ ts) (p, h) rest (suc fuel) le s =
      turn dec f size fuel (raw_of ts h) b rest t s z.positive (z.sized t p) read
      ∙ after-congr (f t s) (λ s'. walk f ts h (b ++ rest) fuel shorter s')
    where
      b : List ℕ
      b = (z.carries t p).bytes

      read : dec (reader b) ≡ some (t, reader [])
      read =
          subst (λ i. dec (reader i) ≡ some (t, reader [])) (append-nil b)
            ((z.carries t p).reads [])

      shorter : length (raw_of ts h) ≤ fuel
      shorter = omega (
        arith,
        z.positive,
        z.sized t p,
        subst (λ n. n ≤ suc fuel) (length-append (raw_of ts h) b) le,
      )

  -- For a log to which transfers were appended, all of one positive size and read back as they were
  -- written, ForEach ends and does what calling the callback on the transfers does, from the newest
  -- to the oldest, until one call stops it, fails or panics.
  pub for_each-visit :
      {S : Type 0} (f : Callback S T) (ts : List T) (h : All P ts) (s : S)
      → for_each dec f size (some (raw_of ts h)) s ≡ visit dec f ts s
  unfolding for_each
  for_each-visit f ts h s =
      subst
        (λ raw.
          for_each_from dec f (length (raw_of ts h)) size raw (length (raw_of ts h)) s
          ≡ visit dec f ts s)
        (append-nil (raw_of ts h)) (walk f ts h [] (length (raw_of ts h)) (omega arith) s)
